-- ===== src/Parser/Stack.antt =====
-- The open arrays of the parser: each waits for at least one more frame, and none outgrows its capacity.
use redlike.Prelude.{
  ℕ, zero, suc, ◌-◌, ◌≤◌, ◌<◌, ◌≡◌, sym, subst, Option, none, some, List, [], ◌∷◌, ◌++◌, arith,
  length, All, Bytes, Option-cases, inl, inr, ℤ, pos, negsuc, ◌==◌, if_elim, take, length-append,
  ==_iff,
}
use redlike.Text.Whitespace.{split_whitespace}
use redlike.Frame.{Frame, array, to_frames}
use redlike.Parser.{
  State, Parser, Level, ParseResult, Parsed, ok, err, Platform, IsMemchr, start,
  reading_simple_string, reading_simple_error, reading_bulk_length, reading_bulk_string,
  reading_integer, reading_inline, reading_array_length, error, read_length, set_error, extend,
  goto, drain,
}
use redlike.Parser.Turn.{
  Turn, again, found, pending, failed, panicked, start_turn, simple_string_turn, simple_error_turn,
  words_turn, inline_turn, bulk_length, bulk_length_turn, bulk_string_turn, integer_turn,
  integer_value, after_length, array_length, array_length_turn, turn, advance,
}
use redlike.Parser.Run.{Run, returned, deliver, parse}
use redlike.Parser.Trace.{
  Trace, again_step, found_step, pending_end, failed_end, panicked_end, parse-Trace,
}

module _ (platform : Platform) where
  -- An open array that was allotted, and is not full.
  abbrev pub IsOpen : Level → Type 0
  IsOpen level = (length level.frames < level.capacity) × (level.capacity ≤ platform.max_capacity)

  abbrev pub AreOpen : List Level → Type 0
  AreOpen stack = All IsOpen stack

  -- What a turn leaves.
  abbrev Leaves : Turn → Type 0
  Leaves (again p) = AreOpen p.stack
  Leaves (found f p) = AreOpen p.stack
  Leaves (pending p) = AreOpen p.stack
  Leaves (failed e p) = AreOpen p.stack
  Leaves panicked = Unit

  start_turn-Leaves : (p : Parser) → AreOpen p.stack → Leaves (start_turn p)
  unfolding start_turn
  start_turn-Leaves p h = ground arith

  simple_string_turn-Leaves : (p : Parser) → AreOpen p.stack → Leaves (simple_string_turn p)
  unfolding simple_string_turn
  simple_string_turn-Leaves p h = ground arith

  simple_error_turn-Leaves : (p : Parser) → AreOpen p.stack → Leaves (simple_error_turn p)
  unfolding simple_error_turn
  simple_error_turn-Leaves p h = ground arith

  words_turn-Leaves : (ws : List Bytes) (p : Parser) → AreOpen p.stack → Leaves (words_turn ws p)
  unfolding words_turn
  words_turn-Leaves [] p h = h
  words_turn-Leaves (w ∷ ws) p h = h

  bulk_string_turn-Leaves :
      (len : ℕ) (p : Parser) → AreOpen p.stack → Leaves (bulk_string_turn len p)
  unfolding bulk_string_turn
  bulk_string_turn-Leaves len p h = ground arith

  inline_turn-Leaves : (p : Parser) → AreOpen p.stack → Leaves (inline_turn platform p)
  unfolding inline_turn
  inline_turn-Leaves p h = elim (Option-cases (platform.memchr b'\n' p.buf)) [
    | inl e ↦ ground arith
    | inr (at, e) ↦ ground (
      arith,
      h,
      words_turn-Leaves (split_whitespace (take at p.buf)) (goto start (drain 1 (drain at p)))
          (unfold goto drain in h),
    )
  ]

  read_length-stack : (p : Parser) → (read_length p).1.stack ≡ p.stack
  unfolding read_length
  read_length-stack p = ground arith

  after_length-Leaves :
      (rest : ℤ → Parser → Turn) (r : Parsed (Option ℤ) × Parser)
      → ((l : ℤ) → AreOpen r.1.stack → Leaves (rest l r.1))
      → AreOpen r.1.stack
      → Leaves (after_length rest r)
  unfolding after_length
  after_length-Leaves rest (ok (some l), p) k h = k l h
  after_length-Leaves rest (ok none, p) k h = h
  after_length-Leaves rest (err e, p) k h = h

  length_turn-Leaves :
      (rest : ℤ → Parser → Turn) (p : Parser)
      → ((l : ℤ) (q : Parser) → AreOpen q.stack → Leaves (rest l q))
      → AreOpen p.stack
      → Leaves (after_length rest (read_length p))
  length_turn-Leaves rest p k h =
      after_length-Leaves rest (read_length p) (λ l. k l (read_length p).1)
        (subst AreOpen (sym (read_length-stack p)) h)

  bulk_length-Leaves : (l : ℤ) (p : Parser) → AreOpen p.stack → Leaves (bulk_length l p)
  unfolding bulk_length
  bulk_length-Leaves (pos n) p h = h
  bulk_length-Leaves (negsuc zero) p h = h
  bulk_length-Leaves (negsuc (suc n)) p h = h

  array_length-Leaves : (l : ℤ) (p : Parser) → AreOpen p.stack → Leaves (array_length platform l p)
  unfolding array_length
  array_length-Leaves (pos zero) p h = h
  array_length-Leaves (pos (suc n)) p h = ground arith
  array_length-Leaves (negsuc zero) p h = h
  array_length-Leaves (negsuc (suc n)) p h = h

  turn-Leaves : (s : State) (p : Parser) → AreOpen p.stack → Leaves (turn platform s p)
  unfolding turn bulk_length_turn integer_turn array_length_turn integer_value
  turn-Leaves start p h = start_turn-Leaves p h
  turn-Leaves reading_simple_string p h = simple_string_turn-Leaves p h
  turn-Leaves reading_simple_error p h = simple_error_turn-Leaves p h
  turn-Leaves reading_inline p h = inline_turn-Leaves p h
  turn-Leaves reading_bulk_length p h = length_turn-Leaves bulk_length p bulk_length-Leaves h
  turn-Leaves (reading_bulk_string len) p h = bulk_string_turn-Leaves len p h
  turn-Leaves reading_integer p h = length_turn-Leaves integer_value p (λ l q k. k) h
  turn-Leaves reading_array_length p h =
      length_turn-Leaves (array_length platform) p array_length-Leaves h
  turn-Leaves (error e) p h = h

  -- A frame is given on from array to array, until one is left with room for more.
  deliver-AreOpen :
      (f : Frame) (stack : List Level) (output : List Frame)
      → AreOpen stack
      → AreOpen (deliver f stack output).0
  unfolding deliver
  deliver-AreOpen f [] output h = tt
  deliver-AreOpen f (level ∷ stack) output (h, hs) =
      if_elim (λ (r : List Level × List Frame). AreOpen r.0) (level.capacity - length frames == 0)
        (λ _. deliver-AreOpen (array (to_frames frames)) stack output hs)
        (λ e. (
          (
            grind (
              arith,
              length-append level.frames (f ∷ []),
              ==_iff (level.capacity - length frames) 0,
              e,
            ),
            h.1,
          ),
          hs,
        ))
    where
      frames : List Frame
      frames = level.frames ++ f ∷ []

  -- What a run leaves, if it returns.
  abbrev Left : Run → Type 0
  Left (returned result p) = AreOpen p.stack
  Left Run.panicked = Unit
  Left Run.out_of_fuel = Unit

  Trace-Left :
      {r : Run} {p : Parser} {output : List Frame}
      → Trace platform r p output
      → AreOpen p.stack
      → Left r
  unfolding advance set_error
  Trace-Left {r} {p} (again_step p' e t) h = Trace-Left t (subst Leaves e (turn-Leaves p.state p h))
  Trace-Left {r} {p} {output} (found_step f p' e t) h =
      Trace-Left t (deliver-AreOpen f p'.stack output (subst Leaves e (turn-Leaves p.state p h)))
  Trace-Left {r} {p} (pending_end p' e x) h =
      subst Left (sym x) (subst Leaves e (turn-Leaves p.state p h))
  Trace-Left {r} {p} (failed_end a p' e x) h =
      subst Left (sym x) (subst Leaves e (turn-Leaves p.state p h))
  Trace-Left (panicked_end e x) h = subst Left (sym x) tt

  -- Every open array of a parser keeps room for at least one more frame, within the capacity that was
  -- allotted for it: whatever is parsed, if it is so before, it is so when `parse` returns, so that no
  -- push makes an array grow, which would change the capacity that tells when it is full. `memchr` is
  -- as documented.
  pub parse-AreOpen :
      IsMemchr platform
      → (p q : Parser) (input : Bytes) (result : ParseResult) → AreOpen p.stack
      → parse platform p input ≡ returned result q
      → AreOpen q.stack
  parse-AreOpen law p q input result h e =
      subst Left e (Trace-Left (parse-Trace platform law p input) (unfold extend in h))
