-- ===== src/Parser/RoundTrip.antt =====
-- What `Frame::to_bytes` writes, the parser reads back.
use redlike.Prelude.{
  ℕ, suc, ◌+◌, ◌<◌, ◌≡◌, refl, sym, subst, none, some, List, [], ◌∷◌, ◌++◌, arith, append_assoc,
  append-nil, length, length-append, Bytes,
}
use redlike.Text.Decimal.{print_i64, print_usize}
use redlike.Frame.{
  Frame, Frames, simple_string, simple_error, bulk, integer, array, nil_array, nil, cons, crlf,
  from_frames, to_frames, to_bytes,
}
use redlike.Frame.Laws.{all_bytes, to_bytes-array, to-from_frames}
use redlike.Frame.Sendable.{IsSendable, AllSendable}
use redlike.Parser.{Level, Platform, IsMemchr, start, complete, new, extend}
use redlike.Parser.Turn.{start_turn, advance}
use redlike.Parser.Run.{Run, returned, deliver, parse}
use redlike.Parser.Trace.{Trace, pending_end, parse-eq_iff}
use redlike.Parser.Headers.{at}
use redlike.Parser.Reads.{
  Ends, reads-simple_string, reads-simple_error, reads-integer, reads-bulk, reads-array_header,
  reads-array_empty, reads-nil_array, reads-nil_bulk,
}

module _ (f : Frame) (n : ℕ) (read : List Frame) (stack : List Level) (output : List Frame) where
  abbrev open_array : Level
  open_array = record { capacity = n; frames = read }

  abbrev grown : Level
  grown = record { capacity = n; frames = read ++ f ∷ [] }

  -- The last element closes the array, which is delivered in its turn.
  deliver-last :
      length read + 1 ≡ n
      → deliver f (open_array ∷ stack) output
        ≡ deliver (array (to_frames (read ++ f ∷ []))) stack output
  unfolding deliver
  deliver-last h = ground (arith, length-append read (f ∷ []))

  deliver-inner :
      length read + 1 < n → deliver f (open_array ∷ stack) output ≡ (grown ∷ stack, output)
  unfolding deliver
  deliver-inner h = ground (arith, length-append read (f ∷ []))

array-bytes :
    (fs : Frames) (rest : Bytes)
    → to_bytes (array fs) ++ rest
      ≡ b'*' ∷ (print_usize (length (from_frames fs)) ++ (crlf ++ (all_bytes fs ++ rest)))
array-bytes fs rest = simp (to_bytes-array, append_assoc)

module _ (platform : Platform) (r : Run) where
  -- A frame delivered to an open array, with `rest` still to read.
  abbrev DeliversIn : Bytes → List Level × List Frame → Type 0
  DeliversIn rest w = Ends platform r (at start rest w.0) w.1

  mutual
    unfolding to_bytes IsSendable all_bytes print_i64

    reads :
        (f : Frame) (rest : Bytes) (stack : List Level) (output : List Frame)
        → IsSendable platform.max_capacity f
        → DeliversIn rest (deliver f stack output)
        → Ends platform r (at start (to_bytes f ++ rest) stack) output
    reads (simple_string text) rest stack output h t =
        rw append_assoc (reads-simple_string platform r rest stack output text h t)
    reads (simple_error text) rest stack output h t =
        rw append_assoc (reads-simple_error platform r rest stack output text h t)
    reads (bulk (some payload)) rest stack output h t =
        simp append_assoc (reads-bulk platform r rest stack output payload h t)
    reads (bulk none) rest stack output h t = reads-nil_bulk platform r rest stack output t
    reads (integer z) rest stack output h t =
        rw append_assoc (reads-integer platform r rest stack output z h t)
    reads nil_array rest stack output h t = reads-nil_array platform r rest stack output t
    reads (array nil) rest stack output h t =
        rw append_assoc (reads-array_empty platform r rest stack output t)
    reads (array (cons f fs)) rest stack output (few, fits, each) t =
        subst (λ s. Ends platform r (at start s stack) output) (sym (array-bytes (cons f fs) rest))
          (reads-array_header platform r (all_bytes (cons f fs) ++ rest) stack output
            (length (from_frames fs)) few fits
            (reads_all (cons f fs) [] (suc (length (from_frames fs))) rest stack output
              (omega arith) (omega arith) each
              (subst (λ gs. DeliversIn rest (deliver (array gs) stack output))
                (sym (to-from_frames (cons f fs))) t)))

    -- The elements that an open array still waits for.
    reads_all :
        (fs : Frames) (read : List Frame) (n : ℕ) (rest : Bytes) (stack : List Level)
        (output : List Frame)
        → length read < n
        → length read + length (from_frames fs) ≡ n
        → AllSendable platform.max_capacity fs
        → DeliversIn rest (deliver (array (to_frames (read ++ from_frames fs))) stack output)
        → Ends platform r
            (at start (all_bytes fs ++ rest) (record { capacity = n; frames = read } ∷ stack))
            output
    reads_all nil read n rest stack output more e hs t = absurd (omega arith)
    reads_all (cons f nil) read n rest stack output more e (h, hs) t = rw append-nil (
        reads f rest (record { capacity = n; frames = read } ∷ stack) output h
          (subst (DeliversIn rest) (sym (deliver-last f n read stack output (omega arith))) t))
    reads_all (cons f (cons g gs)) read n rest stack output more e (h, hs) t =
        subst
          (λ s.
            Ends platform r (at start s (record { capacity = n; frames = read } ∷ stack)) output)
          (sym (append_assoc (to_bytes f) (all_bytes (cons g gs)) rest))
          (reads f (all_bytes (cons g gs) ++ rest) (record { capacity = n; frames = read } ∷ stack)
            output h
            (subst (DeliversIn (all_bytes (cons g gs) ++ rest))
              (sym (deliver-inner f n read stack output (omega arith)))
              (reads_all (cons g gs) (read ++ f ∷ []) n rest stack output
                (omega (arith, length-append {0} read (f ∷ [])))
                (omega (arith, length-append {0} read (f ∷ []))) hs
                (subst (λ l. DeliversIn rest (deliver (array (to_frames l)) stack output))
                  (sym (append_assoc read (f ∷ []) (g ∷ from_frames gs))) t))))

module _ (platform : Platform) where
  reads_stream :
      (fs : Frames) (output : List Frame)
      → AllSendable platform.max_capacity fs
      → Trace platform
          (returned (complete (output ++ from_frames fs)) new)
          (at start (all_bytes fs) [])
          output
  unfolding all_bytes deliver advance start_turn IsSendable
  reads_stream nil output h = pending_end new refl (rw append-nil refl)
  reads_stream (cons f fs) output (h, hs) =
      reads platform (returned (complete (output ++ f ∷ from_frames fs)) new) f (all_bytes fs) []
        output h
        (subst
          (λ o.
            Trace platform (returned (complete o) new) (at start (all_bytes fs) [])
              (output ++ f ∷ []))
          (append_assoc output (f ∷ []) (from_frames fs)) (reads_stream fs (output ++ f ∷ []) hs))

  -- Frames written one after the other are read back, in order, each once, and the parser is as new:
  -- for frames whose texts are valid UTF-8 without a line's end, whose lengths and numbers fit an `i64`,
  -- and whose arrays can be allotted. `memchr` is as documented.
  pub parse-to_bytes :
      IsMemchr platform
      → (fs : Frames) → AllSendable platform.max_capacity fs
      → parse platform new (all_bytes fs) ≡ returned (complete (from_frames fs)) new
  unfolding extend
  parse-to_bytes law fs h =
      (parse-eq_iff platform law new (all_bytes fs) _).1 (reads_stream fs [] h)
