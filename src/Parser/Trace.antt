-- ===== src/Parser/Trace.antt =====
-- The runs of the parser as a relation between its turns, and `parse` as the function that follows it.
use redlike.Prelude.{
  ℕ, zero, suc, ◌+◌, ◌≤◌, ◌<◌, ◌≡◌, ◌↔◌, refl, sym, ◌∙◌, subst, none, some, List, [], arith, Bytes,
}
use redlike.Frame.{Frame}
use redlike.Parser.{
  ParseError, Parser, Platform, IsMemchr, ok, err, complete, partial, set_error, extend,
}
use redlike.Parser.Turn.{Turn, again, found, pending, failed, advance}
use redlike.Parser.Run.{
  Run, returned, Attempt, got, measure, deliver, settle, conclude, try_parse_loop,
  try_parse_one_frame, parse_loop, parse,
}
use redlike.Parser.Progress.{Progress, advance-Progress}

-- The parser after a frame was given to its open arrays, and the output.
abbrev pub give : Frame → Parser → List Frame → Parser
give f p output = record p { stack = (deliver f p.stack output).0 }

abbrev pub put_out : Frame → Parser → List Frame → List Frame
put_out f p output = (deliver f p.stack output).1

-- `Trace platform r p output`: from `p`, with the frames put out so far, the turns end in `r`.
pub data Trace (platform : Platform) (r : Run) : Parser → List Frame → Type 0 where
  again_step :
      {p : Parser} {output : List Frame} (p' : Parser)
      → advance platform p ≡ again p'
      → Trace platform r p' output
      → Trace platform r p output
  found_step :
      {p : Parser} {output : List Frame} (f : Frame) (p' : Parser)
      → advance platform p ≡ found f p'
      → Trace platform r (give f p' output) (put_out f p' output)
      → Trace platform r p output
  pending_end :
      {p : Parser} {output : List Frame} (p' : Parser)
      → advance platform p ≡ pending p'
      → r ≡ returned (complete output) p'
      → Trace platform r p output
  failed_end :
      {p : Parser} {output : List Frame} (e : ParseError) (p' : Parser)
      → advance platform p ≡ failed e p'
      → r ≡ returned (partial output e) (set_error p' e)
      → Trace platform r p output
  panicked_end :
      {p : Parser} {output : List Frame}
      → advance platform p ≡ Turn.panicked
      → r ≡ Run.panicked
      → Trace platform r p output

-- What a trace shows behind its first turn.
abbrev pub After : Platform → Run → List Frame → Turn → Type 0
After platform r output (again p') = Trace platform r p' output
After platform r output (found f p') = Trace platform r (give f p' output) (put_out f p' output)
After platform r output (pending p') = r ≡ returned (complete output) p'
After platform r output (failed e p') = r ≡ returned (partial output e) (set_error p' e)
After platform r output Turn.panicked = r ≡ Run.panicked

module _ {platform : Platform} {r : Run} where
  pub Trace-After :
      {p : Parser} {output : List Frame}
      → Trace platform r p output
      → After platform r output (advance platform p)
  Trace-After (again_step p' e t) = rw e t
  Trace-After (found_step f p' e t) = rw e t
  Trace-After (pending_end p' e h) = rw e h
  Trace-After (failed_end x p' e h) = rw e h
  Trace-After (panicked_end e h) = rw e h

  After-Trace_at :
      (p : Parser) (output : List Frame) (t : Turn)
      → advance platform p ≡ t
      → After platform r output t
      → Trace platform r p output
  After-Trace_at p output (again p') e a = again_step p' e a
  After-Trace_at p output (found f p') e a = found_step f p' e a
  After-Trace_at p output (pending p') e a = pending_end p' e a
  After-Trace_at p output (failed x p') e a = failed_end x p' e a
  After-Trace_at p output Turn.panicked e a = panicked_end e a

  pub After-Trace :
      (p : Parser) (output : List Frame)
      → After platform r output (advance platform p)
      → Trace platform r p output
  After-Trace p output a = After-Trace_at p output (advance platform p) refl a

-- The turns decide the result.
pub Trace-deterministic :
    {platform : Platform} {r r' : Run} {p : Parser} {output : List Frame}
    → Trace platform r p output
    → Trace platform r' p output
    → r ≡ r'
Trace-deterministic (again_step p' e t) u = Trace-deterministic t (rw e at (Trace-After u))
Trace-deterministic (found_step f p' e t) u = Trace-deterministic t (rw e at (Trace-After u))
Trace-deterministic (pending_end p' e h) u = h ∙ sym (rw e at (Trace-After u))
Trace-deterministic (failed_end x p' e h) u = h ∙ sym (rw e at (Trace-After u))
Trace-deterministic (panicked_end e h) u = h ∙ sym (rw e at (Trace-After u))

-- What an attempt to read one frame leaves to be done.
abbrev Rest : Platform → Run → List Frame → Attempt → Type 0
Rest platform r output (got (ok (some f)) p') =
    Trace platform r (give f p' output) (put_out f p' output)
Rest platform r output (got (ok none) p') = r ≡ returned (complete output) p'
Rest platform r output (got (err e) p') = r ≡ returned (partial output e) (set_error p' e)
Rest platform r output Attempt.panicked = r ≡ Run.panicked
Rest platform r output Attempt.out_of_fuel = ⊥

-- The measure has fallen where a frame was found.
abbrev Falls : Parser → Attempt → Type 0
Falls p (got (ok (some f)) p') = measure p' < measure p
Falls p Attempt.out_of_fuel = ⊥
Falls p _ = Unit

module _ (platform : Platform) (law : IsMemchr platform) where
  settle-Falls :
      (loop : Parser → Attempt) (p q : Parser) (t : Turn)
      → Progress p t
      → measure p ≤ measure q
      → ((p' : Parser) → measure p' < measure p → Falls q (loop p'))
      → Falls q (settle loop t)
  unfolding settle
  settle-Falls loop p q (again p') pr le ih = ih p' pr
  settle-Falls loop p q (found f p') pr le ih = omega arith
  settle-Falls loop p q (pending p') pr le ih = tt
  settle-Falls loop p q (failed e p') pr le ih = tt
  settle-Falls loop p q Turn.panicked pr le ih = tt

  try_parse_loop-Falls :
      (fuel : ℕ) (p q : Parser)
      → measure p < fuel
      → measure p ≤ measure q
      → Falls q (try_parse_loop platform fuel p)
  unfolding try_parse_loop
  try_parse_loop-Falls zero p q h le = absurd (omega arith)
  try_parse_loop-Falls (suc fuel) p q h le =
      settle-Falls (try_parse_loop platform fuel) p q (advance platform p)
        (advance-Progress platform law p) le
        (λ p' lt. try_parse_loop-Falls fuel p' q (omega arith) (omega arith))

  pub try_parse_one_frame-Falls : (p : Parser) → Falls p (try_parse_one_frame platform p)
  unfolding try_parse_one_frame
  try_parse_one_frame-Falls p = try_parse_loop-Falls (measure p + 1) p p (omega arith) (omega arith)

  module _ (r : Run) (output : List Frame) where
    -- The rest after an attempt makes, with its turns, the whole.
    settle-Trace :
        (loop : Parser → Attempt) (p : Parser) (t : Turn)
        → ((p' : Parser) → Rest platform r output (loop p') → Trace platform r p' output)
        → Rest platform r output (settle loop t)
        → After platform r output t
    unfolding settle
    settle-Trace loop p (again p') ih h = ih p' h
    settle-Trace loop p (found f p') ih h = h
    settle-Trace loop p (pending p') ih h = h
    settle-Trace loop p (failed e p') ih h = h
    settle-Trace loop p Turn.panicked ih h = h

    try_parse_loop-Trace :
        (fuel : ℕ) (p : Parser)
        → Rest platform r output (try_parse_loop platform fuel p)
        → Trace platform r p output
    unfolding try_parse_loop
    try_parse_loop-Trace zero p h = absurd h
    try_parse_loop-Trace (suc fuel) p h = After-Trace p output (
        settle-Trace (try_parse_loop platform fuel) p (advance platform p)
          (try_parse_loop-Trace fuel) h)

  conclude-Trace :
      (loop : Parser → List Frame → Run) (p : Parser) (output : List Frame) (a : Attempt)
      → Falls p a
      → ((p' : Parser) (output' : List Frame)
          → measure p' < measure p
          → Trace platform (loop p' output') p' output')
      → Rest platform (conclude loop output a) output a
  unfolding conclude
  conclude-Trace loop p output (got (ok (some f)) p') lt ih =
      ih (give f p' output) (put_out f p' output) lt
  conclude-Trace loop p output (got (ok none) p') lt ih = refl
  conclude-Trace loop p output (got (err e) p') lt ih = refl
  conclude-Trace loop p output Attempt.panicked lt ih = refl
  conclude-Trace loop p output Attempt.out_of_fuel lt ih = lt

  parse_loop-Trace :
      (fuel : ℕ) (p : Parser) (output : List Frame)
      → measure p < fuel
      → Trace platform (parse_loop platform fuel p output) p output
  unfolding parse_loop try_parse_one_frame
  parse_loop-Trace zero p output h = absurd (omega arith)
  parse_loop-Trace (suc fuel) p output h =
      try_parse_loop-Trace (parse_loop platform (suc fuel) p output) output (measure p + 1) p (
        conclude-Trace (parse_loop platform fuel) p output (try_parse_one_frame platform p)
          (try_parse_one_frame-Falls p)
          (λ p' output' lt. parse_loop-Trace fuel p' output' (omega arith)))

  -- The fuel suffices: a call of `parse` follows the turns to their end.
  pub parse-Trace :
      (p : Parser) (input : Bytes) → Trace platform (parse platform p input) (extend p input) []
  unfolding parse
  parse-Trace p input =
      parse_loop-Trace (measure (extend p input) + 1) (extend p input) [] (omega arith)

  -- A result is the result of `parse` exactly when the turns lead to it.
  pub parse-eq_iff :
      (p : Parser) (input : Bytes) (r : Run)
      → (parse platform p input ≡ r) ↔ Trace platform r (extend p input) []
  parse-eq_iff p input r = (
    λ e. subst (λ s. Trace platform s (extend p input) []) e (parse-Trace p input),
    λ t. Trace-deterministic (parse-Trace p input) t,
  )
