-- ===== src/Parser/Streaming.antt =====
-- How the input is cut into pieces does not matter to the parser.
use redlike.Prelude.{
  ◌≢◌, ◌-◌, ◌≡◌, refl, sym, subst, ap, ◌∙◌, List, [], ◌∷◌, ◌++◌, append-nil, append_assoc, Bytes,
  length, ◌==◌, Bool-cases, inl, inr,
}
use redlike.Frame.{Frame, array, to_frames}
use redlike.Parser.{
  ParseError, Parser, Platform, IsMemchr, complete, partial, set_error, extend, Level,
}
use redlike.Parser.Turn.{Turn, advance}
use redlike.Parser.Run.{Run, returned, panicked, out_of_fuel, deliver, parse}
use redlike.Parser.Progress.{Progress, advance-Progress}
use redlike.Parser.Extension.{Extends, advance-Extends}
use redlike.Parser.Trace.{
  Trace, again_step, found_step, pending_end, failed_end, panicked_end, parse-Trace, parse-eq_iff,
}

-- The same result, behind frames that were put out before.
unfoldable pub prefixed : List Frame → Run → Run
prefixed before (returned (complete output) p) = returned (complete (before ++ output)) p
prefixed before (returned (partial output e) p) = returned (partial (before ++ output) e) p
prefixed before panicked = panicked
prefixed before out_of_fuel = out_of_fuel

deliver-prefix :
    (f : Frame) (stack : List Level) (before output : List Frame)
    → deliver f stack (before ++ output)
      ≡ ((deliver f stack output).0, before ++ (deliver f stack output).1)
unfolding deliver
deliver-prefix f [] before output = rw append_assoc refl
deliver-prefix f (level ∷ stack) before output =
    elim (Bool-cases (level.capacity - length (level.frames ++ f ∷ []) == 0)) [
      | inl e ↦
          rw e (deliver-prefix (array (to_frames (level.frames ++ f ∷ []))) stack before output)
      | inr e ↦ rw e refl
    ]

module _ {platform : Platform} (before : List Frame) where
  Trace-prefixed :
      {r : Run} {p : Parser} {output : List Frame}
      → Trace platform r p output
      → Trace platform (prefixed before r) p (before ++ output)
  unfolding prefixed
  Trace-prefixed (again_step p' e t) = again_step p' e (Trace-prefixed t)
  Trace-prefixed {r = r} {output = output} (found_step f p' e t) = found_step f p' e (
      subst (λ w. Trace platform (prefixed before r) (record p' { stack = w.0 }) w.1)
        (sym (deliver-prefix f p'.stack before output)) (Trace-prefixed t))
  Trace-prefixed (pending_end p' e h) = pending_end p' e (rw h refl)
  Trace-prefixed (failed_end x p' e h) = failed_end x p' e (rw h refl)
  Trace-prefixed (panicked_end e h) = panicked_end e (rw h refl)

-- What a parser in the state of an error makes of more bytes.
pub parse-error :
    (platform : Platform)
    → IsMemchr platform
    → (p : Parser) (e : ParseError) (input : Bytes)
    → parse platform (set_error p e) input ≡ returned (partial [] e) (extend (set_error p e) input)
unfolding advance set_error extend
parse-error platform law p e input =
    (parse-eq_iff platform law (set_error p e) input _).1 (failed_end e _ refl refl)

-- A call of `parse`, and what a second call makes of the parser that the first one leaves.
unfoldable pub and_then : Run → (Parser → Run) → Run
unfolding prefixed
and_then (returned (complete output) p) k = prefixed output (k p)
and_then (returned (partial output e) p) k = prefixed output (k p)
and_then panicked k = panicked
and_then out_of_fuel k = out_of_fuel

module _ (platform : Platform) (law : IsMemchr platform) (b : Bytes) where
  waits :
      (p p' : Parser) (output : List Frame)
      → p' ≡ p
      → Trace platform (prefixed output (parse platform p' b)) (extend p b) output
  waits p p' output same = rw same (
      subst (Trace platform (prefixed output (parse platform p b)) (extend p b)) (append-nil output)
        (Trace-prefixed output (parse-Trace platform law p b)))

  later :
      (p : Parser) {t : Turn} → advance platform p ≡ t → Extends b t (advance platform (extend p b))
  later p e =
      subst (λ t. Extends b t (advance platform (extend p b))) e (advance-Extends platform law b p)

  unmoved : (p : Parser) {t : Turn} → advance platform p ≡ t → Progress p t
  unmoved p e = subst (Progress p) e (advance-Progress platform law p)

  Trace-join :
      {r : Run} {p : Parser} {output : List Frame}
      → Trace platform r p output
      → Trace platform (and_then r (λ q. parse platform q b)) (extend p b) output
  unfolding and_then extend set_error
  Trace-join {p = p} (again_step p' e t) = again_step (extend p' b) (later p e) (Trace-join t)
  Trace-join {p = p} (found_step f p' e t) = found_step f (extend p' b) (later p e) (Trace-join t)
  Trace-join {p = p} {output = output} (pending_end p' e h) = rw h (waits p p' output (unmoved p e))
  Trace-join {p = p} {output = output} (failed_end x p' e h) =
      failed_end x (extend p' b) (later p e) (
        ap (λ s. and_then s (λ q. parse platform q b)) h
        ∙ ap (prefixed output) (parse-error platform law p' x b)
        ∙ ap (λ o. returned (partial o x) (extend (set_error p' x) b)) (append-nil output))
  Trace-join {p = p} (panicked_end e h) = panicked_end (later p e) (rw h refl)

extend-extend : (p : Parser) (a b : Bytes) → extend (extend p a) b ≡ extend p (a ++ b)
unfolding extend
extend-extend p a b = rw append_assoc refl

-- Parsing two pieces one after the other gives the frames, the error, the panic and the parser that
-- parsing them as one piece gives, whatever the state in which the parser is met. `memchr`
-- is as documented.
pub parse-append :
    (platform : Platform)
    → IsMemchr platform
    → (p : Parser) (a b : Bytes)
    → parse platform p (a ++ b) ≡ and_then (parse platform p a) (λ q. parse platform q b)
parse-append platform law p a b =
    (parse-eq_iff platform law p (a ++ b) _).1
      (rw (← extend-extend p a b) (Trace-join platform law b (parse-Trace platform law p a)))

-- A parser that gave an error is left in the state of that error, and the fuel never runs out.
abbrev pub Halts : Run → Type 0
Halts (returned (complete output) p) = Unit
Halts (returned (partial output e) p) = set_error p e ≡ p
Halts panicked = Unit
Halts out_of_fuel = ⊥

Trace-Halts :
    {platform : Platform} {r : Run} {p : Parser} {output : List Frame}
    → Trace platform r p output
    → Halts r
unfolding set_error
Trace-Halts (again_step p' e t) = Trace-Halts t
Trace-Halts (found_step f p' e t) = Trace-Halts t
Trace-Halts (pending_end p' e h) = rw h tt
Trace-Halts (failed_end x p' e h) = rw h refl
Trace-Halts (panicked_end e h) = rw h tt

pub parse-Halts :
    (platform : Platform)
    → IsMemchr platform
    → (p : Parser) (input : Bytes) → Halts (parse platform p input)
parse-Halts platform law p input = Trace-Halts (parse-Trace platform law p input)

-- An error is final: once a call of `parse` has given one, every further call takes the bytes and gives the
-- same error again, and no frame, whatever the bytes are. `memchr` is as documented.
pub parse-partial :
    (platform : Platform)
    → IsMemchr platform
    → (p q : Parser) (input more : Bytes) (frames : List Frame) (e : ParseError)
    → parse platform p input ≡ returned (partial frames e) q
    → parse platform q more ≡ returned (partial [] e) (extend q more)
parse-partial platform law p q input more frames e failed =
    subst (λ x. parse platform x more ≡ returned (partial [] e) (extend x more))
      (subst Halts failed (parse-Halts platform law p input)) (parse-error platform law q e more)

Halts-ne-out_of_fuel : (r : Run) → Halts r → r ≢ out_of_fuel
Halts-ne-out_of_fuel (returned (complete output) p) h = cc
Halts-ne-out_of_fuel (returned (partial output e) p) h = cc
Halts-ne-out_of_fuel panicked h = cc
Halts-ne-out_of_fuel out_of_fuel h = absurd h

-- The loops of the parser end on every input, from every state: the fuel that `parse` hands out, twice
-- the bytes in the buffer and two more, is never used up. `memchr` is as documented.
pub parse-ne-out_of_fuel :
    (platform : Platform)
    → IsMemchr platform
    → (p : Parser) (input : Bytes) → parse platform p input ≢ out_of_fuel
parse-ne-out_of_fuel platform law p input =
    Halts-ne-out_of_fuel (parse platform p input) (parse-Halts platform law p input)
