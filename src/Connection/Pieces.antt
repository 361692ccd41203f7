-- ===== src/Connection/Pieces.antt =====
-- The replies do not depend on how the network cuts the requests into pieces.
use redlike.Prelude.{ℕ, ◌≡◌, ◌≢◌, refl, sym, ap, ◌∙◌, subst, List, [], ◌∷◌, ◌++◌, append-nil, Bytes}
use mathlib.Core.Path.{subst₂}
use redlike.Frame.{Frame}
use redlike.Parser.{ParseError, Parser, IsMemchr, complete, partial, set_error, extend}
use redlike.Parser.Run
use redlike.Parser.Run.{Run, returned}
use redlike.Parser.Streaming
use redlike.Parser.Streaming.{parse-append, prefixed, Halts, parse-Halts, parse-error}
use redlike.Connection.Session.{
  Environment, Session, Flow, continues, closes, fails, aborts, stuck, Event, received, and_then,
  handle_frames, handle_parsed, handle_event, run,
}
use redlike.Connection.Ends.{
  SameEnd, SameEnd-parser, SameEnd-refl, and_then_assoc, handle_frames-append, with_parser,
  handle_frames-with_parser,
}

-- What is done behind a first piece does not depend on the parser that this one left.
behind :
    (r : Session × Flow) (p q : Parser) (g : Session → Session × Flow)
    → SameEnd
        (and_then (with_parser p r) (λ s. g (record s { parser = q })))
        (and_then (with_parser q r) g)
unfolding and_then
behind (s, continues) p q g = SameEnd-refl (g (record s { parser = q }))
behind (s, closes) p q g = SameEnd-parser s p q closes cc
behind (s, fails) p q g = SameEnd-parser s p q fails cc
behind (s, aborts) p q g = SameEnd-parser s p q aborts cc
behind (s, stuck) p q g = SameEnd-parser s p q stuck cc

abbrev close_now : Session → Session × Flow
close_now s = (s, closes)

module _ (env : Environment) (fs gs : List Frame) (s : Session) (p q : Parser) where
  both_complete :
      SameEnd
        (and_then
          (handle_frames env fs (record s { parser = p }))
          (λ s'. handle_frames env gs (record s' { parser = q })))
        (handle_frames env (fs ++ gs) (record s { parser = q }))
  both_complete =
      subst₂ SameEnd
        (ap (λ r. and_then r (λ s'. handle_frames env gs (record s' { parser = q })))
          (sym (handle_frames-with_parser env fs p s)))
        (ap (λ r. and_then r (handle_frames env gs)) (sym (handle_frames-with_parser env fs q s))
          ∙ sym (handle_frames-append env fs gs (record s { parser = q })))
        (behind (handle_frames env fs s) p q (handle_frames env gs))

  second_halts :
      SameEnd
        (and_then
          (handle_frames env fs (record s { parser = p }))
          (λ s'. and_then (handle_frames env gs (record s' { parser = q })) close_now))
        (and_then (handle_frames env (fs ++ gs) (record s { parser = q })) close_now)
  second_halts =
      subst₂ SameEnd
        (ap
          (λ r.
            and_then r (λ s'. and_then (handle_frames env gs (record s' { parser = q })) close_now))
          (sym (handle_frames-with_parser env fs p s)))
        (sym (
            and_then_assoc (with_parser q (handle_frames env fs s)) (handle_frames env gs)
              close_now)
          ∙ ap (λ r. and_then (and_then r (handle_frames env gs)) close_now)
              (sym (handle_frames-with_parser env fs q s))
          ∙ ap (λ r. and_then r close_now)
              (sym (handle_frames-append env fs gs (record s { parser = q }))))
        (behind (handle_frames env fs s) p q (λ s'. and_then (handle_frames env gs s') close_now))

-- After an error the connection is closed, and what comes later is not looked at.
halted :
    (r : Session × Flow) (p q : Parser) (k : Session → Session × Flow)
    → SameEnd
        (and_then (and_then (with_parser p r) close_now) k)
        (and_then (with_parser q r) close_now)
unfolding and_then
halted (s, continues) p q k = SameEnd-parser s p q closes cc
halted (s, closes) p q k = SameEnd-parser s p q closes cc
halted (s, fails) p q k = SameEnd-parser s p q fails cc
halted (s, aborts) p q k = SameEnd-parser s p q aborts cc
halted (s, stuck) p q k = SameEnd-parser s p q stuck cc

-- The frames of a piece leave the parser alone.
known_parser :
    (r : Session × Flow) (p : Parser) (g : Parser → Session → Session × Flow)
    → and_then (with_parser p r) (λ s. g s.parser s) ≡ and_then (with_parser p r) (g p)
unfolding and_then
known_parser (s, continues) p g = refl
known_parser (s, closes) p g = refl
known_parser (s, fails) p g = refl
known_parser (s, aborts) p g = refl
known_parser (s, stuck) p g = refl

module _ (env : Environment) where
  -- What the second piece gives, after the frames of the first.
  second :
      (fs : List Frame) (s : Session) (p : Parser) (r : Run)
      → Halts r
      → prefixed fs r ≢ Run.panicked
      → SameEnd
          (and_then (handle_frames env fs (record s { parser = p })) (λ s'. handle_parsed env s' r))
          (handle_parsed env s (prefixed fs r))
  unfolding handle_parsed prefixed
  second fs s p (returned (complete gs) q) h safe = both_complete env fs gs s p q
  second fs s p (returned (partial gs e) q) h safe = second_halts env fs gs s p q
  second fs s p Run.panicked h safe = absurd (safe refl)
  second fs s p Run.out_of_fuel h safe = absurd h

module _ (env : Environment) (law : IsMemchr env.platform) (b : ℕ) (bs : Bytes) where
  abbrev parse_second : Parser → Run
  parse_second q = Run.parse env.platform q (b ∷ bs)

  after_error :
      (fs : List Frame) (s : Session) (p : Parser) (e : ParseError)
      → set_error p e ≡ p
      → parse_second p ≡ returned (partial [] e) (extend p (b ∷ bs))
  after_error fs s p e h =
      subst (λ q. parse_second q ≡ returned (partial [] e) (extend q (b ∷ bs))) h
        (parse-error env.platform law p e (b ∷ bs))

  first_piece :
      (s : Session) (r : Run)
      → Halts r
      → Streaming.and_then r parse_second ≢ Run.panicked
      → SameEnd
          (and_then (handle_parsed env s r) (λ s'. handle_event env s' (received (b ∷ bs))))
          (handle_parsed env s (Streaming.and_then r parse_second))
  unfolding handle_event handle_parsed Streaming.and_then
  first_piece s (returned (complete fs) p) h safe =
      subst (λ x. SameEnd x (handle_parsed env s (prefixed fs (parse_second p))))
        (ap (λ r. and_then r (next p)) alone
          ∙ sym (known_parser (handle_frames env fs s) p next)
          ∙ ap (λ r. and_then r (λ s'. next s'.parser s')) (sym alone))
        (second env fs s p (parse_second p) (parse-Halts env.platform law p (b ∷ bs)) safe)
    where
      next : Parser → Session → Session × Flow
      next q s' = handle_parsed env s' (parse_second q)

      alone :
          handle_frames env fs (record s { parser = p }) ≡ with_parser p (handle_frames env fs s)
      alone = handle_frames-with_parser env fs p s
  first_piece s (returned (partial fs e) p) h safe =
      subst₂ SameEnd
        (ap (λ r. and_then (and_then r close_now) (λ s'. handle_event env s' (received (b ∷ bs))))
          (sym (handle_frames-with_parser env fs p s)))
        (ap (λ r. and_then r close_now) (sym (handle_frames-with_parser env fs q s))
          ∙ ap (λ gs. and_then (handle_frames env gs (record s { parser = q })) close_now)
              (sym (append-nil fs))
          ∙ ap (λ r. handle_parsed env s (prefixed fs r)) (sym (after_error fs s p e h)))
        (halted (handle_frames env fs s) p q (λ s'. handle_event env s' (received (b ∷ bs))))
    where
      q : Parser
      q = extend p (b ∷ bs)
  first_piece s Run.panicked h safe = absurd (safe refl)
  first_piece s Run.out_of_fuel h safe = absurd h

SameEnd-same_flow :
    (s t : Session) (flow : Flow) (k : Session → Session × Flow)
    → SameEnd (s, flow) (t, flow)
    → SameEnd (and_then (s, flow) k) (and_then (t, flow) k)
unfolding and_then
SameEnd-same_flow s t continues k h =
    subst (λ u. SameEnd (k s) (k u))
      (same_session s t h.connection h.store (h.parser refl) h.handled h.output)
      (SameEnd-refl (k s))
  where
    same_session :
        (s t : Session)
        → s.connection ≡ t.connection
        → s.store ≡ t.store
        → s.parser ≡ t.parser
        → s.handled ≡ t.handled
        → s.output ≡ t.output
        → s ≡ t
    same_session s t c st p n o =
        λ i. record { connection = c i; store = st i; parser = p i; handled = n i; output = o i }
SameEnd-same_flow s t closes k h = h
SameEnd-same_flow s t fails k h = h
SameEnd-same_flow s t aborts k h = h
SameEnd-same_flow s t stuck k h = h

SameEnd-and_then :
    (x y : Session × Flow) (k : Session → Session × Flow)
    → SameEnd x y
    → SameEnd (and_then x k) (and_then y k)
SameEnd-and_then (s, flow) (t, flow') k h =
    subst (λ f. SameEnd (and_then (s, flow) k) (and_then (t, f) k)) h.flow
      (SameEnd-same_flow s t flow k (record {
        connection = h.connection;
        store = h.store;
        handled = h.handled;
        output = h.output;
        flow = refl;
        parser = h.parser;
      }))

-- Two pieces that the socket delivers one after the other leave the connection, the store, the count of
-- commands, the bytes sent and the way the loop goes on as one piece that holds both does, whatever comes
-- before and after, if neither is empty and the parser does not panic on them. `memchr` is as documented.
pub run_pieces :
    (env : Environment)
    → IsMemchr env.platform
    → (s : Session) (a b : Bytes) (events : List Event) → a ≢ []
    → b ≢ []
    → Run.parse env.platform s.parser (a ++ b) ≢ Run.panicked
    → SameEnd
        (run env (received a ∷ received b ∷ events) s)
        (run env (received (a ++ b) ∷ events) s)
unfolding run handle_event
run_pieces env law s [] b events ha hb safe = absurd (ha refl)
run_pieces env law s (x ∷ xs) [] events ha hb safe = absurd (hb refl)
run_pieces env law s (x ∷ xs) (y ∷ ys) events ha hb safe =
    subst (λ r. SameEnd r (run env (received (x ∷ xs ++ y ∷ ys) ∷ events) s))
      (and_then_assoc (handle_event env s (received (x ∷ xs)))
        (λ s'. handle_event env s' (received (y ∷ ys))) (run env events))
      (SameEnd-and_then _ _ (run env events) (
        subst
          (λ r.
            SameEnd
              (and_then (handle_event env s (received (x ∷ xs)))
                (λ s'. handle_event env s' (received (y ∷ ys))))
              (handle_parsed env s r))
          (sym whole)
          (first_piece env law y ys s (Run.parse env.platform s.parser (x ∷ xs))
            (parse-Halts env.platform law s.parser (x ∷ xs)) (λ e. safe (whole ∙ e)))))
  where
    whole :
        Run.parse env.platform s.parser (x ∷ (xs ++ y ∷ ys))
        ≡ Streaming.and_then
            (Run.parse env.platform s.parser (x ∷ xs))
            (λ q. Run.parse env.platform q (y ∷ ys))
    whole = parse-append env.platform law s.parser (x ∷ xs) (y ∷ ys)
