-- ===== src/Connection/Ends.antt =====
-- Sessions that end alike, and what of them the parser takes part in.
use redlike.Prelude.{◌≡◌, ◌≢◌, refl, sym, ap, ◌∙◌, List, [], ◌∷◌, ◌++◌, Bytes, codes, arith}
use mathlib.Core.Path.{fun_ext}
use redlike.Frame.{Frame, simple_error}
use redlike.Parser.{Parser}
use redlike.Command.{
  Command, try_from, Result, ok, err, unknown_command, wrong_arity, wrong_argument_type,
  invalid_command_frame, io,
}
use redlike.Store.{Outcome, returns, panics}
use redlike.Connection.{ProcessOutcome, quits, noops, respond, process_command}
use redlike.Connection.Session.{
  Environment, Session, Flow, continues, closes, fails, aborts, stuck, and_then, finish, handle,
  handle_frames,
}

-- Where a session stands after some events: all that a client and the other tasks can see of it, and the
-- parser too if the connection goes on.
pub record SameEnd (a b : Session × Flow) : Type 0 where
  pub connection : a.0.connection ≡ b.0.connection
  pub store : a.0.store ≡ b.0.store
  pub handled : a.0.handled ≡ b.0.handled
  pub output : a.0.output ≡ b.0.output
  pub flow : a.1 ≡ b.1
  pub parser : a.1 ≡ continues → a.0.parser ≡ b.0.parser

pub SameEnd-parser :
    (s : Session) (p q : Parser) (flow : Flow)
    → flow ≢ continues
    → SameEnd (record s { parser = p }, flow) (record s { parser = q }, flow)
SameEnd-parser s p q flow left = record {
  connection = refl;
  store = refl;
  handled = refl;
  output = refl;
  flow = refl;
  parser = λ e. absurd (left e);
}

pub SameEnd-refl : (a : Session × Flow) → SameEnd a a
SameEnd-refl a = record {
  connection = refl;
  store = refl;
  handled = refl;
  output = refl;
  flow = refl;
  parser = λ e. refl;
}

pub and_then_assoc :
    (r : Session × Flow) (f g : Session → Session × Flow)
    → and_then (and_then r f) g ≡ and_then r (λ s. and_then (f s) g)
unfolding and_then
and_then_assoc (s, continues) f g = refl
and_then_assoc (s, closes) f g = refl
and_then_assoc (s, fails) f g = refl
and_then_assoc (s, aborts) f g = refl
and_then_assoc (s, stuck) f g = refl

pub and_then-continues : (r : Session × Flow) → and_then r (λ s. (s, continues)) ≡ r
unfolding and_then
and_then-continues (s, continues) = refl
and_then-continues (s, closes) = refl
and_then-continues (s, fails) = refl
and_then-continues (s, aborts) = refl
and_then-continues (s, stuck) = refl

pub handle_frames-append :
    (env : Environment) (fs gs : List Frame) (s : Session)
    → handle_frames env (fs ++ gs) s ≡ and_then (handle_frames env fs s) (handle_frames env gs)
unfolding handle_frames
handle_frames-append env [] gs s = unfold and_then in refl
handle_frames-append env (f ∷ fs) gs s =
    ap (and_then (handle env s (try_from f))) (fun_ext (handle_frames-append env fs gs))
    ∙ sym (and_then_assoc (handle env s (try_from f)) (handle_frames env fs) (handle_frames env gs))

-- Only the parser differs.
abbrev pub with_parser : Parser → Session × Flow → Session × Flow
with_parser p (s, flow) = (record s { parser = p }, flow)

finish-with_parser :
    (env : Environment) (p : Parser) (s : Session) (o : Outcome ProcessOutcome)
    → finish env (record s { parser = p }) o ≡ with_parser p (finish env s o)
unfolding finish
finish-with_parser env p s (returns noops) = refl
finish-with_parser env p s (returns quits) = refl
finish-with_parser env p s (returns (respond r)) = ground arith
finish-with_parser env p s panics = refl

reply-with_parser :
    (env : Environment) (p : Parser) (s : Session) (text : Bytes)
    → finish env (record s { parser = p }) (returns (respond (simple_error text)))
      ≡ with_parser p (finish env s (returns (respond (simple_error text))))
reply-with_parser env p s text = finish-with_parser env p s (returns (respond (simple_error text)))

handle-with_parser :
    (env : Environment) (p : Parser) (s : Session) (r : Result Command)
    → handle env (record s { parser = p }) r ≡ with_parser p (handle env s r)
unfolding handle
handle-with_parser env p s (ok command) =
    let (c, store, o) =
      process_command env.constant_time_eq s.connection (env.others s.handled s.store)
        (env.clock s.handled) command in
    finish-with_parser env p (record s { connection = c; store = store }) o
handle-with_parser env p s (err unknown_command) =
    reply-with_parser env p s (codes "Unknown Command")
handle-with_parser env p s (err (wrong_arity command given expected)) =
    reply-with_parser env p s (codes "Wrong number of arguments")
handle-with_parser env p s (err wrong_argument_type) =
    reply-with_parser env p s (codes "Wrong Argument Type")
handle-with_parser env p s (err (io e)) = refl
handle-with_parser env p s (err invalid_command_frame) = refl

and_then-with_parser :
    (p : Parser) (r : Session × Flow) (f : Session → Session × Flow)
    → ((s : Session) → f (record s { parser = p }) ≡ with_parser p (f s))
    → and_then (with_parser p r) f ≡ with_parser p (and_then r f)
unfolding and_then
and_then-with_parser p (s, continues) f h = h s
and_then-with_parser p (s, closes) f h = refl
and_then-with_parser p (s, fails) f h = refl
and_then-with_parser p (s, aborts) f h = refl
and_then-with_parser p (s, stuck) f h = refl

pub handle_frames-with_parser :
    (env : Environment) (fs : List Frame) (p : Parser) (s : Session)
    → handle_frames env fs (record s { parser = p }) ≡ with_parser p (handle_frames env fs s)
unfolding handle_frames
handle_frames-with_parser env [] p s = refl
handle_frames-with_parser env (f ∷ fs) p s =
    ap (λ r. and_then r (handle_frames env fs)) (handle-with_parser env p s (try_from f))
    ∙ and_then-with_parser p (handle env s (try_from f)) (handle_frames env fs)
        (handle_frames-with_parser env fs p)
