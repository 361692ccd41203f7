-- ===== src/Connection/Stops.antt =====
-- How a session ends (src/connection.rs): behind which frame, and what of the bytes does not count any more.
pub mod Reasons
use redlike.Prelude.{
  ℕ, Option, none, some, false, Bool-cases, inl, inr, take, subst, Bytes, suc, ◌+◌, ◌≡◌, ◌≢◌, refl,
  sym, ap, ◌∙◌, List, [], ◌∷◌, ◌++◌, arith, length, codes,
}
use redlike.Frame.{Frame, simple_error, to_bytes}
use redlike.Command.{
  Command, ping, get, set, del, expire, ttl, quit, noop, auth, try_from, Result, ok, err,
  unknown_command, wrong_arity, wrong_argument_type, invalid_command_frame, io,
}
use redlike.Error.{IoError}
use redlike.Store
use redlike.Store.{Store, Outcome, returns, panics}
use redlike.Connection.{
  ProcessOutcome, quits, noops, respond, process_command, Connection, Compare, check_password,
  expired_reply, authenticate_connection, execute, can_execute,
}
use redlike.Connection.Output.Written.{Wrote, both, handle-Wrote, handle_frames-Wrote}
use redlike.Connection.Session.{
  Environment, Session, Flow, continues, closes, fails, aborts, stuck, and_then, handle, finish,
  handle_frames, send_response,
}
use redlike.Connection.Stops.Reasons.{Reason, Left, handle-Left}

-- The session was left at one of the frames, for a reason: those before it were handled and went on, in
-- order, each with one reply, and it was handled with what they had left.
pub record StopsAt (env : Environment) (fs : List Frame) (s s' : Session) (flow : Flow)
    : Type 0 where
  pub before : List Frame
  pub at : Frame
  pub behind : List Frame
  pub between : Session
  pub split : fs ≡ before ++ at ∷ behind
  pub went_on : handle_frames env before s ≡ (between, continues)
  pub replied : Wrote s (between, continues)
  pub reason : Reason env between at s' flow
  pub left : handle env between (try_from at) ≡ (s', flow)
  pub counted : s'.handled ≡ s.handled + length before + 1

module _ (env : Environment) where
  finish-handled :
      (s : Session) (o : Outcome ProcessOutcome) → (finish env s o).0.handled ≡ suc s.handled
  unfolding finish
  finish-handled s (returns noops) = refl
  finish-handled s (returns quits) = refl
  finish-handled s (returns (respond r)) = ground arith
  finish-handled s panics = refl

  handle-handled : (s : Session) (r : Result Command) → (handle env s r).0.handled ≡ suc s.handled
  unfolding handle
  handle-handled s (ok command) =
      let (c, store, outcome) =
        process_command env.constant_time_eq s.connection (env.others s.handled s.store)
          (env.clock s.handled) command in
      finish-handled (record s { connection = c; store = store }) outcome
  handle-handled s (err unknown_command) =
      finish-handled s (returns (respond (simple_error (codes "Unknown Command"))))
  handle-handled s (err (wrong_arity command given expected)) =
      finish-handled s (returns (respond (simple_error (codes "Wrong number of arguments"))))
  handle-handled s (err wrong_argument_type) =
      finish-handled s (returns (respond (simple_error (codes "Wrong Argument Type"))))
  handle-handled s (err (io e)) = refl
  handle-handled s (err invalid_command_frame) = refl

  stops_here :
      (f : Frame) (fs : List Frame) (s s' : Session) (flow : Flow)
      → flow ≢ continues
      → handle env s (try_from f) ≡ (s', flow)
      → StopsAt env (f ∷ fs) s s' flow
  unfolding handle_frames
  stops_here f fs s s' flow ne left = record {
    before = [];
    at = f;
    behind = fs;
    between = s;
    split = refl;
    went_on = refl;
    replied = unfold handle_frames in handle_frames-Wrote env [] s;
    reason = subst (Left env s f) left (handle-Left env s f (try_from f) refl) ne;
    left = left;
    counted =
        omega (arith, ap (λ (r : Session × Flow). r.0.handled) left, handle-handled s (try_from f));
  }

  stops_later :
      (f : Frame) (fs : List Frame) (s t s' : Session) (flow : Flow)
      → handle env s (try_from f) ≡ (t, continues)
      → StopsAt env fs t s' flow
      → StopsAt env (f ∷ fs) s s' flow
  unfolding handle_frames and_then
  stops_later f fs s t s' flow first at = record {
    before = f ∷ at.before;
    at = at.at;
    behind = at.behind;
    between = at.between;
    split = ap (λ l. f ∷ l) at.split;
    went_on = rw first at.went_on;
    replied =
        both s t (at.between, continues)
          (subst (Wrote s) first (handle-Wrote env s f (try_from f) refl)) at.replied;
    reason = at.reason;
    left = at.left;
    counted = omega (
      arith,
      at.counted,
      ap (λ (r : Session × Flow). r.0.handled) first,
      handle-handled s (try_from f),
    );
  }

  leaves : {flow : Flow} (left : Flow) → left ≡ flow → left ≢ continues → flow ≢ continues
  leaves left e ne = subst (λ x. x ≢ continues) e ne

  -- The first frame is handled, and the session goes on or has been left.
  first-StopsAt :
      (f : Frame) (fs : List Frame) (s s' : Session) (flow : Flow) (r : Session × Flow)
      → handle env s (try_from f) ≡ r
      → and_then r (handle_frames env fs) ≡ (s', flow)
      → ((t : Session) → handle_frames env fs t ≡ (s', flow) → StopsAt env fs t s' flow)
      → StopsAt env (f ∷ fs) s s' flow
  unfolding and_then
  first-StopsAt f fs s s' flow (t, continues) first e ih =
      stops_later f fs s t s' flow first (ih t e)
  first-StopsAt f fs s s' flow (t, closes) first e ih =
      stops_here f fs s s' flow (leaves closes (ap (λ (r : Session × Flow). r.1) e) (λ x. cc))
        (first ∙ e)
  first-StopsAt f fs s s' flow (t, fails) first e ih =
      stops_here f fs s s' flow (leaves fails (ap (λ (r : Session × Flow). r.1) e) (λ x. cc))
        (first ∙ e)
  first-StopsAt f fs s s' flow (t, aborts) first e ih =
      stops_here f fs s s' flow (leaves aborts (ap (λ (r : Session × Flow). r.1) e) (λ x. cc))
        (first ∙ e)
  first-StopsAt f fs s s' flow (t, stuck) first e ih =
      stops_here f fs s s' flow (leaves stuck (ap (λ (r : Session × Flow). r.1) e) (λ x. cc))
        (first ∙ e)

  -- Where a session is left while it handles frames, it is left at one of them. That one is QUIT or no
  -- command, and nothing is written for it, or its reply could not be written, or it is an EXPIRE that has
  -- panicked. The frames before it were all handled, in order, and each was answered with one
  -- reply; it was handled with what they had left; and those behind it were not, so that they have no
  -- effect on the store, the replies or the connection. An error of the operating system, if reading the
  -- frame gave one, closes the connection as QUIT does.
  pub handle_frames-StopsAt :
      (fs : List Frame) (s s' : Session) (flow : Flow)
      → flow ≢ continues
      → handle_frames env fs s ≡ (s', flow)
      → StopsAt env fs s s' flow
  unfolding handle_frames
  handle_frames-StopsAt [] s s' flow ne e = absurd (ne (sym (ap (λ r. r.1) e)))
  handle_frames-StopsAt (f ∷ fs) s s' flow ne e =
      first-StopsAt f fs s s' flow (handle env s (try_from f)) refl e
        (λ t. handle_frames-StopsAt fs t s' flow ne)
