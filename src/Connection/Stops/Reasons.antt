-- ===== src/Connection/Stops/Reasons.antt =====
-- Why a session is left at a frame (src/connection.rs).
use redlike.Prelude.{
  ℕ, Option, none, some, false, Bool-cases, inl, inr, take, Bytes, ◌≡◌, ◌≢◌, refl, ap, ◌∙◌, ◌++◌,
  codes,
}
use redlike.Frame.{Frame, simple_error, to_bytes}
use redlike.Command.{
  Command, ping, get, set, del, expire, ttl, quit, noop, auth, try_from, Result, ok, err,
  unknown_command, wrong_arity, wrong_argument_type, invalid_command_frame, io,
}
use redlike.Error.{IoError}
use redlike.Store
use redlike.Store.{Store, Outcome, returns, panics}
use redlike.Connection.{
  ProcessOutcome, quits, noops, respond, process_command, Connection, Compare, check_password,
  expired_reply, authenticate_connection, execute, can_execute,
}
use redlike.Connection.Session.{
  Environment, Session, Flow, continues, closes, fails, aborts, handle, finish, send_response,
}

-- Why a session is left at a frame, with what is written for it: QUIT, or what is no command, closes it without a
-- word; a reply that cannot be written fails, behind some part of it; a panic is EXPIRE's. The arm for an
-- error of the operating system closes it too.
pub data Reason (env : Environment) (between : Session) (f : Frame) (s' : Session)
    : Flow → Type 0 where
  has_quit : try_from f ≡ ok quit → s'.output ≡ between.output → Reason env between f s' closes
  is_no_command :
      try_from f ≡ err invalid_command_frame
      → s'.output ≡ between.output
      → Reason env between f s' closes
  has_io_error :
      (e : IoError)
      → try_from f ≡ err (io e)
      → s'.output ≡ between.output
      → Reason env between f s' closes
  is_unwritable :
      (reply : Frame)
      → env.writable between.handled ≡ false
      → s'.output ≡ between.output ++ take (env.sent between.handled) (to_bytes reply)
      → Reason env between f s' fails
  has_panicked :
      (key : Bytes) (seconds : ℕ)
      → try_from f ≡ ok (expire key seconds)
      → s'.output ≡ between.output
      → Reason env between f s' aborts

module _ (env : Environment) where
  -- The outcomes that end a connection, and the commands that they come from.
  abbrev Cause : Command → Outcome ProcessOutcome → Type 0
  Cause command (returns quits) = command ≡ quit
  Cause command (returns noops) = Unit
  Cause command (returns (respond r)) = Unit
  Cause command panics = (key : Bytes) × (seconds : ℕ) × (command ≡ expire key seconds)

  check_password-Cause :
      (eq : Compare) (c : Connection) (key : Bytes) (secret : Option Bytes)
      → Cause (auth key) (returns (check_password eq c key secret).1)
  unfolding check_password
  check_password-Cause eq c key none = tt
  check_password-Cause eq c key (some secret) = elim (Bool-cases (eq secret key)) [
    | inl h ↦ rw h tt
    | inr h ↦ rw h tt
  ]

  expired_reply-Cause :
      (c : Connection) (key : Bytes) (n : ℕ) (r : Store × Outcome ℕ)
      → Cause (expire key n) (expired_reply c r).2
  unfolding expired_reply
  expired_reply-Cause c key n (s, returns m) = tt
  expired_reply-Cause c key n (s, panics) = (key, n, refl)

  execute-Cause :
      (eq : Compare) (c : Connection) (s : Store) (now : ℕ) (command : Command)
      → Cause command (execute eq c s now command).2
  unfolding execute authenticate_connection
  execute-Cause eq c s now noop = tt
  execute-Cause eq c s now quit = refl
  execute-Cause eq c s now ping = tt
  execute-Cause eq c s now (set key value) = tt
  execute-Cause eq c s now (get key) = tt
  execute-Cause eq c s now (del key) = tt
  execute-Cause eq c s now (expire key n) = expired_reply-Cause c key n (Store.expire s key n now)
  execute-Cause eq c s now (ttl key) = tt
  execute-Cause eq c s now (auth key) = check_password-Cause eq c key c.auth_password

  process_command-Cause :
      (eq : Compare) (c : Connection) (s : Store) (now : ℕ) (command : Command)
      → Cause command (process_command eq c s now command).2
  unfolding process_command
  process_command-Cause eq c s now command = elim (Bool-cases (can_execute c command)) [
    | inl h ↦ rw h (execute-Cause eq c s now command)
    | inr h ↦ rw h tt
  ]

  -- A session that has not gone on was left for a reason.
  abbrev pub Left : Session → Frame → Session × Flow → Type 0
  Left between f r = r.1 ≢ continues → Reason env between f r.0 r.1

  send_response-Left : (s : Session) (f reply : Frame) → Left s f (send_response env s reply)
  unfolding send_response
  send_response-Left s f reply = elim (Bool-cases (env.writable s.handled)) [
    | inl h ↦ rw h (λ ne. absurd (ne refl))
    | inr h ↦ rw h (λ ne. is_unwritable reply h refl)
  ]

  finish-Left :
      (s : Session) (f : Frame) (command : Command) (o : Outcome ProcessOutcome)
      → try_from f ≡ ok command
      → Cause command o
      → Left s f (finish env s o)
  unfolding finish
  finish-Left s f command (returns noops) e cause ne = absurd (ne refl)
  finish-Left s f command (returns quits) e cause ne = has_quit (e ∙ ap ok cause) refl
  finish-Left s f command (returns (respond r)) e cause ne = send_response-Left s f r ne
  finish-Left s f command panics e (key, n, cause) ne = has_panicked key n (e ∙ ap ok cause) refl

  -- The connection and the store take no part in it.
  Reason-within :
      (s : Session) (c : Connection) (store : Store) (f : Frame) (s' : Session) (flow : Flow)
      → Reason env (record s { connection = c; store = store }) f s' flow
      → Reason env s f s' flow
  Reason-within s c store f s' flow (has_quit e o) = has_quit e o
  Reason-within s c store f s' flow (is_no_command e o) = is_no_command e o
  Reason-within s c store f s' flow (has_io_error x e o) = has_io_error x e o
  Reason-within s c store f s' flow (is_unwritable reply e o) = is_unwritable reply e o
  Reason-within s c store f s' flow (has_panicked key n e o) = has_panicked key n e o

  pub handle-Left :
      (s : Session) (f : Frame) (r : Result Command) → try_from f ≡ r → Left s f (handle env s r)
  unfolding handle finish
  handle-Left s f (ok command) e ne =
      let store : Store = env.others s.handled s.store in
      let now : ℕ = env.clock s.handled in
      let (c, store', outcome) =
        process_command env.constant_time_eq s.connection store now command in
      let r = finish env (record s { connection = c; store = store' }) outcome in
      Reason-within s c store' f r.0 r.1 (
        finish-Left (record s { connection = c; store = store' }) f command outcome e
          (process_command-Cause env.constant_time_eq s.connection store now command) ne)
  handle-Left s f (err unknown_command) e ne =
      send_response-Left s f (simple_error (codes "Unknown Command")) ne
  handle-Left s f (err (wrong_arity command given expected)) e ne =
      send_response-Left s f (simple_error (codes "Wrong number of arguments")) ne
  handle-Left s f (err wrong_argument_type) e ne =
      send_response-Left s f (simple_error (codes "Wrong Argument Type")) ne
  handle-Left s f (err (io x)) e ne = has_io_error x e refl
  handle-Left s f (err invalid_command_frame) e ne = is_no_command e refl
