-- ===== src/Connection/Unlocked.antt =====
-- What a client can do that has given the password (src/connection.rs).
use redlike.Prelude.{
  ℕ, suc, ◌≡◌, ◌≢◌, refl, ap, sym, ◌∙◌, subst, true, some, none, List, [], ◌∷◌, ◌++◌, arith, All,
  Bytes, codes,
}
use redlike.Frame.{Frame, simple_string, simple_error, to_bytes}
use redlike.Command.{
  Command, ping, get, set, del, expire, ttl, quit, noop, auth, Result, ok, err, unknown_command,
  wrong_arity, wrong_argument_type, invalid_command_frame, io, try_from,
}
use redlike.Store.{Store, Outcome, returns, panics}
use redlike.Connection.{
  Connection, ProcessOutcome, quits, noops, respond, Compare, IsEquality, process_command, execute,
  can_execute, is_authorized, authenticate_connection, new,
}
use redlike.Connection.Session.{
  Environment, Session, Flow, continues, closes, fails, aborts, stuck, and_then, finish, handle,
  handle_frames, send_response,
}

-- Not an AUTH command.
abbrev pub IsPlain : Frame → Type 0
IsPlain f = (key : Bytes) → try_from f ≢ ok (auth key)

abbrev pub with_connection : Connection → Session × Flow → Session × Flow
with_connection c (s, flow) = (record s { connection = c }, flow)

-- Two connections that may execute every command.
module _ (c c' : Connection) (may : is_authorized c ≡ true) (may' : is_authorized c' ≡ true) where
  -- The two go alike, and the first keeps its connection.
  abbrev Alike : Session × Flow → Session × Flow → Type 0
  Alike r r' = (r' ≡ with_connection c' r) × (r.0.connection ≡ c)

  and_then-Alike :
      (r r' : Session × Flow) (f : Session → Session × Flow)
      → Alike r r'
      → ((s : Session) → s.connection ≡ c → Alike (f s) (f (record s { connection = c' })))
      → Alike (and_then r f) (and_then r' f)
  unfolding and_then
  and_then-Alike (s, continues) r' f (e, h) k =
      subst (λ x. Alike (f s) (and_then x f)) (sym e) (k s h)
  and_then-Alike (s, closes) r' f (e, h) k = (ap (λ x. and_then x f) e, h)
  and_then-Alike (s, fails) r' f (e, h) k = (ap (λ x. and_then x f) e, h)
  and_then-Alike (s, aborts) r' f (e, h) k = (ap (λ x. and_then x f) e, h)
  and_then-Alike (s, stuck) r' f (e, h) k = (ap (λ x. and_then x f) e, h)

  process_command-Alike :
      (eq : Compare) (store : Store) (now : ℕ) (command : Command)
      → ((key : Bytes) → command ≢ auth key)
      → ((process_command eq c store now command).0 ≡ c)
        × (process_command eq c' store now command ≡ (
          c',
          (process_command eq c store now command).1,
          (process_command eq c store now command).2,
        ))
  unfolding process_command execute can_execute
  process_command-Alike eq store now ping h = (refl, refl)
  process_command-Alike eq store now quit h = (refl, refl)
  process_command-Alike eq store now noop h = (refl, refl)
  process_command-Alike eq store now (auth key) h = absurd (h key refl)
  process_command-Alike eq store now (get key) h = rw (may, may') (refl, refl)
  process_command-Alike eq store now (set key value) h = rw (may, may') (refl, refl)
  process_command-Alike eq store now (del key) h = rw (may, may') (refl, refl)
  process_command-Alike eq store now (expire key value) h = ground (arith, may, may')
  process_command-Alike eq store now (ttl key) h = rw (may, may') (refl, refl)

  finish-Alike :
      (env : Environment) (s : Session) (o : Outcome ProcessOutcome)
      → s.connection ≡ c
      → Alike (finish env s o) (finish env (record s { connection = c' }) o)
  unfolding finish send_response
  finish-Alike env s (returns noops) e = (refl, e)
  finish-Alike env s (returns quits) e = (refl, e)
  finish-Alike env s (returns (respond r)) e = (ground arith, ground arith)
  finish-Alike env s panics e = (refl, e)

  handle_at-Alike :
      (env : Environment) (s : Session) (r : Result Command)
      → ((key : Bytes) → r ≢ ok (auth key))
      → Alike
          (handle env (record s { connection = c }) r)
          (handle env (record s { connection = c' }) r)
  unfolding handle
  handle_at-Alike env s (ok command) h =
      let store = env.others s.handled s.store in
      let t = env.clock s.handled in
      let done = process_command env.constant_time_eq c store t command in
      let (same, alike) =
        process_command-Alike env.constant_time_eq store t command (λ key e. h key (ap ok e)) in
      rw alike (finish-Alike env (record s { connection = done.0; store = done.1 }) done.2 same)
  handle_at-Alike env s (err unknown_command) h =
      finish-Alike env (record s { connection = c })
        (returns (respond (simple_error (codes "Unknown Command")))) refl
  handle_at-Alike env s (err (wrong_arity command given expected)) h =
      finish-Alike env (record s { connection = c })
        (returns (respond (simple_error (codes "Wrong number of arguments")))) refl
  handle_at-Alike env s (err wrong_argument_type) h =
      finish-Alike env (record s { connection = c })
        (returns (respond (simple_error (codes "Wrong Argument Type")))) refl
  handle_at-Alike env s (err (io e)) h = (refl, refl)
  handle_at-Alike env s (err invalid_command_frame) h = (refl, refl)

  frames-Alike :
      (env : Environment) (fs : List Frame) (s : Session)
      → All IsPlain fs
      → s.connection ≡ c
      → Alike (handle_frames env fs s) (handle_frames env fs (record s { connection = c' }))
  unfolding handle_frames
  frames-Alike env [] s h e = (refl, e)
  frames-Alike env (f ∷ fs) s (h, hs) e =
      and_then-Alike (handle env s (try_from f))
        (handle env (record s { connection = c' }) (try_from f)) (handle_frames env fs)
        (subst
          (λ x.
            Alike (handle env (record s { connection = x }) (try_from f))
              (handle env (record s { connection = c' }) (try_from f)))
          (sym e) (handle_at-Alike env s (try_from f) h))
        (λ s' e'. frames-Alike env fs s' hs e')

-- The session behind an AUTH command that was accepted, on another connection.
abbrev pub accepted : Environment → Connection → Session → Session
accepted env c s = record s {
  connection = c;
  store = env.others s.handled s.store;
  output = s.output ++ to_bytes (simple_string (codes "OK"));
  handled = suc s.handled;
}

handle-auth :
    (env : Environment) (s : Session) (secret : Bytes) (r : Result Command)
    → IsEquality env.constant_time_eq
    → s.connection.auth_password ≡ some secret
    → env.writable s.handled ≡ true
    → r ≡ ok (auth secret)
    → handle env s r ≡ (accepted env (record s.connection { authenticated = true }) s, continues)
unfolding handle process_command can_execute execute authenticate_connection finish send_response
handle-auth env s secret r law has w e = rw (e, has, (law.tells secret secret).1 refl, w) refl

-- The password opens everything: on a server with a password, once a client has sent it, and the reply
-- was written, all further frames of a read that are not AUTH commands are handled, reply for reply and
-- change for change, as on a server without a password, and the connection stays authenticated.
-- `constant_time_eq` is as documented.
pub handle_frames-auth :
    (env : Environment) (s : Session) (secret : Bytes) (f : Frame) (fs : List Frame)
    → IsEquality env.constant_time_eq
    → s.connection.auth_password ≡ some secret
    → env.writable s.handled ≡ true
    → try_from f ≡ ok (auth secret)
    → All IsPlain fs
    → handle_frames env (f ∷ fs) s
      ≡ with_connection
          (record s.connection { authenticated = true })
          (handle_frames env fs (accepted env (new none) s))
unfolding handle_frames and_then is_authorized
handle_frames-auth env s secret f fs law has w e h =
    ap (λ r. and_then r (handle_frames env fs)) (handle-auth env s secret (try_from f) law has w e)
    ∙ (frames-Alike (new none) (record s.connection { authenticated = true }) refl (rw has refl) env
        fs (accepted env (new none) s) h refl).0
