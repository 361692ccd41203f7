-- ===== src/Connection/Auth.antt =====
-- What a client that has not authenticated can do, on a server with a password.
use redlike.Prelude.{
  ℕ, ◌≡◌, refl, ap, sym, subst, false, some, List, [], ◌∷◌, arith, All, Bytes, codes,
}
use redlike.Frame.{Frame, simple_string, simple_error}
use redlike.Parser.{Parser}
use redlike.Command.{
  Command, ping, get, set, del, expire, ttl, quit, noop, auth, Result, ok, err, unknown_command,
  wrong_arity, wrong_argument_type, invalid_command_frame, io, try_from,
}
use redlike.Store.{Store, Outcome, returns, panics}
use redlike.Connection.{
  Connection, ProcessOutcome, quits, noops, respond, Compare, process_command, execute, can_execute,
  is_authorized, authenticate_connection,
}
use redlike.Connection.Session.{
  Environment, Session, Flow, continues, closes, fails, aborts, stuck, and_then, finish, handle,
  handle_frames,
}
use redlike.Connection.Ends.{handle_frames-with_parser}

-- A connection of a server with a password, before the client has given it.
abbrev pub IsLocked : Bytes → Connection → Type 0
IsLocked secret c = (c.auth_password ≡ some secret) × (c.authenticated ≡ false)

-- How a locked connection answers.
abbrev refused : Command → ProcessOutcome
refused noop = noops
refused quit = quits
refused ping = respond (simple_string (codes "PONG"))
refused (auth key) = respond (simple_error (codes "AUTH invalid password"))
refused _ = respond (simple_error (codes "NOAUTH Authentication required"))

-- Not the command that gives the password.
abbrev IsWrong : Compare → Bytes → Command → Type 0
IsWrong eq secret command = (key : Bytes) → command ≡ auth key → eq secret key ≡ false

module _ (eq : Compare) (secret : Bytes) (c : Connection) (locked : IsLocked secret c)
    (store : Store) (now : ℕ) where
  process_command-IsLocked :
      (command : Command)
      → IsWrong eq secret command
      → process_command eq c store now command ≡ (c, store, returns (refused command))
  unfolding process_command execute can_execute is_authorized authenticate_connection
  process_command-IsLocked ping h = refl
  process_command-IsLocked quit h = refl
  process_command-IsLocked noop h = refl
  process_command-IsLocked (auth key) h = ground (arith, locked.0, h key refl)
  process_command-IsLocked (get key) h = ground (arith, locked.0, locked.1)
  process_command-IsLocked (set key value) h = ground (arith, locked.0, locked.1)
  process_command-IsLocked (del key) h = ground (arith, locked.0, locked.1)
  process_command-IsLocked (expire key value) h = ground (arith, locked.0, locked.1)
  process_command-IsLocked (ttl key) h = ground (arith, locked.0, locked.1)

-- The environment without other tasks.
abbrev pub alone : Environment → Environment
alone env = record env { others = λ n store. store }

abbrev pub with_store : Store → Session × Flow → Session × Flow
with_store store (s, flow) = (record s { store = store }, flow)

-- The second of two sessions goes as the first does, but on a store that it leaves alone, and the
-- connection of the first stays as it was.
abbrev pub IsApart : Store → Connection → Session × Flow → Session × Flow → Type 0
IsApart store c r r' = (r' ≡ with_store store r) × (r.0.connection ≡ c)

pub and_then-IsApart :
    (store : Store) (c : Connection) (r r' : Session × Flow) (f f' : Session → Session × Flow)
    (p : Parser)
    → IsApart store c r r'
    → r.0.parser ≡ p
    → ((s : Session)
        → s.connection ≡ c
        → s.parser ≡ p
        → IsApart store c (f s) (f' (record s { store = store })))
    → IsApart store c (and_then r f) (and_then r' f')
unfolding and_then
and_then-IsApart store c (s, continues) r' f f' p (e, h) hp k =
    subst (λ x. IsApart store c (f s) (and_then x f')) (sym e) (k s h hp)
and_then-IsApart store c (s, closes) r' f f' p (e, h) hp k = (ap (λ x. and_then x f') e, h)
and_then-IsApart store c (s, fails) r' f f' p (e, h) hp k = (ap (λ x. and_then x f') e, h)
and_then-IsApart store c (s, aborts) r' f f' p (e, h) hp k = (ap (λ x. and_then x f') e, h)
and_then-IsApart store c (s, stuck) r' f f' p (e, h) hp k = (ap (λ x. and_then x f') e, h)

finish-IsApart :
    (env : Environment) (store : Store) (s : Session) (o : Outcome ProcessOutcome)
    → IsApart store s.connection
        (finish env s o)
        (finish (alone env) (record s { store = store }) o)
unfolding finish
finish-IsApart env store s (returns noops) = (refl, refl)
finish-IsApart env store s (returns quits) = (refl, refl)
finish-IsApart env store s (returns (respond r)) = (ground arith, ground arith)
finish-IsApart env store s panics = (refl, refl)

-- The parser of a session is not touched by the frames.
pub frames-parser :
    (env : Environment) (fs : List Frame) (s : Session)
    → (handle_frames env fs s).0.parser ≡ s.parser
frames-parser env fs s = ap (λ r. r.0.parser) (handle_frames-with_parser env fs s.parser s)

-- A frame that does not give the password.
abbrev pub Guesses : Environment → Bytes → Frame → Type 0
Guesses env secret f =
    (key : Bytes) → try_from f ≡ ok (auth key) → env.constant_time_eq secret key ≡ false

module _ (env : Environment) (secret : Bytes) (store : Store) (c : Connection)
    (locked : IsLocked secret c) where
  handle-IsApart :
      (s : Session) (r : Result Command)
      → s.connection ≡ c
      → ((key : Bytes) → r ≡ ok (auth key) → env.constant_time_eq secret key ≡ false)
      → IsApart store c (handle env s r) (handle (alone env) (record s { store = store }) r)
  unfolding handle
  handle-IsApart s (ok command) e h =
      rw
        (
          e,
          process_command-IsLocked env.constant_time_eq secret c locked
              (env.others s.handled s.store) (env.clock s.handled) command
              (λ key x. h key (ap ok x)),
          process_command-IsLocked env.constant_time_eq secret c locked store (env.clock s.handled)
              command (λ key x. h key (ap ok x)),
        )
        (finish-IsApart env store
          (record s { connection = c; store = env.others s.handled s.store })
          (returns (refused command)))
  handle-IsApart s (err unknown_command) e h =
      rw (← e)
        (finish-IsApart env store s (returns (respond (simple_error (codes "Unknown Command")))))
  handle-IsApart s (err (wrong_arity command given expected)) e h = rw (← e) (
      finish-IsApart env store s
        (returns (respond (simple_error (codes "Wrong number of arguments")))))
  handle-IsApart s (err wrong_argument_type) e h =
      rw (← e) (
        finish-IsApart env store s (returns (respond (simple_error (codes "Wrong Argument Type")))))
  handle-IsApart s (err (io x)) e h = (refl, e)
  handle-IsApart s (err invalid_command_frame) e h = (refl, e)

  pub frames-IsApart :
      (fs : List Frame) (s : Session)
      → s.connection ≡ c
      → All (Guesses env secret) fs
      → IsApart store c
          (handle_frames env fs s)
          (handle_frames (alone env) fs (record s { store = store }))
  unfolding handle_frames
  frames-IsApart [] s e h = (refl, e)
  frames-IsApart (f ∷ fs) s e (h, hs) =
      and_then-IsApart store c (handle env s (try_from f))
        (handle (alone env) (record s { store = store }) (try_from f)) (handle_frames env fs)
        (handle_frames (alone env) fs) (handle env s (try_from f)).0.parser
        (handle-IsApart s (try_from f) e h) refl (λ s' e' _. frames-IsApart fs s' e' hs)
