-- ===== src/Connection.antt =====
-- src/connection.rs: one client's connection, which authenticates it, executes its commands on the shared
-- store and answers them in order. `constant_time_eq`, of a third-party crate, is a parameter.
mod Tests
pub mod Suite
pub mod Session
pub mod Auth
pub mod Requests
pub mod Replies
pub mod Locked
pub mod Ends
pub mod Pieces
pub mod Stops
pub mod Shared
pub mod Unlocked
pub mod Malformed
pub mod Output
use redlike.Prelude.{
  ℕ, ◌+◌, ◌≡◌, ◌↔◌, Bool, true, false, not, ◌||◌, Option, none, some, List, [], ◌∷◌, ◌++◌,
  if◌then◌else◌, Bytes, codes, ℤ, pos,
}
use redlike.Frame.{Frame, simple_string, simple_error, bulk, integer}
use redlike.Command.{Command, ping, get, set, del, expire, ttl, quit, noop, auth}
use redlike.Store
use redlike.Store.{Store, Outcome, returns, panics}
use mathlib.Core.Option

-- What a connection keeps for itself; the store is shared, and the parser belongs to `run`.
pub record Connection : Type 0 where
  pub auth_password : Option Bytes
  pub authenticated : Bool

pub data ProcessOutcome : Type 0 where
  quits noops : ProcessOutcome
  respond : Frame → ProcessOutcome

abbrev pub Compare : Type 0
Compare = Bytes → Bytes → Bool

-- `constant_time_eq(a, b)` is documented to tell whether the two are equal.
pub record IsEquality (constant_time_eq : Compare) : Type 0 where
  pub tells : (a b : Bytes) → (constant_time_eq a b ≡ true) ↔ (a ≡ b)

-- `Connection::new`
abbrev pub new : Option Bytes → Connection
new auth_password = record { auth_password = auth_password; authenticated = false }

is_none {ℓ} : {A : Type ℓ} → Option A → Bool
is_none none = true
is_none (some a) = false

unfoldable pub is_authorized : Connection → Bool
unfolding is_none
is_authorized c = is_none c.auth_password || c.authenticated

-- The match on the password that the server was given.
check_password : Compare → Connection → Bytes → Option Bytes → Connection × ProcessOutcome
check_password constant_time_eq c password none =
    (c, respond (simple_error (codes "AUTH called without any password configured")))
check_password constant_time_eq c password (some secret) =
    if constant_time_eq secret password
    then (record c { authenticated = true }, respond (simple_string (codes "OK")))
    else (c, respond (simple_error (codes "AUTH invalid password")))

unfoldable pub authenticate_connection : Compare → Connection → Bytes → Connection × ProcessOutcome
unfolding check_password
authenticate_connection constant_time_eq c password =
    check_password constant_time_eq c password c.auth_password

-- The commands that need no authentication.
unfoldable pub is_open : Command → Bool
is_open (auth key) = true
is_open ping = true
is_open quit = true
is_open noop = true
is_open _ = false

unfoldable pub can_execute : Connection → Command → Bool
unfolding is_open is_authorized
can_execute c command = is_open command || is_authorized c

-- `.map(|_| 1).unwrap_or(0)`
count {ℓ} : {A : Type ℓ} → Option A → ℤ
count none = pos 0
count (some a) = pos 1

-- The result of a command: the connection, the store, and the outcome, unless the task panicked.
abbrev pub Processed : Type 0
Processed = Connection × Store × Outcome ProcessOutcome

-- EXPIRE's reply.
pub expired_reply : Connection → Store × Outcome ℕ → Processed
expired_reply c (s, returns n) = (c, s, returns (respond (integer (Store.as_i64 n))))
expired_reply c (s, panics) = (c, s, panics)

-- The match of `process_command`, on the store as the command has it under its lock. `now` is the instant that
-- the command reads; DEL reads it before it waits for the lock, so its store may be of a later instant.
unfoldable pub execute : Compare → Connection → Store → ℕ → Command → Processed
unfolding authenticate_connection count expired_reply
execute eq c s now noop = (c, s, returns noops)
execute eq c s now quit = (c, s, returns quits)
execute eq c s now ping = (c, s, returns (respond (simple_string (codes "PONG"))))
execute eq c s now (set key value) =
    (c, (Store.set s key value).0, returns (respond (simple_string (codes "OK"))))
execute eq c s now (get key) = (c, s, returns (respond (bulk (Store.get s key now))))
execute eq c s now (del key) =
    let (s', deleted) = Store.del s key now in (c, s', returns (respond (integer (count deleted))))
execute eq c s now (expire key value) = expired_reply c (Store.expire s key value now)
execute eq c s now (ttl key) = (c, s, returns (respond (integer (Store.ttl s key now))))
execute eq c s now (auth key) =
    let (c', outcome) = authenticate_connection eq c key in (c', s, returns outcome)

unfoldable pub process_command : Compare → Connection → Store → ℕ → Command → Processed
unfolding can_execute execute
process_command eq c s now command =
    if not (can_execute c command)
    then (c, s, returns (respond (simple_error (codes "NOAUTH Authentication required"))))
    else execute eq c s now command
