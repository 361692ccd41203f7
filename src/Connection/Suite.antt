-- ===== src/Connection/Suite.antt =====
-- What the unit tests of src/connection.rs share: connections, with and without a password, and what they answer.
pub mod Commands
pub mod Auth
pub mod Authorization
pub mod Io
use redlike.Prelude.{ℕ, ◌≡◌, none, some, List, [], ◌∷◌, Bytes, bytes_eq, codes, true}
use redlike.Frame.{Frame, simple_string, simple_error, integer}
use redlike.Command.{Command}
use redlike.Store
use redlike.Store.{Store, Outcome, returns, panics}
use redlike.Parser.{position}
use redlike.Connection.{Connection, ProcessOutcome, respond, new, process_command}
use redlike.Connection.Session.{Environment, Session, Event, received}

abbrev pub setup_dummy_connection : Connection
setup_dummy_connection = new none

abbrev pub setup_pwd_protected_connection : Bytes → Connection
setup_pwd_protected_connection password = new (some password)

abbrev pub logged_in : Bytes → Connection
logged_in password = record (new (some password)) { authenticated = true }

-- A millisecond, in nanoseconds.
abbrev pub milli : ℕ
milli = 1_000_000

abbrev pub mykey : Bytes
mykey = codes "mykey"

abbrev pub myvalue : Bytes
myvalue = codes "myvalue"

-- What commands answer, each at its instant, on a new store.
unfoldable pub outcomes_from :
    Connection → Store → List (ℕ × Command) → List (Outcome ProcessOutcome)
outcomes_from conn s [] = []
outcomes_from conn s ((now, command) ∷ commands) =
    let (conn', s', outcome) = process_command bytes_eq conn s now command in
    outcome ∷ outcomes_from conn' s' commands

unfoldable pub outcomes : Connection → List (ℕ × Command) → List (Outcome ProcessOutcome)
unfolding outcomes_from
outcomes conn commands = outcomes_from conn Store.new commands

abbrev pub set_reply : Outcome ProcessOutcome
set_reply = returns (respond (simple_string (codes "OK")))

abbrev pub refused : ProcessOutcome
refused = respond (simple_error (codes "AUTH invalid password"))

-- The outcome that `assert_noauth` asks for.
abbrev pub noauth : Outcome ProcessOutcome
noauth = returns (respond (simple_error (codes "NOAUTH Authentication required")))

-- A connection that has the store to itself, where a nanosecond goes by with each command.
abbrev pub alone : Environment
alone = record {
  platform = record { memchr = position; max_capacity = 1000 };
  constant_time_eq = bytes_eq;
  clock = λ n. n;
  others = λ n s. s;
  writable = λ n. true;
  sent = λ n. 0;
}
