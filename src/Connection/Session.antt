-- ===== src/Connection/Session.antt =====
-- `Connection::run` of src/connection.rs: the loop over what the socket delivers.
use redlike.Prelude.{ℕ, suc, Bool, take, Option, List, [], ◌∷◌, ◌++◌, if◌then◌else◌, Bytes, codes}
use redlike.Frame.{Frame, simple_error, to_bytes}
use redlike.Parser.{ParseError, Parser, Platform, ParseResult, complete, partial}
use redlike.Parser
use redlike.Parser.Run
use redlike.Parser.Run.{Run, returned}
use redlike.Command.{
  Command, wrong_arity, unknown_command, invalid_command_frame, io, wrong_argument_type, Result, ok,
  err, try_from,
}
use redlike.Store.{Store, Outcome, returns, panics}
use redlike.Connection.{
  Connection, ProcessOutcome, quits, noops, respond, Compare, Processed, process_command,
}

-- What surrounds a connection: the third-party functions, and, for each command by its number in the
-- connection, the instant that it reads, what other tasks did to the store between the command before it and
-- the moment at which it has the store's lock, whether its reply can be written, and how many bytes of
-- the reply are sent before an error, where it cannot.
pub record Environment : Type 0 where
  pub platform : Platform
  pub constant_time_eq : Compare
  pub clock : ℕ → ℕ
  pub others : ℕ → Store → Store
  pub writable : ℕ → Bool
  pub sent : ℕ → ℕ

-- `handled` counts the frames taken up, `output` is what has reached the socket.
pub record Session : Type 0 where
  pub connection : Connection
  pub store : Store
  pub parser : Parser
  pub handled : ℕ
  pub output : Bytes

-- Whether the loop goes on, `run` returns `Ok(())` or an error, or the task panics. `stuck` is the
-- parser model without fuel.
pub data Flow : Type 0 where
  continues closes fails aborts stuck : Flow

-- What `select!` picks: bytes read, none at the end of the stream; an error; the shutdown signal.
pub data Event : Type 0 where
  received : Bytes → Event
  read_error shutdown : Event

-- `write_all` and `flush`: the whole reply, or an error behind some part of it.
unfoldable pub send_response : Environment → Session → Frame → Session × Flow
send_response env s response =
    if env.writable s.handled
    then (record s { output = s.output ++ to_bytes response; handled = suc s.handled }, continues)
    else (
      record s {
        output = s.output ++ take (env.sent s.handled) (to_bytes response);
        handled = suc s.handled;
      },
      fails,
    )

-- The match on the outcome of a command.
unfoldable pub finish : Environment → Session → Outcome ProcessOutcome → Session × Flow
unfolding send_response
finish env s (returns noops) = (record s { handled = suc s.handled }, continues)
finish env s (returns quits) = (record s { handled = suc s.handled }, closes)
finish env s (returns (respond r)) = send_response env s r
finish env s panics = (record s { handled = suc s.handled }, aborts)

-- The match on `Command::try_from(f)`.
unfoldable pub handle : Environment → Session → Result Command → Session × Flow
unfolding finish
handle env s (ok command) =
    let (c, store, outcome) =
      process_command env.constant_time_eq s.connection (env.others s.handled s.store)
        (env.clock s.handled) command in
    finish env (record s { connection = c; store = store }) outcome
handle env s (err unknown_command) =
    finish env s (returns (respond (simple_error (codes "Unknown Command"))))
handle env s (err (wrong_arity command given expected)) =
    finish env s (returns (respond (simple_error (codes "Wrong number of arguments"))))
handle env s (err wrong_argument_type) =
    finish env s (returns (respond (simple_error (codes "Wrong Argument Type"))))
handle env s (err (io e)) = (record s { handled = suc s.handled }, closes)
handle env s (err invalid_command_frame) = (record s { handled = suc s.handled }, closes)

-- The rest of a loop, unless it has been left.
unfoldable pub and_then : Session × Flow → (Session → Session × Flow) → Session × Flow
and_then (s, continues) rest = rest s
and_then (s, closes) rest = (s, closes)
and_then (s, fails) rest = (s, fails)
and_then (s, aborts) rest = (s, aborts)
and_then (s, stuck) rest = (s, stuck)

-- `for f in frames`
unfoldable pub handle_frames : Environment → List Frame → Session → Session × Flow
unfolding handle and_then
handle_frames env [] s = (s, continues)
handle_frames env (f ∷ fs) s = and_then (handle env s (try_from f)) (handle_frames env fs)

-- `p.parse(&buf)`, the frames, and the return if the parser halted.
unfoldable pub handle_parsed : Environment → Session → Run → Session × Flow
unfolding handle_frames
handle_parsed env s (returned (complete frames) p) =
    handle_frames env frames (record s { parser = p })
handle_parsed env s (returned (partial frames e) p) =
    and_then (handle_frames env frames (record s { parser = p })) (λ s'. (s', closes))
handle_parsed env s Run.panicked = (s, aborts)
handle_parsed env s Run.out_of_fuel = (s, stuck)

-- One turn of the loop.
unfoldable pub handle_event : Environment → Session → Event → Session × Flow
unfolding handle_parsed
handle_event env s (received []) = (s, closes)
handle_event env s (received (b ∷ bs)) =
    handle_parsed env s (Run.parse env.platform s.parser (b ∷ bs))
handle_event env s read_error = (s, fails)
handle_event env s shutdown = (s, closes)

unfoldable pub run : Environment → List Event → Session → Session × Flow
unfolding handle_event
run env [] s = (s, continues)
run env (e ∷ es) s = and_then (handle_event env s e) (run env es)

-- A new connection over a store.
abbrev pub opened : Option Bytes → Store → Session
opened auth_password store = record {
  connection = redlike.Connection.new auth_password;
  store = store;
  parser = redlike.Parser.new;
  handled = 0;
  output = [];
}
