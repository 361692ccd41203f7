-- ===== src/Connection/Suite/Io.antt =====
-- The module `io` of the unit tests of src/connection.rs: a connection over the bytes of its socket.
use redlike.Prelude.{◌≡◌, refl, none, some, Option, List, [], ◌∷◌, ◌++◌, Bytes, bytes_eq, codes}
use redlike.Text.Utf8.{is_utf8}
use redlike.Text.Decimal.{parse_i64, parse_u64, print_i64, print_usize}
use redlike.Text.Whitespace.{split_whitespace}
use redlike.Frame.{simple_string, simple_error, to_bytes}
use redlike.Parser.{position, find_crlf, read_length}
use redlike.Parser.Turn.{
  advance, start_turn, inline_turn, array_length_turn, integer_turn, bulk_length_turn,
  bulk_string_turn,
}
use redlike.Parser.Run
use redlike.Command.{try_from, eq_ignore_ascii_case}
use redlike.Store
use redlike.Store.Map
use redlike.Store.Expirations.{push, entry_le}
use redlike.Connection.{process_command}
use redlike.Connection.Session.{
  Event, received, continues, closes, run, opened, handle_event, handle_parsed, handle_frames,
  handle, finish, send_response, and_then,
}
use redlike.Connection.Suite.{alone}

-- What is written to the connection, a call at a time, and what is read back after each.
abbrev TestCases : Type 0
TestCases = List (Bytes × Bytes)

abbrev calls : TestCases → List Event
calls [] = []
calls ((call, response) ∷ cases) = received call ∷ calls cases

abbrev responses : TestCases → Bytes
responses [] = []
responses ((call, response) ∷ cases) = response ++ responses cases

-- The calls are answered like this, and the last closes the connection.
abbrev Runs : Option Bytes → TestCases → Type 0
Runs auth_password cases =
    let r = run alone (calls cases) (opened auth_password Store.new) in
    (r.0.output ≡ responses cases) × (r.1 ≡ closes)

abbrev test_cases : TestCases
test_cases =
    (codes "*1\r\n$4\r\nPING\r\n", codes "+PONG\r\n")
    ∷ (codes "*3\r\n$3\r\nSET\r\n$5\r\nmykey\r\n$7\r\nmyvalue\r\n", codes "+OK\r\n")
    ∷ (codes "*2\r\n$3\r\nGET\r\n$5\r\nmykey\r\n", codes "$7\r\nmyvalue\r\n")
    ∷ (codes "*2\r\n$3\r\nGET\r\n$8\r\notherkey\r\n", codes "$-1\r\n")
    ∷ (codes "*2\r\n$3\r\nDEL\r\n$5\r\nmykey\r\n", codes ":1\r\n")
    ∷ (codes "*2\r\n$3\r\nDEL\r\n$5\r\nmykey\r\n", codes ":0\r\n")
    ∷ (codes "*3\r\n$3\r\nSET\r\n$5\r\nexkey\r\n$5\r\nvalue\r\n", codes "+OK\r\n")
    ∷ (codes "*3\r\n$6\r\nEXPIRE\r\n$5\r\nexkey\r\n$2\r\n60\r\n", codes ":1\r\n")
    ∷ (codes "*3\r\n$6\r\nEXPIRE\r\n$11\r\nmissing-key\r\n$2\r\n60\r\n", codes ":0\r\n")
    ∷ (codes "*3\r\n$3\r\nSET\r\n$10\r\nexpiredkey\r\n$5\r\nvalue\r\n", codes "+OK\r\n")
    ∷ (codes "*3\r\n$6\r\nEXPIRE\r\n$10\r\nexpiredkey\r\n$1\r\n0\r\n", codes ":1\r\n")
    ∷ (codes "*3\r\n$6\r\nEXPIRE\r\n$10\r\nexpiredkey\r\n$2\r\n60\r\n", codes ":0\r\n")
    ∷ (codes "*2\r\n$3\r\nTTL\r\n$11\r\nmissing-key\r\n", codes ":-2\r\n")
    ∷ (codes "*3\r\n$3\r\nSET\r\n$8\r\nttl-live\r\n$5\r\nvalue\r\n", codes "+OK\r\n")
    ∷ (codes "*2\r\n$3\r\nTTL\r\n$8\r\nttl-live\r\n", codes ":-1\r\n")
    ∷ (codes "*3\r\n$3\r\nSET\r\n$12\r\nttl-expiring\r\n$5\r\nvalue\r\n", codes "+OK\r\n")
    ∷ (codes "*3\r\n$6\r\nEXPIRE\r\n$12\r\nttl-expiring\r\n$2\r\n60\r\n", codes ":1\r\n")
    ∷ (codes "*3\r\n$3\r\nSET\r\n$11\r\nttl-expired\r\n$5\r\nvalue\r\n", codes "+OK\r\n")
    ∷ (codes "*3\r\n$6\r\nEXPIRE\r\n$11\r\nttl-expired\r\n$1\r\n0\r\n", codes ":1\r\n")
    ∷ (codes "*2\r\n$3\r\nTTL\r\n$11\r\nttl-expired\r\n", codes ":-2\r\n")
    ∷ (codes "*1\r\n$3\r\nFOO\r\n", codes "-Unknown Command\r\n")
    ∷ (
      codes "*4\r\n$3\r\nSET\r\n$5\r\nmykey\r\n$7\r\nmyvalue\r\n$8\r\ntoo many\r\n",
      codes "-Wrong number of arguments\r\n",
    )
    ∷ (codes "*1\r\n$3\r\nGET\r\n", codes "-Wrong number of arguments\r\n")
    ∷ (codes "\n", [])
    ∷ (codes "*1\r\n$4\r\nPING\r\n", codes "+PONG\r\n")
    ∷ (codes "*1\r\n$4\r\nQUIT\r\n", [])
    ∷ []

abbrev SendResponse : Type 0
SendResponse =
    (let first = send_response alone (opened none Store.new) (simple_string (codes "OK")) in
      let both = send_response alone first.0 (simple_error (codes "Test")) in
      (first.0.output ≡ codes "+OK\r\n")
      × (both.0.output ≡ codes "+OK\r\n-Test\r\n")
      × (both.1 ≡ continues))

abbrev E2eRun : Type 0
E2eRun = Runs none test_cases

abbrev E2eRunBlocksProtectedCommandsUntilAuthenticated : Type 0
E2eRunBlocksProtectedCommandsUntilAuthenticated = Runs (some (codes "my_password")) (
    (codes "*2\r\n$3\r\nGET\r\n$5\r\nmykey\r\n", codes "-NOAUTH Authentication required\r\n")
    ∷ (codes "*1\r\n$4\r\nQUIT\r\n", [])
    ∷ [])

abbrev E2eRunRejectsInvalidAuthAndKeepsProtectedCommandsBlocked : Type 0
E2eRunRejectsInvalidAuthAndKeepsProtectedCommandsBlocked = Runs (some (codes "my_password")) (
    (codes "*2\r\n$4\r\nAUTH\r\n$14\r\nwrong_password\r\n", codes "-AUTH invalid password\r\n")
    ∷ (
      codes "*3\r\n$3\r\nSET\r\n$5\r\nmykey\r\n$7\r\nmyvalue\r\n",
      codes "-NOAUTH Authentication required\r\n",
    )
    ∷ (codes "*1\r\n$4\r\nQUIT\r\n", [])
    ∷ [])

abbrev E2eRunAcceptsValidAuthAndThenAllowsProtectedCommands : Type 0
E2eRunAcceptsValidAuthAndThenAllowsProtectedCommands = Runs (some (codes "my_password")) (
    (codes "*2\r\n$4\r\nAUTH\r\n$11\r\nmy_password\r\n", codes "+OK\r\n")
    ∷ (codes "*3\r\n$3\r\nSET\r\n$5\r\nmykey\r\n$7\r\nmyvalue\r\n", codes "+OK\r\n")
    ∷ (codes "*2\r\n$3\r\nGET\r\n$5\r\nmykey\r\n", codes "$7\r\nmyvalue\r\n")
    ∷ (codes "*1\r\n$4\r\nQUIT\r\n", [])
    ∷ [])

all_pass :
    SendResponse × E2eRun × E2eRunBlocksProtectedCommandsUntilAuthenticated
    × E2eRunRejectsInvalidAuthAndKeepsProtectedCommandsBlocked
    × E2eRunAcceptsValidAuthAndThenAllowsProtectedCommands
unfolding run handle_event handle_parsed handle_frames handle finish send_response and_then
    process_command Run.parse advance read_length position start_turn inline_turn array_length_turn
    integer_turn bulk_length_turn bulk_string_turn find_crlf is_utf8 parse_i64 parse_u64 print_i64
    print_usize split_whitespace to_bytes try_from eq_ignore_ascii_case Map.empty Map.get Map.insert
    Map.remove Map.lookup Map.without bytes_eq push entry_le Store.get Store.set Store.del
    Store.expire Store.ttl
all_pass = ((refl, refl, refl), (refl, refl), (refl, refl), (refl, refl), (refl, refl))
