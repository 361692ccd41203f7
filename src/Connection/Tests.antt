-- ===== src/Connection/Tests.antt =====
-- Runs of a connection, as in the unit tests of src/connection.rs.
use redlike.Prelude.{
  ℕ, zero, suc, map, All, List, some, arith, ◌≡◌, ◌≢◌, refl, true, none, [], ◌∷◌, ◌++◌, Bytes,
  codes, bytes_eq, bytes_eq_iff,
}
use redlike.Text.Utf8.{is_utf8}
use redlike.Text.Decimal.{parse_i64}
use redlike.Text.Whitespace.{split_whitespace}
use redlike.Parser.{IsMemchr, position, find_crlf, read_length, complete}
use redlike.Parser
use redlike.Parser.Turn.{
  advance, start_turn, inline_turn, array_length_turn, integer_turn, bulk_length_turn,
  bulk_string_turn,
}
use redlike.Parser.Run
use redlike.Store
use redlike.Frame.{Frame, array, to_frames}
use redlike.Command.{ok, auth, try_from, eq_ignore_ascii_case}
use redlike.Frame.Laws.{all_bytes}
use redlike.Store.Spec.{Operation, set_op, expire_op, get_op, spec_answers}
use redlike.Connection.Session.{continues}
use redlike.Connection.Requests
use redlike.Connection.Replies.{IsQuiet, stamped, replies, run-replies}
use redlike.Connection.Auth
use redlike.Connection.Auth.{Guesses, with_store}
use redlike.Connection.{process_command}
use redlike.Connection.Session.{Session, closes, handle, handle_frames, finish}
use redlike.Connection.Unlocked.{IsPlain, with_connection, accepted, handle_frames-auth}
use redlike.Connection.Stops.{StopsAt, handle_frames-StopsAt}
use redlike.Connection.Locked.{received_frames, run_locked}
use redlike.Connection.{IsEquality}
use redlike.Frame.{bulk}
use redlike.Connection.Session.{Environment, Event, received, run, opened}
use redlike.Connection.Ends.{SameEnd}
use redlike.Connection.Pieces.{run_pieces}
mod Shared
mod Output

-- A connection that has the store to itself.
abbrev pub alone : Environment
alone = record {
  platform = record { memchr = position; max_capacity = 1000 };
  constant_time_eq = bytes_eq;
  clock = λ n. n;
  others = λ n s. s;
  writable = λ n. true;
  sent = λ n. 0;
}

pub alone-IsMemchr : IsMemchr alone.platform
alone-IsMemchr = record { finds_first = λ b s. refl }

bytes_eq-IsEquality : IsEquality bytes_eq
bytes_eq-IsEquality = record { tells = bytes_eq_iff }

abbrev first_piece : Bytes
first_piece = codes "SET k"

abbrev second_piece : Bytes
second_piece = codes " v\nGET k\n"

one_read : Run.parse alone.platform Parser.new (first_piece ++ second_piece) ≢ Run.panicked
unfolding Run.parse advance read_length position start_turn inline_turn array_length_turn
    integer_turn bulk_length_turn bulk_string_turn find_crlf is_utf8 parse_i64 split_whitespace
one_read = cc

run_pieces_example :
    SameEnd
      (run alone (received first_piece ∷ received second_piece ∷ []) (opened none Store.new))
      (run alone (received (first_piece ++ second_piece) ∷ []) (opened none Store.new))
run_pieces_example =
    run_pieces alone alone-IsMemchr (opened none Store.new) first_piece second_piece [] (cc) (cc)
      one_read

-- The frame of a request by its words.
abbrev request : List Bytes → Frame
request parts = array (to_frames (map (λ v. bulk (some v)) parts))

-- A client that asks for a key and guesses a password.
abbrev guess : List Event
guess = received (codes "GET k\nAUTH no\n") ∷ []

guess-received :
    received_frames alone.platform guess Parser.new
    ≡ request (codes "GET" ∷ codes "k" ∷ []) ∷ request (codes "AUTH" ∷ codes "no" ∷ []) ∷ []
unfolding received_frames Run.parse advance read_length position start_turn inline_turn
    array_length_turn integer_turn bulk_length_turn bulk_string_turn find_crlf is_utf8 parse_i64
    split_whitespace
guess-received = refl

guess-Guesses : All (Guesses alone (codes "pw")) (received_frames alone.platform guess Parser.new)
unfolding try_from eq_ignore_ascii_case bytes_eq
guess-Guesses = rw guess-received ((λ key e. cc), ((λ key e. ground arith), tt))

run_locked_example :
    (run (Auth.alone alone) guess (opened (some (codes "pw")) Store.new)
      ≡ with_store Store.new (run alone guess (opened (some (codes "pw")) Store.new)))
    × ((run alone guess (opened (some (codes "pw")) Store.new)).0.connection
        ≡ (opened (some (codes "pw")) Store.new).connection)
run_locked_example =
    run_locked alone (opened (some (codes "pw")) Store.new) (codes "pw") Store.new guess
      (refl, refl) guess-Guesses

alone-IsQuiet : IsQuiet alone
alone-IsQuiet = record {
  unseen = λ n later s k h. refl;
  monotone = λ n. omega arith;
  writable = λ n. refl;
}

-- A key that is set, given a second, and asked for.
abbrev pub pipeline : List Operation
pipeline = expire_op (codes "k") 1 ∷ get_op (codes "k") ∷ []

run-replies_example :
    ((run alone
        (received (
            all_bytes
              (to_frames (map Requests.request (set_op (codes "k") (codes "v") ∷ pipeline))))
          ∷ [])
        (opened none Store.new)).1
      ≡ continues)
    × ((run alone
          (received (
              all_bytes
                (to_frames (map Requests.request (set_op (codes "k") (codes "v") ∷ pipeline))))
            ∷ [])
          (opened none Store.new)).0.output
        ≡ replies (set_op (codes "k") (codes "v") ∷ pipeline) (
            spec_answers (λ k. none) (stamped alone 0 (set_op (codes "k") (codes "v") ∷ pipeline))))
run-replies_example =
    run-replies alone alone-IsMemchr alone-IsQuiet (set_op (codes "k") (codes "v")) pipeline
      (omega arith)
      ((omega arith, omega arith), ((omega arith, omega arith, omega arith), (omega arith, tt)))

-- A client that sets a key, quits, and would ask for the key.
abbrev parting : List Frame
parting =
    request (codes "SET" ∷ codes "k" ∷ codes "v" ∷ [])
    ∷ request (codes "QUIT" ∷ [])
    ∷ request (codes "GET" ∷ codes "k" ∷ [])
    ∷ []

abbrev parted : Session
parted = (handle_frames alone parting (opened none Store.new)).0

parts : handle_frames alone parting (opened none Store.new) ≡ (parted, closes)
unfolding handle_frames handle finish process_command try_from eq_ignore_ascii_case
parts = refl

handle_frames-StopsAt_example : StopsAt alone parting (opened none Store.new) parted closes
handle_frames-StopsAt_example =
    handle_frames-StopsAt alone parting (opened none Store.new) parted closes (λ e. cc) parts

-- A client that gives the password, sets a key and asks for it.
abbrev secret : Bytes
secret = codes "pw"

abbrev behind_auth : List Frame
behind_auth =
    request (codes "SET" ∷ codes "k" ∷ codes "v" ∷ []) ∷ request (codes "GET" ∷ codes "k" ∷ []) ∷ []

behind_auth-IsPlain : All IsPlain behind_auth
unfolding try_from eq_ignore_ascii_case
behind_auth-IsPlain = ((λ key e. cc), ((λ key e. cc), tt))

is_auth : try_from (request (codes "AUTH" ∷ secret ∷ [])) ≡ ok (auth secret)
unfolding try_from eq_ignore_ascii_case
is_auth = refl

handle_frames-auth_example :
    handle_frames alone
      (request (codes "AUTH" ∷ secret ∷ []) ∷ behind_auth)
      (opened (some secret) Store.new)
    ≡ with_connection
        (record (opened (some secret) Store.new).connection { authenticated = true })
        (handle_frames alone behind_auth
          (accepted alone (redlike.Connection.new none) (opened (some secret) Store.new)))
handle_frames-auth_example =
    handle_frames-auth alone (opened (some secret) Store.new) secret
      (request (codes "AUTH" ∷ secret ∷ [])) behind_auth bytes_eq-IsEquality refl refl is_auth
      behind_auth-IsPlain
