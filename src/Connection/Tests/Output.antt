-- ===== src/Connection/Tests/Output.antt =====
-- A run whose replies a client reads (src/connection.rs).
use redlike.Prelude.{◌≡◌, refl, none, List, [], ◌∷◌, length, arith, codes, bytes_eq}
use redlike.Text.Utf8.{is_utf8}
use redlike.Text.Decimal.{parse_i64, print_i64, print_usize}
use redlike.Text.Whitespace.{split_whitespace}
use redlike.Parser.{position, find_crlf, read_length}
use redlike.Parser.Turn.{
  advance, start_turn, inline_turn, array_length_turn, integer_turn, bulk_length_turn,
  bulk_string_turn,
}
use redlike.Parser.Run
use redlike.Frame.{to_bytes}
use redlike.Store
use redlike.Store.Map
use redlike.Command.{try_from, eq_ignore_ascii_case}
use redlike.Connection.{process_command}
use redlike.Connection.Session.{Event, received, run, opened, handle_event, finish}
use redlike.Connection.Output.{IsReadable, run-IsReadable}
use redlike.Connection.Tests.{alone, alone-IsMemchr}

-- A value, a missing key, a number, an error, and a word that is no command.
abbrev talk : List Event
talk = received (codes "SET k v\nGET k\nGE") ∷ received (codes "T j\nDEL k\nSET k\nHELLO\n") ∷ []

talk-length : length (run alone talk (opened none Store.new)).0.output ≡ 67
unfolding run handle_event finish process_command try_from eq_ignore_ascii_case Run.parse advance
    read_length position start_turn inline_turn array_length_turn integer_turn bulk_length_turn
    bulk_string_turn split_whitespace is_utf8 find_crlf parse_i64 to_bytes print_i64 print_usize
    Map.empty Map.get Map.insert Map.remove Map.lookup Map.without bytes_eq Store.set Store.get
    Store.del
talk-length = refl

run-IsReadable_example : IsReadable alone.platform (run alone talk (opened none Store.new))
run-IsReadable_example =
    run-IsReadable alone alone.platform alone-IsMemchr none Store.new talk
      (omega (arith, talk-length))
