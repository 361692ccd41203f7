-- ===== src/Parser/Suite/SimpleString.antt =====
-- The module `simple_string_tests` of src/parser.rs.
use redlike.Prelude.{refl, [], ◌∷◌, codes}
use redlike.Text.Utf8.{is_utf8}
use redlike.Text.Decimal.{parse_i64}
use redlike.Text.Whitespace.{split_whitespace}
use redlike.Frame.{simple_string}
use redlike.Parser.{complete, position, find_crlf, read_length}
use redlike.Parser.Turn.{
  advance, start_turn, simple_string_turn, simple_error_turn, inline_turn, array_length_turn,
  integer_turn, bulk_length_turn, bulk_string_turn,
}
use redlike.Parser.Run.{parse}
use redlike.Parser.Suite.{
  fresh, Gives, result_of, state_of, buf_of, then_parse, expect_complete, at_every_split,
}

abbrev IncompleteBufferGetsOkNone : Type 0
IncompleteBufferGetsOkNone =
    (Gives (fresh (codes "+")) (complete [])) × (Gives (fresh (codes "+OK")) (complete []))

abbrev ParseEmptySimpleString : Type 0
ParseEmptySimpleString = Gives (fresh (codes "+\r\n")) (complete (simple_string [] ∷ []))

abbrev ParseSimpleString : Type 0
ParseSimpleString = Gives (fresh (codes "+OK\r\n")) (complete (simple_string (codes "OK") ∷ []))

all_pass : IncompleteBufferGetsOkNone × ParseEmptySimpleString × ParseSimpleString
unfolding parse advance read_length position start_turn inline_turn array_length_turn integer_turn
    bulk_length_turn bulk_string_turn simple_string_turn simple_error_turn find_crlf is_utf8
    parse_i64 split_whitespace result_of state_of buf_of then_parse expect_complete at_every_split
all_pass = ((refl, refl), refl, refl)
