-- ===== src/Parser/Suite/Integer.antt =====
-- The module `integer_tests` of src/parser.rs.
use redlike.Prelude.{◌≡◌, refl, some, [], ◌∷◌, codes, pos, negsuc}
use redlike.Text.Utf8.{is_utf8}
use redlike.Text.Decimal.{parse_i64}
use redlike.Text.Whitespace.{split_whitespace}
use redlike.Frame.{integer}
use redlike.Parser.{complete, start, position, find_crlf, read_length}
use redlike.Parser.Turn.{
  advance, start_turn, simple_string_turn, simple_error_turn, inline_turn, array_length_turn,
  integer_turn, bulk_length_turn, bulk_string_turn,
}
use redlike.Parser.Run.{parse}
use redlike.Parser.Suite.{
  fresh, Gives, result_of, state_of, buf_of, then_parse, expect_complete, at_every_split,
  HandlesSplits,
}

abbrev IntegerMarkerOnlyReturnsNone : Type 0
IntegerMarkerOnlyReturnsNone = Gives (fresh (codes ":")) (complete [])

abbrev UnterminatedIntegerReturnsNone : Type 0
UnterminatedIntegerReturnsNone = Gives (fresh (codes ":12345")) (complete [])

abbrev ProperIntegerParsedLeavingBuffer : Type 0
ProperIntegerParsedLeavingBuffer =
    (Gives (fresh (codes ":12345\r\nleftovers")) (complete (integer (pos 12345) ∷ [])))
    × (buf_of (fresh (codes ":12345\r\nleftovers")) ≡ some (codes "leftovers"))

abbrev ProperlyHandlesLeadingSigns : Type 0
ProperlyHandlesLeadingSigns =
    (state_of (fresh (codes ":+12345\r\n:-567890\r\n")) ≡ some (start))
    × (Gives (fresh (codes ":+12345\r\n:-567890\r\n"))
        (complete (integer (pos 12345) ∷ integer (negsuc 567889) ∷ [])))

abbrev HandlesSplitBeforeSign : Type 0
HandlesSplitBeforeSign =
    (Gives (fresh (codes ":")) (complete []))
    × (Gives (then_parse (fresh (codes ":")) (codes "-123\r\n"))
        (complete (integer (negsuc 122) ∷ [])))

abbrev HandlesMultipleIntegersSplitAtAnyPosition : Type 0
HandlesMultipleIntegersSplitAtAnyPosition =
    HandlesSplits (codes ":-123\r\n:456\r\n:7890\r\n:3333")
      (integer (negsuc 122) ∷ integer (pos 456) ∷ integer (pos 7890) ∷ [])

all_pass :
    IntegerMarkerOnlyReturnsNone × UnterminatedIntegerReturnsNone × ProperIntegerParsedLeavingBuffer
    × ProperlyHandlesLeadingSigns × HandlesSplitBeforeSign
    × HandlesMultipleIntegersSplitAtAnyPosition
unfolding parse advance read_length position start_turn inline_turn array_length_turn integer_turn
    bulk_length_turn bulk_string_turn simple_string_turn simple_error_turn find_crlf is_utf8
    parse_i64 split_whitespace result_of state_of buf_of then_parse expect_complete at_every_split
all_pass = (refl, refl, (refl, refl), (refl, refl), (refl, refl), refl)
