-- ===== src/Parser/Suite/BulkString.antt =====
-- The module `bulk_string_tests` of src/parser.rs.
use redlike.Prelude.{◌≡◌, refl, none, some, [], ◌∷◌, codes}
use redlike.Text.Utf8.{is_utf8}
use redlike.Text.Decimal.{parse_i64}
use redlike.Text.Whitespace.{split_whitespace}
use redlike.Frame.{bulk}
use redlike.Parser.{
  complete, partial, invalid_length, unreadable_bulk_string, error, position, find_crlf,
  read_length,
}
use redlike.Parser.Turn.{
  advance, start_turn, simple_string_turn, simple_error_turn, inline_turn, array_length_turn,
  integer_turn, bulk_length_turn, bulk_string_turn,
}
use redlike.Parser.Run.{parse}
use redlike.Parser.Suite.{
  fresh, Gives, result_of, state_of, buf_of, then_parse, expect_complete, at_every_split,
  HandlesSplits, text,
}

abbrev BulkStringMarkerOnlyReturnsNone : Type 0
BulkStringMarkerOnlyReturnsNone = Gives (fresh (codes "$")) (complete [])

abbrev IncompleteLengthReturnsNone : Type 0
IncompleteLengthReturnsNone = Gives (fresh (codes "$5")) (complete [])

abbrev CompleteLengthButNoPayloadReturnsNone : Type 0
CompleteLengthButNoPayloadReturnsNone = Gives (fresh (codes "$5\r\n")) (complete [])

abbrev CompleteLengthButIncompletePayloadReturnsNone : Type 0
CompleteLengthButIncompletePayloadReturnsNone = Gives (fresh (codes "$5\r\nh")) (complete [])

abbrev OutOfBoundsLengthReturnsError : Type 0
OutOfBoundsLengthReturnsError =
    (Gives (fresh (codes "$-2\r\n")) (partial [] invalid_length))
    × (state_of (fresh (codes "$-2\r\n")) ≡ some (error invalid_length))

abbrev MinusOneReturnsNilBulkString : Type 0
MinusOneReturnsNilBulkString = Gives (fresh (codes "$-1\r\n")) (complete (bulk none ∷ []))

abbrev ZeroLengthBulkString : Type 0
ZeroLengthBulkString = Gives (fresh (codes "$0\r\n\r\n")) (complete (bulk (some []) ∷ []))

abbrev PayloadContinuesPastExpectedLengthGetsError : Type 0
PayloadContinuesPastExpectedLengthGetsError =
    (Gives (fresh (codes "$5\r\nhellothere\r\n")) (partial [] unreadable_bulk_string))
    × (state_of (fresh (codes "$5\r\nhellothere\r\n")) ≡ some (error unreadable_bulk_string))

abbrev PayloadIsNotTerminatedAtExpectedLengthGetsError : Type 0
PayloadIsNotTerminatedAtExpectedLengthGetsError =
    (Gives (fresh (codes "$5\r\nhellothere\r\n")) (partial [] unreadable_bulk_string))
    × (state_of (fresh (codes "$5\r\nhellothere\r\n")) ≡ some (error unreadable_bulk_string))

abbrev ProperPayloadParsedLeavingRemainingBuffer : Type 0
ProperPayloadParsedLeavingRemainingBuffer =
    (Gives (fresh (codes "$5\r\nhello\r\nleftovers")) (complete (bulk (some (codes "hello")) ∷ [])))
    × (buf_of (fresh (codes "$5\r\nhello\r\nleftovers")) ≡ some (codes "leftovers"))

abbrev HandlesBulkStringSplitAtAnyPosition : Type 0
HandlesBulkStringSplitAtAnyPosition =
    HandlesSplits (codes "$5\r\nhello\r\n$7\r\nanother\r\n$4\r\nbulk\r\n")
      (text (codes "hello" ∷ codes "another" ∷ codes "bulk" ∷ []))

all_pass :
    BulkStringMarkerOnlyReturnsNone × IncompleteLengthReturnsNone
    × CompleteLengthButNoPayloadReturnsNone × CompleteLengthButIncompletePayloadReturnsNone
    × OutOfBoundsLengthReturnsError × MinusOneReturnsNilBulkString × ZeroLengthBulkString
    × PayloadContinuesPastExpectedLengthGetsError × PayloadIsNotTerminatedAtExpectedLengthGetsError
    × ProperPayloadParsedLeavingRemainingBuffer × HandlesBulkStringSplitAtAnyPosition
unfolding parse advance read_length position start_turn inline_turn array_length_turn integer_turn
    bulk_length_turn bulk_string_turn simple_string_turn simple_error_turn find_crlf is_utf8
    parse_i64 split_whitespace result_of state_of buf_of then_parse expect_complete at_every_split
all_pass = (
  refl,
  refl,
  refl,
  refl,
  (refl, refl),
  refl,
  refl,
  (refl, refl),
  (refl, refl),
  (refl, refl),
  refl,
)
