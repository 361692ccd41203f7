-- ===== src/Parser/Suite/Array.antt =====
-- The module `array_tests` of src/parser.rs.
use redlike.Prelude.{◌≡◌, refl, some, [], ◌∷◌, codes}
use redlike.Text.Utf8.{is_utf8}
use redlike.Text.Decimal.{parse_i64}
use redlike.Text.Whitespace.{split_whitespace}
use redlike.Frame.{Frame, bulk, array, nil_array, nil, cons, to_frames}
use redlike.Parser.{complete, partial, invalid_length, error, position, find_crlf, read_length}
use redlike.Parser.Turn.{
  advance, start_turn, simple_string_turn, simple_error_turn, inline_turn, array_length_turn,
  integer_turn, bulk_length_turn, bulk_string_turn,
}
use redlike.Parser.Run.{parse}
use redlike.Parser.Suite.{
  fresh, Gives, result_of, state_of, buf_of, then_parse, expect_complete, at_every_split,
  HandlesSplits, text,
}

abbrev simple : Frame
simple = array (to_frames (text (codes "hello" ∷ codes "bye" ∷ codes "more" ∷ [])))

abbrev nested : Frame
nested =
    array
      (cons (array (cons (array (cons (bulk (some (codes "a"))) (cons nil_array nil))) nil)) nil)

abbrev ArrayMarkerOnlyReturnsNone : Type 0
ArrayMarkerOnlyReturnsNone = Gives (fresh (codes "*")) (complete [])

abbrev IncompleteLengthReturnsNone : Type 0
IncompleteLengthReturnsNone = Gives (fresh (codes "*5")) (complete [])

abbrev OutOfBoundsLengthReturnsError : Type 0
OutOfBoundsLengthReturnsError =
    (Gives (fresh (codes "*-2\r\n")) (partial [] invalid_length))
    × (state_of (fresh (codes "*-2\r\n")) ≡ some (error invalid_length))

abbrev MinusOneReturnsNilArray : Type 0
MinusOneReturnsNilArray = Gives (fresh (codes "*-1\r\n")) (complete (nil_array ∷ []))

abbrev ZeroLengthArray : Type 0
ZeroLengthArray = Gives (fresh (codes "*0\r\n")) (complete (array nil ∷ []))

abbrev CompleteLengthButNoPayloadReturnsNoFrames : Type 0
CompleteLengthButNoPayloadReturnsNoFrames = Gives (fresh (codes "*5\r\n")) (complete [])

abbrev ProperlyParsesArray : Type 0
ProperlyParsesArray =
    Gives (fresh (codes "*3\r\n$5\r\nhello\r\n$3\r\nbye\r\n$4\r\nmore\r\n$8leftover"))
      (complete (simple ∷ []))

abbrev DivideSimpleArrayAtDifferentLocations : Type 0
DivideSimpleArrayAtDifferentLocations =
    HandlesSplits (codes "*3\r\n$5\r\nhello\r\n$3\r\nbye\r\n$4\r\nmore\r\n$8leftover") (simple ∷ [])

abbrev ProperlyParsesNestedArray : Type 0
ProperlyParsesNestedArray =
    Gives (fresh (codes "*1\r\n*1\r\n*2\r\n$1\r\na\r\n*-1\r\n")) (complete (nested ∷ []))

abbrev DivideNestedArrayAtDifferentLocations : Type 0
DivideNestedArrayAtDifferentLocations =
    HandlesSplits (codes "*1\r\n*1\r\n*2\r\n$1\r\na\r\n*-1\r\n") (nested ∷ [])

all_pass :
    ArrayMarkerOnlyReturnsNone × IncompleteLengthReturnsNone × OutOfBoundsLengthReturnsError
    × MinusOneReturnsNilArray × ZeroLengthArray × CompleteLengthButNoPayloadReturnsNoFrames
    × ProperlyParsesArray × DivideSimpleArrayAtDifferentLocations × ProperlyParsesNestedArray
    × DivideNestedArrayAtDifferentLocations
unfolding parse advance read_length position start_turn inline_turn array_length_turn integer_turn
    bulk_length_turn bulk_string_turn simple_string_turn simple_error_turn find_crlf is_utf8
    parse_i64 split_whitespace result_of state_of buf_of then_parse expect_complete at_every_split
all_pass = (refl, refl, (refl, refl), refl, refl, refl, refl, refl, refl, refl)
