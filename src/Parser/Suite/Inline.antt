-- ===== src/Parser/Suite/Inline.antt =====
-- The module `inline_tests` of src/parser.rs.
use redlike.Prelude.{◌≡◌, refl, some, [], ◌∷◌, codes}
use redlike.Text.Utf8.{is_utf8}
use redlike.Text.Decimal.{parse_i64}
use redlike.Text.Whitespace.{split_whitespace}
use redlike.Frame.{array, to_frames}
use redlike.Parser.{complete, partial, invalid_length, error, position, find_crlf, read_length}
use redlike.Parser.Turn.{
  advance, start_turn, simple_string_turn, simple_error_turn, inline_turn, array_length_turn,
  integer_turn, bulk_length_turn, bulk_string_turn,
}
use redlike.Parser.Run.{parse}
use redlike.Parser.Suite.{
  fresh, Gives, result_of, state_of, buf_of, then_parse, expect_complete, at_every_split,
  HandlesSplits, text,
}

abbrev UnterminatedInlineReturnsNone : Type 0
UnterminatedInlineReturnsNone = Gives (fresh (codes "h")) (complete [])

abbrev EmptyInlinesReturnNone : Type 0
EmptyInlinesReturnNone = Gives (fresh (codes "\r\n")) (complete [])

abbrev InlineCarriageReturnIsOptional : Type 0
InlineCarriageReturnIsOptional =
    Gives (fresh (codes "hello\n")) (complete (array (to_frames (text (codes "hello" ∷ []))) ∷ []))

abbrev DivideInlineArrayAtDifferentLocations : Type 0
DivideInlineArrayAtDifferentLocations =
    HandlesSplits (codes "hello there\r\n\r\n\n\nanother line\r\nleftover") (
      array (to_frames (text (codes "hello" ∷ codes "there" ∷ [])))
      ∷ array (to_frames (text (codes "another" ∷ codes "line" ∷ [])))
      ∷ [])

abbrev ReturnsCompletedInlineFrameBeforeError : Type 0
ReturnsCompletedInlineFrameBeforeError =
    (Gives (fresh (codes "PING\n$-2\r\n"))
      (partial (array (to_frames (text (codes "PING" ∷ []))) ∷ []) invalid_length))
    × (state_of (fresh (codes "PING\n$-2\r\n")) ≡ some (error invalid_length))

all_pass :
    UnterminatedInlineReturnsNone × EmptyInlinesReturnNone × InlineCarriageReturnIsOptional
    × DivideInlineArrayAtDifferentLocations × ReturnsCompletedInlineFrameBeforeError
unfolding parse advance read_length position start_turn inline_turn array_length_turn integer_turn
    bulk_length_turn bulk_string_turn simple_string_turn simple_error_turn find_crlf is_utf8
    parse_i64 split_whitespace result_of state_of buf_of then_parse expect_complete at_every_split
all_pass = (refl, refl, refl, refl, (refl, refl))
