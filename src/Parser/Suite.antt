-- ===== src/Parser/Suite.antt =====
-- The unit tests of src/parser.rs, each as what it asserts, and what they share: runs on a new parser, and
-- on an input that is cut in two at each of its places.
pub mod SimpleString
pub mod SimpleError
pub mod BulkString
pub mod Array
pub mod Integer
pub mod Inline
use redlike.Prelude.{
  ℕ, zero, suc, ◌≡◌, Option, none, some, List, [], ◌∷◌, ◌++◌, take, drop, length, Bytes, codes,
}
use redlike.Frame.{Frame, bulk}
use redlike.Parser.{ParseResult, Parser, State, Platform, complete, partial, position, new}
use redlike.Parser.Run.{Run, returned, parse}

-- The parser on a machine that can allot what the tests ask for.
abbrev pub tested : Parser → Bytes → Run
tested = parse (record { memchr = position; max_capacity = 1000 })

-- `Parser::new().parse(buf)`
abbrev pub fresh : Bytes → Run
fresh = tested new

unfoldable pub result_of : Run → Option ParseResult
result_of (returned result p) = some result
result_of Run.panicked = none
result_of Run.out_of_fuel = none

-- The call returns this.
abbrev pub Gives : Run → ParseResult → Type 0
Gives run result = result_of run ≡ some result

-- The parser is left in this state.
unfoldable pub state_of : Run → Option State
state_of (returned result p) = some p.state
state_of Run.panicked = none
state_of Run.out_of_fuel = none

unfoldable pub buf_of : Run → Option Bytes
buf_of (returned result p) = some p.buf
buf_of Run.panicked = none
buf_of Run.out_of_fuel = none

-- A second call, on the parser that the first has left.
unfoldable pub then_parse : Run → Bytes → Run
then_parse (returned result p) buf = tested p buf
then_parse Run.panicked buf = Run.panicked
then_parse Run.out_of_fuel buf = Run.out_of_fuel

-- The frames of a run; a partial result fails the test.
unfoldable pub expect_complete : Run → Option (List Frame)
expect_complete (returned (complete frames) p) = some frames
expect_complete _ = none

abbrev pub extend : Option (List Frame) → Option (List Frame) → Option (List Frame)
extend (some builder) (some frames) = some (builder ++ frames)
extend _ _ = none

-- The frames of both halves, for each of the first `n` places to cut.
unfoldable pub at_every_split : ℕ → Bytes → List (Option (List Frame))
unfolding expect_complete then_parse
at_every_split zero buf = []
at_every_split (suc i) buf =
    let left = fresh (take i buf) in
    extend (expect_complete left) (expect_complete (then_parse left (drop i buf)))
    ∷ at_every_split i buf

abbrev pub repeat : ℕ → List Frame → List (Option (List Frame))
repeat zero frames = []
repeat (suc n) frames = some frames ∷ repeat n frames

-- However the input is cut, the two halves give these frames.
abbrev pub HandlesSplits : Bytes → List Frame → Type 0
HandlesSplits buf frames = at_every_split (length buf) buf ≡ repeat (length buf) frames

abbrev pub text : List Bytes → List Frame
text [] = []
text (b ∷ bs) = bulk (some b) ∷ text bs
