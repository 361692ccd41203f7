-- ===== src/Parser/Run.antt =====
-- `try_parse_one_frame` and `parse` (src/parser.rs): the loops over the turns.
use redlike.Prelude.{
  ℕ, zero, suc, ◌+◌, ◌-◌, ◌*◌, Option, none, some, List, [], ◌∷◌, ◌++◌, ◌==◌, if◌then◌else◌, length,
  Bytes,
}
use redlike.Frame.{Frame, array, to_frames}
use redlike.Parser.{
  State, start, Level, Parser, ParseResult, complete, partial, Parsed, ok, err, Platform, set_error,
  extend,
}
use redlike.Parser.Turn.{Turn, again, found, pending, failed, advance}

-- The result of `try_parse_one_frame` with the parser that it leaves.
pub data Attempt : Type 0 where
  got : Parsed (Option Frame) → Parser → Attempt
  panicked out_of_fuel : Attempt

-- What follows a turn: `continue`, with the rest of the loop, or a return.
unfoldable pub settle : (Parser → Attempt) → Turn → Attempt
settle loop (again p) = loop p
settle loop (found f p) = got (ok (some f)) p
settle loop (pending p) = got (ok none) p
settle loop (failed e p) = got (err e) p
settle loop Turn.panicked = Attempt.panicked

-- The loop, one unit of fuel for each turn.
unfoldable pub try_parse_loop : Platform → ℕ → Parser → Attempt
unfolding settle
try_parse_loop platform zero p = out_of_fuel
try_parse_loop platform (suc fuel) p = settle (try_parse_loop platform fuel) (advance platform p)

-- Every turn that goes on lowers this: it takes bytes, or leaves `Start` for an inline command.
abbrev pub at_start : State → ℕ
at_start start = 1
at_start _ = 0

abbrev pub measure : Parser → ℕ
measure p = 2 * length p.buf + at_start p.state

unfoldable pub try_parse_one_frame : Platform → Parser → Attempt
unfolding try_parse_loop
try_parse_one_frame platform p = try_parse_loop platform (measure p + 1) p

-- Gives a finished frame to the innermost open array; each array that this fills is closed and given
-- on in its turn, and what no array is waiting for is put out. The head of the list is the source's
-- `stack.last_mut()`.
unfoldable pub deliver : Frame → List Level → List Frame → List Level × List Frame
deliver f [] output = ([], output ++ f ∷ [])
deliver f (level ∷ stack) output =
    let frames = level.frames ++ f ∷ [] in
    let closed = deliver (array (to_frames frames)) stack output in
    if level.capacity - length frames == 0
    then closed
    else (record level { frames = frames } ∷ stack, output)

-- How a call of `parse` ends.
pub data Run : Type 0 where
  returned : ParseResult → Parser → Run
  panicked out_of_fuel : Run

-- The body of the loop of `parse`, behind the call of `try_parse_one_frame`.
unfoldable pub conclude : (Parser → List Frame → Run) → List Frame → Attempt → Run
unfolding deliver set_error
conclude loop output (got (ok (some f)) p) =
    let (stack, output') = deliver f p.stack output in loop (record p { stack = stack }) output'
conclude loop output (got (ok none) p) = returned (complete output) p
conclude loop output (got (err e) p) = returned (partial output e) (set_error p e)
conclude loop output Attempt.panicked = Run.panicked
conclude loop output Attempt.out_of_fuel = Run.out_of_fuel

-- The loop of `parse`, one unit of fuel for each frame.
unfoldable pub parse_loop : Platform → ℕ → Parser → List Frame → Run
unfolding conclude try_parse_one_frame
parse_loop platform zero p output = out_of_fuel
parse_loop platform (suc fuel) p output =
    conclude (parse_loop platform fuel) output (try_parse_one_frame platform p)

unfoldable pub parse : Platform → Parser → Bytes → Run
unfolding extend parse_loop
parse platform p input = let p' = extend p input in parse_loop platform (measure p' + 1) p' []
