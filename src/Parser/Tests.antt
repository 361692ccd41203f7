-- ===== src/Parser/Tests.antt =====
-- Runs of the parser, as in the unit tests of src/parser.rs.
use redlike.Frame.Laws.{all_bytes}
use redlike.Frame.Sendable.{IsSendable, AllSendable}
use redlike.Parser.Streaming.{and_then, parse-append, parse-ne-out_of_fuel, parse-partial}
use redlike.Parser.RoundTrip.{parse-to_bytes}
use redlike.Parser.{Parser, start}
use redlike.Parser.Stack.{AreOpen, parse-AreOpen}
use redlike.Parser.Inline.{Line, IsTyped, lines_bytes, line_request, parse-lines}
use redlike.Prelude.{◌≢◌, ◌++◌, inl, inr, arith, ◌≡◌, refl, [], ◌∷◌, none, some, Bytes, codes, pos}
use redlike.Text.Utf8.{is_utf8}
use redlike.Text.Decimal.{parse_i64}
use redlike.Text.Whitespace.{split_whitespace}
use redlike.Frame.{Frames, from_frames, simple_string, bulk, integer, array, nil, cons}
use redlike.Parser.{
  IsMemchr, extend, Platform, complete, partial, invalid_length, new, set_error,
  reading_bulk_string, position, find_crlf, read_length,
}
use redlike.Parser.Turn.{
  advance, simple_string_turn, start_turn, inline_turn, array_length_turn, integer_turn,
  bulk_length_turn, bulk_string_turn,
}
use redlike.Parser.Run.{Run, out_of_fuel, returned, parse}

abbrev machine : Platform
machine = record { memchr = position; max_capacity = 1000 }

run : Bytes → Run
unfolding parse advance read_length position start_turn inline_turn array_length_turn integer_turn
    bulk_length_turn bulk_string_turn find_crlf is_utf8 parse_i64 split_whitespace
run = parse machine new

ping :
    run (codes "PING\n")
    ≡ returned (complete (array (cons (bulk (some (codes "PING"))) nil) ∷ [])) new
unfolding run
ping = refl

nested :
    run (codes "*2\r\n*1\r\n:7\r\n$-1\r\n")
    ≡ returned
        (complete (array (cons (array (cons (integer (pos 7)) nil)) (cons (bulk none) nil)) ∷ []))
        new
unfolding run
nested = refl

incomplete :
    run (codes "$5\r\nh")
    ≡ returned (complete []) (record { state = reading_bulk_string 5; buf = codes "h"; stack = [] })
unfolding run
incomplete = refl

out_of_bounds :
    run (codes "$-2\r\n") ≡ returned (partial [] invalid_length) (set_error new invalid_length)
unfolding run set_error
out_of_bounds = refl

machine-IsMemchr : IsMemchr machine
machine-IsMemchr = record { finds_first = λ b s. refl }

parse-append_example :
    parse machine new (codes "*1\r\n$4" ++ codes "\r\nPING\r\n+O")
    ≡ and_then
        (parse machine new (codes "*1\r\n$4"))
        (λ q. parse machine q (codes "\r\nPING\r\n+O"))
parse-append_example =
    parse-append machine machine-IsMemchr new (codes "*1\r\n$4") (codes "\r\nPING\r\n+O")

parse-ne-out_of_fuel_example : parse machine new (codes "GET k\n\n+OK") ≢ out_of_fuel
parse-ne-out_of_fuel_example =
    parse-ne-out_of_fuel machine machine-IsMemchr new (codes "GET k\n\n+OK")

-- A length that is no number, and then a simple string.
abbrev halted : Parser
halted = set_error (record new { buf = codes "x\r\n" }) invalid_length

halted-parsed :
    run (codes "+OK\r\n$x\r\n")
    ≡ returned (partial (simple_string (codes "OK") ∷ []) invalid_length) halted
unfolding run simple_string_turn set_error
halted-parsed = refl

parse-partial_example :
    parse machine halted (codes "+OK\r\n")
    ≡ returned (partial [] invalid_length) (extend halted (codes "+OK\r\n"))
parse-partial_example =
    parse-partial machine machine-IsMemchr new halted (codes "+OK\r\n$x\r\n") (codes "+OK\r\n")
      (simple_string (codes "OK") ∷ []) invalid_length (unfold run in halted-parsed)

-- [[7, nil], "a"] and a status.
abbrev sample : Frames
sample =
    cons
      (array (
        cons (array (cons (integer (pos 7)) (cons (bulk none) nil)))
          (cons (bulk (some (codes "a"))) nil)))
      (cons (simple_string (codes "OK")) nil)

sample-AllSendable : AllSendable 1000 sample
unfolding IsSendable is_utf8 find_crlf
sample-AllSendable = (
  (
    omega arith,
    omega arith,
    ((omega arith, omega arith, (omega arith, (tt, tt))), (omega arith, tt)),
  ),
  ((refl, refl), tt),
)

parse-to_bytes_example :
    parse machine new (all_bytes sample) ≡ returned (complete (from_frames sample)) new
parse-to_bytes_example = parse-to_bytes machine machine-IsMemchr sample sample-AllSendable

-- An array of which one element has arrived.
abbrev half : Parser
half = record {
  state = start;
  buf = [];
  stack = record { capacity = 2; frames = integer (pos 1) ∷ [] } ∷ [];
}

half-parsed : run (codes "*2\r\n:1\r\n") ≡ returned (complete []) half
unfolding run
half-parsed = refl

parse-AreOpen_example : AreOpen machine half.stack
parse-AreOpen_example =
    parse-AreOpen machine machine-IsMemchr new half (codes "*2\r\n:1\r\n") (complete []) tt
      (unfold run in half-parsed)

-- Two commands as one types them, the first into a terminal that sends carriage returns.
abbrev set_line : Line
set_line = record {
  pieces = (codes "SET", codes " ") ∷ (codes "k", codes "  ") ∷ [];
  last = codes "v";
  end = codes "\r";
}

abbrev ping_line : Line
ping_line = record { pieces = []; last = codes "PING"; end = [] }

set_line-IsTyped : IsTyped set_line
set_line-IsTyped = record {
  spaced_out = (
    (((λ e. cc), omega arith), ((λ e. cc), (inl refl, tt))),
    ((((λ e. cc), omega arith), ((λ e. cc), (inl refl, (inl refl, tt)))), tt),
  );
  last_word = ((λ e. cc), omega arith);
  blank_end = (inr (inr refl), tt);
  starts = ground arith;
}

ping_line-IsTyped : IsTyped ping_line
ping_line-IsTyped = record {
  spaced_out = tt;
  last_word = ((λ e. cc), omega arith);
  blank_end = tt;
  starts = ground arith;
}

parse-lines_example :
    parse machine new (lines_bytes (set_line ∷ ping_line ∷ []))
    ≡ returned (complete (line_request set_line ∷ line_request ping_line ∷ [])) new
parse-lines_example =
    parse-lines machine machine-IsMemchr (set_line ∷ ping_line ∷ [])
      (set_line-IsTyped, (ping_line-IsTyped, tt))
