-- ===== src/Parser/Reads.antt =====
-- The turns over one written frame, for each kind of frame, up to an array's header.
use redlike.Prelude.{
  ℕ, suc, ◌≤◌, refl, ap, ◌∙◌, none, some, List, [], ◌∷◌, ◌++◌, arith, length, Bytes, ℤ, negsuc,
  IsI64, i64_max,
}
use redlike.Text.Decimal.{print_i64, print_usize}
use redlike.Frame.{Frame, simple_string, simple_error, bulk, integer, array, nil_array, nil, crlf}
use redlike.Frame.Sendable.{IsLine}
use redlike.Parser.{
  Parser, Level, Platform, start, reading_simple_string, reading_simple_error, reading_bulk_length,
  reading_bulk_string, reading_integer, reading_array_length,
}
use redlike.Parser.Turn.{
  advance, after_length, bulk_length, integer_value, array_length, start_turn, bulk_length_turn,
  integer_turn, array_length_turn,
}
use redlike.Parser.Run.{Run}
use redlike.Parser.Trace.{Trace, again_step, found_step, give, put_out}
use redlike.Parser.Headers.{
  at, simple_string_turn-line, simple_error_turn-line, read_length-print_i64,
  read_length-print_usize, bulk_string_turn-payload,
}

module _ (platform : Platform) (r : Run) where
  -- The turns from here end in `r`.
  abbrev pub Ends : Parser → List Frame → Type 0
  Ends = Trace platform r

  module _ (rest : Bytes) (stack : List Level) (output : List Frame) where
    -- ... once the frame is delivered and the rest of the input is left.
    abbrev pub Delivers : Frame → Type 0
    Delivers f = Ends (give f (at start rest stack) output) (put_out f (at start rest stack) output)

    pub reads-simple_string :
        (text : Bytes)
        → IsLine text
        → Delivers (simple_string text)
        → Ends (at start (b'+' ∷ (text ++ (crlf ++ rest))) stack) output
    unfolding advance start_turn
    reads-simple_string text line t =
        again_step (at reading_simple_string (text ++ (crlf ++ rest)) stack) refl (
          found_step (simple_string text) (at start rest stack)
            (simple_string_turn-line reading_simple_string stack text rest line) t)

    pub reads-simple_error :
        (text : Bytes)
        → IsLine text
        → Delivers (simple_error text)
        → Ends (at start (b'-' ∷ (text ++ (crlf ++ rest))) stack) output
    unfolding advance start_turn
    reads-simple_error text line t =
        again_step (at reading_simple_error (text ++ (crlf ++ rest)) stack) refl (
          found_step (simple_error text) (at start rest stack)
            (simple_error_turn-line reading_simple_error stack text rest line) t)

    pub reads-integer :
        (z : ℤ)
        → IsI64 z
        → Delivers (integer z)
        → Ends (at start (b':' ∷ (print_i64 z ++ (crlf ++ rest))) stack) output
    unfolding advance start_turn integer_turn
    reads-integer z h t =
        again_step (at reading_integer (print_i64 z ++ (crlf ++ rest)) stack) refl (
          found_step (integer z) (at start rest stack)
            (ap (after_length integer_value) (read_length-print_i64 reading_integer stack z rest h))
            t)

    pub reads-bulk :
        (payload : Bytes)
        → length payload ≤ i64_max
        → Delivers (bulk (some payload))
        → Ends
            (at start
              (b'$' ∷ (print_usize (length payload) ++ (crlf ++ (payload ++ (crlf ++ rest)))))
              stack)
            output
    unfolding advance start_turn bulk_length_turn
    reads-bulk payload h t =
        again_step
          (at reading_bulk_length
            (print_usize (length payload) ++ (crlf ++ (payload ++ (crlf ++ rest)))) stack)
          refl
          (again_step (at (reading_bulk_string (length payload)) (payload ++ (crlf ++ rest)) stack)
            (ap (after_length bulk_length) (
              read_length-print_usize reading_bulk_length stack (length payload)
                (payload ++ (crlf ++ rest)) h))
            (found_step (bulk (some payload)) (at start rest stack)
              (bulk_string_turn-payload (reading_bulk_string (length payload)) stack payload rest)
              t))

    pub reads-array_header :
        (n : ℕ)
        → suc n ≤ i64_max
        → suc n ≤ platform.max_capacity
        → Ends (at start rest (record { capacity = suc n; frames = [] } ∷ stack)) output
        → Ends (at start (b'*' ∷ (print_usize (suc n) ++ (crlf ++ rest))) stack) output
    unfolding advance start_turn array_length_turn after_length array_length
    reads-array_header n h fits t =
        again_step (at reading_array_length (print_usize (suc n) ++ (crlf ++ rest)) stack) refl (
          again_step (at start rest (record { capacity = suc n; frames = [] } ∷ stack))
            (ap (after_length (array_length platform))
                (read_length-print_usize reading_array_length stack (suc n) rest h)
              ∙ ground arith)
            t)

    pub reads-array_empty :
        Delivers (array nil)
        → Ends (at start (b'*' ∷ (print_usize 0 ++ (crlf ++ rest))) stack) output
    unfolding advance start_turn array_length_turn
    reads-array_empty t =
        again_step (at reading_array_length (print_usize 0 ++ (crlf ++ rest)) stack) refl (
          found_step (array nil) (at start rest stack)
            (ap (after_length (array_length platform))
              (read_length-print_usize reading_array_length stack 0 rest (omega arith)))
            t)

    pub reads-nil_array :
        Delivers nil_array
        → Ends (at start (b'*' ∷ (print_i64 (negsuc 0) ++ (crlf ++ rest))) stack) output
    unfolding advance start_turn array_length_turn
    reads-nil_array t =
        again_step (at reading_array_length (print_i64 (negsuc 0) ++ (crlf ++ rest)) stack) refl (
          found_step nil_array (at start rest stack)
            (ap (after_length (array_length platform))
              (read_length-print_i64 reading_array_length stack (negsuc 0) rest (omega arith)))
            t)

    pub reads-nil_bulk :
        Delivers (bulk none)
        → Ends (at start (b'$' ∷ (print_i64 (negsuc 0) ++ (crlf ++ rest))) stack) output
    unfolding advance start_turn bulk_length_turn
    reads-nil_bulk t =
        again_step (at reading_bulk_length (print_i64 (negsuc 0) ++ (crlf ++ rest)) stack) refl (
          found_step (bulk none) (at start rest stack)
            (ap (after_length bulk_length)
              (read_length-print_i64 reading_bulk_length stack (negsuc 0) rest (omega arith)))
            t)
