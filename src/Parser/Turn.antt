-- ===== src/Parser/Turn.antt =====
-- One turn of the loop in `try_parse_one_frame` (src/parser.rs), an arm of its `match` at a time.
use redlike.Prelude.{
  ℕ, zero, suc, ◌+◌, Bool, true, false, not, Option, none, some, List, [], ◌∷◌, map, ltb, ◌==◌,
  if◌then◌else◌, length, get_elem?, take, Bytes, ℤ, pos, negsuc,
}
use redlike.Text.Utf8.{is_utf8}
use redlike.Text.Whitespace.{split_whitespace}
use redlike.Frame.{
  Frame, simple_string, simple_error, bulk, integer, array, nil_array, nil, to_frames,
}
use mathlib.Core.Option
use redlike.Parser.{
  ParseError, unreadable_utf, invalid_length, unreadable_bulk_string, State, start,
  reading_simple_string, reading_simple_error, reading_bulk_length, reading_bulk_string,
  reading_integer, reading_inline, reading_array_length, error, Parser, ok, err, Platform, Parsed,
  drain, goto, find_crlf, read_length,
}

-- What one turn of the loop in `try_parse_one_frame` does: `continue`, or return `Ok(Some(_))`,
-- `Ok(None)` or `Err(_)`, or panic.
pub data Turn : Type 0 where
  again : Parser → Turn
  found : Frame → Parser → Turn
  pending : Parser → Turn
  failed : ParseError → Parser → Turn
  panicked : Turn

-- State::Start: the first byte says what follows; any other byte begins an inline command and stays.
unfoldable pub start_turn : Parser → Turn
unfolding drain goto
start_turn p = elim p.buf [
  | [] ↦ pending p
  | b ∷ _ ↦
      if b == b'+'
      then again (goto reading_simple_string (drain 1 p))
      else if b == b'$'
      then again (goto reading_bulk_length (drain 1 p))
      else if b == b'*'
      then again (goto reading_array_length (drain 1 p))
      else if b == b'-'
      then again (goto reading_simple_error (drain 1 p))
      else if b == b':'
      then again (goto reading_integer (drain 1 p))
      else again (goto reading_inline p)
]

-- State::ReadingSimpleString. The payload is drained before it is validated.
unfoldable pub simple_string_turn : Parser → Turn
unfolding drain goto
simple_string_turn p = elim (find_crlf p.buf) [
  | none ↦ pending p
  | some at ↦
      let bytes = take at p.buf in
      let p' = drain at p in
      if is_utf8 bytes
      then found (simple_string bytes) (goto start (drain 2 p'))
      else failed unreadable_utf p'
]

-- State::ReadingSimpleError
unfoldable pub simple_error_turn : Parser → Turn
unfolding drain goto
simple_error_turn p = elim (find_crlf p.buf) [
  | none ↦ pending p
  | some at ↦
      let bytes = take at p.buf in
      let p' = drain at p in
      if is_utf8 bytes
      then found (simple_error bytes) (goto start (drain 2 p'))
      else failed unreadable_utf p'
]

-- The frame of an inline command's words; a blank line gives none and the loop goes on.
unfoldable pub words_turn : List Bytes → Parser → Turn
words_turn [] p = again p
words_turn (w ∷ ws) p = found (array (to_frames (map (λ v. bulk (some v)) (w ∷ ws)))) p

-- State::ReadingInline
unfoldable pub inline_turn : Platform → Parser → Turn
unfolding drain goto words_turn
inline_turn platform p = elim (platform.memchr b'\n' p.buf) [
  | none ↦ pending p
  | some at ↦
      let bytes = take at p.buf in
      let p' = drain at p in
      if is_utf8 bytes
      then words_turn (split_whitespace bytes) (goto start (drain 1 p'))
      else failed unreadable_utf p'
]

-- `match self.read_length()? { Some(l) => l, None => return Ok(None) }` and what follows it.
unfoldable pub after_length : (ℤ → Parser → Turn) → Parsed (Option ℤ) × Parser → Turn
after_length rest (ok (some l), p) = rest l p
after_length rest (ok none, p) = pending p
after_length rest (err e, p) = failed e p

-- What follows `read_length` where the length is that of a bulk string.
unfoldable pub bulk_length : ℤ → Parser → Turn
unfolding goto
bulk_length (negsuc zero) p = found (bulk none) (goto start p)
bulk_length (negsuc (suc n)) p = failed invalid_length p
bulk_length (pos length) p = again (goto (reading_bulk_string length) p)

-- State::ReadingBulkLength
unfoldable pub bulk_length_turn : Parser → Turn
unfolding after_length bulk_length
bulk_length_turn p = after_length bulk_length (read_length p)

-- `self.buf[i] != b`; an index out of bounds panics.
abbrev pub differs : Bytes → ℕ → ℕ → Option Bool
differs buf i b = Option.map (λ c. not (c == b)) (get_elem? buf i)

-- State::ReadingBulkString
unfoldable pub bulk_string_turn : ℕ → Parser → Turn
unfolding drain goto
bulk_string_turn len p =
    if ltb (length p.buf) (len + 2) then pending p else elim (differs p.buf len b'\r') [
      | none ↦ panicked
      | some true ↦ failed unreadable_bulk_string p
      | some false ↦ elim (differs p.buf (len + 1) b'\n') [
        | none ↦ panicked
        | some true ↦ failed unreadable_bulk_string p
        | some false ↦
            let payload = take len p.buf in
            found (bulk (some payload)) (goto start (drain 2 (drain len p)))
      ]
    ]

-- What follows `read_length` where it reads an integer.
unfoldable pub integer_value : ℤ → Parser → Turn
unfolding goto
integer_value l p = found (integer l) (goto start p)

-- State::ReadingInteger
unfoldable pub integer_turn : Parser → Turn
unfolding after_length integer_value
integer_turn p = after_length integer_value (read_length p)

-- What follows `read_length` where the length is that of an array. `with_capacity` may panic.
unfoldable pub array_length : Platform → ℤ → Parser → Turn
unfolding goto
array_length platform (negsuc zero) p = found nil_array (goto start p)
array_length platform (negsuc (suc n)) p = failed invalid_length p
array_length platform (pos zero) p = found (array nil) (goto start p)
array_length platform (pos (suc n)) p =
    if ltb platform.max_capacity (suc n)
    then panicked
    else again
        (record p { state = start; stack = record { capacity = suc n; frames = [] } ∷ p.stack })

-- State::ReadingArrayLength
unfoldable pub array_length_turn : Platform → Parser → Turn
unfolding after_length array_length
array_length_turn platform p = after_length (array_length platform) (read_length p)

-- `match &mut self.state`
unfoldable pub turn : Platform → State → Parser → Turn
turn platform start p = start_turn p
turn platform reading_simple_string p = simple_string_turn p
turn platform reading_inline p = inline_turn platform p
turn platform reading_simple_error p = simple_error_turn p
turn platform reading_bulk_length p = bulk_length_turn p
turn platform (reading_bulk_string len) p = bulk_string_turn len p
turn platform reading_integer p = integer_turn p
turn platform reading_array_length p = array_length_turn platform p
turn platform (error e) p = failed e p

unfoldable pub advance : Platform → Parser → Turn
unfolding turn
advance platform p = turn platform p.state p
