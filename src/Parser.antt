-- ===== src/Parser.antt =====
-- src/parser.rs: the incremental parser, a state machine over the bytes received so far.
-- `memchr`, of a third-party crate, and the largest capacity that `Vec::<Frame>::with_capacity`
-- grants before it panics or the allocation fails are fields of `Platform`.
pub mod Turn
pub mod Run
mod Tests
pub mod Suite
pub mod Lines
pub mod Progress
pub mod Extension
pub mod Trace
pub mod Streaming
pub mod Headers
pub mod Reads
pub mod RoundTrip
pub mod Stack
pub mod Panics
pub mod Inline
use redlike.Prelude.{
  ℕ, zero, suc, ◌+◌, ◌-◌, ◌*◌, ◌≡◌, refl, Bool, true, false, not, ◌||◌, ◌&&◌, Option, none, some,
  List, [], ◌∷◌, ◌++◌, map, ltb, leb, ◌==◌, if◌then◌else◌, length, get_elem?, take, drop, Bytes,
  codes, ℤ, pos, negsuc,
}
use redlike.Text.Utf8.{is_utf8}
use redlike.Text.Decimal.{parse_i64}
use redlike.Text.Whitespace.{split_whitespace}
use redlike.Frame.{
  Frame, Frames, simple_string, simple_error, bulk, integer, array, nil_array, nil, to_frames,
}
use mathlib.Core.Option

pub data ParseError : Type 0 where
  unreadable_utf invalid_length unreadable_bulk_string : ParseError

pub data State : Type 0 where
  start reading_simple_string reading_simple_error reading_bulk_length : State
  reading_bulk_string : ℕ → State
  reading_integer reading_inline reading_array_length : State
  error : ParseError → State

-- A `Vec<Frame>` made by `with_capacity`, which is taken to allot just what it is asked for: it promises at least
-- that.
pub record Level : Type 0 where
  pub capacity : ℕ
  pub frames : List Frame

-- The end of the source's `stack` is the head of the list.
pub record Parser : Type 0 where
  pub state : State
  pub buf : Bytes
  pub stack : List Level

pub data ParseResult : Type 0 where
  complete : List Frame → ParseResult
  partial : List Frame → ParseError → ParseResult

-- `Result<A, ParseError>`
pub data Parsed {ℓ} (A : Type ℓ) : Type ℓ where
  ok : A → Parsed A
  err : ParseError → Parsed A

pub record Platform : Type 0 where
  pub memchr : ℕ → Bytes → Option ℕ
  pub max_capacity : ℕ

-- The first place of a byte, by looking at one after the other.
unfoldable pub position : ℕ → Bytes → Option ℕ
position b [] = none
position b (c ∷ s) = if c == b then some 0 else Option.map suc (position b s)

-- `memchr(needle, haystack)` is documented to return the index of the first occurrence, if any.
pub record IsMemchr (platform : Platform) : Type 0 where
  pub finds_first : (b : ℕ) (s : Bytes) → platform.memchr b s ≡ position b s

abbrev pub new : Parser
new = record { state = start; buf = []; stack = [] }

unfoldable pub set_error : Parser → ParseError → Parser
set_error p e = record p { state = error e }

unfoldable pub is_empty : Parser → Bool
is_empty p = elim p.buf [ [] ↦ true | b ∷ s ↦ false ]

-- `self.buf.extend_from_slice(input)`
unfoldable pub extend : Parser → Bytes → Parser
extend p input = record p { buf = p.buf ++ input }

-- `self.buf.drain(..n)`; what was drained is `take n p.buf`.
unfoldable pub drain : ℕ → Parser → Parser
drain n p = record p { buf = drop n p.buf }

unfoldable pub goto : State → Parser → Parser
goto s p = record p { state = s }

-- `w == b"\r\n"` at the window in front.
unfoldable pub at_crlf : Bytes → Bool
at_crlf (a ∷ b ∷ _) = a == b'\r' && b == b'\n'
at_crlf _ = false

-- `windows(2).position(|w| w == b"\r\n")`
unfoldable pub find_crlf : Bytes → Option ℕ
unfolding at_crlf
find_crlf [] = none
find_crlf (a ∷ s) = if at_crlf (a ∷ s) then some 0 else Option.map suc (find_crlf s)

-- `read_length`: the line is drained only if it holds a number.
unfoldable pub read_number_line : Parser → ℕ → Parsed (Option ℤ) × Parser
unfolding drain
read_number_line p at =
    let slice = take at p.buf in
    if not (is_utf8 slice) then (err invalid_length, p) else elim (parse_i64 slice) [
      | none ↦ (err invalid_length, p)
      | some value ↦ (ok (some value), drain (at + 2) p)
    ]

unfoldable pub read_length : Parser → Parsed (Option ℤ) × Parser
unfolding read_number_line
read_length p = elim (find_crlf p.buf) [ none ↦ (ok none, p) | some at ↦ read_number_line p at ]
