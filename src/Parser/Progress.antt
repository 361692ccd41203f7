-- ===== src/Parser/Progress.antt =====
-- Each turn of the parser takes bytes or waits: the measure by which its loops end.
use redlike.Prelude.{
  ℕ, zero, suc, ◌+◌, ◌≤◌, ◌<◌, ◌≡◌, refl, Option, none, some, List, [], ◌∷◌, arith, length,
  length-drop, drop, Bytes, Option-cases, inl, inr, ℤ, pos, negsuc,
}
use redlike.Parser.{
  State, Parser, Parsed, ok, err, Platform, IsMemchr, start, reading_simple_string,
  reading_simple_error, reading_bulk_length, reading_bulk_string, reading_integer, reading_inline,
  reading_array_length, error, read_length, find_crlf,
}
use redlike.Parser.Turn.{
  Turn, again, found, pending, failed, panicked, start_turn, simple_string_turn, simple_error_turn,
  words_turn, inline_turn, bulk_length, bulk_length_turn, bulk_string_turn, integer_turn,
  integer_value, after_length, array_length, array_length_turn, turn, advance,
}
use redlike.Parser.Run.{measure}
use redlike.Parser.Lines.{find_crlf-bound, position-bound}

-- A turn that goes on or finds a frame lowers the measure; one that waits changes nothing.
abbrev pub Progress : Parser → Turn → Type 0
Progress p (again p') = measure p' < measure p
Progress p (found f p') = measure p' < measure p
Progress p (pending p') = p' ≡ p
Progress p (failed e p') = Unit
Progress p panicked = Unit

start_turn-Progress : (p : Parser) → p.state ≡ start → Progress p (start_turn p)
unfolding start_turn
start_turn-Progress p h = ground (arith, length-drop 1 p.buf)

simple_string_turn-Progress : (p : Parser) → Progress p (simple_string_turn p)
unfolding simple_string_turn
simple_string_turn-Progress p = elim (Option-cases (find_crlf p.buf)) [
  | inl e ↦ ground arith
  | inr (i, e) ↦
      ground (arith, find_crlf-bound p.buf i e, length-drop i p.buf, length-drop 2 (drop i p.buf))
]

simple_error_turn-Progress : (p : Parser) → Progress p (simple_error_turn p)
unfolding simple_error_turn
simple_error_turn-Progress p = elim (Option-cases (find_crlf p.buf)) [
  | inl e ↦ ground arith
  | inr (i, e) ↦
      ground (arith, find_crlf-bound p.buf i e, length-drop i p.buf, length-drop 2 (drop i p.buf))
]

-- `read_length` takes at least the line's end, or changes nothing.
abbrev LengthProgress : Parser → Parsed (Option ℤ) × Parser → Type 0
LengthProgress p (ok (some z), p') = length p'.buf + 2 ≤ length p.buf
LengthProgress p (ok none, p') = p' ≡ p
LengthProgress p (err e, p') = Unit

read_length-Progress : (p : Parser) → LengthProgress p (read_length p)
unfolding read_length
read_length-Progress p = elim (Option-cases (find_crlf p.buf)) [
  | inl e ↦ ground arith
  | inr (i, e) ↦ ground (arith, find_crlf-bound p.buf i e, length-drop (i + 2) p.buf)
]

bulk_length-Progress :
    (z : ℤ) (p q : Parser) → length q.buf + 2 ≤ length p.buf → Progress p (bulk_length z q)
unfolding bulk_length
bulk_length-Progress (negsuc zero) p q h = ground arith
bulk_length-Progress (negsuc (suc n)) p q h = tt
bulk_length-Progress (pos n) p q h = ground arith

array_length-Progress :
    (platform : Platform) (z : ℤ) (p q : Parser)
    → length q.buf + 2 ≤ length p.buf
    → Progress p (array_length platform z q)
unfolding array_length
array_length-Progress platform (negsuc zero) p q h = ground arith
array_length-Progress platform (negsuc (suc n)) p q h = tt
array_length-Progress platform (pos zero) p q h = ground arith
array_length-Progress platform (pos (suc n)) p q h = ground arith

integer_value-Progress :
    (z : ℤ) (p q : Parser) → length q.buf + 2 ≤ length p.buf → Progress p (integer_value z q)
unfolding integer_value
integer_value-Progress z p q h = ground arith

after_length-Progress :
    (rest : ℤ → Parser → Turn) (p : Parser) (r : Parsed (Option ℤ) × Parser)
    → LengthProgress p r
    → ((z : ℤ) (q : Parser) → length q.buf + 2 ≤ length p.buf → Progress p (rest z q))
    → Progress p (after_length rest r)
unfolding after_length
after_length-Progress rest p (ok (some z), q) h step = step z q h
after_length-Progress rest p (ok none, q) h step = h
after_length-Progress rest p (err e, q) h step = tt

words_turn-Progress :
    (words : List Bytes) (p q : Parser) → measure q < measure p → Progress p (words_turn words q)
unfolding words_turn
words_turn-Progress [] p q h = h
words_turn-Progress (w ∷ ws) p q h = h

bulk_string_turn-Progress : (len : ℕ) (p : Parser) → Progress p (bulk_string_turn len p)
unfolding bulk_string_turn
bulk_string_turn-Progress len p =
    ground (arith, length-drop len p.buf, length-drop 2 (drop len p.buf))

module _ (platform : Platform) (law : IsMemchr platform) where
  inline_turn-Progress :
      (p : Parser) → p.state ≡ reading_inline → Progress p (inline_turn platform p)
  unfolding inline_turn
  inline_turn-Progress p h = elim (Option-cases (platform.memchr b'\n' p.buf)) [
    | inl e ↦ ground arith
    | inr (i, e) ↦ ground (
      arith,
      position-bound b'\n' p.buf i,
      law.finds_first b'\n' p.buf,
      length-drop i p.buf,
      length-drop 1 (drop i p.buf),
    )
  ]

  turn-Progress : (s : State) (p : Parser) → p.state ≡ s → Progress p (turn platform s p)
  unfolding turn bulk_length_turn integer_turn array_length_turn
  turn-Progress start p h = start_turn-Progress p h
  turn-Progress reading_simple_string p h = simple_string_turn-Progress p
  turn-Progress reading_simple_error p h = simple_error_turn-Progress p
  turn-Progress reading_bulk_length p h =
      after_length-Progress bulk_length p (read_length p) (read_length-Progress p)
        (λ z q. bulk_length-Progress z p q)
  turn-Progress (reading_bulk_string len) p h = bulk_string_turn-Progress len p
  turn-Progress reading_integer p h =
      after_length-Progress integer_value p (read_length p) (read_length-Progress p)
        (λ z q. integer_value-Progress z p q)
  turn-Progress reading_inline p h = inline_turn-Progress p h
  turn-Progress reading_array_length p h =
      after_length-Progress (array_length platform) p (read_length p) (read_length-Progress p)
        (λ z q. array_length-Progress platform z p q)
  turn-Progress (error e) p h = tt

  pub advance-Progress : (p : Parser) → Progress p (advance platform p)
  unfolding advance
  advance-Progress p = turn-Progress p.state p refl
