-- ===== src/Parser/Extension.antt =====
-- Bytes that arrive later do not change what a turn of the parser does with those that are there.
use redlike.Prelude.{
  ℕ, zero, suc, ◌+◌, ◌≡◌, refl, Option, none, some, ◌++◌, arith, ltb, length, length-drop,
  length-append, drop, Bytes, Bool-cases, Option-cases, inl, inr, ℤ, pos, negsuc, take-append_le,
  drop-append_le, get_elem?-append_lt,
}
use redlike.Parser.{
  State, Parser, Parsed, ok, err, Platform, IsMemchr, start, reading_simple_string,
  reading_simple_error, reading_bulk_length, reading_bulk_string, reading_integer, reading_inline,
  reading_array_length, error, read_length, find_crlf, extend,
}
use redlike.Parser.Turn.{
  Turn, again, found, pending, failed, panicked, start_turn, simple_string_turn, simple_error_turn,
  inline_turn, bulk_length, bulk_length_turn, bulk_string_turn, integer_turn, integer_value,
  after_length, array_length, array_length_turn, turn, advance,
}
use redlike.Parser.Lines.{find_crlf-bound, find_crlf-append, position-bound, position-append}

-- What a turn decided it decides again, and leaves the later bytes in the buffer; it may have been waiting.
abbrev pub Extends : Bytes → Turn → Turn → Type 0
Extends t (again p) later = later ≡ again (extend p t)
Extends t (found f p) later = later ≡ found f (extend p t)
Extends t (pending p) later = Unit
Extends t (failed e p) later = later ≡ failed e (extend p t)
Extends t panicked later = later ≡ panicked

abbrev LengthExtends : Bytes → Parsed (Option ℤ) × Parser → Parsed (Option ℤ) × Parser → Type 0
LengthExtends t (ok (some z), p) later = later ≡ (ok (some z), extend p t)
LengthExtends t (ok none, p) later = Unit
LengthExtends t (err e, p) later = later ≡ (err e, extend p t)

module _ (t : Bytes) where
  start_turn-Extends : (p : Parser) → Extends t (start_turn p) (start_turn (extend p t))
  unfolding start_turn extend
  start_turn-Extends p = ground arith

  simple_string_turn-Extends :
      (p : Parser) → Extends t (simple_string_turn p) (simple_string_turn (extend p t))
  unfolding simple_string_turn extend
  simple_string_turn-Extends p = elim (Option-cases (find_crlf p.buf)) [
    | inl e ↦ ground arith
    | inr (i, e) ↦ ground (
      arith,
      find_crlf-bound p.buf i e,
      find_crlf-append p.buf t i e,
      take-append_le i p.buf t,
      drop-append_le i p.buf t,
      drop-append_le 2 (drop i p.buf) t,
      length-drop i p.buf,
    )
  ]

  simple_error_turn-Extends :
      (p : Parser) → Extends t (simple_error_turn p) (simple_error_turn (extend p t))
  unfolding simple_error_turn extend
  simple_error_turn-Extends p = elim (Option-cases (find_crlf p.buf)) [
    | inl e ↦ ground arith
    | inr (i, e) ↦ ground (
      arith,
      find_crlf-bound p.buf i e,
      find_crlf-append p.buf t i e,
      take-append_le i p.buf t,
      drop-append_le i p.buf t,
      drop-append_le 2 (drop i p.buf) t,
      length-drop i p.buf,
    )
  ]

  read_length-Extends : (p : Parser) → LengthExtends t (read_length p) (read_length (extend p t))
  unfolding read_length extend
  read_length-Extends p = elim (Option-cases (find_crlf p.buf)) [
    | inl e ↦ ground arith
    | inr (i, e) ↦ ground (
      arith,
      find_crlf-bound p.buf i e,
      find_crlf-append p.buf t i e,
      take-append_le i p.buf t,
      drop-append_le (i + 2) p.buf t,
    )
  ]

  after_length-Extends :
      (rest : ℤ → Parser → Turn)
      → ((z : ℤ) (q : Parser) → Extends t (rest z q) (rest z (extend q t)))
      → (r r' : Parsed (Option ℤ) × Parser) → LengthExtends t r r'
      → Extends t (after_length rest r) (after_length rest r')
  unfolding after_length
  after_length-Extends rest step (ok (some z), q) r' h = rw h (step z q)
  after_length-Extends rest step (ok none, q) r' h = tt
  after_length-Extends rest step (err e, q) r' h = rw h refl

  bulk_length-Extends :
      (z : ℤ) (q : Parser) → Extends t (bulk_length z q) (bulk_length z (extend q t))
  unfolding bulk_length extend
  bulk_length-Extends (negsuc zero) q = refl
  bulk_length-Extends (negsuc (suc n)) q = refl
  bulk_length-Extends (pos n) q = refl

  integer_value-Extends :
      (z : ℤ) (q : Parser) → Extends t (integer_value z q) (integer_value z (extend q t))
  unfolding integer_value extend
  integer_value-Extends z q = refl

  bulk_string_turn-Extends :
      (len : ℕ) (p : Parser)
      → Extends t (bulk_string_turn len p) (bulk_string_turn len (extend p t))
  unfolding bulk_string_turn extend
  bulk_string_turn-Extends len p = elim (Bool-cases (ltb (length p.buf) (len + 2))) [
    | inl e ↦ ground arith
    | inr e ↦ ground (
      arith,
      get_elem?-append_lt len p.buf t,
      get_elem?-append_lt (len + 1) p.buf t,
      take-append_le len p.buf t,
      length-append p.buf t,
      drop-append_le len p.buf t,
      drop-append_le 2 (drop len p.buf) t,
      length-drop len p.buf,
    )
  ]

module _ (platform : Platform) (law : IsMemchr platform) (t : Bytes) where
  array_length-Extends :
      (z : ℤ) (q : Parser)
      → Extends t (array_length platform z q) (array_length platform z (extend q t))
  unfolding array_length extend
  array_length-Extends (negsuc zero) q = refl
  array_length-Extends (negsuc (suc n)) q = refl
  array_length-Extends (pos zero) q = refl
  array_length-Extends (pos (suc n)) q = ground arith

  inline_turn-Extends :
      (p : Parser) → Extends t (inline_turn platform p) (inline_turn platform (extend p t))
  unfolding inline_turn extend
  inline_turn-Extends p = elim (Option-cases (platform.memchr b'\n' p.buf)) [
    | inl e ↦ ground arith
    | inr (i, e) ↦ ground (
      arith,
      law.finds_first b'\n' p.buf,
      law.finds_first b'\n' (p.buf ++ t),
      position-bound b'\n' p.buf i,
      position-append b'\n' p.buf t i,
      take-append_le i p.buf t,
      drop-append_le i p.buf t,
      drop-append_le 1 (drop i p.buf) t,
      length-drop i p.buf,
    )
  ]

  turn-Extends :
      (s : State) (p : Parser) → Extends t (turn platform s p) (turn platform s (extend p t))
  unfolding turn bulk_length_turn integer_turn array_length_turn
  turn-Extends start p = start_turn-Extends t p
  turn-Extends reading_simple_string p = simple_string_turn-Extends t p
  turn-Extends reading_simple_error p = simple_error_turn-Extends t p
  turn-Extends reading_bulk_length p =
      after_length-Extends t bulk_length (bulk_length-Extends t) (read_length p)
        (read_length (extend p t)) (read_length-Extends t p)
  turn-Extends (reading_bulk_string len) p = bulk_string_turn-Extends t len p
  turn-Extends reading_integer p =
      after_length-Extends t integer_value (integer_value-Extends t) (read_length p)
        (read_length (extend p t)) (read_length-Extends t p)
  turn-Extends reading_inline p = inline_turn-Extends p
  turn-Extends reading_array_length p =
      after_length-Extends t (array_length platform) array_length-Extends (read_length p)
        (read_length (extend p t)) (read_length-Extends t p)
  turn-Extends (error e) p = refl

  pub advance-Extends :
      (p : Parser) → Extends t (advance platform p) (advance platform (extend p t))
  advance-Extends p = unfold advance extend in turn-Extends p.state p
