-- ===== src/Text/Decimal/RoundTrip.antt =====
-- Printed numbers read back, and are made of digits.
use mathlib.Core.List.{cons-ne-nil}
use mathlib.Core.Option
use native.Mathlib.Numerals.{add-one}
use redlike.Prelude.{
  ◌*◌, length, ℕ, zero, suc, ◌+◌, ◌/◌, ◌%◌, ◌≤◌, ◌<◌, ◌≡◌, ◌≢◌, refl, ◌∙◌, some, [], ◌∷◌, arith,
  ltb, Bool-cases, inl, inr, Bytes, All, ℤ, pos, negsuc, IsI64, i64_max, u64_max,
}
use redlike.Text.Decimal.{
  digits, print_usize, print_i64, read_digits, read_number, negate, parse_i64, parse_u64,
}

abbrev pub IsDigit : ℕ → Type 0
IsDigit c = (b'0' ≤ c) × (c ≤ b'9')

digits-IsDigit : (f n : ℕ) (out : Bytes) → All IsDigit out → All IsDigit (digits f n out)
unfolding digits
digits-IsDigit zero n out h = h
digits-IsDigit (suc f) n out h = elim (Bool-cases (ltb n 10)) [
  | inl small ↦ ground arith
  | inr big ↦
      ground
        (arith, digits-IsDigit f (n / 10) ((b'0' + n % 10) ∷ out) ((omega arith, omega arith), h))
]

pub print_usize-IsDigit : (n : ℕ) → All IsDigit (print_usize n)
unfolding print_usize
print_usize-IsDigit n = digits-IsDigit (n + 1) n [] tt

-- Reading the digits of `n` from nothing is the same as going on behind `n`.
read_digits-digits :
    (limit f n : ℕ) (out : Bytes)
    → n < f
    → n ≤ limit
    → read_digits limit (digits f n out) 0 ≡ read_digits limit out n
unfolding read_digits digits
read_digits-digits limit zero n out h fits = absurd (omega arith)
read_digits-digits limit (suc f) n out h fits = elim (Bool-cases (ltb n 10)) [
  | inl small ↦ ground arith
  | inr big ↦ ground (arith, read_digits-digits limit f (n / 10) ((b'0' + n % 10) ∷ out))
]

digits-ne-nil : (f n : ℕ) (out : Bytes) → out ≢ [] → digits f n out ≢ []
unfolding digits
digits-ne-nil zero n out h = h
digits-ne-nil (suc f) n out h = elim (Bool-cases (ltb n 10)) [
  | inl small ↦ ground arith
  | inr big ↦ ground (arith, digits-ne-nil f (n / 10) ((b'0' + n % 10) ∷ out) (cons-ne-nil _ out))
]

read_number-digits : (limit : ℕ) (s : Bytes) → s ≢ [] → read_number limit s ≡ read_digits limit s 0
unfolding read_number
read_number-digits limit [] h = absurd (h refl)
read_number-digits limit (c ∷ s) h = refl

digits-suc-ne-nil : (f n : ℕ) → digits (suc f) n [] ≢ []
unfolding digits
digits-suc-ne-nil f n = elim (Bool-cases (ltb n 10)) [
  | inl small ↦ ground arith
  | inr big ↦ ground (arith, digits-ne-nil f (n / 10) ((b'0' + n % 10) ∷ []) (cons-ne-nil _ []))
]

pub print_usize-ne-nil : (n : ℕ) → print_usize n ≢ []
unfolding print_usize
print_usize-ne-nil n = rw add-one (digits-suc-ne-nil n n)

-- A count that fits is read back from its print.
pub read_number-print_usize : (limit n : ℕ) → n ≤ limit → read_number limit (print_usize n) ≡ some n
unfolding print_usize read_digits
read_number-print_usize limit n h =
    read_number-digits limit (print_usize n) (print_usize-ne-nil n)
    ∙ read_digits-digits limit (n + 1) n [] (omega arith) h

parse_i64-IsDigit :
    (s : Bytes) → All IsDigit s → s ≢ [] → parse_i64 s ≡ Option.map pos (read_number i64_max s)
unfolding parse_i64
parse_i64-IsDigit [] h ne = absurd (ne refl)
parse_i64-IsDigit (c ∷ s) h ne = ground arith

-- Every number of 64 bits is read back from its print.
pub parse_i64-print_i64 : (z : ℤ) → IsI64 z → parse_i64 (print_i64 z) ≡ some z
unfolding print_i64
parse_i64-print_i64 (pos n) h =
    rw (parse_i64-IsDigit (print_usize n) (print_usize-IsDigit n) (print_usize-ne-nil n))
      (rw (read_number-print_usize i64_max n h))
parse_i64-print_i64 (negsuc n) h =
    unfold parse_i64 negate in
    rw (read_number-print_usize (i64_max + 1) (n + 1) (omega arith)) (rw add-one)

-- A byte of ASCII that is no control character up to the carriage return.
abbrev pub IsPlain : ℕ → Type 0
IsPlain b = (b'\r' < b) × (b < 0x80)

IsDigit-IsPlain : (s : Bytes) → All IsDigit s → All IsPlain s
IsDigit-IsPlain [] h = tt
IsDigit-IsPlain (b ∷ s) (hb, hs) = ((omega arith, omega arith), IsDigit-IsPlain s hs)

pub print_usize-IsPlain : (n : ℕ) → All IsPlain (print_usize n)
print_usize-IsPlain n = IsDigit-IsPlain (print_usize n) (print_usize-IsDigit n)

pub print_i64-IsPlain : (z : ℤ) → All IsPlain (print_i64 z)
unfolding print_i64
print_i64-IsPlain (pos n) = print_usize-IsPlain n
print_i64-IsPlain (negsuc n) = ((omega arith, omega arith), print_usize-IsPlain (n + 1))

-- A count up to the largest `i64` is read back as that integer.
pub parse_i64-print_usize : (n : ℕ) → n ≤ i64_max → parse_i64 (print_usize n) ≡ some (pos n)
parse_i64-print_usize n h = unfold print_i64 in parse_i64-print_i64 (pos n) h

parse_u64-IsDigit : (s : Bytes) → All IsDigit s → s ≢ [] → parse_u64 s ≡ read_number u64_max s
unfolding parse_u64
parse_u64-IsDigit [] h ne = absurd (ne refl)
parse_u64-IsDigit (c ∷ s) h ne = ground arith

-- A count up to the largest `u64` is read back.
pub parse_u64-print_usize : (n : ℕ) → n ≤ u64_max → parse_u64 (print_usize n) ≡ some n
parse_u64-print_usize n h =
    parse_u64-IsDigit (print_usize n) (print_usize-IsDigit n) (print_usize-ne-nil n)
    ∙ read_number-print_usize u64_max n h

length-digits : (f n : ℕ) (out : Bytes) → 3 * length (digits f n out) ≤ n + 3 + 3 * length out
unfolding digits
length-digits zero n out = omega arith
length-digits (suc f) n out = elim (Bool-cases (ltb n 10)) [
  | inl small ↦ ground arith
  | inr big ↦ ground (arith, length-digits f (n / 10) ((b'0' + n % 10) ∷ out))
]

-- A number prints shorter than itself.
pub length-print_usize : (n : ℕ) → 3 * length (print_usize n) ≤ n + 3
unfolding print_usize
length-print_usize n = let h = length-digits (n + 1) n [] in omega arith
