-- ===== src/Text/Decimal.antt =====
-- `to_string` of `usize` and `i64`, and `str::parse` into `i64` and `u64`. What one prints, the other reads back.
pub mod RoundTrip
use redlike.Prelude.{
  ℕ, zero, suc, ◌+◌, ◌-◌, ◌*◌, ◌/◌, ◌%◌, ◌≡◌, refl, true, false, ◌&&◌, Option, none, some, [], ◌∷◌,
  leb, ltb, ◌==◌, if◌then◌else◌, Bytes, codes, ℤ, pos, negsuc, i64_max, u64_max,
}
use mathlib.Core.Option

-- The digits of `n`, put in front of `out`; a number has no more digits than its value plus one.
digits : ℕ → ℕ → Bytes → Bytes
digits zero n out = out
digits (suc f) n out = elim (ltb n 10) [
  | true ↦ (b'0' + n) ∷ out
  | false ↦ digits f (n / 10) ((b'0' + n % 10) ∷ out)
]

unfoldable pub print_usize : ℕ → Bytes
unfolding digits
print_usize n = digits (n + 1) n []

unfoldable pub print_i64 : ℤ → Bytes
unfolding print_usize
print_i64 (pos n) = print_usize n
print_i64 (negsuc n) = b'-' ∷ print_usize (n + 1)

-- Each digit is taken in with checked arithmetic: past the limit there is no result.
read_digits : ℕ → Bytes → ℕ → Option ℕ
read_digits limit [] n = some n
read_digits limit (c ∷ s) n =
    let d = c - b'0' in
    if leb b'0' c && leb c b'9' && leb (n * 10 + d) limit
    then read_digits limit s (n * 10 + d)
    else none

-- No digit at all is an error.
unfoldable pub read_number : ℕ → Bytes → Option ℕ
unfolding read_digits
read_number limit [] = none
read_number limit (c ∷ s) = read_digits limit (c ∷ s) 0

-- `-0` is zero.
unfoldable pub negate : ℕ → ℤ
negate zero = pos 0
negate (suc n) = negsuc n

unfoldable pub parse_i64 : Bytes → Option ℤ
unfolding read_number negate
parse_i64 [] = none
parse_i64 (c ∷ s) =
    if c == b'+'
    then Option.map pos (read_number i64_max s)
    else if c == b'-'
    then Option.map negate (read_number (i64_max + 1) s)
    else Option.map pos (read_number i64_max (c ∷ s))

-- A `u64` has no minus sign.
unfoldable pub parse_u64 : Bytes → Option ℕ
unfolding read_number
parse_u64 [] = none
parse_u64 (c ∷ s) = if c == b'+' then read_number u64_max s else read_number u64_max (c ∷ s)

prints : (print_i64 (pos 1203) ≡ codes "1203") × (print_i64 (negsuc 0) ≡ codes "-1")
unfolding print_i64
prints = (refl, refl)

reads :
    (parse_i64 (codes "-9223372036854775808") ≡ some (negsuc 9223372036854775807))
    × (parse_i64 (codes "9223372036854775808") ≡ none)
    × (parse_i64 (codes "+7") ≡ some (pos 7))
    × (parse_i64 (codes "-") ≡ none)
    × (parse_u64 (codes "-1") ≡ none)
unfolding parse_i64 parse_u64
reads = (refl, refl, refl, refl, refl)
