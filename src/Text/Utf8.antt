-- ===== src/Text/Utf8.antt =====
-- `String::from_utf8` and `str::from_utf8`: the byte strings that are valid UTF-8 (Unicode, table 3-7).
-- A Rust `String` is modelled by its bytes.
use redlike.Prelude.{
  ℕ, ◌<◌, ◌≡◌, refl, Bool, true, false, ◌&&◌, [], ◌∷◌, ◌++◌, arith, ltb, leb, ◌==◌, if◌then◌else◌,
  Bytes, All,
}

-- Where the validator stands in a character: at its start, or before so many continuation bytes,
-- the next of which may have a narrower range.
pub data Position : Type 0 where
  start one_left two_left three_left after_e0 after_ed after_f0 after_f4 invalid : Position

within : ℕ → ℕ → ℕ → Bool
within lo hi b = leb lo b && leb b hi

lead : ℕ → Position
unfolding within
lead b =
    if ltb b 0x80
    then start
    else if within 0xc2 0xdf b
    then one_left
    else if b == 0xe0
    then after_e0
    else if b == 0xed
    then after_ed
    else if within 0xe1 0xef b
    then two_left
    else if b == 0xf0
    then after_f0
    else if within 0xf1 0xf3 b
    then three_left
    else if b == 0xf4
    then after_f4
    else invalid

next : Position → ℕ → Position
unfolding lead
next start b = lead b
next one_left b = if within 0x80 0xbf b then start else invalid
next two_left b = if within 0x80 0xbf b then one_left else invalid
next three_left b = if within 0x80 0xbf b then two_left else invalid
next after_e0 b = if within 0xa0 0xbf b then one_left else invalid
next after_ed b = if within 0x80 0x9f b then one_left else invalid
next after_f0 b = if within 0x90 0xbf b then two_left else invalid
next after_f4 b = if within 0x80 0x8f b then two_left else invalid
next invalid b = invalid

scan : Position → Bytes → Position
unfolding next
scan p [] = p
scan p (b ∷ s) = scan (next p b) s

at_start : Position → Bool
at_start start = true
at_start _ = false

unfoldable pub is_utf8 : Bytes → Bool
unfolding scan at_start
is_utf8 s = at_start (scan start s)

-- ASCII text is valid.
pub is_utf8-ascii : (s : Bytes) → All (λ b. b < 0x80) s → is_utf8 s ≡ true
unfolding is_utf8
is_utf8-ascii [] h = refl
is_utf8-ascii (b ∷ s) (hb, hs) = ground (arith, is_utf8-ascii s hs)

scan-append : (p : Position) (s t : Bytes) → scan p (s ++ t) ≡ scan (scan p s) t
unfolding scan
scan-append p [] t = refl
scan-append p (b ∷ s) t = scan-append (next p b) s t

-- The euro sign, and an overlong encoding of `/`.
euro : (is_utf8 (0xe2 ∷ 0x82 ∷ 0xac ∷ []) ≡ true) × (is_utf8 (0xc0 ∷ 0xaf ∷ []) ≡ false)
unfolding is_utf8
euro = (refl, refl)
