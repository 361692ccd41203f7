-- ===== src/Text/Whitespace.antt =====
-- `str::split_whitespace`: the maximal runs of characters without the property White_Space. On valid
-- UTF-8 such a character is found by its bytes, since no character's bytes occur inside another's.
pub mod Words
use redlike.Prelude.{
  ℕ, zero, suc, ◌≡◌, refl, Bool, ◌&&◌, ◌||◌, List, [], ◌∷◌, ◌++◌, leb, ◌==◌, if◌then◌else◌, Bytes,
  codes,
}

-- One byte: U+0009 to U+000D, and the space.
space1 : ℕ → Bool
space1 a = (leb 0x09 a && leb a 0x0d) || a == 0x20

-- Two bytes: U+0085 and U+00A0.
space2 : ℕ → ℕ → Bool
space2 a b = a == 0xc2 && (b == 0x85 || b == 0xa0)

-- Three bytes: U+1680, U+2000 to U+200A, U+2028, U+2029, U+202F, U+205F and U+3000.
space3 : ℕ → ℕ → ℕ → Bool
space3 a b c =
    (a == 0xe1 && b == 0x9a && c == 0x80)
    || (a == 0xe2
        && b == 0x80
        && ((leb 0x80 c && leb c 0x8a) || c == 0xa8 || c == 0xa9 || c == 0xaf))
    || (a == 0xe2 && b == 0x81 && c == 0x9f)
    || (a == 0xe3 && b == 0x80 && c == 0x80)

-- How many bytes the white space in front of the text takes; zero if none stands there.
space_width : Bytes → ℕ
unfolding space1 space2 space3
space_width [] = 0
space_width (a ∷ []) = if space1 a then 1 else 0
space_width (a ∷ b ∷ []) = if space1 a then 1 else if space2 a b then 2 else 0
space_width (a ∷ b ∷ c ∷ _) =
    if space1 a then 1 else if space2 a b then 2 else if space3 a b c then 3 else 0

-- A word that has at least one byte is put out.
close_word : Bytes → List Bytes → List Bytes
close_word [] words = words
close_word (b ∷ w) words = (b ∷ w) ∷ words

-- `skip` counts the bytes of white space still to pass over, `word` is the word being read.
split : ℕ → Bytes → Bytes → List Bytes
unfolding space_width close_word
split skip word [] = close_word word []
split (suc skip) word (_ ∷ s) = split skip word s
split zero word (b ∷ s) = elim (space_width (b ∷ s)) [
  | zero ↦ split zero (word ++ b ∷ []) s
  | suc more ↦ close_word word (split more [] s)
]

unfoldable pub split_whitespace : Bytes → List Bytes
unfolding split
split_whitespace s = split zero [] s

splits : split_whitespace (codes "  get   mykey ") ≡ codes "get" ∷ codes "mykey" ∷ []
unfolding split_whitespace
splits = refl
