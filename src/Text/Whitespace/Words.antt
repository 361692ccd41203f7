-- ===== src/Text/Whitespace/Words.antt =====
-- What `split_whitespace` makes of words of visible characters with blanks between them.
use redlike.Prelude.{
  ℕ, ◌<◌, ◌≡◌, ◌≢◌, ◌⊎◌, refl, sym, ap, ◌∙◌, List, [], ◌∷◌, ◌++◌, map, append_assoc, append-nil,
  arith, All, All-append, Bytes,
}
use redlike.Text.Whitespace.{space_width, close_word, split, split_whitespace}

-- From `!` to `~`.
abbrev pub IsVisible : ℕ → Type 0
IsVisible b = (0x20 < b) × (b < 0x7f)

-- A space, a tab, or a carriage return.
abbrev pub IsBlank : ℕ → Type 0
IsBlank b = (b ≡ 0x20) ⊎ (b ≡ 0x09) ⊎ (b ≡ 0x0d)

abbrev pub IsWord : Bytes → Type 0
IsWord w = (w ≢ []) × All IsVisible w

abbrev pub IsGap : Bytes → Type 0
IsGap g = (g ≢ []) × All IsBlank g

space_width-visible : (b : ℕ) (s : Bytes) → IsVisible b → space_width (b ∷ s) ≡ 0
unfolding space_width
space_width-visible b [] h = ground arith
space_width-visible b (c ∷ []) h = ground arith
space_width-visible b (c ∷ d ∷ s) h = ground arith

space_width-blank : (b : ℕ) (s : Bytes) → IsBlank b → space_width (b ∷ s) ≡ 1
unfolding space_width
space_width-blank b [] h = ground arith
space_width-blank b (c ∷ []) h = ground arith
space_width-blank b (c ∷ d ∷ s) h = ground arith

split-word : (word w s : Bytes) → All IsVisible w → split 0 word (w ++ s) ≡ split 0 (word ++ w) s
unfolding split
split-word word [] s h = ap (λ x. split 0 x s) (sym (append-nil word))
split-word word (b ∷ w) s (hb, hs) =
    rw (space_width-visible b (w ++ s) hb, split)
      (split-word (word ++ b ∷ []) w s hs ∙ ap (λ x. split 0 x s) (append_assoc word (b ∷ []) w))

-- Blanks end the word, if there is one, and are passed over.
split-blanks :
    (word : Bytes) (b : ℕ) (g s : Bytes)
    → IsBlank b
    → All IsBlank g
    → split 0 word (b ∷ (g ++ s)) ≡ close_word word (split 0 [] s)
unfolding split
split-blanks word b [] s hb h = rw (space_width-blank b s hb, split) refl
split-blanks word b (c ∷ g) s hb (hc, h) =
    rw (space_width-blank b (c ∷ (g ++ s)) hb, split)
      (ap (close_word word) (split-blanks [] c g s hc h))

-- Words, each with the blanks behind it; then the last word, and blanks, if any.
abbrev pub spaced : List (Bytes × Bytes) → Bytes → Bytes → Bytes
spaced [] last end = last ++ end
spaced ((w, g) ∷ pieces) last end = w ++ (g ++ spaced pieces last end)

abbrev pub AreSpaced : List (Bytes × Bytes) → Type 0
AreSpaced pieces = All (λ x. IsWord x.0 × IsGap x.1) pieces

abbrev pub words_of : List (Bytes × Bytes) → Bytes → List Bytes
words_of pieces last = map (λ x. x.0) pieces ++ last ∷ []

close_word-word : (w : Bytes) (ws : List Bytes) → w ≢ [] → close_word w ws ≡ w ∷ ws
unfolding close_word
close_word-word [] ws h = absurd (h refl)
close_word-word (b ∷ w) ws h = refl

split-gap : (w g s : Bytes) → IsWord w → IsGap g → split 0 [] (w ++ (g ++ s)) ≡ w ∷ split 0 [] s
split-gap w [] s hw hg = absurd (hg.0 refl)
split-gap w (b ∷ g) s hw (ne, (hb, hs)) =
    split-word [] w (b ∷ (g ++ s)) hw.1
    ∙ split-blanks w b g s hb hs
    ∙ close_word-word w (split 0 [] s) hw.0

split-last : (w end : Bytes) → IsWord w → All IsBlank end → split 0 [] (w ++ end) ≡ w ∷ []
unfolding split
split-last w [] h he = split-word [] w [] h.1 ∙ close_word-word w [] h.0
split-last w (b ∷ g) h (hb, hs) =
    split-word [] w (b ∷ g) h.1
    ∙ ap (λ x. split 0 w (b ∷ x)) (sym (append-nil g))
    ∙ split-blanks w b g [] hb hs
    ∙ close_word-word w [] h.0

-- The words come out as they went in.
pub split_whitespace-spaced :
    (pieces : List (Bytes × Bytes)) (last end : Bytes)
    → AreSpaced pieces
    → IsWord last
    → All IsBlank end
    → split_whitespace (spaced pieces last end) ≡ words_of pieces last
unfolding split_whitespace
split_whitespace-spaced [] last end h hl he = split-last last end hl he
split_whitespace-spaced ((w, g) ∷ pieces) last end ((hw, hg), h) hl he =
    split-gap w g (spaced pieces last end) hw hg
    ∙ ap (λ ws. w ∷ ws) (unfold split_whitespace in split_whitespace-spaced pieces last end h hl he)

-- None of it is a byte beyond ASCII, or ends a line.
abbrev pub IsInner : ℕ → Type 0
IsInner b = (b < 0x80) × (b ≢ b'\n')

word-IsInner : (w : Bytes) → All IsVisible w → All IsInner w
word-IsInner [] h = tt
word-IsInner (b ∷ w) (hb, h) = ((omega arith, λ e. absurd (omega arith)), word-IsInner w h)

gap-IsInner : (g : Bytes) → All IsBlank g → All IsInner g
gap-IsInner [] h = tt
gap-IsInner (b ∷ g) (hb, h) = ((ground arith, λ e. absurd (ground arith)), gap-IsInner g h)

pub spaced-IsInner :
    (pieces : List (Bytes × Bytes)) (last end : Bytes)
    → AreSpaced pieces
    → IsWord last
    → All IsBlank end
    → All IsInner (spaced pieces last end)
spaced-IsInner [] last end h hl he =
    All-append IsInner last end (word-IsInner last hl.1) (gap-IsInner end he)
spaced-IsInner ((w, g) ∷ pieces) last end ((hw, hg), h) hl he =
    All-append IsInner w (g ++ spaced pieces last end) (word-IsInner w hw.1) (
      All-append IsInner g (spaced pieces last end) (gap-IsInner g hg.1)
        (spaced-IsInner pieces last end h hl he))
