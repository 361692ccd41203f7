-- ===== src/Parser/Lines.antt =====
-- Where a line ends: facts about `find_crlf` and about the first place of a byte.
use redlike.Prelude.{
  ℕ, ◌+◌, ◌≤◌, ◌<◌, ◌≡◌, refl, none, some, [], ◌∷◌, ◌++◌, arith, length, Bytes, All, Option-cases,
  inl, inr,
}
use redlike.Frame.{crlf}
use redlike.Text.Decimal.RoundTrip.{IsPlain}
use redlike.Parser.{find_crlf, position}

-- A line's end lies inside the buffer.
pub find_crlf-bound : (s : Bytes) (i : ℕ) → find_crlf s ≡ some i → i + 2 ≤ length s
unfolding find_crlf
find_crlf-bound [] i h = cc
find_crlf-bound (a ∷ []) i h = ground arith
find_crlf-bound (a ∷ b ∷ s) i h = elim (Option-cases (find_crlf (b ∷ s))) [
  | inl e ↦ ground arith
  | inr (k, e) ↦ ground (arith, find_crlf-bound (b ∷ s) k e)
]

-- A line's end stays where it is when more bytes arrive.
pub find_crlf-append : (s t : Bytes) (i : ℕ) → find_crlf s ≡ some i → find_crlf (s ++ t) ≡ some i
unfolding find_crlf
find_crlf-append [] t i h = cc
find_crlf-append (a ∷ []) t i h = ground arith
find_crlf-append (a ∷ b ∷ s) t i h = elim (Option-cases (find_crlf (b ∷ s))) [
  | inl e ↦ ground arith
  | inr (k, e) ↦ ground (arith, find_crlf-append (b ∷ s) t k e)
]

-- A text without a line's end is found whole before the line's end that follows it.
pub find_crlf-line :
    (s rest : Bytes) → find_crlf s ≡ none → find_crlf (s ++ (crlf ++ rest)) ≡ some (length s)
unfolding find_crlf
find_crlf-line [] rest h = refl
find_crlf-line (a ∷ []) rest h = ground arith
find_crlf-line (a ∷ b ∷ s) rest h = ground (arith, find_crlf-line (b ∷ s) rest)

pub find_crlf-plain : (s : Bytes) → All IsPlain s → find_crlf s ≡ none
unfolding find_crlf
find_crlf-plain [] h = refl
find_crlf-plain (a ∷ []) h = ground arith
find_crlf-plain (a ∷ b ∷ s) (ha, hs) = ground (arith, find_crlf-plain (b ∷ s) hs)

pub position-bound : (b : ℕ) (s : Bytes) (i : ℕ) → position b s ≡ some i → i < length s
unfolding position
position-bound b [] i h = cc
position-bound b (c ∷ s) i h = elim (Option-cases (position b s)) [
  | inl e ↦ ground arith
  | inr (k, e) ↦ ground (arith, position-bound b s k e)
]

pub position-append :
    (b : ℕ) (s t : Bytes) (i : ℕ) → position b s ≡ some i → position b (s ++ t) ≡ some i
unfolding position
position-append b [] t i h = cc
position-append b (c ∷ s) t i h = elim (Option-cases (position b s)) [
  | inl e ↦ ground arith
  | inr (k, e) ↦ ground (arith, position-append b s t k e)
]
