-- ===== src/Store/Expirations.antt =====
-- The standard library's `BinaryHeap<Reverse<(Instant, Key)>>`: the pairs in ascending order. Pairs that
-- the order does not tell apart are equal, so what `peek` and `pop` return is determined.
use redlike.Prelude.{
  ℕ, Bool, true, false, ◌&&◌, ◌||◌, List, [], ◌∷◌, ltb, ◌==◌, if◌then◌else◌, Bytes,
}

abbrev pub ExpirationEntry : Type 0
ExpirationEntry = ℕ × Bytes

abbrev pub ExpirationHeap : Type 0
ExpirationHeap = List ExpirationEntry

-- The lexicographic order of `Vec<u8>`.
unfoldable pub bytes_le : Bytes → Bytes → Bool
bytes_le [] t = true
bytes_le (a ∷ s) [] = false
bytes_le (a ∷ s) (b ∷ t) = ltb a b || (a == b && bytes_le s t)

unfoldable pub entry_le : ExpirationEntry → ExpirationEntry → Bool
unfolding bytes_le
entry_le (t, k) (u, j) = ltb t u || (t == u && bytes_le k j)

unfoldable pub push : ExpirationEntry → ExpirationHeap → ExpirationHeap
push e [] = e ∷ []
push e (x ∷ heap) = if entry_le e x then e ∷ x ∷ heap else x ∷ push e heap
