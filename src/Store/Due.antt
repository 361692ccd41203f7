-- ===== src/Store/Due.antt =====
-- The order of the expiration heap, and which entries a sweep takes from it.
use redlike.Prelude.{
  ℕ, ◌≤◌, ◌<◌, ◌≡◌, ◌⊎◌, inl, inr, refl, ap, subst, suc, leb→le, List, [], ◌∷◌, arith, leb,
  bytes_eq, bytes_eq_iff, All, Bool-cases,
}
use redlike.Store.Expirations.{ExpirationEntry, ExpirationHeap, entry_le, push}
use redlike.Store.{Key, take_due, insert_candidate}

-- Membership, as a predicate that computes.
abbrev pub Has : {A : Type 0} → A → List A → Type 0
Has a [] = ⊥
Has a (x ∷ xs) = (x ≡ a) ⊎ Has a xs

pub Has-All : {A : Type 0} (P : A → Type 0) (x : A) (xs : List A) → All P xs → Has x xs → P x
Has-All P x [] a h = absurd h
Has-All P x (y ∷ xs) (p, a) (inl e) = subst P e p
Has-All P x (y ∷ xs) (p, a) (inr h) = Has-All P x xs a h

-- The earliest entry comes first.
abbrev pub IsAscending : ExpirationHeap → Type 0
IsAscending [] = Unit
IsAscending (e ∷ heap) = All (λ x. e.0 ≤ x.0) heap × IsAscending heap

pub All-push :
    (n : ℕ) (e : ExpirationEntry) (heap : ExpirationHeap)
    → n ≤ e.0
    → All (λ x. n ≤ x.0) heap
    → All (λ x. n ≤ x.0) (push e heap)
unfolding push
All-push n e [] h a = (h, tt)
All-push n e (x ∷ heap) h (hx, a) = ground (arith, All-push n e heap h a)

pub All-le :
    (m n : ℕ) (heap : ExpirationHeap) → m ≤ n → All (λ x. n ≤ x.0) heap → All (λ x. m ≤ x.0) heap
All-le m n [] h a = tt
All-le m n (x ∷ heap) h (hx, a) = (omega arith, All-le m n heap h a)

pub push-IsAscending :
    (e : ExpirationEntry) (heap : ExpirationHeap) → IsAscending heap → IsAscending (push e heap)
unfolding push entry_le
push-IsAscending e [] h = (tt, tt)
push-IsAscending (t, k) ((u, j) ∷ heap) (first, h) = elim (Bool-cases (entry_le (t, k) (u, j))) [
  | inl e ↦ ground (arith, All-le t u heap)
  | inr e ↦ ground (arith, All-push u (t, k) heap, push-IsAscending (t, k) heap h)
]

pub Has-push : (x e : ExpirationEntry) (heap : ExpirationHeap) → Has x heap → Has x (push e heap)
unfolding push
Has-push x e [] h = absurd h
Has-push x e (y ∷ heap) (inl p) = elim (Bool-cases (entry_le e y)) [
  | inl b ↦ rw b (inr (inl p))
  | inr b ↦ rw b (inl p)
]
Has-push x e (y ∷ heap) (inr p) = elim (Bool-cases (entry_le e y)) [
  | inl b ↦ rw b (inr (inr p))
  | inr b ↦ rw b (inr (Has-push x e heap p))
]

pub Has-push_self : (e : ExpirationEntry) (heap : ExpirationHeap) → Has e (push e heap)
unfolding push
Has-push_self e [] = inl refl
Has-push_self e (y ∷ heap) = elim (Bool-cases (entry_le e y)) [
  | inl b ↦ rw b (inl refl)
  | inr b ↦ rw b (inr (Has-push_self e heap))
]

Has-insert : (k j : Key) (ks : List Key) → Has k ks → Has k (insert_candidate j ks)
unfolding insert_candidate
Has-insert k j [] h = absurd h
Has-insert k j (i ∷ ks) (inl p) = elim (Bool-cases (bytes_eq i j)) [
  | inl b ↦ rw b (inl p)
  | inr b ↦ rw b (inl p)
]
Has-insert k j (i ∷ ks) (inr p) = elim (Bool-cases (bytes_eq i j)) [
  | inl b ↦ rw b (inr p)
  | inr b ↦ rw b (inr (Has-insert k j ks p))
]

Has-insert_self : (k : Key) (ks : List Key) → Has k (insert_candidate k ks)
unfolding insert_candidate
Has-insert_self k [] = inl refl
Has-insert_self k (i ∷ ks) = elim (Bool-cases (bytes_eq i k)) [
  | inl b ↦ rw b (inl ((bytes_eq_iff i k).0 b))
  | inr b ↦ rw b (inr (Has-insert_self k ks))
]

module _ (now : ℕ) where
  -- A candidate stays one.
  pub take_due-keeps :
      (k : Key) (heap : ExpirationHeap) (ks : List Key) → Has k ks → Has k (take_due heap now ks).0
  unfolding take_due
  take_due-keeps k [] ks h = h
  take_due-keeps k ((t, j) ∷ heap) ks h = elim (Bool-cases (leb t now)) [
    | inl b ↦ rw b (take_due-keeps k heap (insert_candidate j ks) (Has-insert k j ks h))
    | inr b ↦ rw b h
  ]

  -- An entry of the heap stays in it, or was due and its key becomes a candidate.
  pub take_due-Has :
      (t : ℕ) (k : Key) (heap : ExpirationHeap) (ks : List Key)
      → Has (t, k) heap
      → Has (t, k) (take_due heap now ks).1 ⊎ (Has k (take_due heap now ks).0 × (t ≤ now))
  unfolding take_due
  take_due-Has t k [] ks h = absurd h
  take_due-Has t k ((u, j) ∷ heap) ks (inl p) = elim (Bool-cases (leb u now)) [
    | inl b ↦ rw b (
        inr (
          take_due-keeps k heap (insert_candidate j ks)
              (subst (λ i. Has i (insert_candidate j ks)) (ap (λ e. e.1) p) (Has-insert_self j ks)),
          rw (← ap (λ e. e.0) p) (leb→le u now b),
        ))
    | inr b ↦ rw b (inl (inl p))
  ]
  take_due-Has t k ((u, j) ∷ heap) ks (inr p) = elim (Bool-cases (leb u now)) [
    | inl b ↦ rw b (take_due-Has t k heap (insert_candidate j ks) p)
    | inr b ↦ rw b (inl (inr p))
  ]

  pub take_due-IsAscending :
      (heap : ExpirationHeap) (ks : List Key)
      → IsAscending heap
      → IsAscending (take_due heap now ks).1
  unfolding take_due
  take_due-IsAscending [] ks h = tt
  take_due-IsAscending ((t, j) ∷ heap) ks (first, h) = elim (Bool-cases (leb t now)) [
    | inl b ↦ rw b (take_due-IsAscending heap (insert_candidate j ks) h)
    | inr b ↦ rw b (first, h)
  ]

  -- What a sweep leaves in the heap is due later.
  pub take_due-later :
      (heap : ExpirationHeap) (ks : List Key)
      → IsAscending heap
      → All (λ x. now < x.0) (take_due heap now ks).1
  unfolding take_due
  take_due-later [] ks h = tt
  take_due-later ((t, j) ∷ heap) ks (first, h) = elim (Bool-cases (leb t now)) [
    | inl b ↦ rw b (take_due-later heap (insert_candidate j ks) h)
    | inr b ↦ rw b (ground arith, All-le (suc now) t heap (ground arith) first)
  ]
