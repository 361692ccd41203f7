-- ===== src/Store/Map.antt =====
-- The standard library's `HashMap` with keys `Vec<u8>`: its entries, in the order of an iteration. That
-- order is not specified by the library, and no theorem depends on it.
use redlike.Prelude.{
  ◌≡◌, refl, Option, none, some, List, [], ◌∷◌, arith, if◌then◌else◌, Bytes, bytes_eq, bytes_eq_iff,
}

pub record HashMap {ℓ} (V : Type ℓ) : Type ℓ where
  pub entries : List (Bytes × V)

module _ {ℓ} {V : Type ℓ} where
  unfoldable pub lookup : Bytes → List (Bytes × V) → Option V
  lookup k [] = none
  lookup k ((j, v) ∷ l) = if bytes_eq j k then some v else lookup k l

  unfoldable pub without : Bytes → List (Bytes × V) → List (Bytes × V)
  without k [] = []
  without k ((j, v) ∷ l) = let rest = without k l in if bytes_eq j k then rest else (j, v) ∷ rest

  pub lookup-without :
      (k j : Bytes) (l : List (Bytes × V))
      → lookup j (without k l) ≡ (if bytes_eq k j then none else lookup j l)
  unfolding lookup without
  lookup-without k j [] = ground arith
  lookup-without k j ((i, v) ∷ l) =
      ground (arith, lookup-without k j l, bytes_eq_iff i k, bytes_eq_iff i j, bytes_eq_iff k j)

  unfoldable pub empty : HashMap V
  empty = record { entries = [] }

  unfoldable pub get : HashMap V → Bytes → Option V
  unfolding lookup
  get m k = lookup k m.entries

  unfoldable pub remove : HashMap V → Bytes → HashMap V
  unfolding without
  remove m k = record { entries = without k m.entries }

  unfoldable pub insert : HashMap V → Bytes → V → HashMap V
  unfolding without
  insert m k v = record { entries = (k, v) ∷ without k m.entries }

  pub get-remove :
      (m : HashMap V) (k j : Bytes) → get (remove m k) j ≡ (if bytes_eq k j then none else get m j)
  unfolding get remove
  get-remove m k j = lookup-without k j m.entries

  pub get-insert :
      (m : HashMap V) (k j : Bytes) (v : V)
      → get (insert m k v) j ≡ (if bytes_eq k j then some v else get m j)
  unfolding get insert
  get-insert m k j v = ground (arith, lookup-without k j m.entries)

pub get-empty {ℓ} : {V : Type ℓ} (k : Bytes) → get (empty {V = V}) k ≡ none
unfolding get empty
get-empty k = refl

pub ruleset map_laws = (get-empty, get-remove, get-insert)
