-- ===== src/Store/Snapshot/Duplicates.antt =====
-- A snapshot with a key twice, which `from_snapshot` of src/store.rs refuses.
use redlike.Prelude.{ℕ, ◌≡◌, refl, true, List, [], ◌∷◌, ◌++◌, arith, bytes_eq_iff}
use redlike.Prelude.Result.{err}
use redlike.Store.{Key}
use redlike.Store.Snapshot.{
  SnapshotEntry, Clocks, duplicate_key, contains_key, has_duplicate, from_snapshot,
}

contains_key-later :
    (key k : Key) (keys : List Key)
    → contains_key key keys ≡ true
    → contains_key key (k ∷ keys) ≡ true
unfolding contains_key
contains_key-later key k keys h = ground arith

has_duplicate-of :
    (key : Key) (seen : List Key) (middle rest : List SnapshotEntry) (e : SnapshotEntry)
    → e.key ≡ key
    → contains_key key seen ≡ true
    → has_duplicate seen (middle ++ e ∷ rest) ≡ true
unfolding has_duplicate
has_duplicate-of key seen [] rest e same h = ground arith
has_duplicate-of key seen (x ∷ middle) rest e same h = ground (
  arith,
  has_duplicate-of key (x.key ∷ seen) middle rest e same (contains_key-later key x.key seen h),
)

has_duplicate-twice :
    (seen : List Key) (front middle rest : List SnapshotEntry) (a b : SnapshotEntry)
    → a.key ≡ b.key
    → has_duplicate seen (front ++ a ∷ (middle ++ b ∷ rest)) ≡ true
unfolding has_duplicate
has_duplicate-twice seen [] middle rest a b same = ground (
  arith,
  has_duplicate-of b.key (a.key ∷ seen) middle rest b refl
      (unfold contains_key in ground (arith, bytes_eq_iff a.key b.key)),
)
has_duplicate-twice seen (x ∷ front) middle rest a b same =
    ground (arith, has_duplicate-twice (x.key ∷ seen) front middle rest a b same)

-- A snapshot in which two entries have the same key, wherever they stand and whether or not they have
-- expired, is refused as one with a duplicate key.
pub from_snapshot-duplicate_key :
    (clocks : ℕ → Clocks) (now_unix_millis : ℕ) (front middle rest : List SnapshotEntry)
    (a b : SnapshotEntry)
    → a.key ≡ b.key
    → from_snapshot clocks now_unix_millis (record { entries = front ++ a ∷ (middle ++ b ∷ rest) })
      ≡ err duplicate_key
unfolding from_snapshot
from_snapshot-duplicate_key clocks now_unix_millis front middle rest a b same =
    rw (has_duplicate-twice [] front middle rest a b same) refl
