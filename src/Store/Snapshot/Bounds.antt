-- ===== src/Store/Snapshot/Bounds.antt =====
-- The expirations of a store that src/store.rs restores, from whatever bytes.
use redlike.Prelude.{
  ℕ, suc, ◌<◌, ◌≡◌, refl, subst, Bool-cases, inl, inr, Option, none, some, List, [], ◌∷◌, arith,
  Bytes, All, Option-cases,
}
use redlike.Prelude.Result.{ok, Result-cases, map_err-ok}
use redlike.Store.Map
use redlike.Store.Map.{HashMap, get-insert, get-empty}
use redlike.Store.{Key, StoreValue, Store, instant_limit}
use redlike.Store.Spec.{Operation, answers}
use redlike.Store.Timeouts.{AreInstants, IsInRange, answers-AreInRange}
use redlike.Store.Snapshot.{
  SnapshotEntry, Snapshot, Clocks, Json, store_value, collect_entries, has_duplicate, unexpired,
  from_snapshot, restore, invalid_data,
}

store_value-lt :
    (c : Clocks) (b : Bytes) (o : Option ℕ) (v : StoreValue) (t : ℕ)
    → store_value c b o ≡ ok v
    → v.expiration_time ≡ some t
    → t < instant_limit
unfolding store_value
store_value-lt c b none v t h e = ground arith
store_value-lt c b (some u) v t h e = ground arith

AreInstants-insert :
    (m : HashMap StoreValue) (k : Key) (v : StoreValue)
    → AreInstants m
    → ((t : ℕ) → v.expiration_time ≡ some t → t < instant_limit)
    → AreInstants (Map.insert m k v)
AreInstants-insert m k v h new j w t e x = ground (arith, h j w t, new t, get-insert m k j v)

collect_entries-AreInstants :
    (clocks : ℕ → Clocks) (i : ℕ) (entries : List SnapshotEntry) (m m' : HashMap StoreValue)
    → AreInstants m
    → collect_entries clocks i entries m ≡ ok m'
    → AreInstants m'
unfolding collect_entries
collect_entries-AreInstants clocks i [] m m' h e = subst AreInstants (ground arith) h
collect_entries-AreInstants clocks i (x ∷ entries) m m' h e =
    elim (Result-cases (store_value (clocks i) x.value.value x.value.expiration_time_unix)) [
      | inl (v, read) ↦
          collect_entries-AreInstants clocks (suc i) entries (Map.insert m x.key v) m'
            (AreInstants-insert m x.key v h (λ t f.
              store_value-lt (clocks i) x.value.value x.value.expiration_time_unix v t read f))
            (ground arith)
      | inr (y, failed) ↦ absurd (ground arith)
    ]

empty-AreInstants : AreInstants Map.empty
empty-AreInstants k v t e x = cc (get-empty {V = StoreValue} k)

from_snapshot-AreInstants :
    (clocks : ℕ → Clocks) (now_unix_millis : ℕ) (snapshot : Snapshot) (s : Store)
    → from_snapshot clocks now_unix_millis snapshot ≡ ok s
    → AreInstants s.hashmap
unfolding from_snapshot
from_snapshot-AreInstants clocks now_unix_millis snapshot s e =
    elim (Bool-cases (has_duplicate [] snapshot.entries)) [
      | inl twice ↦ absurd (ground arith)
      | inr once ↦
          elim (Result-cases
            (collect_entries clocks 0 (unexpired now_unix_millis snapshot.entries) Map.empty)) [
              | inl (m, collected) ↦
                  let same : m ≡ s.hashmap = ground arith in
                  subst AreInstants same (
                    collect_entries-AreInstants clocks 0
                      (unexpired now_unix_millis snapshot.entries) Map.empty m empty-AreInstants
                      collected)
              | inr (x, failed) ↦ absurd (ground arith)
            ]
    ]

-- Whatever bytes a store is restored from, TTL never wraps round on it: over any history of operations
-- and sweeps, at any instants, it answers -2, -1, or a number of seconds that fits in an `i64`.
pub restore-AreInRange :
    (json : Json) (clocks : ℕ → Clocks) (now_unix_millis : ℕ) (bytes : Bytes) (s : Store)
    → restore json clocks now_unix_millis bytes ≡ ok s
    → (history : List (ℕ × Operation)) → All IsInRange (answers s history)
unfolding restore
restore-AreInRange json clocks now_unix_millis bytes s h history =
    answers-AreInRange history s (elim (Option-cases (json.from_slice bytes)) [
      | inl e ↦ absurd (ground arith)
      | inr (snapshot, e) ↦ from_snapshot-AreInstants clocks now_unix_millis snapshot s (
          map_err-ok invalid_data (from_snapshot clocks now_unix_millis snapshot) s
            (rw (← h) (rw (e, restore) refl)))
    ])
