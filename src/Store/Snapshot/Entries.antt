-- ===== src/Store/Snapshot/Entries.antt =====
-- The entries of a map and of a snapshot: each key once, and the heap that they fill.
use redlike.Store.Snapshot.{Json, restore, invalid_data}
use redlike.Prelude.Result.{map_err-ok}
use redlike.Prelude.{
  Bytes, ℕ, ◌+◌, ◌*◌, leb, ◌≡◌, inl, inr, refl, sym, subst, Option, none, some, List, [], ◌∷◌,
  if_elim, arith, bytes_eq, bytes_eq_iff, Bool-cases, Option-cases,
}
use redlike.Prelude.Result.{ok, Result-cases}
use redlike.Store.Map
use redlike.Store.Map.{HashMap, lookup, without, lookup-without}
use redlike.Store.Expirations.{ExpirationHeap}
use redlike.Store.{
  Key, StoreValue, Store, Outcome, set, del, expire, expire_entry, is_expired, instant_limit,
  nanos_per_sec, sweep_expired_once, sweep_heap, sweep_map, drop_all, drop_expired, take_due,
}
use redlike.Store.Due.{Has, IsAscending, push-IsAscending, Has-push, Has-push_self}
use redlike.Store.Spec.{Operation, get_op, set_op, del_op, expire_op, ttl_op, sweep_op, perform}
use redlike.Store.Sweep.{IsCoherent}
use redlike.Store.Snapshot.{
  unexpired, Snapshot, Clocks, push_expiration, collect_expirations, collect_entries, has_duplicate,
  from_parts, from_snapshot,
}

-- A map holds each key once.
abbrev pub AreUnique : List (Key × StoreValue) → Type 0
AreUnique [] = Unit
AreUnique ((k, v) ∷ entries) = (lookup k entries ≡ none) × AreUnique entries

without-AreUnique :
    (k : Key) (entries : List (Key × StoreValue))
    → AreUnique entries
    → AreUnique (without k entries)
unfolding without
without-AreUnique k [] h = tt
without-AreUnique k ((j, v) ∷ entries) (h, hs) =
    if_elim AreUnique (bytes_eq j k) (λ _. without-AreUnique k entries hs)
      (λ e. (ground (arith, lookup-without k j entries, h, e), without-AreUnique k entries hs))

-- The store's map holds each key once.
abbrev pub IsUnique : Store → Type 0
IsUnique s = AreUnique s.hashmap.entries

pub drop_all-AreUnique :
    (ks : List Key) (now : ℕ) (m : HashMap StoreValue)
    → AreUnique m.entries
    → AreUnique (drop_all ks now m).entries
unfolding drop_all drop_expired Map.remove
drop_all-AreUnique [] now m h = h
drop_all-AreUnique (k ∷ ks) now m h = drop_all-AreUnique ks now (drop_expired k now m) step
  where
    step : AreUnique (drop_expired k now m).entries
    step = elim (Option-cases (Map.get m k)) [
      | inl e ↦ subst (λ (x : HashMap StoreValue). AreUnique x.entries) (ground arith) h
      | inr (v, e) ↦ elim (Bool-cases (is_expired v now)) [
        | inl old ↦
            subst (λ (x : HashMap StoreValue). AreUnique x.entries) (ground arith)
              (without-AreUnique k m.entries h)
        | inr fresh ↦ subst (λ (x : HashMap StoreValue). AreUnique x.entries) (ground arith) h
      ]
    ]

insert-AreUnique :
    (k : Key) (v : StoreValue) (m : HashMap StoreValue)
    → AreUnique m.entries
    → AreUnique (Map.insert m k v).entries
unfolding Map.insert
insert-AreUnique k v m h = (
  ground (arith, lookup-without k k m.entries, bytes_eq_iff k k),
  without-AreUnique k m.entries h,
)

expire_entry-IsUnique :
    (s : Store) (k : Key) (n now : ℕ) (o : Option StoreValue)
    → IsUnique s
    → IsUnique (expire_entry s k n now o).0
unfolding expire_entry
expire_entry-IsUnique s k n now none h = h
expire_entry-IsUnique s k n now (some v) h =
    let expires : ℕ = now + n * nanos_per_sec in
    if_elim (λ (r : Store × Outcome ℕ). IsUnique r.0) (is_expired v now) (λ _. h)
      (λ _.
        if_elim (λ (r : Store × Outcome ℕ). IsUnique r.0) (leb instant_limit expires) (λ _. h)
          (λ _. insert-AreUnique k (record v { expiration_time = some expires }) s.hashmap h))

-- Every operation of the store, and a round of its sweeper, keeps the map's keys distinct.
pub perform-IsUnique :
    (s : Store) (now : ℕ) (op : Operation) → IsUnique s → IsUnique (perform s now op).0
unfolding perform set del expire sweep_expired_once sweep_heap sweep_map Map.remove
perform-IsUnique s now (get_op k) h = h
perform-IsUnique s now (set_op k v) h =
    insert-AreUnique k (record { value = v; expiration_time = none }) s.hashmap h
perform-IsUnique s now (del_op k) h = without-AreUnique k s.hashmap.entries h
perform-IsUnique s now (expire_op k n) h =
    expire_entry-IsUnique (record s { hashmap = Map.remove s.hashmap k }) k n now
      (Map.get s.hashmap k) (without-AreUnique k s.hashmap.entries h)
perform-IsUnique s now (ttl_op k) h = h
perform-IsUnique s now sweep_op h =
    drop_all-AreUnique (take_due s.expiration_heap now []).0 now s.hashmap h

-- The heap of a restored store holds the expiration of every entry.
push_expiration-IsAscending :
    (k : Key) (o : Option ℕ) (heap : ExpirationHeap)
    → IsAscending heap
    → IsAscending (push_expiration k o heap)
unfolding push_expiration
push_expiration-IsAscending k none heap h = h
push_expiration-IsAscending k (some t) heap h = push-IsAscending (t, k) heap h

Has-push_expiration :
    (x : ℕ × Key) (k : Key) (o : Option ℕ) (heap : ExpirationHeap)
    → Has x heap
    → Has x (push_expiration k o heap)
unfolding push_expiration
Has-push_expiration x k none heap h = h
Has-push_expiration x k (some t) heap h = Has-push x (t, k) heap h

collect_expirations-IsAscending :
    (entries : List (Key × StoreValue)) → IsAscending (collect_expirations entries)
unfolding collect_expirations
collect_expirations-IsAscending [] = tt
collect_expirations-IsAscending ((k, v) ∷ entries) =
    push_expiration-IsAscending k v.expiration_time (collect_expirations entries)
      (collect_expirations-IsAscending entries)

collect_expirations-Has :
    (entries : List (Key × StoreValue)) (k : Key) (v : StoreValue) (t : ℕ)
    → lookup k entries ≡ some v
    → v.expiration_time ≡ some t
    → Has (t, k) (collect_expirations entries)
unfolding collect_expirations lookup
collect_expirations-Has [] k v t e x = cc
collect_expirations-Has ((j, w) ∷ entries) k v t e x = elim (Bool-cases (bytes_eq j k)) [
  | inl same ↦
      let w-eq : w.expiration_time ≡ some t = ground (arith, e, x, same) in
      subst (λ y. Has (t, y) (push_expiration j w.expiration_time (collect_expirations entries)))
        ((bytes_eq_iff j k).0 same)
        (subst (λ o. Has (t, j) (push_expiration j o (collect_expirations entries))) (sym w-eq)
          (unfold push_expiration in Has-push_self (t, j) (collect_expirations entries)))
  | inr other ↦
      Has-push_expiration (t, k) j w.expiration_time (collect_expirations entries)
        (collect_expirations-Has entries k v t (ground (arith, e, other)) x)
]

from_parts-IsCoherent :
    (m : HashMap StoreValue) → IsCoherent (from_parts m (collect_expirations m.entries))
unfolding Map.get
from_parts-IsCoherent m = record {
  ascending = collect_expirations-IsAscending m.entries;
  covers = λ k v t e x. inl (collect_expirations-Has m.entries k v t e x);
}

-- Whatever snapshot a store is restored from, its expiration heap is in order and holds the expiration
-- of every entry of its map, so that the sweeper which starts on it misses none.
pub from_snapshot-IsCoherent :
    (clocks : ℕ → Clocks) (now_unix_millis : ℕ) (snapshot : Snapshot) (s : Store)
    → from_snapshot clocks now_unix_millis snapshot ≡ ok s
    → IsCoherent s
unfolding from_snapshot
from_snapshot-IsCoherent clocks now_unix_millis snapshot s e =
    elim (Bool-cases (has_duplicate [] snapshot.entries)) [
      | inl twice ↦ absurd (ground arith)
      | inr once ↦
          elim (Result-cases
            (collect_entries clocks 0 (unexpired now_unix_millis snapshot.entries) Map.empty)) [
              | inl (m, collected) ↦ subst IsCoherent (ground arith) (from_parts-IsCoherent m)
              | inr (x, failed) ↦ absurd (ground arith)
            ]
    ]

pub restore-IsCoherent :
    (json : Json) (clocks : ℕ → Clocks) (now_unix_millis : ℕ) (bytes : Bytes) (s : Store)
    → restore json clocks now_unix_millis bytes ≡ ok s
    → IsCoherent s
unfolding restore
restore-IsCoherent json clocks now_unix_millis bytes s h =
    elim (Option-cases (json.from_slice bytes)) [
      | inl e ↦ absurd (ground arith)
      | inr (snapshot, e) ↦ from_snapshot-IsCoherent clocks now_unix_millis snapshot s (
          map_err-ok invalid_data (from_snapshot clocks now_unix_millis snapshot) s
            (rw (← h) (rw (e, restore) refl)))
    ]
