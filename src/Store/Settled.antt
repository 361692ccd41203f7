-- ===== src/Store/Settled.antt =====
-- What a sweep achieves: the bookkeeping is settled again, and nothing that has expired is left.
use redlike.Prelude.{
  ℕ, ◌<◌, ◌≡◌, inl, inr, subst, false, some, List, [], ◌∷◌, arith, bytes_eq_iff, Option-cases,
}
use redlike.Store.Map
use redlike.Store.Map.{HashMap, get-remove, get-insert, get-empty}
use redlike.Store.{
  Key, StoreValue, Store, is_expired, take_due, sweep_heap, sweep_map, drop_expired, drop_all,
  sweep_expired_once,
}
use redlike.Store.Due.{Has-All, Has, take_due-Has, take_due-IsAscending, take_due-later}
use redlike.Store.Sweep.{IsCoherent, IsSweeping}

-- What the second phase leaves was there before it.
drop_expired-old :
    (k j : Key) (now : ℕ) (m : HashMap StoreValue) (v : StoreValue)
    → Map.get (drop_expired k now m) j ≡ some v
    → Map.get m j ≡ some v
unfolding drop_expired
drop_expired-old k j now m v h = ground (arith, get-remove m k j)

drop_expired-live :
    (k : Key) (now : ℕ) (m : HashMap StoreValue) (v : StoreValue)
    → Map.get (drop_expired k now m) k ≡ some v
    → is_expired v now ≡ false
unfolding drop_expired
drop_expired-live k now m v h = ground (arith, get-remove m k k, bytes_eq_iff k k)

pub drop_all-old :
    (ks : List Key) (j : Key) (now : ℕ) (m : HashMap StoreValue) (v : StoreValue)
    → Map.get (drop_all ks now m) j ≡ some v
    → Map.get m j ≡ some v
unfolding drop_all
drop_all-old [] j now m v h = h
drop_all-old (k ∷ ks) j now m v h =
    drop_expired-old k j now m v (drop_all-old ks j now (drop_expired k now m) v h)

drop_all-live :
    (ks : List Key) (j : Key) (now : ℕ) (m : HashMap StoreValue) (v : StoreValue)
    → Has j ks
    → Map.get (drop_all ks now m) j ≡ some v
    → is_expired v now ≡ false
unfolding drop_all
drop_all-live [] j now m v i h = absurd i
drop_all-live (k ∷ ks) j now m v (inl p) h = drop_expired-live j now m v (
    subst (λ i. Map.get (drop_expired i now m) j ≡ some v) p
      (drop_all-old ks j now (drop_expired k now m) v h))
drop_all-live (k ∷ ks) j now m v (inr p) h = drop_all-live ks j now (drop_expired k now m) v p h

live-not_due :
    (v : StoreValue) (t now : ℕ) → is_expired v now ≡ false → v.expiration_time ≡ some t → now < t
unfolding is_expired
live-not_due v t now h e = ground arith

not_due-live :
    (v : StoreValue) (now : ℕ)
    → ((t : ℕ) → v.expiration_time ≡ some t → now < t)
    → is_expired v now ≡ false
unfolding is_expired
not_due-live v now h = elim (Option-cases v.expiration_time) [
  | inl e ↦ rw (e, is_expired)
  | inr (t, e) ↦ ground (arith, h t e)
]

-- The first phase: what leaves the heap becomes a candidate.
pub sweep_heap-IsSweeping :
    (s : Store) (now : ℕ) → IsCoherent s → IsSweeping (sweep_heap s now).1 now (sweep_heap s now).0
unfolding sweep_heap
sweep_heap-IsSweeping s now c = record {
  ascending = take_due-IsAscending now s.expiration_heap [] c.ascending;
  covers = λ k v t e x. elim (c.covers k v t e x) [
    | inl h ↦ take_due-Has now t k s.expiration_heap [] h
    | inr h ↦ absurd h.0
  ];
}

-- The second phase of a sweep settles the bookkeeping between the map and the heap, from any store in which
-- each expiration of the map has its entry in the heap, or its key among the candidates and has passed.
pub sweep_map-IsCoherent :
    (s : Store) (ks : List Key) (swept : ℕ)
    → IsSweeping ks swept s
    → IsCoherent (sweep_map s ks swept)
unfolding sweep_map
sweep_map-IsCoherent s ks swept c = record {
  ascending = c.ascending;
  covers = λ k v t e x. elim (c.covers k v t (drop_all-old ks k swept s.hashmap v e) x) [
    | inl h ↦ inl h
    | inr h ↦
        let late : swept < t =
          live-not_due v t swept (drop_all-live ks k swept s.hashmap v h.0 e) x in
        absurd (omega arith)
  ];
}

-- After a round of the sweeper with nothing between its phases, no entry of the map has expired, if the
-- bookkeeping between the map and the heap held before it.
pub sweep_expired_once_complete :
    (s : Store) (now : ℕ) (k : Key) (v : StoreValue)
    → IsCoherent s
    → Map.get (sweep_expired_once s now).hashmap k ≡ some v
    → is_expired v now ≡ false
unfolding sweep_expired_once
sweep_expired_once_complete s now k v c e = not_due-live v now λ t x.
    elim (c.covers k v t (drop_all-old candidates k now s.hashmap v e) x) [
      | inr h ↦ absurd h.0
      | inl h ↦ elim (take_due-Has now t k s.expiration_heap [] h) [
        | inl left ↦
            Has-All (λ y. now < y.0) (t, k) (take_due s.expiration_heap now []).1
              (take_due-later now s.expiration_heap [] c.ascending) left
        | inr taken ↦ live-not_due v t now (drop_all-live candidates k now s.hashmap v taken.0 e) x
      ]
    ]
  where
    candidates : List Key
    candidates = (take_due s.expiration_heap now []).0
