-- ===== src/Store/Sweep.antt =====
-- The bookkeeping between the map and the expiration heap, which every operation keeps.
use redlike.Prelude.{
  ℕ, ◌+◌, ◌*◌, ◌≤◌, ◌≡◌, ◌⊎◌, inl, inr, subst, Option, none, some, List, [], arith, leb, if_elim,
  Bytes, bytes_eq, bytes_eq_iff, Bool-cases,
}
use redlike.Store.Map
use redlike.Store.Map.{HashMap, get-remove, get-insert, get-empty}
use redlike.Store.Expirations.{ExpirationHeap, push}
use redlike.Store.{
  expire_entry, Key, StoreValue, Store, Outcome, nanos_per_sec, instant_limit, is_expired, set, del,
  expire,
}
use redlike.Store.Due.{Has, IsAscending, push-IsAscending, Has-push, Has-push_self}

-- An expiration in the map has its entry in the heap, or its key is among the candidates of a sweep
-- that is under way, whose instant has passed it. The heap may hold stale entries besides.
abbrev pub Covers : ExpirationHeap → List Key → ℕ → HashMap StoreValue → Type 0
Covers heap candidates swept m =
    (k : Key) (v : StoreValue) (t : ℕ)
    → Map.get m k ≡ some v
    → v.expiration_time ≡ some t
    → Has (t, k) heap ⊎ (Has k candidates × (t ≤ swept))

module _ (heap : ExpirationHeap) (ks : List Key) (swept : ℕ) (m : HashMap StoreValue)
    (c : Covers heap ks swept m) where
  pub Covers-remove : (k : Key) → Covers heap ks swept (Map.remove m k)
  Covers-remove k j v t e x = c j v t (ground (arith, get-remove m k j)) x

  pub Covers-insert_plain :
      (k : Key) (b : Bytes)
      → Covers heap ks swept (Map.insert m k (record { value = b; expiration_time = none }))
  Covers-insert_plain k b j v t e x =
      c j v t (ground (arith, get-insert m k j (record { value = b; expiration_time = none }))) x

  pub Covers-push :
      (k : Key) (v : StoreValue) (t : ℕ)
      → Covers (push (t, k) heap) ks swept (Map.insert m k (record v { expiration_time = some t }))
  Covers-push k v t j w u e x = elim (Bool-cases (bytes_eq k j)) [
    | inl same ↦ inl (
        subst (λ y. Has y (push (t, k) heap))
          (ground
            (arith, get-insert m k j (record v { expiration_time = some t }), bytes_eq_iff k j))
          (Has-push_self (t, k) heap))
    | inr other ↦
        elim (c j w u (ground (arith, get-insert m k j (record v { expiration_time = some t })))
          x) [ inl h ↦ inl (Has-push (u, j) (t, k) heap h) | inr h ↦ inr h ]
  ]

-- The invariant of a store between sweeps.
pub record IsCoherent (s : Store) : Type 0 where
  pub ascending : IsAscending s.expiration_heap
  pub covers : Covers s.expiration_heap [] 0 s.hashmap

-- While a sweep is under way, with its candidates and its instant.
pub record IsSweeping (ks : List Key) (swept : ℕ) (s : Store) : Type 0 where
  pub ascending : IsAscending s.expiration_heap
  pub covers : Covers s.expiration_heap ks swept s.hashmap

module _ (ks : List Key) (swept : ℕ) where
  pub set-IsSweeping :
      (s : Store) (k : Key) (b : Bytes) → IsSweeping ks swept s → IsSweeping ks swept (set s k b).0
  unfolding set
  set-IsSweeping s k b h = record {
    ascending = h.ascending;
    covers = Covers-insert_plain s.expiration_heap ks swept s.hashmap h.covers k b;
  }

  pub del-IsSweeping :
      (s : Store) (k : Key) (now : ℕ) → IsSweeping ks swept s → IsSweeping ks swept (del s k now).0
  unfolding del
  del-IsSweeping s k now h = record {
    ascending = h.ascending;
    covers = Covers-remove s.expiration_heap ks swept s.hashmap h.covers k;
  }

  expire_entry-IsSweeping :
      (s : Store) (k : Key) (n now : ℕ) (o : Option StoreValue)
      → IsSweeping ks swept s
      → IsSweeping ks swept (expire_entry s k n now o).0
  unfolding expire_entry
  expire_entry-IsSweeping s k n now none h = h
  expire_entry-IsSweeping s k n now (some v) h =
      let expires : ℕ = now + n * nanos_per_sec in
      if_elim (λ (r : Store × Outcome ℕ). IsSweeping ks swept r.0) (is_expired v now) (λ _. h)
        (λ _.
          if_elim (λ (r : Store × Outcome ℕ). IsSweeping ks swept r.0) (leb instant_limit expires)
            (λ _. h)
            (λ _. record {
              ascending = push-IsAscending (expires, k) s.expiration_heap h.ascending;
              covers = Covers-push s.expiration_heap ks swept s.hashmap h.covers k v expires;
            }))

  pub expire-IsSweeping :
      (s : Store) (k : Key) (n now : ℕ)
      → IsSweeping ks swept s
      → IsSweeping ks swept (expire s k n now).0
  unfolding expire
  expire-IsSweeping s k n now h =
      expire_entry-IsSweeping (record s { hashmap = Map.remove s.hashmap k }) k n now
        (Map.get s.hashmap k)
        (record {
          ascending = h.ascending;
          covers = Covers-remove s.expiration_heap ks swept s.hashmap h.covers k;
        })
