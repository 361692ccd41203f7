-- ===== src/Store/Promptness.antt =====
-- How soon `sweep_loop` (src/store.rs) removes what has expired, whatever the connections do meanwhile.
use redlike.Prelude.{
  ℕ, suc, ◌+◌, ◌*◌, ◌≤◌, ◌≡◌, ◌⊎◌, inl, inr, refl, sym, subst, Option, none, some, List, [], ◌∷◌,
  arith, All, Bool-cases, leb,
}
use redlike.Store.Map
use redlike.Store.Map.{HashMap, get-remove, get-insert}
use redlike.Store.Expirations.{ExpirationHeap}
use redlike.Store.{
  Key, StoreValue, Store, nanos_per_sec, set, del, expire, expire_entry, sweep_heap, sweep_map,
  take_due, insert_candidate,
}
use redlike.Store.Due.{Has-All, All-push, All-le, take_due-later}
use redlike.Store.Sweep.{IsSweeping, IsCoherent}
use redlike.Store.Sweeper.{
  Phase, sweeping, holding, peeking, waiting, System, Client, sets, deletes, expires, ticks, Sweeps,
  takes_due, drops, peeks, wakes, is_notified, Reach,
}
use redlike.Store.Wakeup.{
  IsSound, Client-IsSound, Sweeps-IsSound, Reach-IsSound, at_phase, started, started-IsSound,
}

-- A run in which the sweeper takes this many steps, with any actions of the connections between them.
pub data Run (y : System) : ℕ → System → Type 0 where
  idle : Run y 0 y
  client : {n : ℕ} {z w : System} → Run y n z → Client z w → Run y n w
  sweeper : {n : ℕ} {z w : System} → Run y n z → Sweeps z w → Run y (suc n) w

-- The steps that the sweeper has taken since it looked at the heap.
abbrev taken : Phase → ℕ
taken (holding ks swept) = 0
taken peeking = 1
taken (waiting w) = 2
taken sweeping = 3

taken-le : (p : Phase) → taken p ≤ 3
taken-le (holding ks swept) = omega arith
taken-le peeking = omega arith
taken-le (waiting w) = omega arith
taken-le sweeping = omega arith

module _ (from : ℕ) where
  -- No entry of the heap is due before this instant.
  abbrev IsLater : ExpirationHeap → Type 0
  IsLater heap = All (λ e. from ≤ e.0) heap

  -- No entry of the map expires before it.
  abbrev pub IsFresh : HashMap StoreValue → Type 0
  IsFresh m =
      (k : Key) (v : StoreValue) (t : ℕ)
      → Map.get m k ≡ some v
      → v.expiration_time ≡ some t
      → from ≤ t

  IsFresh-expire_entry :
      (s : Store) (k : Key) (n now : ℕ) (o : Option StoreValue)
      → from ≤ now
      → IsFresh s.hashmap
      → IsFresh (expire_entry s k n now o).0.hashmap
  unfolding expire_entry
  IsFresh-expire_entry s k n now none le h j w t e x = h j w t e x
  IsFresh-expire_entry s k n now (some v) le h j w t e x = ground (
    arith,
    h j w t,
    get-insert s.hashmap k j (record v { expiration_time = some (now + n * nanos_per_sec) }),
  )

  IsFresh-remove : (m : HashMap StoreValue) (k : Key) → IsFresh m → IsFresh (Map.remove m k)
  IsFresh-remove m k h j v t e x = h j v t (ground (arith, get-remove m k j)) x

  IsLater-expire_entry :
      (s : Store) (k : Key) (n now : ℕ) (o : Option StoreValue)
      → from ≤ now
      → IsLater s.expiration_heap
      → IsLater (expire_entry s k n now o).0.expiration_heap
  unfolding expire_entry
  IsLater-expire_entry s k n now none le h = h
  IsLater-expire_entry s k n now (some v) le h =
      ground (arith, All-push from (now + n * nanos_per_sec, k) s.expiration_heap)

  -- What is left of the heap was there.
  IsLater-take_due :
      (now : ℕ) (heap : ExpirationHeap) (ks : List Key)
      → IsLater heap
      → IsLater (take_due heap now ks).1
  unfolding take_due
  IsLater-take_due now [] ks h = tt
  IsLater-take_due now ((t, k) ∷ heap) ks (le, h) = elim (Bool-cases (leb t now)) [
    | inl b ↦ rw b (IsLater-take_due now heap (insert_candidate k ks) h)
    | inr b ↦ rw b (le, h)
  ]

  -- Without candidates, what is in the map is in the heap.
  IsLater-IsFresh : (s : Store) → IsSweeping [] 0 s → IsLater s.expiration_heap → IsFresh s.hashmap
  IsLater-IsFresh s c l k v t e x = elim (c.covers k v t e x) [
    | inl h ↦ Has-All (λ y. from ≤ y.0) (t, k) s.expiration_heap l h
    | inr h ↦ absurd h.0
  ]

  -- What is known behind so many of the sweeper's steps.
  abbrev Known : ℕ → System → Type 0
  Known n y =
      (n ≤ taken y.phase) ⊎ (IsLater y.store.expiration_heap × ((n ≤ 4) ⊎ IsFresh y.store.hashmap))

  Client-clock : {y z : System} → Client y z → from ≤ y.clock → from ≤ z.clock
  Client-clock (sets y k v) le = le
  Client-clock (deletes y k now) le = le
  Client-clock (expires y k n) le = le
  Client-clock (ticks y n) le = omega arith

  Client-IsLater :
      {y z : System}
      → Client y z
      → from ≤ y.clock
      → IsLater y.store.expiration_heap
      → IsLater z.store.expiration_heap
  unfolding set del expire
  Client-IsLater (sets y k v) le h = h
  Client-IsLater (deletes y k now) le h = h
  Client-IsLater (expires y k n) le h =
      IsLater-expire_entry (record y.store { hashmap = Map.remove y.store.hashmap k }) k n y.clock
        (Map.get y.store.hashmap k) le h
  Client-IsLater (ticks y n) le h = h

  Client-IsFresh :
      {y z : System}
      → Client y z
      → from ≤ y.clock
      → IsFresh y.store.hashmap
      → IsFresh z.store.hashmap
  unfolding set del expire
  Client-IsFresh (sets y k b) le h = λ j v t e x.
      h j v t
        (ground
          (arith, get-insert y.store.hashmap k j (record { value = b; expiration_time = none })))
        x
  Client-IsFresh (deletes y k now) le h = IsFresh-remove y.store.hashmap k h
  Client-IsFresh (expires y k n) le h =
      IsFresh-expire_entry (record y.store { hashmap = Map.remove y.store.hashmap k }) k n y.clock
        (Map.get y.store.hashmap k) le (IsFresh-remove y.store.hashmap k h)
  Client-IsFresh (ticks y n) le h = h

  Client-phase : {y z : System} → Client y z → z.phase ≡ y.phase
  Client-phase (sets y k b) = refl
  Client-phase (deletes y k now) = refl
  Client-phase (expires y k n) = refl
  Client-phase (ticks y n) = refl

  Client-Known : {n : ℕ} {y z : System} → Client y z → from ≤ y.clock → Known n y → Known n z
  Client-Known {n} c le (inl h) = inl (subst (λ p. n ≤ taken p) (sym (Client-phase c)) h)
  Client-Known c le (inr (l, inl h)) = inr (Client-IsLater c le l, inl h)
  Client-Known c le (inr (l, inr h)) = inr (Client-IsLater c le l, inr (Client-IsFresh c le h))

  Sweeps-clock : {y z : System} → Sweeps y z → from ≤ y.clock → from ≤ z.clock
  Sweeps-clock (takes_due y e) le = le
  Sweeps-clock (drops y ks swept e) le = le
  Sweeps-clock (peeks y e) le = le
  Sweeps-clock (wakes y t e due) le = le
  Sweeps-clock (is_notified y w e n) le = le

  Sweeps-IsLater :
      {y z : System}
      → Sweeps y z
      → IsLater y.store.expiration_heap
      → IsLater z.store.expiration_heap
  unfolding sweep_heap sweep_map
  Sweeps-IsLater (takes_due y e) h = IsLater-take_due y.clock y.store.expiration_heap [] h
  Sweeps-IsLater (drops y ks swept e) h = h
  Sweeps-IsLater (peeks y e) h = h
  Sweeps-IsLater (wakes y t e due) h = h
  Sweeps-IsLater (is_notified y w e n) h = h

  -- A step that the sweeper takes beside a heap with nothing due leaves a map with nothing due.
  Sweeps-IsFresh :
      {y z : System}
      → Sweeps y z
      → IsSound y
      → IsLater y.store.expiration_heap
      → IsFresh z.store.hashmap
  unfolding sweep_heap sweep_map
  Sweeps-IsFresh (takes_due y e) h l = IsLater-IsFresh y.store (at_phase sweeping e h) l
  Sweeps-IsFresh (drops y ks swept e) h l =
      IsLater-IsFresh (sweep_map y.store ks swept) (Sweeps-IsSound (drops y ks swept e) h).coherent
        l
  Sweeps-IsFresh (peeks y e) h l = IsLater-IsFresh y.store (at_phase peeking e h) l
  Sweeps-IsFresh (wakes y t e due) h l = IsLater-IsFresh y.store (at_phase (waiting (some t)) e h) l
  Sweeps-IsFresh (is_notified y w e n) h l = IsLater-IsFresh y.store (at_phase (waiting w) e h) l

  Sweeps-Known :
      {n : ℕ} {y z : System} → Sweeps y z → IsSound y → from ≤ y.clock → Known n y → Known (suc n) z
  unfolding sweep_heap
  Sweeps-Known s h le (inr (l, _)) = inr (Sweeps-IsLater s l, inr (Sweeps-IsFresh s h l))
  Sweeps-Known {n} (takes_due y e) h le (inl k) = inr (
    All-le from (suc y.clock) (take_due y.store.expiration_heap y.clock []).1 (omega arith)
        (take_due-later y.clock y.store.expiration_heap [] (at_phase sweeping e h).ascending),
    inl (ground arith),
  )
  Sweeps-Known {n} (drops y ks swept e) h le (inl k) = inl (ground arith)
  Sweeps-Known {n} (peeks y e) h le (inl k) = inl (ground arith)
  Sweeps-Known {n} (wakes y t e due) h le (inl k) = inl (ground arith)
  Sweeps-Known {n} (is_notified y w e m) h le (inl k) = inl (ground arith)

  Run-Known :
      {y : System} {n : ℕ} {z : System}
      → Run y n z
      → IsSound y
      → from ≤ y.clock
      → IsSound z × (from ≤ z.clock) × Known n z
  Run-Known idle h le = (h, le, inl (omega arith))
  Run-Known (client r c) h le =
      let (h', le', k) = Run-Known r h le in
      (Client-IsSound c h', Client-clock c le', Client-Known c le' k)
  Run-Known (sweeper r s) h le =
      let (h', le', k) = Run-Known r h le in
      (Sweeps-IsSound s h', Sweeps-clock s le', Sweeps-Known s h' le' k)

-- The sweeper is prompt: in any state that a store whose bookkeeping holds, its sweeper and the connections can
-- reach, let the sweeper take five steps or more, with any actions of the connections before, between
-- and behind them; then whatever the map holds does not expire before the instant at which these steps began,
-- so that each entry that had expired by then, except those of that very instant, is gone.
pub Run-IsFresh :
    (s : Store) (clock : ℕ)
    → IsCoherent s
    → {y : System} → Reach (started s clock) y
    → {n : ℕ} {z : System} → Run y n z
    → 5 ≤ n
    → IsFresh y.clock z.store.hashmap
Run-IsFresh s clock h {y} r {n} {z} run enough =
    let (_, _, k) =
      Run-Known y.clock run (Reach-IsSound r (started-IsSound s clock h)) (omega arith) in
    elim k [
      | inl early ↦ absurd (omega (arith, taken-le z.phase))
      | inr (l, inl early) ↦ absurd (omega arith)
      | inr (l, inr fresh) ↦ fresh
    ]
