-- ===== src/Store/Wakeup.antt =====
-- No wake-up is lost: the sweeper's invariant under every interleaving with the connections.
use redlike.Prelude.{
  ℕ, ◌≤◌, ◌≡◌, ◌⊎◌, inl, inr, refl, sym, ap, subst, ◌∙◌, Bool, true, Option, none, some, List, [],
  ◌∷◌, arith,
}
use redlike.Store.Map
use redlike.Store.Map.{get-empty}
use redlike.Store.Expirations.{ExpirationHeap}
use redlike.Store.{Key, StoreValue, Store, new, is_expired, set, del, expire, expire_entry}
use redlike.Store.Due.{Has-All, Has, IsAscending}
use redlike.Store.Sweep.{IsSweeping, IsCoherent, set-IsSweeping, del-IsSweeping, expire-IsSweeping}
use redlike.Store.Settled.{sweep_heap-IsSweeping, sweep_map-IsCoherent}
use redlike.Store.Sweeper.{
  Phase, sweeping, holding, peeking, waiting, System, next_expire, Client, sets, deletes, expires,
  ticks, Sweeps, takes_due, drops, peeks, wakes, is_notified, Reach, here, client, sweeper,
}

abbrev pub candidates : Phase → List Key
candidates (holding ks swept) = ks
candidates _ = []

abbrev pub instant : Phase → ℕ
instant (holding ks swept) = swept
instant _ = 0

-- A sweeper that waits has a notification to come, or waits for the first entry of the heap.
abbrev pub IsAwaited : Bool → ExpirationHeap → Phase → Type 0
IsAwaited wakeup heap (waiting w) = (wakeup ≡ true) ⊎ (next_expire heap ≡ w)
IsAwaited wakeup heap _ = Unit

pub record IsSound (y : System) : Type 0 where
  pub coherent : IsSweeping (candidates y.phase) (instant y.phase) y.store
  pub awaited : IsAwaited y.store.wakeup y.store.expiration_heap y.phase

-- EXPIRE leaves a notification, or the heap as it was.
expire_entry-notifies :
    (s : Store) (k : Key) (n now : ℕ) (o : Option StoreValue)
    → ((expire_entry s k n now o).0.wakeup ≡ true)
      ⊎ (((expire_entry s k n now o).0.wakeup ≡ s.wakeup)
          × ((expire_entry s k n now o).0.expiration_heap ≡ s.expiration_heap))
unfolding expire_entry
expire_entry-notifies s k n now none = inr (refl, refl)
expire_entry-notifies s k n now (some v) = ground arith

IsAwaited-expire :
    (s : Store) (k : Key) (n now : ℕ) (p : Phase)
    → IsAwaited s.wakeup s.expiration_heap p
    → IsAwaited (expire s k n now).0.wakeup (expire s k n now).0.expiration_heap p
unfolding expire
IsAwaited-expire s k n now (waiting w) h =
    elim (expire_entry-notifies (record s { hashmap = Map.remove s.hashmap k }) k n now
      (Map.get s.hashmap k)) [
        | inl e ↦ inl e
        | inr (e, f) ↦ elim h [ inl a ↦ inl (e ∙ a) | inr a ↦ inr (ap next_expire f ∙ a) ]
      ]
IsAwaited-expire s k n now sweeping h = tt
IsAwaited-expire s k n now (holding ks swept) h = tt
IsAwaited-expire s k n now peeking h = tt

pub Client-IsSound : {y z : System} → Client y z → IsSound y → IsSound z
unfolding set del
Client-IsSound (sets y k v) h = record {
  coherent = set-IsSweeping (candidates y.phase) (instant y.phase) y.store k v h.coherent;
  awaited = h.awaited;
}
Client-IsSound (deletes y k now) h = record {
  coherent = del-IsSweeping (candidates y.phase) (instant y.phase) y.store k now h.coherent;
  awaited = h.awaited;
}
Client-IsSound (expires y k n) h = record {
  coherent =
      expire-IsSweeping (candidates y.phase) (instant y.phase) y.store k n y.clock h.coherent;
  awaited = IsAwaited-expire y.store k n y.clock y.phase h.awaited;
}
Client-IsSound (ticks y n) h = record { coherent = h.coherent; awaited = h.awaited }

-- The phase is what the step says it was.
pub at_phase :
    {y : System} (p : Phase)
    → y.phase ≡ p
    → IsSound y
    → IsSweeping (candidates p) (instant p) y.store
at_phase {y} p e h = subst (λ q. IsSweeping (candidates q) (instant q) y.store) e h.coherent

settled : {s : Store} → IsSweeping [] 0 s → IsCoherent s
settled h = record { ascending = h.ascending; covers = h.covers }

unsettled : {s : Store} → IsCoherent s → IsSweeping [] 0 s
unsettled h = record { ascending = h.ascending; covers = h.covers }

pub Sweeps-IsSound : {y z : System} → Sweeps y z → IsSound y → IsSound z
Sweeps-IsSound (takes_due y e) h = record {
  coherent = sweep_heap-IsSweeping y.store y.clock (settled (at_phase sweeping e h));
  awaited = tt;
}
Sweeps-IsSound (drops y ks swept e) h = record {
  coherent = unsettled (sweep_map-IsCoherent y.store ks swept (at_phase (holding ks swept) e h));
  awaited = tt;
}
Sweeps-IsSound (peeks y e) h = record { coherent = at_phase peeking e h; awaited = inr refl }
Sweeps-IsSound (wakes y t e due) h = record {
  coherent = at_phase (waiting (some t)) e h;
  awaited = tt;
}
Sweeps-IsSound (is_notified y w e n) h =
    let c : IsSweeping [] 0 y.store = at_phase (waiting w) e h in
    record { coherent = record { ascending = c.ascending; covers = c.covers }; awaited = tt }

pub Reach-IsSound : {y z : System} → Reach y z → IsSound y → IsSound z
Reach-IsSound here h = h
Reach-IsSound (client r c) h = Client-IsSound c (Reach-IsSound r h)
Reach-IsSound (sweeper r s) h = Sweeps-IsSound s (Reach-IsSound r h)

-- `Store::from_parts` and the task that it spawns.
abbrev pub started : Store → ℕ → System
started s clock = record { store = s; clock = clock; phase = sweeping }

pub started-IsSound : (s : Store) (clock : ℕ) → IsCoherent s → IsSound (started s clock)
started-IsSound s clock h = record { coherent = unsettled h; awaited = tt }

pub new-IsCoherent : IsCoherent new
new-IsCoherent = record { ascending = tt; covers = λ k v t e x. cc (get-empty {V = StoreValue} k) }

-- The first entry of an ordered heap is due if any is.
first_due :
    (heap : ExpirationHeap) (t now : ℕ) (k : Key)
    → IsAscending heap
    → Has (t, k) heap
    → t ≤ now
    → (u : ℕ) × (next_expire heap ≡ some u) × (u ≤ now)
unfolding next_expire
first_due [] t now k a h due = absurd h
first_due (e ∷ heap) t now k a (inl p) due = (e.0, refl, rw (ap (λ x. x.0) p) due)
first_due (e ∷ heap) t now k (first, a) (inr h) due =
    let le : e.0 ≤ t = Has-All (λ x. e.0 ≤ x.0) (t, k) heap first h in (e.0, refl, omega arith)

expired_at :
    (v : StoreValue) (now : ℕ)
    → is_expired v now ≡ true
    → (t : ℕ) × (v.expiration_time ≡ some t) × (t ≤ now)
unfolding is_expired
expired_at v now h = ground arith

-- A waiting sweeper beside an expired entry has a notification, or its instant has come.
waiting-wakes :
    (y : System) (w : Option ℕ) (u : ℕ)
    → y.phase ≡ waiting w
    → next_expire y.store.expiration_heap ≡ some u
    → u ≤ y.clock
    → (y.store.wakeup ≡ true) ⊎ (next_expire y.store.expiration_heap ≡ w)
    → (z : System) × Sweeps y z
waiting-wakes y w u e first due (inl n) = (_, is_notified y w e n)
waiting-wakes y w u e first due (inr same) = (_, wakes y u (e ∙ ap waiting (sym same ∙ first)) due)

phase-wakes :
    (y : System) (p : Phase)
    → y.phase ≡ p
    → IsSound y
    → (k : Key) (v : StoreValue) → Map.get y.store.hashmap k ≡ some v
    → is_expired v y.clock ≡ true
    → (z : System) × Sweeps y z
phase-wakes y sweeping e h k v held old = (_, takes_due y e)
phase-wakes y (holding ks swept) e h k v held old = (_, drops y ks swept e)
phase-wakes y peeking e h k v held old = (_, peeks y e)
phase-wakes y (waiting w) e h k v held old =
    let (t, x, due) = expired_at v y.clock old in
    let c : IsSweeping [] 0 y.store = at_phase (waiting w) e h in
    elim (c.covers k v t held x) [
      | inr absent ↦ absurd absent.0
      | inl there ↦
          let (u, first, le) =
            first_due y.store.expiration_heap t y.clock k c.ascending there due in
          waiting-wakes y w u e first le
            (subst (IsAwaited y.store.wakeup y.store.expiration_heap) e h.awaited)
    ]

-- The sweeper never sleeps over an expired entry: in every state that a store whose bookkeeping holds, such
-- as a new one, its sweeper and the connections can reach, however their actions interleave, an entry of
-- the map that has expired leaves the sweeper with an action that it can take.
pub expired-wakes :
    (s : Store) (clock : ℕ)
    → IsCoherent s
    → {y : System} → Reach (started s clock) y
    → (k : Key) (v : StoreValue) → Map.get y.store.hashmap k ≡ some v
    → is_expired v y.clock ≡ true
    → (z : System) × Sweeps y z
expired-wakes s clock h {y} r =
    phase-wakes y y.phase refl (Reach-IsSound r (started-IsSound s clock h))

-- Whenever the sweeper is at the start of a round, the bookkeeping between the map and the heap holds,
-- if it held when the sweeper started, however its actions and the connections' interleave.
pub Reach-IsCoherent :
    (s : Store) (clock : ℕ)
    → IsCoherent s
    → {y : System} → Reach (started s clock) y
    → y.phase ≡ sweeping
    → IsCoherent y.store
Reach-IsCoherent s clock h {y} r e =
    settled (at_phase sweeping e (Reach-IsSound r (started-IsSound s clock h)))
