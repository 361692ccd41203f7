-- ===== src/Store/Tests.antt =====
-- Runs of the store, as in the unit tests of src/store.rs.
use redlike.Prelude.{
  ℕ, ◌+◌, ◌-◌, ◌*◌, ◌/◌, ◌^◌, ◌≤◌, ◌↔◌, leb, if◌then◌else◌, All, pos, negsuc, bytes_eq, ◌≡◌, refl,
  false, none, some, List, [], ◌∷◌, arith, codes,
}
use redlike.Store.Map
use redlike.Store.Expirations.{push}
use redlike.Store.{
  Key, StoreValue, Store, new, set, del, expire, ttl, returns, panics, nanos_per_sec, is_expired,
  sweep_expired_once, sweep_heap, sweep_map,
}
use redlike.Store.Spec.{
  Operation, get_op, set_op, expire_op, ttl_op, sweep_op, answers, spec_answers,
}
use redlike.Store.Refinement.{answers-eq-spec_answers}
use redlike.Store.Sweep.{IsCoherent, IsSweeping}
use redlike.Store.Settled.{sweep_expired_once_complete, sweep_map-IsCoherent, sweep_heap-IsSweeping}
use redlike.Store.Sweeper.{
  System, next_expire, Sweeps, sweeping, holding, sets, expires, ticks, takes_due, drops, peeks,
  is_notified, Reach, here, client,
}
use redlike.Store.Observation.{AreIndistinguishable, indistinguishable_iff}
use redlike.Store.Timeouts.{
  IsInRange, ttl-expire, expire-panics, answers-AreInRange, new-AreInstants,
}
use redlike.Store.View.{view}
use redlike.Store.Promptness.{Run, IsFresh, Run-IsFresh}
use redlike.Store.Wakeup.{started, new-IsCoherent, expired-wakes, Reach-IsCoherent}

abbrev second : ℕ
second = 1_000_000_000

-- A key that is set, given a second, asked for, swept and asked for again.
abbrev history : List (ℕ × Operation)
history =
    (1, set_op (codes "k") (codes "v"))
    ∷ (2, expire_op (codes "k") 1)
    ∷ (3, get_op (codes "k"))
    ∷ (3 + second, sweep_op)
    ∷ (3 + second, ttl_op (codes "k"))
    ∷ []

answers-eq-spec_answers_example : answers new history ≡ spec_answers (λ k. none) history
answers-eq-spec_answers_example =
    answers-eq-spec_answers history
      (omega arith, (omega arith, (omega arith, (omega arith, (omega arith, tt)))))

-- What a store holds after the first two of these.
abbrev with_expiration : Store
with_expiration = (expire (set new (codes "k") (codes "v")).0 (codes "k") 1 2).0

abbrev held : StoreValue
held = record { value = codes "v"; expiration_time = some (2 + second) }

-- The same by the steps of a system, and the clock goes on past the expiration.
abbrev later : System
later = record { store = with_expiration; clock = 2 + 2 * second; phase = sweeping }

reached : Reach (started new 2) later
reached =
    client (client (client here (sets _ (codes "k") (codes "v"))) (expires _ (codes "k") 1))
      (ticks _ (2 * second))

later-holds : Map.get later.store.hashmap (codes "k") ≡ some held
unfolding expire set Map.get Map.empty Map.insert Map.remove Map.lookup Map.without bytes_eq
later-holds = refl

expired-wakes_example : (z : System) × Sweeps later z
unfolding is_expired
expired-wakes_example = expired-wakes new 2 new-IsCoherent reached (codes "k") held later-holds refl

Reach-IsCoherent_example : IsCoherent with_expiration
Reach-IsCoherent_example = Reach-IsCoherent new 2 new-IsCoherent reached refl

-- Swept before the second is over, the entry stays.
kept : Map.get (sweep_expired_once with_expiration 3).hashmap (codes "k") ≡ some held
unfolding sweep_expired_once expire set Map.get Map.empty Map.insert Map.remove Map.lookup
    Map.without bytes_eq push
kept = refl

sweep_expired_once_complete_example : is_expired held 3 ≡ false
sweep_expired_once_complete_example =
    sweep_expired_once_complete with_expiration 3 (codes "k") held Reach-IsCoherent_example kept

under_way :
    IsSweeping
      (sweep_heap with_expiration (2 + second)).1
      (2 + second)
      (sweep_heap with_expiration (2 + second)).0
under_way =
    sweep_heap-IsSweeping with_expiration (2 + second)
      (Reach-IsCoherent new 2 new-IsCoherent reached refl)

sweep_map-IsCoherent_example : IsCoherent (
    sweep_map
      (sweep_heap with_expiration (2 + second)).0
      (sweep_heap with_expiration (2 + second)).1
      (2 + second))
sweep_map-IsCoherent_example =
    sweep_map-IsCoherent (sweep_heap with_expiration (2 + second)).0
      (sweep_heap with_expiration (2 + second)).1 (2 + second) under_way

-- The sweeper takes the entry out, finds the heap empty, and has the notification that EXPIRE left.
abbrev swept : System
swept = record {
  store = record { hashmap = Map.empty; expiration_heap = []; wakeup = false };
  clock = 2 + 2 * second;
  phase = holding [] (2 + 2 * second);
}

run : Run later 5 swept
unfolding sweep_heap sweep_map expire set Map.get Map.empty Map.insert Map.remove Map.lookup
    Map.without bytes_eq push next_expire
run =
    Run.sweeper
      (Run.sweeper
        (Run.sweeper
          (Run.sweeper (Run.sweeper Run.idle (takes_due later refl))
            (drops _ (codes "k" ∷ []) (2 + 2 * second) refl))
          (peeks _ refl))
        (is_notified _ none refl refl))
      (takes_due _ refl)

Run-IsFresh_example : IsFresh (2 + 2 * second) swept.store.hashmap
Run-IsFresh_example = Run-IsFresh new 2 new-IsCoherent reached run (omega arith)

-- What has expired is as good as what never was.
indistinguishable_iff_example :
    AreIndistinguishable (2 + second) with_expiration new
    ↔ ((k : Key) → view with_expiration (2 + second) k ≡ view new (2 + second) k)
indistinguishable_iff_example = indistinguishable_iff (2 + second) with_expiration new

abbrev plain : Store
plain = (set new (codes "k") (codes "v")).0

gives_one : (expire plain (codes "k") 3 2).1 ≡ returns 1
unfolding expire set Map.get Map.empty Map.insert Map.remove Map.lookup Map.without bytes_eq
    is_expired
gives_one = refl

ttl-expire_example :
    (ttl (expire plain (codes "k") 3 2).0 (codes "k") (second + 5) ≡ (
      if leb (2 + 3 * nanos_per_sec) (second + 5)
      then negsuc 1
      else pos ((2 + 3 * nanos_per_sec - (second + 5)) / nanos_per_sec)))
    × ((2 + 3 * nanos_per_sec - (second + 5)) / nanos_per_sec ≤ 3)
ttl-expire_example = ttl-expire plain (codes "k") 3 2 (second + 5) gives_one (omega arith)

is_live : view plain 2 (codes "k") ≡ some (record { value = codes "v"; expiration_time = none })
unfolding view set Map.get Map.empty Map.insert Map.remove Map.lookup Map.without bytes_eq
    is_expired
is_live = refl

expire-panics_example :
    ((expire plain (codes "k") (2 ^ 63) 2).1 ≡ panics)
    × AreIndistinguishable 2 (expire plain (codes "k") (2 ^ 63) 2).0 (del plain (codes "k") 2).0
expire-panics_example =
    expire-panics plain (codes "k") (2 ^ 63) 2
      (record { value = codes "v"; expiration_time = none }) is_live (omega arith)

new-AreInRange : All IsInRange (answers new history)
new-AreInRange = answers-AreInRange history new new-AreInstants
