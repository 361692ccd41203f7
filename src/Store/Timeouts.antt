-- ===== src/Store/Timeouts.antt =====
-- EXPIRE and TTL (src/store.rs) at the edges of the clock: the last instant, and the range of an `i64`.
use redlike.Prelude.{
  ℕ, ◌+◌, ◌-◌, ◌*◌, ◌/◌, ◌^◌, ◌≤◌, ◌<◌, ◌≡◌, ◌⊎◌, inl, inr, refl, ap, Option, none, some, List, [],
  ◌∷◌, arith, leb, if◌then◌else◌, bytes_eq_iff, pos, negsuc, All, Option-cases, Bool-cases,
}
use redlike.Store.Map
use redlike.Store.Map.{HashMap, get-remove, get-insert, get-empty}
use redlike.Store.{
  Key, StoreValue, Store, Outcome, returns, panics, nanos_per_sec, instant_limit, as_i64, new,
  is_expired, set, del, expire, expire_entry, ttl, remaining, sweep_expired_once, take_due,
}
use redlike.Store.View.{view}
use redlike.Store.Settled.{drop_all-old}
use redlike.Store.Observation.{AreIndistinguishable, indistinguishable_iff}
use redlike.Store.Spec.{
  Operation, get_op, set_op, del_op, expire_op, ttl_op, sweep_op, Answer, number, perform, answers,
}

as_i64-pos : (n : ℕ) → n < 2 ^ 63 → as_i64 n ≡ pos n
unfolding as_i64
as_i64-pos n h = ground arith

seconds-lt : (t now : ℕ) → t < instant_limit → (t - now) / nanos_per_sec < 2 ^ 63
seconds-lt t now h = omega arith

expire_entry-ttl :
    (s : Store) (k : Key) (n now later : ℕ) (o : Option StoreValue)
    → (expire_entry s k n now o).1 ≡ returns 1
    → ttl (expire_entry s k n now o).0 k later ≡ (
        if leb (now + n * nanos_per_sec) later
        then negsuc 1
        else pos ((now + n * nanos_per_sec - later) / nanos_per_sec))
unfolding expire_entry ttl remaining is_expired
expire_entry-ttl s k n now later none h = ground arith
expire_entry-ttl s k n now later (some v) h = ground (
  arith,
  get-insert s.hashmap k k (record v { expiration_time = some (now + n * nanos_per_sec) }),
  bytes_eq_iff k k,
  as_i64-pos ((now + n * nanos_per_sec - later) / nanos_per_sec),
  seconds-lt (now + n * nanos_per_sec) later,
)

-- After an EXPIRE that answers 1, TTL answers at each later instant the whole seconds that are left, and -2
-- from the instant on at which none are: the cast to `i64` does not wrap, and what is left is at
-- most what EXPIRE was given.
pub ttl-expire :
    (s : Store) (k : Key) (n now later : ℕ)
    → (expire s k n now).1 ≡ returns 1
    → now ≤ later
    → (ttl (expire s k n now).0 k later ≡ (
        if leb (now + n * nanos_per_sec) later
        then negsuc 1
        else pos ((now + n * nanos_per_sec - later) / nanos_per_sec)))
      × ((now + n * nanos_per_sec - later) / nanos_per_sec ≤ n)
unfolding expire
ttl-expire s k n now later h le = (
  expire_entry-ttl (record s { hashmap = Map.remove s.hashmap k }) k n now later
      (Map.get s.hashmap k) h,
  omega arith,
)

expire_panics_at :
    (s : Store) (k : Key) (n now : ℕ) (v : StoreValue)
    → view s now k ≡ some v
    → instant_limit ≤ now + n * nanos_per_sec
    → expire s k n now ≡ (record s { hashmap = Map.remove s.hashmap k }, panics)
unfolding expire expire_entry view is_expired
expire_panics_at s k n now v h le = ground arith

-- EXPIRE of a live key panics if the expiration lies past the last instant of the clock, and the store that the
-- other tasks go on with answers every later history as if the key had been deleted.
pub expire-panics :
    (s : Store) (k : Key) (n now : ℕ) (v : StoreValue)
    → view s now k ≡ some v
    → instant_limit ≤ now + n * nanos_per_sec
    → ((expire s k n now).1 ≡ panics)
      × AreIndistinguishable now (expire s k n now).0 (del s k now).0
unfolding del view
expire-panics s k n now v h le =
    let e : expire s k n now ≡ (record s { hashmap = Map.remove s.hashmap k }, panics) =
      expire_panics_at s k n now v h le in
    (
      ap (λ r. r.1) e,
      (indistinguishable_iff now (expire s k n now).0 (del s k now).0).1
          (λ j. ap (λ (r : Store × Outcome ℕ). view r.0 now j) e),
    )

-- Each expiration is an instant of the clock.
abbrev pub AreInstants : HashMap StoreValue → Type 0
AreInstants m =
    (k : Key) (v : StoreValue) (t : ℕ)
    → Map.get m k ≡ some v
    → v.expiration_time ≡ some t
    → t < instant_limit

-- -2, -1, or what an `i64` holds.
abbrev pub IsInRange : Answer → Type 0
IsInRange (number z) = (z ≡ negsuc 1) ⊎ (z ≡ negsuc 0) ⊎ ((m : ℕ) × (z ≡ pos m) × (m < 2 ^ 63))
IsInRange _ = Unit

remaining-IsInRange :
    (o : Option StoreValue) (now : ℕ)
    → ((v : StoreValue) (t : ℕ) → o ≡ some v → v.expiration_time ≡ some t → t < instant_limit)
    → IsInRange (number (remaining o now))
unfolding remaining
remaining-IsInRange none now h = inl refl
remaining-IsInRange (some v) now h = elim (Bool-cases (is_expired v now)) [
  | inl old ↦ rw old (inl refl)
  | inr fresh ↦ elim (Option-cases v.expiration_time) [
    | inl e ↦ rw (fresh, e) (inr (inl refl))
    | inr (t, e) ↦
        let lt : (t - now) / nanos_per_sec < 2 ^ 63 = seconds-lt t now (h v t refl e) in
        rw (fresh, e)
          (inr (inr ((t - now) / nanos_per_sec, as_i64-pos ((t - now) / nanos_per_sec) lt, lt)))
  ]
]

AreInstants-remove :
    (m : HashMap StoreValue) (k : Key) → AreInstants m → AreInstants (Map.remove m k)
AreInstants-remove m k h j v t e x = h j v t (ground (arith, get-remove m k j)) x

AreInstants-expire_entry :
    (s : Store) (k : Key) (n now : ℕ) (o : Option StoreValue)
    → AreInstants s.hashmap
    → AreInstants (expire_entry s k n now o).0.hashmap
unfolding expire_entry
AreInstants-expire_entry s k n now none h = h
AreInstants-expire_entry s k n now (some v) h = λ j w t e x. ground (
  arith,
  h j w t,
  get-insert s.hashmap k j (record v { expiration_time = some (now + n * nanos_per_sec) }),
)

perform-AreInstants :
    (s : Store) (now : ℕ) (op : Operation)
    → AreInstants s.hashmap
    → AreInstants (perform s now op).0.hashmap
unfolding perform set del expire sweep_expired_once
perform-AreInstants s now (get_op k) h = h
perform-AreInstants s now (set_op k b) h = λ j v t e x.
    h j v t
      (ground (arith, get-insert s.hashmap k j (record { value = b; expiration_time = none }))) x
perform-AreInstants s now (del_op k) h = AreInstants-remove s.hashmap k h
perform-AreInstants s now (expire_op k n) h =
    AreInstants-expire_entry (record s { hashmap = Map.remove s.hashmap k }) k n now
      (Map.get s.hashmap k) (AreInstants-remove s.hashmap k h)
perform-AreInstants s now (ttl_op k) h = h
perform-AreInstants s now sweep_op h =
    λ k v t e x. h k v t (drop_all-old (take_due s.expiration_heap now []).0 k now s.hashmap v e) x

perform-IsInRange :
    (s : Store) (now : ℕ) (op : Operation) → AreInstants s.hashmap → IsInRange (perform s now op).1
unfolding perform ttl
perform-IsInRange s now (get_op k) h = tt
perform-IsInRange s now (set_op k b) h = tt
perform-IsInRange s now (del_op k) h = tt
perform-IsInRange s now (expire_op k n) h = tt
perform-IsInRange s now (ttl_op k) h =
    remaining-IsInRange (Map.get s.hashmap k) now (λ v t e x. h k v t e x)
perform-IsInRange s now sweep_op h = tt

-- From a store whose expirations are instants of the clock, over any history of operations and sweeps at any
-- instants, TTL answers -2, -1, or a number of seconds that fits in an `i64`: its cast never
-- wraps round to a negative number that would mean something else.
pub answers-AreInRange :
    (history : List (ℕ × Operation)) (s : Store)
    → AreInstants s.hashmap
    → All IsInRange (answers s history)
unfolding answers
answers-AreInRange [] s h = tt
answers-AreInRange ((now, op) ∷ history) s h = (
  perform-IsInRange s now op h,
  answers-AreInRange history (perform s now op).0 (perform-AreInstants s now op h),
)

pub new-AreInstants : AreInstants new.hashmap
new-AreInstants k v t e x = cc (get-empty {V = StoreValue} k)
