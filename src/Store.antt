-- ===== src/Store.antt =====
-- src/store.rs: the store that all connections share, and its sweeper's two phases. Each function is one
-- critical section: what runs while the locks that the source takes are held. `now` is what
-- `Instant::now()` returns in it, in nanoseconds.
mod Tests
pub mod Suite
pub mod Map
pub mod Expirations
pub mod View
pub mod Spec
pub mod Refinement
pub mod Due
pub mod Sweep
pub mod Settled
pub mod Sweeper
pub mod Wakeup
pub mod Promptness
pub mod Observation
pub mod Timeouts
pub mod Snapshot
use redlike.Prelude.{
  ℕ, suc, ◌+◌, ◌-◌, ◌*◌, ◌/◌, ◌^◌, Bool, true, false, Option, none, some, List, [], ◌∷◌, ltb, leb,
  if◌then◌else◌, Bytes, bytes_eq, ℤ, pos, negsuc,
}
use Map.{HashMap}
use Expirations.{ExpirationHeap, push}
use mathlib.Core.Option

abbrev pub Key : Type 0
Key = Bytes

pub record StoreValue : Type 0 where
  pub value : Bytes
  pub expiration_time : Option ℕ

-- `wakeup` is the permit that `Notify::notify_one` leaves for the sweeper: one at most is kept.
pub record Store : Type 0 where
  pub hashmap : HashMap StoreValue
  pub expiration_heap : ExpirationHeap
  pub wakeup : Bool

-- An operation that returns, or that panics and unwinds its task.
pub data Outcome {ℓ} (A : Type ℓ) : Type ℓ where
  returns : A → Outcome A
  panics : Outcome A

abbrev pub nanos_per_sec : ℕ
nanos_per_sec = 1_000_000_000

-- `Instant + Duration` panics past the last instant, whose seconds are the largest `i64`.
abbrev pub instant_limit : ℕ
instant_limit = 2 ^ 63 * nanos_per_sec

abbrev pub new : Store
new = record { hashmap = Map.empty; expiration_heap = []; wakeup = false }

-- The `i64` that a `u64` is cast to by `as`.
unfoldable pub as_i64 : ℕ → ℤ
as_i64 n = if ltb n (2 ^ 63) then pos n else negsuc (2 ^ 64 - 1 - n)

unfoldable pub is_expired : StoreValue → ℕ → Bool
is_expired v now = elim v.expiration_time [ none ↦ false | some t ↦ leb t now ]

-- The match on what the map holds at the key.
unfoldable pub live_value : Option StoreValue → ℕ → Option Bytes
unfolding is_expired
live_value none now = none
live_value (some v) now = if is_expired v now then none else some v.value

unfoldable pub get : Store → Key → ℕ → Option Bytes
unfolding live_value
get s key now = live_value (Map.get s.hashmap key) now

-- Whatever stood there is returned, expired or not, and its expiration is cleared.
unfoldable pub set : Store → Key → Bytes → Store × Option Bytes
set s key value = (
  record s {
    hashmap = Map.insert s.hashmap key (record { value = value; expiration_time = none });
  },
  Option.map (λ v. v.value) (Map.get s.hashmap key),
)

unfoldable pub del : Store → Key → ℕ → Store × Option Bytes
unfolding live_value
del s key now =
    (record s { hashmap = Map.remove s.hashmap key }, live_value (Map.get s.hashmap key) now)

-- The match on what `remove_entry` returned; `s` is the store without the entry. Past the last instant
-- the addition panics, and the entry is not put back.
unfoldable pub expire_entry : Store → Key → ℕ → ℕ → Option StoreValue → Store × Outcome ℕ
unfolding is_expired
expire_entry s key ttl now none = (s, returns 0)
expire_entry s key ttl now (some v) =
    if is_expired v now
    then (s, returns 0)
    else let expires = now + ttl * nanos_per_sec in
      if leb instant_limit expires then (s, panics) else (
        record s {
          hashmap = Map.insert s.hashmap key (record v { expiration_time = some expires });
          expiration_heap = push (expires, key) s.expiration_heap;
          wakeup = true;
        },
        returns 1,
      )

unfoldable pub expire : Store → Key → ℕ → ℕ → Store × Outcome ℕ
unfolding expire_entry
expire s key ttl now =
    expire_entry (record s { hashmap = Map.remove s.hashmap key }) key ttl now
      (Map.get s.hashmap key)

-- The match on what the map holds, -2 for nothing and -1 for no expiration.
unfoldable pub remaining : Option StoreValue → ℕ → ℤ
unfolding is_expired as_i64
remaining none now = negsuc 1
remaining (some v) now =
    if is_expired v now
    then negsuc 1
    else elim v.expiration_time [ none ↦ negsuc 0 | some t ↦ as_i64 ((t - now) / nanos_per_sec) ]

unfoldable pub ttl : Store → Key → ℕ → ℤ
unfolding remaining
ttl s key now = remaining (Map.get s.hashmap key) now

-- `HashSet::insert`, in a set that is a list without repetition.
unfoldable pub insert_candidate : Key → List Key → List Key
insert_candidate key [] = key ∷ []
insert_candidate key (k ∷ ks) = if bytes_eq k key then k ∷ ks else k ∷ insert_candidate key ks

-- `sweep_expired_once` while it holds the heap: the entries that are due leave it.
unfoldable pub take_due : ExpirationHeap → ℕ → List Key → List Key × ExpirationHeap
unfolding insert_candidate
take_due [] now candidates = (candidates, [])
take_due ((when, key) ∷ heap) now candidates =
    let due = take_due heap now (insert_candidate key candidates) in
    if leb when now then due else (candidates, (when, key) ∷ heap)

unfoldable pub sweep_heap : Store → ℕ → Store × List Key
unfolding take_due
sweep_heap s now =
    let (candidates, heap) = take_due s.expiration_heap now [] in
    (record s { expiration_heap = heap }, candidates)

-- A candidate is removed only if what the map holds by then is expired.
unfoldable pub drop_expired : Key → ℕ → HashMap StoreValue → HashMap StoreValue
unfolding is_expired
drop_expired key now map = elim (Map.get map key) [
  | none ↦ map
  | some v ↦ if is_expired v now then Map.remove map key else map
]

unfoldable pub drop_all : List Key → ℕ → HashMap StoreValue → HashMap StoreValue
unfolding drop_expired
drop_all [] now map = map
drop_all (key ∷ candidates) now map = drop_all candidates now (drop_expired key now map)

-- `sweep_expired_once` while it holds the map; `now` is the instant read in the first phase.
unfoldable pub sweep_map : Store → List Key → ℕ → Store
unfolding drop_all
sweep_map s candidates now = record s { hashmap = drop_all candidates now s.hashmap }

-- `sweep_expired_once` with nothing between its phases.
unfoldable pub sweep_expired_once : Store → ℕ → Store
unfolding sweep_heap sweep_map
sweep_expired_once s now = let (s', candidates) = sweep_heap s now in sweep_map s' candidates now
