-- ===== src/Store/Snapshot.antt =====
-- The snapshot of src/store.rs: what `dump` writes of a store, and what `restore` reads back. The JSON of
-- `serde_json` is a parameter. The clocks are read anew for each entry.
mod Tests
pub mod Sample
pub mod Entries
pub mod Duplicates
pub mod Restored
pub mod Bounds
use redlike.Prelude.{
  codes, ◌≡◌, ℕ, suc, ◌+◌, ◌-◌, ◌*◌, ◌/◌, Bool, true, false, not, Option, none, some, List, [], ◌∷◌,
  ltb, leb, if◌then◌else◌, Bytes, bytes_eq, u64_max,
}
use redlike.Prelude.Result.{Result, ok, err, ◌>>=◌, map_err}
use redlike.Store.Map
use redlike.Store.Map.{HashMap}
use redlike.Store.Expirations.{ExpirationHeap, push}
use redlike.Store.{Key, StoreValue, Store, is_expired, instant_limit}
use mathlib.Core.Option

pub record SnapshotValue : Type 0 where
  pub value : Bytes
  pub expiration_time_unix : Option ℕ

pub record SnapshotEntry : Type 0 where
  pub key : Key
  pub value : SnapshotValue

pub record Snapshot : Type 0 where
  pub entries : List SnapshotEntry

pub data SnapshotError : Type 0 where
  duration_overflow duplicate_key : SnapshotError

-- `fmt::Display` for `SnapshotError`
unfoldable pub fmt : SnapshotError → Bytes
fmt duration_overflow = codes "snapshot expiration exceeds supported duration"
fmt duplicate_key = codes "snapshot contains duplicate keys"

-- What `serde_json` says of a text that it cannot read is not kept.
pub data RestoreError : Type 0 where
  invalid_snapshot : RestoreError
  invalid_data : SnapshotError → RestoreError

-- A reading of both clocks: milliseconds since the Unix epoch, and an `Instant` in nanoseconds. A system clock
-- before the epoch, at which `dump` and `restore` panic, is left out.
pub record Clocks : Type 0 where
  pub unix_millis : ℕ
  pub instant : ℕ

abbrev pub nanos_per_milli : ℕ
nanos_per_milli = 1_000_000

-- `t.saturating_duration_since(store_now).as_millis() + unix_now_millis`
unfoldable pub unix_time : Clocks → ℕ → ℕ
unix_time c t = (t - c.instant) / nanos_per_milli + c.unix_millis

-- `SnapshotValue::from(&StoreValue)`
unfoldable pub snapshot_value : Clocks → StoreValue → SnapshotValue
unfolding unix_time
snapshot_value c v = record {
  value = v.value;
  expiration_time_unix = Option.map (unix_time c) v.expiration_time;
}

-- `SnapshotValue::from(StoreValue)`
unfoldable pub owned_snapshot_value : Clocks → StoreValue → SnapshotValue
unfolding unix_time
owned_snapshot_value c v = record {
  value = v.value;
  expiration_time_unix = Option.map (unix_time c) v.expiration_time;
}

-- The filter and the map of `to_snapshot`, over the map's entries; `i` counts the entries kept.
unfoldable pub snapshot_entries :
    (ℕ → Clocks) → ℕ → ℕ → List (Key × StoreValue) → List SnapshotEntry
unfolding snapshot_value
snapshot_entries clocks now i [] = []
snapshot_entries clocks now i ((key, v) ∷ entries) =
    if is_expired v now
    then snapshot_entries clocks now i entries
    else record { key = key; value = snapshot_value (clocks i) v }
      ∷ snapshot_entries clocks now (suc i) entries

unfoldable pub to_snapshot : (ℕ → Clocks) → ℕ → Store → Snapshot
unfolding snapshot_entries
to_snapshot clocks now s = record { entries = snapshot_entries clocks now 0 s.hashmap.entries }

-- `unique_keys.insert(key)` says whether the key is new.
unfoldable pub contains_key : Key → List Key → Bool
contains_key key [] = false
contains_key key (k ∷ ks) = if bytes_eq k key then true else contains_key key ks

-- The loop over the entries that returns `DuplicateKey`.
unfoldable pub has_duplicate : List Key → List SnapshotEntry → Bool
unfolding contains_key
has_duplicate unique_keys [] = false
has_duplicate unique_keys (e ∷ entries) =
    if contains_key e.key unique_keys then true else has_duplicate (e.key ∷ unique_keys) entries

-- What the entry's expiration says at a Unix time.
unfoldable pub outlives : ℕ → Option ℕ → Bool
outlives now_unix_millis none = true
outlives now_unix_millis (some t) = ltb now_unix_millis t

-- The filter of `from_snapshot`.
unfoldable pub unexpired : ℕ → List SnapshotEntry → List SnapshotEntry
unfolding outlives
unexpired now_unix_millis [] = []
unexpired now_unix_millis (e ∷ entries) =
    if outlives now_unix_millis e.value.expiration_time_unix
    then e ∷ unexpired now_unix_millis entries
    else unexpired now_unix_millis entries

-- The closure in `StoreValue::try_from`: `u64::try_from`, and then `checked_add`.
unfoldable pub expiration_instant : Clocks → ℕ → Result ℕ SnapshotError
expiration_instant c t =
    let remaining = t - c.unix_millis in
    if ltb u64_max remaining
    then err duration_overflow
    else if leb instant_limit (c.instant + remaining * nanos_per_milli)
    then err duration_overflow
    else ok (c.instant + remaining * nanos_per_milli)

-- `StoreValue::try_from`, on the parts of the `SnapshotValue`.
unfoldable pub store_value : Clocks → Bytes → Option ℕ → Result StoreValue SnapshotError
unfolding expiration_instant
store_value c value none = ok (record { value = value; expiration_time = none })
store_value c value (some t) = do
  instant ← expiration_instant c t
  ok (record { value = value; expiration_time = some instant })

-- The map and the `collect` of `from_snapshot`, into a map that is being filled.
unfoldable pub collect_entries :
    (ℕ → Clocks)
    → ℕ
    → List SnapshotEntry
    → HashMap StoreValue
    → Result (HashMap StoreValue) SnapshotError
unfolding store_value
collect_entries clocks i [] map = ok map
collect_entries clocks i (e ∷ entries) map = do
  v ← store_value (clocks i) e.value.value e.value.expiration_time_unix
  collect_entries clocks (suc i) entries (Map.insert map e.key v)

-- The `filter_map` and the `collect` that fill the heap.
unfoldable pub push_expiration : Key → Option ℕ → ExpirationHeap → ExpirationHeap
push_expiration key none heap = heap
push_expiration key (some t) heap = push (t, key) heap

unfoldable pub collect_expirations : List (Key × StoreValue) → ExpirationHeap
unfolding push_expiration
collect_expirations [] = []
collect_expirations ((key, v) ∷ entries) =
    push_expiration key v.expiration_time (collect_expirations entries)

abbrev pub from_parts : HashMap StoreValue → ExpirationHeap → Store
from_parts hashmap expiration_heap = record {
  hashmap = hashmap;
  expiration_heap = expiration_heap;
  wakeup = false;
}

-- `now_unix_millis` is read first, `clocks i` for the entry `i` of those kept.
unfoldable pub from_snapshot : (ℕ → Clocks) → ℕ → Snapshot → Result Store SnapshotError
unfolding has_duplicate unexpired collect_entries collect_expirations
from_snapshot clocks now_unix_millis snapshot =
    if has_duplicate [] snapshot.entries then err duplicate_key else do
      hashmap ← collect_entries clocks 0 (unexpired now_unix_millis snapshot.entries) Map.empty
      ok (from_parts hashmap (collect_expirations hashmap.entries))

-- `serde_json::to_vec` and `serde_json::from_slice` at `Snapshot`.
pub record Json : Type 0 where
  pub to_vec : Snapshot → Option Bytes
  pub from_slice : Bytes → Option Snapshot

-- What was written is read back.
pub record IsFaithful (json : Json) : Type 0 where
  pub reads_back :
      (snapshot : Snapshot) (bytes : Bytes)
      → json.to_vec snapshot ≡ some bytes
      → json.from_slice bytes ≡ some snapshot

unfoldable pub dump : Json → (ℕ → Clocks) → ℕ → Store → Option Bytes
unfolding to_snapshot
dump json clocks now s = json.to_vec (to_snapshot clocks now s)

unfoldable pub restore : Json → (ℕ → Clocks) → ℕ → Bytes → Result Store RestoreError
unfolding from_snapshot
restore json clocks now_unix_millis bytes = elim (json.from_slice bytes) [
  | none ↦ err invalid_snapshot
  | some snapshot ↦ map_err invalid_data (from_snapshot clocks now_unix_millis snapshot)
]
