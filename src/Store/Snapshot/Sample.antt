-- ===== src/Store/Snapshot/Sample.antt =====
-- A store to dump and restore as the unit tests of src/store.rs do, and a small encoding of snapshots.
use redlike.Prelude.{
  ℕ, ◌≡◌, refl, Option, none, some, List, [], ◌∷◌, ◌++◌, arith, All, Bytes, bytes_eq, codes,
}
use redlike.Store.Map
use redlike.Store.{Key, StoreValue, Store, new, set, expire}
use redlike.Store.Spec.{set_op, expire_op, perform}
use redlike.Store.Snapshot.{
  SnapshotEntry, Snapshot, Clocks, Json, IsFaithful, to_snapshot, unix_time, dump,
}
use redlike.Store.Snapshot.Entries.{IsUnique, perform-IsUnique}
use redlike.Store.Snapshot.Restored.{Fits}

-- An encoding of the snapshots with one entry of one byte, whose expiration may follow.
unfoldable pub entry_bytes : Bytes → Bytes → Option ℕ → Option Bytes
entry_bytes (k ∷ []) (v ∷ []) (some t) = some (k ∷ v ∷ t ∷ [])
entry_bytes (k ∷ []) (v ∷ []) none = some (k ∷ v ∷ [])
entry_bytes _ _ _ = none

unfoldable pub entries_bytes : List SnapshotEntry → Option Bytes
unfolding entry_bytes
entries_bytes (e ∷ []) = entry_bytes e.key e.value.value e.value.expiration_time_unix
entries_bytes _ = none

abbrev pub entry : Bytes → Bytes → Option ℕ → SnapshotEntry
entry k v t = record { key = k; value = record { value = v; expiration_time_unix = t } }

unfoldable pub read_bytes : Bytes → Option Snapshot
read_bytes (k ∷ v ∷ t ∷ []) = some (record { entries = entry (k ∷ []) (v ∷ []) (some t) ∷ [] })
read_bytes (k ∷ v ∷ []) = some (record { entries = entry (k ∷ []) (v ∷ []) none ∷ [] })
read_bytes _ = none

abbrev pub json : Json
json = record { to_vec = λ snapshot. entries_bytes snapshot.entries; from_slice = read_bytes }

reads_entry :
    (k v : Bytes) (t : Option ℕ) (bytes : Bytes)
    → entry_bytes k v t ≡ some bytes
    → read_bytes bytes ≡ some (record { entries = entry k v t ∷ [] })
unfolding entry_bytes
reads_entry (k ∷ []) (v ∷ []) (some t) bytes h = unfold read_bytes in ground arith
reads_entry (k ∷ []) (v ∷ []) none bytes h = unfold read_bytes in ground arith
reads_entry (k ∷ []) [] t bytes h = cc
reads_entry (k ∷ []) (_ ∷ _ ∷ _) t bytes h = cc
reads_entry [] v t bytes h = cc
reads_entry (_ ∷ _ ∷ _) v t bytes h = cc

reads_entries :
    (entries : List SnapshotEntry) (bytes : Bytes)
    → entries_bytes entries ≡ some bytes
    → read_bytes bytes ≡ some (record { entries = entries })
unfolding entries_bytes
reads_entries [] bytes h = cc
reads_entries (e ∷ []) bytes h =
    reads_entry e.key e.value.value e.value.expiration_time_unix bytes h
reads_entries (_ ∷ _ ∷ _) bytes h = cc

pub json-IsFaithful : IsFaithful json
json-IsFaithful = record { reads_back = λ snapshot bytes h. reads_entries snapshot.entries bytes h }

-- A second to live, a moment of it gone at the dump, and half a second at the restoration.
abbrev pub kept : Store
kept = (perform (perform new 1 (set_op (codes "k") (codes "v"))).0 2 (expire_op (codes "k") 1)).0

abbrev pub at_dump : ℕ → Clocks
at_dump i = record { unix_millis = 1000; instant = 3 }

abbrev pub at_restore : ℕ → Clocks
at_restore i = record { unix_millis = 1500; instant = 7 }

pub kept-IsUnique : IsUnique kept
kept-IsUnique =
    perform-IsUnique (perform new 1 (set_op (codes "k") (codes "v"))).0 2 (expire_op (codes "k") 1)
      (perform-IsUnique new 1 (set_op (codes "k") (codes "v")) (unfold Map.empty in tt))

pub kept-Fits :
    All
      (λ (x : Key × StoreValue). Fits at_dump at_restore 3 1500 x.1.expiration_time)
      kept.hashmap.entries
unfolding perform set expire Map.empty Map.get Map.insert Map.remove Map.lookup Map.without bytes_eq
    unix_time
kept-Fits = ((λ i j. (omega arith, omega arith)), tt)

pub written : dump json at_dump 3 kept ≡ some (codes "kv" ++ 1999 ∷ [])
unfolding dump perform set expire Map.empty Map.get Map.insert Map.remove Map.lookup Map.without
    bytes_eq to_snapshot entries_bytes
written = refl
