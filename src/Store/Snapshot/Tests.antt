-- ===== src/Store/Snapshot/Tests.antt =====
-- A store that is dumped and restored, as in the unit tests of src/store.rs.
use redlike.Store.Snapshot.Duplicates.{from_snapshot-duplicate_key}
use redlike.Prelude.{◌+◌, ◌*◌, ◌≡◌, refl, none, some, [], ◌∷◌, ◌++◌, bytes_eq, codes, All}
use redlike.Prelude.Result.{ok, err}
use redlike.Store.Map
use redlike.Store.Expirations.{push}
use redlike.Store.{Key, StoreValue, Store, set, expire}
use redlike.Store.View.{live}
use redlike.Store.Spec.{ttl_op, answers, perform}
use redlike.Store.Sweep.{IsCoherent}
use redlike.Store.Snapshot.{duplicate_key, from_parts, to_snapshot, from_snapshot, restore}
use redlike.Store.Snapshot.Entries.{from_snapshot-IsCoherent}
use redlike.Store.Snapshot.Bounds.{restore-AreInRange}
use redlike.Store.Timeouts.{IsInRange}
use redlike.Store.Snapshot.Restored.{Carried, restore-dump}
use redlike.Store.Snapshot.Sample.{
  entry, read_bytes, json, json-IsFaithful, kept, at_dump, at_restore, kept-IsUnique, kept-Fits,
  written,
}

restore-dump_example :
    (s : Store) × (restore json at_restore 1500 (codes "kv" ++ 1999 ∷ []) ≡ ok s)
    × ((k : Key)
        → Carried at_dump at_restore 3 1500 none
            (live 3 (Map.get kept.hashmap k))
            (Map.get s.hashmap k))
restore-dump_example =
    restore-dump at_dump at_restore 3 1500 json json-IsFaithful kept (codes "kv" ++ 1999 ∷ [])
      kept-IsUnique kept-Fits written

abbrev restored_value : StoreValue
restored_value = record { value = codes "v"; expiration_time = some (7 + 499 * 1_000_000) }

abbrev restored_store : Store
restored_store =
    from_parts (Map.insert Map.empty (codes "k") restored_value)
      ((7 + 499 * 1_000_000, codes "k") ∷ [])

reads : from_snapshot at_restore 1500 (to_snapshot at_dump 3 kept) ≡ ok restored_store
unfolding from_snapshot to_snapshot perform set expire Map.empty Map.get Map.insert Map.remove
    Map.lookup Map.without bytes_eq push
reads = refl

from_snapshot-IsCoherent_example : IsCoherent restored_store
from_snapshot-IsCoherent_example =
    from_snapshot-IsCoherent at_restore 1500 (to_snapshot at_dump 3 kept) restored_store reads

from_snapshot-duplicate_key_example :
    from_snapshot at_restore 1500 (record {
      entries =
          entry (codes "k") (codes "v") (some 9) ∷ ([] ++ entry (codes "k") (codes "w") none ∷ []);
    })
    ≡ err duplicate_key
from_snapshot-duplicate_key_example =
    from_snapshot-duplicate_key at_restore 1500 [] [] [] (entry (codes "k") (codes "v") (some 9))
      (entry (codes "k") (codes "w") none) refl

restores : restore json at_restore 1500 (codes "kv" ++ 1999 ∷ []) ≡ ok restored_store
unfolding restore Map.empty Map.insert Map.without bytes_eq push read_bytes
restores = refl

restore-AreInRange_example : All IsInRange (answers restored_store ((8, ttl_op (codes "k")) ∷ []))
restore-AreInRange_example =
    restore-AreInRange json at_restore 1500 (codes "kv" ++ 1999 ∷ []) restored_store restores
      ((8, ttl_op (codes "k")) ∷ [])
