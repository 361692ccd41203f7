-- ===== src/Archive/Tests.antt =====
-- A store that is saved and loaded, as in the unit tests of src/archive.rs.
use redlike.Store.Snapshot.Sample.{
  entries_bytes, json, json-IsFaithful, kept, at_dump, at_restore, kept-IsUnique, kept-Fits,
}
use redlike.Prelude.{◌≡◌, refl, none, bytes_eq, codes}
use redlike.Prelude.Result.{ok}
use redlike.Store.Map
use redlike.Store.{Key, Store, expire, set}
use redlike.Store.Spec.{perform}
use redlike.Store.View.{live}
use redlike.Store.Snapshot.{dump}
use redlike.Store.Snapshot.Restored.{Carried}
use redlike.Archive.{save_bytes, save, load}
use redlike.Archive.Files.{
  archive, blank, archive-NeverTemp, Files, files, files-IsFileSystem, components_eq, path_eq,
  update, create, append, move,
}
use redlike.Archive.Saved.{IsAtomic, save_bytes-IsAtomic}
use redlike.Archive.Loaded.{load-save}

save_bytes-IsAtomic_example :
    IsAtomic files archive (codes "{}") blank (save_bytes files archive (codes "{}") blank)
save_bytes-IsAtomic_example =
    save_bytes-IsAtomic files files-IsFileSystem archive (codes "{}") archive-NeverTemp blank

abbrev saved : Files
saved = (save files json at_dump 3 archive kept blank).0

saves : save files json at_dump 3 archive kept blank ≡ (saved, ok tt)
unfolding save dump entries_bytes perform expire Map.get set Map.insert bytes_eq Map.remove
    Map.empty create append update path_eq components_eq move
saves = refl

load-save_example :
    (s : Store) × (load files json at_restore 1500 archive saved ≡ ok s)
    × ((k : Key)
        → Carried at_dump at_restore 3 1500 none
            (live 3 (Map.get kept.hashmap k))
            (Map.get s.hashmap k))
load-save_example =
    load-save files files-IsFileSystem json at_dump at_restore 3 1500 archive kept blank saved
      json-IsFaithful archive-NeverTemp kept-IsUnique kept-Fits saves
