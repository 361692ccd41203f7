-- ===== src/Archive/Loaded.antt =====
-- What `load` of src/archive.rs gives, behind a `save` and at any time.
use redlike.Prelude.{
  Option-cases, arith, ℕ, ◌≡◌, inl, inr, refl, sym, ap, ◌∙◌, none, some, All, Bytes,
}
use redlike.Prelude.Result.{Result, ok, map_err}
use redlike.Store.{Store}
use redlike.Store.Snapshot.{Json, Clocks, dump}
use redlike.Archive.{PathBuf, IoError, FileSystem, ArchiveError, write_file, save_bytes, save}
use redlike.Store.Map
use redlike.Store.{Key, StoreValue}
use redlike.Store.View.{live}
use redlike.Store.Snapshot.{IsFaithful}
use redlike.Store.Snapshot.Entries.{IsUnique}
use redlike.Store.Snapshot.Restored.{Fits, Carried, restore-dump}
use redlike.Prelude.Result.{map_err-ok}
use redlike.Archive.{load, load_contents}
use redlike.Archive.Disk.{IsFileSystem, NeverTemp}
use redlike.Archive.Saved.{save_bytes-IsAtomic}

module _ (system : FileSystem) (law : IsFileSystem system) (json : Json)
    (dumped restored : ℕ → Clocks) (now now_unix_millis : ℕ) (path : PathBuf) where
  -- What is loaded from the bytes of a dump.
  load_dumped :
      (store : Store) (bytes : Bytes) (disk : system.Disk)
      → IsFaithful json
      → IsUnique store
      → All
          (λ (x : Key × StoreValue). Fits dumped restored now now_unix_millis x.1.expiration_time)
          store.hashmap.entries
      → dump json dumped now store ≡ some bytes
      → system.read disk path ≡ ok bytes
      → (s : Store) × (load system json restored now_unix_millis path disk ≡ ok s)
        × ((k : Key)
            → Carried dumped restored now now_unix_millis none
                (live now (Map.get store.hashmap k))
                (Map.get s.hashmap k))
  unfolding load load_contents
  load_dumped store bytes disk faithful unique fits written held =
      let (s, e, carried) =
        restore-dump dumped restored now now_unix_millis json faithful store bytes unique fits
          written in
      (s, rw (held, e) refl, carried)

  -- A store that was saved with success is loaded again, as `restore-dump` says: without what has expired
  -- by then, and with the expirations of the rest as far away as the clocks say. Its keys are distinct, its
  -- expirations not too far away, no temporary file can get the archive's name, and the JSON library reads
  -- back what it writes; the file system's calls do what their documentation says.
  pub load-save :
      (store : Store) (disk disk' : system.Disk)
      → IsFaithful json
      → NeverTemp system path
      → IsUnique store
      → All
          (λ (x : Key × StoreValue). Fits dumped restored now now_unix_millis x.1.expiration_time)
          store.hashmap.entries
      → save system json dumped now path store disk ≡ (disk', ok tt)
      → (s : Store) × (load system json restored now_unix_millis path disk' ≡ ok s)
        × ((k : Key)
            → Carried dumped restored now now_unix_millis none
                (live now (Map.get store.hashmap k))
                (Map.get s.hashmap k))
  unfolding save
  load-save store disk disk' faithful never unique fits h =
      elim (Option-cases (dump json dumped now store)) [
        | inl e ↦ absurd (ground arith)
        | inr (bytes, e) ↦
            let after : system.Disk × Result (Unit {0}) IoError =
              save_bytes system path bytes disk in
            let same : ◌≡◌ {A = system.Disk × Result (Unit {0}) ArchiveError}
                (after.0, map_err write_file after.1) (disk', ok tt) =
              rw (← h) (rw (e, save) refl) in
            load_dumped store bytes disk' faithful unique fits e (
              sym (ap (λ x. system.read x.0 path) same)
              ∙ (save_bytes-IsAtomic system law path bytes never disk).saved
                  (map_err-ok write_file after.1 tt (ap (λ x. x.1) same)))
      ]
