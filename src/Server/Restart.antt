-- ===== src/Server/Restart.antt =====
-- A server that is started again on the disk that another has left.
use redlike.Prelude.{ℕ, ◌≡◌, refl, none, some, All}
use redlike.Prelude.Result.{ok}
use redlike.Store.Map
use redlike.Store.{Key, Store, StoreValue}
use redlike.Store.View.{live}
use redlike.Store.Snapshot.{Json, Clocks, IsFaithful}
use redlike.Store.Snapshot.Restored.{Fits, Carried}
use redlike.Archive.{PathBuf, FileSystem}
use redlike.Archive.Disk.{IsFileSystem, NeverTemp}
use redlike.Archive.Loaded.{load-save}
use redlike.Server.{Server, initial_store, run_server, server_from_listener}
use redlike.Server.Shutdown.{IsArchived}

-- Started again with the archive that it has left, the server has the entries of its store that were live
-- when it was archived and have not expired since, with expirations as far away as the clocks say, if
-- these are not too far away. No temporary file can get the archive's name, and the JSON library reads
-- back what it writes; the file system's calls do what their documentation says.
pub run_server-IsArchived :
    (system : FileSystem) (law : IsFileSystem system) (json : Json) (restored : ℕ → Clocks)
    (now_unix_millis clock : ℕ) (path : PathBuf) (y : Server system json)
    (a : IsArchived system json path y)
    → IsFaithful json
    → NeverTemp system path
    → All
        (λ (x : Key × StoreValue). Fits a.clocks restored a.now now_unix_millis x.1.expiration_time)
        a.store.hashmap.entries
    → (s : Store) × (run_server system json
          (ok tt)
          (some path)
          restored
          now_unix_millis
          clock
          y.disk
        ≡ ok (server_from_listener system json (some path) s y.disk clock))
      × ((k : Key)
          → Carried a.clocks restored a.now now_unix_millis none
              (live a.now (Map.get a.store.hashmap k))
              (Map.get s.hashmap k))
unfolding run_server
run_server-IsArchived system law json restored unix clock path y a faithful never fits =
    let (s, e, carried) =
      load-save system law json a.clocks restored a.now unix path a.store a.disk y.disk faithful
        never a.unique fits a.saved in
    (s, rw (e, initial_store) refl, carried)
