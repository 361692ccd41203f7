-- ===== src/Server.antt =====
-- src/server.rs: the task that accepts connections, and what it does when it is told to shut down. The
-- tasks that it spawns act on the store between its own steps.
mod Tests
pub mod Shutdown
pub mod Restart
pub mod Ending
pub mod Continued
use redlike.Archive
use redlike.Prelude.{Bytes, codes, ℕ, suc, ◌+◌, ◌≤◌, ◌≡◌, Option, none, some, List, [], ◌∷◌, ◌++◌}
use redlike.Prelude.Result.{Result, ok, err, map_err, ◌>>=◌}
use redlike.Store
use redlike.Store.{Key, Store, sweep_heap, sweep_map}
use redlike.Store.Spec.{Operation, perform}
use redlike.Store.Snapshot.{Json, Clocks}
use redlike.Archive.{PathBuf, ArchiveError, IoError, FileSystem, load, save}

-- `InvalidAuthFile` and `UnreadableAuthFile` are declared, but nothing raises them.
pub data ServerError : Type 0 where
  io : IoError → ServerError
  archive : ArchiveError → ServerError
  invalid_auth_file : ServerError
  unreadable_auth_file : IoError → ServerError

-- `impl From<std::io::Error> for ServerError`
abbrev from_io_error : IoError → ServerError
from_io_error value = io value

-- `impl From<ArchiveError> for ServerError`
abbrev from_archive_error : ArchiveError → ServerError
from_archive_error value = archive value

-- `fmt::Display` for `ServerError`; the operating system's own words are a parameter.
unfoldable pub fmt : (IoError → Bytes) → ServerError → Bytes
fmt show (io e) = codes "Server IO Error " ++ show e
fmt show (archive e) = codes "Archive Error " ++ Archive.fmt e
fmt show invalid_auth_file = codes "Password file contains unsupported contents"
fmt show (unreadable_auth_file e) = codes "Unreadable or missing password file - " ++ show e

-- Where `server_from_listener` stands: in its `select!`, in the drain that ends at a deadline, behind
-- `abort_all`, before the archive is saved, or returned.
pub data Phase : Type 0 where
  accepting : Phase
  draining : ℕ → Phase
  aborting : Phase
  archiving : Phase
  finished : Result (Unit {0}) ServerError → Phase

-- Three seconds, in nanoseconds.
abbrev pub drain_timeout : ℕ
drain_timeout = 3_000_000_000

module _ (system : FileSystem) (json : Json) where
  -- `open_connections` holds a number for each task, `spawned` is the next one, and `aborted` holds those that
  -- `abort_all` was called on.
  pub record Server : Type 0 where
    pub archive_path : Option PathBuf
    pub store : Store
    pub disk : system.Disk
    pub open_connections : List ℕ
    pub spawned : ℕ
    pub aborted : List ℕ
    pub clock : ℕ
    pub phase : Phase

  -- What is done when no connection is left.
  unfoldable pub archive_store :
      Option PathBuf
      → (ℕ → Clocks)
      → ℕ
      → Store
      → system.Disk
      → system.Disk × Result (Unit {0}) ServerError
  archive_store none clocks now store disk = (disk, ok tt)
  archive_store (some path) clocks now store disk =
      let (disk', result) = save system json clocks now path store disk in
      (disk', map_err from_archive_error result)

  -- The steps of `server_from_listener`.
  pub data Serves : Server → Server → Type 0 where
    accepts :
        (y : Server)
        → y.phase ≡ accepting
        → Serves y (record y {
          open_connections = y.spawned ∷ y.open_connections;
          spawned = suc y.spawned;
        })
    accept_fails : (y : Server) → y.phase ≡ accepting → Serves y y
    is_cancelled :
        (y : Server)
        → y.phase ≡ accepting
        → Serves y (record y { phase = draining (y.clock + drain_timeout) })
    is_drained :
        (y : Server) (deadline : ℕ)
        → y.phase ≡ draining deadline
        → y.open_connections ≡ []
        → Serves y (record y { phase = archiving })
    times_out :
        (y : Server) (deadline : ℕ)
        → y.phase ≡ draining deadline
        → deadline ≤ y.clock
        → Serves y (record y { phase = aborting; aborted = y.open_connections })
    is_aborted :
        (y : Server)
        → y.phase ≡ aborting
        → y.open_connections ≡ []
        → Serves y (record y { phase = archiving })
    archives :
        (y : Server) (clocks : ℕ → Clocks)
        → y.phase ≡ archiving
        → Serves y (record y {
          disk = (archive_store y.archive_path clocks y.clock y.store y.disk).0;
          phase = finished (archive_store y.archive_path clocks y.clock y.store y.disk).1;
        })

  -- What goes on beside it: a task that is open changes the store, or ends, an aborted one where it next waits; the sweeper takes what is due from
  -- the heap, and drops candidates from the map; time goes by.
  pub data Tasks : Server → Server → Type 0 where
    operates :
        (y : Server) (before after : List ℕ) (task now : ℕ) (op : Operation)
        → y.open_connections ≡ before ++ task ∷ after
        → Tasks y (record y { store = (perform y.store now op).0 })
    ends :
        (y : Server) (before after : List ℕ) (task : ℕ)
        → y.open_connections ≡ before ++ task ∷ after
        → Tasks y (record y { open_connections = before ++ after })
    takes_due : (y : Server) → Tasks y (record y { store = (sweep_heap y.store y.clock).0 })
    drops :
        (y : Server) (candidates : List Key) (swept : ℕ)
        → swept ≤ y.clock
        → Tasks y (record y { store = sweep_map y.store candidates swept })
    ticks : (y : Server) (n : ℕ) → Tasks y (record y { clock = y.clock + n })

  pub data Reach (y : Server) : Server → Type 0 where
    here : Reach y y
    serves : {z w : Server} → Reach y z → Serves z w → Reach y w
    tasks : {z w : Server} → Reach y z → Tasks z w → Reach y w

  -- `server_from_listener`, at its start.
  abbrev pub server_from_listener : Option PathBuf → Store → system.Disk → ℕ → Server
  server_from_listener archive_path store disk clock = record {
    archive_path = archive_path;
    store = store;
    disk = disk;
    open_connections = [];
    spawned = 0;
    aborted = [];
    clock = clock;
    phase = accepting;
  }

  -- The store that `run_server` starts with.
  unfoldable pub initial_store :
      Option PathBuf → (ℕ → Clocks) → ℕ → system.Disk → Result Store ServerError
  initial_store none clocks unix disk = ok Store.new
  initial_store (some path) clocks unix disk =
      map_err archive (load system json clocks unix path disk)

  -- `run_server`, once the listener is bound or not.
  unfoldable pub run_server :
      Result (Unit {0}) IoError
      → Option PathBuf
      → (ℕ → Clocks)
      → ℕ
      → ℕ
      → system.Disk
      → Result Server ServerError
  unfolding initial_store
  run_server (err e) archive_path clocks unix clock disk = err (from_io_error e)
  run_server (ok tt) archive_path clocks unix clock disk = do
    store ← initial_store archive_path clocks unix disk
    ok (server_from_listener archive_path store disk clock)
