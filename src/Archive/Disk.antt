-- ===== src/Archive/Disk.antt =====
-- What the documentation of `tokio::fs` and `tempfile` promises of each call, in src/archive.rs.
use redlike.Prelude.{◌≡◌, ◌≢◌, [], ◌++◌, Bytes}
use redlike.Prelude.Result.{ok, err}
use redlike.Archive.{PathBuf, IoError, not_found, FileSystem}

module _ (system : FileSystem) where
  -- A new disk holds at a path what the old one holds.
  abbrev pub Keeps : system.Disk → system.Disk → PathBuf → Type 0
  Keeps disk disk' q = system.read disk' q ≡ system.read disk q

  -- A temporary file gets a path at which there is nothing, and is empty; a call on a file leaves the
  -- other files alone; `rename` replaces the file at its destination at once, or nothing is changed.
  pub record IsFileSystem : Type 0 where
    pub temp_is_new :
        (dir : PathBuf) (disk disk' : system.Disk) (temp : PathBuf)
        → system.tempfile_in dir disk ≡ (disk', ok temp)
        → (system.read disk temp ≡ err not_found) × (system.read disk' temp ≡ ok [])
    pub temp_keeps :
        (dir : PathBuf) (disk disk' : system.Disk) (temp q : PathBuf)
        → system.tempfile_in dir disk ≡ (disk', ok temp)
        → temp ≢ q
        → Keeps disk disk' q
    pub temp_fails :
        (dir : PathBuf) (disk disk' : system.Disk) (e : IoError) (q : PathBuf)
        → system.tempfile_in dir disk ≡ (disk', err e)
        → Keeps disk disk' q
    pub write_appends :
        (temp : PathBuf) (bytes old : Bytes) (disk disk' : system.Disk)
        → system.read disk temp ≡ ok old
        → system.write_all temp bytes disk ≡ (disk', ok tt)
        → system.read disk' temp ≡ ok (old ++ bytes)
    pub write_keeps :
        (temp : PathBuf) (bytes : Bytes) (disk : system.Disk) (q : PathBuf)
        → temp ≢ q
        → Keeps disk (system.write_all temp bytes disk).0 q
    pub sync_keeps :
        (temp : PathBuf) (disk : system.Disk) (q : PathBuf)
        → Keeps disk (system.sync_all temp disk).0 q
    pub sync_dir_keeps :
        (dir : PathBuf) (disk : system.Disk) (q : PathBuf)
        → Keeps disk (system.sync_dir dir disk).0 q
    pub rename_moves :
        (temp path : PathBuf) (disk disk' : system.Disk)
        → system.rename temp path disk ≡ (disk', ok tt)
        → system.read disk' path ≡ system.read disk temp
    pub rename_keeps :
        (temp path : PathBuf) (disk : system.Disk) (q : PathBuf)
        → temp ≢ q
        → path ≢ q
        → Keeps disk (system.rename temp path disk).0 q
    pub rename_fails :
        (temp path : PathBuf) (disk disk' : system.Disk) (e : IoError) (q : PathBuf)
        → system.rename temp path disk ≡ (disk', err e)
        → Keeps disk disk' q
    pub drop_keeps :
        (temp : PathBuf) (disk : system.Disk) (q : PathBuf)
        → temp ≢ q
        → Keeps disk (system.drop_temp temp disk) q

  -- The names that `tempfile_in` invents, `archive.`, six letters and `.tmp`, do not collide with a path.
  abbrev pub NeverTemp : PathBuf → Type 0
  NeverTemp q =
      (dir : PathBuf) (disk disk' : system.Disk) (temp : PathBuf)
      → system.tempfile_in dir disk ≡ (disk', ok temp)
      → temp ≢ q
