-- ===== src/Archive.antt =====
-- src/archive.rs: the store on disk. The file system, of `tokio::fs` and `tempfile`, is a parameter: each
-- of its calls may fail, and may change the disk when it fails.
mod Tests
pub mod Code
pub mod Suite
pub mod Disk
pub mod Files
pub mod Saved
pub mod Loaded
use redlike.Prelude.{
  codes, ℕ, Bool, true, false, not, ◌&&◌, Option, none, some, List, [], ◌∷◌, if◌then◌else◌, Bytes,
}
use redlike.Prelude.Result.{Result, ok, err, map_err}
pub use redlike.Error.{IoError, not_found, other}
use redlike.Store
use redlike.Store.{Store}
use redlike.Store.Snapshot.{Json, Clocks, RestoreError, dump, restore}
use mathlib.Core.Option

-- A path by its components, as `std::path::Path` reads it.
pub record PathBuf : Type 0 where
  pub absolute : Bool
  pub components : List Bytes

drop_last : List Bytes → List Bytes
drop_last [] = []
drop_last (c ∷ []) = []
drop_last (c ∷ d ∷ cs) = c ∷ drop_last (d ∷ cs)

-- `Path::parent`: the root and the empty path have none.
unfoldable pub parent : PathBuf → Option PathBuf
unfolding drop_last
parent path = elim path.components [
  | [] ↦ none
  | c ∷ cs ↦ some (record path { components = drop_last (c ∷ cs) })
]

-- `path.as_os_str().is_empty()`
unfoldable pub is_empty : PathBuf → Bool
is_empty path = elim path.components [ [] ↦ not path.absolute | c ∷ cs ↦ false ]

-- `Path::new(".")`
abbrev pub here : PathBuf
here = record { absolute = false; components = (b'.' ∷ []) ∷ [] }

-- `path.parent().unwrap_or(Path::new("."))`
unfoldable pub directory : PathBuf → PathBuf
directory path = elim (parent path) [ none ↦ here | some p ↦ p ]

pub data ArchiveError : Type 0 where
  read_file : IoError → ArchiveError
  invalid_archive : RestoreError → ArchiveError
  invalid_store : ArchiveError
  write_file : IoError → ArchiveError

-- `fmt::Display` for `ArchiveError`: the cause is not shown.
unfoldable pub fmt : ArchiveError → Bytes
fmt (read_file e) = codes "Unable to read archive file"
fmt (write_file e) = codes "Unable to write to archive file"
fmt (invalid_archive e) = codes "Invalid archive format"
fmt invalid_store = codes "Unable to serialize store"

-- The calls: `fs::read`, `exists`, `tempfile_in`, `write_all`, `sync_all`, `rename`, the opening of a
-- directory and its `sync_all`, and the end of a temporary file's life, which unlinks its path.
pub record FileSystem : Type 1 where
  pub Disk : Type 0
  pub read : Disk → PathBuf → Result Bytes IoError
  pub exists : Disk → PathBuf → Bool
  pub tempfile_in : PathBuf → Disk → Disk × Result PathBuf IoError
  pub write_all : PathBuf → Bytes → Disk → Disk × Result (Unit {0}) IoError
  pub sync_all : PathBuf → Disk → Disk × Result (Unit {0}) IoError
  pub rename : PathBuf → PathBuf → Disk → Disk × Result (Unit {0}) IoError
  pub sync_dir : PathBuf → Disk → Disk × Result (Unit {0}) IoError
  pub drop_temp : PathBuf → Disk → Disk

module _ (system : FileSystem) where
  -- The question mark: an error ends the function, and what `cleanup` drops on the way out.
  abbrev pub and_then :
      {A B : Type 0}
      → system.Disk × Result A IoError
      → (system.Disk → system.Disk)
      → (A → system.Disk → system.Disk × Result B IoError)
      → system.Disk × Result B IoError
  and_then (disk, ok a) cleanup rest = rest a disk
  and_then (disk, err e) cleanup rest = (cleanup disk, err e)

  -- `rename(temp_archive.into_temp_path(), &path).await?`: the temporary path is dropped behind it.
  unfoldable pub rename_temp :
      PathBuf → PathBuf → system.Disk → system.Disk × Result (Unit {0}) IoError
  rename_temp temp path disk =
      let (disk', result) = system.rename temp path disk in (system.drop_temp temp disk', result)

  -- The temporary file is written, synced and renamed; its directory is synced, on Unix.
  unfoldable pub write_temp :
      PathBuf → PathBuf → Bytes → PathBuf → system.Disk → system.Disk × Result (Unit {0}) IoError
  unfolding rename_temp
  write_temp path dir bytes temp disk =
      and_then (system.write_all temp bytes disk) (system.drop_temp temp) λ _ disk.
        and_then (system.sync_all temp disk) (system.drop_temp temp) λ _ disk.
          and_then (rename_temp temp path disk) (λ d. d) λ _ disk. system.sync_dir dir disk

  unfoldable pub save_bytes :
      PathBuf → Bytes → system.Disk → system.Disk × Result (Unit {0}) IoError
  unfolding write_temp
  save_bytes path bytes disk =
      and_then (system.tempfile_in (directory path) disk) (λ d. d)
        (write_temp path (directory path) bytes)

  unfoldable pub save :
      Json
      → (ℕ → Clocks)
      → ℕ
      → PathBuf
      → Store
      → system.Disk
      → system.Disk × Result (Unit {0}) ArchiveError
  unfolding save_bytes
  save json clocks now path store disk = elim (dump json clocks now store) [
    | none ↦ (disk, err invalid_store)
    | some bytes ↦
        let (disk', result) = save_bytes path bytes disk in (disk', map_err write_file result)
  ]

  -- The parent is named, but does not exist.
  unfoldable pub parent_is_missing : system.Disk → Option PathBuf → Bool
  unfolding is_empty
  parent_is_missing disk none = false
  parent_is_missing disk (some dir) = not (is_empty dir) && not (system.exists disk dir)

  -- The match on `fs::read`.
  unfoldable pub load_contents :
      Json
      → (ℕ → Clocks)
      → ℕ
      → PathBuf
      → system.Disk
      → Result Bytes IoError
      → Result Store ArchiveError
  unfolding parent_is_missing
  load_contents json clocks unix path disk (ok contents) =
      map_err invalid_archive (restore json clocks unix contents)
  load_contents json clocks unix path disk (err not_found) =
      if parent_is_missing disk (parent path) then err (read_file not_found) else ok Store.new
  load_contents json clocks unix path disk (err other) = err (read_file other)

  unfoldable pub load : Json → (ℕ → Clocks) → ℕ → PathBuf → system.Disk → Result Store ArchiveError
  unfolding load_contents
  load json clocks unix path disk = load_contents json clocks unix path disk (system.read disk path)
