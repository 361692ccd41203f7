-- ===== src/Archive/Suite.antt =====
-- The unit tests of src/archive.rs, each as what it asserts, on the small file system of Archive/Files.
use redlike.Prelude.{
  ℕ, ◌+◌, ◌*◌, ◌/◌, ◌≡◌, refl, false, true, Option, none, some, List, [], ◌∷◌, ◌++◌, bytes_eq,
  codes, pos, negsuc,
}
use redlike.Prelude.Result.{Result, ok, err}
use redlike.Store
use redlike.Store.{Store}
use redlike.Store.Map
use redlike.Store.Expirations.{push, entry_le}
use redlike.Store.Spec.{
  Operation, get_op, set_op, expire_op, ttl_op, Answer, value, number, perform, answers,
}
use redlike.Store.Snapshot.{Clocks, invalid_snapshot, dump, restore}
use redlike.Store.Suite.{after, milli, second}
use redlike.Archive.{
  PathBuf, FileSystem, ArchiveError, not_found, read_file, write_file, invalid_archive, save, load,
  parent,
}
use redlike.Archive.Files.{
  Files, archive, blank, files, components_eq, path_eq, update, create, append, move,
}
use redlike.Archive.Code.{json, from_slice, encode, decode}

-- The clocks of a machine that started a million milliseconds into the epoch.
abbrev read_at : ℕ → ℕ → Clocks
read_at now i = record { unix_millis = 1_000_000 + now / milli; instant = now }

-- What `load` gives at an instant.
abbrev loads : Files → ℕ → Result Store ArchiveError
loads disk now = load files json (read_at now) (1_000_000 + now / milli) archive disk

-- The disk behind a save of what a new store holds after these operations.
unfoldable saved : List (ℕ × Operation) → ℕ → Files → Files
unfolding save dump after
saved history now disk =
    (save files json (read_at now) now archive (after Store.new history) disk).0

-- What the loaded store answers.
unfoldable answered : Result Store ArchiveError → List (ℕ × Operation) → Option (List Answer)
unfolding answers
answered (ok s) history = some (answers s history)
answered (err e) history = none

-- A disk without the directory that is named.
abbrev without_directory : FileSystem
without_directory = record files {
  exists = λ d p. false;
  tempfile_in = λ dir d. (d, err not_found);
}

abbrev nested : PathBuf
nested = record { absolute = false; components = codes "does_not_exist" ∷ codes "archive" ∷ [] }

abbrev in_directory : PathBuf
in_directory = record { absolute = true; components = codes "tmp" ∷ codes "test-archive" ∷ [] }

abbrev LoadMissingFileWithRelativeFilenameReturnsNewStore : Type 0
LoadMissingFileWithRelativeFilenameReturnsNewStore =
    answered (loads blank 0) ((0, get_op (codes "missing-key")) ∷ []) ≡ some (value none ∷ [])

abbrev LoadMissingFilenameInExistingDirReturnsNewStore : Type 0
LoadMissingFilenameInExistingDirReturnsNewStore =
    answered (load files json (read_at 0) 1_000_000 in_directory blank)
      ((0, get_op (codes "missing-key")) ∷ [])
    ≡ some (value none ∷ [])

abbrev LoadFileWithBadDirectoryPathReturnsError : Type 0
LoadFileWithBadDirectoryPathReturnsError =
    load without_directory json (read_at 0) 1_000_000 nested blank ≡ err (read_file not_found)

abbrev LoadMalformedArchiveReturnsInvalidArchiveError : Type 0
LoadMalformedArchiveReturnsInvalidArchiveError =
    loads (update blank archive (ok (codes "This is not an archive"))) 0
    ≡ err (invalid_archive invalid_snapshot)

abbrev RoundTripItemPersistence : Type 0
RoundTripItemPersistence =
    answered (loads (saved ((0, set_op (codes "my_key") (codes "my_value")) ∷ []) 0 blank) 0)
      ((0, get_op (codes "my_key")) ∷ [])
    ≡ some (value (some (codes "my_value")) ∷ [])

abbrev OverwritingErasesOldArchive : Type 0
OverwritingErasesOldArchive =
    answered
      (loads
        (saved ((0, set_op (codes "my_key_b") (codes "my_value_b")) ∷ []) 0
          (saved ((0, set_op (codes "my_key_a") (codes "my_value_a")) ∷ []) 0 blank))
        0)
      ((0, get_op (codes "my_key_a")) ∷ (0, get_op (codes "my_key_b")) ∷ [])
    ≡ some (value none ∷ value (some (codes "my_value_b")) ∷ [])

abbrev SaveToMissingDirectoryReturnsWriteError : Type 0
SaveToMissingDirectoryReturnsWriteError =
    (save without_directory json (read_at 0) 0 nested Store.new blank).1
    ≡ err (write_file not_found)

abbrev RoundTripPreservesBinaryKeysAndValues : Type 0
RoundTripPreservesBinaryKeysAndValues =
    answered
      (loads
        (saved
          ((0, set_op (codes "empty-value") [])
            ∷ (0, set_op (codes "non-utf-value") (0xf4 ∷ 0xff ∷ []))
            ∷ (0, set_op (codes "embedded-zero-value") (codes "hello" ++ 0 ∷ codes "world"))
            ∷ (0, set_op (0xf4 ∷ 0xff ∷ []) (codes "value"))
            ∷ [])
          0 blank)
        0)
      ((0, get_op (codes "empty-value"))
        ∷ (0, get_op (codes "non-utf-value"))
        ∷ (0, get_op (codes "embedded-zero-value"))
        ∷ (0, get_op (0xf4 ∷ 0xff ∷ []))
        ∷ [])
    ≡ some (
        value (some [])
        ∷ value (some (0xf4 ∷ 0xff ∷ []))
        ∷ value (some (codes "hello" ++ 0 ∷ codes "world"))
        ∷ value (some (codes "value"))
        ∷ [])

abbrev RoundTripPreservesLiveTtlAndDropsExpiredItems : Type 0
RoundTripPreservesLiveTtlAndDropsExpiredItems =
    answered
      (loads
        (saved
          ((0, set_op (codes "persistent-key") (codes "persistent-value"))
            ∷ (0, set_op (codes "live-key") (codes "live-value"))
            ∷ (0, set_op (codes "expired-key") (codes "expired-value"))
            ∷ (0, expire_op (codes "live-key") 5)
            ∷ (0, expire_op (codes "expired-key") 0)
            ∷ [])
          0 blank)
        0)
      ((0, get_op (codes "persistent-key"))
        ∷ (0, get_op (codes "live-key"))
        ∷ (0, ttl_op (codes "live-key"))
        ∷ (0, get_op (codes "expired-key"))
        ∷ (0, ttl_op (codes "expired-key"))
        ∷ (5 * second, get_op (codes "live-key"))
        ∷ [])
    ≡ some (
        value (some (codes "persistent-value"))
        ∷ value (some (codes "live-value"))
        ∷ number (pos 5)
        ∷ value none
        ∷ number (negsuc 1)
        ∷ value none
        ∷ [])

abbrev SaveOfEmptyStoreLoadsAsEmptyStore : Type 0
SaveOfEmptyStoreLoadsAsEmptyStore =
    answered (loads (saved [] 0 blank) 0) ((0, get_op (codes "missing-key")) ∷ [])
    ≡ some (value none ∷ [])

abbrev MultipleOverwritesReturnLatestContents : Type 0
MultipleOverwritesReturnLatestContents =
    answered
      (loads
        (saved ((0, set_op (codes "third-key") (codes "third-value")) ∷ []) 0 (
          saved ((0, set_op (codes "second-key") (codes "second-value")) ∷ []) 0
            (saved ((0, set_op (codes "first-key") (codes "first-value")) ∷ []) 0 blank)))
        0)
      ((0, get_op (codes "first-key"))
        ∷ (0, get_op (codes "second-key"))
        ∷ (0, get_op (codes "third-key"))
        ∷ [])
    ≡ some (value none ∷ value none ∷ value (some (codes "third-value")) ∷ [])

all_pass :
    LoadMissingFileWithRelativeFilenameReturnsNewStore
    × LoadMissingFilenameInExistingDirReturnsNewStore × LoadFileWithBadDirectoryPathReturnsError
    × LoadMalformedArchiveReturnsInvalidArchiveError × RoundTripItemPersistence
    × OverwritingErasesOldArchive × SaveToMissingDirectoryReturnsWriteError
    × RoundTripPreservesBinaryKeysAndValues × RoundTripPreservesLiveTtlAndDropsExpiredItems
    × SaveOfEmptyStoreLoadsAsEmptyStore × MultipleOverwritesReturnLatestContents
unfolding parent save load dump restore answered saved after perform answers from_slice encode
    decode Store.get Store.set Store.expire Store.ttl Map.empty Map.get Map.insert Map.remove
    Map.lookup Map.without bytes_eq push entry_le create append update path_eq components_eq move
all_pass = (refl, refl, refl, refl, refl, refl, refl, refl, refl, refl, refl)
