-- ===== src/Archive/Saved.antt =====
-- What `save` leaves on the disk, whatever fails.
use redlike.Prelude.{◌≡◌, ◌≢◌, ◌⊎◌, inl, inr, refl, sym, ap, ◌∙◌, [], Bytes}
use redlike.Prelude.Result.{Result, ok, err}
use redlike.Archive.{
  PathBuf, IoError, FileSystem, and_then, rename_temp, write_temp, directory, save_bytes,
}
use redlike.Archive.Disk.{Keeps, IsFileSystem, NeverTemp}

module _ (system : FileSystem) (path : PathBuf) (bytes : Bytes) where
  -- A disk that holds at the path what the old one holds there or, whole, what is saved; the latter if the
  -- call was a success.
  pub record IsAtomic (disk : system.Disk) (after : system.Disk × Result (Unit {0}) IoError)
      : Type 0 where
    pub whole : Keeps system disk after.0 path ⊎ (system.read after.0 path ≡ ok bytes)
    pub saved : after.1 ≡ ok tt → system.read after.0 path ≡ ok bytes

module _ (system : FileSystem) (law : IsFileSystem system) (path : PathBuf) (bytes : Bytes) where
  -- A failure before the file is renamed.
  early :
      (disk disk' : system.Disk) (e : IoError)
      → Keeps system disk disk' path
      → IsAtomic system path bytes disk (disk', err e)
  early disk disk' e k = record { whole = inl k; saved = λ x. cc }

  -- From the directory's sync on, the file is in place.
  after_rename :
      (disk disk' : system.Disk)
      → system.read disk' path ≡ ok bytes
      → IsAtomic system path bytes disk (system.sync_dir (directory path) disk')
  after_rename disk disk' h = record {
    whole = inr (law.sync_dir_keeps (directory path) disk' path ∙ h);
    saved = λ x. law.sync_dir_keeps (directory path) disk' path ∙ h;
  }

  module _ (temp : PathBuf) (ne : temp ≢ path) (start : system.Disk) where
    renaming :
        (disk disk' : system.Disk) (r : Result (Unit {0}) IoError)
        → system.rename temp path disk ≡ (disk', r)
        → Keeps system start disk path
        → system.read disk temp ≡ ok bytes
        → IsAtomic system path bytes start (
            and_then system
              (system.drop_temp temp disk', r)
              (λ d. d)
              (λ _ d. system.sync_dir (directory path) d))
    renaming disk disk' (ok tt) e k h =
        after_rename start (system.drop_temp temp disk')
          (law.drop_keeps temp disk' path ne ∙ law.rename_moves temp path disk disk' e ∙ h)
    renaming disk disk' (err x) e k h =
        early start (system.drop_temp temp disk') x
          (law.drop_keeps temp disk' path ne ∙ law.rename_fails temp path disk disk' x path e ∙ k)

    syncing :
        (disk disk' : system.Disk) (r : Result (Unit {0}) IoError)
        → system.sync_all temp disk ≡ (disk', r)
        → Keeps system start disk path
        → system.read disk temp ≡ ok bytes
        → IsAtomic system path bytes start (
            and_then system
              (disk', r)
              (system.drop_temp temp)
              λ _ d.
                and_then system
                  (rename_temp system temp path d)
                  (λ d. d)
                  (λ _ d. system.sync_dir (directory path) d))
    unfolding rename_temp
    syncing disk disk' r e k h = go r (kept path ∙ k) (kept temp ∙ h)
      where
        kept : (q : PathBuf) → system.read disk' q ≡ system.read disk q
        kept q = sym (ap (λ x. system.read x.0 q) e) ∙ law.sync_keeps temp disk q

        go :
            (r : Result (Unit {0}) IoError)
            → Keeps system start disk' path
            → system.read disk' temp ≡ ok bytes
            → IsAtomic system path bytes start (
                and_then system
                  (disk', r)
                  (system.drop_temp temp)
                  λ _ d.
                    and_then system
                      (rename_temp system temp path d)
                      (λ d. d)
                      (λ _ d. system.sync_dir (directory path) d))
        go (ok tt) k' h' =
            renaming disk' (system.rename temp path disk').0 (system.rename temp path disk').1 refl
              k' h'
        go (err x) k' h' =
            early start (system.drop_temp temp disk') x (law.drop_keeps temp disk' path ne ∙ k')

    writing :
        (disk disk' : system.Disk) (r : Result (Unit {0}) IoError)
        → system.write_all temp bytes disk ≡ (disk', r)
        → Keeps system start disk path
        → system.read disk temp ≡ ok []
        → IsAtomic system path bytes start (
            and_then system
              (disk', r)
              (system.drop_temp temp)
              λ _ d. and_then system (system.sync_all temp d) (system.drop_temp temp) λ _ d.
                and_then system
                  (rename_temp system temp path d)
                  (λ d. d)
                  (λ _ d. system.sync_dir (directory path) d))
    writing disk disk' (ok tt) e k h =
        syncing disk' (system.sync_all temp disk').0 (system.sync_all temp disk').1 refl
          (sym (ap (λ x. system.read x.0 path) e) ∙ law.write_keeps temp bytes disk path ne ∙ k)
          (law.write_appends temp bytes [] disk disk' h e)
    writing disk disk' (err x) e k h = early start (system.drop_temp temp disk') x (
        law.drop_keeps temp disk' path ne
        ∙ sym (ap (λ y. system.read y.0 path) e)
        ∙ law.write_keeps temp bytes disk path ne
        ∙ k)

  making :
      (disk disk' : system.Disk) (r : Result PathBuf IoError)
      → NeverTemp system path
      → system.tempfile_in (directory path) disk ≡ (disk', r)
      → IsAtomic system path bytes disk
          (and_then system (disk', r) (λ d. d) (write_temp system path (directory path) bytes))
  unfolding write_temp
  making disk disk' (ok temp) never e =
      let ne : temp ≢ path = never (directory path) disk disk' temp e in
      writing temp ne disk disk' (system.write_all temp bytes disk').0
        (system.write_all temp bytes disk').1 refl
        (law.temp_keeps (directory path) disk disk' temp path e ne)
        (law.temp_is_new (directory path) disk disk' temp e).1
  making disk disk' (err x) never e =
      early disk disk' x (law.temp_fails (directory path) disk disk' x path e)

  -- Whichever of its calls fails, saving leaves the archive as it was or with all the new bytes, and a
  -- success means the latter, if no temporary file can get the archive's name and the file system's calls
  -- do what their documentation says.
  pub save_bytes-IsAtomic :
      NeverTemp system path
      → (disk : system.Disk) → IsAtomic system path bytes disk (save_bytes system path bytes disk)
  unfolding save_bytes
  save_bytes-IsAtomic never disk =
      making disk (system.tempfile_in (directory path) disk).0
        (system.tempfile_in (directory path) disk).1 never refl
