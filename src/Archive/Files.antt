-- ===== src/Archive/Files.antt =====
-- A small file system with one temporary name, on which src/archive.rs is tried.
use redlike.Prelude.{
  ◌≡◌, ◌≢◌, ◌↔◌, refl, sym, ◌∙◌, ap, inl, inr, Bool-cases, Bool, true, false, ◌&&◌, List, [], ◌∷◌,
  ◌++◌, if◌then◌else◌, arith, Bytes, bytes_eq, bytes_eq_iff, codes,
}
use redlike.Prelude.Result.{Result, ok, err}
use redlike.Archive.{PathBuf, IoError, not_found, other, FileSystem}
use redlike.Archive.Disk.{IsFileSystem, NeverTemp}

-- A file for each path.
abbrev pub Files : Type 0
Files = PathBuf → Result Bytes IoError

unfoldable pub components_eq : List Bytes → List Bytes → Bool
components_eq [] [] = true
components_eq (a ∷ s) (b ∷ t) = bytes_eq a b && components_eq s t
components_eq _ _ = false

components_eq_iff : (s t : List Bytes) → (components_eq s t ≡ true) ↔ (s ≡ t)
unfolding components_eq
components_eq_iff [] [] = ground arith
components_eq_iff [] (b ∷ t) = ground arith
components_eq_iff (a ∷ s) [] = ground arith
components_eq_iff (a ∷ s) (b ∷ t) = ground (arith, bytes_eq_iff a b, components_eq_iff s t)

unfoldable pub flag_eq : Bool → Bool → Bool
flag_eq true b = b
flag_eq false true = false
flag_eq false false = true

unfoldable pub path_eq : PathBuf → PathBuf → Bool
unfolding flag_eq
path_eq p q = flag_eq p.absolute q.absolute && components_eq p.components q.components

path_eq_refl : (p : PathBuf) → path_eq p p ≡ true
unfolding path_eq flag_eq
path_eq_refl p = ground (arith, components_eq_iff p.components p.components)

path_eq_sound : (p q : PathBuf) → path_eq p q ≡ true → p ≡ q
unfolding path_eq flag_eq
path_eq_sound p q h = ground (arith, components_eq_iff p.components q.components)

unfoldable pub update : Files → PathBuf → Result Bytes IoError → Files
update d p r q = if path_eq p q then r else d q

update_self : (d : Files) (p : PathBuf) (r : Result Bytes IoError) → update d p r p ≡ r
unfolding update
update_self d p r = rw (path_eq_refl p) refl

update_other : (d : Files) (p q : PathBuf) (r : Result Bytes IoError) → p ≢ q → update d p r q ≡ d q
unfolding update
update_other d p q r h = elim (Bool-cases (path_eq p q)) [
  | inl same ↦ absurd (h (path_eq_sound p q same))
  | inr apart ↦ rw apart refl
]

abbrev pub temp_name : PathBuf
temp_name = record { absolute = false; components = codes "archive.abcdef.tmp" ∷ [] }

-- The one temporary file that there can be.
unfoldable pub create : Files → Result Bytes IoError → Files × Result PathBuf IoError
create d (err not_found) = (update d temp_name (ok []), ok temp_name)
create d (err other) = (d, err other)
create d (ok bytes) = (d, err other)

unfoldable pub append :
    PathBuf → Bytes → Files → Result Bytes IoError → Files × Result (Unit {0}) IoError
append p bytes d (ok old) = (update d p (ok (old ++ bytes)), ok tt)
append p bytes d (err e) = (d, err e)

unfoldable pub move :
    PathBuf → PathBuf → Files → Result Bytes IoError → Files × Result (Unit {0}) IoError
move a b d (ok bytes) = (update (update d a (err not_found)) b (ok bytes), ok tt)
move a b d (err e) = (d, err e)

abbrev pub files : FileSystem
files = record {
  Disk = Files;
  read = λ d p. d p;
  exists = λ d p. true;
  tempfile_in = λ dir d. create d (d temp_name);
  write_all = λ p bytes d. append p bytes d (d p);
  sync_all = λ p d. (d, ok tt);
  rename = λ a b d. move a b d (d a);
  sync_dir = λ p d. (d, ok tt);
  drop_temp = λ p d. update d p (err not_found);
}

ok_injective : (a b : PathBuf) → ◌≡◌ {A = Result PathBuf IoError} (ok a) (ok b) → a ≡ b
ok_injective a b h = cc

err-ne-ok : (a : PathBuf) → ◌≢◌ {A = Result PathBuf IoError} (err other) (ok a)
err-ne-ok a h = cc

pub create_new :
    (d d' : Files) (temp : PathBuf) (r : Result Bytes IoError)
    → create d r ≡ (d', ok temp)
    → (r ≡ err not_found) × (temp_name ≡ temp) × (update d temp_name (ok []) ≡ d')
unfolding create
create_new d d' temp (err not_found) h =
    (refl, ok_injective temp_name temp (ap (λ x. x.1) h), ap (λ x. x.0) h)
create_new d d' temp (err other) h = absurd (err-ne-ok temp (ap (λ x. x.1) h))
create_new d d' temp (ok bytes) h = absurd (err-ne-ok temp (ap (λ x. x.1) h))

create_fails :
    (d d' : Files) (r : Result Bytes IoError) (e : IoError) (q : PathBuf)
    → create d r ≡ (d', err e)
    → d' q ≡ d q
unfolding create
create_fails d d' (err not_found) e q h = absurd (failed (ap (λ x. x.1) h))
  where
    failed : ◌≢◌ {A = Result PathBuf IoError} (ok temp_name) (err e)
    failed x = cc
create_fails d d' (err other) e q h = ap (λ x. x.0 q) (sym h)
create_fails d d' (ok bytes) e q h = ap (λ x. x.0 q) (sym h)

append_ok :
    (p : PathBuf) (bytes old : Bytes) (d d' : Files) (r : Result Bytes IoError)
    → r ≡ ok old
    → append p bytes d r ≡ (d', ok tt)
    → d' p ≡ ok (old ++ bytes)
unfolding append
append_ok p bytes old d d' r e h =
    ap (λ x. x.0 p) (sym h) ∙ rw e (update_self d p (ok (old ++ bytes)))

append_keeps :
    (p : PathBuf) (bytes : Bytes) (d : Files) (r : Result Bytes IoError) (q : PathBuf)
    → p ≢ q
    → (append p bytes d r).0 q ≡ d q
unfolding append
append_keeps p bytes d (ok old) q h = update_other d p q (ok (old ++ bytes)) h
append_keeps p bytes d (err e) q h = refl

move_ok :
    (a b : PathBuf) (d d' : Files) (r : Result Bytes IoError)
    → move a b d r ≡ (d', ok tt)
    → d' b ≡ r
unfolding move
move_ok a b d d' (ok bytes) h =
    ap (λ x. x.0 b) (sym h) ∙ update_self (update d a (err not_found)) b (ok bytes)
move_ok a b d d' (err e) h = absurd (failed (ap (λ x. x.1) h))
  where
    failed : ◌≢◌ {A = Result (Unit {0}) IoError} (err e) (ok tt)
    failed x = cc

move_keeps :
    (a b : PathBuf) (d : Files) (r : Result Bytes IoError) (q : PathBuf)
    → a ≢ q
    → b ≢ q
    → (move a b d r).0 q ≡ d q
unfolding move
move_keeps a b d (ok bytes) q ha hb =
    update_other (update d a (err not_found)) b q (ok bytes) hb
    ∙ update_other d a q (err not_found) ha
move_keeps a b d (err e) q ha hb = refl

move_fails :
    (a b : PathBuf) (d d' : Files) (r : Result Bytes IoError) (e : IoError) (q : PathBuf)
    → move a b d r ≡ (d', err e)
    → d' q ≡ d q
unfolding move
move_fails a b d d' (ok bytes) e q h = absurd (failed (ap (λ x. x.1) h))
  where
    failed : ◌≢◌ {A = Result (Unit {0}) IoError} (ok tt) (err e)
    failed x = cc
move_fails a b d d' (err x) e q h = ap (λ y. y.0 q) (sym h)

pub files-IsFileSystem : IsFileSystem files
files-IsFileSystem = record {
  temp_is_new = λ dir d d' temp h.
      let (absent, same, made) = create_new d d' temp (d temp_name) h in
      (
        ap d (sym same) ∙ absent,
        ap (λ x. x temp) (sym made)
            ∙ ap (update d temp_name (ok [])) (sym same)
            ∙ update_self d temp_name (ok []),
      );
  temp_keeps = λ dir d d' temp q h ne.
      let (absent, same, made) = create_new d d' temp (d temp_name) h in
      ap (λ x. x q) (sym made) ∙ update_other d temp_name q (ok []) (λ x. ne (sym same ∙ x));
  temp_fails = λ dir d d' e q h. create_fails d d' (d temp_name) e q h;
  write_appends = λ temp bytes old d d' held h. append_ok temp bytes old d d' (d temp) held h;
  write_keeps = λ temp bytes d q ne. append_keeps temp bytes d (d temp) q ne;
  sync_keeps = λ temp d q. refl;
  sync_dir_keeps = λ dir d q. refl;
  rename_moves = λ temp path d d' h. move_ok temp path d d' (d temp) h;
  rename_keeps = λ temp path d q ha hb. move_keeps temp path d (d temp) q ha hb;
  rename_fails = λ temp path d d' e q h. move_fails temp path d d' (d temp) e q h;
  drop_keeps = λ temp d q ne. update_other d temp q (err not_found) ne;
}

-- An archive on a disk without files.
abbrev pub archive : PathBuf
archive = record { absolute = false; components = codes "archive" ∷ [] }

abbrev pub blank : Files
blank p = err not_found

pub archive-NeverTemp : NeverTemp files archive
archive-NeverTemp dir d d' temp h =
    let (absent, same, made) = create_new d d' temp (d temp_name) h in
    λ e. absurd (apart (same ∙ e))
  where
    apart : temp_name ≢ archive
    apart x = cc
