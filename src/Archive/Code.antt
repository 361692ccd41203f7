-- ===== src/Archive/Code.antt =====
-- A code for snapshots, on which the unit tests of src/archive.rs are run.
use redlike.Prelude.{
  ℕ, zero, suc, Option, none, some, List, [], ◌∷◌, ◌++◌, length, take, drop, Bytes, ltb,
  if◌then◌else◌,
}
use redlike.Store.Snapshot.{SnapshotEntry, Snapshot, Json}

infixl 5 ◌>>=◌
abbrev ◌>>=◌ {ℓ κ} : {A : Type ℓ} {B : Type κ} → Option A → (A → Option B) → Option B
none >>= f = none
some a >>= f = f a

-- A list by its length, an expiration behind a mark.
abbrev pub expiration_code : Option ℕ → Bytes
expiration_code none = 0 ∷ []
expiration_code (some t) = 1 ∷ t ∷ []

unfoldable pub encode : List SnapshotEntry → Bytes
encode [] = []
encode (e ∷ entries) =
    (length e.key ∷ e.key)
    ++ ((length e.value.value ∷ e.value.value)
        ++ (expiration_code e.value.expiration_time_unix ++ encode entries))

-- A list of bytes behind its length, and what follows.
abbrev pub read_list : Bytes → Option (Bytes × Bytes)
read_list [] = none
read_list (n ∷ s) = if ltb (length s) n then none else some (take n s, drop n s)

abbrev pub read_expiration : Bytes → Option (Option ℕ × Bytes)
read_expiration (zero ∷ s) = some (none, s)
read_expiration (suc n ∷ t ∷ s) = some (some t, s)
read_expiration _ = none

unfoldable pub read_entry : Bytes → Option (SnapshotEntry × Bytes)
read_entry s = do
  (k, s') ← read_list s
  (v, s'') ← read_list s'
  (t, rest) ← read_expiration s''
  some (record { key = k; value = record { value = v; expiration_time_unix = t } }, rest)

unfoldable pub decode : ℕ → Bytes → Option (List SnapshotEntry)
unfolding read_entry
decode zero [] = some []
decode zero (b ∷ s) = none
decode (suc n) s = do (e, rest) ← read_entry s; entries ← decode n rest; some (e ∷ entries)

abbrev pub as_snapshot : Option (List SnapshotEntry) → Option Snapshot
as_snapshot none = none
as_snapshot (some entries) = some (record { entries = entries })

unfoldable pub from_slice : Bytes → Option Snapshot
unfolding decode
from_slice [] = none
from_slice (n ∷ s) = as_snapshot (decode n s)

abbrev pub json : Json
json = record {
  to_vec = λ snapshot. some (length snapshot.entries ∷ encode snapshot.entries);
  from_slice = from_slice;
}
