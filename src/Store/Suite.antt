-- ===== src/Store/Suite.antt =====
-- What the unit tests of src/store.rs share. A test that waits reads the clock later; instants are in nanoseconds.
pub mod Operations
pub mod Timeouts
pub mod Sweeps
pub mod Snapshots
use redlike.Prelude.{ℕ, ◌≡◌, List, [], ◌∷◌, Bytes, codes}
use redlike.Store.{Store, new}
use redlike.Store.Spec.{Operation, Answer, perform, answers}

abbrev pub milli : ℕ
milli = 1_000_000

abbrev pub second : ℕ
second = 1_000_000_000

abbrev pub newkey : Bytes
newkey = codes "newkey"

abbrev pub expiring_key : Bytes
expiring_key = codes "expiring-key"

abbrev pub key : Bytes
key = codes "ttl-key"

-- A new store gives these answers.
abbrev pub Answers : List (ℕ × Operation) → List Answer → Type 0
Answers history expected = answers new history ≡ expected

-- The store behind these operations.
unfoldable pub after : Store → List (ℕ × Operation) → Store
unfolding perform
after s [] = s
after s ((now, op) ∷ history) = after (perform s now op).0 history
