-- ===== src/Store/Spec.antt =====
-- The store as the README promises it: a map from keys to entries in which what has expired is missing.
-- There is no heap, no sweeper and no lock.
use redlike.Prelude.{
  ℕ, ◌+◌, ◌-◌, ◌*◌, ◌/◌, ◌≤◌, Option, none, some, List, [], ◌∷◌, leb, if◌then◌else◌, Bytes,
  bytes_eq, ℤ, negsuc,
}
use mathlib.Core.Option
use redlike.Store.{
  Key, StoreValue, Store, Outcome, returns, panics, nanos_per_sec, instant_limit, as_i64, get, set,
  del, expire, ttl, sweep_expired_once,
}
use redlike.Store.View.{live}

-- What is asked of the store: the methods that connections call, and a round of the sweeper.
pub data Operation : Type 0 where
  get_op : Key → Operation
  set_op : Key → Bytes → Operation
  del_op : Key → Operation
  expire_op : Key → ℕ → Operation
  ttl_op : Key → Operation
  sweep_op : Operation

pub data Answer : Type 0 where
  done : Answer
  value : Option Bytes → Answer
  outcome : Outcome ℕ → Answer
  number : ℤ → Answer

-- The program's operation at an instant. Its callers do not read what `set` returns.
unfoldable pub perform : Store → ℕ → Operation → Store × Answer
perform s now (get_op k) = (s, value (get s k now))
perform s now (set_op k v) = ((set s k v).0, done)
perform s now (del_op k) = let (s', r) = del s k now in (s', value r)
perform s now (expire_op k n) = let (s', r) = expire s k n now in (s', outcome r)
perform s now (ttl_op k) = (s, number (ttl s k now))
perform s now sweep_op = (sweep_expired_once s now, done)

abbrev pub Dictionary : Type 0
Dictionary = Key → Option StoreValue

abbrev pub update : Dictionary → Key → Option StoreValue → Dictionary
update d k o j = if bytes_eq k j then o else d j

-- EXPIRE on the entry that is seen; past the last instant the entry is lost and the task panics.
unfoldable pub spec_expire : Dictionary → Key → ℕ → ℕ → Option StoreValue → Dictionary × Outcome ℕ
spec_expire d k n now none = (d, returns 0)
spec_expire d k n now (some v) =
    let expires = now + n * nanos_per_sec in
    if leb instant_limit expires
    then (update d k none, panics)
    else (update d k (some (record v { expiration_time = some expires })), returns 1)

-- TTL on the entry that is seen, in whole seconds.
unfoldable pub spec_ttl : ℕ → Option StoreValue → ℤ
spec_ttl now none = negsuc 1
spec_ttl now (some v) = elim v.expiration_time [
  | none ↦ negsuc 0
  | some t ↦ as_i64 ((t - now) / nanos_per_sec)
]

unfoldable pub spec_perform : Dictionary → ℕ → Operation → Dictionary × Answer
unfolding spec_expire spec_ttl
spec_perform d now (get_op k) = (d, value (Option.map (λ v. v.value) (live now (d k))))
spec_perform d now (set_op k v) =
    (update d k (some (record { value = v; expiration_time = none })), done)
spec_perform d now (del_op k) =
    (update d k none, value (Option.map (λ v. v.value) (live now (d k))))
spec_perform d now (expire_op k n) =
    let (d', r) = spec_expire d k n now (live now (d k)) in (d', outcome r)
spec_perform d now (ttl_op k) = (d, number (spec_ttl now (live now (d k))))
spec_perform d now sweep_op = (d, done)

-- The answers to a history of operations, each at its instant.
unfoldable pub answers : Store → List (ℕ × Operation) → List Answer
unfolding perform
answers s [] = []
answers s ((now, op) ∷ history) = let (s', a) = perform s now op in a ∷ answers s' history

unfoldable pub spec_answers : Dictionary → List (ℕ × Operation) → List Answer
unfolding spec_perform
spec_answers d [] = []
spec_answers d ((now, op) ∷ history) =
    let (d', a) = spec_perform d now op in a ∷ spec_answers d' history

-- The clock does not go back, from `now` on.
abbrev pub IsMonotone : ℕ → List (ℕ × Operation) → Type 0
IsMonotone now [] = Unit
IsMonotone now ((t, op) ∷ history) = (now ≤ t) × IsMonotone t history
