-- ===== src/Store/View.antt =====
-- What a client can see of the store at an instant, and what each operation does to it.
use redlike.Prelude.{
  ℕ, ◌≤◌, ◌≡◌, ◌∙◌, refl, Option, none, some, List, [], ◌∷◌, if◌then◌else◌, arith, Bytes, bytes_eq,
  bytes_eq_iff, Option-cases, inl, inr,
}
use mathlib.Core.Option
use redlike.Store.Map
use redlike.Store.Map.{HashMap, get-remove, get-insert}
use redlike.Store.{
  Key, StoreValue, Store, is_expired, live_value, get, set, del, drop_expired, drop_all,
}

-- An entry that has expired is as good as none.
abbrev pub live : ℕ → Option StoreValue → Option StoreValue
live now none = none
live now (some v) = if is_expired v now then none else some v

unfoldable pub view : Store → ℕ → Key → Option StoreValue
view s now k = live now (Map.get s.hashmap k)

-- What has expired stays expired.
pub live-live :
    (now later : ℕ) (o : Option StoreValue) → now ≤ later → live later (live now o) ≡ live later o
unfolding is_expired
live-live now later none h = refl
live-live now later (some v) h = ground arith

module _ (s : Store) (now : ℕ) where
  pub get-view : (k : Key) → get s k now ≡ Option.map (λ v. v.value) (view s now k)
  unfolding get view live_value
  get-view k = ground arith

  pub view-set :
      (k j : Key) (v : Bytes)
      → view (set s k v).0 now j ≡ (
          if bytes_eq k j
          then some (record { value = v; expiration_time = none })
          else view s now j)
  unfolding set view is_expired
  view-set k j v = rw get-insert (ground arith)

  pub view-del :
      (k j : Key) → view (del s k now).0 now j ≡ (if bytes_eq k j then none else view s now j)
  unfolding del view
  view-del k j = rw get-remove (ground arith)

  pub del-view : (k : Key) → (del s k now).1 ≡ Option.map (λ v. v.value) (view s now k)
  unfolding del view live_value
  del-view k = ground arith

-- A removed candidate was expired, so no later look at the map can tell.
drop_expired-live :
    (key j : Key) (now later : ℕ) (m : HashMap StoreValue)
    → now ≤ later
    → live later (Map.get (drop_expired key now m) j) ≡ live later (Map.get m j)
unfolding drop_expired is_expired
drop_expired-live key j now later m h = elim (Option-cases (Map.get m key)) [
  | inl e ↦ ground arith
  | inr (v, e) ↦ ground (arith, get-remove m key j, bytes_eq_iff key j)
]

pub drop_all-live :
    (candidates : List Key) (j : Key) (now later : ℕ) (m : HashMap StoreValue)
    → now ≤ later
    → live later (Map.get (drop_all candidates now m) j) ≡ live later (Map.get m j)
unfolding drop_all
drop_all-live [] j now later m h = refl
drop_all-live (key ∷ candidates) j now later m h =
    drop_all-live candidates j now later (drop_expired key now m) h
    ∙ drop_expired-live key j now later m h
