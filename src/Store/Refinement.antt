-- ===== src/Store/Refinement.antt =====
-- The store with its heap and its sweeper answers as the map of the README does.
use redlike.Prelude.{
  ℕ, ◌+◌, ◌*◌, ◌≤◌, ◌≡◌, ◌∙◌, sym, ap, refl, none, some, List, [], ◌∷◌, arith, bytes_eq_iff,
  Option-cases, inl, inr,
}
use mathlib.Core.Option
use mathlib.Core.Path.{ap₂}
use native.Mathlib.Nat.{le_refl}
use redlike.Store.Map
use redlike.Store.Map.{HashMap, get-remove, get-insert, get-empty}
use redlike.Store.{
  Key, StoreValue, Store, nanos_per_sec, is_expired, new, get, set, del, expire, ttl,
  sweep_expired_once, take_due,
}
use redlike.Store.View.{live, view, live-live, drop_all-live, get-view, del-view}
use redlike.Store.Spec.{
  Operation, get_op, set_op, del_op, expire_op, ttl_op, sweep_op, value, outcome, number, perform,
  Dictionary, update, spec_expire, spec_ttl, spec_perform, answers, spec_answers, IsMonotone,
}

-- The two hold the same live entries, from `now` on.
abbrev pub Agrees : ℕ → HashMap StoreValue → Dictionary → Type 0
Agrees now m d = (j : Key) → live now (Map.get m j) ≡ live now (d j)

pub Agrees-later :
    (now later : ℕ) (m : HashMap StoreValue) (d : Dictionary)
    → now ≤ later
    → Agrees now m d
    → Agrees later m d
Agrees-later now later m d h a j =
    sym (live-live now later (Map.get m j) h) ∙ ap (live later) (a j) ∙ live-live now later (d j) h

module _ (now : ℕ) (m : HashMap StoreValue) (d : Dictionary) (a : Agrees now m d) (k : Key) where
  Agrees-insert : (v : StoreValue) → Agrees now (Map.insert m k v) (update d k (some v))
  Agrees-insert v j = rw get-insert (ground (arith, a j))

  pub Agrees-remove : Agrees now (Map.remove m k) (update d k none)
  Agrees-remove j = rw get-remove (ground (arith, a j))

-- EXPIRE takes the entry out and, if it is live, puts it back with its new expiration.
module _ (s : Store) (now n : ℕ) (d : Dictionary) (k : Key) (a : Agrees now s.hashmap d) where
  expire-answer : (expire s k n now).1 ≡ (spec_expire d k n now (live now (d k))).1
  unfolding expire spec_expire is_expired
  expire-answer = ground (arith, a k)

  expire-Agrees : Agrees now (expire s k n now).0.hashmap (spec_expire d k n now (live now (d k))).0
  unfolding expire spec_expire is_expired
  expire-Agrees j = elim (Option-cases (Map.get s.hashmap k)) [
    | inl e ↦ ground (arith, a k, a j, get-remove s.hashmap k j, bytes_eq_iff k j)
    | inr (v, e) ↦ ground (
      arith,
      a k,
      a j,
      get-remove s.hashmap k j,
      bytes_eq_iff k j,
      get-insert (Map.remove s.hashmap k) k j
          (record v { expiration_time = some (now + n * nanos_per_sec) }),
    )
  ]

  ttl-answer : ttl s k now ≡ spec_ttl now (live now (d k))
  unfolding ttl spec_ttl is_expired
  ttl-answer = ground (arith, a k)

  get-answer : get s k now ≡ Option.map (λ v. v.value) (live now (d k))
  unfolding view
  get-answer = get-view s now k ∙ ap (Option.map (λ v. v.value)) (a k)

  del-answer : (del s k now).1 ≡ Option.map (λ v. v.value) (live now (d k))
  unfolding view
  del-answer = del-view s now k ∙ ap (Option.map (λ v. v.value)) (a k)

sweep-Agrees :
    (s : Store) (now : ℕ) (d : Dictionary)
    → Agrees now s.hashmap d
    → Agrees now (sweep_expired_once s now).hashmap d
unfolding sweep_expired_once
sweep-Agrees s now d a j =
    drop_all-live (take_due s.expiration_heap now []).0 j now now s.hashmap (le_refl now) ∙ a j

pub perform-Agrees :
    (s : Store) (now : ℕ) (d : Dictionary) (op : Operation)
    → Agrees now s.hashmap d
    → Agrees now (perform s now op).0.hashmap (spec_perform d now op).0
      × ((perform s now op).1 ≡ (spec_perform d now op).1)
unfolding perform spec_perform set del
perform-Agrees s now d (get_op k) a = (a, ap value (get-answer s now 0 d k a))
perform-Agrees s now d (set_op k v) a = (Agrees-insert now s.hashmap d a k _, refl)
perform-Agrees s now d (del_op k) a =
    (Agrees-remove now s.hashmap d a k, ap value (del-answer s now 0 d k a))
perform-Agrees s now d (expire_op k n) a =
    (expire-Agrees s now n d k a, ap outcome (expire-answer s now n d k a))
perform-Agrees s now d (ttl_op k) a = (a, ap number (ttl-answer s now 0 d k a))
perform-Agrees s now d sweep_op a = (sweep-Agrees s now d a, refl)

pub answers-Agrees :
    (history : List (ℕ × Operation)) (s : Store) (now : ℕ) (d : Dictionary)
    → IsMonotone now history
    → Agrees now s.hashmap d
    → answers s history ≡ spec_answers d history
unfolding answers spec_answers
answers-Agrees [] s now d h a = refl
answers-Agrees ((t, op) ∷ history) s now d (h, hs) a =
    let (a', e) = perform-Agrees s t d op (Agrees-later now t s.hashmap d h a) in
    ap₂ (λ x xs. x ∷ xs) e
      (answers-Agrees history (perform s t op).0 t (spec_perform d t op).0 hs a')

-- Over any history of operations and sweeps at instants that do not go back, a new store answers just as
-- the map of the README does, in which what has expired is missing: neither the stale entries nor the
-- sweeper are seen.
pub answers-eq-spec_answers :
    (history : List (ℕ × Operation))
    → IsMonotone 0 history
    → answers new history ≡ spec_answers (λ k. none) history
answers-eq-spec_answers history h =
    answers-Agrees history new 0 (λ k. none) h (λ j. ap (live 0) (get-empty j))
