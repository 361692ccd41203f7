-- ===== src/Store/Observation.antt =====
-- What the answers of the store (src/store.rs) show of it: its live entries, and nothing else.
use redlike.Prelude.{
  ℕ, ◌≤◌, ◌≡◌, ◌↔◌, sym, ◌∙◌, refl, Option, none, some, List, [], ◌∷◌, arith, Bytes,
}
use native.Mathlib.Nat.{le_refl}
use redlike.Store.Map
use redlike.Store.{Key, StoreValue, Store, is_expired, live_value, get}
use redlike.Store.View.{live, view}
use redlike.Store.Spec.{Operation, get_op, answers, perform, IsMonotone}
use redlike.Store.Refinement.{answers-Agrees}

-- No later history of operations tells the two apart.
abbrev pub AreIndistinguishable : ℕ → Store → Store → Type 0
AreIndistinguishable now s s' =
    (history : List (ℕ × Operation))
    → IsMonotone now history
    → answers s history ≡ answers s' history

abbrev entry : Bytes → Option ℕ → StoreValue
entry b e = record { value = b; expiration_time = e }

-- What GET answers at each later instant tells whether an entry is live, its value and its expiration.
abbrev AnswerAlike : ℕ → Option StoreValue → Option StoreValue → Type 0
AnswerAlike now o o' = (t : ℕ) → now ≤ t → live_value o t ≡ live_value o' t

absent-live :
    (now : ℕ) (v : StoreValue)
    → live_value none now ≡ live_value (some v) now
    → live now (some v) ≡ none
unfolding live_value
absent-live now v h = ground arith

entry-live :
    (now : ℕ) (b b' : Bytes) (e e' : Option ℕ)
    → AnswerAlike now (some (entry b e)) (some (entry b' e'))
    → live now (some (entry b e)) ≡ live now (some (entry b' e'))
unfolding live_value is_expired
entry-live now b b' none none h = ground (arith, h now (le_refl now))
entry-live now b b' none (some t) h = ground (arith, h now (le_refl now), h t)
entry-live now b b' (some t) none h = ground (arith, h now (le_refl now), h t)
entry-live now b b' (some t) (some u) h = ground (arith, h now (le_refl now), h t, h u)

answers-live :
    (now : ℕ) (o o' : Option StoreValue) → AnswerAlike now o o' → live now o ≡ live now o'
answers-live now none none h = refl
answers-live now none (some v) h = sym (absent-live now v (h now (le_refl now)))
answers-live now (some v) none h = absent-live now v (sym (h now (le_refl now)))
answers-live now (some v) (some w) h =
    entry-live now v.value w.value v.expiration_time w.expiration_time h

get-answers :
    (now t : ℕ) (s s' : Store) (k : Key)
    → now ≤ t
    → AreIndistinguishable now s s'
    → get s k t ≡ get s' k t
unfolding answers perform
get-answers now t s s' k le h = cc (h ((t, get_op k) ∷ []) (le, tt))

-- Two stores answer every later history of operations and sweeps alike exactly when they hold the same
-- live entries, with the same values and expirations: neither the order of the map, nor the entries that
-- have expired, nor the heap and its stale entries can be seen, and all else can.
pub indistinguishable_iff :
    (now : ℕ) (s s' : Store)
    → AreIndistinguishable now s s' ↔ ((k : Key) → view s now k ≡ view s' now k)
unfolding view get
indistinguishable_iff now s s' = (
  λ h k.
      answers-live now (Map.get s.hashmap k) (Map.get s'.hashmap k)
        (λ t le. get-answers now t s s' k le h),
  λ same history mono.
      answers-Agrees history s now (Map.get s'.hashmap) mono same
      ∙ sym (answers-Agrees history s' now (Map.get s'.hashmap) mono (λ k. refl)),
)
