-- ===== src/Connection/Shared/Others.antt =====
-- What other connections and the sweeper do to the store (src/store.rs), and what an abstract map shows of it.
use redlike.Prelude.{ℕ, zero, suc, ◌≤◌, ◌≡◌, refl, sym, ◌∙◌, subst, true, List, [], ◌∷◌, ◌++◌}
use redlike.Store.{Key, Store, del, sweep_heap, sweep_map}
use redlike.Store.View.{drop_all-live}
use redlike.Store.Spec.{Operation, del_op, perform, Dictionary, spec_perform}
use redlike.Store.Refinement.{Agrees, Agrees-later, Agrees-remove, perform-Agrees}
use redlike.Connection.Session.{Environment}

abbrev pub History : Type 0
History = List (ℕ × Operation)

-- The abstract map behind a history.
unfoldable pub spec_performed : Dictionary → History → Dictionary
spec_performed d [] = d
spec_performed d ((t, op) ∷ history) = spec_performed (spec_perform d t op).0 history

-- What others do under one lock: an operation, with the instant that it reads there; DEL, which has read the
-- clock before it waited; one of the two phases of a sweep, the second with the candidates of any first
-- one and the instant that was read there.
pub data Act : Type 0 where
  operates : Operation → Act
  deletes : Key → ℕ → Act
  takes_due : Act
  drops : List Key → ℕ → Act

unfoldable pub act : Store → ℕ → Act → Store
act s t (operates op) = (perform s t op).0
act s t (deletes k read) = (del s k read).0
act s t takes_due = (sweep_heap s t).0
act s t (drops candidates swept) = sweep_map s candidates swept

abbrev pub Acts : Type 0
Acts = List (ℕ × Act)

unfoldable pub acted : Store → Acts → Store
unfolding act
acted s [] = s
acted s ((t, a) ∷ acts) = acted (act s t a) acts

-- The operations among them, each at the instant at which it has the lock.
abbrev pub asked : ℕ → Act → History
asked t (operates op) = (t, op) ∷ []
asked t (deletes k read) = (t, del_op k) ∷ []
asked t takes_due = []
asked t (drops candidates swept) = []

unfoldable pub operations : Acts → History
operations [] = []
operations ((t, a) ∷ acts) = asked t a ++ operations acts

-- An instant that was read before the lock is not a later one.
abbrev pub Reads : ℕ → Act → Type 0
Reads t (operates op) = Unit
Reads t (deletes k read) = read ≤ t
Reads t takes_due = Unit
Reads t (drops candidates swept) = swept ≤ t

-- The instants at which the lock is held do not go back, from one instant on and up to another.
abbrev pub AreBetween : ℕ → Acts → ℕ → Type 0
AreBetween from [] to = from ≤ to
AreBetween from ((t, a) ∷ acts) to = (from ≤ t) × Reads t a × AreBetween t acts to

-- The instant of the command before.
abbrev pub since : Environment → ℕ → ℕ
since env zero = 0
since env (suc n) = env.clock n

-- Between the command before it and the lock of the command `n`, the other connections and the sweeper do
-- `acts n`, at instants up to the one that the command reads.
pub record IsShared (env : Environment) (acts : ℕ → Acts) : Type 0 where
  pub performs : (n : ℕ) (s : Store) → env.others n s ≡ acted s (acts n)
  pub between : (n : ℕ) → AreBetween (since env n) (acts n) (env.clock n)
  pub writable : (n : ℕ) → env.writable n ≡ true

act-Agrees :
    (s : Store) (t : ℕ) (a : Act) (d : Dictionary)
    → Reads t a
    → Agrees t s.hashmap d
    → Agrees t (act s t a).hashmap (spec_performed d (asked t a))
unfolding act spec_performed spec_perform del sweep_heap sweep_map
act-Agrees s t (operates op) d h a = (perform-Agrees s t d op a).0
act-Agrees s t (deletes k read) d h a = Agrees-remove t s.hashmap d a k
act-Agrees s t takes_due d h a = a
act-Agrees s t (drops candidates swept) d h a =
    λ k. drop_all-live candidates k swept t s.hashmap h ∙ a k

spec_performed-append :
    (d : Dictionary) (h k : History)
    → spec_performed d (h ++ k) ≡ spec_performed (spec_performed d h) k
unfolding spec_performed
spec_performed-append d [] k = refl
spec_performed-append d ((t, op) ∷ h) k = spec_performed-append (spec_perform d t op).0 h k

pub acted-Agrees :
    (acts : Acts) (s : Store) (d : Dictionary) (from to : ℕ)
    → AreBetween from acts to
    → Agrees from s.hashmap d
    → Agrees to (acted s acts).hashmap (spec_performed d (operations acts))
unfolding acted spec_performed operations
acted-Agrees [] s d from to h a = Agrees-later from to s.hashmap d h a
acted-Agrees ((t, x) ∷ acts) s d from to (h, reads, hs) a =
    subst (Agrees to (acted (act s t x) acts).hashmap)
      (sym (spec_performed-append d (asked t x) (operations acts)))
      (acted-Agrees acts (act s t x) (spec_performed d (asked t x)) t to hs
        (act-Agrees s t x d reads (Agrees-later from t s.hashmap d h a)))
