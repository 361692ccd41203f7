-- ===== src/Server/Ending.antt =====
-- That `server_from_listener` (src/server.rs) comes to its end once it is told to shut down.
use mathlib.Core.List.{Mem, mem-append_right, mem-cons_self}
use redlike.Prelude.{
  All, ◌++◌, append_assoc, ℕ, suc, ◌+◌, ◌≤◌, ◌<◌, ◌≡◌, ◌≢◌, ◌⊎◌, inl, inr, refl, sym, subst, List,
  [], ◌∷◌, arith, leb, Bool-cases,
}
use redlike.Store.Snapshot.{Json, Clocks}
use redlike.Archive.{FileSystem}
use redlike.Server.{
  Phase, accepting, draining, aborting, archiving, finished, Server, Serves, accepts, accept_fails,
  is_cancelled, is_drained, times_out, is_aborted, archives, Tasks, operates, ends, takes_due,
  drops, ticks,
}

-- The steps that are left at most.
abbrev pub left : Phase → ℕ
left accepting = 4
left (draining deadline) = 3
left aborting = 2
left archiving = 1
left (finished result) = 0

abbrev pub IsClosing : Phase → Type 0
IsClosing accepting = ⊥
IsClosing _ = Unit

abbrev pub IsFinished : Phase → Type 0
IsFinished (finished result) = Unit
IsFinished _ = ⊥

-- What the server may wait for: before the deadline, connections that were told to stop, and behind it, such as were
-- aborted, every one of them.
abbrev pub IsPatient : Phase → ℕ → List ℕ → List ℕ → Type 0
IsPatient (draining deadline) clock connections aborted = clock < deadline
IsPatient aborting clock connections aborted = All (λ task. Mem task aborted) connections
IsPatient _ clock connections aborted = ⊥

-- No connection is forgotten by `abort_all`.
abbrev AreAborted : Phase → List ℕ → List ℕ → Type 0
AreAborted aborting connections aborted = All (λ task. Mem task aborted) connections
AreAborted _ connections aborted = Unit

All-Mem : (before after : List ℕ) → All (λ task. Mem task (before ++ after)) after
All-Mem before [] = tt
All-Mem before (task ∷ after) = (
  mem-append_right before mem-cons_self,
  subst (λ l. All (λ x. Mem x l) after) (append_assoc before (task ∷ []) after)
      (All-Mem (before ++ task ∷ []) after),
)

All-drop :
    (P : ℕ → Type 0) (before after : List ℕ) (task : ℕ)
    → All P (before ++ task ∷ after)
    → All P (before ++ after)
All-drop P [] after task h = h.1
All-drop P (x ∷ before) after task h = (h.0, All-drop P before after task h.1)

AreAborted-drop :
    (p : Phase) (before after aborted : List ℕ) (task : ℕ)
    → AreAborted p (before ++ task ∷ after) aborted
    → AreAborted p (before ++ after) aborted
AreAborted-drop accepting before after aborted task h = tt
AreAborted-drop (draining d) before after aborted task h = tt
AreAborted-drop aborting before after aborted task h =
    All-drop (λ x. Mem x aborted) before after task h
AreAborted-drop archiving before after aborted task h = tt
AreAborted-drop (finished r) before after aborted task h = tt

module _ (system : FileSystem) (json : Json) where
  -- A run in which the server takes this many steps, with any actions of its tasks between them.
  pub data Run (y : Server system json) : ℕ → Server system json → Type 0 where
    idle : Run y 0 y
    serves :
        {n : ℕ} {z w : Server system json} → Run y n z → Serves system json z w → Run y (suc n) w
    tasks : {n : ℕ} {z w : Server system json} → Run y n z → Tasks system json z w → Run y n w

  Tasks-phase : {y z : Server system json} → Tasks system json y z → z.phase ≡ y.phase
  Tasks-phase (operates y before after task now op e) = refl
  Tasks-phase (ends y before after task e) = refl
  Tasks-phase (takes_due y) = refl
  Tasks-phase (drops y candidates swept le) = refl
  Tasks-phase (ticks y n) = refl

  abbrev IsSettled : Server system json → Type 0
  IsSettled y = AreAborted y.phase y.open_connections y.aborted

  Tasks-IsSettled : {y z : Server system json} → Tasks system json y z → IsSettled y → IsSettled z
  Tasks-IsSettled (operates y before after task now op e) h = h
  Tasks-IsSettled (ends y before after task e) h =
      AreAborted-drop y.phase before after y.aborted task
        (subst (λ l. AreAborted y.phase l y.aborted) e h)
  Tasks-IsSettled (takes_due y) h = h
  Tasks-IsSettled (drops y candidates swept le) h = h
  Tasks-IsSettled (ticks y n) h = h

  Serves-IsSettled : {y z : Server system json} → Serves system json y z → IsSettled y → IsSettled z
  Serves-IsSettled (accepts y e) h = rw e tt
  Serves-IsSettled (accept_fails y e) h = h
  Serves-IsSettled (is_cancelled y e) h = tt
  Serves-IsSettled (is_drained y deadline e none_open) h = tt
  Serves-IsSettled (times_out y deadline e due) h = All-Mem [] y.open_connections
  Serves-IsSettled (is_aborted y e none_open) h = tt
  Serves-IsSettled (archives y clocks e) h = tt

  Run-IsSettled :
      {y : Server system json} {n : ℕ} {z : Server system json}
      → Run y n z
      → IsSettled y
      → IsSettled z
  Run-IsSettled idle h = h
  Run-IsSettled (serves r s) h = Serves-IsSettled s (Run-IsSettled r h)
  Run-IsSettled (tasks r t) h = Tasks-IsSettled t (Run-IsSettled r h)

  -- A step behind the loop leads on.
  Serves-left :
      {y z : Server system json}
      → Serves system json y z
      → IsClosing y.phase
      → IsClosing z.phase × (left z.phase < left y.phase)
  Serves-left (accepts y e) h = absurd (subst IsClosing e h)
  Serves-left (accept_fails y e) h = absurd (subst IsClosing e h)
  Serves-left (is_cancelled y e) h = absurd (subst IsClosing e h)
  Serves-left (is_drained y deadline e none_open) h = (tt, rw e (omega arith))
  Serves-left (times_out y deadline e due) h = (tt, rw e (omega arith))
  Serves-left (is_aborted y e none_open) h = (tt, rw e (omega arith))
  Serves-left (archives y clocks e) h = (tt, rw e (omega arith))

  Run-left :
      {y : Server system json} {n : ℕ} {z : Server system json}
      → Run y n z
      → IsClosing y.phase
      → IsClosing z.phase × (n + left z.phase ≤ left y.phase)
  Run-left idle h = (h, omega arith)
  Run-left (serves r s) h =
      let (h', le) = Run-left r h in let (h'', lt) = Serves-left s h' in (h'', omega arith)
  Run-left {y} {n} (tasks r t) h =
      let (h', le) = Run-left r h in
      (
        subst IsClosing (sym (Tasks-phase t)) h',
        subst (λ p. n + left p ≤ left y.phase) (sym (Tasks-phase t)) le,
      )

  -- Where the server stands, it goes on, unless it waits for connections.
  Phase-moves :
      (clocks : ℕ → Clocks) (z : Server system json) (p : Phase) (connections : List ℕ)
      → z.phase ≡ p
      → z.open_connections ≡ connections
      → IsClosing p
      → AreAborted p connections z.aborted
      → IsFinished p
        ⊎ ((w : Server system json) × Serves system json z w)
        ⊎ ((connections ≢ []) × IsPatient p z.clock connections z.aborted)
  Phase-moves clocks z accepting connections e f h a = absurd h
  Phase-moves clocks z (draining deadline) [] e f h a = inr (inl (_, is_drained z deadline e f))
  Phase-moves clocks z (draining deadline) (task ∷ others) e f h a =
      elim (Bool-cases (leb deadline z.clock)) [
        | inl due ↦ inr (inl (_, times_out z deadline e (ground arith)))
        | inr early ↦ inr (inr ((λ x. cc), ground arith))
      ]
  Phase-moves clocks z aborting [] e f h a = inr (inl (_, is_aborted z e f))
  Phase-moves clocks z aborting (task ∷ others) e f h a = inr (inr ((λ x. cc), a))
  Phase-moves clocks z archiving connections e f h a = inr (inl (_, archives z clocks e))
  Phase-moves clocks z (finished result) connections e f h a = inl tt

  -- Once the server is told to shut down it does not hang by itself: it takes at most three more steps, with any
  -- actions of its tasks between them, and wherever it then stands, it has returned, or it can take the next
  -- step, or connections are open, and it is before its deadline, or every one of them was
  -- aborted. A task that was aborted ends where it next waits, as `abort_all` documents.
  pub server_from_listener_ends :
      {y : Server system json} {n : ℕ} {z : Server system json} (deadline : ℕ)
      → y.phase ≡ draining deadline
      → Run y n z
      → (ℕ → Clocks)
      → (n + left z.phase ≤ 3)
        × (IsFinished z.phase
            ⊎ ((w : Server system json) × Serves system json z w)
            ⊎ ((z.open_connections ≢ []) × IsPatient z.phase z.clock z.open_connections z.aborted))
  server_from_listener_ends {y} {n} {z} deadline told run clocks =
      let (h', le) = Run-left run (rw told tt) in
      (
        subst (λ p. n + left z.phase ≤ left p) told le,
        Phase-moves clocks z z.phase z.open_connections refl refl h'
            (Run-IsSettled run (rw told tt)),
      )
