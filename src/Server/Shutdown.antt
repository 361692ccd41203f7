-- ===== src/Server/Shutdown.antt =====
-- What the server leaves behind when it shuts down.
use redlike.Prelude.{
  ℕ, ◌+◌, ◌≤◌, ◌≡◌, ◌≢◌, refl, sym, ap, ◌∙◌, subst, arith, Option, none, some, List, [], ◌∷◌, ◌++◌,
}
use redlike.Prelude.Result.{Result, ok, err, map_err, map_err-ok}
use redlike.Store.Map
use redlike.Store.{Key, Store, sweep_heap, sweep_map}
use redlike.Store.View.{live, drop_all-live}
use redlike.Store.Snapshot.{Json, Clocks}
use redlike.Store.Snapshot.Entries.{IsUnique, perform-IsUnique, drop_all-AreUnique}
use redlike.Archive.{PathBuf, FileSystem, save}
use redlike.Server.{
  ServerError, archive, Phase, accepting, draining, aborting, archiving, finished, Server,
  archive_store, Serves, accepts, accept_fails, is_cancelled, is_drained, times_out, is_aborted,
  archives, Tasks, operates, ends, takes_due, drops, ticks, Reach, here, serves, tasks,
  server_from_listener,
}

middle-ne-nil : {A : Type 0} (xs ys : List A) (x : A) → xs ++ x ∷ ys ≢ []
middle-ne-nil [] ys x h = cc
middle-ne-nil (y ∷ xs) ys x h = cc

module _ (system : FileSystem) (json : Json) where
  -- The disk of the server is what saving the store to the path has left, and the store has not changed
  -- since, for all who look at it from now on.
  pub record IsArchived (path : PathBuf) (y : Server system json) : Type 0 where
    pub store : Store
    pub clocks : ℕ → Clocks
    pub now : ℕ
    pub disk : system.Disk
    pub unique : IsUnique store
    pub same :
        (later : ℕ) (k : Key)
        → y.clock ≤ later
        → live later (Map.get y.store.hashmap k) ≡ live later (Map.get store.hashmap k)
    pub saved : save system json clocks now path store disk ≡ (y.disk, ok tt)

  -- What holds once no connection is left.
  abbrev Settled : Server system json → Phase → Type 0
  Settled y archiving = y.open_connections ≡ []
  Settled y (finished (ok tt)) =
      (y.open_connections ≡ [])
      × ((path : PathBuf) → y.archive_path ≡ some path → IsArchived path y)
  Settled y (finished (err e)) = y.open_connections ≡ []
  Settled y _ = Unit

  record IsSound (y : Server system json) : Type 0 where
    unique : IsUnique y.store
    settled : Settled y y.phase

  -- No task is left to act on a store that is settled.
  busy :
      (y z : Server system json) (p : Phase) (before after : List ℕ) (task : ℕ)
      → y.open_connections ≡ before ++ task ∷ after
      → Settled y p
      → Settled z p
  busy y z accepting before after task e h = tt
  busy y z (draining d) before after task e h = tt
  busy y z aborting before after task e h = tt
  busy y z archiving before after task e h = absurd (middle-ne-nil before after task (sym e ∙ h))
  busy y z (finished (ok tt)) before after task e h =
      absurd (middle-ne-nil before after task (sym e ∙ h.0))
  busy y z (finished (err x)) before after task e h =
      absurd (middle-ne-nil before after task (sym e ∙ h))

  -- Sweeps and the clock are not seen.
  unseen :
      (y : Server system json) (p : Phase) (store : Store) (clock : ℕ)
      → y.clock ≤ clock
      → ((later : ℕ) (k : Key)
          → clock ≤ later
          → live later (Map.get store.hashmap k) ≡ live later (Map.get y.store.hashmap k))
      → Settled y p
      → Settled (record y { store = store; clock = clock }) p
  unseen y accepting store clock le same h = tt
  unseen y (draining d) store clock le same h = tt
  unseen y aborting store clock le same h = tt
  unseen y archiving store clock le same h = h
  unseen y (finished (ok tt)) store clock le same h = (
    h.0,
    λ path e.
        let a : IsArchived path y = h.1 path e in
        record {
          store = a.store;
          clocks = a.clocks;
          now = a.now;
          disk = a.disk;
          unique = a.unique;
          same = λ later k l. same later k l ∙ a.same later k (omega arith);
          saved = a.saved;
        },
  )
  unseen y (finished (err x)) store clock le same h = h

  Tasks-IsSound : {y z : Server system json} → Tasks system json y z → IsSound y → IsSound z
  unfolding sweep_heap sweep_map
  Tasks-IsSound (operates y before after task now op e) h = record {
    unique = perform-IsUnique y.store now op h.unique;
    settled = busy y _ y.phase before after task e h.settled;
  }
  Tasks-IsSound (ends y before after task e) h = record {
    unique = h.unique;
    settled = busy y _ y.phase before after task e h.settled;
  }
  Tasks-IsSound (takes_due y) h = record {
    unique = h.unique;
    settled =
        unseen y y.phase (sweep_heap y.store y.clock).0 y.clock (omega arith) (λ later k l. refl)
          h.settled;
  }
  Tasks-IsSound (drops y ks swept le) h = record {
    unique = drop_all-AreUnique ks swept y.store.hashmap h.unique;
    settled =
        unseen y y.phase (sweep_map y.store ks swept) y.clock (omega arith)
          (λ later k l. drop_all-live ks k swept later y.store.hashmap (omega arith)) h.settled;
  }
  Tasks-IsSound (ticks y n) h = record {
    unique = h.unique;
    settled = unseen y y.phase y.store (y.clock + n) (omega arith) (λ later k l. refl) h.settled;
  }

  -- The server after its last step.
  abbrev left :
      Server system json → system.Disk → Result (Unit {0}) ServerError → Server system json
  left y disk r = record y { disk = disk; phase = finished r }

  saved_with :
      (y : Server system json) (path : PathBuf) (clocks : ℕ → Clocks)
      (r : Result (Unit {0}) ServerError)
      → y.open_connections ≡ []
      → IsUnique y.store
      → y.archive_path ≡ some path
      → map_err archive (save system json clocks y.clock path y.store y.disk).1 ≡ r
      → Settled (left y (save system json clocks y.clock path y.store y.disk).0 r) (finished r)
  saved_with y path clocks (ok tt) idle unique at e = (
    idle,
    λ q eq.
        subst
          (λ p.
            IsArchived p (left y (save system json clocks y.clock path y.store y.disk).0 (ok tt)))
          (some_injective path q (sym at ∙ eq))
          (record {
            store = y.store;
            clocks = clocks;
            now = y.clock;
            disk = y.disk;
            unique = unique;
            same = λ later k l. refl;
            saved =
                pair (save system json clocks y.clock path y.store y.disk)
                  (map_err-ok archive (save system json clocks y.clock path y.store y.disk).1 tt e);
          }),
  )
    where
      some_injective : (p q : PathBuf) → some p ≡ some q → p ≡ q
      some_injective p q x = cc

      pair : {A B : Type 0} {b : B} (x : A × B) → x.1 ≡ b → x ≡ (x.0, b)
      pair (u, v) x = ap (λ w. (u, w)) x
  saved_with y path clocks (err x) idle unique at e = idle

  archived :
      (y : Server system json) (clocks : ℕ → Clocks) (o : Option PathBuf)
      → y.open_connections ≡ []
      → IsUnique y.store
      → y.archive_path ≡ o
      → Settled
          (left y
            (archive_store system json o clocks y.clock y.store y.disk).0
            (archive_store system json o clocks y.clock y.store y.disk).1)
          (finished (archive_store system json o clocks y.clock y.store y.disk).1)
  unfolding archive_store
  archived y clocks none idle unique e = (idle, λ path eq. absurd (cc (sym e ∙ eq)))
  archived y clocks (some path) idle unique e =
      saved_with y path clocks
        (map_err archive (save system json clocks y.clock path y.store y.disk).1) idle unique e refl

  at_phase : (y : Server system json) (p : Phase) → y.phase ≡ p → IsSound y → Settled y p
  at_phase y p e h = subst (Settled y) e h.settled

  Serves-IsSound : {y z : Server system json} → Serves system json y z → IsSound y → IsSound z
  Serves-IsSound (accepts y e) h = record { unique = h.unique; settled = rw e tt }
  Serves-IsSound (accept_fails y e) h = h
  Serves-IsSound (is_cancelled y e) h = record { unique = h.unique; settled = tt }
  Serves-IsSound (is_drained y d e idle) h = record { unique = h.unique; settled = idle }
  Serves-IsSound (times_out y d e le) h = record { unique = h.unique; settled = tt }
  Serves-IsSound (is_aborted y e idle) h = record { unique = h.unique; settled = idle }
  Serves-IsSound (archives y clocks e) h = record {
    unique = h.unique;
    settled = archived y clocks y.archive_path (at_phase y archiving e h) h.unique refl;
  }

  Reach-IsSound : {y z : Server system json} → Reach system json y z → IsSound y → IsSound z
  Reach-IsSound here h = h
  Reach-IsSound (serves r s) h = Serves-IsSound s (Reach-IsSound r h)
  Reach-IsSound (tasks r t) h = Tasks-IsSound t (Reach-IsSound r h)

  Serves-archive_path :
      {y z : Server system json} → Serves system json y z → z.archive_path ≡ y.archive_path
  Serves-archive_path (accepts y e) = refl
  Serves-archive_path (accept_fails y e) = refl
  Serves-archive_path (is_cancelled y e) = refl
  Serves-archive_path (is_drained y d e idle) = refl
  Serves-archive_path (times_out y d e le) = refl
  Serves-archive_path (is_aborted y e idle) = refl
  Serves-archive_path (archives y clocks e) = refl

  Tasks-archive_path :
      {y z : Server system json} → Tasks system json y z → z.archive_path ≡ y.archive_path
  Tasks-archive_path (operates y before after task now op e) = refl
  Tasks-archive_path (ends y before after task e) = refl
  Tasks-archive_path (takes_due y) = refl
  Tasks-archive_path (drops y ks swept le) = refl
  Tasks-archive_path (ticks y n) = refl

  Reach-archive_path :
      {y z : Server system json} → Reach system json y z → z.archive_path ≡ y.archive_path
  Reach-archive_path here = refl
  Reach-archive_path (serves r s) = Serves-archive_path s ∙ Reach-archive_path r
  Reach-archive_path (tasks r t) = Tasks-archive_path t ∙ Reach-archive_path r

  -- However the tasks of the server interleave, with connections that are accepted, drained or aborted: once
  -- it has returned without an error, no connection is left, and the archive is what saving the store to
  -- its path gives, a store that shows at every later instant what the server's store shows. The keys of
  -- the store that the server starts with are distinct.
  pub server_from_listener-IsArchived :
      (path : PathBuf) (store : Store) (disk : system.Disk) (clock : ℕ)
      → IsUnique store
      → {y : Server system json}
      → Reach system json (server_from_listener system json (some path) store disk clock) y
      → y.phase ≡ finished (ok tt)
      → (y.open_connections ≡ []) × IsArchived path y
  server_from_listener-IsArchived path store disk clock unique {y} r e =
      let (idle, archived) =
        at_phase y (finished (ok tt)) e
          (Reach-IsSound r (record { unique = unique; settled = tt })) in
      (idle, archived path (Reach-archive_path r))
