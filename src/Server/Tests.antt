-- ===== src/Server/Tests.antt =====
-- A server that serves one connection, shuts down and is started again, as in the unit tests of tests/.
use redlike.Prelude.{
  ℕ, All, ◌+◌, ◌≤◌, ◌≢◌, ◌⊎◌, ◌∷◌, arith, ◌≡◌, ap, refl, none, some, [], bytes_eq, codes,
}
use redlike.Prelude.Result.{ok}
use redlike.Store.Map
use redlike.Store.{Key, Store, expire, set, new, is_expired}
use redlike.Store.View.{live}
use redlike.Store.Spec.{perform, set_op, expire_op}
use redlike.Store.Snapshot.Restored.{Carried}
use redlike.Store.Snapshot.Sample.{
  entries_bytes, kept-IsUnique, json, json-IsFaithful, at_dump, at_restore, kept, kept-Fits,
}
use redlike.Archive.{save}
use redlike.Store.Snapshot.{dump}
use redlike.Archive.Files.{
  archive, blank, archive-NeverTemp, create, append, update, path_eq, components_eq, move, files,
  files-IsFileSystem,
}
use redlike.Server.{
  archive_store, Server, server_from_listener, finished, archiving, Reach, here, serves, tasks,
  Serves, draining, aborting, times_out, accepts, is_cancelled, operates, ends, is_drained,
  archives, run_server, ticks,
}
use redlike.Server.Shutdown.{IsArchived, server_from_listener-IsArchived}
use redlike.Server.Ending.{Run, left, IsFinished, IsPatient, server_from_listener_ends}
use redlike.Server.Restart.{run_server-IsArchived}
use redlike.Server.Continued.{IsPersistent, run_server-goes_on}
use redlike.Store.Observation.{AreIndistinguishable}
use redlike.Store.Snapshot.Entries.{perform-IsUnique}

abbrev begun : Server files json
begun = server_from_listener files json (some archive) new blank 1

-- Before the archive is saved.
abbrev drained : Server files json
drained = record begun { store = kept; spawned = 1; clock = 3; phase = archiving }

reach-drained : Reach files json begun drained
reach-drained =
    serves
      (tasks
        (serves
          (tasks
            (tasks
              (tasks (serves here (accepts _ refl))
                (operates _ [] [] 0 1 (set_op (codes "k") (codes "v")) refl))
              (operates _ [] [] 0 2 (expire_op (codes "k") 1) refl))
            (ticks _ 2))
          (is_cancelled _ refl))
        (ends _ [] [] 0 refl))
      (is_drained _ _ refl refl)

abbrev returned : Server files json
returned = record drained {
  disk = (archive_store files json (some archive) at_dump 3 kept blank).0;
  phase = finished (archive_store files json (some archive) at_dump 3 kept blank).1;
}

returned-ok : archive_store files json (some archive) at_dump 3 kept blank ≡ (returned.disk, ok tt)
unfolding archive_store save dump entries_bytes perform expire Map.get set Map.insert bytes_eq
    Map.remove Map.empty create append update path_eq components_eq move
returned-ok = refl

server_from_listener-IsArchived_example :
    (returned.open_connections ≡ []) × IsArchived files json archive returned
server_from_listener-IsArchived_example =
    server_from_listener-IsArchived files json archive new blank 1 (unfold Map.empty in tt)
      (serves reach-drained (archives _ at_dump refl)) (ap finished (ap (λ x. x.1) returned-ok))

saves : save files json at_dump 3 archive kept blank ≡ (returned.disk, ok tt)
unfolding archive_store save dump entries_bytes perform expire Map.get set Map.insert bytes_eq
    Map.remove Map.empty create append update path_eq components_eq move
saves = refl

abbrev archived : IsArchived files json archive returned
archived = record {
  store = kept;
  clocks = at_dump;
  now = 3;
  disk = blank;
  unique = kept-IsUnique;
  same = λ later k l. refl;
  saved = saves;
}

run_server-IsArchived_example :
    (s : Store) × (run_server files json (ok tt) (some archive) at_restore 1500 9 returned.disk
      ≡ ok (server_from_listener files json (some archive) s returned.disk 9))
    × ((k : Key)
        → Carried at_dump at_restore 3 1500 none
            (live 3 (Map.get kept.hashmap k))
            (Map.get s.hashmap k))
run_server-IsArchived_example =
    run_server-IsArchived files files-IsFileSystem json at_restore 1500 9 archive returned archived
      json-IsFaithful archive-NeverTemp kept-Fits

-- A server whose store holds a key that does not expire.
abbrev lasting : Store
lasting = (perform new 1 (set_op (codes "k") (codes "v"))).0

abbrev stopped : Server files json
stopped = record returned {
  store = lasting;
  disk = (archive_store files json (some archive) at_dump 3 lasting blank).0;
}

lasting-saves : save files json at_dump 3 archive lasting blank ≡ (stopped.disk, ok tt)
unfolding archive_store save dump entries_bytes is_expired perform Map.get set Map.insert bytes_eq
    Map.remove Map.empty create append update path_eq components_eq move
lasting-saves = refl

abbrev lasting_archived : IsArchived files json archive stopped
lasting_archived = record {
  store = lasting;
  clocks = at_dump;
  now = 3;
  disk = blank;
  unique = perform-IsUnique new 1 (set_op (codes "k") (codes "v")) (unfold Map.empty in tt);
  same = λ later k l. refl;
  saved = lasting-saves;
}

lasting-IsPersistent : All IsPersistent lasting.hashmap.entries
unfolding perform set Map.insert Map.get Map.empty Map.lookup Map.without
lasting-IsPersistent = (refl, tt)

run_server-goes_on_example :
    (s : Store) × (run_server files json (ok tt) (some archive) at_restore 1500 9 stopped.disk
      ≡ ok (server_from_listener files json (some archive) s stopped.disk 9))
    × ((later : ℕ) → 3 ≤ later → AreIndistinguishable later s lasting)
run_server-goes_on_example =
    run_server-goes_on files files-IsFileSystem json at_restore 1500 9 archive stopped
      lasting_archived json-IsFaithful archive-NeverTemp lasting-IsPersistent

-- One connection is open when the deadline comes.
abbrev late : Server files json
late = record begun {
  open_connections = 0 ∷ [];
  spawned = 1;
  clock = 3_000_000_002;
  phase = draining 3_000_000_002;
}

server_from_listener_ends_example :
    (1 + left aborting ≤ 3)
    × (IsFinished aborting
        ⊎ ((w : Server files json) × Serves files json
              (record late { phase = aborting; aborted = 0 ∷ [] })
              w)
        ⊎ ((late.open_connections ≢ [])
            × IsPatient aborting 3_000_000_002 late.open_connections (0 ∷ [])))
server_from_listener_ends_example =
    server_from_listener_ends files json 3_000_000_002 refl
      (Run.serves Run.idle (times_out late 3_000_000_002 refl (omega arith))) at_dump
