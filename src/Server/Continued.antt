-- ===== src/Server/Continued.antt =====
-- A server that is stopped and started again, to a client that comes back to it (src/server.rs, src/store.rs).
use redlike.Prelude.{
  ℕ, ◌≤◌, ◌≡◌, sym, ap, ◌∙◌, Bool-cases, inl, inr, Option, none, some, List, [], ◌∷◌, All, Bytes,
  bytes_eq,
}
use redlike.Prelude.Result.{ok}
use redlike.Store.Map
use redlike.Store.Map.{lookup}
use redlike.Store.{Key, Store, StoreValue, is_expired}
use redlike.Store.View.{live, view}
use redlike.Store.Observation.{AreIndistinguishable, indistinguishable_iff}
use redlike.Store.Snapshot.{Json, Clocks, IsFaithful}
use redlike.Store.Snapshot.Restored.{Fits, Carried}
use redlike.Archive.{PathBuf, FileSystem}
use redlike.Archive.Disk.{IsFileSystem, NeverTemp}
use redlike.Server.{Server, run_server, server_from_listener}
use redlike.Server.Shutdown.{IsArchived}
use redlike.Server.Restart.{run_server-IsArchived}

-- An entry that does not expire.
abbrev pub IsPersistent : Key × StoreValue → Type 0
IsPersistent x = x.1.expiration_time ≡ none

-- So is what is found under a key.
abbrev Stays : Option StoreValue → Type 0
Stays none = Unit
Stays (some v) = v.expiration_time ≡ none

lookup-Stays :
    (k : Key) (entries : List (Key × StoreValue))
    → All IsPersistent entries
    → Stays (lookup k entries)
unfolding lookup
lookup-Stays k [] h = tt
lookup-Stays k ((j, v) ∷ entries) (h, hs) = elim (Bool-cases (bytes_eq j k)) [
  | inl same ↦ rw same h
  | inr other ↦ rw other (lookup-Stays k entries hs)
]

persistent-Fits :
    (dumped restored : ℕ → Clocks) (now unix : ℕ) (entries : List (Key × StoreValue))
    → All IsPersistent entries
    → All (λ (x : Key × StoreValue). Fits dumped restored now unix x.1.expiration_time) entries
persistent-Fits dumped restored now unix [] h = tt
persistent-Fits dumped restored now unix (x ∷ entries) (h, hs) =
    (rw h tt, persistent-Fits dumped restored now unix entries hs)

-- What does not expire is carried as it is.
Carried-Stays :
    (dumped restored : ℕ → Clocks) (now unix : ℕ) (o after : Option StoreValue)
    → Stays o
    → Carried dumped restored now unix none (live now o) after
    → after ≡ o
unfolding is_expired
Carried-Stays dumped restored now unix none after h c = c
Carried-Stays dumped restored now unix (some v) after h c = kept v.value v.expiration_time h c
  where
    kept :
        (value : Bytes) (o : Option ℕ)
        → o ≡ none
        → Carried dumped restored now unix none
            (live now (some (record { value = value; expiration_time = o })))
            after
        → after ≡ some (record { value = value; expiration_time = o })
    kept value none h c = c
    kept value (some t) h c = absurd (cc)

-- Where none of the entries that were archived expires, the server that is started again on the archive
-- answers every history of operations, from the shutdown on, as the one that was stopped would have: a
-- client that comes back cannot tell that it was stopped. No temporary file can get the archive's name, and
-- the JSON library reads back what it writes; the file system's calls do what their documentation says.
pub run_server-goes_on :
    (system : FileSystem) (law : IsFileSystem system) (json : Json) (restored : ℕ → Clocks)
    (now_unix_millis clock : ℕ) (path : PathBuf) (y : Server system json)
    (a : IsArchived system json path y)
    → IsFaithful json
    → NeverTemp system path
    → All IsPersistent a.store.hashmap.entries
    → (s : Store) × (run_server system json
          (ok tt)
          (some path)
          restored
          now_unix_millis
          clock
          y.disk
        ≡ ok (server_from_listener system json (some path) s y.disk clock))
      × ((later : ℕ) → y.clock ≤ later → AreIndistinguishable later s y.store)
run_server-goes_on system law json restored unix clock path y a faithful never persistent =
    let (s, e, carried) =
      run_server-IsArchived system law json restored unix clock path y a faithful never
        (persistent-Fits a.clocks restored a.now unix a.store.hashmap.entries persistent) in
    (
      s,
      e,
      λ later le. (indistinguishable_iff later s y.store).1 (
          unfold view in
          λ k.
            ap (live later) (
              Carried-Stays a.clocks restored a.now unix (Map.get a.store.hashmap k)
                (Map.get s.hashmap k)
                (unfold Map.get in lookup-Stays k a.store.hashmap.entries persistent) (carried k))
            ∙ sym (a.same later k le)),
    )
