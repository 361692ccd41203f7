-- ===== src/Store/Snapshot/Restored.antt =====
-- What survives `dump` and `restore`.
use redlike.Prelude.{
  ◌/◌, ℕ, suc, ◌+◌, ◌-◌, ◌*◌, ◌≤◌, ◌<◌, ◌≡◌, ◌⊎◌, inl, inr, refl, ◌∙◌, subst, true, false, Option,
  none, some, List, [], ◌∷◌, ltb, if◌then◌else◌, arith, All, Bytes, bytes_eq, bytes_eq_iff,
  Bool-cases, u64_max,
}
use redlike.Prelude.Result.{ok}
use mathlib.Core.Option
use mathlib.Core.Path.{subst₂}
use redlike.Store.Map
use redlike.Store.Map.{HashMap, lookup, get-insert, get-empty}
use redlike.Store.{Key, StoreValue, Store, is_expired, instant_limit}
use redlike.Store.View.{live}
use redlike.Store.Snapshot.{
  Clocks, Json, IsFaithful, unix_time, snapshot_value, snapshot_entries, to_snapshot, unexpired,
  outlives, expiration_instant, store_value, collect_entries, collect_expirations, contains_key,
  has_duplicate, from_parts, from_snapshot, dump, restore,
}
use redlike.Store.Snapshot.Entries.{AreUnique, IsUnique}

-- No key of the entries has been seen before, so none is found twice.
once :
    (clocks : ℕ → Clocks) (now i : ℕ) (seen : List Key) (entries : List (Key × StoreValue))
    → AreUnique entries
    → ((k : Key) → contains_key k seen ≡ true → lookup k entries ≡ none)
    → has_duplicate seen (snapshot_entries clocks now i entries) ≡ false
unfolding snapshot_entries has_duplicate lookup contains_key
once clocks now i seen [] h new = refl
once clocks now i seen ((j, v) ∷ entries) (h, hs) new = elim (Bool-cases (is_expired v now)) [
  | inl old ↦ ground (arith, old, once clocks now i seen entries hs not_seen)
  | inr fresh ↦ ground (arith, fresh, first, once clocks now (suc i) (j ∷ seen) entries hs still)
]
  where
    not_seen : (k : Key) → contains_key k seen ≡ true → lookup k entries ≡ none
    not_seen k c = ground (arith, new k c)

    first : contains_key j seen ≡ false
    first = ground (arith, new j, bytes_eq_iff j j)

    still : (k : Key) → contains_key k (j ∷ seen) ≡ true → lookup k entries ≡ none
    still k c = elim (Bool-cases (bytes_eq j k)) [
      | inl same ↦ subst (λ x. lookup x entries ≡ none) ((bytes_eq_iff j k).0 same) h
      | inr other ↦ not_seen k (ground (arith, c, other))
    ]

-- The Unix time, in milliseconds, of an expiration that is dumped, from now or from a time gone by.
abbrev pub dumped_time : Clocks → ℕ → ℕ
dumped_time c t = (t - c.instant) / 1_000_000 + c.unix_millis

-- The instant at which a restored entry expires.
abbrev pub restored_instant : Clocks → ℕ → ℕ
restored_instant c unix = c.instant + (unix - c.unix_millis) * 1_000_000

module _ (dumped restored : ℕ → Clocks) (now now_unix_millis : ℕ) where
  -- The expiration is not too far away to be restored, whenever that is.
  abbrev pub Fits : Option ℕ → Type 0
  Fits none = Unit
  Fits (some t) =
      (i j : ℕ)
      → (dumped_time (dumped i) t - (restored j).unix_millis ≤ u64_max)
        × (restored_instant (restored j) (dumped_time (dumped i) t) < instant_limit)

  -- What a value and its expiration have become: the value is the same; an expiration has gone by, and
  -- there is what was there before, or it is as far from now as the two clocks say.
  abbrev pub CarriedValue : Option StoreValue → Bytes → Option ℕ → Option StoreValue → Type 0
  CarriedValue before value none after =
      after ≡ some (record { value = value; expiration_time = none })
  CarriedValue before value (some t) after =
      (i : ℕ) × (j : ℕ) × (after ≡ (
        if ltb now_unix_millis (dumped_time (dumped i) t)
        then some (record {
          value = value;
          expiration_time = some (restored_instant (restored j) (dumped_time (dumped i) t));
        })
        else before))

  abbrev pub Carried : Option StoreValue → Option StoreValue → Option StoreValue → Type 0
  Carried before none after = after ≡ before
  Carried before (some v) after = CarriedValue before v.value v.expiration_time after

  -- An entry is left out, or converted.
  carry :
      (value : Bytes) (o : Option ℕ) (i j : ℕ)
      → Fits o
      → ((outlives now_unix_millis (Option.map (unix_time (dumped i)) o) ≡ false)
          × ((before after : Option StoreValue)
              → after ≡ before
              → CarriedValue before value o after))
        ⊎ ((outlives now_unix_millis (Option.map (unix_time (dumped i)) o) ≡ true)
            × (w : StoreValue) × (store_value
                  (restored j)
                  value
                  (Option.map (unix_time (dumped i)) o)
                ≡ ok w)
            × ((before after : Option StoreValue)
                → after ≡ some w
                → CarriedValue before value o after))
  unfolding outlives store_value unix_time
  carry value none i j h = inr (refl, _, refl, λ before after e. e)
  carry value (some t) i j h = elim (Bool-cases (ltb now_unix_millis (unix_time (dumped i) t))) [
    | inl late ↦ inr (
      late,
      record {
        value = value;
        expiration_time = some (restored_instant (restored j) (dumped_time (dumped i) t));
      },
      (unfold expiration_instant in ground (arith, (h i j).0, (h i j).1)),
      λ before after e. (i, j, ground (arith, e, late)),
    )
    | inr early ↦ inl (early, λ before after e. (i, j, ground (arith, e, early)))
  ]

  Carried-transport :
      (before before' o o' after : Option StoreValue)
      → before ≡ before'
      → o ≡ o'
      → Carried before o after
      → Carried before' o' after
  Carried-transport before before' o o' after e x c = subst₂ (λ b y. Carried b y after) e x c

  -- What the conversions make of the entries of a map, on top of what a map holds already.
  abbrev Collects : ℕ → ℕ → List (Key × StoreValue) → HashMap StoreValue → Type 0
  Collects i j entries m =
      (m' : HashMap StoreValue) × (collect_entries restored j
          (unexpired now_unix_millis (snapshot_entries dumped now i entries)) m
        ≡ ok m')
      × ((k : Key) → Carried (Map.get m k) (live now (lookup k entries)) (Map.get m' k))

  -- An entry in front whose key the others lack.
  Carried-front :
      (before before' after : Option StoreValue) (key k : Key) (v : StoreValue)
      (entries : List (Key × StoreValue))
      → lookup key entries ≡ none
      → (key ≡ k → Carried before' none after → Carried before (live now (some v)) after)
      → (bytes_eq key k ≡ false → before' ≡ before)
      → Carried before' (live now (lookup k entries)) after
      → Carried before (live now (lookup k ((key, v) ∷ entries))) after
  unfolding lookup
  Carried-front before before' after key k v entries h front rest c =
      elim (Bool-cases (bytes_eq key k)) [
        | inl same ↦
            let e : key ≡ k = (bytes_eq_iff key k).0 same in
            Carried-transport before before (live now (some v))
              (live now (lookup k ((key, v) ∷ entries))) after refl (rw same refl)
              (front e (
                subst (λ o. Carried before' (live now o) after)
                  (subst (λ x. lookup x entries ≡ none) e h) c))
        | inr other ↦
            Carried-transport before' before (live now (lookup k entries))
              (live now (lookup k ((key, v) ∷ entries))) after (rest other) (rw other refl) c
      ]

  -- The front entry, once it is known what became of it.
  Collects-dropped :
      (i j : ℕ) (key : Key) (v : StoreValue) (entries : List (Key × StoreValue))
      (m : HashMap StoreValue)
      → lookup key entries ≡ none
      → is_expired v now ≡ false
      → outlives now_unix_millis (Option.map (unix_time (dumped i)) v.expiration_time) ≡ false
      → ((before after : Option StoreValue) → after ≡ before → Carried before (some v) after)
      → Collects (suc i) j entries m
      → Collects i j ((key, v) ∷ entries) m
  unfolding snapshot_entries unexpired snapshot_value
  Collects-dropped i j key v entries m h fresh early kept (m', e, c) = (
    m',
    rw (fresh, early, e) refl,
    λ k.
        Carried-front (Map.get m k) (Map.get m k) (Map.get m' k) key k v entries h
          (λ same x. rw fresh (kept (Map.get m k) (Map.get m' k) x)) (λ _. refl) (c k),
  )

  Collects-kept :
      (i j : ℕ) (key : Key) (v w : StoreValue) (entries : List (Key × StoreValue))
      (m : HashMap StoreValue)
      → lookup key entries ≡ none
      → is_expired v now ≡ false
      → outlives now_unix_millis (Option.map (unix_time (dumped i)) v.expiration_time) ≡ true
      → store_value (restored j) v.value (Option.map (unix_time (dumped i)) v.expiration_time)
        ≡ ok w
      → ((before after : Option StoreValue) → after ≡ some w → Carried before (some v) after)
      → Collects (suc i) (suc j) entries (Map.insert m key w)
      → Collects i j ((key, v) ∷ entries) m
  unfolding snapshot_entries unexpired snapshot_value collect_entries
  Collects-kept i j key v w entries m h fresh late converted kept (m', e, c) = (
    m',
    rw (fresh, late, converted, e) refl,
    λ k.
        Carried-front (Map.get m k) (Map.get (Map.insert m key w) k) (Map.get m' k) key k v entries
          h
          (λ same x. rw fresh (
            kept (Map.get m k) (Map.get m' k)
              (x ∙ (rw get-insert (rw ((bytes_eq_iff key k).1 same) refl)))))
          (λ other. rw get-insert (rw other refl)) (c k),
  )

  collects :
      (i j : ℕ) (entries : List (Key × StoreValue)) (m : HashMap StoreValue)
      → AreUnique entries
      → All (λ (x : Key × StoreValue). Fits x.1.expiration_time) entries
      → Collects i j entries m
  unfolding snapshot_entries unexpired collect_entries lookup
  collects i j [] m h fits = (m, refl, λ k. refl)
  collects i j ((key, v) ∷ entries) m (h, hs) (fit, fits) = elim (Bool-cases (is_expired v now)) [
    | inl old ↦
        let (m', e, c) = collects i j entries m hs fits in
        (
          m',
          rw (old, e) refl,
          λ k.
              Carried-front (Map.get m k) (Map.get m k) (Map.get m' k) key k v entries h
                (λ same x. rw old x) (λ _. refl) (c k),
        )
    | inr fresh ↦ elim (carry v.value v.expiration_time i j fit) [
      | inl (early, kept) ↦
          Collects-dropped i j key v entries m h fresh early kept
            (collects (suc i) j entries m hs fits)
      | inr (late, w, converted, kept) ↦
          Collects-kept i j key v w entries m h fresh late converted kept
            (collects (suc i) (suc j) entries (Map.insert m key w) hs fits)
    ]
  ]

  -- A store whose keys are distinct and whose expirations are not too far away is restored from its dump:
  -- what had expired when it was dumped is missing, and so is what expires until it is restored; the other
  -- entries have their values, and an expiration, if they had one, that is as far away as the clocks say.
  -- The JSON library reads back what it writes.
  pub restore-dump :
      (json : Json)
      → IsFaithful json
      → (s : Store) (bytes : Bytes) → IsUnique s
      → All (λ (x : Key × StoreValue). Fits x.1.expiration_time) s.hashmap.entries
      → dump json dumped now s ≡ some bytes
      → (s' : Store) × (restore json restored now_unix_millis bytes ≡ ok s')
        × ((k : Key) → Carried none (live now (Map.get s.hashmap k)) (Map.get s'.hashmap k))
  unfolding dump restore from_snapshot Map.get
  restore-dump json faithful s bytes unique fits written =
      let (m, e, c) = collects 0 0 s.hashmap.entries Map.empty unique fits in
      let fresh =
        once dumped now 0 [] s.hashmap.entries unique (λ k. unfold contains_key in λ x. cc) in
      (
        from_parts m (collect_expirations m.entries),
        rw (faithful.reads_back (to_snapshot dumped now s) bytes written, restore)
            (rw (to_snapshot, from_snapshot, fresh) (rw e refl)),
        λ k.
            subst (λ o. Carried o (live now (Map.get s.hashmap k)) (Map.get m k)) (get-empty k)
              (c k),
      )
