-- ===== src/Store/Suite/Sweeps.antt =====
-- Sweeps in the unit tests of src/store.rs, and tasks that run beside each other, in both orders.
use redlike.Prelude.{
  ℕ, zero, suc, ◌*◌, ◌≡◌, refl, Bool, true, false, ◌||◌, none, some, [], ◌∷◌, bytes_eq, codes, pos,
  negsuc,
}
use redlike.Store.Map
use redlike.Store.Expirations.{push, entry_le}
use redlike.Store.{Key, Store, returns, new, get, set, del, expire, ttl, sweep_expired_once}
use redlike.Store.Spec.{
  get_op, set_op, del_op, expire_op, ttl_op, sweep_op, done, value, outcome, number, perform,
  answers,
}
use redlike.Store.Suite.{Answers, after, key, milli, second}

-- Ten keys of one byte that expire at once, and one that does not.
unfoldable fill : ℕ → Store → Store
unfolding set expire
fill zero s = s
fill (suc i) s = (expire (set (fill i s) (i ∷ []) (codes "value")).0 (i ∷ []) 0 0).0

unfoldable filled : Store
unfolding fill set
filled = (set (fill 10 new) (codes "persistent_key") (codes "this key should remain")).0

unfoldable holds_key : Store → Key → Bool
unfolding Map.get
holds_key s k = elim (Map.get s.hashmap k) [ none ↦ false | some v ↦ true ]

unfoldable holds_any : ℕ → Store → Bool
unfolding holds_key
holds_any zero s = false
holds_any (suc i) s = holds_key s (i ∷ []) || holds_any i s

abbrev StaleHeapEntryDoesNotDeleteReexpiredKey : Type 0
StaleHeapEntryDoesNotDeleteReexpiredKey =
    Answers
      ((0, set_op key (codes "value"))
        ∷ (0, expire_op key 5)
        ∷ (0, expire_op key 10)
        ∷ (5 * second, sweep_op)
        ∷ (5 * second, get_op key)
        ∷ (5 * second, ttl_op key)
        ∷ (10 * second, sweep_op)
        ∷ (10 * second, get_op key)
        ∷ (10 * second, ttl_op key)
        ∷ [])
      (done
        ∷ outcome (returns 1)
        ∷ outcome (returns 1)
        ∷ done
        ∷ value (some (codes "value"))
        ∷ number (pos 5)
        ∷ done
        ∷ value none
        ∷ number (negsuc 1)
        ∷ [])

abbrev SweepOnceClearsAllExpiredKeys : Type 0
SweepOnceClearsAllExpiredKeys =
    (let s = sweep_expired_once filled milli in
      (holds_any 10 s ≡ false)
      × (holds_key s (codes "persistent_key") ≡ true)
      × (s.expiration_heap ≡ []))

abbrev ConcurrentExpires : Type 0
ConcurrentExpires =
    (Answers
      ((0, set_op key (codes "my_val"))
        ∷ (0, expire_op key 5)
        ∷ (0, expire_op key 10)
        ∷ (5 * second, sweep_op)
        ∷ (5 * second, get_op key)
        ∷ (10 * second, sweep_op)
        ∷ (10 * second, get_op key)
        ∷ [])
      (done
        ∷ outcome (returns 1)
        ∷ outcome (returns 1)
        ∷ done
        ∷ value (some (codes "my_val"))
        ∷ done
        ∷ value none
        ∷ []))
    × (Answers
        ((0, set_op key (codes "my_val"))
          ∷ (0, expire_op key 10)
          ∷ (0, expire_op key 5)
          ∷ (5 * second, sweep_op)
          ∷ (5 * second, get_op key)
          ∷ (10 * second, sweep_op)
          ∷ (10 * second, get_op key)
          ∷ [])
        (done
          ∷ outcome (returns 1)
          ∷ outcome (returns 1)
          ∷ done
          ∷ value none
          ∷ done
          ∷ value none
          ∷ []))

abbrev ConcurrentDelVsTtl : Type 0
ConcurrentDelVsTtl =
    (Answers
      ((0, set_op key (codes "my_val"))
        ∷ (0, expire_op key 0)
        ∷ (0, del_op key)
        ∷ (0, sweep_op)
        ∷ (0, get_op key)
        ∷ (0, ttl_op key)
        ∷ [])
      (done ∷ outcome (returns 1) ∷ value none ∷ done ∷ value none ∷ number (negsuc 1) ∷ []))
    × (Answers
        ((0, set_op key (codes "my_val"))
          ∷ (0, del_op key)
          ∷ (0, expire_op key 0)
          ∷ (0, sweep_op)
          ∷ (0, get_op key)
          ∷ (0, ttl_op key)
          ∷ [])
        (done
          ∷ value (some (codes "my_val"))
          ∷ outcome (returns 0)
          ∷ done
          ∷ value none
          ∷ number (negsuc 1)
          ∷ []))

all_pass :
    StaleHeapEntryDoesNotDeleteReexpiredKey × SweepOnceClearsAllExpiredKeys × ConcurrentExpires
    × ConcurrentDelVsTtl
unfolding answers perform after get set del expire ttl sweep_expired_once Map.empty Map.get
    Map.insert Map.remove Map.lookup Map.without bytes_eq push entry_le filled holds_any holds_key
all_pass = (refl, (refl, refl, refl), (refl, refl), (refl, refl))
