-- ===== src/Store/Suite/Operations.antt =====
-- GET, SET, DEL and EXPIRE in the unit tests of src/store.rs.
use redlike.Prelude.{◌+◌, ◌≢◌, refl, none, some, [], ◌∷◌, bytes_eq, codes}
use redlike.Store.Map
use redlike.Store.Expirations.{push, entry_le}
use redlike.Store.{returns, new, get, set, del, expire, ttl, sweep_expired_once}
use redlike.Store.Spec.{get_op, set_op, del_op, expire_op, done, value, outcome, perform, answers}
use redlike.Store.Suite.{Answers, after, key, expiring_key, newkey, milli}

abbrev SetThenGet : Type 0
SetThenGet =
    Answers ((0, set_op newkey (codes "newvalue")) ∷ (1, get_op newkey) ∷ [])
      (done ∷ value (some (codes "newvalue")) ∷ [])

abbrev GetNonexistentKey : Type 0
GetNonexistentKey = Answers ((0, get_op newkey) ∷ []) (value none ∷ [])

abbrev DeleteExistingKey : Type 0
DeleteExistingKey = (del (set new newkey (codes "newvalue")).0 newkey 1).1 ≢ none

abbrev DeleteNonexistentKey : Type 0
DeleteNonexistentKey = Answers ((0, del_op newkey) ∷ []) (value none ∷ [])

abbrev GetReturnsNoneForExpiredKey : Type 0
GetReturnsNoneForExpiredKey =
    Answers
      ((0, set_op expiring_key (codes "value"))
        ∷ (1, expire_op expiring_key 0)
        ∷ (1 + milli, get_op expiring_key)
        ∷ [])
      (done ∷ outcome (returns 1) ∷ value none ∷ [])

abbrev DelReturnsNoneForExpiredKey : Type 0
DelReturnsNoneForExpiredKey =
    Answers
      ((0, set_op expiring_key (codes "value"))
        ∷ (1, expire_op expiring_key 0)
        ∷ (1 + milli, del_op expiring_key)
        ∷ [])
      (done ∷ outcome (returns 1) ∷ value none ∷ [])

abbrev ExpireReturnsOneForLiveKey : Type 0
ExpireReturnsOneForLiveKey =
    Answers ((0, set_op key (codes "value")) ∷ (1, expire_op key 60) ∷ [])
      (done ∷ outcome (returns 1) ∷ [])

abbrev ExpireReturnsZeroForExpiredKey : Type 0
ExpireReturnsZeroForExpiredKey =
    Answers
      ((0, set_op key (codes "value")) ∷ (1, expire_op key 0) ∷ (1 + milli, expire_op key 60) ∷ [])
      (done ∷ outcome (returns 1) ∷ outcome (returns 0) ∷ [])

all_pass :
    SetThenGet × GetNonexistentKey × DeleteExistingKey × DeleteNonexistentKey
    × GetReturnsNoneForExpiredKey × DelReturnsNoneForExpiredKey × ExpireReturnsOneForLiveKey
    × ExpireReturnsZeroForExpiredKey
unfolding answers perform after get set del expire ttl sweep_expired_once Map.empty Map.get
    Map.insert Map.remove Map.lookup Map.without bytes_eq push entry_le
all_pass = (refl, refl, (λ e. cc), refl, refl, refl, refl, refl)
