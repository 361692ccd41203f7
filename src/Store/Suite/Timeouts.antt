-- ===== src/Store/Suite/Timeouts.antt =====
-- TTL, and what SET does to an expiration, in the unit tests of src/store.rs.
use redlike.Prelude.{
  ℕ, ◌+◌, ◌*◌, ◌<◌, ◌≡◌, refl, some, [], ◌∷◌, arith, bytes_eq, codes, pos, negsuc,
}
use redlike.Store.Map
use redlike.Store.Expirations.{push, entry_le}
use redlike.Store.{returns, new, get, set, del, expire, ttl, sweep_expired_once}
use redlike.Store.Spec.{
  get_op, set_op, expire_op, ttl_op, sweep_op, done, value, outcome, number, perform, answers,
}
use redlike.Store.Suite.{Answers, after, key, milli, second}

abbrev TtlReturnsNeg2ForMissingKey : Type 0
TtlReturnsNeg2ForMissingKey = Answers ((0, ttl_op key) ∷ []) (number (negsuc 1) ∷ [])

abbrev TtlReturnsNeg2ForExpiredKey : Type 0
TtlReturnsNeg2ForExpiredKey =
    Answers ((0, set_op key (codes "value")) ∷ (1, expire_op key 0) ∷ (1 + milli, ttl_op key) ∷ [])
      (done ∷ outcome (returns 1) ∷ number (negsuc 1) ∷ [])

abbrev TtlReturnsNeg1ForKeyWNoExpireTime : Type 0
TtlReturnsNeg1ForKeyWNoExpireTime =
    Answers ((0, set_op key (codes "ttl-value")) ∷ (1, ttl_op key) ∷ [])
      (done ∷ number (negsuc 0) ∷ [])

abbrev TtlReturnsNonNegativeSecsForKeyWithRemainingTime : Type 0
TtlReturnsNonNegativeSecsForKeyWithRemainingTime =
    (n : ℕ) × (ttl (after new ((0, set_op key (codes "value")) ∷ (1, expire_op key 100) ∷ [])) key
        (1 + milli)
      ≡ pos n)
    × (1 < n)

abbrev TtlDecreasesAsTimePasses : Type 0
TtlDecreasesAsTimePasses =
    (m : ℕ) × (n : ℕ) × (ttl
        (after new ((0, set_op key (codes "value")) ∷ (1, expire_op key 100) ∷ [])) key (1 + milli)
      ≡ pos m)
    × (ttl (after new ((0, set_op key (codes "value")) ∷ (1, expire_op key 100) ∷ [])) key
          (1 + milli + second)
        ≡ pos n)
    × (n < m)

abbrev SettingAnExistingKeyWithTtlClearsTheTtl : Type 0
SettingAnExistingKeyWithTtlClearsTheTtl =
    (let s = after new ((0, set_op key (codes "value")) ∷ (0, expire_op key 60) ∷ []) in
      (set s key (codes "new-value")).1 ≡ some (codes "value"))
    × Answers
        ((0, set_op key (codes "value"))
          ∷ (0, expire_op key 60)
          ∷ (0, set_op key (codes "new-value"))
          ∷ (60 * second, sweep_op)
          ∷ (60 * second, get_op key)
          ∷ (60 * second, ttl_op key)
          ∷ [])
        (done
          ∷ outcome (returns 1)
          ∷ done
          ∷ done
          ∷ value (some (codes "new-value"))
          ∷ number (negsuc 0)
          ∷ [])

all_pass :
    TtlReturnsNeg2ForMissingKey × TtlReturnsNeg2ForExpiredKey × TtlReturnsNeg1ForKeyWNoExpireTime
    × TtlReturnsNonNegativeSecsForKeyWithRemainingTime × TtlDecreasesAsTimePasses
    × SettingAnExistingKeyWithTtlClearsTheTtl
unfolding answers perform after get set del expire ttl sweep_expired_once Map.empty Map.get
    Map.insert Map.remove Map.lookup Map.without bytes_eq push entry_le
all_pass =
    (refl, refl, refl, (99, refl, omega arith), (99, 98, refl, refl, omega arith), (refl, refl))
