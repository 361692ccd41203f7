-- ===== src/Connection/Suite/Commands.antt =====
-- The module `process_command` of the unit tests of src/connection.rs.
use redlike.Prelude.{
  ℕ, ◌+◌, ◌<◌, ◌≡◌, refl, none, some, [], ◌∷◌, arith, bytes_eq, codes, pos, negsuc,
}
use redlike.Frame.{simple_string, bulk, integer}
use redlike.Command.{ping, get, set, del, expire, ttl, noop}
use redlike.Store.{returns}
use redlike.Store
use redlike.Store.Map
use redlike.Store.Expirations.{push, entry_le}
use redlike.Connection.{noops, respond, process_command}
use redlike.Connection.Suite.{setup_dummy_connection, milli, mykey, myvalue, outcomes, set_reply}

abbrev RespondsToPing : Type 0
RespondsToPing =
    outcomes setup_dummy_connection ((0, ping) ∷ [])
    ≡ returns (respond (simple_string (codes "PONG"))) ∷ []

abbrev NoopGivesNoopOutcome : Type 0
NoopGivesNoopOutcome = outcomes setup_dummy_connection ((0, noop) ∷ []) ≡ returns noops ∷ []

abbrev SetSendsOkResponse : Type 0
SetSendsOkResponse = outcomes setup_dummy_connection ((0, set mykey myvalue) ∷ []) ≡ set_reply ∷ []

abbrev SetThenGet : Type 0
SetThenGet =
    outcomes setup_dummy_connection ((0, set mykey myvalue) ∷ (1, get mykey) ∷ [])
    ≡ set_reply ∷ returns (respond (bulk (some myvalue))) ∷ []

abbrev GetNonexistentKeyReturnsNullBulkResponse : Type 0
GetNonexistentKeyReturnsNullBulkResponse =
    outcomes setup_dummy_connection ((0, get mykey) ∷ []) ≡ returns (respond (bulk none)) ∷ []

abbrev DeleteExistingKey : Type 0
DeleteExistingKey =
    outcomes setup_dummy_connection ((0, set mykey myvalue) ∷ (1, del mykey) ∷ [])
    ≡ set_reply ∷ returns (respond (integer (pos 1))) ∷ []

abbrev DeleteNonexistentKey : Type 0
DeleteNonexistentKey =
    outcomes setup_dummy_connection ((0, del mykey) ∷ []) ≡ returns (respond (integer (pos 0))) ∷ []

abbrev ExpireExistingKeyReturnsOne : Type 0
ExpireExistingKeyReturnsOne =
    outcomes setup_dummy_connection ((0, set mykey myvalue) ∷ (1, expire mykey 60) ∷ [])
    ≡ set_reply ∷ returns (respond (integer (pos 1))) ∷ []

abbrev ExpireMissingKeyReturnsZero : Type 0
ExpireMissingKeyReturnsZero =
    outcomes setup_dummy_connection ((0, expire mykey 60) ∷ [])
    ≡ returns (respond (integer (pos 0))) ∷ []

abbrev ExpireExpiredKeyReturnsZero : Type 0
ExpireExpiredKeyReturnsZero =
    outcomes setup_dummy_connection
      ((0, set mykey myvalue) ∷ (1, expire mykey 0) ∷ (1 + milli, expire mykey 60) ∷ [])
    ≡ set_reply ∷ returns (respond (integer (pos 1))) ∷ returns (respond (integer (pos 0))) ∷ []

abbrev TtlMissingKeyReturnsNeg2 : Type 0
TtlMissingKeyReturnsNeg2 =
    outcomes setup_dummy_connection ((0, ttl mykey) ∷ [])
    ≡ returns (respond (integer (negsuc 1))) ∷ []

abbrev TtlKeyWithoutExpirationReturnsNeg1 : Type 0
TtlKeyWithoutExpirationReturnsNeg1 =
    outcomes setup_dummy_connection ((0, set mykey myvalue) ∷ (1, ttl mykey) ∷ [])
    ≡ set_reply ∷ returns (respond (integer (negsuc 0))) ∷ []

abbrev TtlExistingKeyWithExpirationReturnsPositiveValue : Type 0
TtlExistingKeyWithExpirationReturnsPositiveValue =
    (n : ℕ) × (outcomes setup_dummy_connection
        ((0, set mykey myvalue) ∷ (1, expire mykey 60) ∷ (2, ttl mykey) ∷ [])
      ≡ set_reply ∷ returns (respond (integer (pos 1))) ∷ returns (respond (integer (pos n))) ∷ [])
    × (0 < n)

abbrev TtlExpiredKeyReturnsNeg2 : Type 0
TtlExpiredKeyReturnsNeg2 =
    outcomes setup_dummy_connection
      ((0, set mykey myvalue) ∷ (1, expire mykey 0) ∷ (1 + milli, ttl mykey) ∷ [])
    ≡ set_reply ∷ returns (respond (integer (pos 1))) ∷ returns (respond (integer (negsuc 1))) ∷ []

all_pass :
    RespondsToPing × NoopGivesNoopOutcome × SetSendsOkResponse × SetThenGet
    × GetNonexistentKeyReturnsNullBulkResponse × DeleteExistingKey × DeleteNonexistentKey
    × ExpireExistingKeyReturnsOne × ExpireMissingKeyReturnsZero × ExpireExpiredKeyReturnsZero
    × TtlMissingKeyReturnsNeg2 × TtlKeyWithoutExpirationReturnsNeg1
    × TtlExistingKeyWithExpirationReturnsPositiveValue × TtlExpiredKeyReturnsNeg2
unfolding outcomes process_command Map.empty Map.get Map.insert Map.remove Map.lookup Map.without
    bytes_eq push entry_le Store.get Store.set Store.del Store.expire Store.ttl
all_pass = (
  refl,
  refl,
  refl,
  refl,
  refl,
  refl,
  refl,
  refl,
  refl,
  refl,
  refl,
  refl,
  (59, refl, omega arith),
  refl,
)
