-- ===== src/Store/Suite/Snapshots.antt =====
-- Snapshots in the unit tests of src/store.rs. The JSON between a dump and its restoration is left out.
use redlike.Prelude.{
  ℕ, ◌+◌, ◌*◌, ◌/◌, ◌^◌, ◌≤◌, ◌≡◌, ◌-◌, refl, none, some, Option, List, [], ◌∷◌, ◌++◌, arith, Bytes,
  bytes_eq, codes, pos, negsuc,
}
use redlike.Prelude.Result.{Result, ok, err}
use redlike.Store.Map
use redlike.Store.Expirations.{push, entry_le}
use redlike.Store.{Store, new, get, set, expire, ttl}
use redlike.Store.Spec.{
  Operation, get_op, set_op, expire_op, ttl_op, Answer, value, number, perform, answers,
}
use redlike.Store.Snapshot.{
  Clocks, SnapshotEntry, SnapshotError, duration_overflow, owned_snapshot_value, store_value,
  to_snapshot, from_snapshot,
}
use redlike.Store.Suite.{after, milli, second}

-- Both clocks at an instant, in nanoseconds, of a machine that started a million milliseconds into the epoch.
abbrev read_at : ℕ → ℕ → Clocks
read_at now i = record { unix_millis = 1_000_000 + now / milli; instant = now }

abbrev entry : Bytes → Bytes → Option ℕ → SnapshotEntry
entry k v t = record { key = k; value = record { value = v; expiration_time_unix = t } }

-- What is dumped at an instant and restored at another is asked this.
unfoldable asked : Result Store SnapshotError → List (ℕ × Operation) → Option (List Answer)
unfolding answers
asked (ok s) history = some (answers s history)
asked (err e) history = none

unfoldable round_trip : List (ℕ × Operation) → ℕ → ℕ → List (ℕ × Operation) → Option (List Answer)
unfolding asked after to_snapshot from_snapshot
round_trip before dumped restored behind =
    asked
      (from_snapshot (read_at restored) (1_000_000 + restored / milli)
        (to_snapshot (read_at dumped) dumped (after new before)))
      behind

abbrev SnapshotFromStoreValuePreservesValueAndNoneExpiration : Type 0
SnapshotFromStoreValuePreservesValueAndNoneExpiration =
    owned_snapshot_value (read_at 0 0)
      (record { value = codes "snapshot-value"; expiration_time = none })
    ≡ record { value = codes "snapshot-value"; expiration_time_unix = none }

abbrev StoreValueFromSnapshotPreservesValueAndNoneExpiration : Type 0
StoreValueFromSnapshotPreservesValueAndNoneExpiration =
    store_value (read_at 0 0) (codes "snapshot-value") none
    ≡ ok (record { value = codes "snapshot-value"; expiration_time = none })

abbrev SnapshotFromStoreValueConvertsFutureExpirationToUnixTime : Type 0
SnapshotFromStoreValueConvertsFutureExpirationToUnixTime =
    (t : ℕ) × ((owned_snapshot_value (read_at milli 0) (record {
      value = codes "snapshot-value";
      expiration_time = some (5 * second);
    })).expiration_time_unix
      ≡ some t)
    × (1_000_000 + 4_000 ≤ t)
    × (t ≤ 1_000_001 + 5_000)

abbrev StoreValueFromSnapshotConvertsFutureUnixTimeToInstant : Type 0
StoreValueFromSnapshotConvertsFutureUnixTimeToInstant =
    (t : ℕ) × (store_value (read_at milli 0) (codes "snapshot-value") (some (1_000_000 + 5_000))
      ≡ ok (record { value = codes "snapshot-value"; expiration_time = some t }))
    × (4 * second ≤ t)
    × (t ≤ milli + 5 * second)

abbrev FromSnapshotRestoresPersistentAndFutureEntriesOnly : Type 0
FromSnapshotRestoresPersistentAndFutureEntriesOnly =
    asked
      (from_snapshot (read_at 0) 1_000_000 (record {
        entries =
            entry (codes "persistent-key") (codes "persistent-value") none
            ∷ entry (codes "future-key") (codes "future-value") (some 1_060_000)
            ∷ entry (codes "expired-key") (codes "expired-value") (some (1_000_000 - 1))
            ∷ [];
      }))
      ((milli, get_op (codes "persistent-key"))
        ∷ (milli, get_op (codes "future-key"))
        ∷ (milli, get_op (codes "expired-key"))
        ∷ (milli, ttl_op (codes "persistent-key"))
        ∷ (milli, ttl_op (codes "future-key"))
        ∷ (milli, ttl_op (codes "expired-key"))
        ∷ [])
    ≡ some (
        value (some (codes "persistent-value"))
        ∷ value (some (codes "future-value"))
        ∷ value none
        ∷ number (negsuc 0)
        ∷ number (pos 59)
        ∷ number (negsuc 1)
        ∷ [])

abbrev SnapshotRoundTripRestoresLiveEntries : Type 0
SnapshotRoundTripRestoresLiveEntries =
    round_trip
      ((0, set_op (codes "roundtrip-persistent") (codes "persistent-value"))
        ∷ (0, set_op (codes "roundtrip-expiring") (codes "future-value"))
        ∷ (0, set_op (codes "roundtrip-expired") (codes "expired-value"))
        ∷ (1, expire_op (codes "roundtrip-expiring") 60)
        ∷ (1, expire_op (codes "roundtrip-expired") 0)
        ∷ [])
      (1 + milli) (2 * milli)
      ((2 * milli, get_op (codes "roundtrip-persistent"))
        ∷ (2 * milli, get_op (codes "roundtrip-expiring"))
        ∷ (2 * milli, get_op (codes "roundtrip-expired"))
        ∷ (2 * milli, ttl_op (codes "roundtrip-persistent"))
        ∷ (2 * milli, ttl_op (codes "roundtrip-expiring"))
        ∷ (2 * milli, ttl_op (codes "roundtrip-expired"))
        ∷ [])
    ≡ some (
        value (some (codes "persistent-value"))
        ∷ value (some (codes "future-value"))
        ∷ value none
        ∷ number (negsuc 0)
        ∷ number (pos 59)
        ∷ number (negsuc 1)
        ∷ [])

abbrev StoreValueFromSnapshotRejectsUnrepresentableDuration : Type 0
StoreValueFromSnapshotRejectsUnrepresentableDuration =
    store_value (read_at 0 0) (codes "snapshot-value") (some (2 ^ 128 - 1)) ≡ err duration_overflow

abbrev DumpExcludesExpiredEntries : Type 0
DumpExcludesExpiredEntries =
    round_trip
      ((0, set_op (codes "live_key") (codes "live_value"))
        ∷ (0, expire_op (codes "live_key") 1000)
        ∷ (0, set_op (codes "expired_key") (codes "expired_value"))
        ∷ (0, expire_op (codes "expired_key") 0)
        ∷ (0, set_op (codes "persistent_key") (codes "persistent_value"))
        ∷ [])
      0 0
      ((5 * second, get_op (codes "live_key"))
        ∷ (5 * second, get_op (codes "expired_key"))
        ∷ (5 * second, get_op (codes "persistent_key"))
        ∷ [])
    ≡ some (
        value (some (codes "live_value"))
        ∷ value none
        ∷ value (some (codes "persistent_value"))
        ∷ [])

abbrev BinaryValuesPreservedE2e : Type 0
BinaryValuesPreservedE2e =
    round_trip
      ((0, set_op (codes "empty_bytes_key") [])
        ∷ (0, set_op (codes "non_utf_bytes_key") (0xf4 ∷ 0xff ∷ []))
        ∷ (0, set_op (codes "embedded_zero_key") (codes "hello" ++ 0 ∷ codes "world"))
        ∷ (0, set_op (0xf4 ∷ 0xff ∷ []) (codes "value"))
        ∷ [])
      0 0
      ((5 * second, get_op (codes "empty_bytes_key"))
        ∷ (5 * second, get_op (codes "non_utf_bytes_key"))
        ∷ (5 * second, get_op (codes "embedded_zero_key"))
        ∷ (5 * second, get_op (0xf4 ∷ 0xff ∷ []))
        ∷ [])
    ≡ some (
        value (some [])
        ∷ value (some (0xf4 ∷ 0xff ∷ []))
        ∷ value (some (codes "hello" ++ 0 ∷ codes "world"))
        ∷ value (some (codes "value"))
        ∷ [])

abbrev ExpirationTimesProperlyPreservedE2e : Type 0
ExpirationTimesProperlyPreservedE2e =
    round_trip
      ((0, set_op (codes "live_key") (codes "live_value"))
        ∷ (0, expire_op (codes "live_key") 5)
        ∷ [])
      0 0 ((0, get_op (codes "live_key")) ∷ (5 * second, get_op (codes "live_key")) ∷ [])
    ≡ some (value (some (codes "live_value")) ∷ value none ∷ [])

all_pass :
    SnapshotFromStoreValuePreservesValueAndNoneExpiration
    × StoreValueFromSnapshotPreservesValueAndNoneExpiration
    × SnapshotFromStoreValueConvertsFutureExpirationToUnixTime
    × StoreValueFromSnapshotConvertsFutureUnixTimeToInstant
    × FromSnapshotRestoresPersistentAndFutureEntriesOnly × SnapshotRoundTripRestoresLiveEntries
    × StoreValueFromSnapshotRejectsUnrepresentableDuration × DumpExcludesExpiredEntries
    × BinaryValuesPreservedE2e × ExpirationTimesProperlyPreservedE2e
unfolding answers perform to_snapshot from_snapshot owned_snapshot_value store_value asked
    round_trip after get set expire ttl Map.empty Map.get Map.insert Map.remove Map.lookup
    Map.without bytes_eq push entry_le
all_pass = (
  refl,
  refl,
  (1_005_000, refl, omega arith, omega arith),
  (5_000_000_000, refl, omega arith, omega arith),
  refl,
  refl,
  refl,
  refl,
  refl,
  refl,
)
