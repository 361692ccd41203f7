-- ===== src/Config/Tests.antt =====
-- Two configurations, as in the unit tests of src/config.rs.
use redlike.Prelude.{ℕ, ◌≡◌, ◌↔◌, none, some, codes}
use redlike.Config.{Config, debug_fields}
use redlike.Config.Redacted.{IsSimilar, debug_fields-eq_iff}

-- An address by its number.
abbrev first : Config ℕ
first = record {
  address = 127;
  port = 6380;
  archive_path = none;
  auth_password = some (codes "test_password");
}

abbrev second : Config ℕ
second = record first { auth_password = some (codes "another") }

debug_fields-eq_iff_example :
    (debug_fields ℕ first ≡ debug_fields ℕ second) ↔ IsSimilar ℕ first second
debug_fields-eq_iff_example = debug_fields-eq_iff ℕ first second
