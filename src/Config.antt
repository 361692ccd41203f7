-- ===== src/Config.antt =====
-- src/config.rs: the configuration. The command line and the environment are read by `clap`, which is a
-- parameter, as are the addresses; a `SecretBox` is its content.
mod Tests
pub mod Redacted
use redlike.Prelude.{ℕ, Option, none, some, List, [], ◌∷◌, Bytes, codes}
use redlike.Prelude.Result.{Result, ok, err}
use redlike.Archive.{PathBuf}
use mathlib.Core.Option

module _ (IpAddr : Type 0) where
  pub record RawConfig : Type 0 where
    pub address : IpAddr
    pub port : ℕ
    pub archive_path : Option PathBuf
    pub auth_password : Option Bytes

  pub record Config : Type 0 where
    pub address : IpAddr
    pub port : ℕ
    pub archive_path : Option PathBuf
    pub auth_password : Option Bytes

  -- `into_bytes` keeps the bytes of the text.
  unfoldable pub from_raw : RawConfig → Config
  from_raw raw = record {
    address = raw.address;
    port = raw.port;
    archive_path = raw.archive_path;
    auth_password = raw.auth_password;
  }

  -- `RawConfig::try_parse_from(itr).map(Self::from_raw)`
  unfoldable pub try_parse_from : {E : Type 0} → Result RawConfig E → Result Config E
  unfolding from_raw
  try_parse_from (ok raw) = ok (from_raw raw)
  try_parse_from (err e) = err e

  -- `Config::from_raw(RawConfig::parse())`; `parse` ends the process where it finds no configuration.
  unfoldable pub get_config : RawConfig → Config
  unfolding from_raw
  get_config raw = from_raw raw

  -- What `debug_struct` is given.
  pub data Field : Type 0 where
    address_field : IpAddr → Field
    port_field : ℕ → Field
    path_field : Option PathBuf → Field
    text_field : Option Bytes → Field

  -- `fmt::Debug`: the fields by their names, before the formatter lays them out.
  unfoldable pub debug_fields : Config → List (Bytes × Field)
  debug_fields c =
      (codes "address", address_field c.address)
      ∷ (codes "port", port_field c.port)
      ∷ (codes "archive_path", path_field c.archive_path)
      ∷ (codes "auth_password", text_field (Option.map (λ p. codes "-----") c.auth_password))
      ∷ []
