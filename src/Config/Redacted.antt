-- ===== src/Config/Redacted.antt =====
-- What the log shows of the configuration.
use redlike.Prelude.{◌≡◌, ◌↔◌, refl, Bool, true, false, Option, none, some, Bytes}
use redlike.Config.{Config, debug_fields}

-- Whether there is a password.
abbrev pub is_set : Option Bytes → Bool
is_set none = false
is_set (some p) = true

module _ (IpAddr : Type 0) where
  abbrev pub IsSimilar : Config IpAddr → Config IpAddr → Type 0
  IsSimilar c d =
      (c.address ≡ d.address)
      × (c.port ≡ d.port)
      × (c.archive_path ≡ d.archive_path)
      × (is_set c.auth_password ≡ is_set d.auth_password)

  shown :
      (c d : Config IpAddr) (p q : Option Bytes)
      → debug_fields IpAddr (record c { auth_password = p })
        ≡ debug_fields IpAddr (record d { auth_password = q })
      → IsSimilar (record c { auth_password = p }) (record d { auth_password = q })
  unfolding debug_fields
  shown c d none none h = (cc, cc, cc, refl)
  shown c d none (some q) h = absurd (cc)
  shown c d (some p) none h = absurd (cc)
  shown c d (some p) (some q) h = (cc, cc, cc, refl)

  hidden :
      (c d : Config IpAddr) (p q : Option Bytes)
      → IsSimilar (record c { auth_password = p }) (record d { auth_password = q })
      → debug_fields IpAddr (record c { auth_password = p })
        ≡ debug_fields IpAddr (record d { auth_password = q })
  unfolding debug_fields
  hidden c d none none h = cc (h.0, h.1, h.2)
  hidden c d none (some q) h = absurd (cc h.3)
  hidden c d (some p) none h = absurd (cc h.3)
  hidden c d (some p) (some q) h = cc (h.0, h.1, h.2)

  -- What `Debug` shows of two configurations is the same just when they have the same address, port and
  -- path, and both or neither have a password: of the password nothing else can be told.
  pub debug_fields-eq_iff :
      (c d : Config IpAddr) → (debug_fields IpAddr c ≡ debug_fields IpAddr d) ↔ IsSimilar c d
  debug_fields-eq_iff c d =
      (shown c d c.auth_password d.auth_password, hidden c d c.auth_password d.auth_password)
