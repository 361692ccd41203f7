-- ===== src/Connection/Suite/Authorization.antt =====
-- The module `authorization` of the unit tests of src/connection.rs.
use redlike.Prelude.{◌≡◌, refl, [], ◌∷◌, bytes_eq, codes}
use redlike.Frame.{simple_string}
use redlike.Command.{ping, get, set, quit, noop, auth}
use redlike.Store.{returns}
use redlike.Store
use redlike.Store.Map
use redlike.Store.Expirations.{push, entry_le}
use redlike.Connection.{quits, noops, respond, process_command}
use redlike.Connection.Suite.{
  setup_dummy_connection, setup_pwd_protected_connection, logged_in, mykey, myvalue, outcomes,
  set_reply, refused, noauth,
}

abbrev ProtectedCommandWithoutPasswordConfiguredExecutes : Type 0
ProtectedCommandWithoutPasswordConfiguredExecutes =
    outcomes setup_dummy_connection ((0, set mykey myvalue) ∷ []) ≡ set_reply ∷ []

abbrev ProtectedCommandOnUnauthenticatedPasswordProtectedConnectionReturnsNoauth : Type 0
ProtectedCommandOnUnauthenticatedPasswordProtectedConnectionReturnsNoauth =
    outcomes (setup_pwd_protected_connection (codes "my_password")) ((0, get mykey) ∷ [])
    ≡ noauth ∷ []

abbrev ProtectedCommandOnAuthenticatedPasswordProtectedConnectionExecutes : Type 0
ProtectedCommandOnAuthenticatedPasswordProtectedConnectionExecutes =
    outcomes (logged_in (codes "my_password")) ((0, set mykey myvalue) ∷ []) ≡ set_reply ∷ []

abbrev PingIsAllowedWithoutAuthentication : Type 0
PingIsAllowedWithoutAuthentication =
    outcomes (setup_pwd_protected_connection (codes "my_password")) ((0, ping) ∷ [])
    ≡ returns (respond (simple_string (codes "PONG"))) ∷ []

abbrev NoopIsAllowedWithoutAuthentication : Type 0
NoopIsAllowedWithoutAuthentication =
    outcomes (setup_pwd_protected_connection (codes "my_password")) ((0, noop) ∷ [])
    ≡ returns noops ∷ []

abbrev QuitIsAllowedWithoutAuthentication : Type 0
QuitIsAllowedWithoutAuthentication =
    outcomes (setup_pwd_protected_connection (codes "my_password")) ((0, quit) ∷ [])
    ≡ returns quits ∷ []

abbrev ValidAuthAllowsFollowingProtectedCommand : Type 0
ValidAuthAllowsFollowingProtectedCommand =
    outcomes (setup_pwd_protected_connection (codes "my_password"))
      ((0, auth (codes "my_password")) ∷ (1, set mykey myvalue) ∷ [])
    ≡ set_reply ∷ set_reply ∷ []

abbrev InvalidAuthDoesNotAllowFollowingProtectedCommand : Type 0
InvalidAuthDoesNotAllowFollowingProtectedCommand =
    outcomes (setup_pwd_protected_connection (codes "my_password"))
      ((0, auth (codes "wrong_password")) ∷ (1, get mykey) ∷ [])
    ≡ returns refused ∷ noauth ∷ []

all_pass :
    ProtectedCommandWithoutPasswordConfiguredExecutes
    × ProtectedCommandOnUnauthenticatedPasswordProtectedConnectionReturnsNoauth
    × ProtectedCommandOnAuthenticatedPasswordProtectedConnectionExecutes
    × PingIsAllowedWithoutAuthentication × NoopIsAllowedWithoutAuthentication
    × QuitIsAllowedWithoutAuthentication × ValidAuthAllowsFollowingProtectedCommand
    × InvalidAuthDoesNotAllowFollowingProtectedCommand
unfolding outcomes process_command Map.empty Map.get Map.insert Map.remove Map.lookup Map.without
    bytes_eq push entry_le Store.get Store.set Store.del Store.expire Store.ttl
all_pass = (refl, refl, refl, refl, refl, refl, refl, refl)
