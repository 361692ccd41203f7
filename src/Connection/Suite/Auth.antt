-- ===== src/Connection/Suite/Auth.antt =====
-- The module `auth` of the unit tests of src/connection.rs.
use redlike.Prelude.{◌≡◌, refl, true, false, bytes_eq, codes}
use redlike.Frame.{simple_string, simple_error}
use redlike.Connection.{respond, is_authorized, authenticate_connection}
use redlike.Connection.Suite.{
  setup_dummy_connection, setup_pwd_protected_connection, logged_in, refused,
}

abbrev NoPasswordConfiguredIsAuthorized : Type 0
NoPasswordConfiguredIsAuthorized = is_authorized setup_dummy_connection ≡ true

abbrev PasswordConfiguredWithoutAuthenticationIsNotAuthorized : Type 0
PasswordConfiguredWithoutAuthenticationIsNotAuthorized =
    is_authorized (setup_pwd_protected_connection (codes "my_password")) ≡ false

abbrev PasswordConfiguredWithAuthenticationIsAuthorized : Type 0
PasswordConfiguredWithAuthenticationIsAuthorized =
    is_authorized (logged_in (codes "my_password")) ≡ true

abbrev AuthWithoutConfiguredPasswordReturnsError : Type 0
AuthWithoutConfiguredPasswordReturnsError =
    (authenticate_connection bytes_eq setup_dummy_connection (codes "my_password")).1
    ≡ respond (simple_error (codes "AUTH called without any password configured"))

abbrev InvalidAuthReturnsError : Type 0
InvalidAuthReturnsError =
    (authenticate_connection bytes_eq (setup_pwd_protected_connection (codes "my_password"))
      (codes "wrong_password")).1
    ≡ refused

abbrev ValidAuthSetsAuthenticatedOnUnauthenticatedConnection : Type 0
ValidAuthSetsAuthenticatedOnUnauthenticatedConnection =
    ((authenticate_connection bytes_eq (setup_pwd_protected_connection (codes "my_password"))
        (codes "my_password")).1
      ≡ respond (simple_string (codes "OK")))
    × ((authenticate_connection bytes_eq (setup_pwd_protected_connection (codes "my_password"))
          (codes "my_password")).0.authenticated
        ≡ true)

abbrev ValidAuthKeepsAuthenticatedConnectionAuthenticated : Type 0
ValidAuthKeepsAuthenticatedConnectionAuthenticated =
    ((authenticate_connection bytes_eq (logged_in (codes "my_password")) (codes "my_password")).1
      ≡ respond (simple_string (codes "OK")))
    × ((authenticate_connection bytes_eq (logged_in (codes "my_password"))
          (codes "my_password")).0.authenticated
        ≡ true)

abbrev InvalidAuthKeepsAuthenticatedConnectionAuthenticated : Type 0
InvalidAuthKeepsAuthenticatedConnectionAuthenticated =
    ((authenticate_connection bytes_eq (logged_in (codes "my_password")) (codes "wrong_password")).1
      ≡ refused)
    × ((authenticate_connection bytes_eq (logged_in (codes "my_password"))
          (codes "wrong_password")).0.authenticated
        ≡ true)

abbrev InvalidAuthKeepsUnauthenticatedConnectionUnauthenticated : Type 0
InvalidAuthKeepsUnauthenticatedConnectionUnauthenticated =
    ((authenticate_connection bytes_eq (setup_pwd_protected_connection (codes "my_password"))
        (codes "wrong_password")).1
      ≡ refused)
    × ((authenticate_connection bytes_eq (setup_pwd_protected_connection (codes "my_password"))
          (codes "wrong_password")).0.authenticated
        ≡ false)

all_pass :
    NoPasswordConfiguredIsAuthorized × PasswordConfiguredWithoutAuthenticationIsNotAuthorized
    × PasswordConfiguredWithAuthenticationIsAuthorized × AuthWithoutConfiguredPasswordReturnsError
    × InvalidAuthReturnsError × ValidAuthSetsAuthenticatedOnUnauthenticatedConnection
    × ValidAuthKeepsAuthenticatedConnectionAuthenticated
    × InvalidAuthKeepsAuthenticatedConnectionAuthenticated
    × InvalidAuthKeepsUnauthenticatedConnectionUnauthenticated
unfolding is_authorized authenticate_connection bytes_eq
all_pass = (refl, refl, refl, refl, refl, (refl, refl), (refl, refl), (refl, refl), (refl, refl))
