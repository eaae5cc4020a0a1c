-- ===== src/Auth/Tests.antt =====
-- One user with one session, and theorems on internal/auth at an operation on them. The hash of a
-- password is the password.
use tidefly_plane.Prelude.{
  String, true, false, some, [], ◌∷◌, ◌≡◌, refl, ◌≢◌, ok, err, ◌==◌, equal_or_not,
}
use tidefly_plane.Auth.Tokens.{Token, validate_refresh_token, revoke_refresh_token}
use tidefly_plane.Auth.Accounts.{
  User, admin, TokenPair, Tables, Crypto, login, refresh, register, logout_all, change_password,
  invalid_token, refresh_for,
}
use tidefly_plane.Auth.Rotation.{Rotated, refresh-Rotated}
use tidefly_plane.Auth.Race.{double_refresh}
use tidefly_plane.Auth.Sessions.{logout_all_lem}
use tidefly_plane.Auth.Login.{LoggedIn, login-LoggedIn}
use tidefly_plane.Auth.Founding.{Registered, Founded, register-Registered, register-Founded}

abbrev plain : Crypto
plain = record {
  hash_password = λ password. some password;
  verify_password = λ password hash. password == hash;
  access_token = λ user. some "jwt";
  refresh_token = some "fresh";
  new_id = "2";
  insert_user = λ user. true;
}

abbrev ada : User
ada = record {
  id = "1";
  email = "ada@example.com";
  password = "secret";
  name = "Ada";
  role = admin;
  active = true;
  force_password_change = false;
}

abbrev session : Token
session = record { token = "old"; user_id = "1"; expires_at = 100 }

abbrev tables : Tables
tables = record { users = ada ∷ []; tokens = session ∷ [] }

abbrev fresh_pair : TokenPair
fresh_pair = record { access_token = "jwt"; refresh_token = "fresh" }

refresh_test : (refresh plain 50 "old" tables).0 ≡ ok fresh_pair
unfolding refresh
refresh_test = refl

-- The token that was used is refused the second time.
replay_test : (refresh plain 51 "old" (refresh plain 50 "old" tables).1).0 ≡ err invalid_token
unfolding refresh
replay_test = refl

-- A change of the password leaves the sessions as they are.
change_password_test :
    (change_password plain 50 ada "secret" "better" tables).1.tokens ≡ session ∷ []
unfolding change_password
change_password_test = refl

refresh-Rotated_example : Rotated 50 "old" fresh_pair tables (refresh plain 50 "old" tables).1
refresh-Rotated_example =
    refresh-Rotated plain 50 "old" tables fresh_pair refresh_test (equal_or_not "fresh" "old" refl)

logout_all_lem_example :
    (validate_refresh_token 60 "old" (logout_all plain 50 "1" tables).tokens ≢ some "1")
    × ((other : String)
        → other ≢ "1"
        → validate_refresh_token 60 "old" tables.tokens ≡ some other
        → validate_refresh_token 60 "old" (logout_all plain 50 "1" tables).tokens ≡ some other)
logout_all_lem_example = logout_all_lem plain 50 "1" tables 60 "old"

login-LoggedIn_example :
    LoggedIn plain 50 "ada@example.com" "secret" tables
      (login plain 50 "ada@example.com" "secret" tables).0
      (login plain 50 "ada@example.com" "secret" tables).1
login-LoggedIn_example = login-LoggedIn plain 50 "ada@example.com" "secret" tables

register-Registered_example :
    Registered plain 50 "Bob" "bob@example.com" "pass" tables
      (register plain 50 "Bob" "bob@example.com" "pass" tables).0
      (register plain 50 "Bob" "bob@example.com" "pass" tables).1
register-Registered_example = register-Registered plain 50 "Bob" "bob@example.com" "pass" tables

register-Founded_example : Founded (register plain 50 "Bob" "bob@example.com" "pass" tables).1.users
register-Founded_example = register-Founded plain 50 "Bob" "bob@example.com" "pass" tables refl

abbrev second_pair : TokenPair
second_pair = record { access_token = "jwt"; refresh_token = "newer" }

abbrev second_call : Crypto
second_call = record plain { refresh_token = some "newer" }

double_refresh_example :
    ((refresh_for plain 50 "old" (validate_refresh_token 50 "old" tables.tokens) tables).0
      ≡ ok fresh_pair)
    × ((refresh_for second_call 50 "old"
          (validate_refresh_token 50 "old" tables.tokens)
          (refresh_for plain 50 "old" (validate_refresh_token 50 "old" tables.tokens) tables).1).0
        ≡ ok second_pair)
    × (validate_refresh_token 50 "fresh"
          (refresh_for second_call 50 "old"
            (validate_refresh_token 50 "old" tables.tokens)
            (refresh_for plain 50 "old"
              (validate_refresh_token 50 "old" tables.tokens)
              tables).1).1.tokens
        ≡ some "1")
    × (validate_refresh_token 50 "newer"
          (refresh_for second_call 50 "old"
            (validate_refresh_token 50 "old" tables.tokens)
            (refresh_for plain 50 "old"
              (validate_refresh_token 50 "old" tables.tokens)
              tables).1).1.tokens
        ≡ some "1")
unfolding validate_refresh_token revoke_refresh_token
double_refresh_example =
    double_refresh plain second_call 50 "old" ada tables fresh_pair second_pair refl refl refl
      (refl, refl) (refl, refl) (equal_or_not "fresh" "old" refl)
      (equal_or_not "newer" "fresh" refl) refl refl
