-- ===== src/Auth/Login.antt =====
-- `Login` and `Register` of internal/auth/service.go, on every branch.
use tidefly_plane.Prelude.{
  ℕ, String, Bool, true, false, Option, none, some, List, ◌≡◌, refl, ap, ◌∙◌, Result, ok, err,
}
use tidefly_plane.Auth.Tokens.{Token, store_refresh_token, validate_refresh_token}
use tidefly_plane.Auth.Accounts.{
  User, AuthError, TokenPair, Tables, find_by_email, Crypto, store_pair, issue_with, issue_tokens,
  login_checked, login_user, login,
}
use tidefly_plane.Auth.Rotation.{issue_tokens-ok, validate-issued}

-- The user has a valid session under the pair's token, and the users are as given.
abbrev pub SignedIn : ℕ → User → TokenPair → List User → Tables → Type 0
SignedIn now user pair users db' =
    (db'.users ≡ users) × (validate_refresh_token now pair.refresh_token db'.tokens ≡ some user.id)

-- Credentials that fit, of an active user, and a session; or nothing changes.
abbrev pub LoggedIn :
    Crypto → ℕ → (email password : String) → Tables → Result AuthError TokenPair → Tables → Type 0
LoggedIn c now email password db (err why) db' = db' ≡ db
LoggedIn c now email password db (ok pair) db' =
    (user : User) × (find_by_email email db.users ≡ some user)
    × (user.active ≡ true)
    × (c.verify_password password user.password ≡ true)
    × SignedIn now user pair db.users db'

module _ (c : Crypto) (now : ℕ) where
  store_pair-err :
      (access fresh : String) (stored : Option (List Token)) (db : Tables) {why : AuthError}
      → (store_pair c now access fresh stored db).0 ≡ err why
      → (store_pair c now access fresh stored db).1 ≡ db
  unfolding store_pair
  store_pair-err access fresh none db h = refl
  store_pair-err access fresh (some tokens) db h = cc

  issue_with-err :
      (user : User) (access fresh : Option String) (db : Tables) {why : AuthError}
      → (issue_with c now user access fresh db).0 ≡ err why
      → (issue_with c now user access fresh db).1 ≡ db
  unfolding issue_with
  issue_with-err user none fresh db h = refl
  issue_with-err user (some access) none db h = refl
  issue_with-err user (some access) (some fresh) db h =
      store_pair-err access fresh (store_refresh_token now fresh user.id db.tokens) db h

  pub issue_tokens-err :
      (user : User) (db : Tables) {why : AuthError}
      → (issue_tokens c now user db).0 ≡ err why
      → (issue_tokens c now user db).1 ≡ db
  unfolding issue_tokens
  issue_tokens-err user db h = issue_with-err user (c.access_token user) c.refresh_token db h

  pub issue_tokens-SignedIn :
      (user : User) (db : Tables) {pair : TokenPair}
      → (issue_tokens c now user db).0 ≡ ok pair
      → SignedIn now user pair db.users (issue_tokens c now user db).1
  issue_tokens-SignedIn user db {pair} h =
      let made = issue_tokens-ok c now user db h in
      (
        ap (λ (d : Tables). d.users) made,
        ap (λ (d : Tables). validate_refresh_token now pair.refresh_token d.tokens) made
            ∙ validate-issued now user pair db.tokens,
      )

  -- The answer of `issueTokens`, as `Login` passes it on.
  issued-LoggedIn :
      (email password : String) (user : User) (db : Tables) (r : Result AuthError TokenPair)
      → find_by_email email db.users ≡ some user
      → user.active ≡ true
      → c.verify_password password user.password ≡ true
      → (issue_tokens c now user db).0 ≡ r
      → LoggedIn c now email password db r (issue_tokens c now user db).1
  issued-LoggedIn email password user db (err why) found active fits same =
      issue_tokens-err user db same
  issued-LoggedIn email password user db (ok pair) found active fits same =
      (user, found, active, fits, issue_tokens-SignedIn user db same)

  login_checked-LoggedIn :
      (email password : String) (user : User) (active fits : Bool) (db : Tables)
      → find_by_email email db.users ≡ some user
      → user.active ≡ active
      → c.verify_password password user.password ≡ fits
      → LoggedIn c now email password db
          (login_checked c now user active fits db).0
          (login_checked c now user active fits db).1
  unfolding login_checked
  login_checked-LoggedIn email password user false fits db found a f = refl
  login_checked-LoggedIn email password user true false db found a f = refl
  login_checked-LoggedIn email password user true true db found a f =
      issued-LoggedIn email password user db (issue_tokens c now user db).0 found a f refl

  login_user-LoggedIn :
      (email password : String) (found : Option User) (db : Tables)
      → find_by_email email db.users ≡ found
      → LoggedIn c now email password db
          (login_user c now password found db).0
          (login_user c now password found db).1
  unfolding login_user
  login_user-LoggedIn email password none db same = refl
  login_user-LoggedIn email password (some user) db same =
      login_checked-LoggedIn email password user user.active
        (c.verify_password password user.password) db same refl refl

-- A login that succeeds is one of an active user of that address whose password fits, and leaves the
-- user a valid refresh token and the users as they are; one that fails changes nothing.
pub login-LoggedIn :
    (c : Crypto) (now : ℕ) (email password : String) (db : Tables)
    → LoggedIn c now email password db
        (login c now email password db).0
        (login c now email password db).1
unfolding login
login-LoggedIn c now email password db =
    login_user-LoggedIn c now email password (find_by_email email db.users) db refl
