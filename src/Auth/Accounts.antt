-- ===== src/Auth/Accounts.antt =====
-- internal/auth/service.go and the users of internal/models/users.go, over the two tables. Hashing and
-- the check of passwords, the making of both tokens, the clock and the database's answer to a new row
-- are arguments. A deleted user is not in the list, and the fields that no modelled code reads are left
-- out.
use tidefly_plane.Prelude.{
  ℕ, String, Bool, true, false, Option, none, some, List, ◌∷◌, Result, ok, err, ◌==◌, find?,
  if◌then◌else◌, length, nat_eq, map,
}
use tidefly_plane.Auth.Tokens.{
  Token, store_refresh_token, validate_refresh_token, revoke_refresh_token, revoke_all_user_tokens,
}

pub data Role : Type 0 where
  admin member : Role

pub record User : Type 0 where
  pub id : String
  pub email : String
  pub password : String
  pub name : String
  pub role : Role
  pub active : Bool
  pub force_password_change : Bool

pub data AuthError : Type 0 where
  user_not_found email_taken invalid_credentials account_inactive invalid_token : AuthError
  wrong_current_password hash_failed token_failed not_stored : AuthError

pub record TokenPair : Type 0 where
  pub access_token : String
  pub refresh_token : String

pub record Tables : Type 0 where
  pub users : List User
  pub tokens : List Token

abbrev pub find_by_email : String → List User → Option User
find_by_email email = find? (λ (u : User). u.email == email)

abbrev pub find_by_id : String → List User → Option User
find_by_id id = find? (λ (u : User). u.id == id)

-- What the code does not compute itself.
pub record Crypto : Type 0 where
  pub hash_password : String → Option String
  pub verify_password : (password hash : String) → Bool
  pub access_token : User → Option String
  pub refresh_token : Option String  -- the next random one
  pub new_id : String  -- the next random one
  pub insert_user : User → Bool  -- whether the database takes the row

abbrev pub Answer : Type 0 → Type 0
Answer A = Result AuthError A × Tables

module _ (c : Crypto) (now : ℕ) where
  unfoldable pub store_pair :
      (access refresh : String) → Option (List Token) → Tables → Answer TokenPair
  store_pair access refresh none db = (err not_stored, db)
  store_pair access refresh (some tokens) db = (
    ok (record { access_token = access; refresh_token = refresh }),
    record db { tokens = tokens },
  )

  unfoldable pub issue_with : User → (access refresh : Option String) → Tables → Answer TokenPair
  unfolding store_pair store_refresh_token
  issue_with user none refresh db = (err token_failed, db)
  issue_with user (some access) none db = (err token_failed, db)
  issue_with user (some access) (some refresh) db =
      store_pair access refresh (store_refresh_token now refresh user.id db.tokens) db

  unfoldable pub issue_tokens : User → Tables → Answer TokenPair
  unfolding issue_with
  issue_tokens user db = issue_with user (c.access_token user) c.refresh_token db

  unfoldable pub login_checked : User → (active matches : Bool) → Tables → Answer TokenPair
  unfolding issue_tokens
  login_checked user false matches db = (err account_inactive, db)
  login_checked user true true db = issue_tokens user db
  login_checked user true false db = (err invalid_credentials, db)

  unfoldable pub login_user : (password : String) → Option User → Tables → Answer TokenPair
  unfolding login_checked
  login_user password none db = (err invalid_credentials, db)
  login_user password (some user) db =
      login_checked user user.active (c.verify_password password user.password) db

  unfoldable pub login : (email password : String) → Tables → Answer TokenPair
  unfolding login_user
  login email password db = login_user password (find_by_email email db.users) db

  unfoldable pub revoke : String → Tables → Tables
  unfolding revoke_refresh_token
  revoke token db = record db { tokens = revoke_refresh_token token db.tokens }

  unfoldable pub refresh_checked :
      (token : String) → User → (active : Bool) → Tables → Answer TokenPair
  unfolding revoke issue_tokens
  refresh_checked token user false db = (err account_inactive, revoke token db)
  refresh_checked token user true db = issue_tokens user (revoke token db)

  unfoldable pub refresh_user : (token : String) → Option User → Tables → Answer TokenPair
  unfolding refresh_checked
  refresh_user token none db = (err user_not_found, db)
  refresh_user token (some user) db = refresh_checked token user user.active db

  unfoldable pub refresh_for : (token : String) → Option String → Tables → Answer TokenPair
  unfolding refresh_user
  refresh_for token none db = (err invalid_token, db)
  refresh_for token (some user_id) db = refresh_user token (find_by_id user_id db.users) db

  unfoldable pub refresh : String → Tables → Answer TokenPair
  unfolding refresh_for validate_refresh_token
  refresh token db = refresh_for token (validate_refresh_token now token db.tokens) db

  unfoldable pub logout : String → Tables → Tables
  unfolding revoke
  logout token db = revoke token db

  unfoldable pub logout_all : String → Tables → Tables
  unfolding revoke_all_user_tokens
  logout_all user_id db = record db { tokens = revoke_all_user_tokens user_id db.tokens }

  abbrev pub registered_user : (name email hash : String) → List User → User
  registered_user name email hash users = record {
    id = c.new_id;
    email = email;
    password = hash;
    name = name;
    role = if nat_eq (length users) 0 then admin else member;
    active = true;
    force_password_change = false;
  }

  unfoldable pub register_hashed : (name email : String) → Option String → Tables → Answer TokenPair
  unfolding issue_tokens
  register_hashed name email none db = (err hash_failed, db)
  register_hashed name email (some hash) db =
      let user = registered_user name email hash db.users in
      if c.insert_user user
      then issue_tokens user (record db { users = user ∷ db.users })
      else (err not_stored, db)

  unfoldable pub register_new :
      (name email password : String) → Option User → Tables → Answer TokenPair
  unfolding register_hashed
  register_new name email password (some user) db = (err email_taken, db)
  register_new name email password none db =
      register_hashed name email (c.hash_password password) db

  unfoldable pub register : (name email password : String) → Tables → Answer TokenPair
  unfolding register_new
  register name email password db =
      register_new name email password (find_by_email email db.users) db

  abbrev pub with_password : (id hash : String) → User → User
  with_password id hash u =
      if u.id == id then record u { password = hash; force_password_change = false } else u

  unfoldable pub change_hashed :
      User → Option String → Tables → Result AuthError (Unit {0}) × Tables
  change_hashed user none db = (err hash_failed, db)
  change_hashed user (some hash) db =
      (ok tt, record db { users = map (with_password user.id hash) db.users })

  unfoldable pub change_password :
      User → (current new : String) → Tables → Result AuthError (Unit {0}) × Tables
  unfolding change_hashed
  change_password user current new db =
      if c.verify_password current user.password
      then change_hashed user (c.hash_password new) db
      else (err wrong_current_password, db)
