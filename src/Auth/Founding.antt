-- ===== src/Auth/Founding.antt =====
-- `Register` of internal/auth/service.go on every branch, and the roles that it gives.
use tidefly_plane.Prelude.{
  ℕ, String, Option, none, some, List, [], ◌∷◌, ◌≡◌, refl, ◌⊎◌, inl, inr, subst, sym, Bool-cases,
  Result, ok, err, arith,
}
use tidefly_plane.Auth.Accounts.{
  User, admin, member, AuthError, TokenPair, Tables, find_by_email, Crypto, issue_tokens,
  registered_user, register_hashed, register_new, register,
}
use tidefly_plane.Auth.Login.{SignedIn, issue_tokens-err, issue_tokens-SignedIn}

-- A new address, its user in front of the others, and a session; or nothing changes, or the user alone
-- is left where the tokens failed.
abbrev pub Registered :
    Crypto
    → ℕ
    → (name email password : String) → Tables
    → Result AuthError TokenPair
    → Tables
    → Type 0
Registered c now name email password db (ok pair) db' =
    (hash : String) × (c.hash_password password ≡ some hash)
    × (find_by_email email db.users ≡ none)
    × SignedIn now (registered_user c now name email hash db.users) pair
        (registered_user c now name email hash db.users ∷ db.users) db'
Registered c now name email password db (err why) db' =
    (db' ≡ db)
    ⊎ ((hash : String) × (db'
          ≡ record db { users = registered_user c now name email hash db.users ∷ db.users }))

-- The oldest user is an administrator, and the others are members.
abbrev pub Founded : List User → Type 0
Founded [] = Unit
Founded (user ∷ []) = user.role ≡ admin
Founded (user ∷ (older ∷ oldest)) = (user.role ≡ member) × Founded (older ∷ oldest)

module _ (c : Crypto) (now : ℕ) (name email : String) where
  registered_user-Founded :
      (hash : String) (users : List User)
      → Founded users
      → Founded (registered_user c now name email hash users ∷ users)
  registered_user-Founded hash [] h = refl
  registered_user-Founded hash (older ∷ oldest) h = (ground arith, h)

  issued-Registered :
      (password hash : String) (db : Tables) (r : Result AuthError TokenPair)
      → c.hash_password password ≡ some hash
      → find_by_email email db.users ≡ none
      → (issue_tokens c now
          (registered_user c now name email hash db.users)
          (record db { users = registered_user c now name email hash db.users ∷ db.users })).0
        ≡ r
      → Registered c now name email password db r
          (issue_tokens c now
            (registered_user c now name email hash db.users)
            (record db { users = registered_user c now name email hash db.users ∷ db.users })).1
  issued-Registered password hash db (err why) hashed free same =
      let user = registered_user c now name email hash db.users in
      inr (hash, issue_tokens-err c now user (record db { users = user ∷ db.users }) same)
  issued-Registered password hash db (ok pair) hashed free same =
      let user = registered_user c now name email hash db.users in
      (
        hash,
        hashed,
        free,
        issue_tokens-SignedIn c now user (record db { users = user ∷ db.users }) same,
      )

  register_hashed-Registered :
      (password : String) (hashed : Option String) (db : Tables)
      → c.hash_password password ≡ hashed
      → find_by_email email db.users ≡ none
      → Registered c now name email password db
          (register_hashed c now name email hashed db).0
          (register_hashed c now name email hashed db).1
  unfolding register_hashed
  register_hashed-Registered password none db h free = inl refl
  register_hashed-Registered password (some hash) db h free =
      let user = registered_user c now name email hash db.users in
      elim (Bool-cases (c.insert_user user)) [
        | inr refused ↦ rw refused (inl refl)
        | inl taken ↦ rw taken (
            issued-Registered password hash db
              (issue_tokens c now user (record db { users = user ∷ db.users })).0 h free refl)
      ]

  register_new-Registered :
      (password : String) (found : Option User) (db : Tables)
      → find_by_email email db.users ≡ found
      → Registered c now name email password db
          (register_new c now name email password found db).0
          (register_new c now name email password found db).1
  unfolding register_new
  register_new-Registered password none db free =
      register_hashed-Registered password (c.hash_password password) db refl free
  register_new-Registered password (some user) db known = inl refl

-- A registration that succeeds is one of an address that no user has; it puts the new user, with the
-- hash of the password, in front of the others and leaves a valid refresh token. One that fails changes
-- nothing, or adds the user without a token.
pub register-Registered :
    (c : Crypto) (now : ℕ) (name email password : String) (db : Tables)
    → Registered c now name email password db
        (register c now name email password db).0
        (register c now name email password db).1
unfolding register
register-Registered c now name email password db =
    register_new-Registered c now name email password (find_by_email email db.users) db refl

Registered-Founded :
    (c : Crypto) (now : ℕ) (name email password : String) (db db' : Tables)
    (r : Result AuthError TokenPair)
    → Registered c now name email password db r db'
    → Founded db.users
    → Founded db'.users
Registered-Founded c now name email password db db' (ok pair) (hash, hashed, free, (same, session))
      h =
    subst Founded (sym same) (registered_user-Founded c now name email hash db.users h)
Registered-Founded c now name email password db db' (err why) (inl same) h =
    subst (λ (d : Tables). Founded d.users) (sym same) h
Registered-Founded c now name email password db db' (err why) (inr (hash, same)) h =
    subst (λ (d : Tables). Founded d.users) (sym same)
      (registered_user-Founded c now name email hash db.users h)

-- Registrations keep it so that the oldest user is an administrator and all others are members, those
-- that fail half-way included.
pub register-Founded :
    (c : Crypto) (now : ℕ) (name email password : String) (db : Tables)
    → Founded db.users
    → Founded (register c now name email password db).1.users
register-Founded c now name email password db h =
    Registered-Founded c now name email password db (register c now name email password db).1
      (register c now name email password db).0 (register-Registered c now name email password db) h
