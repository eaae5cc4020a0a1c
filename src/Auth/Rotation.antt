-- ===== src/Auth/Rotation.antt =====
-- The rotation of refresh tokens by `Refresh` of internal/auth/service.go.
use tidefly_plane.Prelude.{
  ℕ, ◌+◌, String, Bool, true, false, not, Option, none, some, List, ◌∷◌, ◌≡◌, refl, sym, ap, ◌∙◌,
  ◌≢◌, inl, inr, Bool-cases, ok, ◌==◌, eq_iff, arith, find?-sound, find?-select-none, any,
  not_equal, subst,
}
use tidefly_plane.Auth.Tokens.{
  Token, refresh_token_ttl, has_token, is_live, store_refresh_token, validate_refresh_token,
  revoke_refresh_token,
}
use tidefly_plane.Auth.Accounts.{
  User, TokenPair, Tables, find_by_id, Crypto, store_pair, issue_with, issue_tokens, revoke,
  refresh_checked, refresh_user, refresh_for, refresh,
}

-- What `issueTokens` adds.
abbrev pub issued : ℕ → User → TokenPair → Token
issued now user pair = record {
  token = pair.refresh_token;
  user_id = user.id;
  expires_at = now + refresh_token_ttl;
}

-- A revoked token is not valid at any time.
pub validate-revoke :
    (later : ℕ) (token : String) (tokens : List Token)
    → validate_refresh_token later token (revoke_refresh_token token tokens) ≡ none
unfolding validate_refresh_token revoke_refresh_token
validate-revoke later token tokens =
    rw
      (
        find?-select-none (is_live later token) (λ (t : Token). not (t.token == token)) tokens
            (λ t live. ground arith),
        validate_refresh_token,
      )
      refl

module _ (c : Crypto) (now : ℕ) where
  issue_with-ok :
      (user : User) (access fresh : Option String) (db : Tables) {pair : TokenPair}
      → (issue_with c now user access fresh db).0 ≡ ok pair
      → (issue_with c now user access fresh db).1
        ≡ record db { tokens = issued now user pair ∷ db.tokens }
  unfolding issue_with store_pair store_refresh_token
  issue_with-ok user none fresh db h = cc
  issue_with-ok user (some access) none db h = cc
  issue_with-ok user (some access) (some fresh) db {pair} h =
      elim (Bool-cases (any (has_token fresh) db.tokens)) [
        | inl taken ↦ cc (taken, h)
        | inr free ↦
            let same : record { access_token = access; refresh_token = fresh } ≡ pair =
              cc (rw free at h) in
            rw (free, ← same) refl
      ]

  pub issue_tokens-ok :
      (user : User) (db : Tables) {pair : TokenPair}
      → (issue_tokens c now user db).0 ≡ ok pair
      → (issue_tokens c now user db).1 ≡ record db { tokens = issued now user pair ∷ db.tokens }
  unfolding issue_tokens
  issue_tokens-ok user db h = issue_with-ok user (c.access_token user) c.refresh_token db h

-- The token just issued is valid.
pub validate-issued :
    (now : ℕ) (user : User) (pair : TokenPair) (tokens : List Token)
    → validate_refresh_token now pair.refresh_token (issued now user pair ∷ tokens) ≡ some user.id
unfolding validate_refresh_token
validate-issued now user pair tokens =
    let same = (eq_iff pair.refresh_token pair.refresh_token).1 refl in ground (arith, same)

-- Another token's validity is untouched by it.
pub validate-other :
    (later now : ℕ) (token : String) (user : User) (pair : TokenPair) (tokens : List Token)
    → pair.refresh_token ≢ token
    → validate_refresh_token later token (issued now user pair ∷ tokens)
      ≡ validate_refresh_token later token tokens
unfolding validate_refresh_token
validate-other later now token user pair tokens other =
    rw (not_equal pair.refresh_token token other, validate_refresh_token) refl

-- After `Refresh`: the old token was valid for an active user, is valid no longer at any time, and the
-- new one is valid for the same user.
abbrev pub Rotated : ℕ → String → TokenPair → Tables → Tables → Type 0
Rotated now token pair db db' =
    (user : User) × (validate_refresh_token now token db.tokens ≡ some user.id)
    × (find_by_id user.id db.users ≡ some user)
    × (user.active ≡ true)
    × ((later : ℕ) → validate_refresh_token later token db'.tokens ≡ none)
    × (validate_refresh_token now pair.refresh_token db'.tokens ≡ some user.id)

module _ (c : Crypto) (now : ℕ) (token : String) where
  refresh_checked-Rotated :
      (user : User) (active : Bool) (db : Tables) {pair : TokenPair}
      → user.active ≡ active
      → validate_refresh_token now token db.tokens ≡ some user.id
      → find_by_id user.id db.users ≡ some user
      → pair.refresh_token ≢ token
      → (refresh_checked c now token user active db).0 ≡ ok pair
      → Rotated now token pair db (refresh_checked c now token user active db).1
  unfolding refresh_checked revoke
  refresh_checked-Rotated user false db idle valid known fresh h = cc
  refresh_checked-Rotated user true db {pair} active valid known fresh h =
      let made = issue_tokens-ok c now user (revoke c now token db) h in
      (
        user,
        valid,
        known,
        active,
        λ later.
            ap (λ (d : Tables). validate_refresh_token later token d.tokens) made
            ∙ (validate-other later now token user pair (revoke_refresh_token token db.tokens) fresh
                ∙ validate-revoke later token db.tokens),
        ap (λ (d : Tables). validate_refresh_token now pair.refresh_token d.tokens) made
            ∙ validate-issued now user pair (revoke_refresh_token token db.tokens),
      )

  refresh_user-Rotated :
      (user_id : String) (found : Option User) (db : Tables) {pair : TokenPair}
      → validate_refresh_token now token db.tokens ≡ some user_id
      → find_by_id user_id db.users ≡ found
      → pair.refresh_token ≢ token
      → (refresh_user c now token found db).0 ≡ ok pair
      → Rotated now token pair db (refresh_user c now token found db).1
  unfolding refresh_user
  refresh_user-Rotated user_id none db valid found fresh h = cc
  refresh_user-Rotated user_id (some user) db valid found fresh h =
      let same : user.id ≡ user_id =
        (eq_iff user.id user_id).0 (find?-sound (λ (u : User). u.id == user_id) db.users found).0 in
      refresh_checked-Rotated user user.active db refl (valid ∙ ap some (sym same))
        (subst (λ k. find_by_id k db.users ≡ some user) (sym same) found) fresh h

  refresh_for-Rotated :
      (user_id : Option String) (db : Tables) {pair : TokenPair}
      → validate_refresh_token now token db.tokens ≡ user_id
      → pair.refresh_token ≢ token
      → (refresh_for c now token user_id db).0 ≡ ok pair
      → Rotated now token pair db (refresh_for c now token user_id db).1
  unfolding refresh_for
  refresh_for-Rotated none db valid fresh h = cc
  refresh_for-Rotated (some user_id) db valid fresh h =
      refresh_user-Rotated user_id (find_by_id user_id db.users) db valid refl fresh h

-- Where a refresh succeeds with a new token: the token that was used was valid and its user is active;
-- afterwards it is valid at no time, so that it cannot be used again, and the new token is valid for
-- the same user.
pub refresh-Rotated :
    (c : Crypto) (now : ℕ) (token : String) (db : Tables) (pair : TokenPair)
    → (refresh c now token db).0 ≡ ok pair
    → pair.refresh_token ≢ token
    → Rotated now token pair db (refresh c now token db).1
unfolding refresh
refresh-Rotated c now token db pair h fresh =
    refresh_for-Rotated c now token (validate_refresh_token now token db.tokens) db refl fresh h
