-- ===== src/Auth/Sessions.antt =====
-- Logging out, and the expiry of tokens, in internal/auth.
use tidefly_plane.Prelude.{
  ℕ, ◌≤◌, String, Bool, true, not, Option, none, some, List, ◌≡◌, refl, ap, ◌≢◌, inl, inr,
  Option-cases, ◌==◌, eq_iff, arith, find?, find?-sound, select, find?-select_pass,
  find?-select-some, leb, not_equal,
}
use tidefly_plane.Auth.Tokens.{
  Token, is_live, validate_refresh_token, revoke_all_user_tokens, cleanup,
}
use tidefly_plane.Auth.Accounts.{Tables, Crypto, logout_all}

-- The user of a found token.
abbrev owner : Option Token → Option String
owner none = none
owner (some t) = some t.user_id

-- A selection of tokens keeps the valid ones that it is meant to keep.
validate-select :
    (now : ℕ) (token : String) (keep : Token → Bool) (tokens : List Token) {user_id : String}
    → validate_refresh_token now token tokens ≡ some user_id
    → ((t : Token) → is_live now token t ≡ true → t.user_id ≡ user_id → keep t ≡ true)
    → validate_refresh_token now token (select keep tokens) ≡ some user_id
unfolding validate_refresh_token
validate-select now token keep tokens {user_id} valid kept =
    elim (Option-cases (find? (is_live now token) tokens)) [
      | inl lost ↦ cc (rw (lost, validate_refresh_token) at valid)
      | inr (t, found) ↦
          let owned : t.user_id ≡ user_id = cc (rw (found, validate_refresh_token) at valid) in
          let live = (find?-sound (is_live now token) tokens found).0 in
          rw
            (
              find?-select-some (is_live now token) keep tokens found (kept t live owned),
              validate_refresh_token,
            )
            (ap some owned)
    ]

-- The periodic clean-up changes the validity of no token, now or later: it removes expired ones only.
pub cleanup-valid :
    (now later : ℕ) (token user_id : String) (tokens : List Token)
    → now ≤ later
    → validate_refresh_token later token tokens ≡ some user_id
    → validate_refresh_token later token (cleanup now tokens) ≡ some user_id
unfolding cleanup
cleanup-valid now later token user_id tokens after valid =
    validate-select later token (λ (t : Token). not (leb t.expires_at now)) tokens valid
      (λ t live owned. ground (arith, after, live))

no_token :
    (later : ℕ) (user_id token : String) (tokens : List Token)
    → validate_refresh_token later token (select (λ (t : Token). not (t.user_id == user_id)) tokens)
      ≢ some user_id
unfolding validate_refresh_token
no_token later user_id token tokens valid =
    let keep = λ (t : Token). not (t.user_id == user_id) in
    elim (Option-cases (find? (is_live later token) (select keep tokens))) [
      | inl lost ↦ cc (rw (lost, validate_refresh_token) at valid)
      | inr (t, found) ↦
          let owned : t.user_id ≡ user_id = cc (rw (found, validate_refresh_token) at valid) in
          let passed = find?-select_pass (is_live later token) keep tokens found in
          ground (arith, passed, (eq_iff t.user_id user_id).1 owned)
    ]

-- Logging out everywhere leaves the user no valid token at any time, and every other user the tokens
-- that were valid.
pub logout_all_lem :
    (c : Crypto) (now : ℕ) (user_id : String) (db : Tables) (later : ℕ) (token : String)
    → (validate_refresh_token later token (logout_all c now user_id db).tokens ≢ some user_id)
      × ((other : String)
          → other ≢ user_id
          → validate_refresh_token later token db.tokens ≡ some other
          → validate_refresh_token later token (logout_all c now user_id db).tokens ≡ some other)
unfolding logout_all revoke_all_user_tokens
logout_all_lem c now user_id db later token = (
  no_token later user_id token db.tokens,
  λ other apart valid.
      validate-select later token (λ (t : Token). not (t.user_id == user_id)) db.tokens valid
        (λ t live owned. rw (owned, not_equal other user_id apart) refl),
)
