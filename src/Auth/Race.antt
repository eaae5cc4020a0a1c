-- ===== src/Auth/Race.antt =====
-- Two calls of `Refresh` of internal/auth/service.go with one token: the check of the token and the rest
-- of the call are two accesses to the database, in no transaction.
use tidefly_plane.Prelude.{
  ℕ, String, Bool, true, false, some, List, ◌∷◌, ◌≡◌, refl, sym, ap, ◌∙◌, ok, any, subst, not,
  not_equal, if◌then◌else◌, ◌≢◌,
}
use tidefly_plane.Auth.Tokens.{
  Token, has_token, validate_refresh_token, store_refresh_token, revoke_refresh_token,
}
use tidefly_plane.Auth.Accounts.{
  User, TokenPair, Tables, Crypto, find_by_id, store_pair, issue_with, issue_tokens, revoke,
  refresh_checked, refresh_user, refresh_for,
}
use tidefly_plane.Auth.Rotation.{issued, validate-issued, validate-other}

-- The rest of a call of `Refresh` after its check found the token valid.
module _ (c : Crypto) (now : ℕ) (token : String) (user : User) where
  -- What is left of the tokens, and what is added to them.
  abbrev Renewed : Tables → TokenPair → Tables
  Renewed db pair = record db {
    tokens = issued now user pair ∷ revoke_refresh_token token db.tokens;
  }

  stored :
      (db : Tables) (access fresh : String)
      → any (has_token fresh) (revoke_refresh_token token db.tokens) ≡ false
      → issue_with c now user
          (some access)
          (some fresh)
          (record db { tokens = revoke_refresh_token token db.tokens })
        ≡ (
          ok (record { access_token = access; refresh_token = fresh }),
          Renewed db (record { access_token = access; refresh_token = fresh }),
        )
  unfolding issue_with store_refresh_token store_pair
  stored db access fresh free = rw free refl

  renewed :
      (db : Tables) (access fresh : String)
      → c.access_token user ≡ some access
      → c.refresh_token ≡ some fresh
      → any (has_token fresh) (revoke_refresh_token token db.tokens) ≡ false
      → issue_tokens c now user (revoke c now token db) ≡ (
        ok (record { access_token = access; refresh_token = fresh }),
        Renewed db (record { access_token = access; refresh_token = fresh }),
      )
  unfolding issue_tokens revoke
  renewed db access fresh signed random free = rw (signed, random) (stored db access fresh free)

  checked :
      (db : Tables) (access fresh : String)
      → c.access_token user ≡ some access
      → c.refresh_token ≡ some fresh
      → any (has_token fresh) (revoke_refresh_token token db.tokens) ≡ false
      → refresh_checked c now token user true db ≡ (
        ok (record { access_token = access; refresh_token = fresh }),
        Renewed db (record { access_token = access; refresh_token = fresh }),
      )
  unfolding refresh_checked
  checked db access fresh signed random free = renewed db access fresh signed random free

  -- The rest of the call does not look at the token again.
  pub refresh_for-ok :
      (db : Tables) (access fresh : String)
      → find_by_id user.id db.users ≡ some user
      → user.active ≡ true
      → c.access_token user ≡ some access
      → c.refresh_token ≡ some fresh
      → any (has_token fresh) (revoke_refresh_token token db.tokens) ≡ false
      → refresh_for c now token (some user.id) db ≡ (
        ok (record { access_token = access; refresh_token = fresh }),
        Renewed db (record { access_token = access; refresh_token = fresh }),
      )
  unfolding refresh_for refresh_user
  refresh_for-ok db access fresh known active signed random free = rw known (
      subst
        (λ b. refresh_checked c now token user b db ≡ (
          ok (record { access_token = access; refresh_token = fresh }),
          Renewed db (record { access_token = access; refresh_token = fresh }),
        ))
        (sym active) (checked db access fresh signed random free))

-- The session that the first call made outlasts the second call.
first_survives :
    (c : Crypto) (now : ℕ) (token : String) (user : User) (first second : TokenPair)
    (tokens : List Token)
    → first.refresh_token ≢ token
    → second.refresh_token ≢ first.refresh_token
    → validate_refresh_token now first.refresh_token
        (issued now user second ∷ revoke_refresh_token token (issued now user first ∷ tokens))
      ≡ some user.id
unfolding revoke_refresh_token
first_survives c now token user first second tokens kept apart =
    validate-other now now first.refresh_token user second
      (revoke_refresh_token token (issued now user first ∷ tokens)) apart
    ∙ (ap
          (λ (b : Bool). validate_refresh_token now first.refresh_token (
            if not b
            then issued now user first ∷ revoke_refresh_token token tokens
            else revoke_refresh_token token tokens))
          (not_equal first.refresh_token token kept)
        ∙ validate-issued now user first (revoke_refresh_token token tokens))

-- Two calls with one valid token that both check it before either goes on: both return their own new
-- tokens, if these are new, and the user is left with two valid tokens for the one that was used.
pub double_refresh :
    (c d : Crypto) (now : ℕ) (token : String) (user : User) (db : Tables) (first second : TokenPair)
    → validate_refresh_token now token db.tokens ≡ some user.id
    → find_by_id user.id db.users ≡ some user
    → user.active ≡ true
    → (c.access_token user ≡ some first.access_token) × (c.refresh_token ≡ some first.refresh_token)
    → (d.access_token user ≡ some second.access_token)
      × (d.refresh_token ≡ some second.refresh_token)
    → first.refresh_token ≢ token
    → second.refresh_token ≢ first.refresh_token
    → any (has_token first.refresh_token) (revoke_refresh_token token db.tokens) ≡ false
    → any
        (has_token second.refresh_token)
        (revoke_refresh_token token (issued now user first ∷ revoke_refresh_token token db.tokens))
      ≡ false
    → ((refresh_for c now token (validate_refresh_token now token db.tokens) db).0 ≡ ok first)
      × ((refresh_for d now token
            (validate_refresh_token now token db.tokens)
            (refresh_for c now token (validate_refresh_token now token db.tokens) db).1).0
          ≡ ok second)
      × (validate_refresh_token now first.refresh_token
            (refresh_for d now token
              (validate_refresh_token now token db.tokens)
              (refresh_for c now token (validate_refresh_token now token db.tokens) db).1).1.tokens
          ≡ some user.id)
      × (validate_refresh_token now second.refresh_token
            (refresh_for d now token
              (validate_refresh_token now token db.tokens)
              (refresh_for c now token (validate_refresh_token now token db.tokens) db).1).1.tokens
          ≡ some user.id)
double_refresh c d now token user db first second valid known active made_c made_d kept apart free_c
      free_d =
    let one =
      refresh_for-ok c now token user db first.access_token first.refresh_token known active
        made_c.0 made_c.1 free_c in
    let two =
      refresh_for-ok d now token user
        (record db { tokens = issued now user first ∷ revoke_refresh_token token db.tokens })
        second.access_token second.refresh_token known active made_d.0 made_d.1 free_d in
    rw (valid, one, two)
      (
        refl,
        refl,
        first_survives c now token user first second (revoke_refresh_token token db.tokens) kept
            apart,
        validate-issued now user second _,
      )
