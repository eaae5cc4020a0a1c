-- ===== src/Auth/Tokens.antt =====
-- The `TokenStore` of internal/auth/jwt.go: the table of refresh tokens, whose key is the token. Times
-- are in milliseconds, and a query is a search of the list.
use tidefly_plane.Prelude.{
  ℕ, ◌+◌, String, Bool, not, ◌&&◌, Option, none, some, List, ◌∷◌, ◌==◌, ltb, leb, any, select,
  find?, map, if◌then◌else◌,
}

-- Seven days.
abbrev pub refresh_token_ttl : ℕ
refresh_token_ttl = 604800000

pub record Token : Type 0 where
  pub token : String
  pub user_id : String
  pub expires_at : ℕ

abbrev pub has_token : String → Token → Bool
has_token token t = t.token == token

-- `none` where the key is taken.
unfoldable pub store_refresh_token :
    (now : ℕ) (token user_id : String) → List Token → Option (List Token)
store_refresh_token now token user_id tokens =
    if any (has_token token) tokens
    then none
    else some
        (record { token = token; user_id = user_id; expires_at = now + refresh_token_ttl } ∷ tokens)

-- The condition of the query in `ValidateRefreshToken`.
abbrev pub is_live : ℕ → String → Token → Bool
is_live now token t = t.token == token && ltb now t.expires_at

unfoldable pub validate_refresh_token : (now : ℕ) (token : String) → List Token → Option String
validate_refresh_token now token tokens = elim (find? (is_live now token) tokens) [
  | none ↦ none
  | some t ↦ some t.user_id
]

unfoldable pub revoke_refresh_token : String → List Token → List Token
revoke_refresh_token token = select (λ (t : Token). not (t.token == token))

unfoldable pub revoke_all_user_tokens : String → List Token → List Token
revoke_all_user_tokens user_id = select (λ (t : Token). not (t.user_id == user_id))

abbrev pub extended : ℕ → String → Token → Token
extended now token t =
    if t.token == token then record t { expires_at = now + refresh_token_ttl } else t

unfoldable pub extend_refresh_token : (now : ℕ) (token : String) → List Token → List Token
extend_refresh_token now token tokens = map (extended now token) tokens

unfoldable pub cleanup : ℕ → List Token → List Token
cleanup now = select (λ (t : Token). not (leb t.expires_at now))
