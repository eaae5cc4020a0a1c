-- ===== src/Ca/Registration.antt =====
-- internal/platform/ca/token.go over the rows of internal/models/infra.go; times are in milliseconds. The
-- random text of a token is an argument, `none` where it could not be made.
use Prim.Native.String.{◌++◌}
use tidefly_plane.Prelude.{
  ℕ, ◌+◌, String, Bool, true, false, not, ◌&&◌, Option, none, some, List, ◌∷◌, Result, ok, err,
  ◌==◌, ltb, nat_eq, if◌then◌else◌, find?, any, map,
}

pub record RegistrationToken : Type 0 where
  pub id : ℕ
  pub token : String
  pub expires_at : ℕ
  pub used : Bool
  pub used_at : Option ℕ
  pub label : String
  pub worker_id : Option String
  pub created_by : String

pub data TokenError : Type 0 where
  no_random not_saved invalid used_up expired : TokenError

-- Twenty-four hours.
abbrev pub token_valid : ℕ
token_valid = 86400000

abbrev pub is_valid : ℕ → RegistrationToken → Bool
is_valid now t = not t.used && ltb now t.expires_at

abbrev pub Answer : Type 0
Answer = Result TokenError RegistrationToken × List RegistrationToken

-- The database takes the row unless its token is there; `number` is the next that it gives out.
unfoldable pub create_with :
    (now : ℕ) (user label : String) (number : ℕ) → Option String → List RegistrationToken → Answer
create_with now user label number none rows = (err no_random, rows)
create_with now user label number (some raw) rows =
    let row : RegistrationToken = record {
      id = number;
      token = "tfy_reg_" ++ raw;
      expires_at = now + token_valid;
      used = false;
      used_at = none;
      label = label;
      worker_id = none;
      created_by = user;
    } in
    if any (λ (t : RegistrationToken). t.token == row.token) rows
    then (err not_saved, rows)
    else (ok row, row ∷ rows)

abbrev pub find_token : String → List RegistrationToken → Option RegistrationToken
find_token value = find? (λ (t : RegistrationToken). t.token == value)

abbrev pub consumed : ℕ → String → RegistrationToken → RegistrationToken
consumed now worker t = record t { used = true; used_at = some now; worker_id = some worker }

abbrev pub consumed_if : ℕ → String → ℕ → RegistrationToken → RegistrationToken
consumed_if now worker id t = if nat_eq t.id id then consumed now worker t else t

abbrev pub refusal : Bool → TokenError
refusal true = used_up
refusal false = expired

unfoldable pub consume_checked :
    (now : ℕ) (worker : String)
    → RegistrationToken
    → (valid : Bool) → List RegistrationToken
    → Answer
consume_checked now worker t false rows = (err (refusal t.used), rows)
consume_checked now worker t true rows =
    (ok (consumed now worker t), map (consumed_if now worker t.id) rows)

unfoldable pub consume_found :
    (now : ℕ) (worker : String) → Option RegistrationToken → List RegistrationToken → Answer
unfolding consume_checked
consume_found now worker none rows = (err invalid, rows)
consume_found now worker (some t) rows = consume_checked now worker t (is_valid now t) rows

unfoldable pub consume : (now : ℕ) (value worker : String) → List RegistrationToken → Answer
unfolding consume_found
consume now value worker rows = consume_found now worker (find_token value rows) rows
