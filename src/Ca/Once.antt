-- ===== src/Ca/Once.antt =====
-- A registration token of internal/platform/ca works once.
use tidefly_plane.Prelude.{
  ℕ, String, Bool, true, false, Option, none, some, List, [], ◌∷◌, ◌≡◌, refl, sym, ap, inl, inr,
  Bool-cases, ok, err, ◌==◌, nat_eq_self, map, arith, subst,
}
use tidefly_plane.Ca.Registration.{
  RegistrationToken, used_up, is_valid, find_token, consumed, consumed_if, refusal, consume_checked,
  consume_found, consume,
}

-- A search by the token finds the same row after an update of other fields.
find_token-map :
    (now : ℕ) (worker value : String) (id : ℕ) (rows : List RegistrationToken)
    {t : RegistrationToken}
    → find_token value rows ≡ some t
    → find_token value (map (consumed_if now worker id) rows) ≡ some (consumed_if now worker id t)
find_token-map now worker value id [] h = cc
find_token-map now worker value id (r ∷ rows) {t} h = elim (Bool-cases (r.token == value)) [
  | inl hit ↦
      let same : r ≡ t = cc (rw hit at h) in
      let kept : (consumed_if now worker id r).token == value ≡ true = ground (arith, hit) in
      rw kept (ap (λ (x : RegistrationToken). some (consumed_if now worker id x)) same)
  | inr miss ↦
      let kept : (consumed_if now worker id r).token == value ≡ false = ground (arith, miss) in
      rw kept (find_token-map now worker value id rows (rw miss at h))
]

used-consumed :
    (now : ℕ) (worker : String) (t : RegistrationToken)
    → (consumed_if now worker t.id t).used ≡ true
used-consumed now worker t = rw (nat_eq_self t.id) refl

-- What a successful consumption has found and leaves behind.
abbrev pub UsedUp :
    ℕ
    → (value worker : String) → RegistrationToken
    → (before after : List RegistrationToken) → Type 0
UsedUp now value worker t before after =
    (row : RegistrationToken) × (find_token value before ≡ some row)
    × (is_valid now row ≡ true)
    × (t ≡ consumed now worker row)
    × ((later : ℕ) (other : String) → consume later value other after ≡ (err used_up, after))

spent-refused :
    (later : ℕ) (other : String) (rows : List RegistrationToken) (t : RegistrationToken)
    → t.used ≡ true
    → consume_checked later other t (is_valid later t) rows ≡ (err used_up, rows)
unfolding consume_checked
spent-refused later other rows t spent =
    let stale : is_valid later t ≡ false = ground (arith, spent) in
    subst (λ v. consume_checked later other t v rows ≡ (err used_up, rows)) (sym stale)
      (ap (λ (u : Bool). (err (refusal u), rows)) spent)

again :
    (later : ℕ) (value other : String) (rows : List RegistrationToken) (t : RegistrationToken)
    → find_token value rows ≡ some t
    → t.used ≡ true
    → consume later value other rows ≡ (err used_up, rows)
unfolding consume consume_found
again later value other rows t found spent = rw found (spent-refused later other rows t spent)

module _ (now : ℕ) (value worker : String) (rows : List RegistrationToken) where
  consume_checked-UsedUp :
      (row : RegistrationToken) (valid : Bool) {t : RegistrationToken}
      → find_token value rows ≡ some row
      → is_valid now row ≡ valid
      → (consume_checked now worker row valid rows).0 ≡ ok t
      → UsedUp now value worker t rows (consume_checked now worker row valid rows).1
  unfolding consume_checked
  consume_checked-UsedUp row false found stale h = cc
  consume_checked-UsedUp row true {t} found fresh h =
      let same : consumed now worker row ≡ t = cc h in
      (
        row,
        found,
        fresh,
        sym same,
        λ later other.
            again later value other (map (consumed_if now worker row.id) rows)
              (consumed_if now worker row.id row)
              (find_token-map now worker value row.id rows found) (used-consumed now worker row),
      )

  consume_found-UsedUp :
      (o : Option RegistrationToken) {t : RegistrationToken}
      → find_token value rows ≡ o
      → (consume_found now worker o rows).0 ≡ ok t
      → UsedUp now value worker t rows (consume_found now worker o rows).1
  unfolding consume_found
  consume_found-UsedUp none found h = cc
  consume_found-UsedUp (some row) found h =
      consume_checked-UsedUp row (is_valid now row) found refl h

-- Where a registration token is consumed, it was there, unused and not expired, and is now marked with
-- the worker; every later attempt with it, by any worker and at any time, is refused as used and changes
-- nothing.
pub consume-UsedUp :
    (now : ℕ) (value worker : String) (rows : List RegistrationToken) (t : RegistrationToken)
    → (consume now value worker rows).0 ≡ ok t
    → UsedUp now value worker t rows (consume now value worker rows).1
unfolding consume
consume-UsedUp now value worker rows t h =
    consume_found-UsedUp now value worker rows (find_token value rows) refl h
