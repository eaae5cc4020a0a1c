-- ===== src/Webhook/Authentic.antt =====
-- Which deliveries pass the check of internal/webhook/parser.go, and what that means for `Receive`.
use tidefly_plane.Prelude.{
  ℕ, String, Option, none, some, ◌≡◌, refl, ◌≢◌, ◌↔◌, ◌⊎◌, inl, inr, Bool-cases, Result, ok, err,
  ◌==◌, eq_iff, arith,
}
use tidefly_plane.Webhook.Signature.{
  Provider, github, gitlab, gitea, bitbucket, generic, DeliveryError, Request, to_provider,
  sent_signature, check_signature, verify_signature,
}
use tidefly_plane.Webhook.Payload.{Payload, Unmarshal, parse_payload}
use tidefly_plane.Webhook.Receive.{
  Webhook, Store, Job, accepted, load_active, verify_read, verify_and_parse, receive_payload,
  receive_secret, receive_loaded, receive,
}

-- The sender knows the secret: GitLab sends it, and the others send the body's HMAC under it.
abbrev pub Authentic :
    ((secret body : String) → String)
    → Provider
    → (String → String)
    → (body secret : String) → Type 0
Authentic hmac_hex gitlab header body secret = header "X-Gitlab-Token" ≡ secret
Authentic hmac_hex provider header body secret =
    (sent_signature provider header ≢ "") × (sent_signature provider header ≡ hmac_hex secret body)

check_signature_iff :
    (got expected : String)
    → (check_signature got expected ≡ ok tt) ↔ ((got ≢ "") × (got ≡ expected))
unfolding check_signature
check_signature_iff got expected = ground (arith, eq_iff got "", eq_iff got expected)

-- The check of the signature passes exactly the authentic deliveries, whichever provider sent them.
pub verify_signature_iff :
    (hmac_hex : (secret body : String) → String) (provider : Provider) (header : String → String)
    (body secret : String)
    → (verify_signature hmac_hex provider header body secret ≡ ok tt)
      ↔ Authentic hmac_hex provider header body secret
unfolding verify_signature
verify_signature_iff hmac_hex github header body secret = check_signature_iff _ _
verify_signature_iff hmac_hex gitea header body secret = check_signature_iff _ _
verify_signature_iff hmac_hex bitbucket header body secret = check_signature_iff _ _
verify_signature_iff hmac_hex (generic name) header body secret = check_signature_iff _ _
verify_signature_iff hmac_hex gitlab header body secret =
    ground (arith, eq_iff (header "X-Gitlab-Token") secret)

module _ (hmac_hex : (secret body : String) → String) (json : Unmarshal)
    (decrypt : String → Option String) (insert : Job → Option String) (now : ℕ)
    (fresh : String) where
  -- What a request that `Receive` accepts has shown.
  abbrev pub Admitted : Request → String → Store → Type 0
  Admitted r id s =
      (wh : Webhook) × (secret : String) × (body : String) × (load_active id s.webhooks ≡ some wh)
      × (decrypt wh.secret ≡ some secret)
      × (r.body ≡ some body)
      × ((secret ≡ "") ⊎ Authentic hmac_hex (to_provider wh.provider) r.header body secret)

  verify_read-ok :
      (provider : Provider) (header : String → String) (read : Option String) (secret : String)
      {p : Payload}
      → verify_read hmac_hex json decrypt insert now fresh provider header read secret ≡ ok p
      → (body : String) × (read ≡ some body)
        × ((secret ≡ "") ⊎ Authentic hmac_hex provider header body secret)
  unfolding verify_read
  verify_read-ok provider header none secret h = cc
  verify_read-ok provider header (some body) secret h = elim (Bool-cases (secret == "")) [
    | inl open_hook ↦ (body, refl, inl ((eq_iff secret "").0 open_hook))
    | inr guarded ↦ (
      body,
      refl,
      inr (
          (verify_signature_iff hmac_hex provider header body secret).0
            (passed (verify_signature hmac_hex provider header body secret) (rw guarded at h))),
    )
  ]
    where
      passed :
          (v : Result DeliveryError (Unit {0})) {p : Payload}
          → elim v as (λ x. Result DeliveryError Payload) [
            | err why ↦ err why
            | ok _ ↦ parse_payload json provider header body
          ]
            ≡ ok p
          → v ≡ ok tt
      passed (ok _) h = refl
      passed (err why) h = cc

  receive_payload-ok :
      (wh : Webhook) (parsed : Result DeliveryError Payload) (s : Store) {d : String}
      → (receive_payload hmac_hex json decrypt insert now fresh wh parsed s).0 ≡ accepted d
      → (p : Payload) × (parsed ≡ ok p)
  unfolding receive_payload
  receive_payload-ok wh (err why) s h = cc
  receive_payload-ok wh (ok p) s h = (p, refl)

  receive_secret-Admitted :
      (r : Request) (id : String) (wh : Webhook) (s : Store) (decrypted : Option String)
      {d : String}
      → load_active id s.webhooks ≡ some wh
      → decrypt wh.secret ≡ decrypted
      → (receive_secret hmac_hex json decrypt insert now fresh r wh decrypted s).0 ≡ accepted d
      → Admitted r id s
  unfolding receive_secret verify_and_parse
  receive_secret-Admitted r id wh s none found same h = cc
  receive_secret-Admitted r id wh s (some secret) found same h =
      let (p, parsed) =
        receive_payload-ok wh
          (verify_and_parse hmac_hex json decrypt insert now fresh r (to_provider wh.provider)
            secret)
          s h in
      let (body, read, shown) =
        verify_read-ok (to_provider wh.provider) r.header r.body secret parsed in
      (wh, secret, body, found, same, read, shown)

  receive_loaded-Admitted :
      (r : Request) (id : String) (s : Store) (loaded : Option Webhook) {d : String}
      → load_active id s.webhooks ≡ loaded
      → (receive_loaded hmac_hex json decrypt insert now fresh r loaded s).0 ≡ accepted d
      → Admitted r id s
  unfolding receive_loaded
  receive_loaded-Admitted r id s none found h = cc
  receive_loaded-Admitted r id s (some wh) found h =
      receive_secret-Admitted r id wh s (decrypt wh.secret) found refl h

  -- A request is accepted only for an active webhook whose secret can be decrypted, and, unless that
  -- secret is empty, only if the delivery is authentic under it.
  pub receive-Admitted :
      (r : Request) (id : String) (s : Store) (d : String)
      → (receive hmac_hex json decrypt insert now fresh r id s).0 ≡ accepted d
      → Admitted r id s
  unfolding receive
  receive-Admitted r id s d h = receive_loaded-Admitted r id s (load_active id s.webhooks) refl h
