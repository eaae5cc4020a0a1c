-- ===== src/Webhook/Outcome.antt =====
-- What a call of internal/webhook's `Receive` does to the rows and to the queue, response by response.
use tidefly_plane.Prelude.{ℕ, String, true, Option, some, ◌∷◌, ◌≡◌, ◌⊎◌, false, Result, ok, err}
use tidefly_plane.Webhook.Signature.{DeliveryError, Request, to_provider}
use tidefly_plane.Webhook.Payload.{Payload, Unmarshal, is_ping, matches_branch}
use tidefly_plane.Webhook.Receive.{
  Webhook, failed, Delivery, Store, Job, Response, enqueue_failed, accepted, silent_ok,
  invalid_signature, pong, skipped, load_active, new_delivery, new_job, verify_and_parse,
}

-- What a response says of the webhook that was loaded and the payload that was parsed: a job and a
-- pending delivery of the same identifier for a payload that is no ping and passes that webhook's
-- filter; or one failed delivery for such a payload and no job; and nothing at all for a ping, for a
-- payload of another branch, or where there is no such payload.
abbrev pub Taken : Webhook → Result DeliveryError Payload → Store → Response → Store → Type 0
Taken wh parsed s (accepted d) s' =
    (p : Payload) × (parsed ≡ ok p)
    × (matches_branch wh.branch p.branch ≡ true)
    × (is_ping p.event_type ≡ false)
    × (s'.queue ≡ new_job d wh p ∷ s.queue)
    × (s'.deliveries ≡ new_delivery d wh p ∷ s.deliveries)
Taken wh parsed s enqueue_failed s' =
    (p : Payload) × (parsed ≡ ok p)
    × (matches_branch wh.branch p.branch ≡ true)
    × (is_ping p.event_type ≡ false)
    × (d : Delivery) × (d.status ≡ failed)
    × (d.webhook_id ≡ wh.id)
    × (s' ≡ record s { deliveries = d ∷ s.deliveries })
Taken wh parsed s skipped s' =
    (p : Payload) × (parsed ≡ ok p) × (matches_branch wh.branch p.branch ≡ false) × (s' ≡ s)
Taken wh parsed s pong s' =
    (p : Payload) × (parsed ≡ ok p) × (is_ping p.event_type ≡ true) × (s' ≡ s)
Taken wh parsed s invalid_signature s' = (why : DeliveryError) × (parsed ≡ err why) × (s' ≡ s)
Taken wh parsed s silent_ok s' = ⊥

module _ (hmac_hex : (secret body : String) → String) (json : Unmarshal)
    (decrypt : String → Option String) (insert : Job → Option String) (now : ℕ)
    (fresh : String) where
  -- There is no such webhook, or its secret cannot be read, and nothing happens; or else the webhook of
  -- that identifier is active, and the payload is what its secret admits of the request.
  abbrev pub Recorded : Request → (id : String) → Store → Response → Store → Type 0
  Recorded r id s response s' =
      ((response ≡ silent_ok) × (s' ≡ s))
      ⊎ ((wh : Webhook) × (secret : String) × (load_active id s.webhooks ≡ some wh)
          × (decrypt wh.secret ≡ some secret)
          × Taken wh
              (verify_and_parse hmac_hex json decrypt insert now fresh r (to_provider wh.provider)
                secret)
              s response s')
