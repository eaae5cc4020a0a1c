-- ===== src/Webhook/Receive.antt =====
-- internal/webhook/receive.go and the rows of internal/models/events.go that it reads and writes. The
-- text of a row that `Receive` does not use is left out.
use tidefly_plane.Prelude.{
  ℕ, String, Bool, not, ◌&&◌, Option, none, some, List, [], ◌∷◌, Result, ok, err, ◌==◌,
  if◌then◌else◌, find?,
}
use tidefly_plane.Webhook.Signature.{
  Provider, Request, DeliveryError, unreadable_body, to_provider, verify_signature,
}
use tidefly_plane.Webhook.Payload.{
  Payload, EventKind, is_ping, Unmarshal, parse_payload, matches_branch,
}

pub data WebhookStatus : Type 0 where
  unset pending success failed : WebhookStatus

pub record Webhook : Type 0 where
  pub id : String
  pub active : Bool
  pub secret : String
  pub branch : String
  pub provider : String
  pub last_triggered_at : Option ℕ
  pub last_status : WebhookStatus

pub record Delivery : Type 0 where
  pub id : String
  pub webhook_id : String
  pub provider : Provider
  pub event_type : EventKind
  pub branch : String
  pub commit : String
  pub commit_msg : String
  pub pushed_by : String
  pub repo_url : String
  pub status : WebhookStatus
  pub error_msg : String

-- The arguments of the job that deploys.
pub record Job : Type 0 where
  pub webhook_id : String
  pub delivery_id : String
  pub branch : String
  pub tag : String
  pub commit : String

pub record Store : Type 0 where
  pub webhooks : List Webhook
  pub deliveries : List Delivery
  pub queue : List Job

pub data Response : Type 0 where
  silent_ok invalid_signature pong skipped enqueue_failed : Response
  accepted : String → Response

unfoldable pub load_active : String → List Webhook → Option Webhook
load_active id = find? (λ (wh : Webhook). wh.id == id && wh.active)

unfoldable pub update_last_triggered : ℕ → String → WebhookStatus → List Webhook → List Webhook
update_last_triggered now id status [] = []
update_last_triggered now id status (wh ∷ whs) =
    let rest = update_last_triggered now id status whs in
    (if wh.id == id then record wh { last_triggered_at = some now; last_status = status } else wh)
    ∷ rest

abbrev pub new_delivery : String → Webhook → Payload → Delivery
new_delivery id wh p = record {
  id = id;
  webhook_id = wh.id;
  provider = to_provider wh.provider;
  event_type = p.event_type;
  branch = p.branch;
  commit = p.commit;
  commit_msg = p.commit_msg;
  pushed_by = p.pushed_by;
  repo_url = p.repo_url;
  status = pending;
  error_msg = "";
}

abbrev pub new_job : String → Webhook → Payload → Job
new_job id wh p = record {
  webhook_id = wh.id;
  delivery_id = id;
  branch = p.branch;
  tag = p.tag;
  commit = p.commit;
}

-- The cryptography, the JSON decoder, the clock, the identifier for the delivery, and the answer of the
-- job queue, which is `none` or the text of an error.
module _ (hmac_hex : (secret body : String) → String) (json : Unmarshal)
    (decrypt : String → Option String) (insert : Job → Option String) (now : ℕ)
    (fresh : String) where
  unfoldable pub verify_read :
      Provider
      → (header : String → String) → Option String
      → (secret : String) → Result DeliveryError Payload
  unfolding verify_signature parse_payload
  verify_read provider header none secret = err unreadable_body
  verify_read provider header (some body) secret =
      if secret == ""
      then parse_payload json provider header body
      else elim (verify_signature hmac_hex provider header body secret) [
        | err why ↦ err why
        | ok _ ↦ parse_payload json provider header body
      ]

  unfoldable pub verify_and_parse : Request → Provider → String → Result DeliveryError Payload
  unfolding verify_read
  verify_and_parse r provider secret = verify_read provider r.header r.body secret

  -- The delivery is stored, and its job put into the queue.
  unfoldable pub enqueue : Webhook → Payload → Option String → Store → Response × Store
  unfolding update_last_triggered
  enqueue wh p none s = (
    accepted fresh,
    record {
      webhooks = update_last_triggered now wh.id pending s.webhooks;
      deliveries = new_delivery fresh wh p ∷ s.deliveries;
      queue = new_job fresh wh p ∷ s.queue;
    },
  )
  enqueue wh p (some text) s = (
    enqueue_failed,
    record s {
      deliveries =
          record (new_delivery fresh wh p) { status = failed; error_msg = text } ∷ s.deliveries;
    },
  )

  unfoldable pub receive_payload : Webhook → Result DeliveryError Payload → Store → Response × Store
  unfolding enqueue
  receive_payload wh (err why) s = (invalid_signature, s)
  receive_payload wh (ok p) s =
      if is_ping p.event_type
      then (pong, s)
      else if not (matches_branch wh.branch p.branch)
      then (skipped, s)
      else enqueue wh p (insert (new_job fresh wh p)) s

  unfoldable pub receive_secret : Request → Webhook → Option String → Store → Response × Store
  unfolding receive_payload
  receive_secret r wh none s = (silent_ok, s)
  receive_secret r wh (some secret) s =
      receive_payload wh (verify_and_parse r (to_provider wh.provider) secret) s

  unfoldable pub receive_loaded : Request → Option Webhook → Store → Response × Store
  unfolding receive_secret
  receive_loaded r none s = (silent_ok, s)
  receive_loaded r (some wh) s = receive_secret r wh (decrypt wh.secret) s

  unfoldable pub receive : Request → (id : String) → Store → Response × Store
  unfolding receive_loaded load_active
  receive r id s = receive_loaded r (load_active id s.webhooks) s
