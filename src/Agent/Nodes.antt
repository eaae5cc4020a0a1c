-- ===== src/Agent/Nodes.antt =====
-- The rows of workers: `WorkerNode` of internal/models/infra.go with internal/agent/store.go, and what
-- internal/agent/service.go does with them. A row is deleted by a mark, and no query sees it from then on,
-- but its id stays taken.
use tidefly_plane.Prelude.{
  ℕ, String, Bool, true, false, not, ◌&&◌, Option, none, some, List, ◌∷◌, Result, ok, err, ◌==◌,
  if◌then◌else◌, is_some, find?, any, map,
}
use tidefly_plane.Ca.Registration.{RegistrationToken, TokenError, consume}
use tidefly_plane.Agent.Messages.{Float, AgentHeartbeat}

pub data WorkerStatus : Type 0 where
  pending connected disconnected revoked : WorkerStatus

pub record WorkerNode : Type 0 where
  pub id : String
  pub name : String
  pub description : String
  pub status : WorkerStatus
  pub last_seen_at : Option ℕ
  pub last_seen_ip : String
  pub agent_version : String
  pub os : String
  pub arch : String
  pub runtime_type : String
  pub cpu_percent : Float
  pub mem_percent : Float
  pub container_count : ℕ
  pub registered_by : String
  pub deleted : Bool

abbrev pub is_revoked : WorkerStatus → Bool
is_revoked revoked = true
is_revoked pending = false
is_revoked connected = false
is_revoked disconnected = false

unfoldable pub is_active : WorkerNode → Bool
is_active w = elim w.status [
  | connected ↦ true
  | pending ↦ false
  | disconnected ↦ false
  | revoked ↦ false
]

unfoldable pub mark_connected : (now : ℕ) (ip version : String) → WorkerNode → WorkerNode
mark_connected now ip version w = record w {
  status = connected;
  last_seen_at = some now;
  last_seen_ip = ip;
  agent_version = version;
}

unfoldable pub mark_disconnected : WorkerNode → WorkerNode
mark_disconnected w = record w { status = disconnected }

unfoldable pub update_heartbeat : (now : ℕ) → AgentHeartbeat → WorkerNode → WorkerNode
update_heartbeat now hb w = record w {
  last_seen_at = some now;
  cpu_percent = hb.cpu_percent;
  mem_percent = hb.mem_percent;
  container_count = hb.container_count;
}

-- The rows that a query sees.
abbrev pub is_row : String → WorkerNode → Bool
is_row id w = not w.deleted && w.id == id

abbrev pub has_id : String → WorkerNode → Bool
has_id id w = w.id == id

abbrev pub Rows : Type 0
Rows = List WorkerNode

unfoldable pub exists_by_id : String → Rows → Bool
exists_by_id id rows = any (is_row id) rows

unfoldable pub find_active : String → Rows → Option WorkerNode
find_active id = find? (λ w. is_row id w && not (is_revoked w.status))

unfoldable pub find_revoked : String → Rows → Option WorkerNode
find_revoked id = find? (λ w. is_row id w && is_revoked w.status)

-- The database refuses an id that is there, also that of a deleted row.
unfoldable pub create : WorkerNode → Rows → Option Rows
create w rows = if any (has_id w.id) rows then none else some (w ∷ rows)

abbrev pub update_rows : String → (WorkerNode → WorkerNode) → Rows → Rows
update_rows id f = map (λ w. if is_row id w then f w else w)

-- `Store.Revoke`
unfoldable pub revoke : String → Rows → Rows
revoke id = update_rows id (λ w. record w { status = revoked })

-- `Store.Delete`
unfoldable pub delete : WorkerNode → Rows → Rows
delete worker = update_rows worker.id (λ w. record w { deleted = true })

-- `db.Save` writes every column of the row with that id, and inserts the row where there is none.
unfoldable pub save_row : WorkerNode → Rows → Rows
save_row worker rows =
    if any (has_id worker.id) rows
    then map (λ w. if has_id worker.id w then worker else w) rows
    else worker ∷ rows

-- The write of `handleMessage` at a heartbeat: four columns of the row.
unfoldable pub save_heartbeat : WorkerNode → Rows → Rows
save_heartbeat worker = update_rows worker.id (λ w. record w {
  last_seen_at = worker.last_seen_at;
  cpu_percent = worker.cpu_percent;
  mem_percent = worker.mem_percent;
  container_count = worker.container_count;
})

-- The write of `markDisconnected`
unfoldable pub save_disconnected : WorkerNode → Rows → Rows
save_disconnected worker = update_rows worker.id (λ w. record w { status = disconnected })

pub data ServiceError : Type 0 where
  worker_not_found worker_exists worker_not_revoked cert_issue_failed not_created : ServiceError
  invalid_token : TokenError → ServiceError

pub record RegisterInput : Type 0 where
  pub token : String
  pub worker_id : String
  pub name : String
  pub description : String
  pub agent_version : String
  pub os : String
  pub arch : String
  pub runtime_type : String

abbrev pub new_worker : RegisterInput → (created_by : String) → WorkerNode
new_worker input created_by = record {
  id = input.worker_id;
  name = input.name;
  description = input.description;
  status = pending;
  last_seen_at = none;
  last_seen_ip = "";
  agent_version = input.agent_version;
  os = input.os;
  arch = input.arch;
  runtime_type = input.runtime_type;
  cpu_percent = 0;
  mem_percent = 0;
  container_count = 0;
  registered_by = created_by;
  deleted = false;
}

-- The rows of workers and those of registration tokens.
pub record Tables : Type 0 where
  pub nodes : Rows
  pub tokens : List RegistrationToken

-- `issued` says whether a certificate could be made.
abbrev pub register_created :
    WorkerNode → Option Rows → Tables → Result ServiceError WorkerNode × Tables
register_created worker none db = (err not_created, db)
register_created worker (some rows) db = (ok worker, record db { nodes = rows })

unfoldable pub register_consumed :
    (issued : Bool)
    → RegisterInput
    → Result TokenError RegistrationToken
    → Tables
    → Result ServiceError WorkerNode × Tables
unfolding create
register_consumed issued input (err e) db = (err (invalid_token e), db)
register_consumed false input (ok token) db = (err cert_issue_failed, db)
register_consumed true input (ok token) db =
    register_created (new_worker input token.created_by)
      (create (new_worker input token.created_by) db.nodes) db

unfoldable pub register_answered :
    (issued : Bool)
    → RegisterInput
    → Result TokenError RegistrationToken × List RegistrationToken
    → Tables
    → Result ServiceError WorkerNode × Tables
unfolding register_consumed
register_answered issued input (answer, tokens) db =
    register_consumed issued input answer (record db { tokens = tokens })

unfoldable pub register_worker :
    (issued : Bool) (now : ℕ) → RegisterInput → Tables → Result ServiceError WorkerNode × Tables
unfolding exists_by_id consume register_answered
register_worker issued now input db =
    if exists_by_id input.worker_id db.nodes
    then (err worker_exists, db)
    else register_answered issued input (consume now input.token input.worker_id db.tokens) db

-- `RenewCert` and `IssueWorkerCert`: whether the worker gets a certificate.
unfoldable pub renew_cert : (issued : Bool) → String → Rows → Result ServiceError (Unit {0})
unfolding find_active
renew_cert issued id rows =
    if is_some (find_active id rows)
    then (if issued then ok tt else err cert_issue_failed)
    else err worker_not_found

abbrev pub delete_found : Option WorkerNode → Rows → Result ServiceError WorkerNode × Rows
delete_found none rows = (err worker_not_revoked, rows)
delete_found (some w) rows = (ok w, delete w rows)

-- `Service.Delete`
unfoldable pub delete_worker : String → Rows → Result ServiceError WorkerNode × Rows
unfolding find_revoked delete
delete_worker id rows = delete_found (find_revoked id rows) rows
