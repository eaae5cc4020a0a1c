-- ===== src/Agent/Session.antt =====
-- The `Connect` handlers of internal/agent/server.go, interleaved with each other and with the calls of
-- internal/agent/service.go. A handler is known by the number of its connection.
use Prim.Native.String.{◌++◌}
use tidefly_plane.Prelude.{
  ℕ, String, Option, none, some, Result, ok, err, ◌≡◌, ltb, text_length, drop_text, if◌then◌else◌,
}
use tidefly_plane.Agent.Messages.{AgentHello, AgentHeartbeat, AgentMessage}
use tidefly_plane.Agent.Conn.{WorkerConn, Stuck, handle_message, ClientOp, client_step}
use tidefly_plane.Agent.Registry.{Registry, new_registry, register, unregister, update}
use tidefly_plane.Agent.Nodes.{
  WorkerNode, Rows, find_active, mark_connected, mark_disconnected, update_heartbeat, save_row,
  save_heartbeat, save_disconnected, revoke, create, delete_worker,
}

-- The common name of a worker's certificate: `IssueWorkerCert` of internal/platform/ca/ca.go.
unfoldable pub worker_subject : (owner_id : String) → String
worker_subject owner_id = "tidefly-plane-worker-" ++ owner_id

-- `workerIDFromContext` at the certificate's common name: what follows the first 21 bytes, of ASCII, where
-- there is more.
unfoldable pub worker_id_from : (common_name : String) → Option String
unfolding drop_text text_length
worker_id_from cn = if ltb 21 (text_length cn) then some (drop_text 21 cn) else none

-- Where a handler is, with its own copy of the worker's row.
pub data Phase : Type 0 where
  greeting : (ip : String) → WorkerNode → Phase
  serving : WorkerNode → Phase
  ended : Phase

pub record Plane : Type 0 where
  pub registry : Registry
  pub rows : Rows
  pub phase : ℕ → Phase

-- `Connect` up to the wait for the first message.
unfoldable pub on_connect : (ip : String) → WorkerNode → Plane → Plane
unfolding register
on_connect ip worker p = record p {
  registry = register worker.id p.registry;
  phase = update p.phase p.registry.count (greeting ip worker);
}

abbrev pub greeted : (now : ℕ) (ip : String) → AgentHello → WorkerNode → WorkerNode
greeted now ip h worker = record (mark_connected now ip h.agent_version worker) {
  os = h.os;
  arch = h.arch;
  runtime_type = h.runtime_type;
}

-- `handleHello` with the message it waited for.
unfoldable pub on_hello :
    (now : ℕ) (ip : String) → AgentHello → (k : ℕ) → WorkerNode → Plane → Plane
unfolding mark_connected save_row
on_hello now ip h k worker p = record p {
  rows = save_row (greeted now ip h worker) p.rows;
  phase = update p.phase k (serving (greeted now ip h worker));
}

unfoldable pub on_heartbeat : (now : ℕ) → AgentHeartbeat → (k : ℕ) → WorkerNode → Plane → Plane
unfolding update_heartbeat save_heartbeat
on_heartbeat now hb k worker p = record p {
  rows = save_heartbeat (update_heartbeat now hb worker) p.rows;
  phase = update p.phase k (serving (update_heartbeat now hb worker));
}

-- The end of the stream: `markDisconnected` on the way out of the loop.
unfoldable pub on_stream_end : WorkerNode → Plane → Plane
unfolding save_disconnected mark_disconnected
on_stream_end worker p = record p { rows = save_disconnected (mark_disconnected worker) p.rows }

abbrev pub left : ℕ → Plane → Result Stuck Registry → Result Stuck Plane
left k p (err e) = err e
left k p (ok r) = ok (record p { registry = r; phase = update p.phase k ended })

-- The deferred `Unregister`, with which every handler ends.
unfoldable pub leave : ℕ → WorkerNode → Plane → Result Stuck Plane
unfolding unregister
leave k worker p = left k p (unregister worker.id p.registry)

-- A change of a connection that leaves its worker and its `done` alone.
abbrev pub with_conn : ℕ → WorkerConn → Plane → Plane
with_conn k c p = record p { registry = record p.registry { conn = update p.registry.conn k c } }

module _ (p : Plane) where
  pub data Step : Plane → Type 0 where
    connect :
        (ip common_name id : String) (worker : WorkerNode)
        → worker_id_from common_name ≡ some id
        → find_active id p.rows ≡ some worker
        → Step (on_connect ip worker p)
    greet :
        (k now : ℕ) (h : AgentHello) (ip : String) (worker : WorkerNode)
        → p.phase k ≡ greeting ip worker
        → Step (on_hello now ip h k worker p)
    -- No first message, or not a hello.
    refuse :
        (k : ℕ) (ip : String) (worker : WorkerNode) {q : Plane}
        → p.phase k ≡ greeting ip worker
        → leave k worker p ≡ ok q
        → Step q
    beat :
        (k now : ℕ) (hb : AgentHeartbeat) (worker : WorkerNode)
        → p.phase k ≡ serving worker
        → Step (on_heartbeat now hb k worker p)
    message :
        (k : ℕ) (m : AgentMessage) (worker : WorkerNode) {c : WorkerConn}
        → p.phase k ≡ serving worker
        → handle_message m (p.registry.conn k) ≡ ok c
        → Step (with_conn k c p)
    -- A caller may still hold the connection of a handler that has ended.
    client :
        (k : ℕ) (op : ClientOp) {c : WorkerConn}
        → client_step op (p.registry.conn k) ≡ ok c
        → Step (with_conn k c p)
    stream_end :
        (k : ℕ) (worker : WorkerNode) {q : Plane}
        → p.phase k ≡ serving worker
        → leave k worker (on_stream_end worker p) ≡ ok q
        → Step q
    -- The connection's `done` was closed, or the acknowledgement of the hello could not be sent.
    dropped :
        (k : ℕ) (worker : WorkerNode) {q : Plane}
        → p.phase k ≡ serving worker
        → leave k worker p ≡ ok q
        → Step q
    revoked : (id : String) → Step (record p { rows = revoke id p.rows })
    -- The last call of `Service.Register`.
    joined :
        (worker : WorkerNode) {rows : Rows}
        → create worker p.rows ≡ some rows
        → Step (record p { rows = rows })
    deleted : (id : String) → Step (record p { rows = (delete_worker id p.rows).1 })

unfoldable pub start : Rows → Plane
unfolding new_registry
start rows = record { registry = new_registry; rows = rows; phase = λ k. ended }

pub data Reachable (rows : Rows) : Plane → Type 0 where
  initial : Reachable rows (start rows)
  later : {p q : Plane} → Reachable rows p → Step p q → Reachable rows q

pub data Run : Plane → Plane → Type 0 where
  none_left : {p : Plane} → Run p p
  more : {p q r : Plane} → Step p q → Run q r → Run p r
