-- ===== src/Agent/Tests.antt =====
-- One worker and its connections, and theorems on internal/agent at a run of them.
use tidefly_plane.Prelude.{
  ℕ, ◌<◌, true, false, none, some, [], ◌∷◌, Result, ok, ◌≡◌, ◌↔◌, refl, find?, any, lookup, nat_eq,
  if◌then◌else◌, arith,
}
use tidefly_plane.Agent.Messages.{container_logs, ContainerLogsResult, Reply, heal_result, empty}
use tidefly_plane.Agent.Commands.{Command, PlaneMessage}
use tidefly_plane.Agent.Conn.{
  WorkerConn, new_worker_conn, SendError, open_logs, close_logs, client_step, handle_message,
}
use tidefly_plane.Agent.Registry.{is_connected, register}
use tidefly_plane.Agent.Nodes.{WorkerNode, WorkerStatus, find_active, revoke, has_id, is_row}
use tidefly_plane.Agent.Session.{
  greeting, serving, ended, Plane, start, Step, Run, Reachable, on_connect, on_stream_end, leave,
  worker_id_from,
}
use tidefly_plane.Agent.Soundness.{Live, Owns}
use tidefly_plane.Agent.Registered.{registered-Live}
use tidefly_plane.Agent.Barred.{revoke_final, revocation_undone}
use tidefly_plane.Agent.Reconnect.{reconnect_dropped}
use tidefly_plane.Agent.Life.{Lived, NoPanic, no_panic}
use tidefly_plane.Agent.Replies.{Answered, Unfailed, send_heal_iff}
use tidefly_plane.Agent.Client.{send_heal}

abbrev node : WorkerNode
node = record {
  id = "w1";
  name = "worker";
  description = "";
  status = WorkerStatus.pending;
  last_seen_at = none;
  last_seen_ip = "";
  agent_version = "";
  os = "";
  arch = "";
  runtime_type = "";
  cpu_percent = 0;
  mem_percent = 0;
  container_count = 0;
  registered_by = "1";
  deleted = false;
}

abbrev connected : Plane
connected = on_connect "10.0.0.1" node (start (node ∷ []))

connected_Reachable : Reachable (node ∷ []) connected
unfolding worker_id_from find_active start
connected_Reachable =
    Reachable.later Reachable.initial
      (Step.connect "10.0.0.1" "tidefly-plane-worker-w1" "w1" node refl refl)

connected_test : is_connected "w1" connected.registry ≡ true
unfolding is_connected on_connect register start
connected_test = refl

short_name_test : worker_id_from "tidefly-plane-plane" ≡ none
unfolding worker_id_from
short_name_test = refl

connected_lookup : lookup "w1" connected.registry.workers ≡ some 0
unfolding on_connect register start lookup
connected_lookup = refl

registered-Live_example : Live "w1" 0 connected
registered-Live_example = registered-Live (node ∷ []) connected_Reachable "w1" 0 connected_lookup

-- A second worker, which connects after the first one was revoked.
abbrev other : WorkerNode
other = record node { id = "w2" }

abbrev quiet : Plane
quiet = start (node ∷ other ∷ [])

quiet_Idle : (k : ℕ) → Owns "w1" (quiet.phase k) → ⊥
unfolding start
quiet_Idle k own = own

quiet_named : any (has_id "w1") quiet.rows ≡ true
unfolding start
quiet_named = refl

abbrev barred : Plane
barred = record quiet { rows = revoke "w1" quiet.rows }

abbrev joined : Plane
joined = on_connect "10.0.0.2" other barred

other_connects : Run barred joined
unfolding worker_id_from find_active start revoke
other_connects =
    Run.more (Step.connect "10.0.0.2" "tidefly-plane-worker-w2" "w2" other refl refl) Run.none_left

revoke_final_example : (find_active "w1" joined.rows ≡ none) × (Owns "w1" (joined.phase 0) → ⊥)
revoke_final_example = revoke_final "w1" quiet 0 quiet_Idle quiet_named other_connects

-- A plane with one handler that serves the worker.
abbrev served : Plane
served = record connected { phase = λ k. serving node }

served_row : find? (is_row node.id) served.rows ≡ some node
unfolding on_connect start
served_row = refl

abbrev served_left : Plane
served_left = record (on_stream_end node (record served { rows = revoke node.id served.rows })) {
  registry = record served.registry {
    conn = λ j.
        if◌then◌else◌ (nat_eq j 0) (record (served.registry.conn 0) { done = true })
          (served.registry.conn j);
    workers = [];
  };
  phase = λ j. if◌then◌else◌ (nat_eq j 0) ended (serving node);
}

served_leaves :
    leave 0 node (on_stream_end node (record served { rows = revoke node.id served.rows }))
    ≡ ok served_left
unfolding leave on_stream_end on_connect register start
served_leaves = refl

revocation_undone_example :
    find_active "w1" served_left.rows ≡ some (record node { status = WorkerStatus.disconnected })
revocation_undone_example = revocation_undone 0 node node served refl served_row served_leaves

served_count : 0 < served.registry.count
unfolding on_connect register start
served_count = omega arith

reconnect_dropped_example :
    (q : Plane) × (leave 0 node (on_stream_end node (on_connect "10.0.0.2" node served)) ≡ ok q)
    × (is_connected "w1" q.registry ≡ false)
    × (q.phase served.registry.count ≡ greeting "10.0.0.2" node)
    × ((q.registry.conn served.registry.count).done ≡ true)
reconnect_dropped_example = reconnect_dropped 0 "10.0.0.2" node node served refl served_count

abbrev log_line : ContainerLogsResult
log_line = record {
  command_id = "c1";
  container_id = "web";
  line = "hello";
  is_stderr = false;
  timestamp = 0;
}

-- A connection with one stream, and one line in it.
abbrev streaming : WorkerConn
streaming = record (new_worker_conn "w1") {
  logs = ("c1", tt) ∷ [];
  channels = ("c1", record { lines = []; closed = false }) ∷ [];
}

abbrev logged : WorkerConn
logged = record streaming {
  channels = ("c1", record { lines = log_line ∷ []; closed = false }) ∷ [];
}

opens : client_step (open_logs "c1") (new_worker_conn "w1") ≡ ok streaming
unfolding client_step new_worker_conn
opens = refl

hears : handle_message (container_logs log_line) streaming ≡ ok logged
unfolding handle_message new_worker_conn
hears = refl

logged-Lived : Lived "w1" logged
logged-Lived =
    Lived.heard (container_logs log_line) (Lived.used (open_logs "c1") Lived.born opens) hears

no_panic_example :
    NoPanic (handle_message (container_logs log_line) logged)
    × ((d : WorkerConn) × (client_step (close_logs "c1") logged ≡ ok d))
no_panic_example = no_panic "w1" logged-Lived (container_logs log_line) (close_logs "c1")

-- A worker that answers each command with a healing that succeeded.
abbrev healthy_worker : ℕ → PlaneMessage → Result SendError Reply
healthy_worker k m = ok (heal_result (record { success = true; container_id = "c"; error = "" }))

send_heal_iff_example :
    (send_heal healthy_worker connected.registry "id" "w1" "web" "die" none ≡ ok tt) ↔ (
      (reply : Reply) × Answered healthy_worker connected.registry "id" "w1"
        (Command.heal_command "web" "die" none)
        reply
      × Unfailed reply)
send_heal_iff_example = send_heal_iff healthy_worker connected.registry "id" "w1" "web" "die" none

-- An acceptance of the command counts as a success of the healing.
accepted_test : send_heal (λ k m. ok empty) connected.registry "id" "w1" "web" "die" none ≡ ok tt
unfolding send_heal on_connect register start
accepted_test = refl
