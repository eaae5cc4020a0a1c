-- ===== src/Agent/Identity.antt =====
-- What the operations of `WorkerConn` in internal/agent/registry.go leave alone.
use tidefly_plane.Prelude.{
  String, Bool, true, false, Option, none, some, Result, ok, ◌≡◌, refl, subst, inl, inr, Bool-cases,
  lookup, arith,
}
use tidefly_plane.Agent.Messages.{
  Reply, empty, AgentMessage, hello, heartbeat, command_ack, container_logs, result, error,
  ContainerLogsResult,
}
use tidefly_plane.Agent.Conn.{
  WorkerConn, PendingCmd, LogChannel, Stuck, send_begin, send_end, stream_logs, close_found,
  close_log_stream, fill_answer, fill_failure, resolve_result, resolve_ack, log_channel, offer_to,
  offer_log, push_log, read_from, read_log, handle_message, ClientOp, begin, finish, open_logs,
  close_logs, read, client_step,
}

-- The same worker's, and open or closed as before.
abbrev pub Kept : WorkerConn → WorkerConn → Type 0
Kept c d = (d.done ≡ c.done) × (d.worker_id ≡ c.worker_id)

via :
    (c e : WorkerConn) {d : WorkerConn}
    → Kept c e
    → ◌≡◌ {A = Result Stuck WorkerConn} (ok e) (ok d)
    → Kept c d
via c e {d} kept h = let equal : e ≡ d = cc in subst (Kept c) equal kept

same : {c d : WorkerConn} → ◌≡◌ {A = Result Stuck WorkerConn} (ok c) (ok d) → Kept c d
same {c} h = via c c (refl, refl) h

fill_answer-Kept :
    (id : String) (r : Reply) (c : WorkerConn) (p : Option PendingCmd) {d : WorkerConn}
    → fill_answer id r c p ≡ ok d
    → Kept c d
fill_answer-Kept id r c none h = same h
fill_answer-Kept id r c (some p) h = ground arith

fill_failure-Kept :
    (id reason : String) (c : WorkerConn) (p : Option PendingCmd) {d : WorkerConn}
    → fill_failure id reason c p ≡ ok d
    → Kept c d
fill_failure-Kept id reason c none h = same h
fill_failure-Kept id reason c (some p) h = ground arith

resolve_ack-Kept :
    (id : String) (accepted : Bool) (reason : String) (c : WorkerConn) {d : WorkerConn}
    → resolve_ack id accepted reason c ≡ ok d
    → Kept c d
unfolding resolve_ack
resolve_ack-Kept id true reason c h = fill_answer-Kept id empty c (lookup id c.pending) h
resolve_ack-Kept id false reason c h = fill_failure-Kept id reason c (lookup id c.pending) h

offer_to-Kept :
    (log : ContainerLogsResult) (c : WorkerConn) (ch : Option LogChannel) {d : WorkerConn}
    → offer_to log c ch ≡ ok d
    → Kept c d
offer_to-Kept log c none h = same h
offer_to-Kept log c (some ch) h = ground arith

push_log-Kept :
    (log : ContainerLogsResult) (c : WorkerConn) {d : WorkerConn} → push_log log c ≡ ok d → Kept c d
unfolding push_log offer_log
push_log-Kept log c {d} h = elim (Bool-cases (log_channel log c)) [
  | inl found ↦ offer_to-Kept log c (lookup log.command_id c.channels) (rw found at h)
  | inr missing ↦ same (rw missing at h)
]

pub handle_message-Kept :
    (m : AgentMessage) (c : WorkerConn) {d : WorkerConn} → handle_message m c ≡ ok d → Kept c d
unfolding handle_message resolve_result
handle_message-Kept (hello _) c h = same h
handle_message-Kept (heartbeat _) c h = same h
handle_message-Kept (command_ack id accepted reason) c h = resolve_ack-Kept id accepted reason c h
handle_message-Kept (container_logs log) c h = push_log-Kept log c h
handle_message-Kept (result id r) c h = fill_answer-Kept id r c (lookup id c.pending) h
handle_message-Kept (error id code message) c h = resolve_ack-Kept id false message c h

close_found-Kept :
    (id : String) (c : WorkerConn) (u : Option (Unit {0})) (ch : Option LogChannel) {d : WorkerConn}
    → close_found id c u ch ≡ ok d
    → Kept c d
close_found-Kept id c none ch h = same h
close_found-Kept id c (some u) none h = same h
close_found-Kept id c (some u) (some ch) h = ground arith

read_from-Kept :
    (id : String) (c : WorkerConn) (ch : Option LogChannel) → Kept c (read_from id c ch)
read_from-Kept id c none = (refl, refl)
read_from-Kept id c (some ch) = ground arith

pub client_step-Kept :
    (op : ClientOp) (c : WorkerConn) {d : WorkerConn} → client_step op c ≡ ok d → Kept c d
unfolding client_step send_begin send_end stream_logs close_log_stream read_log
client_step-Kept (begin id) c h = via c (send_begin id c) (refl, refl) h
client_step-Kept (finish id) c h = via c (send_end id c) (refl, refl) h
client_step-Kept (open_logs id) c h = via c (stream_logs id c) (refl, refl) h
client_step-Kept (close_logs id) c h =
    close_found-Kept id c (lookup id c.logs) (lookup id c.channels) h
client_step-Kept (read id) c h =
    via c (read_log id c) (read_from-Kept id c (lookup id c.channels)) h
