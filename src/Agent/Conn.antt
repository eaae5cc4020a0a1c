-- ===== src/Agent/Conn.antt =====
-- `WorkerConn` of internal/agent/registry.go: the commands that wait for an answer and the log streams of
-- one worker. A command id is a fresh UUID, so a channel is known by the id it was made for; a log channel
-- stays in `channels` when its entry of `logs` is deleted, as a receive loop may still hold it.
use mathlib.Core.List.{◌++◌}
use tidefly_plane.Prelude.{
  ◌≡◌, ℕ, String, Bool, true, false, Option, none, some, List, [], ◌∷◌, Result, ok, err,
  if◌then◌else◌, length, ltb, Dict, lookup, put, remove,
}
use tidefly_plane.Agent.Messages.{
  Reply, empty, AgentMessage, hello, heartbeat, command_ack, container_logs, result, error,
  ContainerLogsResult,
}

-- Two channels with one place each.
pub record PendingCmd : Type 0 where
  pub answer : Option Reply
  pub failure : Option String

-- A channel with a hundred places.
pub record LogChannel : Type 0 where
  pub lines : List ContainerLogsResult
  pub closed : Bool

pub record WorkerConn : Type 0 where
  pub worker_id : String
  pub done : Bool
  pub pending : Dict PendingCmd
  pub logs : Dict (Unit {0})
  pub channels : Dict LogChannel

-- How a goroutine fails to go on: it waits for a place in a full channel, or panics.
pub data Stuck : Type 0 where
  full_channel send_on_closed close_of_closed : Stuck

abbrev pub log_places : ℕ
log_places = 100

unfoldable pub new_worker_conn : String → WorkerConn
new_worker_conn worker_id = record {
  worker_id = worker_id;
  done = false;
  pending = [];
  logs = [];
  channels = [];
}

-- The first half of `Send`, up to the `select`.
unfoldable pub send_begin : String → WorkerConn → WorkerConn
unfolding put
send_begin command_id c = record c {
  pending = put command_id (record { answer = none; failure = none }) c.pending;
}

-- The deferred function of `Send`.
unfoldable pub send_end : String → WorkerConn → WorkerConn
unfolding remove
send_end command_id c = record c { pending = remove command_id c.pending }

pub data SendError : Type 0 where
  not_sent : SendError
  rejected : String → SendError
  timed_out disconnected : SendError

-- The cases of the `select` that can be taken; any of them is, where there are several.
pub data Selects (c : WorkerConn) (p : PendingCmd) : Result SendError Reply → Type 0 where
  answered : (r : Reply) → p.answer ≡ some r → Selects c p (ok r)
  failed : (reason : String) → p.failure ≡ some reason → Selects c p (err (rejected reason))
  late : Selects c p (err timed_out)
  gone : c.done ≡ true → Selects c p (err disconnected)

unfoldable pub stream_logs : String → WorkerConn → WorkerConn
unfolding put
stream_logs command_id c = record c {
  logs = put command_id tt c.logs;
  channels = put command_id (record { lines = []; closed = false }) c.channels;
}

abbrev pub close_found :
    String → WorkerConn → Option (Unit {0}) → Option LogChannel → Result Stuck WorkerConn
close_found command_id c none ch = ok c
close_found command_id c (some u) none = ok c
close_found command_id c (some u) (some ch) =
    if ch.closed
    then err close_of_closed
    else ok (record c {
      logs = remove command_id c.logs;
      channels = put command_id (record ch { closed = true }) c.channels;
    })

unfoldable pub close_log_stream : String → WorkerConn → Result Stuck WorkerConn
unfolding lookup put remove
close_log_stream command_id c =
    close_found command_id c (lookup command_id c.logs) (lookup command_id c.channels)

abbrev pub fill_answer : String → Reply → WorkerConn → Option PendingCmd → Result Stuck WorkerConn
fill_answer command_id r c none = ok c
fill_answer command_id r c (some p) = elim p.answer [
  | some other ↦ err full_channel
  | none ↦ ok (record c { pending = put command_id (record p { answer = some r }) c.pending })
]

abbrev pub fill_failure : String → String → WorkerConn → Option PendingCmd → Result Stuck WorkerConn
fill_failure command_id reason c none = ok c
fill_failure command_id reason c (some p) = elim p.failure [
  | some other ↦ err full_channel
  | none ↦ ok (record c { pending = put command_id (record p { failure = some reason }) c.pending })
]

unfoldable pub resolve_result : String → Reply → WorkerConn → Result Stuck WorkerConn
unfolding lookup put
resolve_result command_id r c = fill_answer command_id r c (lookup command_id c.pending)

unfoldable pub resolve_ack : String → Bool → String → WorkerConn → Result Stuck WorkerConn
unfolding lookup put
resolve_ack command_id true reason c = fill_answer command_id empty c (lookup command_id c.pending)
resolve_ack command_id false reason c =
    fill_failure command_id reason c (lookup command_id c.pending)

-- The two steps of `pushLog`: the look into the map, and the offer to the channel, which is made without
-- the lock.
unfoldable pub log_channel : ContainerLogsResult → WorkerConn → Bool
unfolding lookup
log_channel log c = elim (lookup log.command_id c.logs) [ none ↦ false | some u ↦ true ]

-- Go's `select` of a send and a `default`, on a channel with `log_places`: the send on a closed channel
-- panics, a channel with a place takes the line, and on a full one the `default` is taken, `none`.
abbrev pub send_or_default : ContainerLogsResult → LogChannel → Result Stuck (Option LogChannel)
send_or_default log ch =
    if ch.closed
    then err send_on_closed
    else if ltb (length ch.lines) log_places
    then ok (some (record ch { lines = ch.lines ++ (log ∷ []) }))
    else ok none

-- The two branches of the `select`: the line is in the channel, or it is dropped.
abbrev pub selected :
    ContainerLogsResult → WorkerConn → Result Stuck (Option LogChannel) → Result Stuck WorkerConn
selected log c (err e) = err e
selected log c (ok (some ch)) = ok (record c { channels = put log.command_id ch c.channels })
selected log c (ok none) = ok c

abbrev pub offer_to : ContainerLogsResult → WorkerConn → Option LogChannel → Result Stuck WorkerConn
offer_to log c none = ok c
offer_to log c (some ch) = selected log c (send_or_default log ch)

unfoldable pub offer_log : ContainerLogsResult → WorkerConn → Result Stuck WorkerConn
unfolding lookup put
offer_log log c = offer_to log c (lookup log.command_id c.channels)

unfoldable pub push_log : ContainerLogsResult → WorkerConn → Result Stuck WorkerConn
unfolding log_channel offer_log
push_log log c = if log_channel log c then offer_log log c else ok c

-- A reader takes the oldest line.
abbrev pub read_from : String → WorkerConn → Option LogChannel → WorkerConn
read_from command_id c none = c
read_from command_id c (some ch) = elim ch.lines [
  | [] ↦ c
  | line ∷ rest ↦ record c { channels = put command_id (record ch { lines = rest }) c.channels }
]

unfoldable pub read_log : String → WorkerConn → WorkerConn
unfolding lookup put
read_log command_id c = read_from command_id c (lookup command_id c.channels)

-- `handleMessage` as far as it changes the connection.
unfoldable pub handle_message : AgentMessage → WorkerConn → Result Stuck WorkerConn
unfolding resolve_ack resolve_result push_log
handle_message (hello h) c = ok c
handle_message (heartbeat h) c = ok c
handle_message (command_ack command_id accepted reason) c = resolve_ack command_id accepted reason c
handle_message (container_logs log) c = push_log log c
handle_message (result command_id r) c = resolve_result command_id r c
handle_message (error command_id code message) c = resolve_ack command_id false message c

-- What the callers of a connection do with it, each step under its lock.
pub data ClientOp : Type 0 where
  begin finish open_logs close_logs read : String → ClientOp

unfoldable pub client_step : ClientOp → WorkerConn → Result Stuck WorkerConn
unfolding send_begin send_end stream_logs close_log_stream read_log
client_step (begin command_id) c = ok (send_begin command_id c)
client_step (finish command_id) c = ok (send_end command_id c)
client_step (open_logs command_id) c = ok (stream_logs command_id c)
client_step (close_logs command_id) c = close_log_stream command_id c
client_step (read command_id) c = ok (read_log command_id c)
