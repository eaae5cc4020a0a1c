-- ===== src/Agent/Life.antt =====
-- The whole life of a connection of internal/agent/registry.go: the messages of its worker and the calls
-- of its clients, in any order.
use mathlib.Core.List.{◌++◌}
use tidefly_plane.Prelude.{
  String, Bool, true, false, Option, none, some, List, [], ◌∷◌, Result, ok, err, ◌≡◌, refl, sym, ap,
  subst, inl, inr, Bool-cases, Option-cases, if◌then◌else◌, length, length-append, ltb, lookup, put,
  lookup-put, eq_refl, arith, ◌∙◌,
}
use tidefly_plane.Agent.Messages.{
  Reply, empty, AgentMessage, hello, heartbeat, command_ack, container_logs, result, error,
  ContainerLogsResult,
}
use tidefly_plane.Agent.Conn.{
  WorkerConn, new_worker_conn, PendingCmd, LogChannel, Stuck, full_channel, send_on_closed,
  log_places, send_begin, send_end, stream_logs, close_log_stream, fill_answer, fill_failure,
  resolve_result, resolve_ack, log_channel, selected, offer_to, offer_log, push_log, read_from,
  read_log, handle_message, ClientOp, begin, finish, open_logs, close_logs, read, client_step,
}
use tidefly_plane.Agent.Backlog.{
  Ordered, moved, WithinPlaces-put, StreamsOpen-put, Ordered-stream_logs, StreamClosed,
  stream_closes, Ordered-StreamClosed, close_log_stream-Ordered,
}

-- A handled message leaves an ordered connection, or waits for a place in the full channel of a command.
abbrev pub Handled : Result Stuck WorkerConn → Type 0
Handled (ok d) = Ordered d
Handled (err e) = e ≡ full_channel

fill_answer-Handled :
    (id : String) (r : Reply) (c : WorkerConn) (p : Option PendingCmd)
    → Ordered c
    → Handled (fill_answer id r c p)
fill_answer-Handled id r c none ordered = ordered
fill_answer-Handled id r c (some p) ordered = filled p.answer
  where
    filled :
        (o : Option Reply)
        → Handled (elim o [
          | some other ↦ err full_channel
          | none ↦ ok (record c { pending = put id (record p { answer = some r }) c.pending })
        ])
    filled none =
        moved c (record c { pending = put id (record p { answer = some r }) c.pending }) refl refl
          ordered
    filled (some other) = refl

fill_failure-Handled :
    (id reason : String) (c : WorkerConn) (p : Option PendingCmd)
    → Ordered c
    → Handled (fill_failure id reason c p)
fill_failure-Handled id reason c none ordered = ordered
fill_failure-Handled id reason c (some p) ordered = filled p.failure
  where
    filled :
        (o : Option String)
        → Handled (elim o [
          | some other ↦ err full_channel
          | none ↦ ok (record c { pending = put id (record p { failure = some reason }) c.pending })
        ])
    filled none =
        moved c (record c { pending = put id (record p { failure = some reason }) c.pending }) refl
          refl ordered
    filled (some other) = refl

resolve_ack-Handled :
    (id : String) (accepted : Bool) (reason : String) (c : WorkerConn)
    → Ordered c
    → Handled (resolve_ack id accepted reason c)
unfolding resolve_ack
resolve_ack-Handled id true reason c ordered =
    fill_answer-Handled id empty c (lookup id c.pending) ordered
resolve_ack-Handled id false reason c ordered =
    fill_failure-Handled id reason c (lookup id c.pending) ordered

-- An open channel takes the line or is full.
offered :
    (log : ContainerLogsResult) (c : WorkerConn) (ch : LogChannel)
    → lookup log.command_id c.channels ≡ some ch
    → ch.closed ≡ false
    → Ordered c
    → Handled (offer_to log c (some ch))
offered log c ch there unclosed ordered =
    subst
      (λ (b : Bool). Handled (
        selected log c (
          if b
          then err send_on_closed
          else if ltb (length ch.lines) log_places
          then ok (some (record ch { lines = ch.lines ++ (log ∷ []) }))
          else ok none)))
      (sym unclosed)
      (elim (Bool-cases (ltb (length ch.lines) log_places)) [
        | inr full ↦ rw full ordered
        | inl free ↦ rw free (
          WithinPlaces-put log.command_id (record ch { lines = ch.lines ++ (log ∷ []) }) c
              (grind (arith, length-append {0} ch.lines (log ∷ []))) ordered.0,
          StreamsOpen-put log.command_id (record ch { lines = ch.lines ++ (log ∷ []) }) c
              (λ u h. unclosed) ordered.1,
        )
      ])

push_log-Handled :
    (log : ContainerLogsResult) (c : WorkerConn) → Ordered c → Handled (push_log log c)
unfolding push_log log_channel offer_log
push_log-Handled log c ordered = elim (Option-cases (lookup log.command_id c.logs)) [
  | inl free ↦ subst routed (sym free) ordered
  | inr (u, there) ↦
      let found = ordered.1 log.command_id u there in
      subst routed (sym there) (
        subst (λ o. Handled (offer_to log c o)) (sym found.1)
          (offered log c found.0 found.1 found.2 ordered))
]
  where
    routed : Option (Unit {0}) → Type 0
    routed o = Handled (
        if elim o [ none ↦ false | some u ↦ true ]
        then offer_to log c (lookup log.command_id c.channels)
        else ok c)

handle_message-Handled :
    (m : AgentMessage) (c : WorkerConn) → Ordered c → Handled (handle_message m c)
unfolding handle_message resolve_result
handle_message-Handled (hello _) c ordered = ordered
handle_message-Handled (heartbeat _) c ordered = ordered
handle_message-Handled (command_ack id accepted reason) c ordered =
    resolve_ack-Handled id accepted reason c ordered
handle_message-Handled (container_logs log) c ordered = push_log-Handled log c ordered
handle_message-Handled (result id r) c ordered =
    fill_answer-Handled id r c (lookup id c.pending) ordered
handle_message-Handled (error id code message) c ordered =
    resolve_ack-Handled id false message c ordered

read_from-Ordered :
    (id : String) (c : WorkerConn) (ch : Option LogChannel)
    → lookup id c.channels ≡ ch
    → Ordered c
    → Ordered (read_from id c ch)
read_from-Ordered id c none there ordered = ordered
read_from-Ordered id c (some ch) there ordered = taken ch.lines refl
  where
    taken :
        (lines : List ContainerLogsResult)
        → ch.lines ≡ lines
        → Ordered (elim lines [
          | [] ↦ c
          | line ∷ rest ↦ record c { channels = put id (record ch { lines = rest }) c.channels }
        ])
    taken [] same = ordered
    taken (line ∷ rest) same =
        let found = ordered.0 id ch there in
        (
          WithinPlaces-put id (record ch { lines = rest }) c (omega (arith, found, ap length same))
              ordered.0,
          StreamsOpen-put id (record ch { lines = rest }) c
              (λ u h.
                let open_one = ordered.1 id u h in
                let equal : open_one.0 ≡ ch = cc (sym open_one.1 ∙ there) in
                subst (λ (x : LogChannel). x.closed ≡ false) equal open_one.2)
              ordered.1,
        )

client_step-Ordered :
    (op : ClientOp) (c : WorkerConn)
    → Ordered c
    → (d : WorkerConn) × (client_step op c ≡ ok d) × Ordered d
unfolding client_step send_begin send_end read_log
client_step-Ordered (begin id) c ordered =
    (send_begin id c, refl, moved c (send_begin id c) refl refl ordered)
client_step-Ordered (finish id) c ordered =
    (send_end id c, refl, moved c (send_end id c) refl refl ordered)
client_step-Ordered (open_logs id) c ordered =
    (stream_logs id c, refl, Ordered-stream_logs id c ordered)
client_step-Ordered (close_logs id) c ordered = elim (close_log_stream-Ordered id c ordered) [
  | inl free ↦ (c, free, ordered)
  | inr (ch, there, made) ↦ (StreamClosed id ch c, made, Ordered-StreamClosed id ch c there ordered)
]
client_step-Ordered (read id) c ordered =
    (read_log id c, refl, read_from-Ordered id c (lookup id c.channels) refl ordered)

-- A connection from its registration on.
pub data Lived (worker_id : String) : WorkerConn → Type 0 where
  born : Lived worker_id (new_worker_conn worker_id)
  heard :
      {c d : WorkerConn} (m : AgentMessage)
      → Lived worker_id c
      → handle_message m c ≡ ok d
      → Lived worker_id d
  used :
      {c d : WorkerConn} (op : ClientOp)
      → Lived worker_id c
      → client_step op c ≡ ok d
      → Lived worker_id d

Lived-Ordered : (w : String) {c : WorkerConn} → Lived w c → Ordered c
unfolding new_worker_conn lookup
Lived-Ordered w Lived.born = (λ id ch h. cc, λ id u h. cc)
Lived-Ordered w (Lived.heard {c} m life made) =
    subst Handled made (handle_message-Handled m c (Lived-Ordered w life))
Lived-Ordered w (Lived.used {c} {d} op life made) =
    let next = client_step-Ordered op c (Lived-Ordered w life) in
    let same : next.0 ≡ d = cc (sym next.1 ∙ made) in subst Ordered same next.2

-- The receive loop goes on, or waits for a place in the full channel of a command.
abbrev pub NoPanic : Result Stuck WorkerConn → Type 0
NoPanic (ok d) = Unit
NoPanic (err e) = e ≡ full_channel

Handled-NoPanic : (r : Result Stuck WorkerConn) → Handled r → NoPanic r
Handled-NoPanic (ok d) h = tt
Handled-NoPanic (err e) h = h

-- At no point of a connection's life does a message of its worker or a call of a client panic, if each of
-- them runs without another in between: a client's call always succeeds, and a message that is not taken
-- waits for the full channel of a command.
pub no_panic :
    (w : String) {c : WorkerConn}
    → Lived w c
    → (m : AgentMessage) (op : ClientOp)
    → NoPanic (handle_message m c) × ((d : WorkerConn) × (client_step op c ≡ ok d))
no_panic w {c} life m op =
    let ordered = Lived-Ordered w life in
    let next = client_step-Ordered op c ordered in
    (Handled-NoPanic (handle_message m c) (handle_message-Handled m c ordered), (next.0, next.1))

-- `pushLog` looks a stream up and offers the line in two steps. Where the stream is open, a call of
-- `CloseLogStream` that comes between them makes the offer panic.
pub push_race :
    (w : String) {c : WorkerConn} (log : ContainerLogsResult)
    → Lived w c
    → log_channel log c ≡ true
    → (d : WorkerConn) × (close_log_stream log.command_id c ≡ ok d)
      × (offer_log log d ≡ err send_on_closed)
unfolding log_channel offer_log
push_race w {c} log life open_now = elim (Option-cases (lookup log.command_id c.logs)) [
  | inl free ↦ cc (rw (free, log_channel) at open_now)
  | inr (u, there) ↦
      let made = stream_closes log.command_id u c there (Lived-Ordered w life) in
      (
        StreamClosed log.command_id made.0 c,
        made.2,
        ap (offer_to log (StreamClosed log.command_id made.0 c)) (
            lookup-put log.command_id log.command_id (record made.0 { closed = true }) c.channels
            ∙ ap
                (λ (b : Bool).
                  if b
                  then some (record made.0 { closed = true })
                  else lookup log.command_id c.channels)
                (eq_refl log.command_id)),
      )
]
