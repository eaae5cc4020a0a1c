-- ===== src/Agent/Backlog.antt =====
-- The log channels of a connection of internal/agent/registry.go over its whole life.
use tidefly_plane.Prelude.{
  ◌⊎◌, ◌≤◌, String, Bool, true, false, some, [], ok, err, ◌≡◌, refl, sym, ap, subst, inl, inr,
  Bool-cases, Option-cases, if◌then◌else◌, length, ◌==◌, eq_iff, lookup, put, remove, lookup-put,
  lookup-remove, arith, ◌∙◌,
}
use tidefly_plane.Agent.Conn.{
  WorkerConn, LogChannel, close_of_closed, log_places, stream_logs, close_found, close_log_stream,
}

-- A channel holds at most its hundred places, and an id among the streams has an open channel.
abbrev pub WithinPlaces : WorkerConn → Type 0
WithinPlaces c =
    (id : String) (ch : LogChannel) → lookup id c.channels ≡ some ch → length ch.lines ≤ log_places

abbrev pub StreamsOpen : WorkerConn → Type 0
StreamsOpen c =
    (id : String) (u : Unit {0})
    → lookup id c.logs ≡ some u
    → (ch : LogChannel) × (lookup id c.channels ≡ some ch) × (ch.closed ≡ false)

abbrev pub Ordered : WorkerConn → Type 0
Ordered c = WithinPlaces c × StreamsOpen c

-- The same streams over the same channels.
pub moved : (c d : WorkerConn) → d.channels ≡ c.channels → d.logs ≡ c.logs → Ordered c → Ordered d
moved c d channels logs ordered = (
  λ id ch h. ordered.0 id ch (sym (ap (lookup id) channels) ∙ h),
  λ id u h.
      let found = ordered.1 id u (sym (ap (lookup id) logs) ∙ h) in
      (found.0, ap (lookup id) channels ∙ found.1, found.2),
)

-- A channel is replaced by one within its places that is open if it was.
pub WithinPlaces-put :
    (id : String) (ch : LogChannel) (c : WorkerConn)
    → length ch.lines ≤ log_places
    → WithinPlaces c
    → WithinPlaces (record c { channels = put id ch c.channels })
WithinPlaces-put id ch c small within j other h = elim (Bool-cases (id == j)) [
  | inl same ↦
      let equal : ch ≡ other = cc (rw same at (sym (lookup-put id j ch c.channels) ∙ h)) in
      subst (λ (x : LogChannel). length x.lines ≤ log_places) equal small
  | inr apart ↦ within j other (rw apart at (sym (lookup-put id j ch c.channels) ∙ h))
]

pub StreamsOpen-put :
    (id : String) (ch : LogChannel) (c : WorkerConn)
    → ((u : Unit {0}) → lookup id c.logs ≡ some u → ch.closed ≡ false)
    → StreamsOpen c
    → StreamsOpen (record c { channels = put id ch c.channels })
StreamsOpen-put id ch c unclosed streams j u h = elim (Bool-cases (id == j)) [
  | inl same ↦ (
    ch,
    lookup-put id j ch c.channels ∙ rw same refl,
    unclosed u (subst (λ i. lookup i c.logs ≡ some u) (sym ((eq_iff id j).0 same)) h),
  )
  | inr apart ↦
      let found = streams j u h in
      (found.0, lookup-put id j ch c.channels ∙ rw apart found.1, found.2)
]

pub Ordered-stream_logs : (id : String) (c : WorkerConn) → Ordered c → Ordered (stream_logs id c)
unfolding stream_logs
Ordered-stream_logs id c ordered =
    let fresh : LogChannel = record { lines = []; closed = false } in
    (
      WithinPlaces-put id fresh c (omega arith) ordered.0,
      λ j u h. elim (Bool-cases (id == j)) [
        | inl same ↦ (fresh, lookup-put id j fresh c.channels ∙ rw same refl, refl)
        | inr apart ↦
            let found = ordered.1 j u (rw apart at (sym (lookup-put id j tt c.logs) ∙ h)) in
            (found.0, lookup-put id j fresh c.channels ∙ rw apart found.1, found.2)
      ],
    )

-- The end of a stream closes its channel once, and no other.
abbrev pub StreamClosed : String → LogChannel → WorkerConn → WorkerConn
StreamClosed id ch c = record c {
  logs = remove id c.logs;
  channels = put id (record ch { closed = true }) c.channels;
}

pub Ordered-StreamClosed :
    (id : String) (ch : LogChannel) (c : WorkerConn)
    → lookup id c.channels ≡ some ch
    → Ordered c
    → Ordered (StreamClosed id ch c)
Ordered-StreamClosed id ch c there ordered = (
  WithinPlaces-put id (record ch { closed = true }) c (ordered.0 id ch there) ordered.0,
  λ j u h. elim (Bool-cases (id == j)) [
    | inl same ↦ cc (rw same at (sym (lookup-remove id j c.logs) ∙ h))
    | inr apart ↦
        let found = ordered.1 j u (rw apart at (sym (lookup-remove id j c.logs) ∙ h)) in
        (
          found.0,
          lookup-put id j (record ch { closed = true }) c.channels ∙ rw apart found.1,
          found.2,
        )
  ],
)

-- The end of an open stream.
pub stream_closes :
    (id : String) (u : Unit {0}) (c : WorkerConn)
    → lookup id c.logs ≡ some u
    → Ordered c
    → (ch : LogChannel) × (lookup id c.channels ≡ some ch)
      × (close_log_stream id c ≡ ok (StreamClosed id ch c))
unfolding close_log_stream
stream_closes id u c there ordered =
    let found = ordered.1 id u there in
    (
      found.0,
      found.1,
      ap (λ o. close_found id c o (lookup id c.channels)) there
          ∙ (ap (close_found id c (some u)) found.1
              ∙ ap (λ (b : Bool). if b then err close_of_closed else ok (StreamClosed id found.0 c))
                  found.2),
    )

-- `CloseLogStream` closes no closed channel.
pub close_log_stream-Ordered :
    (id : String) (c : WorkerConn)
    → Ordered c
    → (close_log_stream id c ≡ ok c)
      ⊎ ((ch : LogChannel) × (lookup id c.channels ≡ some ch)
          × (close_log_stream id c ≡ ok (StreamClosed id ch c)))
unfolding close_log_stream
close_log_stream-Ordered id c ordered = elim (Option-cases (lookup id c.logs)) [
  | inl free ↦ inl (ap (λ o. close_found id c o (lookup id c.channels)) free)
  | inr (u, there) ↦ inr (stream_closes id u c there ordered)
]
