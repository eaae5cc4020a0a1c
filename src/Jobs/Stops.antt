-- ===== src/Jobs/Stops.antt =====
-- The watcher of internal/jobs/events_webhooks.go over a sequence of events: a container that was stopped
-- on purpose is not healed when it dies of it.
use tidefly_plane.Prelude.{
  ℕ, ◌-◌, ◌<◌, String, Bool, true, false, some, List, [], ◌∷◌, ◌≡◌, refl, sym, ap, subst, inl, inr,
  Bool-cases, ◌==◌, eq_refl, any, if◌then◌else◌, All, lookup, get, lookup-put, lookup-remove, arith,
  ◌∙◌, ◌||◌, ◌⊎◌,
}
use tidefly_plane.Runtime.Types.{
  EventType, start, stop, die, kill, restart, pause, unpause, destroy, create, oom, other,
  ContainerEvent,
}
use tidefly_plane.Jobs.Events.{
  Watcher, StopTracker, record_stop, was_recently_stopped, is_recent, enqueue_heal, notify_and_heal,
  on_kill, on_die, on_oom, on_event, is_ignored, handle_container_event, same_args,
  derive_service_name,
}

-- `watchOnce`: the events of the stream, each with the time at which it is handled.
unfoldable pub watch : List (ℕ × ContainerEvent) → Watcher → Watcher
unfolding handle_container_event
watch [] w = w
watch ((now, event) ∷ events) w = watch events (handle_container_event now event w)

enqueue_heal-stops : (event : ContainerEvent) (w : Watcher) → (enqueue_heal event w).stops ≡ w.stops
unfolding enqueue_heal
enqueue_heal-stops event w = queued (
    any
      (same_args (record {
        service_name = derive_service_name event.name;
        container_id = event.container_id;
        reason = event.type;
      }))
      w.queue)
  where
    queued :
        (b : Bool)
        → (if b then w else record w {
          queue =
              record {
                service_name = derive_service_name event.name;
                container_id = event.container_id;
                reason = event.type;
              }
              ∷ w.queue;
        }).stops
          ≡ w.stops
    queued true = refl
    queued false = refl

-- An event leaves the entry of another container alone.
module _ (now : ℕ) (event : ContainerEvent) (id : String)
    (apart : event.container_id == id ≡ false) where
  record_stop-other :
      (seen : StopTracker) → lookup id (record_stop now event.container_id seen) ≡ lookup id seen
  unfolding record_stop
  record_stop-other seen = lookup-put event.container_id id now seen ∙ rw apart refl

  on_kill-other : (w : Watcher) → lookup id (on_kill now event w).stops ≡ lookup id w.stops
  unfolding on_kill notify_and_heal
  on_kill-other w =
      elim (Bool-cases
        (get "signal" event.labels == "15" || get "signal" event.labels == "SIGTERM")) [
          | inl gentle ↦ rw gentle (record_stop-other w.stops)
          | inr hard ↦ rw hard (ap (lookup id) (enqueue_heal-stops event _))
        ]

  on_die-other : (w : Watcher) → lookup id (on_die now event w).stops ≡ lookup id w.stops
  unfolding on_die was_recently_stopped notify_and_heal
  on_die-other w =
      let gone = lookup-remove event.container_id id w.stops ∙ rw apart refl in
      elim (Bool-cases (get "exitCode" event.labels == "0")) [
        | inl clean ↦ rw clean refl
        | inr failed ↦ elim (Bool-cases (is_recent now (lookup event.container_id w.stops))) [
          | inl recent ↦ rw (failed, recent) gone
          | inr old ↦ rw (failed, old) (ap (lookup id) (enqueue_heal-stops event _) ∙ gone)
        ]
      ]

  on_event-other :
      (type : EventType) (w : Watcher)
      → lookup id (on_event now type event w).stops ≡ lookup id w.stops
  unfolding on_event on_oom
  on_event-other stop w = record_stop-other w.stops
  on_event-other kill w = on_kill-other w
  on_event-other die w = on_die-other w
  on_event-other oom w = ap (lookup id) (enqueue_heal-stops event _)
  on_event-other start w = refl
  on_event-other restart w = refl
  on_event-other pause w = refl
  on_event-other unpause w = refl
  on_event-other destroy w = refl
  on_event-other create w = refl
  on_event-other other w = refl

  handle-other :
      (w : Watcher) → lookup id (handle_container_event now event w).stops ≡ lookup id w.stops
  unfolding handle_container_event
  handle-other w = elim (Bool-cases (is_ignored event)) [
    | inl ignored ↦ rw ignored refl
    | inr seen ↦ rw seen (on_event-other event.type w)
  ]

abbrev pub OfOthers : String → List (ℕ × ContainerEvent) → Type 0
OfOthers id = All (λ (e : ℕ × ContainerEvent). e.1.container_id == id ≡ false)

watch-others :
    (id : String) (events : List (ℕ × ContainerEvent)) (w : Watcher)
    → OfOthers id events
    → lookup id (watch events w).stops ≡ lookup id w.stops
unfolding watch
watch-others id [] w others = refl
watch-others id ((now, event) ∷ events) w others =
    watch-others id events (handle_container_event now event w) others.1
    ∙ handle-other now event id others.0 w

-- A stop event, or a kill by the signal of `docker stop`.
abbrev pub IsDeliberate : ContainerEvent → Type 0
IsDeliberate event =
    (event.type ≡ stop)
    ⊎ ((event.type ≡ kill)
        × ((get "signal" event.labels == "15" || get "signal" event.labels == "SIGTERM") ≡ true))

recorded :
    (now : ℕ) (event : ContainerEvent) (w : Watcher)
    → lookup event.container_id (record_stop now event.container_id w.stops) ≡ some now
unfolding record_stop
recorded now event w =
    lookup-put event.container_id event.container_id now w.stops
    ∙ ap (λ (b : Bool). if b then some now else lookup event.container_id w.stops)
        (eq_refl event.container_id)

deliberate-recorded :
    (now : ℕ) (event : ContainerEvent) (w : Watcher)
    → is_ignored event ≡ false
    → IsDeliberate event
    → lookup event.container_id (handle_container_event now event w).stops ≡ some now
unfolding handle_container_event on_event on_kill
deliberate-recorded now event w seen (inl stopped) = rw seen (
    subst (λ type. lookup event.container_id (on_event now type event w).stops ≡ some now)
      (sym stopped) (recorded now event w))
deliberate-recorded now event w seen (inr (killed, gentle)) = rw seen (
    subst (λ type. lookup event.container_id (on_event now type event w).stops ≡ some now)
      (sym killed) (rw (gentle, on_kill) (recorded now event w)))

-- Nothing is queued and nobody is told.
abbrev pub Quiet : Watcher → Watcher → Type 0
Quiet before after = (after.queue ≡ before.queue) × (after.notices ≡ before.notices)

on_die-Quiet :
    (now : ℕ) (event : ContainerEvent) (w : Watcher)
    → is_recent now (lookup event.container_id w.stops) ≡ true
    → Quiet w (on_die now event w)
unfolding on_die was_recently_stopped
on_die-Quiet now event w recent = elim (Bool-cases (get "exitCode" event.labels == "0")) [
  | inl clean ↦ rw clean (refl, refl)
  | inr failed ↦ rw (failed, recent) (refl, refl)
]

-- A container that was stopped on purpose, by an event that the watcher does not ignore, and that dies
-- less than three seconds later is not healed, whatever its exit code is and whatever happens to other
-- containers in between: the death queues no job and sends no notice.
pub deliberate_stop_lem :
    (stopped_at died_at : ℕ) (stopping death : ContainerEvent) (between : List (ℕ × ContainerEvent))
    (w : Watcher)
    → is_ignored stopping ≡ false
    → IsDeliberate stopping
    → OfOthers stopping.container_id between
    → death.type ≡ die
    → death.container_id ≡ stopping.container_id
    → died_at - stopped_at < 3000
    → Quiet (watch between (handle_container_event stopped_at stopping w)) (
        handle_container_event died_at death
          (watch between (handle_container_event stopped_at stopping w)))
unfolding handle_container_event on_event
deliberate_stop_lem stopped_at died_at stopping death between w seen meant others dies same soon =
    let before = watch between (handle_container_event stopped_at stopping w) in
    let there : lookup death.container_id before.stops ≡ some stopped_at =
      ap (λ (id : String). lookup id before.stops) same
      ∙ (watch-others stopping.container_id between (handle_container_event stopped_at stopping w)
            others
          ∙ deliberate-recorded stopped_at stopping w seen meant) in
    let recent : is_recent died_at (lookup death.container_id before.stops) ≡ true =
      ap (is_recent died_at) there ∙ ground (arith, soon) in
    elim (Bool-cases (is_ignored death)) [
      | inl ignored ↦ rw ignored (refl, refl)
      | inr handled ↦ rw handled (
          subst (λ type. Quiet before (on_event died_at type death before)) (sym dies)
            (on_die-Quiet died_at death before recent))
    ]
