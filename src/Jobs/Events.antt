-- ===== src/Jobs/Events.antt =====
-- internal/jobs/events_webhooks.go: what the plane does at an event of a container. The job queue is a
-- list, latest first; it takes no job whose arguments and queue it has already. The text of the log is left
-- out.
use tidefly_plane.Prelude.{
  ℕ, ◌-◌, String, Bool, true, false, not, ◌&&◌, ◌||◌, Option, none, some, List, ◌∷◌, ◌==◌, ltb, any,
  if◌then◌else◌, Dict, lookup, put, remove, get, strip_suffix,
}
use tidefly_plane.Runtime.Types.{
  EventType, start, stop, die, kill, restart, pause, unpause, destroy, create, oom, other,
  ContainerEvent,
}
use tidefly_plane.Runtime.Engine.{Severity, warn}

-- `stopTracker`: when a container was last seen to be stopped.
abbrev pub StopTracker : Type 0
StopTracker = Dict ℕ

-- Three seconds, in milliseconds.
abbrev pub stop_window : ℕ
stop_window = 3000

unfoldable pub record_stop : (now : ℕ) → String → StopTracker → StopTracker
unfolding put
record_stop now container_id seen = put container_id now seen

abbrev pub is_recent : (now : ℕ) → Option ℕ → Bool
is_recent now none = false
is_recent now (some ts) = ltb (now - ts) stop_window

-- An answer uses the entry up.
unfoldable pub was_recently_stopped : (now : ℕ) → String → StopTracker → Bool × StopTracker
unfolding lookup remove
was_recently_stopped now container_id seen =
    (is_recent now (lookup container_id seen), remove container_id seen)

pub record HealArgs : Type 0 where
  pub service_name : String
  pub container_id : String
  pub reason : EventType

-- `maybeNotify` and `notifyOOM`, each of which goes on in a goroutine.
pub data Notice : Type 0 where
  recovery_notice : Severity → (container_id name : String) → Notice
  oom_notice : (container_id name : String) → Notice

pub record Watcher : Type 0 where
  pub stops : StopTracker
  pub queue : List HealArgs
  pub notices : List Notice

unfoldable pub derive_service_name : String → String
unfolding strip_suffix
derive_service_name name = elim (strip_suffix "-green" name) [
  | some before ↦ before
  | none ↦ elim (strip_suffix "-blue" name) [ some before ↦ before | none ↦ name ]
]

abbrev pub event_number : EventType → ℕ
event_number start = 0
event_number stop = 1
event_number die = 2
event_number kill = 3
event_number restart = 4
event_number pause = 5
event_number unpause = 6
event_number destroy = 7
event_number create = 8
event_number oom = 9
event_number other = 10

abbrev pub same_args : HealArgs → HealArgs → Bool
same_args a b =
    a.service_name == b.service_name
    && (a.container_id == b.container_id
        && not (
            ltb (event_number a.reason) (event_number b.reason)
            || ltb (event_number b.reason) (event_number a.reason)))

unfoldable pub enqueue_heal : ContainerEvent → Watcher → Watcher
unfolding derive_service_name
enqueue_heal event w =
    let args : HealArgs = record {
      service_name = derive_service_name event.name;
      container_id = event.container_id;
      reason = event.type;
    } in
    if any (same_args args) w.queue then w else record w { queue = args ∷ w.queue }

abbrev pub notified : Notice → Watcher → Watcher
notified n w = record w { notices = n ∷ w.notices }

unfoldable pub notify_and_heal : Severity → ContainerEvent → Watcher → Watcher
unfolding enqueue_heal
notify_and_heal severity event w =
    enqueue_heal event (notified (recovery_notice severity event.container_id event.name) w)

unfoldable pub on_kill : (now : ℕ) → ContainerEvent → Watcher → Watcher
unfolding record_stop notify_and_heal get
on_kill now event w =
    let signal = get "signal" event.labels in
    if signal == "15" || signal == "SIGTERM"
    then record w { stops = record_stop now event.container_id w.stops }
    else notify_and_heal warn event w

-- A clean exit does not look at the tracker.
unfoldable pub on_die : (now : ℕ) → ContainerEvent → Watcher → Watcher
unfolding was_recently_stopped notify_and_heal get
on_die now event w =
    if get "exitCode" event.labels == "0"
    then w
    else let (recent, stops) = was_recently_stopped now event.container_id w.stops in
      let looked = record w { stops = stops } in
      if recent then looked else notify_and_heal warn event looked

unfoldable pub on_oom : ContainerEvent → Watcher → Watcher
unfolding enqueue_heal
on_oom event w = enqueue_heal event (notified (oom_notice event.container_id event.name) w)

-- The `switch` of `handleContainerEvent`.
unfoldable pub on_event : (now : ℕ) → EventType → ContainerEvent → Watcher → Watcher
unfolding on_kill on_die on_oom record_stop
on_event now stop event w = record w { stops = record_stop now event.container_id w.stops }
on_event now kill event w = on_kill now event w
on_event now die event w = on_die now event w
on_event now oom event w = on_oom event w
on_event now start event w = w
on_event now restart event w = w
on_event now pause event w = w
on_event now unpause event w = w
on_event now destroy event w = w
on_event now create event w = w
on_event now other event w = w

abbrev pub ends_slot : EventType → Bool
ends_slot stop = true
ends_slot die = true
ends_slot destroy = true
ends_slot start = false
ends_slot kill = false
ends_slot restart = false
ends_slot pause = false
ends_slot unpause = false
ends_slot create = false
ends_slot oom = false
ends_slot other = false

-- The two early returns.
unfoldable pub is_ignored : ContainerEvent → Bool
unfolding get
is_ignored event =
    event.name == "" || (not (get "tidefly.slot" event.labels == "") && ends_slot event.type)

unfoldable pub handle_container_event : (now : ℕ) → ContainerEvent → Watcher → Watcher
unfolding is_ignored on_event
handle_container_event now event w = if is_ignored event then w else on_event now event.type event w
