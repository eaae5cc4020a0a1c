-- ===== src/Jobs/Autoscale.antt =====
-- The autoscaling of internal/jobs/service_workers.go. The averages of the measurements are float64s, which
-- the code only compares with the target: the two comparisons are arguments, as results. A time that is
-- zero in Go is `none`.
use tidefly_plane.Prelude.{
  ℕ, ◌+◌, ◌-◌, pos, ltb_ℤ, String, Bool, true, false, not, ◌&&◌, ◌||◌, Option, none, some, List,
  ◌==◌, ltb, is_some, if◌then◌else◌, select, Dict, lookup, put,
}
use tidefly_plane.Manifest.Resolved.{ResolvedAutoscaling}
use tidefly_plane.Runtime.Types.{Container}
use tidefly_plane.Reconciler.Diff.{service_label}
use tidefly_plane.Reconciler.Actions.{last_by_name}

-- Thirty seconds and three minutes, in milliseconds.
abbrev pub scale_up_cooldown : ℕ
scale_up_cooldown = 30000

abbrev pub scale_down_cooldown : ℕ
scale_down_cooldown = 180000

pub record ScaleEntry : Type 0 where
  pub last_scale_up : Option ℕ
  pub last_scale_down : Option ℕ
  pub below_threshold_since : Option ℕ

-- `scaleTracker`
abbrev pub ScaleTracker : Type 0
ScaleTracker = Dict ScaleEntry

abbrev pub entry_or : Option ScaleEntry → ScaleEntry
entry_or (some e) = e
entry_or none = record {
  last_scale_up = none;
  last_scale_down = none;
  below_threshold_since = none;
}

unfoldable pub get_entry : String → ScaleTracker → ScaleEntry
unfolding lookup
get_entry name t = entry_or (lookup name t)

unfoldable pub set_entry : String → ScaleEntry → ScaleTracker → ScaleTracker
unfolding put
set_entry name e t = put name e t

-- What the code asks of the averages: whether one is at the target or above, and whether one is below half
-- of it.
pub record Load : Type 0 where
  pub cpu_high : Bool
  pub mem_high : Bool
  pub cpu_low : Bool
  pub mem_low : Bool

-- `now.Sub(t) < cooldown`
abbrev pub within : (now : ℕ) → Option ℕ → (cooldown : ℕ) → Bool
within now none cooldown = false
within now (some t) cooldown = ltb (now - t) cooldown

pub data Decision : Type 0 where
  -- No change of the containers or the entry.
  nothing : Decision
  -- The entry is set and the containers stay.
  note : ScaleEntry → Decision
  -- One container more or less, and the entry that is set if that succeeds.
  scale_up scale_down : ScaleEntry → Decision

abbrev pub wants_up : ResolvedAutoscaling → (current : ℕ) → Load → Bool
wants_up limits current load = (load.cpu_high || load.mem_high) && ltb_ℤ (pos current) limits.max

abbrev pub wants_down : ResolvedAutoscaling → (current : ℕ) → Load → Bool
wants_down limits current load = load.cpu_low && load.mem_low && ltb_ℤ limits.min (pos current)

unfoldable pub decide_up : (now : ℕ) → ScaleEntry → Decision
decide_up now entry =
    if within now entry.last_scale_up scale_up_cooldown
    then nothing
    else scale_up (record entry { last_scale_up = some now; below_threshold_since = none })

unfoldable pub decide_down_since : (now : ℕ) → Option ℕ → ScaleEntry → Decision
decide_down_since now none entry = note (record entry { below_threshold_since = some now })
decide_down_since now (some since) entry =
    if within now (some since) scale_down_cooldown
    then nothing
    else scale_down (record entry { last_scale_down = some now; below_threshold_since = none })

unfoldable pub decide_down : (now : ℕ) → ScaleEntry → Decision
unfolding decide_down_since
decide_down now entry = decide_down_since now entry.below_threshold_since entry

-- The `default` case of `processAutoscale`.
unfoldable pub decide_reset : Load → ScaleEntry → Decision
decide_reset load entry =
    if is_some entry.below_threshold_since && not load.cpu_low
    then note (record entry { below_threshold_since = none })
    else nothing

-- The `switch` of `processAutoscale`; `not cpu_low` is the test `avgCPU >= target*0.5`.
unfoldable pub decide_local :
    (now : ℕ) → ResolvedAutoscaling → (current : ℕ) → Load → ScaleEntry → Decision
unfolding decide_up decide_down decide_reset
decide_local now limits current load entry =
    if wants_up limits current load
    then decide_up now entry
    else if wants_down limits current load
    then decide_down now entry
    else decide_reset load entry

-- The `switch` of `processWorkerAutoscale`.
unfoldable pub decide_worker :
    (now : ℕ) → ResolvedAutoscaling → (current : ℕ) → Load → ScaleEntry → Decision
unfolding decide_up decide_down
decide_worker now limits current load entry =
    if wants_up limits current load
    then decide_up now entry
    else if wants_down limits current load
    then decide_down now entry
    else nothing

-- What is set once the decision was carried out, which `done` says it was.
unfoldable pub settle : (done : Bool) → String → Decision → ScaleTracker → ScaleTracker
unfolding set_entry
settle done name nothing t = t
settle done name (note e) t = set_entry name e t
settle true name (scale_up e) t = set_entry name e t
settle false name (scale_up e) t = t
settle true name (scale_down e) t = set_entry name e t
settle false name (scale_down e) t = t

-- The count that follows from a decision, for the statements on it: one more or one less where it was
-- carried out.
unfoldable pub scaled : (done : Bool) → Decision → ℕ → ℕ
scaled true (scale_up e) current = current + 1
scaled true (scale_down e) current = current - 1
scaled true nothing current = current
scaled true (note e) current = current
scaled false d current = current

-- The containers of the service in a listing.
unfoldable pub service_containers : String → List Container → List Container
service_containers name = select (λ (ct : Container). service_label ct == name)

-- The one that `scaleDown` removes: the last by name of those that do not have the service's bare name.
unfoldable pub to_remove : String → List Container → Option Container
unfolding last_by_name
to_remove name cs = last_by_name none (select (λ (ct : Container). not (ct.name == name)) cs)
