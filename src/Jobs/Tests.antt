-- ===== src/Jobs/Tests.antt =====
-- A small world for internal/jobs, and theorems in it: the containers are always the same, and every
-- call succeeds.
use tidefly_plane.Prelude.{
  ℕ, ◌+◌, ◌≡◌, refl, ℤ, pos, String, true, false, none, some, List, [], ◌∷◌, inl, arith, lookup,
  put, Bool, any, get, strip_prefix, ◌==◌,
}
use tidefly_plane.Manifest.Resolved.{ResolvedManifest, ResolvedAutoscaling, known_ports}
use tidefly_plane.Manifest.Resolve.{fill, resolve}
use tidefly_plane.Manifest.Tests.{database}
use tidefly_plane.Models.Service.{Service, ServiceStatus, no_source}
use tidefly_plane.Runtime.Types.{
  Container, ContainerStatus, ContainerEvent, stop, die, docker, needs_restart,
}
use tidefly_plane.Runtime.Engine.{
  State, Call, deleted, pause, list_containers, create_container, stop_and_delete,
}
use tidefly_plane.Manifest.Validate.{validate, validate_container, validate_scaling, validate_env}
use tidefly_plane.Reconciler.BlueGreen.{blue_green}
use tidefly_plane.Jobs.Events.{Watcher, handle_container_event, derive_service_name, is_ignored}
use tidefly_plane.Jobs.Stops.{watch, Quiet, deliberate_stop_lem}
use tidefly_plane.Jobs.Recovery.{JobEngine, heal_work, skips_heal}
use tidefly_plane.Jobs.Healing.{heal_work-OnlyOf}
use tidefly_plane.Jobs.Removal.{OnlyOf}
use tidefly_plane.Jobs.Slots.{deploy_blue_green}
use tidefly_plane.Jobs.BlueGreen.{deploy_blue_green-blue_green}
use tidefly_plane.Jobs.Autoscale.{ScaleEntry, Load, decide_local, decide_worker, scaled}
use tidefly_plane.Jobs.Scaling.{Bounded, Round, rounds, Spaced, scaled_bounds, rounds-Spaced}

abbrev event : ContainerEvent
event = record {
  type = stop;
  container_id = "c1";
  name = "web";
  image = "nginx";
  status = ContainerStatus.exited;
  labels = [];
}

abbrev death : ContainerEvent
death = record event { type = die; labels = ("exitCode", "137") ∷ [] }

abbrev watcher : Watcher
watcher = record { stops = []; queue = []; notices = [] }

stop_seen : is_ignored event ≡ false
unfolding is_ignored
stop_seen = refl

slot_test : derive_service_name "team-green" ≡ "team"
unfolding derive_service_name
slot_test = refl

deliberate_stop_lem_example :
    Quiet
      (watch [] (handle_container_event 1000 event watcher))
      (handle_container_event 2000 death (watch [] (handle_container_event 1000 event watcher)))
deliberate_stop_lem_example =
    deliberate_stop_lem 1000 2000 event death [] watcher stop_seen (inl refl) tt refl refl
      (omega arith)

abbrev container : String → String → ContainerStatus → Container
container name service status = record {
  id = name;
  name = name;
  image = "postgres:16";
  status = status;
  labels = ("tidefly.service", service) ∷ [];
  networks = [];
}

abbrev pub world : List Container → JobEngine ℕ
world cs = record {
  engine = record {
    type = docker;
    list = λ w. some cs;
    create = λ spec w. (none, w);
    stop = λ id w. w;
    delete = λ id w. (none, w);
    route = λ r w. (none, w);
    now = λ w. w;
    wait = λ ms w. w + ms;
    canceled = λ w. false;
  };
  create_network = λ name w. (none, w);
  send_heal = λ id w. none;
}

abbrev pub service : Service
service = record {
  id = "7";
  name = "db";
  template_slug = "";
  status = ServiceStatus.running;
  project_id = "";
  worker_id = "";
  manifest_service = true;
  manifest_json = "{}";
  public_url = "";
  last_error = "";
  active_slot_name = "";
  deployed_digest = "";
  remote_digest = "";
  update_available = false;
  update_source = no_source;
  update_checked_at = none;
  updated_at = 0;
}

abbrev pub begin : State ℕ
begin = record { world = 0; svc = service; trace = [] }

abbrev pub no_duration : String → ℤ
no_duration text = pos 0

-- The service's container is down, and its neighbour is up.
abbrev broken : JobEngine ℕ
broken = world (
    container "db" "db" ContainerStatus.exited
    ∷ (container "web" "web" ContainerStatus.running ∷ []))

abbrev is_deletion : Call → Bool
is_deletion (deleted id) = id == "db"
is_deletion call = false

deletes_test :
    any is_deletion
      (heal_work broken no_duration (λ text. some database) known_ports "db" begin).1.trace
    ≡ true
unfolding heal_work pause list_containers get needs_restart resolve validate validate_container
    validate_scaling validate_env create_container strip_prefix stop_and_delete
deletes_test = refl

heal_work-OnlyOf_example :
    OnlyOf "db"
      (heal_work broken no_duration (λ text. some database) known_ports "db" begin).1.trace
heal_work-OnlyOf_example =
    heal_work-OnlyOf broken no_duration (λ text. some database) known_ports begin tt

due : skips_heal service ≡ false
unfolding skips_heal
due = refl

abbrev resolved : ResolvedManifest
resolved = fill known_ports database

resolved_label : lookup "tidefly.service" resolved.labels ≡ some "db"
unfolding lookup fill put
resolved_label = refl

deploy_blue_green-blue_green_example :
    deploy_blue_green (world []).engine no_duration resolved begin
    ≡ blue_green (world []).engine no_duration resolved begin
deploy_blue_green-blue_green_example =
    deploy_blue_green-blue_green (world []).engine no_duration resolved begin resolved_label

abbrev limits : ResolvedAutoscaling
limits = record { enabled = true; metric = "cpu"; target = pos 70; min = pos 1; max = pos 3 }

abbrev busy : Load
busy = record { cpu_high = true; mem_high = false; cpu_low = false; mem_low = true }

abbrev fresh_entry : ScaleEntry
fresh_entry = record { last_scale_up = none; last_scale_down = none; below_threshold_since = none }

scaled_bounds_example :
    Bounded limits (scaled true (decide_local 0 limits 2 busy fresh_entry) 2)
    × Bounded limits (scaled true (decide_worker 0 limits 2 busy fresh_entry) 2)
scaled_bounds_example = scaled_bounds true limits 2 0 busy fresh_entry (omega arith) (omega arith)

abbrev round : ℕ → Round
round now = record { now = now; current = 1; load = busy; done = true }

abbrev three : List Round
three = round 1000 ∷ round 20000 ∷ round 40000 ∷ []

rounds_test : (rounds limits three (fresh_entry, [])).1 ≡ 40000 ∷ 1000 ∷ []
unfolding rounds decide_local
rounds_test = refl

rounds-Spaced_example : Spaced (rounds limits three (fresh_entry, [])).1
rounds-Spaced_example = rounds-Spaced limits three fresh_entry refl
