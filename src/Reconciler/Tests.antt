-- ===== src/Reconciler/Tests.antt =====
-- A small world for internal/reconciler, and theorems in it: the world is a clock, the containers
-- are always the same, and every call succeeds but the route of "bad.example".
use tidefly_plane.Prelude.{
  ◌⊎◌, equal_or_not, ℕ, ◌+◌, ◌≡◌, refl, ◌≢◌, ◌↔◌, ℤ, pos, String, true, false, Option, none, some,
  [], ◌∷◌, get, if◌then◌else◌, ◌==◌, arith,
}
use tidefly_plane.Manifest.Resolved.{ResolvedManifest, known_ports}
use tidefly_plane.Manifest.Resolve.{fill}
use tidefly_plane.Manifest.Tests.{database}
use tidefly_plane.Models.Service.{Service, running, no_source, has_image_drift}
use tidefly_plane.Runtime.Types.{Container, ContainerStatus, docker}
use tidefly_plane.Runtime.Engine.{Engine, State}
use tidefly_plane.Reconciler.Diff.{index_by_service, diff, noop, update, count_running}
use tidefly_plane.Reconciler.Health.{wait_healthy, out_of_fuel}
use tidefly_plane.Reconciler.BlueGreen.{service_spec, Failure, blue_green, next_slot, slot_name}
use tidefly_plane.Reconciler.Rolling.{rolling}
use tidefly_plane.Reconciler.Traces.{Cleared}
use tidefly_plane.Reconciler.Termination.{wait_healthy_ends}
use tidefly_plane.Reconciler.Switch.{SwitchedTo, blue_green_safe}
use tidefly_plane.Reconciler.Rollback.{AllOrNothing, blue_green_atomic}
use tidefly_plane.Reconciler.Replace.{NoOther, IsReplacement, Replaced, replicas_in, rolling_safe}
use tidefly_plane.Reconciler.Labels.{IsOurs, IsOurs-labels}
use tidefly_plane.Manifest.Digits.{read_ℤ}
use tidefly_plane.Reconciler.Decision.{Converged, diff_noop_iff}
use tidefly_plane.Reconciler.Digest.{poll_one, ImageFields}
use tidefly_plane.Reconciler.Digests.{unchanged, polled, never_updates}

abbrev container : String → ContainerStatus → String → Container
container name status slot = record {
  id = name;
  name = name;
  image = "postgres:16";
  status = status;
  labels = ("tidefly.service", "db") ∷ ("tidefly.slot", slot) ∷ [];
  networks = [];
}

abbrev blue : Container
blue = container "db-blue" ContainerStatus.running "blue"

abbrev green : Container
green = container "db-green" ContainerStatus.running "green"

abbrev plane : Engine ℕ
plane = record {
  type = docker;
  list = λ w. some (green ∷ blue ∷ []);
  create = λ spec w. (none, w);
  stop = λ id w. w;
  delete = λ id w. (none, w);
  route = λ r w. (if r.domain == "bad.example" then some "refused" else none, w);
  now = λ w. w;
  wait = λ ms w. w + ms;
  canceled = λ w. false;
}

abbrev service : Service
service = record {
  id = "7";
  name = "db";
  template_slug = "";
  status = running;
  project_id = "";
  worker_id = "";
  manifest_service = true;
  manifest_json = "db";
  public_url = "";
  last_error = "";
  active_slot_name = "blue";
  deployed_digest = "";
  remote_digest = "";
  update_available = false;
  update_source = no_source;
  update_checked_at = none;
  updated_at = 0;
}

abbrev resolved : ResolvedManifest
resolved = fill known_ports database

abbrev start : State ℕ
start = record { world = 0; svc = service; trace = [] }

abbrev seconds : String → ℤ
seconds text = pos 0

abbrev image_of_json : String → Option ImageFields
image_of_json text = some (record { image = "postgres:16"; build = "" })

abbrev announced : Service
announced = (poll_one 5 (λ svc. 6) image_of_json (λ image. some "sha256:1") service).0

-- The poll sees an update, and the reconciler ignores it.
announced_test : announced.update_available ≡ true
unfolding poll_one
announced_test = refl

poll_one-diff_test : (diff 10 announced resolved (blue ∷ [])).action ≡ noop
unfolding diff poll_one count_running fill has_image_drift
poll_one-diff_test = refl

blue_green_safe_example :
    Cleared
      (λ id. id ≡ slot_name service (next_slot "blue"))
      (λ id. SwitchedTo service resolved (slot_name service (next_slot "blue")))
      (blue_green plane seconds resolved start).1.trace
blue_green_safe_example = blue_green_safe plane seconds resolved start

blue_green_atomic_example :
    AllOrNothing service
      (next_slot "blue")
      (slot_name service (next_slot "blue"))
      (blue_green plane seconds resolved start).0
      (blue_green plane seconds resolved start).1
blue_green_atomic_example = blue_green_atomic plane seconds resolved start

rolling_safe_example :
    Cleared NoOther
      (λ id t.
        IsReplacement service id t
        ⊎ Replaced service 0 (replicas_in service (some (green ∷ blue ∷ []))) id t)
      (rolling plane seconds resolved start).1.trace
rolling_safe_example = rolling_safe plane seconds resolved start

wait_healthy_ends_example : (wait_healthy plane "db-green" start).0 ≢ out_of_fuel
wait_healthy_ends_example = wait_healthy_ends plane (λ w. omega arith) "db-green" start

diff_noop_iff_example :
    ((diff 10 service resolved (blue ∷ [])).action ≡ noop)
    ↔ Converged 10 service resolved (blue ∷ [])
diff_noop_iff_example = diff_noop_iff 10 service resolved (blue ∷ [])

never_updates_example :
    (announced.deployed_digest ≡ "") × ((diff 10 announced resolved (blue ∷ [])).action ≢ update)
never_updates_example =
    never_updates plane seconds (λ (f : Failure). "failed") (λ text. some database) known_ports
      image_of_json {start = service} refl
      (polled unchanged 5 (λ svc. 6) (λ image. some "sha256:1")) 10 resolved (blue ∷ [])

-- A second replica, as the reconciler creates it.
abbrev replica : Container
replica = record blue {
  id = "c2";
  name = "db-2";
  labels = (service_spec seconds false service resolved "db-2").labels;
}

IsOurs-labels_example :
    (index_by_service (replica ∷ blue ∷ []) service.name
      ≡ replica ∷ index_by_service (blue ∷ []) service.name)
    × (get "tidefly.service-id" replica.labels ≡ service.id)
    × (read_ℤ (get "tidefly.port" replica.labels) ≡ resolved.expose.port)
IsOurs-labels_example =
    IsOurs-labels plane seconds service resolved
      (service_spec seconds false service resolved "db-2") replica (blue ∷ [])
      (equal_or_not "db" "" refl) (IsOurs.named "db-2") refl
