-- ===== src/Reconciler/BlueGreen.antt =====
-- internal/reconciler/bluegreen.go. A stage of the deployment is a definition, and each ends in the
-- next.
use Prim.Native.String.{◌++◌}
use tidefly_plane.Prelude.{
  ℤ, String, Bool, ◌&&◌, ◌||◌, Option, none, some, List, [], ◌∷◌, put, get, ◌==◌, if◌then◌else◌,
}
use tidefly_plane.Manifest.Resolved.{ResolvedManifest}
use tidefly_plane.Manifest.Adapter.{to_container_spec, itoa}
use tidefly_plane.Models.Service.{Service}
use tidefly_plane.Runtime.Types.{Container, Spec, is_podman}
use tidefly_plane.Runtime.Engine.{
  Engine, State, Route, list_containers, create_container, stop_and_delete, update_route, save,
}
use tidefly_plane.Reconciler.Diff.{service_label}
use tidefly_plane.Reconciler.Health.{Verdict, healthy, wait_healthy}

abbrev pub proxy_network : String
proxy_network = "tidefly_proxy"

pub data Failure : Type 0 where
  creation_failed : String → Failure
  unhealthy : Verdict → Failure
  switch_failed : String → Failure
  list_failed : Failure

-- The specification that every action of the reconciler starts from: the manifest's, under a name,
-- with the two labels of the service.
unfoldable pub service_spec : (String → ℤ) → Bool → Service → ResolvedManifest → String → Spec
service_spec parse_duration podman svc resolved name =
    let spec =
      to_container_spec parse_duration (record resolved { name = name }) proxy_network podman in
    record spec {
      labels = put "tidefly.service" svc.name (put "tidefly.service-id" svc.id spec.labels);
    }

unfoldable pub next_slot : String → String
next_slot current = if current == "green" then "blue" else "green"

abbrev pub slot_name : Service → String → String
slot_name svc slot = svc.name ++ "-" ++ slot

abbrev pub old_name : Service → String
old_name svc = if svc.active_slot_name == "" then svc.name else slot_name svc svc.active_slot_name

-- The test in the loop that removes the old slot.
unfoldable pub is_old : Service → Container → Bool
is_old svc ct =
    ct.name == old_name svc
    || (service_label ct == svc.name && get "tidefly.slot" ct.labels == svc.active_slot_name)

abbrev pub slot_route : Service → ResolvedManifest → String → Route
slot_route svc resolved new = record {
  service_name = svc.name;
  domain = resolved.expose.domain;
  upstream = new ++ ":" ++ itoa resolved.expose.port;
  tls = resolved.expose.tls;
  www = resolved.expose.www;
}

-- The new slot's container.
unfoldable pub slot_spec : (String → ℤ) → Bool → Service → ResolvedManifest → Spec
unfolding service_spec
slot_spec parse_duration podman svc resolved =
    let slot = next_slot svc.active_slot_name in
    let base = service_spec parse_duration podman svc resolved (slot_name svc slot) in
    record base { labels = put "tidefly.slot" slot base.labels }

module _ {W : Type 0} (e : Engine W) where
  -- The removal loop, over the containers of one listing.
  unfoldable pub remove_old : Service → List Container → State W → State W
  remove_old svc [] s = s
  remove_old svc (ct ∷ cs) s =
      remove_old svc cs (if is_old svc ct then stop_and_delete e ct.id s else s)

  unfoldable pub remove_listed : Service → Option (List Container) → State W → State W
  unfolding remove_old
  remove_listed svc none s = s
  remove_listed svc (some cs) s = remove_old svc cs s

  -- From "Remove old slot after traffic switched" on.
  unfoldable pub finish_switch : Service → String → State W → Option Failure × State W
  unfolding remove_listed
  finish_switch svc slot s =
      let (found, seen) = list_containers e s in
      let cleaned = remove_listed svc found seen in
      (none, save e (record cleaned.svc { active_slot_name = slot }) cleaned)

  unfoldable pub after_switch :
      Service → String → String → Option String → State W → Option Failure × State W
  after_switch svc slot new none s = finish_switch svc slot s
  after_switch svc slot new (some text) s = (some (switch_failed text), stop_and_delete e new s)

  unfoldable pub switch_traffic :
      Service → ResolvedManifest → String → String → State W → Option Failure × State W
  unfolding after_switch
  switch_traffic svc resolved slot new s =
      if resolved.expose.domain == ""
      then finish_switch svc slot s
      else let (failed, routed) = update_route e (slot_route svc resolved new) s in
        after_switch svc slot new failed routed

  -- The new slot is up, or is rolled back.
  unfoldable pub after_health :
      Service → ResolvedManifest → String → String → Verdict → State W → Option Failure × State W
  unfolding switch_traffic
  after_health svc resolved slot new healthy s = switch_traffic svc resolved slot new s
  after_health svc resolved slot new verdict s = (some (unhealthy verdict), stop_and_delete e new s)

  unfoldable pub after_create :
      Service
      → ResolvedManifest
      → String
      → String
      → Option String
      → State W
      → Option Failure × State W
  unfolding after_health
  after_create svc resolved slot new none s =
      let (verdict, waited) = wait_healthy e new s in
      after_health svc resolved slot new verdict waited
  after_create svc resolved slot new (some text) s = (some (creation_failed text), s)

  unfoldable pub blue_green : (String → ℤ) → ResolvedManifest → State W → Option Failure × State W
  unfolding after_create slot_spec
  blue_green parse_duration resolved s =
      let svc = s.svc in
      let slot = next_slot svc.active_slot_name in
      let spec = slot_spec parse_duration (is_podman e.type) svc resolved in
      let (failed, tried) = create_container e spec s in
      after_create svc resolved slot (slot_name svc slot) failed tried
