-- ===== src/Reconciler/Actions.antt =====
-- internal/reconciler/reconciler.go: the actions, and the loop over the services.
use Prim.Native.String.{◌++◌}
use tidefly_plane.Prelude.{
  ℕ, ◌+◌, ℤ, pos, String, Bool, true, false, not, ◌&&◌, ◌||◌, Option, none, some, List, [], ◌∷◌,
  Result, ok, err, ◌==◌, length, any, text_lt, if◌then◌else◌,
}
use tidefly_plane.Manifest.Schema.{ServiceManifest}
use tidefly_plane.Manifest.Resolved.{ResolvedManifest}
use tidefly_plane.Manifest.Validate.{ManifestError}
use tidefly_plane.Manifest.Resolve.{resolve}
use tidefly_plane.Manifest.Adapter.{itoa}
use tidefly_plane.Models.Service.{
  Service, deploying, running, failed, no_source, is_deploying, is_stopped,
}
use tidefly_plane.Runtime.Types.{Container, is_podman, needs_restart}
use tidefly_plane.Runtime.Engine.{
  Engine, State, info, error, list_containers, create_container, stop_and_delete, pause, save,
  notify,
}
use tidefly_plane.Reconciler.Diff.{
  Action, service_label, diff, index_by_service, noop, heal, scale_up, scale_down, update, redeploy,
}
use tidefly_plane.Reconciler.BlueGreen.{Failure, blue_green, service_spec}
use tidefly_plane.Reconciler.Rolling.{rolling}

-- Two seconds, in milliseconds.
abbrev pub heal_delay : ℕ
heal_delay = 2000

-- The last container by name, the first of several of one name.
unfoldable pub last_by_name : Option Container → List Container → Option Container
last_by_name best [] = best
last_by_name none (ct ∷ cs) = last_by_name (some ct) cs
last_by_name (some best) (ct ∷ cs) =
    last_by_name (some (if text_lt best.name ct.name then ct else best)) cs

abbrev pub listed_or_none : Option (List Container) → List Container
listed_or_none none = []
listed_or_none (some cs) = cs

-- The query of `reconcileAll`.
abbrev pub is_queried : Service → Bool
is_queried svc = svc.manifest_service && not (is_stopped svc.status || is_deploying svc.status)

module _ {W : Type 0} (e : Engine W) (parse_duration : String → ℤ)
    (message : Failure → String) where
  unfoldable pub remove_matching : (Container → Bool) → List Container → State W → State W
  remove_matching test [] s = s
  remove_matching test (ct ∷ cs) s =
      remove_matching test cs (if test ct then stop_and_delete e ct.id s else s)

  unfoldable pub remove_containers : String → State W → State W
  unfolding remove_matching
  remove_containers name s =
      let (found, seen) = list_containers e s in
      remove_matching (λ (ct : Container). service_label ct == name || ct.name == name)
        (listed_or_none found) seen

  -- A container of the service that is not down.
  unfoldable pub has_recovered : String → List Container → Bool
  has_recovered name =
      any (λ (ct : Container). service_label ct == name && not (needs_restart ct.status))

  -- The end that `heal` and `redeploy` share: one container, and what its creation says.
  unfoldable pub after_recreate : Bool → Option String → State W → State W
  after_recreate tell none s =
      let saved = save e (record s.svc { status = running; last_error = "" }) s in
      if tell then notify info saved else saved
  after_recreate tell (some text) s =
      let saved = save e (record s.svc { status = failed; last_error = text }) s in
      if tell then notify error saved else saved

  unfoldable pub recreate : Bool → ResolvedManifest → State W → State W
  unfolding after_recreate
  recreate tell resolved s =
      let spec = service_spec parse_duration (is_podman e.type) s.svc resolved resolved.name in
      let (refused, tried) = create_container e spec s in after_recreate tell refused tried

  -- What `heal` does with the containers that it sees after its delay.
  unfoldable pub heal_seen : ResolvedManifest → List Container → State W → State W
  unfolding has_recovered recreate
  heal_seen resolved cs s =
      if has_recovered s.svc.name cs
      then save e (record s.svc { status = running }) s
      else recreate true resolved (remove_containers s.svc.name s)

  unfoldable pub heal_service : ResolvedManifest → State W → State W
  unfolding heal_seen
  heal_service resolved s =
      let (found, seen) = list_containers e (pause e heal_delay s) in
      heal_seen resolved (listed_or_none found) seen

  -- `current` is the number of the service's containers, running or not.
  unfoldable pub scale_up_service : ResolvedManifest → ℕ → State W → State W
  scale_up_service resolved current s =
      let name = s.svc.name ++ "-" ++ itoa (pos (current + 1)) in
      (create_container e (service_spec parse_duration (is_podman e.type) s.svc resolved name) s).1

  unfoldable pub remove_one : Option Container → State W → State W
  remove_one none s = s
  remove_one (some ct) s = stop_and_delete e ct.id s

  unfoldable pub scale_down_service : List Container → State W → State W
  unfolding remove_one
  scale_down_service actual s = remove_one (last_by_name none actual) s

  unfoldable pub after_update : Option Failure → State W → State W
  after_update none s = notify info (
      save e
        (record s.svc {
          status = running;
          deployed_digest = s.svc.remote_digest;
          update_available = false;
          update_source = no_source;
          last_error = "";
        })
        s)
  after_update (some failure) s =
      save e (record s.svc { status = failed; last_error = message failure }) s

  unfoldable pub update_service : ResolvedManifest → State W → State W
  unfolding after_update
  update_service resolved s =
      let started = save e (record s.svc { status = deploying }) s in
      let (failure, updated) =
        (if resolved.scaling.strategy == "blue-green"
          then blue_green e parse_duration resolved started
          else rolling e parse_duration resolved started) in
      after_update failure updated

  unfoldable pub redeploy_service : ResolvedManifest → State W → State W
  unfolding recreate
  redeploy_service resolved s =
      let started = save e (record s.svc { status = deploying }) s in
      recreate false resolved (remove_containers started.svc.name started)

  unfoldable pub act : Action → ResolvedManifest → List Container → State W → State W
  act noop resolved actual s = s
  act heal resolved actual s = heal_service resolved s
  act scale_up resolved actual s = scale_up_service resolved (length actual) s
  act scale_down resolved actual s = scale_down_service actual s
  act update resolved actual s = update_service resolved s
  act redeploy resolved actual s = redeploy_service resolved s

  unfoldable pub reconcile_resolved :
      Result ManifestError ResolvedManifest → (String → List Container) → State W → State W
  reconcile_resolved (err why) by_service s = s
  reconcile_resolved (ok resolved) by_service s =
      let actual = by_service s.svc.name in
      act (diff (e.now s.world) s.svc resolved actual).action resolved actual s

  -- Go's `json.Unmarshal` and the walk of its map of ports are arguments.
  module _ (unmarshal : String → Option ServiceManifest) (order : List (String × ℕ)) where
    unfoldable pub reconcile_parsed :
        Option ServiceManifest → (String → List Container) → State W → State W
    reconcile_parsed none by_service s = s
    reconcile_parsed (some m) by_service s = reconcile_resolved (resolve order m) by_service s

    unfoldable pub reconcile_one : (String → List Container) → State W → State W
    unfolding reconcile_parsed reconcile_resolved
    reconcile_one by_service s =
        if s.svc.manifest_json == ""
        then s
        else reconcile_parsed (unmarshal s.svc.manifest_json) by_service s

    -- The loop over the services: they share the world and the trace. A service that the query
    -- leaves out, or that a remote worker runs, is passed over.
    unfoldable pub reconcile_each :
        (String → List Container) → List Service → State W → List Service × State W
    unfolding reconcile_one
    reconcile_each by_service [] s = ([], s)
    reconcile_each by_service (svc ∷ rest) s =
        let start = record s { svc = svc } in
        let after =
          (if is_queried svc && svc.worker_id == ""
            then reconcile_one by_service start
            else start) in
        let (done, last) = reconcile_each by_service rest after in (after.svc ∷ done, last)

    unfoldable pub reconcile_listed :
        List Service → Option (List Container) → State W → List Service × State W
    unfolding reconcile_each
    reconcile_listed services none s = (services, s)
    reconcile_listed services (some cs) s = reconcile_each (index_by_service cs) services s

    unfoldable pub reconcile_all : List Service → State W → List Service × State W
    unfolding reconcile_listed
    reconcile_all services s = elim (any is_queried services) [
      | false ↦ (services, s)
      | true ↦ let (found, seen) = list_containers e s in reconcile_listed services found seen
    ]
