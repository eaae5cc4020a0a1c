-- ===== src/Jobs/Changes.antt =====
-- internal/jobs/service_workers.go: the jobs `UpdateWorker` and `DeleteWorker`. The row with the job's id is the
-- service of the state; a job whose row is gone ends at once. The events on the bus are left out.
use tidefly_plane.Prelude.{
  ℤ, ℕ, pos, eq_ℤ, is_positive, String, Bool, true, false, not, ◌&&◌, ◌||◌, Option, none, some,
  List, Result, ok, err, ◌==◌, is_some, if◌then◌else◌,
}
use tidefly_plane.Manifest.Schema.{ServiceManifest, ExposeSpec, ScalingSpec}
use tidefly_plane.Manifest.Resolved.{ResolvedManifest}
use tidefly_plane.Manifest.Validate.{ManifestError}
use tidefly_plane.Manifest.Resolve.{resolve}
use tidefly_plane.Models.Service.{running}
use tidefly_plane.Runtime.Engine.{State, create_container, save, list_containers}
use tidefly_plane.Jobs.Recovery.{remove_containers, Fate, dropped}
use tidefly_plane.Jobs.Stages.{
  DeployEngine, DeployError, manifest_missing, manifest_unreadable, not_resolved, update_refused,
  primary_network, or_no_network, service_spec, connect_proxy, route_from_manifest,
}

pub record UpdateArgs : Type 0 where
  pub image : String
  pub domain : String
  pub replicas : ℤ

abbrev pub expose_or_empty : Option ExposeSpec → ExposeSpec
expose_or_empty none = record { port = pos 0; domain = ""; tls = false; www = false }
expose_or_empty (some e) = e

abbrev pub scaling_or_empty : Option ScalingSpec → ScalingSpec
scaling_or_empty none = record {
  replicas = pos 0;
  restart = "";
  restart_delay = "";
  max_restarts = pos 0;
  strategy = "";
  autoscaling = none;
}
scaling_or_empty (some s) = s

-- Each change says whether it changed something.
unfoldable pub change_image : (image : String) → ServiceManifest → Bool × ServiceManifest
change_image image m =
    if not (image == "") && not (image == m.spec.container.image)
    then (
      true,
      record m {
        spec = record m.spec {
          container = record m.spec.container { image = image; build = none };
        };
      },
    )
    else (false, m)

unfoldable pub change_domain : (domain : String) → ServiceManifest → Bool × ServiceManifest
change_domain domain m =
    let e = expose_or_empty m.spec.expose in
    if domain == "" then (false, m) else (
      not (e.domain == domain),
      record m { spec = record m.spec { expose = some (record e { domain = domain }) } },
    )

unfoldable pub change_replicas : (replicas : ℤ) → ServiceManifest → Bool × ServiceManifest
change_replicas replicas m =
    let s = scaling_or_empty m.spec.scaling in
    if is_positive replicas
    then (
      not (eq_ℤ s.replicas replicas),
      record m { spec = record m.spec { scaling = some (record s { replicas = replicas }) } },
    )
    else (false, m)

unfoldable pub with_changes : UpdateArgs → ServiceManifest → Bool × ServiceManifest
unfolding change_image change_domain change_replicas
with_changes p m =
    let imaged = change_image p.image m in
    let routed = change_domain p.domain imaged.1 in
    let scaled = change_replicas p.replicas routed.1 in
    (imaged.0 || (routed.0 || scaled.0), scaled.1)

module _ {W : Type 0} (d : DeployEngine W) (parse_duration : String → ℤ)
    (order : List (String × ℕ)) where
  unfoldable pub reroute_to : Result ManifestError ResolvedManifest → State W → State W
  unfolding route_from_manifest
  reroute_to (err why) s = s
  reroute_to (ok m) s =
      if m.expose.domain == ""
      then s
      else record s { world = d.update_route (route_from_manifest s.svc.name m) s.world }

  unfoldable pub reroute : UpdateArgs → ServiceManifest → State W → State W
  unfolding reroute_to
  reroute p raw s = if p.domain == "" then s else reroute_to (resolve order raw) s

  unfoldable pub update_done : ServiceManifest → State W → Option DeployError × State W
  update_done raw s =
      (none, save d.job.engine (record s.svc { status = running; manifest_json = d.marshal raw }) s)

  unfoldable pub update_created :
      ServiceManifest → (network : String) → Option String × State W → Option DeployError × State W
  unfolding connect_proxy update_done
  update_created raw network (some text, s) = (some update_refused, s)
  update_created raw network (none, s) =
      update_done raw (connect_proxy d (is_some raw.spec.expose) network s)

  -- The containers of the old image are gone already.
  unfoldable pub update_resolved :
      ServiceManifest
      → (network : String) → Result ManifestError ResolvedManifest
      → State W
      → Option DeployError × State W
  unfolding service_spec update_created
  update_resolved raw network (err why) s = (some (not_resolved why), s)
  update_resolved raw network (ok m) s =
      update_created raw network
        (create_container d.job.engine (service_spec d parse_duration s.svc m network) s)

  unfoldable pub update_image : ServiceManifest → State W → Option DeployError × State W
  unfolding remove_containers primary_network update_resolved
  update_image raw s =
      let cleared = remove_containers d.job s.svc.name s in
      let (network, t) = primary_network d s.svc.project_id cleared in
      update_resolved raw (or_no_network network) (resolve order raw) t

  unfoldable pub update_changed :
      UpdateArgs → Bool × ServiceManifest → State W → Option DeployError × State W
  unfolding reroute update_image update_done
  update_changed p (false, raw) s = (none, s)
  update_changed p (true, raw) s =
      let routed = reroute p raw s in
      if p.image == "" then update_done raw routed else update_image raw routed

  unfoldable pub update_parsed :
      UpdateArgs → Option ServiceManifest → State W → Option DeployError × State W
  unfolding with_changes update_changed
  update_parsed p none s = (some manifest_unreadable, s)
  update_parsed p (some m) s = update_changed p (with_changes p m) s

  unfoldable pub update_work : UpdateArgs → State W → Option DeployError × State W
  unfolding update_parsed
  update_work p s =
      if s.svc.manifest_json == ""
      then (some manifest_missing, s)
      else update_parsed p (d.unmarshal s.svc.manifest_json) s

  -- The listing before is for the log only.
  unfoldable pub delete_work : State W → Fate × State W
  unfolding remove_containers
  delete_work s =
      let seen = (list_containers d.job.engine s).1 in
      let unrouted = record seen { world = d.remove_route s.svc.name seen.world } in
      (dropped, remove_containers d.job s.svc.name unrouted)
