-- ===== src/Jobs/Redeployment.antt =====
-- internal/jobs/service_workers.go: the job `RedeployWorker`. The row with the job's id is the service of the
-- state; a job whose row is gone ends at once. The notices and events are left out.
use tidefly_plane.Prelude.{
  ℤ, ℕ, String, Bool, true, false, Option, none, some, List, [], Result, ok, err, ◌==◌, is_some,
  if◌then◌else◌,
}
use tidefly_plane.Manifest.Schema.{ServiceManifest}
use tidefly_plane.Manifest.Resolved.{ResolvedManifest, ResolvedBuild}
use tidefly_plane.Manifest.Validate.{ManifestError}
use tidefly_plane.Manifest.Resolve.{resolve}
use tidefly_plane.Models.Service.{deploying, running}
use tidefly_plane.Runtime.Engine.{State, create_container, save}
use tidefly_plane.Reconciler.BlueGreen.{Failure, next_slot}
use tidefly_plane.Converter.Input.{Conversion, ConvertError, unbuilt}
use tidefly_plane.Converter.Sources.{build_git_context}
use tidefly_plane.Jobs.Recovery.{remove_containers}
use tidefly_plane.Jobs.Slots.{deploy_blue_green}
use tidefly_plane.Jobs.Stages.{
  DeployEngine, DeployError, manifest_missing, manifest_unreadable, build_failed, clone_failed,
  create_failed, worker_refused, not_resolved, slot_failed, primary_network, or_no_network, failing,
  build_image, service_spec, connect_proxy,
}

pub record RedeployArgs : Type 0 where
  pub image_override : String
  pub git_token : String

module _ {W : Type 0} (d : DeployEngine W) (parse_duration : String → ℤ)
    (order : List (String × ℕ)) where
  -- The end of a redeployment that went well.
  unfoldable pub redeployed : ServiceManifest → State W → Option DeployError × State W
  redeployed raw s =
      (none, save d.job.engine (record s.svc { status = running; manifest_json = d.marshal raw }) s)

  unfoldable pub recreated :
      ServiceManifest → (network : String) → Option String × State W → Option DeployError × State W
  unfolding failing connect_proxy redeployed
  recreated raw network (some text, s) = failing d create_failed s
  recreated raw network (none, s) =
      redeployed raw (connect_proxy d (is_some raw.spec.expose) network s)

  abbrev pub slots_done : ServiceManifest → Option Failure × State W → Option DeployError × State W
  slots_done raw (some why, s) = failing d (slot_failed why) s
  slots_done raw (none, s) = redeployed raw s

  -- The connected worker made the deployment, and the row takes the other slot.
  abbrev pub worker_done : ServiceManifest → State W → Bool × W → Option DeployError × State W
  worker_done raw s (false, w) = failing d worker_refused (record s { world = w })
  worker_done raw s (true, w) = redeployed raw (
      save d.job.engine (record s.svc { active_slot_name = next_slot s.svc.active_slot_name })
        (record s { world = w }))

  unfoldable pub redeploy_slots :
      ServiceManifest
      → ResolvedManifest
      → Option (ResolvedManifest → Bool × W)
      → State W
      → Option DeployError × State W
  unfolding failing redeployed deploy_blue_green next_slot
  redeploy_slots raw m none s = slots_done raw (deploy_blue_green d.job.engine parse_duration m s)
  redeploy_slots raw m (some send) s = worker_done raw s (send m)

  -- Without the strategy blue-green the containers are removed first. An error of the network is dropped,
  -- and its name is empty then.
  unfoldable pub redeploy_built :
      ServiceManifest → ResolvedManifest → Option String × State W → Option DeployError × State W
  unfolding remove_containers service_spec recreated redeploy_slots
  redeploy_built raw m (network, s) =
      let net = or_no_network network in
      let cleared = remove_containers d.job s.svc.name s in
      if m.scaling.strategy == "blue-green"
      then redeploy_slots raw m
          (if s.svc.worker_id == "" then none else d.send_blue_green s.svc s.world) s
      else recreated raw net
          (create_container d.job.engine (service_spec d parse_duration s.svc m net) cleared)

  unfoldable pub redeploy_after_build :
      ServiceManifest → ResolvedManifest → Bool × State W → Option DeployError × State W
  unfolding failing primary_network redeploy_built
  redeploy_after_build raw m (false, s) = failing d build_failed s
  redeploy_after_build raw m (true, s) = redeploy_built raw m (primary_network d s.svc.project_id s)

  -- What the build of a stored manifest is made from.
  unfoldable pub build_result : ResolvedBuild → Option String → Conversion
  unfolding unbuilt
  build_result b none = record (unbuilt []) {
    build_required = true;
    build_tag = b.tag;
    inline_dockerfile = b.dockerfile_inline;
  }
  build_result b (some archive) = record (unbuilt []) {
    build_required = true;
    build_tag = b.tag;
    build_context = some archive;
    dockerfile_path = b.dockerfile_path;
  }

  abbrev pub redeploy_cloned :
      ServiceManifest
      → ResolvedManifest
      → ResolvedBuild
      → Result ConvertError String
      → State W
      → Option DeployError × State W
  redeploy_cloned raw m b (err why) s = failing d clone_failed s
  redeploy_cloned raw m b (ok archive) s =
      redeploy_after_build raw m (build_image d (build_result b (some archive)) s)

  unfoldable pub redeploy_build :
      ServiceManifest
      → ResolvedManifest
      → (token : String) → Option ResolvedBuild
      → State W
      → Option DeployError × State W
  unfolding build_git_context failing redeploy_after_build build_image build_result
  redeploy_build raw m token none s = redeploy_after_build raw m (true, s)
  redeploy_build raw m token (some b) s =
      if b.is_git
      then redeploy_cloned raw m b (build_git_context d.readers.clone b.git_url b.branch token) s
      else redeploy_after_build raw m (build_image d (build_result b none) s)

  unfoldable pub redeploy_resolved :
      RedeployArgs
      → ServiceManifest
      → Result ManifestError ResolvedManifest
      → State W
      → Option DeployError × State W
  unfolding failing redeploy_build
  redeploy_resolved p raw (err why) s = failing d (not_resolved why) s
  redeploy_resolved p raw (ok m) s = redeploy_build raw m p.git_token m.build s

  unfoldable pub overridden : (image : String) → ServiceManifest → ServiceManifest
  overridden image m = if image == "" then m else record m {
    spec = record m.spec { container = record m.spec.container { image = image; build = none } };
  }

  unfoldable pub redeploy_parsed :
      RedeployArgs → Option ServiceManifest → State W → Option DeployError × State W
  unfolding failing overridden redeploy_resolved
  redeploy_parsed p none s = failing d manifest_unreadable s
  redeploy_parsed p (some m) s =
      let raw = overridden p.image_override m in redeploy_resolved p raw (resolve order raw) s

  unfoldable pub redeploy_work : RedeployArgs → State W → Option DeployError × State W
  unfolding redeploy_parsed
  redeploy_work p s =
      if s.svc.manifest_json == ""
      then (some manifest_missing, s)
      else redeploy_parsed p (d.unmarshal s.svc.manifest_json)
          (save d.job.engine (record s.svc { status = deploying }) s)
