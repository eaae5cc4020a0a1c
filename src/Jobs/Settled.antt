-- ===== src/Jobs/Settled.antt =====
-- How the job that redeploys a service leaves its row.
use tidefly_plane.Prelude.{
  ℤ, ℕ, String, Bool, true, false, Option, none, some, List, Result, ok, err, ◌≡◌, ◌≢◌, refl, ◌==◌,
  Bool-cases, inl, inr, if◌then◌else◌,
}
use tidefly_plane.Manifest.Schema.{ServiceManifest}
use tidefly_plane.Manifest.Resolved.{ResolvedManifest, ResolvedBuild}
use tidefly_plane.Manifest.Validate.{ManifestError}
use tidefly_plane.Manifest.Resolve.{resolve}
use tidefly_plane.Models.Service.{running, failed, deploying}
use tidefly_plane.Runtime.Engine.{State, create_container, save}
use tidefly_plane.Reconciler.BlueGreen.{Failure}
use tidefly_plane.Converter.Input.{ConvertError}
use tidefly_plane.Converter.Sources.{build_git_context}
use tidefly_plane.Jobs.Recovery.{remove_containers}
use tidefly_plane.Jobs.Stages.{
  DeployEngine, DeployError, no_first_manifest, failing, mark_failed, build_image, service_spec,
  primary_network, or_no_network,
}
use tidefly_plane.Jobs.Redeployment.{
  RedeployArgs, redeployed, recreated, slots_done, worker_done, redeploy_slots, redeploy_built,
  redeploy_after_build, redeploy_cloned, redeploy_build, redeploy_resolved, redeploy_parsed,
  redeploy_work, build_result, overridden,
}

module _ {W : Type 0} (d : DeployEngine W) (parse_duration : String → ℤ)
    (order : List (String × ℕ)) where
  -- A job that reports no error leaves the service running; one that does leaves it failed, and the error
  -- is not the panic on an empty list of manifests.
  abbrev IsSettled : Option DeployError × State W → Type 0
  IsSettled (none, s) = s.svc.status ≡ running
  IsSettled (some why, s) = (why ≢ no_first_manifest) × (s.svc.status ≡ failed)

  failing-IsSettled :
      (why : DeployError) (s : State W) → why ≢ no_first_manifest → IsSettled (failing d why s)
  unfolding failing mark_failed
  failing-IsSettled why s other = (other, refl)

  recreated-IsSettled :
      (raw : ServiceManifest) (network : String) (r : Option String × State W)
      → IsSettled (recreated d parse_duration order raw network r)
  unfolding recreated redeployed
  recreated-IsSettled raw network (some text, s) = failing-IsSettled _ s (λ e. cc e)
  recreated-IsSettled raw network (none, s) = refl

  slots_done-IsSettled :
      (raw : ServiceManifest) (r : Option Failure × State W)
      → IsSettled (slots_done d parse_duration order raw r)
  unfolding redeployed
  slots_done-IsSettled raw (some why, s) = failing-IsSettled _ s (λ e. cc e)
  slots_done-IsSettled raw (none, s) = refl

  worker_done-IsSettled :
      (raw : ServiceManifest) (s : State W) (r : Bool × W)
      → IsSettled (worker_done d parse_duration order raw s r)
  unfolding redeployed
  worker_done-IsSettled raw s (false, w) = failing-IsSettled _ _ (λ e. cc e)
  worker_done-IsSettled raw s (true, w) = refl

  redeploy_slots-IsSettled :
      (raw : ServiceManifest) (m : ResolvedManifest) (o : Option (ResolvedManifest → Bool × W))
      (s : State W)
      → IsSettled (redeploy_slots d parse_duration order raw m o s)
  unfolding redeploy_slots
  redeploy_slots-IsSettled raw m none s = slots_done-IsSettled raw _
  redeploy_slots-IsSettled raw m (some send) s = worker_done-IsSettled raw s (send m)

  redeploy_built-IsSettled :
      (raw : ServiceManifest) (m : ResolvedManifest) (n : Option String × State W)
      → IsSettled (redeploy_built d parse_duration order raw m n)
  unfolding redeploy_built
  redeploy_built-IsSettled raw m (network, s) =
      elim (Bool-cases (m.scaling.strategy == "blue-green")) [
        | inl slots ↦ rw slots (
            redeploy_slots-IsSettled raw m
              (if s.svc.worker_id == "" then none else d.send_blue_green s.svc s.world) s)
        | inr plain ↦ rw plain (
            recreated-IsSettled raw (or_no_network network) (
              create_container d.job.engine
                (service_spec d parse_duration s.svc m (or_no_network network))
                (remove_containers d.job s.svc.name s)))
      ]

  redeploy_after_build-IsSettled :
      (raw : ServiceManifest) (m : ResolvedManifest) (r : Bool × State W)
      → IsSettled (redeploy_after_build d parse_duration order raw m r)
  unfolding redeploy_after_build
  redeploy_after_build-IsSettled raw m (false, s) = failing-IsSettled _ s (λ e. cc e)
  redeploy_after_build-IsSettled raw m (true, s) =
      redeploy_built-IsSettled raw m (primary_network d s.svc.project_id s)

  redeploy_cloned-IsSettled :
      (raw : ServiceManifest) (m : ResolvedManifest) (b : ResolvedBuild)
      (a : Result ConvertError String) (s : State W)
      → IsSettled (redeploy_cloned d parse_duration order raw m b a s)
  redeploy_cloned-IsSettled raw m b (err why) s = failing-IsSettled _ s (λ e. cc e)
  redeploy_cloned-IsSettled raw m b (ok archive) s =
      redeploy_after_build-IsSettled raw m
        (build_image d (build_result d parse_duration order b (some archive)) s)

  redeploy_build-IsSettled :
      (raw : ServiceManifest) (m : ResolvedManifest) (token : String) (o : Option ResolvedBuild)
      (s : State W)
      → IsSettled (redeploy_build d parse_duration order raw m token o s)
  unfolding redeploy_build
  redeploy_build-IsSettled raw m token none s = redeploy_after_build-IsSettled raw m (true, s)
  redeploy_build-IsSettled raw m token (some b) s = elim (Bool-cases b.is_git) [
    | inl git ↦ rw git (
        redeploy_cloned-IsSettled raw m b
          (build_git_context d.readers.clone b.git_url b.branch token) s)
    | inr text ↦ rw text (
        redeploy_after_build-IsSettled raw m
          (build_image d (build_result d parse_duration order b none) s))
  ]

  redeploy_resolved-IsSettled :
      (p : RedeployArgs) (raw : ServiceManifest) (m : Result ManifestError ResolvedManifest)
      (s : State W)
      → IsSettled (redeploy_resolved d parse_duration order p raw m s)
  unfolding redeploy_resolved
  redeploy_resolved-IsSettled p raw (err why) s = failing-IsSettled _ s (λ e. cc e)
  redeploy_resolved-IsSettled p raw (ok m) s = redeploy_build-IsSettled raw m p.git_token m.build s

  redeploy_parsed-IsSettled :
      (p : RedeployArgs) (o : Option ServiceManifest) (s : State W)
      → IsSettled (redeploy_parsed d parse_duration order p o s)
  unfolding redeploy_parsed
  redeploy_parsed-IsSettled p none s = failing-IsSettled _ s (λ e. cc e)
  redeploy_parsed-IsSettled p (some m) s =
      let raw = overridden d parse_duration order p.image_override m in
      redeploy_resolved-IsSettled p raw (resolve order raw) s

  -- A redeployment of a service with a stored manifest ends with the service running and no error, or with
  -- the service failed and an error, whatever its strategy is and whoever makes it.
  redeploy_work-IsSettled :
      (p : RedeployArgs) (s : State W)
      → s.svc.manifest_json == "" ≡ false
      → IsSettled (redeploy_work d parse_duration order p s)
  unfolding redeploy_work
  redeploy_work-IsSettled p s stored = rw stored (
      redeploy_parsed-IsSettled p (d.unmarshal s.svc.manifest_json)
        (save d.job.engine (record s.svc { status = deploying }) s))
