-- ===== src/Jobs/Deployed.antt =====
-- How the job that deploys a service leaves its row.
use tidefly_plane.Prelude.{
  ◌⊎◌, ℤ, ℕ, String, Bool, true, false, not, ◌&&◌, Option, none, some, List, [], ◌∷◌, Result, ok,
  err, ◌≡◌, ◌≢◌, refl, ◌∙◌, ◌==◌, Bool-cases, Option-cases, inl, inr,
}
use tidefly_plane.Manifest.Schema.{ServiceManifest, VolumeSpec}
use tidefly_plane.Manifest.Resolved.{ResolvedManifest}
use tidefly_plane.Manifest.Validate.{ManifestError}
use tidefly_plane.Manifest.Resolve.{resolve}
use tidefly_plane.Models.Service.{ServiceStatus, running, failed}
use tidefly_plane.Runtime.Engine.{State, create_container}
use tidefly_plane.Reconciler.BlueGreen.{proxy_network}
use tidefly_plane.Converter.Input.{ConvertInput, Conversion, ConvertError}
use tidefly_plane.Converter.Convert.{convert}
use tidefly_plane.Converter.Nonempty.{convert_nonempty}
use tidefly_plane.Jobs.Stages.{
  DeployEngine, DeployError, no_first_manifest, failing, mark_failed, build_image, create_volumes,
  ensure_network, resolve_project_network, project_ensured, primary_network, connect_proxy,
}
use tidefly_plane.Jobs.Deployment.{
  register_domain, update_row, deploy_created, deploy_volumes, deploy_built, deploy_networked,
  renamed, deploy_resolved, deploy_first, deploy_converted, deploy_work,
}

-- The stages of the deployment leave the status of the row alone.
module _ {W : Type 0} (d : DeployEngine W) where
  project_ensured-status :
      (o : Option String) (s : State W) → (project_ensured d o s).1.svc.status ≡ s.svc.status
  unfolding project_ensured ensure_network
  project_ensured-status none s = refl
  project_ensured-status (some net) s = elim (Bool-cases (net == "")) [
    | inl empty ↦ rw empty refl
    | inr named ↦ elim (Bool-cases (ensure_network d net s).0) [
      | inl wrong ↦ rw (named, wrong) refl
      | inr made ↦ rw (named, made) refl
    ]
  ]

  primary_network-status :
      (project_id : String) (s : State W)
      → (primary_network d project_id s).1.svc.status ≡ s.svc.status
  unfolding primary_network ensure_network
  primary_network-status project_id s = elim (Bool-cases (ensure_network d proxy_network s).0) [
    | inl wrong ↦ rw wrong refl
    | inr made ↦ rw made (
        project_ensured-status
          (resolve_project_network d project_id (ensure_network d proxy_network s).1)
          (ensure_network d proxy_network s).1)
  ]

  build_image-status :
      (r : Conversion) (s : State W) → (build_image d r s).1.svc.status ≡ s.svc.status
  unfolding build_image
  build_image-status r s = elim (Option-cases r.build_context) [
    | inl bare ↦ rw bare (elim (Bool-cases (r.inline_dockerfile == "")) [
      | inl empty ↦ rw empty refl
      | inr text ↦ rw text refl
    ])
    | inr (archive, given) ↦ rw given refl
  ]

  create_volumes-status :
      (vs : List VolumeSpec) (s : State W) → (create_volumes d vs s).1.svc.status ≡ s.svc.status
  unfolding create_volumes
  create_volumes-status [] s = refl
  create_volumes-status (v ∷ vs) s = elim (Bool-cases (d.create_volume v.name s.world).0) [
    | inl done ↦ rw done (create_volumes-status vs _)
    | inr refused ↦ rw refused refl
  ]

  connect_proxy-status :
      (exposed : Bool) (network : String) (s : State W)
      → (connect_proxy d exposed network s).svc.status ≡ s.svc.status
  unfolding connect_proxy
  connect_proxy-status exposed network s =
      elim (Bool-cases (exposed && not (network == proxy_network))) [
        | inl joined ↦ rw joined refl
        | inr kept ↦ rw kept refl
      ]

module _ {W : Type 0} (d : DeployEngine W) (parse_duration : String → ℤ)
    (order : List (String × ℕ)) where
  register_domain-status :
      (m : ResolvedManifest) (s : State W)
      → (register_domain d parse_duration order m s).1.svc.status ≡ s.svc.status
  unfolding register_domain
  register_domain-status m s = elim (Bool-cases (m.expose.domain == "")) [
    | inl bare ↦ rw bare refl
    | inr named ↦ rw named refl
  ]

  renamed-status :
      (name : String) (s : State W)
      → (renamed d parse_duration order name s).svc.status ≡ s.svc.status
  unfolding renamed
  renamed-status name s = elim (Bool-cases (not (name == "") && not (s.svc.name == name))) [
    | inr kept ↦ rw kept refl
    | inl new ↦ elim (Bool-cases (d.name_taken name s.world)) [
      | inl taken ↦ rw (new, taken) refl
      | inr free ↦ rw (new, free) refl
    ]
  ]

  -- A job that reports no error leaves the service running, or with the status from before where another
  -- row has its name; one that reports an error leaves it failed, and the error is not the panic on an
  -- empty list of manifests.
  abbrev pub IsDeployed : ServiceStatus → Option DeployError × State W → Type 0
  IsDeployed before (none, s) =
      (s.svc.status ≡ running)
      ⊎ ((d.name_taken s.svc.name s.world ≡ true) × (s.svc.status ≡ before))
  IsDeployed before (some why, s) = (why ≢ no_first_manifest) × (s.svc.status ≡ failed)

  module _ (before : ServiceStatus) where
    failing-IsDeployed :
        (why : DeployError) (s : State W)
        → why ≢ no_first_manifest
        → IsDeployed before (failing d why s)
    unfolding failing mark_failed
    failing-IsDeployed why s other = (other, refl)

    update_row-IsDeployed :
        (raw : ServiceManifest) (url : String) (s : State W)
        → s.svc.status ≡ before
        → IsDeployed before (none, update_row d parse_duration order raw url s)
    unfolding update_row
    update_row-IsDeployed raw url s same = elim (Bool-cases (d.name_taken s.svc.name s.world)) [
      | inl taken ↦ rw taken (inr (taken, same))
      | inr free ↦ rw free (inl refl)
    ]

    deploy_created-IsDeployed :
        (raw : ServiceManifest) (m : ResolvedManifest) (network : String)
        (r : Option String × State W)
        → r.1.svc.status ≡ before
        → IsDeployed before (deploy_created d parse_duration order raw m network r)
    unfolding deploy_created
    deploy_created-IsDeployed raw m network (some text, s) same = failing-IsDeployed _ s (λ e. cc e)
    deploy_created-IsDeployed raw m network (none, s) same =
        update_row-IsDeployed raw _ _
          (register_domain-status m _ ∙ (connect_proxy-status d _ network s ∙ same))

    deploy_volumes-IsDeployed :
        (raw : ServiceManifest) (m : ResolvedManifest) (network : String)
        (r : Option String × State W)
        → r.1.svc.status ≡ before
        → IsDeployed before (deploy_volumes d parse_duration order raw m network r)
    unfolding deploy_volumes create_container
    deploy_volumes-IsDeployed raw m network (some name, s) same = failing-IsDeployed _ s (λ e. cc e)
    deploy_volumes-IsDeployed raw m network (none, s) same =
        deploy_created-IsDeployed raw m network _ same

    deploy_built-IsDeployed :
        (raw : ServiceManifest) (m : ResolvedManifest) (network : String) (r : Bool × State W)
        → r.1.svc.status ≡ before
        → IsDeployed before (deploy_built d parse_duration order raw m network r)
    unfolding deploy_built
    deploy_built-IsDeployed raw m network (false, s) same = failing-IsDeployed _ s (λ e. cc e)
    deploy_built-IsDeployed raw m network (true, s) same =
        deploy_volumes-IsDeployed raw m network _
          (create_volumes-status d m.container.volumes s ∙ same)

    deploy_networked-IsDeployed :
        (r : Conversion) (raw : ServiceManifest) (m : ResolvedManifest)
        (n : Option String × State W)
        → n.1.svc.status ≡ before
        → IsDeployed before (deploy_networked d parse_duration order r raw m n)
    unfolding deploy_networked
    deploy_networked-IsDeployed r raw m (none, s) same = failing-IsDeployed _ s (λ e. cc e)
    deploy_networked-IsDeployed r raw m (some network, s) same =
        elim (Bool-cases r.build_required) [
          | inl needed ↦ rw needed (
              deploy_built-IsDeployed raw m network (build_image d r s)
                (build_image-status d r s ∙ same))
          | inr ready ↦ rw ready (deploy_built-IsDeployed raw m network (true, s) same)
        ]

    deploy_resolved-IsDeployed :
        (r : Conversion) (raw : ServiceManifest) (m : Result ManifestError ResolvedManifest)
        (s : State W)
        → s.svc.status ≡ before
        → IsDeployed before (deploy_resolved d parse_duration order r raw m s)
    unfolding deploy_resolved
    deploy_resolved-IsDeployed r raw (err why) s same = failing-IsDeployed _ s (λ e. cc e)
    deploy_resolved-IsDeployed r raw (ok m) s same =
        deploy_networked-IsDeployed r raw m _
          (primary_network-status d s.svc.project_id _ ∙ (renamed-status m.name s ∙ same))

    deploy_converted-IsDeployed :
        (c : Result ConvertError Conversion) (s : State W)
        → s.svc.status ≡ before
        → ((r : Conversion)
            → c ≡ ok r
            → (m : ServiceManifest) × (rest : List ServiceManifest) × (r.manifests ≡ m ∷ rest))
        → IsDeployed before (deploy_converted d parse_duration order c s)
    unfolding deploy_converted deploy_first
    deploy_converted-IsDeployed (err why) s same full = failing-IsDeployed _ s (λ e. cc e)
    deploy_converted-IsDeployed (ok r) s same full =
        let (m, rest, listed) = full r refl in
        rw (listed, deploy_first) (deploy_resolved-IsDeployed r m (resolve order m) s same)

  -- Whatever is deployed, and whatever the engine, the clone of a repository and the decoders answer: the
  -- job ends without an error and with the service running, or with an error and the service failed, and it
  -- never panics for want of a first manifest. The one exception is a name that another row has at the end:
  -- then the job reports no error and the row keeps the status from before the job.
  pub deploy_work-IsDeployed :
      (input : ConvertInput) (s : State W)
      → IsDeployed s.svc.status (deploy_work d parse_duration order input s)
  unfolding deploy_work
  deploy_work-IsDeployed input s =
      deploy_converted-IsDeployed s.svc.status (convert d.readers input) s refl
        (λ r e. convert_nonempty d.readers input e)
