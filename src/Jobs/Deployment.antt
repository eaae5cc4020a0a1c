-- ===== src/Jobs/Deployment.antt =====
-- internal/jobs/service_workers.go: the job `DeployWorker`. The row with the job's id is
-- the service of the state; a job whose row is gone ends at once. Its name is that of the job's own copy,
-- which takes the manifest's name whether or not the row does. The notices and events are left out.
use Prim.Native.String.{◌++◌}
use tidefly_plane.Prelude.{
  ℤ, ℕ, String, Bool, true, false, not, Option, none, some, List, [], ◌∷◌, Result, ok, err, ◌==◌,
  ◌&&◌, is_some, if◌then◌else◌,
}
use tidefly_plane.Manifest.Schema.{ServiceManifest}
use tidefly_plane.Manifest.Resolved.{ResolvedManifest}
use tidefly_plane.Manifest.Validate.{ManifestError}
use tidefly_plane.Manifest.Resolve.{resolve}
use tidefly_plane.Models.Service.{running}
use tidefly_plane.Runtime.Engine.{State, create_container, save}
use tidefly_plane.Converter.Input.{ConvertInput, Conversion, ConvertError}
use tidefly_plane.Converter.Convert.{convert}
use tidefly_plane.Jobs.Stages.{
  DeployEngine, DeployError, network_failed, build_failed, create_failed, no_first_manifest,
  volume_failed, not_converted, not_resolved, primary_network, failing, build_image, create_volumes,
  service_spec, connect_proxy, route_from_manifest,
}

module _ {W : Type 0} (d : DeployEngine W) (parse_duration : String → ℤ)
    (order : List (String × ℕ)) where
  -- The rest after the creation of the container, with the address that the service gets.
  abbrev pub public_url : ResolvedManifest → Bool → String
  public_url m false = ""
  public_url m true = (if m.expose.tls then "https" else "http") ++ "://" ++ m.expose.domain

  unfoldable pub register_domain : ResolvedManifest → State W → String × State W
  unfolding route_from_manifest
  register_domain m s =
      let (added, w) = d.add_route (route_from_manifest m.name m) s.world in
      if m.expose.domain == "" then ("", s) else (public_url m added, record s { world = w })

  -- The last write of the job, the name in it. Its error is dropped, so where another row has the name
  -- nothing is written.
  unfoldable pub update_row : ServiceManifest → (url : String) → State W → State W
  update_row raw url s =
      if d.name_taken s.svc.name s.world
      then s
      else save d.job.engine
          (record s.svc { status = running; manifest_json = d.marshal raw; public_url = url }) s

  unfoldable pub deploy_created :
      ServiceManifest
      → ResolvedManifest
      → (network : String) → Option String × State W
      → Option DeployError × State W
  unfolding failing connect_proxy register_domain update_row
  deploy_created raw m network (some text, s) = failing d create_failed s
  deploy_created raw m network (none, s) =
      let (url, t) = register_domain m (connect_proxy d (is_some raw.spec.expose) network s) in
      (none, update_row raw url t)

  unfoldable pub deploy_volumes :
      ServiceManifest
      → ResolvedManifest
      → (network : String) → Option String × State W
      → Option DeployError × State W
  unfolding failing service_spec deploy_created
  deploy_volumes raw m network (some name, s) = failing d (volume_failed name) s
  deploy_volumes raw m network (none, s) =
      deploy_created raw m network
        (create_container d.job.engine (service_spec d parse_duration s.svc m network) s)

  unfoldable pub deploy_built :
      ServiceManifest
      → ResolvedManifest
      → (network : String) → Bool × State W
      → Option DeployError × State W
  unfolding failing create_volumes deploy_volumes
  deploy_built raw m network (false, s) = failing d build_failed s
  deploy_built raw m network (true, s) =
      deploy_volumes raw m network (create_volumes d m.container.volumes s)

  unfoldable pub deploy_networked :
      Conversion
      → ServiceManifest
      → ResolvedManifest
      → Option String × State W
      → Option DeployError × State W
  unfolding failing build_image deploy_built
  deploy_networked r raw m (none, s) = failing d network_failed s
  deploy_networked r raw m (some network, s) =
      deploy_built raw m network (if r.build_required then build_image d r s else (true, s))

  -- The write of the row's name, whose error is dropped, and the name of the job's copy.
  unfoldable pub renamed : String → State W → State W
  renamed name s =
      if not (name == "") && not (s.svc.name == name)
      then (if d.name_taken name s.world
          then record s { svc = record s.svc { name = name } }
          else save d.job.engine (record s.svc { name = name }) s)
      else s

  unfoldable pub deploy_resolved :
      Conversion
      → ServiceManifest
      → Result ManifestError ResolvedManifest
      → State W
      → Option DeployError × State W
  unfolding failing renamed primary_network deploy_networked
  deploy_resolved r raw (err why) s = failing d (not_resolved why) s
  deploy_resolved r raw (ok m) s =
      deploy_networked r raw m (primary_network d s.svc.project_id (renamed m.name s))

  -- The job takes `Manifests[0]`; where there is none, Go panics.
  unfoldable pub deploy_first :
      Conversion → List ServiceManifest → State W → Option DeployError × State W
  unfolding deploy_resolved
  deploy_first r [] s = (some no_first_manifest, s)
  deploy_first r (raw ∷ rest) s = deploy_resolved r raw (resolve order raw) s

  unfoldable pub deploy_converted :
      Result ConvertError Conversion → State W → Option DeployError × State W
  unfolding failing deploy_first
  deploy_converted (err why) s = failing d (not_converted why) s
  deploy_converted (ok r) s = deploy_first r r.manifests s

  -- The input has the fields of the job's arguments.
  unfoldable pub deploy_work : ConvertInput → State W → Option DeployError × State W
  unfolding deploy_converted convert
  deploy_work input s = deploy_converted (convert d.readers input) s
