-- ===== src/Jobs/Stages.antt =====
-- internal/jobs/service_workers.go: what the jobs that deploy a service share. The texts of the log and
-- the events on the bus are left out.
use Prim.Native.String.{◌++◌}
use tidefly_plane.Prelude.{
  ℤ, pos, eq_ℤ, String, Bool, false, not, ◌&&◌, ◌||◌, Option, none, some, List, [], ◌∷◌, ◌==◌,
  if◌then◌else◌, put,
}
use tidefly_plane.Prelude.Split.{contains_text}
use tidefly_plane.Manifest.Schema.{ServiceManifest, VolumeSpec}
use tidefly_plane.Manifest.Resolved.{ResolvedManifest}
use tidefly_plane.Manifest.Validate.{ManifestError}
use tidefly_plane.Manifest.Adapter.{to_container_spec, itoa}
use tidefly_plane.Models.Service.{Service, failed}
use tidefly_plane.Runtime.Types.{Spec, is_podman}
use tidefly_plane.Runtime.Engine.{State, Route, save}
use tidefly_plane.Reconciler.BlueGreen.{Failure, proxy_network}
use tidefly_plane.Converter.Input.{Conversion, ConvertError}
use tidefly_plane.Converter.Convert.{Readers}
use tidefly_plane.Jobs.Recovery.{JobEngine}

pub data DeployError : Type 0 where
  manifest_missing manifest_unreadable network_failed build_failed clone_failed : DeployError
  create_failed worker_refused update_refused no_first_manifest : DeployError
  volume_failed : String → DeployError
  not_converted : ConvertError → DeployError
  not_resolved : ManifestError → DeployError
  slot_failed : Failure → DeployError

-- What these jobs ask for beyond the other jobs: the network of a project, `none` where there is no such
-- project; the build of an image from an archive or from the text of a Dockerfile, which says whether it
-- succeeded; the readers of the converter, with the decoder of stored manifests and its inverse. The worker
-- that runs a service makes its blue-green deployment, where it is connected. `name_taken` says whether
-- another row has the name, which the unique index on names then refuses.
pub record DeployEngine (W : Type 0) : Type 0 where
  pub job : JobEngine W
  pub readers : Readers
  pub marshal : ServiceManifest → String
  pub unmarshal : String → Option ServiceManifest
  pub error_text : DeployError → String
  pub name_taken : String → W → Bool
  pub project_network : String → W → Option String
  pub connect_network : (container network : String) → W → W
  pub create_volume : String → W → Bool × W
  pub build_archive : (tag path archive : String) → W → Bool × W
  pub build_text : (tag dockerfile : String) → W → Bool × W
  pub add_route : Route → W → Bool × W
  pub update_route : Route → W → W
  pub remove_route : String → W → W
  pub send_blue_green : Service → W → Option (ResolvedManifest → Bool × W)

-- `RouteFromManifest` of internal/infra/ingress/caddy/adapter.go.
unfoldable pub route_from_manifest : String → ResolvedManifest → Route
route_from_manifest name resolved = record {
  service_name = name;
  domain = resolved.expose.domain;
  upstream =
      if eq_ℤ resolved.expose.port (pos 0) then name else name ++ ":" ++ itoa resolved.expose.port;
  tls = resolved.expose.tls;
  www = resolved.expose.www;
}

-- An error of `CreateNetwork` that says the network is there is none.
unfoldable pub is_network_error : Option String → Bool
unfolding contains_text
is_network_error none = false
is_network_error (some text) = not (contains_text "already exists" text || contains_text "409" text)

-- The network's name is empty where its error is dropped.
abbrev pub or_no_network : Option String → String
or_no_network none = ""
or_no_network (some net) = net

module _ {W : Type 0} (d : DeployEngine W) where
  -- Whether it failed.
  unfoldable pub ensure_network : String → State W → Bool × State W
  unfolding is_network_error
  ensure_network name s =
      let (answer, w) = d.job.create_network name s.world in
      (is_network_error answer, record s { world = w })

  unfoldable pub resolve_project_network : String → State W → Option String
  resolve_project_network project_id s =
      if project_id == "" then some "" else d.project_network project_id s.world

  unfoldable pub project_ensured : Option String → State W → Option String × State W
  unfolding ensure_network
  project_ensured none s = (none, s)
  project_ensured (some net) s =
      let (wrong, t) = ensure_network net s in
      if net == "" then (some proxy_network, s) else if wrong then (none, t) else (some net, t)

  -- `none` for an error.
  unfoldable pub primary_network : String → State W → Option String × State W
  unfolding ensure_network resolve_project_network project_ensured
  primary_network project_id s =
      let (wrong, t) = ensure_network proxy_network s in
      if wrong then (none, t) else project_ensured (resolve_project_network project_id t) t

  unfoldable pub mark_failed : DeployError → State W → State W
  mark_failed why s =
      save d.job.engine (record s.svc { status = failed; last_error = d.error_text why }) s

  -- `markFailed` and the return of the error.
  unfoldable pub failing : DeployError → State W → Option DeployError × State W
  unfolding mark_failed
  failing why s = (some why, mark_failed why s)

  abbrev pub built : State W → Bool × W → Bool × State W
  built s (done, w) = (done, record s { world = w })

  -- Whether the image was built.
  unfoldable pub build_image : Conversion → State W → Bool × State W
  build_image r s = elim r.build_context [
    | some archive ↦ built s (
        d.build_archive r.build_tag
          (if r.dockerfile_path == "" then "Dockerfile" else r.dockerfile_path) archive s.world)
    | none ↦
        if r.inline_dockerfile == ""
        then (false, s)
        else built s (d.build_text r.build_tag r.inline_dockerfile s.world)
  ]

  -- The volume that could not be created.
  unfoldable pub create_volumes : List VolumeSpec → State W → Option String × State W
  create_volumes [] s = (none, s)
  create_volumes (v ∷ vs) s =
      let (done, w) = d.create_volume v.name s.world in
      let rest = create_volumes vs (record s { world = w }) in
      if done then rest else (some v.name, record s { world = w })

  module _ (parse_duration : String → ℤ) where
    -- The specification with the labels of the service's row.
    unfoldable pub service_spec : Service → ResolvedManifest → (network : String) → Spec
    service_spec svc resolved network =
        let base =
          to_container_spec parse_duration resolved network (is_podman d.job.engine.type) in
        record base {
          labels =
              put "tidefly.project" svc.project_id
                (put "tidefly.service" svc.name (put "tidefly.service-id" svc.id base.labels));
        }

  -- `ConnectNetwork`, whose error is only logged.
  unfoldable pub connect_proxy : (exposed : Bool) → (network : String) → State W → State W
  connect_proxy exposed network s =
      if exposed && not (network == proxy_network)
      then record s { world = d.connect_network s.svc.name proxy_network s.world }
      else s
