-- ===== src/Jobs/Recovery.antt =====
-- internal/jobs/service_workers.go: the removal of a service's containers, its restart, and the jobs
-- `HealWorker` and `HealthCheckWorker`. The texts of errors and of the log are left out, and the services
-- for notifications are taken to be there.
use Prim.Native.String.{◌++◌}
use tidefly_plane.Prelude.{
  ℕ, ◌-◌, ℤ, String, Bool, true, false, not, ◌&&◌, ◌||◌, Option, none, some, List, [], ◌∷◌, Result,
  ok, err, ◌==◌, ltb, any, is_some, if◌then◌else◌, Dict, lookup, put, has_prefix,
}
use tidefly_plane.Manifest.Schema.{ServiceManifest}
use tidefly_plane.Manifest.Resolved.{ResolvedManifest}
use tidefly_plane.Manifest.Validate.{ManifestError}
use tidefly_plane.Manifest.Resolve.{resolve}
use tidefly_plane.Manifest.Adapter.{to_container_spec}
use tidefly_plane.Models.Service.{
  Service, ServiceStatus, running, restarting, failed, is_deploying, is_stopped,
}
use tidefly_plane.Runtime.Types.{Container, ContainerStatus, Spec, is_podman, needs_restart}
use tidefly_plane.Runtime.Engine.{
  Engine, State, info, error, list_containers, create_container, stop_and_delete, pause, save,
  notify,
}
use tidefly_plane.Reconciler.Diff.{service_label}
use tidefly_plane.Reconciler.BlueGreen.{proxy_network}

-- What the jobs ask for beyond the engine: a network, and the healing of a service by the worker that runs
-- it, `none` where that worker is not connected.
pub record JobEngine (W : Type 0) : Type 0 where
  pub engine : Engine W
  pub create_network : String → W → Option String × W
  pub send_heal : (worker_id : String) → W → Option (ResolvedManifest → Option String × W)

pub data JobError : Type 0 where
  no_manifest not_parsed not_created worker_refused list_failed : JobError
  not_resolved : ManifestError → JobError

-- Two seconds, and ten minutes, in milliseconds.
abbrev pub settle_time : ℕ
settle_time = 2000

abbrev pub deploy_timeout : ℕ
deploy_timeout = 600000

abbrev pub is_restarting : ServiceStatus → Bool
is_restarting restarting = true
is_restarting _ = false

abbrev pub is_running_service : ServiceStatus → Bool
is_running_service running = true
is_running_service _ = false

-- The test of `removeContainers`.
unfoldable pub is_of_service : String → Container → Bool
is_of_service name ct =
    service_label ct == name || (ct.name == name || has_prefix (name ++ "-") ct.name)

-- A container of the service that is not down.
unfoldable pub already_recovered : String → Option (List Container) → Bool
already_recovered name none = false
already_recovered name (some cs) =
    any (λ (ct : Container). service_label ct == name && not (needs_restart ct.status)) cs

unfoldable pub skips_heal : Service → Bool
skips_heal svc =
    svc.manifest_json == ""
    || (is_deploying svc.status || (is_stopped svc.status || is_restarting svc.status))

-- The map `running`: of several containers of one service the last counts.
unfoldable pub last_status : List Container → Dict ContainerStatus → Dict ContainerStatus
unfolding put
last_status [] m = m
last_status (ct ∷ cs) m =
    last_status cs (if service_label ct == "" then m else put (service_label ct) ct.status m)

-- What becomes of the row of a service.
pub data Fate : Type 0 where
  kept dropped : Fate

-- The query of the job.
unfoldable pub is_checked : Service → Bool
is_checked svc = svc.manifest_service && not (is_stopped svc.status || is_restarting svc.status)

abbrev pub keep_row : Fate → Service → List Service → List Service
keep_row kept svc rows = svc ∷ rows
keep_row dropped svc rows = rows

module _ {W : Type 0} (j : JobEngine W) where
  unfoldable pub remove_each : (Container → Bool) → List Container → State W → State W
  remove_each test [] s = s
  remove_each test (ct ∷ cs) s =
      remove_each test cs (if test ct then stop_and_delete j.engine ct.id s else s)

  unfoldable pub remove_seen : String → Option (List Container) → State W → State W
  unfolding remove_each is_of_service
  remove_seen name none s = s
  remove_seen name (some cs) s = remove_each (is_of_service name) cs s

  unfoldable pub remove_containers : String → State W → State W
  unfolding remove_seen
  remove_containers name s =
      let (found, seen) = list_containers j.engine s in remove_seen name found seen

  -- `ensureNetwork`, where its error is dropped.
  unfoldable pub make_network : String → State W → State W
  make_network name s = record s { world = (j.create_network name s.world).1 }

  abbrev pub created_or : Option String × State W → Option JobError × State W
  created_or (none, s) = (none, s)
  created_or (some text, s) = (some not_created, s)

  module _ (parse_duration : String → ℤ) (unmarshal : String → Option ServiceManifest)
      (order : List (String × ℕ)) where
    unfoldable pub restart_spec : Service → ResolvedManifest → Spec
    restart_spec svc resolved =
        let base =
          to_container_spec parse_duration resolved proxy_network (is_podman j.engine.type) in
        record base { labels = put "tidefly.service-id" svc.id base.labels }

    unfoldable pub restart_resolved :
        Result ManifestError ResolvedManifest → State W → Option JobError × State W
    unfolding make_network restart_spec
    restart_resolved (err why) s = (some (not_resolved why), s)
    restart_resolved (ok resolved) s =
        let ready = pause j.engine settle_time (make_network proxy_network s) in
        created_or (create_container j.engine (restart_spec s.svc resolved) ready)

    unfoldable pub restart_parsed : Option ServiceManifest → State W → Option JobError × State W
    unfolding restart_resolved
    restart_parsed none s = (some not_parsed, s)
    restart_parsed (some m) s = restart_resolved (resolve order m) s

    unfoldable pub restart_service : State W → Option JobError × State W
    unfolding remove_containers restart_parsed
    restart_service s =
        if s.svc.manifest_json == ""
        then (some no_manifest, s)
        else restart_parsed (unmarshal s.svc.manifest_json) (remove_containers s.svc.name s)

    -- The end of both jobs.
    unfoldable pub after_restart : Option JobError × State W → Option JobError × State W
    after_restart (none, s) =
        (none, notify info (save j.engine (record s.svc { status = running }) s))
    after_restart (some why, s) =
        (some why, notify error (save j.engine (record s.svc { status = failed }) s))

    unfoldable pub heal_local : (name : String) → State W → Option JobError × State W
    unfolding already_recovered restart_service after_restart
    heal_local name s =
        let (found, seen) = list_containers j.engine s in
        if already_recovered name found then (none, seen) else after_restart (restart_service seen)

    abbrev pub sent : State W → Option String × W → Option JobError × State W
    sent s (none, w) = (none, record s { world = w })
    sent s (some text, w) = (some worker_refused, record s { world = w })

    unfoldable pub heal_resolved :
        (ResolvedManifest → Option String × W)
        → Result ManifestError ResolvedManifest
        → State W
        → Option JobError × State W
    unfolding after_restart
    heal_resolved send (err why) s = (some (not_resolved why), s)
    heal_resolved send (ok resolved) s = after_restart (sent s (send resolved))

    unfoldable pub heal_remote :
        (ResolvedManifest → Option String × W)
        → Option ServiceManifest
        → State W
        → Option JobError × State W
    unfolding heal_resolved
    heal_remote send none s = (some not_parsed, s)
    heal_remote send (some m) s = heal_resolved send (resolve order m) s

    unfoldable pub heal_by :
        (name : String)
        → Option (ResolvedManifest → Option String × W)
        → State W
        → Option JobError × State W
    unfolding heal_local heal_remote
    heal_by name none s = heal_local name s
    heal_by name (some send) s = heal_remote send (unmarshal s.svc.manifest_json) s

    abbrev pub reachable_worker : Service → W → Option (ResolvedManifest → Option String × W)
    reachable_worker svc w = if svc.worker_id == "" then none else j.send_heal svc.worker_id w

    -- `HealWorker.Work` at the service that the query found under the job's name.
    unfoldable pub heal_work : (name : String) → State W → Option JobError × State W
    unfolding heal_by skips_heal
    heal_work name s =
        if skips_heal s.svc
        then (none, s)
        else let settled = pause j.engine settle_time s in
          heal_by name (reachable_worker settled.svc settled.world) settled

    unfoldable pub check_up : Option ContainerStatus → State W → Fate × State W
    unfolding restart_service after_restart
    check_up none s = (kept, (after_restart (restart_service s)).1)
    check_up (some status) s =
        if needs_restart status
        then (kept, (after_restart (restart_service s)).1)
        else if is_running_service s.svc.status
        then (kept, s)
        else (kept, save j.engine (record s.svc { status = running }) s)

    abbrev pub drop_if : Bool → State W → Fate × State W
    drop_if true s = (dropped, s)
    drop_if false s = (kept, s)

    unfoldable pub check_found : Option ContainerStatus → State W → Fate × State W
    unfolding check_up
    check_found status s =
        if s.svc.name == "" || s.svc.manifest_json == ""
        then drop_if (not (is_some status)) s
        else if is_deploying s.svc.status
        then drop_if
            (not (is_some status) && ltb deploy_timeout (j.engine.now s.world - s.svc.updated_at)) s
        else if is_restarting s.svc.status
        then (kept, s)
        else if not (s.svc.worker_id == "")
        then (kept, s)
        else check_up status s

    -- The body of the loop of `HealthCheckWorker.Work`.
    unfoldable pub check_service : Dict ContainerStatus → State W → Fate × State W
    unfolding lookup check_found
    check_service seen s = check_found (lookup s.svc.name seen) s

    unfoldable pub check_each :
        Dict ContainerStatus → List Service → State W → List Service × State W
    unfolding check_service is_checked
    check_each seen [] s = ([], s)
    check_each seen (svc ∷ rest) s =
        let (fate, after) =
          (if is_checked svc
            then check_service seen (record s { svc = svc })
            else (kept, record s { svc = svc })) in
        let (rows, last) = check_each seen rest after in (keep_row fate after.svc rows, last)

    abbrev pub check_listed :
        List Service → Option (List Container) × State W → Option JobError × List Service × State W
    check_listed services (none, s) = (some list_failed, services, s)
    check_listed services (some cs, s) =
        let (rows, last) = check_each (last_status cs []) services s in (none, rows, last)

    unfoldable pub health_check_work :
        List Service → State W → Option JobError × List Service × State W
    unfolding check_each last_status is_checked
    health_check_work services s = elim (any is_checked services) [
      | false ↦ (none, services, s)
      | true ↦ check_listed services (list_containers j.engine s)
    ]
