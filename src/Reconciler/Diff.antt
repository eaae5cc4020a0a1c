-- ===== src/Reconciler/Diff.antt =====
-- internal/reconciler/reconciler.go: which action a service needs (`diff` and its helpers).
use tidefly_plane.Prelude.{
  ℕ, suc, ◌-◌, ℤ, pos, ltb_ℤ, String, ◌&&◌, List, [], ◌∷◌, select, get, ◌==◌, ltb, nat_eq,
  if◌then◌else◌,
}
use tidefly_plane.Models.Service.{Service, has_image_drift, is_deploying}
use tidefly_plane.Manifest.Resolved.{ResolvedManifest}
use tidefly_plane.Runtime.Types.{Container, is_running}

-- Ten minutes, in milliseconds.
abbrev pub stuck_deploy_after : ℕ
stuck_deploy_after = 600000

pub data Action : Type 0 where
  noop heal scale_up scale_down update redeploy : Action

pub data Reason : Type 0 where
  none no_running_containers stuck_deploying : Reason
  digest_changed : String → String → Reason
  replicas_below replicas_above : ℕ → ℤ → Reason

pub record Delta : Type 0 where
  pub service_id : String
  pub service_name : String
  pub action : Action
  pub reason : Reason

abbrev pub service_label : Container → String
service_label ct = get "tidefly.service" ct.labels

unfoldable pub count_running : List Container → ℕ
count_running [] = 0
count_running (ct ∷ cs) =
    let rest = count_running cs in if is_running ct.status then suc rest else rest

-- The map `indexByService` builds: the containers under a service's name, in order.
unfoldable pub index_by_service : List Container → String → List Container
index_by_service cs name =
    if name == "" then [] else select (λ (ct : Container). service_label ct == name) cs

abbrev pub desired_replicas : ResolvedManifest → ℤ
desired_replicas r = if ltb_ℤ r.scaling.replicas (pos 1) then pos 1 else r.scaling.replicas

abbrev pub delta : Service → Action → Reason → Delta
delta svc action reason = record {
  service_id = svc.id;
  service_name = svc.name;
  action = action;
  reason = reason;
}

-- The clock's reading is an argument.
unfoldable pub diff : ℕ → Service → ResolvedManifest → List Container → Delta
diff now svc resolved actual =
    let desired = desired_replicas resolved in
    let running = count_running actual in
    if nat_eq running 0
    then delta svc heal no_running_containers
    else if has_image_drift svc
    then delta svc update (digest_changed svc.deployed_digest svc.remote_digest)
    else if ltb_ℤ (pos running) desired
    then delta svc scale_up (replicas_below running desired)
    else if ltb_ℤ desired (pos running)
    then delta svc scale_down (replicas_above running desired)
    else if is_deploying svc.status && ltb stuck_deploy_after (now - svc.updated_at)
    then delta svc heal stuck_deploying
    else delta svc noop Reason.none
