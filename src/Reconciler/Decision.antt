-- ===== src/Reconciler/Decision.antt =====
-- What `diff` of internal/reconciler/reconciler.go decides, and what it never decides.
use tidefly_plane.Prelude.{ℕ, ◌-◌, ◌≤◌, pos, true, false, List, ◌≡◌, ◌≢◌, ◌↔◌, ◌⊎◌, arith}
use tidefly_plane.Manifest.Resolved.{ResolvedManifest}
use tidefly_plane.Models.Service.{Service, has_image_drift, is_deploying}
use tidefly_plane.Runtime.Types.{Container}
use tidefly_plane.Reconciler.Diff.{
  noop, stuck_deploying, count_running, desired_replicas, diff, stuck_deploy_after,
}
use tidefly_plane.Reconciler.Actions.{is_queried}

-- The service runs as its manifest wants it.
abbrev pub Converged : ℕ → Service → ResolvedManifest → List Container → Type 0
Converged now svc resolved actual =
    (pos (count_running actual) ≡ desired_replicas resolved)
    × (has_image_drift svc ≡ false)
    × ((is_deploying svc.status ≡ false) ⊎ (now - svc.updated_at ≤ stuck_deploy_after))

-- The reconciler leaves a service alone exactly when the wanted number of its containers runs, no
-- image drift is recorded, and it is not in the status of a deployment for more than ten minutes.
pub diff_noop_iff :
    (now : ℕ) (svc : Service) (resolved : ResolvedManifest) (actual : List Container)
    → ((diff now svc resolved actual).action ≡ noop) ↔ Converged now svc resolved actual
unfolding diff
diff_noop_iff now svc resolved actual = (λ h. ground arith, λ c. ground arith)

-- A service that the reconciler's own query selects is never healed because its deployment is stuck.
pub diff_never_stuck :
    (now : ℕ) (svc : Service) (resolved : ResolvedManifest) (actual : List Container)
    → is_queried svc ≡ true
    → (diff now svc resolved actual).reason ≢ stuck_deploying
unfolding diff
diff_never_stuck now svc resolved actual selected stuck = ground arith
