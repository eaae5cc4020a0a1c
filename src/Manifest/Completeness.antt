-- ===== src/Manifest/Completeness.antt =====
-- Every default has been filled in: what `Resolve` guarantees of its result.
use Prim.Native.Nat.{◌<◌}
use tidefly_plane.Prelude.{
  ℕ, ◌≡◌, ◌≢◌, ◌⊎◌, pos, ◌≤ℤ◌, ◌<ℤ◌, String, true, some, List, lookup, length, false, All,
  before_first,
}
use tidefly_plane.Manifest.Schema.{ServiceManifest, ExposeSpec}
use tidefly_plane.Manifest.Resolved.{
  ResolvedManifest, ResolvedScaling, ResolvedAutoscaling, ResolvedHealth,
}
use tidefly_plane.Manifest.Validity.{IsMetric}
use mathlib.Core.List.{Memᴰ}
use tidefly_plane.Manifest.Ports.{Fits}
use tidefly_plane.Manifest.Resolve.{port_matches}

pub record IsAutoscaled (a : ResolvedAutoscaling) : Type 0 where
  pub metric : IsMetric a.metric
  pub target : pos 0 <ℤ a.target
  pub least : pos 0 <ℤ a.min
  pub ordered : a.min ≤ℤ a.max

pub record IsScaled (s : ResolvedScaling) : Type 0 where
  pub replicas : pos 0 <ℤ s.replicas
  pub restart : (s.restart ≡ "always") ⊎ ((s.restart ≡ "on-failure") ⊎ (s.restart ≡ "never"))
  pub strategy :
      (s.strategy ≡ "rolling") ⊎ ((s.strategy ≡ "recreate") ⊎ (s.strategy ≡ "blue-green"))
  pub delay : s.restart_delay ≢ ""
  pub autoscaling : s.autoscaling.enabled ≡ true → IsAutoscaled s.autoscaling

pub record IsProbed (h : ResolvedHealth) : Type 0 where
  pub probe : (0 < length h.test) ⊎ ((h.http ≢ "") ⊎ (h.tcp ≡ true))
  pub retries : pos 0 <ℤ h.retries
  pub interval : h.interval ≢ ""
  pub timeout : h.timeout ≢ ""
  pub startup_grace : h.startup_grace ≢ ""

pub record IsComplete (r : ResolvedManifest) : Type 0 where
  pub named : r.name ≢ ""
  pub namespace : r.namespace ≢ ""
  pub labelled : lookup "tidefly.service" r.labels ≡ some r.name
  pub image : r.container.image ≢ ""
  pub health : IsProbed r.health
  pub scaling : IsScaled r.scaling

-- The port is the one that the manifest gives, or that of an entry of the table that fits the image, or
-- 8080 where it gives none and no entry fits; without a part `expose` the route has TLS.
pub record IsExposed (order : List (String × ℕ)) (m : ServiceManifest) (r : ResolvedManifest)
    : Type 0 where
  pub port :
      ((e : ExposeSpec) × (m.spec.expose ≡ some e) × (e.port ≢ pos 0) × (r.expose.port ≡ e.port))
      ⊎ (((e : String × ℕ) × Memᴰ e order × Fits r.container.image e × (r.expose.port ≡ pos e.1))
          ⊎ (All
                (λ (e : String × ℕ). port_matches (before_first b':' r.container.image) e.0 ≡ false)
                order
              × (r.expose.port ≡ pos 8080)))
  pub secured : ((e : ExposeSpec) × (m.spec.expose ≡ some e)) ⊎ (r.expose.tls ≡ true)
