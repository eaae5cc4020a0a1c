-- ===== src/Manifest/Validity.antt =====
-- What a valid manifest is, said without the code's order of checks.
use tidefly_plane.Prelude.{
  ℕ, suc, ◌≡◌, ◌≢◌, ◌↔◌, ◌⊎◌, inl, inr, ◌≤ℤ◌, String, true, false, Option, none, some, List, [],
  ◌∷◌, All, ok, ◌==◌, eq_iff, arith, Bool-cases,
}
use tidefly_plane.Manifest.Schema.{
  ServiceManifest, BuildSpec, ContainerSpec, AutoscalingSpec, ScalingSpec, EnvVar, git_url,
}
use tidefly_plane.Manifest.Validate.{
  validate, validate_container, validate_scaling, validate_autoscaling, validate_env,
  validate_build, validate_source, is_restart, is_strategy, is_metric,
}
use tidefly_plane.Manifest.Resolve.{resolve, fill}
use text.Mathlib.TextLemmas.{append-eq-nil_iff}

abbrev pub IsRestart : String → Type 0
IsRestart s = (s ≡ "always") ⊎ ((s ≡ "on-failure") ⊎ ((s ≡ "never") ⊎ (s ≡ "")))

abbrev pub IsStrategy : String → Type 0
IsStrategy s = (s ≡ "rolling") ⊎ ((s ≡ "recreate") ⊎ ((s ≡ "blue-green") ⊎ (s ≡ "")))

abbrev pub IsMetric : String → Type 0
IsMetric s = (s ≡ "cpu") ⊎ ((s ≡ "memory") ⊎ (s ≡ "requests"))

-- There is a build, with something to build from.
abbrev pub HasBuild : Option BuildSpec → Type 0
HasBuild none = ⊥
HasBuild (some b) = (b.dockerfile_inline ≢ "") ⊎ (b.context ≢ "")

-- An image, or a build; never both.
abbrev pub IsSource : ContainerSpec → Type 0
IsSource c = ((c.image ≢ "") × (c.build ≡ none)) ⊎ ((c.image ≡ "") × HasBuild c.build)

abbrev pub IsAutoscaling : Option AutoscalingSpec → Type 0
IsAutoscaling none = Unit
IsAutoscaling (some a) = a.enabled ≡ true → IsMetric a.metric × (a.min ≤ℤ a.max)

abbrev pub IsScaling : Option ScalingSpec → Type 0
IsScaling none = Unit
IsScaling (some s) = IsRestart s.restart × IsStrategy s.strategy × IsAutoscaling s.autoscaling

abbrev pub IsEnv : EnvVar → Type 0
IsEnv e = (e.value ≡ "") ⊎ (e.secret ≡ "")

pub record IsValid (m : ServiceManifest) : Type 0 where
  pub version : m.api_version ≡ "tidefly/v1"
  pub kind : m.kind ≡ "service"
  pub named : m.metadata.name ≢ ""
  pub source : IsSource m.spec.container
  pub scaling : IsScaling m.spec.scaling
  pub env : All IsEnv m.spec.container.env

-- `git_url` puts "https://" in front, so its URL is never empty.
pub git_url_nonempty : (b : BuildSpec) → ((git_url b).0 == "") ≡ false
unfolding git_url
git_url_nonempty b = elim (Bool-cases ((git_url b).0 == "")) [
  | inl empty ↦
      let (scheme, _) = append-eq-nil_iff.0 ((eq_iff (git_url b).0 "").0 empty) in
      ground (arith, eq_iff "https://" "")
  | inr e ↦ e
]

validate_env_iff : (i : ℕ) (env : List EnvVar) → (validate_env i env ≡ ok tt) ↔ All IsEnv env
unfolding validate_env
validate_env_iff i [] = ground arith
validate_env_iff i (e ∷ env) =
    ground (arith, validate_env_iff (suc i) env, eq_iff e.value "", eq_iff e.secret "")

IsRestart-iff : (s : String) → (is_restart s ≡ true) ↔ IsRestart s
IsRestart-iff s =
    ground (arith, eq_iff s "always", eq_iff s "on-failure", eq_iff s "never", eq_iff s "")

IsStrategy-iff : (s : String) → (is_strategy s ≡ true) ↔ IsStrategy s
IsStrategy-iff s =
    ground (arith, eq_iff s "rolling", eq_iff s "recreate", eq_iff s "blue-green", eq_iff s "")

IsMetric-iff : (s : String) → (is_metric s ≡ true) ↔ IsMetric s
IsMetric-iff s = ground (arith, eq_iff s "cpu", eq_iff s "memory", eq_iff s "requests")

validate_autoscaling_iff :
    (a : Option AutoscalingSpec) → (validate_autoscaling a ≡ ok tt) ↔ IsAutoscaling a
unfolding validate_autoscaling
validate_autoscaling_iff none = ground arith
validate_autoscaling_iff (some a) = ground (arith, IsMetric-iff a.metric)

validate_scaling_iff : (s : Option ScalingSpec) → (validate_scaling s ≡ ok tt) ↔ IsScaling s
unfolding validate_scaling
validate_scaling_iff none = ground arith
validate_scaling_iff (some s) = ground (
  arith,
  validate_autoscaling_iff s.autoscaling,
  IsRestart-iff s.restart,
  IsStrategy-iff s.strategy,
)

validate_build_iff :
    (b : BuildSpec) → (validate_build b ≡ ok tt) ↔ ((b.dockerfile_inline ≢ "") ⊎ (b.context ≢ ""))
unfolding validate_build
validate_build_iff b =
    ground (arith, git_url_nonempty b, eq_iff b.dockerfile_inline "", eq_iff b.context "")

build_cases :
    (image : String) (build : Option BuildSpec)
    → (validate_source image build ≡ ok tt)
      ↔ (((image ≢ "") × (build ≡ none)) ⊎ ((image ≡ "") × HasBuild build))
unfolding validate_source
build_cases image none = ground (arith, eq_iff image "")
build_cases image (some b) = ground (arith, eq_iff image "", validate_build_iff b)

validate_container_iff : (c : ContainerSpec) → (validate_container c ≡ ok tt) ↔ IsSource c
unfolding validate_container
validate_container_iff c = build_cases c.image c.build

-- `validate` accepts exactly the valid manifests.
pub validate_iff : (m : ServiceManifest) → (validate m ≡ ok tt) ↔ IsValid m
unfolding validate
validate_iff m = ground (
  arith,
  eq_iff m.api_version "tidefly/v1",
  eq_iff m.kind "service",
  eq_iff m.metadata.name "",
  validate_container_iff m.spec.container,
  validate_scaling_iff m.spec.scaling,
  validate_env_iff 0 m.spec.container.env,
)

-- A manifest is resolved exactly where it is valid, whatever the order in which Go walks its table
-- of ports; and then into what `fill` builds.
pub resolve_iff :
    (order : List (String × ℕ)) (m : ServiceManifest)
    → (resolve order m ≡ ok (fill order m)) ↔ IsValid m
unfolding resolve
resolve_iff order m = ground (arith, validate_iff m)
