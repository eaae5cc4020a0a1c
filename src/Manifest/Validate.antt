-- ===== src/Manifest/Validate.antt =====
-- internal/manifest/resolver.go, `validate`: what a manifest must satisfy before it is resolved.
use tidefly_plane.Prelude.{
  ℕ, suc, ℤ, ltb_ℤ, String, Bool, not, ◌&&◌, ◌||◌, Option, none, some, List, [], ◌∷◌, Result, ok,
  ◌>>◌, guard, ◌==◌, is_some, if◌then◌else◌,
}
use tidefly_plane.Manifest.Schema.{
  ServiceManifest, BuildSpec, ContainerSpec, AutoscalingSpec, ScalingSpec, EnvVar, is_git_context,
  git_url,
}

-- One constructor for each message.
pub data ManifestError : Type 0 where
  unsupported_api_version : String → ManifestError
  unsupported_kind : String → ManifestError
  name_required : ManifestError
  image_or_build_required : ManifestError
  image_and_build_exclusive : ManifestError
  build_without_context : ManifestError
  git_url_invalid : ManifestError
  invalid_restart_policy : String → ManifestError
  invalid_strategy : String → ManifestError
  invalid_metric : String → ManifestError
  min_above_max : ℤ → ℤ → ManifestError
  value_and_secret : ℕ → String → ManifestError

abbrev pub Checked : Type 0
Checked = Result ManifestError (Unit {0})

abbrev pub is_restart : String → Bool
is_restart s = s == "always" || (s == "on-failure" || (s == "never" || s == ""))

abbrev pub is_strategy : String → Bool
is_strategy s = s == "rolling" || (s == "recreate" || (s == "blue-green" || s == ""))

abbrev pub is_metric : String → Bool
is_metric s = s == "cpu" || (s == "memory" || s == "requests")

unfoldable pub validate_build : BuildSpec → Checked
validate_build b = do
  guard (not (b.dockerfile_inline == "") || not (b.context == "")) build_without_context
  guard (not (is_git_context b && (git_url b).0 == "")) git_url_invalid

unfoldable pub validate_build_of : Option BuildSpec → Checked
unfolding validate_build
validate_build_of none = ok tt
validate_build_of (some b) = validate_build b

unfoldable pub validate_source : String → Option BuildSpec → Checked
unfolding validate_build_of
validate_source image build = do
  guard (not (image == "") || is_some build) image_or_build_required
  guard (not (not (image == "") && is_some build)) image_and_build_exclusive
  validate_build_of build

unfoldable pub validate_container : ContainerSpec → Checked
unfolding validate_source
validate_container c = validate_source c.image c.build

unfoldable pub validate_autoscaling : Option AutoscalingSpec → Checked
validate_autoscaling none = ok tt
validate_autoscaling (some a) =
    if a.enabled
    then guard (is_metric a.metric) (invalid_metric a.metric)
      >> guard (not (ltb_ℤ a.max a.min)) (min_above_max a.min a.max)
    else ok tt

unfoldable pub validate_scaling : Option ScalingSpec → Checked
unfolding validate_autoscaling
validate_scaling none = ok tt
validate_scaling (some s) = do
  guard (is_restart s.restart) (invalid_restart_policy s.restart)
  guard (is_strategy s.strategy) (invalid_strategy s.strategy)
  validate_autoscaling s.autoscaling

-- The loop over the variables, from index `i`.
unfoldable pub validate_env : ℕ → List EnvVar → Checked
validate_env i [] = ok tt
validate_env i (e ∷ env) = do
  guard (not (not (e.value == "") && not (e.secret == ""))) (value_and_secret i e.name)
  validate_env (suc i) env

unfoldable pub validate : ServiceManifest → Checked
validate m = do
  guard (m.api_version == "tidefly/v1") (unsupported_api_version m.api_version)
  guard (m.kind == "service") (unsupported_kind m.kind)
  guard (not (m.metadata.name == "")) name_required
  validate_container m.spec.container
  validate_scaling m.spec.scaling
  validate_env 0 m.spec.container.env
