-- ===== src/Converter/Input.antt =====
-- internal/converter/converter.go and constants.go: what is converted and what comes of it. The texts of
-- errors are constructors; a buffer with an archive is a text.
use tidefly_plane.Prelude.{
  ℤ, String, Bool, true, false, not, ◌||◌, Option, none, some, List, ◌==◌, is_positive,
  if◌then◌else◌, pos, eq_ℤ,
}
use tidefly_plane.Manifest.Schema.{ServiceManifest, EnvVar, ExposeSpec, ScalingSpec}

abbrev pub api_version : String
api_version = "tidefly/v1"

abbrev pub kind_service : String
kind_service = "service"

-- The values of Go's type `SourceType`, which is a string.
abbrev pub source_manifest : String
source_manifest = "manifest"

abbrev pub source_stack : String
source_stack = "stack"

abbrev pub source_image : String
source_image = "image"

abbrev pub source_compose : String
source_compose = "compose"

abbrev pub source_dockerfile : String
source_dockerfile = "dockerfile"

abbrev pub source_git : String
source_git = "git"

pub record ConvertInput : Type 0 where
  pub type : String
  pub manifest_json : String
  pub image : String
  pub compose_yaml : String
  pub stack_name : String
  pub dockerfile : String
  pub build_tag : String
  pub git_url : String
  pub branch : String
  pub git_token : String
  pub name : String
  pub project_id : String
  pub domain : String
  pub port : ℤ
  pub expose : Bool
  pub env : List EnvVar
  pub replicas : ℤ
  pub strategy : String

pub record Conversion : Type 0 where
  pub manifests : List ServiceManifest
  pub build_required : Bool
  pub build_tag : String
  pub build_context : Option String
  pub dockerfile_path : String
  pub inline_dockerfile : String
  pub git_url : String
  pub branch : String
  pub git_token : String

pub data ConvertError : Type 0 where
  no_source_type image_required compose_required no_services nothing_deployable : ConvertError
  dockerfile_required name_required git_url_required no_build_found : ConvertError
  bad_yaml bad_json clone_failed tar_failed : ConvertError
  unsupported_type : String → ConvertError

-- A conversion that needs no build.
unfoldable pub unbuilt : List ServiceManifest → Conversion
unbuilt ms = record {
  manifests = ms;
  build_required = false;
  build_tag = "";
  build_context = none;
  dockerfile_path = "";
  inline_dockerfile = "";
  git_url = "";
  branch = "";
  git_token = "";
}

-- `if input.Expose || input.Domain != ""`
unfoldable pub input_expose : ConvertInput → Option ExposeSpec
input_expose input =
    if input.expose || not (input.domain == "")
    then some (record { port = input.port; domain = input.domain; tls = true; www = false })
    else none

-- `if input.Replicas > 0 || input.Strategy != ""`
unfoldable pub input_scaling : ConvertInput → Option ScalingSpec
input_scaling input =
    if is_positive input.replicas || not (input.strategy == "")
    then some (record {
      replicas = if eq_ℤ input.replicas (pos 0) then pos 1 else input.replicas;
      restart = "always";
      restart_delay = "";
      max_restarts = pos 0;
      strategy = input.strategy;
      autoscaling = none;
    })
    else none
