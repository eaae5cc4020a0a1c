-- ===== src/Converter/Convert.antt =====
-- internal/converter/converter.go and handler_input.go: which source a request has, and what its manifest is.
-- The decoders of JSON and YAML and the clone of a repository are arguments, in the record `Readers`.
use tidefly_plane.Prelude.{
  ℤ, String, Bool, true, not, Option, none, some, List, [], ◌∷◌, Result, ok, err, guard, ◌>>=◌,
  ◌>>◌, Dict, ◌==◌, if◌then◌else◌, pos,
}
use tidefly_plane.Manifest.Schema.{
  ServiceManifest, BuildSpec, EnvVar, Metadata, is_git_context, git_url,
}
use tidefly_plane.Converter.Input.{
  ConvertInput, Conversion, ConvertError, no_source_type, unsupported_type, compose_required,
  name_required, bad_json, source_manifest, source_stack, source_image, source_compose,
  source_dockerfile, source_git, unbuilt,
}
use tidefly_plane.Converter.Compose.{ComposeService, decoded, convert_compose}
use tidefly_plane.Converter.Sources.{
  Repo, convert_image, convert_dockerfile, convert_git, build_git_context, local_tag, image_to_name,
  repo_to_name,
}

-- internal/manifest/schema.go, `StackManifest` with its `StackSpec`
pub record StackManifest : Type 0 where
  pub metadata : Metadata
  pub compose : String
  pub domain : String
  pub expose : Bool

pub record Readers : Type 0 where
  pub read_kind : String → Option String
  pub read_service : String → Option ServiceManifest
  pub read_stack : String → Option StackManifest
  pub read_compose : String → Option (Dict ComposeService)
  pub clone : (url branch token : String) → Option Repo

unfoldable pub detect_type : ConvertInput → String
detect_type input =
    if not (input.manifest_json == "")
    then source_manifest
    else if not (input.git_url == "")
    then source_git
    else if not (input.compose_yaml == "")
    then source_compose
    else if not (input.dockerfile == "")
    then source_dockerfile
    else if not (input.image == "")
    then source_image
    else ""

pub record BuildParams : Type 0 where
  pub build_tag : String
  pub build_context : Option String
  pub dockerfile_path : String
  pub inline_dockerfile : String
  pub git_url : String
  pub branch : String

-- A build without a context of its own.
abbrev pub params_of : (tag path inline : String) → BuildParams
params_of tag path inline = record {
  build_tag = tag;
  build_context = none;
  dockerfile_path = path;
  inline_dockerfile = inline;
  git_url = "";
  branch = "";
}

module _ (readers : Readers) where
  unfoldable pub resolve_build_spec :
      (name : String) → BuildSpec → (token : String) → Result ConvertError BuildParams
  unfolding local_tag is_git_context git_url build_git_context
  resolve_build_spec name b token =
      let tag = local_tag name in
      let path = if b.dockerfile == "" then "Dockerfile" else b.dockerfile in
      let (url, branch) = git_url b in
      if not (b.dockerfile_inline == "")
      then ok (params_of tag path b.dockerfile_inline)
      else if is_git_context b
      then (build_git_context readers.clone url branch token >>= λ archive.
          ok (record (params_of tag path "") {
            build_context = some archive;
            git_url = url;
            branch = branch;
          }))
      else ok (params_of tag path "")

  -- The build was resolved: its tag becomes the image of the manifest.
  unfoldable pub with_build : ServiceManifest → (token : String) → BuildParams → Conversion
  unfolding unbuilt
  with_build m token p =
      record (unbuilt (
        record m {
          spec = record m.spec {
            container = record m.spec.container { image = p.build_tag; build = none };
          };
        }
        ∷ [])) {
          build_required = true;
          build_tag = p.build_tag;
          build_context = p.build_context;
          dockerfile_path = p.dockerfile_path;
          inline_dockerfile = p.inline_dockerfile;
          git_url = p.git_url;
          branch = p.branch;
          git_token = token;
        }

  unfoldable pub convert_build :
      ServiceManifest → (token : String) → Option BuildSpec → Result ConvertError Conversion
  unfolding resolve_build_spec with_build unbuilt
  convert_build m token none = ok (unbuilt (m ∷ []))
  convert_build m token (some b) =
      resolve_build_spec m.metadata.name b token >>= λ p. ok (with_build m token p)

  unfoldable pub convert_named : ConvertInput → ServiceManifest → Result ConvertError Conversion
  unfolding convert_build
  convert_named input m =
      guard (not (m.metadata.name == "")) name_required
      >> convert_build m input.git_token m.spec.container.build

  unfoldable pub convert_service_manifest : ConvertInput → Result ConvertError Conversion
  unfolding convert_named
  convert_service_manifest input =
      decoded bad_json (readers.read_service input.manifest_json) >>= convert_named input

  -- The input that a stack's manifest stands for.
  unfoldable pub stack_input : StackManifest → ConvertInput
  stack_input sm = record {
    type = source_compose;
    manifest_json = "";
    image = "";
    compose_yaml = sm.compose;
    stack_name = sm.metadata.name;
    dockerfile = "";
    build_tag = "";
    git_url = "";
    branch = "";
    git_token = "";
    name = sm.metadata.name;
    project_id = "";
    domain = sm.domain;
    port = pos 0;
    expose = sm.expose;
    env = [];
    replicas = pos 0;
    strategy = "";
  }

  unfoldable pub convert_stack_manifest : ConvertInput → Result ConvertError Conversion
  unfolding stack_input convert_compose
  convert_stack_manifest input =
      decoded bad_json (readers.read_stack input.manifest_json) >>= λ (sm : StackManifest).
      guard (not (sm.compose == "")) compose_required
      >> convert_compose readers.read_compose (stack_input sm)

  unfoldable pub convert_manifest : ConvertInput → Result ConvertError Conversion
  unfolding convert_service_manifest convert_stack_manifest
  convert_manifest input = decoded bad_json (readers.read_kind input.manifest_json) >>= λ kind.
      if kind == "stack" then convert_stack_manifest input else convert_service_manifest input

  -- The switch over the type.
  unfoldable pub convert_as : (type : String) → ConvertInput → Result ConvertError Conversion
  unfolding convert_manifest convert_compose convert_image convert_dockerfile convert_git
  convert_as type input =
      if type == source_manifest
      then convert_manifest input
      else if type == source_stack
      then convert_compose readers.read_compose input
      else if type == source_image
      then convert_image input
      else if type == source_compose
      then convert_compose readers.read_compose input
      else if type == source_dockerfile
      then convert_dockerfile input
      else if type == source_git
      then convert_git readers.clone readers.read_compose input
      else err (unsupported_type type)

  unfoldable pub convert : ConvertInput → Result ConvertError Conversion
  unfolding detect_type convert_as
  convert input =
      let type = if input.type == "" then detect_type input else input.type in
      guard (not (type == "")) no_source_type >> convert_as type (record input { type = type })

-- internal/converter/handler_input.go: the body of a request.
pub record ApiInput : Type 0 where
  pub manifest_json : String
  pub image : String
  pub compose_yaml : String
  pub dockerfile : String
  pub git_url : String
  pub name : String
  pub stack_name : String
  pub project_id : String
  pub domain : String
  pub port : ℤ
  pub expose : Bool
  pub branch : String
  pub git_integration_id : String
  pub env : List EnvVar
  pub replicas : ℤ
  pub strategy : String

unfoldable pub to_convert_input : ApiInput → (git_token : String) → ConvertInput
to_convert_input a token = record {
  type = "";
  manifest_json = a.manifest_json;
  image = a.image;
  compose_yaml = a.compose_yaml;
  stack_name = a.stack_name;
  dockerfile = a.dockerfile;
  build_tag = "";
  git_url = a.git_url;
  branch = a.branch;
  git_token = token;
  name = a.name;
  project_id = a.project_id;
  domain = a.domain;
  port = a.port;
  expose = a.expose;
  env = a.env;
  replicas = a.replicas;
  strategy = a.strategy;
}

unfoldable pub service_name : ApiInput → String
unfolding image_to_name repo_to_name
service_name a =
    if not (a.name == "")
    then a.name
    else if not (a.manifest_json == "")
    then ""
    else if not (a.image == "")
    then image_to_name a.image
    else if not (a.git_url == "")
    then repo_to_name a.git_url
    else "service"
