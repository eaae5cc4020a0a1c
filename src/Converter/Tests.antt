-- ===== src/Converter/Tests.antt =====
-- Runs of the converter, and theorems on it at one of them.
use tidefly_plane.Prelude.{pos, true, false, none, some, List, [], ◌∷◌, All, ◌≡◌, refl, Dict, ◌↔◌}
use tidefly_plane.Manifest.Schema.{ServiceManifest, BuildSpec}
use tidefly_plane.Manifest.Validate.{validate, validate_container, validate_scaling, validate_env}
use tidefly_plane.Converter.Input.{ConvertInput, Conversion}
use tidefly_plane.Converter.Compose.{
  ComposeService, Yaml, compose_manifest, convert_compose, first_container_port,
}
use tidefly_plane.Converter.Sources.{image_to_name, repo_to_name}
use tidefly_plane.Converter.Convert.{Readers, convert, convert_named}
use tidefly_plane.Converter.Accepted.{IsAccepted, IsDeployable, convert_compose-IsAccepted}
use tidefly_plane.Converter.Built.{IsReady, convert_named-IsReady}
use tidefly_plane.Converter.Nonempty.{convert_nonempty}

abbrev web : ComposeService
web = record {
  image = "nginx";
  ports = "8080:80/tcp" ∷ [];
  environment = Yaml.sequence (some "A=1" ∷ (none ∷ []));
  volumes = "data:/srv" ∷ [];
  restart = "unless-stopped";
  depends_on = Yaml.absent;
  healthcheck = none;
}

abbrev services : Dict ComposeService
services = ("web", web) ∷ (("tool", record web { restart = "no" }) ∷ [])

abbrev request : ConvertInput
request = record {
  type = "";
  manifest_json = "";
  image = "";
  compose_yaml = "y";
  stack_name = "shop";
  dockerfile = "";
  build_tag = "";
  git_url = "";
  branch = "";
  git_token = "";
  name = "";
  project_id = "";
  domain = "";
  port = pos 0;
  expose = false;
  env = [];
  replicas = pos 0;
  strategy = "";
}

abbrev readers : Readers
readers = record {
  read_kind = λ text. some "service";
  read_service = λ text. none;
  read_stack = λ text. none;
  read_compose = λ text. some services;
  clone = λ url branch token. none;
}

abbrev outcome : Conversion
outcome = record {
  manifests =
      compose_manifest "shop" request "web" web
      ∷ (compose_manifest "shop" request "tool" (record web { restart = "no" }) ∷ []);
  build_required = false;
  build_tag = "";
  build_context = none;
  dockerfile_path = "";
  inline_dockerfile = "";
  git_url = "";
  branch = "";
  git_token = "";
}

port_test : first_container_port web.ports ≡ pos 80
unfolding first_container_port
port_test = refl

-- The host of a registry with a port is taken for the name of the service.
registry_test : image_to_name "localhost:5000/app" ≡ "localhost"
unfolding image_to_name
registry_test = refl

repo_test : repo_to_name "https://git.example/acme/shop.git" ≡ "shop"
unfolding repo_to_name
repo_test = refl

-- Compose's own policy "no" is not accepted.
convert_compose-IsAccepted_example : All IsAccepted outcome.manifests ↔ All IsDeployable services
unfolding convert_compose
convert_compose-IsAccepted_example =
    convert_compose-IsAccepted readers.read_compose request {services = services} {r = outcome} refl
      refl

convert_nonempty_example :
    (m : ServiceManifest) × (rest : List ServiceManifest) × (outcome.manifests ≡ m ∷ rest)
unfolding convert
convert_nonempty_example = convert_nonempty readers request {r = outcome} refl

abbrev recipe : BuildSpec
recipe = record {
  context = "";
  dockerfile = "";
  dockerfile_inline = "FROM scratch";
  target = "";
  build_args = [];
}

abbrev app : ServiceManifest
app = record (compose_manifest "shop" request "app" web) {
  spec = record (compose_manifest "shop" request "app" web).spec {
    container = record (compose_manifest "shop" request "app" web).spec.container {
      image = "";
      build = some recipe;
    };
  };
}

abbrev app_built : ServiceManifest
app_built = record app {
  spec = record app.spec {
    container = record app.spec.container {
      image = "localhost/tidefly/shop-app:latest";
      build = none;
    };
  };
}

abbrev app_outcome : Conversion
app_outcome = record outcome {
  manifests = app_built ∷ [];
  build_required = true;
  build_tag = "localhost/tidefly/shop-app:latest";
  dockerfile_path = "Dockerfile";
  inline_dockerfile = "FROM scratch";
}

convert_named-IsReady_example : All IsReady app_outcome.manifests
unfolding validate validate_container validate_scaling validate_env convert_named compose_manifest
convert_named-IsReady_example =
    convert_named-IsReady readers request app {r = app_outcome} refl refl
