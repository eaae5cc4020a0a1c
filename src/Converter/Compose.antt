-- ===== src/Converter/Compose.antt =====
-- internal/converter/compose.go: a Compose file becomes a manifest for each service with an image. The YAML
-- decoder is an argument; it gives the services in the order in which Go walks their map.
use Prim.Native.String.{◌++◌}
use tidefly_plane.Prelude.{
  ℤ, pos, String, Bool, true, false, not, ◌&&◌, ◌||◌, Option, none, some, List, [], ◌∷◌, Result, ok,
  err, guard, ◌>>=◌, ◌>>◌, Dict, ◌==◌, cut_first, before_first, has_prefix, strip_prefix,
  if◌then◌else◌, map,
}
use tidefly_plane.Prelude.Split.{split, last_part, atoi}
use tidefly_plane.Manifest.Schema.{ServiceManifest, EnvVar, VolumeSpec, ExposeSpec, HealthSpec}
use tidefly_plane.Converter.Input.{
  ConvertInput, Conversion, ConvertError, compose_required, no_services, nothing_deployable,
  bad_yaml, api_version, kind_service, source_compose, unbuilt,
}

-- A field of Go's type `any`: absent, a list whose items may be no strings, a map in the order in which Go
-- walks it, whose values may be nil and are else given by their text, or something else.
pub data Yaml : Type 0 where
  absent other : Yaml
  sequence : List (Option String) → Yaml
  mapping : Dict (Option String) → Yaml

pub record ComposeHealthcheck : Type 0 where
  pub test : List String
  pub interval : String
  pub timeout : String
  pub retries : ℤ

pub record ComposeService : Type 0 where
  pub image : String
  pub ports : List String
  pub environment : Yaml
  pub volumes : List String
  pub restart : String
  pub depends_on : Yaml
  pub healthcheck : Option ComposeHealthcheck

abbrev pub plain : (name value : String) → EnvVar
plain name value = record { name = name; value = value; secret = "" }

abbrev pub env_item : Option (String × String) → (whole : String) → EnvVar
env_item none whole = plain whole ""
env_item (some (name, value)) whole = plain name value

unfoldable pub env_items : List (Option String) → List EnvVar
unfolding cut_first
env_items [] = []
env_items (none ∷ items) = env_items items
env_items (some s ∷ items) = env_item (cut_first b'=' s) s ∷ env_items items

abbrev pub env_pair : String × Option String → EnvVar
env_pair (key, none) = plain key ""
env_pair (key, some value) = plain key value

unfoldable pub parse_compose_env : Yaml → List EnvVar
unfolding env_items
parse_compose_env (sequence items) = env_items items
parse_compose_env (mapping pairs) = map env_pair pairs
parse_compose_env absent = []
parse_compose_env other = []

abbrev pub volume_name : (stack name : String) → String
volume_name stack name = if has_prefix "/" name then name else stack ++ "_" ++ name

abbrev pub volume_of :
    (stack : String) → Option (String × String) → List VolumeSpec → List VolumeSpec
volume_of stack none rest = rest
volume_of stack (some (name, path)) rest =
    record { name = volume_name stack name; mount_path = path } ∷ rest

unfoldable pub parse_compose_volumes : List String → (stack : String) → List VolumeSpec
unfolding cut_first strip_prefix
parse_compose_volumes [] stack = []
parse_compose_volumes (v ∷ vs) stack =
    volume_of stack (cut_first b':' v) (parse_compose_volumes vs stack)

unfoldable pub texts : List (Option String) → List String
texts [] = []
texts (none ∷ items) = texts items
texts (some s ∷ items) = s ∷ texts items

unfoldable pub parse_compose_depends_on : Yaml → List String
unfolding texts
parse_compose_depends_on (sequence items) = texts items
parse_compose_depends_on (mapping pairs) = map (λ (p : String × Option String). p.0) pairs
parse_compose_depends_on absent = []
parse_compose_depends_on other = []

-- The first port that is a number, of the last parts of the entries.
unfoldable pub first_container_port : List String → ℤ
unfolding split last_part before_first atoi
first_container_port [] = pos 0
first_container_port (p ∷ ps) = elim (atoi (before_first b'/' (last_part (split b':' p)))) [
  | none ↦ first_container_port ps
  | some n ↦ n
]

unfoldable pub compose_restart : String → String
compose_restart r = if r == "" || (r == "unless-stopped" || r == "on-failure") then "always" else r

abbrev pub is_empty {ℓ} : {A : Type ℓ} → List A → Bool
is_empty [] = true
is_empty (x ∷ xs) = false

unfoldable pub compose_expose : ConvertInput → List String → Option ExposeSpec
unfolding first_container_port
compose_expose input ports =
    if input.expose && not (is_empty ports)
    then some (record {
      port = first_container_port ports;
      domain = input.domain;
      tls = true;
      www = false;
    })
    else none

unfoldable pub compose_health : Option ComposeHealthcheck → Option HealthSpec
compose_health none = none
compose_health (some h) =
    if is_empty h.test
    then none
    else some (record {
      test = [];
      http = "";
      tcp = false;
      interval = h.interval;
      timeout = h.timeout;
      retries = h.retries;
      startup_grace = "";
      start_period = "";
    })

unfoldable pub compose_stack_name : ConvertInput → String
compose_stack_name input =
    let name = if input.stack_name == "" then input.name else input.stack_name in
    if name == "" then "stack" else name

unfoldable pub compose_manifest :
    (stack : String) → ConvertInput → (name : String) → ComposeService → ServiceManifest
unfolding parse_compose_env parse_compose_volumes parse_compose_depends_on compose_restart
    compose_expose compose_health
compose_manifest stack input name svc = record {
  api_version = api_version;
  kind = kind_service;
  metadata = record {
    name = stack ++ "-" ++ name;
    namespace = "";
    labels =
        ("tidefly.source", source_compose)
        ∷ (("tidefly.stack", stack) ∷ (("tidefly.stack-svc", name) ∷ []));
  };
  spec = record {
    container = record {
      image = svc.image;
      build = none;
      env = parse_compose_env svc.environment;
      volumes = parse_compose_volumes svc.volumes stack;
      resources = none;
    };
    expose = compose_expose input svc.ports;
    health = compose_health svc.healthcheck;
    scaling = some (record {
      replicas = pos 1;
      restart = compose_restart svc.restart;
      restart_delay = "";
      max_restarts = pos 0;
      strategy = "rolling";
      autoscaling = none;
    });
    depends_on = parse_compose_depends_on svc.depends_on;
    alerts = none;
    maintenance = none;
  };
}

-- The loop over the services; one without an image is skipped.
unfoldable pub compose_manifests :
    (stack : String) → ConvertInput → Dict ComposeService → List ServiceManifest
unfolding compose_manifest
compose_manifests stack input [] = []
compose_manifests stack input ((name, svc) ∷ services) =
    let rest = compose_manifests stack input services in
    if svc.image == "" then rest else compose_manifest stack input name svc ∷ rest

abbrev pub decoded {ℓ} : {A : Type ℓ} → ConvertError → Option A → Result ConvertError A
decoded why none = err why
decoded why (some a) = ok a

unfoldable pub convert_services :
    ConvertInput → Dict ComposeService → Result ConvertError Conversion
unfolding compose_manifests compose_stack_name unbuilt
convert_services input services =
    let ms = compose_manifests (compose_stack_name input) input services in
    guard (not (is_empty services)) no_services
    >> guard (not (is_empty ms)) nothing_deployable
    >> ok (unbuilt ms)

unfoldable pub convert_compose :
    (String → Option (Dict ComposeService)) → ConvertInput → Result ConvertError Conversion
unfolding convert_services
convert_compose yaml input =
    guard (not (input.compose_yaml == "")) compose_required
    >> (decoded bad_yaml (yaml input.compose_yaml) >>= convert_services input)
