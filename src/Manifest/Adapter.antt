-- ===== src/Manifest/Adapter.antt =====
-- internal/manifest/adapter.go: from a resolved manifest to the specification of a container.
-- Go's `time.ParseDuration` is an argument; its error is dropped, as the code drops it.
use Prim.Native.Char.{Char}
use Prim.Native.String.{◌++◌}
use tidefly_plane.Prelude.{
  ℕ, zero, suc, ◌/◌, ◌%◌, ℤ, pos, negsuc, is_positive, String, Bool, true, false, not, ◌||◌, Option,
  none, some, List, [], ◌∷◌, map, Dict, put, ◌==◌, if◌then◌else◌, cut_first, contains, length,
  nat_eq,
}
use tidefly_plane.Manifest.Schema.{EnvVar, VolumeSpec}
use tidefly_plane.Manifest.Resolved.{ResolvedManifest, ResolvedHealth, ResolvedBuild}
use tidefly_plane.Runtime.Types.{Healthcheck, Spec, VolumeMount}

-- `byte('0' + d)`, for a digit `d`.
unfoldable pub digit_char : ℕ → Char
digit_char zero = "0"
digit_char (suc zero) = "1"
digit_char (suc (suc zero)) = "2"
digit_char (suc (suc (suc zero))) = "3"
digit_char (suc (suc (suc (suc zero)))) = "4"
digit_char (suc (suc (suc (suc (suc zero))))) = "5"
digit_char (suc (suc (suc (suc (suc (suc zero)))))) = "6"
digit_char (suc (suc (suc (suc (suc (suc (suc zero))))))) = "7"
digit_char (suc (suc (suc (suc (suc (suc (suc (suc zero)))))))) = "8"
digit_char _ = "9"

-- The loop `for n > 0`, on fuel; each round puts a digit in front of the buffer.
unfoldable pub digits : ℕ → ℕ → String → String
unfolding digit_char
digits zero n buf = buf
digits (suc fuel) n buf =
    let more = digits fuel (n / 10) (String.◌∷◌ (digit_char (n % 10)) buf) in
    if nat_eq n 0 then buf else more

unfoldable pub itoa : ℤ → String
itoa (pos n) = if nat_eq n 0 then "0" else digits (suc n) n ""
itoa (negsuc n) = "-" ++ digits (suc (suc n)) (suc n) ""

unfoldable pub map_restart_policy : String → String
map_restart_policy r =
    if r == "always"
    then "unless-stopped"
    else if r == "on-failure"
    then "on-failure"
    else if r == "never"
    then "no"
    else "unless-stopped"

-- The first part of the image names a registry.
abbrev pub is_registry : String → Bool
is_registry first = contains b'.' first || (contains b':' first || first == "localhost")

abbrev pub has_registry : Option (String × String) → Bool
has_registry none = false
has_registry (some (first, rest)) = is_registry first

unfoldable pub qualify_image : String → Bool → String
qualify_image image false = image
qualify_image image true =
    if has_registry (cut_first b'/' image) then image else "docker.io/" ++ image

abbrev pub env_entry : EnvVar → String
env_entry e = e.name ++ "=" ++ e.value

abbrev pub volume_mount : VolumeSpec → VolumeMount
volume_mount v = record { name = v.name; mount = v.mount_path }

unfoldable pub source_labels : ResolvedBuild → Dict String → Dict String
source_labels b labels =
    if b.is_git
    then put "tidefly.dockerfile-path" b.dockerfile_path (
        put "tidefly.git-branch" b.branch
          (put "tidefly.git-url" b.git_url (put "tidefly.source" "git" labels)))
    else if not (b.dockerfile_inline == "")
    then put "tidefly.source" "dockerfile" labels
    else labels

unfoldable pub build_labels : Option ResolvedBuild → Dict String → Dict String
unfolding source_labels
build_labels none labels = labels
build_labels (some b) labels = put "tidefly.build-tag" b.tag (source_labels b labels)

unfoldable pub spec_labels : ResolvedManifest → Dict String
unfolding build_labels itoa
spec_labels r =
    let domain =
      if r.expose.domain == "" then r.labels else put "tidefly.domain" r.expose.domain r.labels in
    build_labels r.build (put "tidefly.port" (itoa r.expose.port) domain)

unfoldable pub local_url : ℤ → String
unfolding itoa
local_url port = if is_positive port then "http://localhost:" ++ itoa port else "http://localhost"

unfoldable pub health_test : ResolvedHealth → ℤ → List String
unfolding local_url
health_test h port =
    if not (nat_eq (length h.test) 0)
    then h.test
    else if not (h.http == "")
    then "CMD-SHELL" ∷ ("wget -qO- " ++ (local_url port ++ h.http) ++ " || exit 1") ∷ []
    else "CMD-SHELL" ∷ ("nc -z localhost " ++ itoa port ++ " || exit 1") ∷ []

module _ (parse_duration : String → ℤ) where
  unfoldable pub to_healthcheck : ResolvedHealth → ℤ → Healthcheck
  unfolding health_test
  to_healthcheck h port = record {
    test = health_test h port;
    interval = parse_duration h.interval;
    timeout = parse_duration h.timeout;
    retries = h.retries;
    start_period = parse_duration h.startup_grace;
  }

  unfoldable pub to_container_spec : ResolvedManifest → String → Bool → Spec
  unfolding to_healthcheck spec_labels map_restart_policy qualify_image
  to_container_spec r network podman = record {
    name = r.name;
    image = qualify_image r.container.image podman;
    env = map env_entry r.container.env;
    ports = [];
    volumes = map volume_mount r.container.volumes;
    labels = spec_labels r;
    healthcheck = some (to_healthcheck r.health r.expose.port);
    restart = map_restart_policy r.scaling.restart;
    command = "";
    network = network;
  }
