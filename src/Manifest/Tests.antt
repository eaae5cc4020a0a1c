-- ===== src/Manifest/Tests.antt =====
-- Concrete manifests for internal/manifest, and theorems at one of them.
use tidefly_plane.Prelude.{
  ◌≡◌, refl, ◌↔◌, pos, true, none, [], ◌∷◌, ok, before_first, cut_last, cut_first, drop_text,
  strip_prefix, strip_suffix, contains,
}
use tidefly_plane.Manifest.Schema.{ServiceManifest, BuildSpec, git_url}
use tidefly_plane.Manifest.Resolved.{known_ports}
use tidefly_plane.Manifest.Validity.{IsValid, resolve_iff}
use tidefly_plane.Manifest.Resolve.{resolve, fill, detect_port}
use tidefly_plane.Manifest.Adapter.{qualify_image}

abbrev pub database : ServiceManifest
database = record {
  api_version = "tidefly/v1";
  kind = "service";
  metadata = record { name = "db"; namespace = ""; labels = [] };
  spec = record {
    container = record {
      image = "postgres:16";
      build = none;
      env = record { name = "POSTGRES_DB"; value = "app"; secret = "" } ∷ [];
      volumes = record { name = "data"; mount_path = "/var/lib" } ∷ [];
      resources = none;
    };
    expose = none;
    health = none;
    scaling = none;
    depends_on = [];
    alerts = none;
    maintenance = none;
  };
}

abbrev from_git : BuildSpec
from_git = record {
  context = "git://github.com/acme/app#dev";
  dockerfile = "";
  dockerfile_inline = "";
  target = "";
  build_args = [];
}

git_url_test : git_url from_git ≡ ("https://github.com/acme/app", "dev")
unfolding git_url cut_last drop_text
git_url_test = refl

detect_port_test : detect_port known_ports "postgres:16" ≡ pos 5432
unfolding detect_port before_first strip_prefix strip_suffix
detect_port_test = refl

qualify_image_test : qualify_image "acme/app" true ≡ "docker.io/acme/app"
unfolding qualify_image cut_first contains
qualify_image_test = refl

resolve_iff_example :
    (resolve known_ports database ≡ ok (fill known_ports database)) ↔ IsValid database
resolve_iff_example = resolve_iff known_ports database
