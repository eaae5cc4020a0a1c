-- ===== src/Manifest/Resolve.antt =====
-- internal/manifest/resolver.go: `Resolve` fills in the defaults of a valid manifest. The order in
-- which Go walks the map `knownPorts` is an argument.
use Prim.Native.String.{◌++◌}
use tidefly_plane.Prelude.{
  ℕ, ℤ, pos, eq_ℤ, is_positive, String, Bool, true, false, ◌&&◌, ◌||◌, Option, none, some, List, [],
  ◌∷◌, put, Result, ok, ◌>>=◌, ◌==◌, if◌then◌else◌, before_first, has_prefix, has_suffix, length,
  nat_eq,
}
use tidefly_plane.Manifest.Schema.{
  ServiceManifest, BuildSpec, ContainerSpec, ExposeSpec, HealthSpec, AutoscalingSpec, ScalingSpec,
  AlertSpec, MaintenanceSpec, is_git_context, git_url,
}
use tidefly_plane.Manifest.Resolved.{
  ResolvedManifest, ResolvedBuild, ResolvedExpose, ResolvedHealth, ResolvedScaling,
  ResolvedAutoscaling, ResolvedAlerts, ResolvedMaintenance, defaults,
}
use tidefly_plane.Manifest.Validate.{ManifestError, validate}

-- `or` of resolver.go: the first argument unless it is empty.
abbrev pub or_default : String → String → String
or_default a b = if a == "" then b else a

-- `if n > 0 { n } else { d }`
abbrev pub positive_or : ℤ → ℤ → ℤ
positive_or n d = if is_positive n then n else d

-- The test of one entry in `detectPort`.
unfoldable pub port_matches : String → String → Bool
port_matches base known =
    base == known || (has_prefix (known ++ "/") base || has_suffix ("/" ++ known) base)

unfoldable pub first_port : String → List (String × ℕ) → ℤ
unfolding port_matches
first_port base [] = defaults.fallback_port
first_port base ((known, port) ∷ more) =
    if port_matches base known then pos port else first_port base more

unfoldable pub detect_port : List (String × ℕ) → String → ℤ
unfolding first_port
detect_port order image = first_port (before_first b':' image) order

unfoldable pub resolve_build : String → BuildSpec → ResolvedBuild
resolve_build service_name b =
    let is_git = is_git_context b in
    let source : String × String = if is_git then git_url b else ("", "") in
    record {
      tag = "localhost/tidefly/" ++ service_name ++ ":latest";
      is_git = is_git;
      git_url = source.0;
      branch = source.1;
      dockerfile_path = or_default b.dockerfile "Dockerfile";
      dockerfile_inline = b.dockerfile_inline;
      build_args = b.build_args;
      target = b.target;
    }

unfoldable pub resolve_build_of : String → Option BuildSpec → Option ResolvedBuild
unfolding resolve_build
resolve_build_of name none = none
resolve_build_of name (some b) = some (resolve_build name b)

abbrev pub image_of : ContainerSpec → Option ResolvedBuild → String
image_of c none = c.image
image_of c (some b) = b.tag

abbrev pub given_expose : Option ExposeSpec → ResolvedExpose
given_expose none = record { port = pos 0; domain = ""; tls = defaults.tls; www = false }
given_expose (some e) = record { port = e.port; domain = e.domain; tls = e.tls; www = e.www }

unfoldable pub resolve_expose : List (String × ℕ) → String → Option ExposeSpec → ResolvedExpose
resolve_expose order image spec =
    let e = given_expose spec in
    record e { port = if eq_ℤ e.port (pos 0) then detect_port order image else e.port }

abbrev pub given_health : Option HealthSpec → ResolvedHealth
given_health none = record {
  test = [];
  http = "";
  tcp = false;
  interval = defaults.interval;
  timeout = defaults.timeout;
  retries = defaults.retries;
  startup_grace = defaults.startup_grace;
}
given_health (some h) = record {
  test = h.test;
  http = h.http;
  tcp = h.tcp;
  interval = or_default h.interval defaults.interval;
  timeout = or_default h.timeout defaults.timeout;
  retries = positive_or h.retries defaults.retries;
  startup_grace = or_default (or_default h.startup_grace h.start_period) defaults.startup_grace;
}

unfoldable pub resolve_health : Option HealthSpec → ResolvedHealth
resolve_health spec =
    let h = given_health spec in
    if nat_eq (length h.test) 0 && h.http == "" then record h { tcp = true } else h

unfoldable pub resolve_autoscaling : Option AutoscalingSpec → ResolvedAutoscaling
resolve_autoscaling none = record {
  enabled = false;
  metric = defaults.auto_metric;
  target = defaults.auto_target;
  min = defaults.auto_min;
  max = defaults.auto_max;
}
resolve_autoscaling (some a) = record {
  enabled = a.enabled;
  metric = or_default a.metric defaults.auto_metric;
  target = positive_or a.target defaults.auto_target;
  min = positive_or a.min defaults.auto_min;
  max = positive_or a.max defaults.auto_max;
}

unfoldable pub resolve_scaling : Option ScalingSpec → ResolvedScaling
unfolding resolve_autoscaling
resolve_scaling none = record {
  replicas = defaults.replicas;
  restart = defaults.restart;
  restart_delay = defaults.restart_delay;
  max_restarts = pos 0;
  strategy = defaults.strategy;
  autoscaling = resolve_autoscaling none;
}
resolve_scaling (some s) = record {
  replicas = positive_or s.replicas defaults.replicas;
  restart = or_default s.restart defaults.restart;
  restart_delay = or_default s.restart_delay defaults.restart_delay;
  max_restarts = s.max_restarts;
  strategy = or_default s.strategy defaults.strategy;
  autoscaling = resolve_autoscaling s.autoscaling;
}

unfoldable pub resolve_alerts : Option AlertSpec → ResolvedAlerts
resolve_alerts none = record { on_crash = true; on_deploy = false; webhook = "" }
resolve_alerts (some a) = record {
  on_crash = a.on_crash;
  on_deploy = a.on_deploy;
  webhook = a.webhook;
}

unfoldable pub resolve_maintenance : Option MaintenanceSpec → ResolvedMaintenance
resolve_maintenance none = record { restart_cron = "" }
resolve_maintenance (some s) = record { restart_cron = s.restart_cron }

-- What `Resolve` builds once `validate` has passed.
unfoldable pub fill : List (String × ℕ) → ServiceManifest → ResolvedManifest
unfolding resolve_build_of resolve_expose resolve_health resolve_scaling resolve_alerts
    resolve_maintenance
fill order m =
    let name = m.metadata.name in
    let c = m.spec.container in
    let build = resolve_build_of name c.build in
    let image = image_of c build in
    record {
      name = name;
      namespace = or_default m.metadata.namespace defaults.namespace;
      labels = put "tidefly.service" name m.metadata.labels;
      container = record {
        image = image;
        env = c.env;
        volumes = c.volumes;
        resources = c.resources;
      };
      expose = resolve_expose order image m.spec.expose;
      health = resolve_health m.spec.health;
      scaling = resolve_scaling m.spec.scaling;
      depends_on = m.spec.depends_on;
      alerts = resolve_alerts m.spec.alerts;
      maintenance = resolve_maintenance m.spec.maintenance;
      build = build;
    }

unfoldable pub resolve : List (String × ℕ) → ServiceManifest → Result ManifestError ResolvedManifest
unfolding fill
resolve order m = validate m >>= λ _. ok (fill order m)
