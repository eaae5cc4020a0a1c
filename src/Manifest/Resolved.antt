-- ===== src/Manifest/Resolved.antt =====
-- internal/manifest/resolver.go: the manifest with all its defaults filled in.
use tidefly_plane.Prelude.{ℕ, ℤ, pos, String, Bool, true, Option, List, [], ◌∷◌, Dict}
use tidefly_plane.Manifest.Schema.{EnvVar, VolumeSpec, ResourceSpec}

pub record ResolvedBuild : Type 0 where
  pub tag : String
  pub is_git : Bool
  pub git_url : String
  pub branch : String
  pub dockerfile_path : String
  pub dockerfile_inline : String
  pub build_args : Dict String
  pub target : String

pub record ResolvedContainer : Type 0 where
  pub image : String
  pub env : List EnvVar
  pub volumes : List VolumeSpec
  pub resources : Option ResourceSpec

pub record ResolvedExpose : Type 0 where
  pub port : ℤ
  pub domain : String
  pub tls : Bool
  pub www : Bool

pub record ResolvedHealth : Type 0 where
  pub test : List String
  pub http : String
  pub tcp : Bool
  pub interval : String
  pub timeout : String
  pub retries : ℤ
  pub startup_grace : String

pub record ResolvedAutoscaling : Type 0 where
  pub enabled : Bool
  pub metric : String
  pub target : ℤ
  pub min : ℤ
  pub max : ℤ

pub record ResolvedScaling : Type 0 where
  pub replicas : ℤ
  pub restart : String
  pub restart_delay : String
  pub max_restarts : ℤ
  pub strategy : String
  pub autoscaling : ResolvedAutoscaling

pub record ResolvedAlerts : Type 0 where
  pub on_crash : Bool
  pub on_deploy : Bool
  pub webhook : String

pub record ResolvedMaintenance : Type 0 where
  pub restart_cron : String

pub record ResolvedManifest : Type 0 where
  pub name : String
  pub namespace : String
  pub labels : Dict String
  pub container : ResolvedContainer
  pub expose : ResolvedExpose
  pub health : ResolvedHealth
  pub scaling : ResolvedScaling
  pub depends_on : List String
  pub alerts : ResolvedAlerts
  pub maintenance : ResolvedMaintenance
  pub build : Option ResolvedBuild

pub record Defaults : Type 0 where
  pub namespace : String
  pub tls : Bool
  pub interval : String
  pub timeout : String
  pub retries : ℤ
  pub startup_grace : String
  pub restart : String
  pub restart_delay : String
  pub strategy : String
  pub replicas : ℤ
  pub auto_metric : String
  pub auto_target : ℤ
  pub auto_min : ℤ
  pub auto_max : ℤ
  pub fallback_port : ℤ

abbrev pub defaults : Defaults
defaults = record {
  namespace = "default";
  tls = true;
  interval = "10s";
  timeout = "3s";
  retries = pos 3;
  startup_grace = "10s";
  restart = "always";
  restart_delay = "5s";
  strategy = "rolling";
  replicas = pos 1;
  auto_metric = "cpu";
  auto_target = pos 70;
  auto_min = pos 1;
  auto_max = pos 5;
  fallback_port = pos 8080;
}

-- The entries of the Go map `knownPorts`, whose iteration order the language leaves open.
abbrev pub known_ports : List (String × ℕ)
known_ports =
    ("traefik/whoami", 80)
    ∷ ("nginx", 80)
    ∷ ("httpd", 80)
    ∷ ("caddy", 80)
    ∷ ("postgres", 5432)
    ∷ ("redis", 6379)
    ∷ ("mysql", 3306)
    ∷ ("mariadb", 3306)
    ∷ ("mongo", 27017)
    ∷ ("grafana/grafana", 3000)
    ∷ ("minio/minio", 9000)
    ∷ ("rabbitmq", 5672)
    ∷ []
