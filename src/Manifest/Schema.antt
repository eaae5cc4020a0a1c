-- ===== src/Manifest/Schema.antt =====
-- internal/manifest/schema.go: the service definition that a user submits. A pointer that may be
-- nil is an `Option`, and a nil slice or map is an empty one: the code tells neither pair apart.
use Prim.Native.String.{◌++◌}
use tidefly_plane.Prelude.{
  ℕ, ℤ, String, Bool, false, not, Option, none, some, List, Dict, strip_prefix, drop_text, cut_last,
  ◌==◌,
}

pub record Metadata : Type 0 where
  pub name : String
  pub namespace : String
  pub labels : Dict String

pub record BuildSpec : Type 0 where
  pub context : String
  pub dockerfile : String
  pub dockerfile_inline : String
  pub target : String
  pub build_args : Dict String

pub record EnvVar : Type 0 where
  pub name : String
  pub value : String
  pub secret : String

pub record VolumeSpec : Type 0 where
  pub name : String
  pub mount_path : String

pub record ResourceSpec : Type 0 where
  pub memory : String
  pub cpu : String
  pub memory_limit : String
  pub cpu_limit : String

pub record ContainerSpec : Type 0 where
  pub image : String
  pub build : Option BuildSpec
  pub env : List EnvVar
  pub volumes : List VolumeSpec
  pub resources : Option ResourceSpec

pub record ExposeSpec : Type 0 where
  pub port : ℤ
  pub domain : String
  pub tls : Bool
  pub www : Bool

pub record HealthSpec : Type 0 where
  pub test : List String
  pub http : String
  pub tcp : Bool
  pub interval : String
  pub timeout : String
  pub retries : ℤ
  pub startup_grace : String
  pub start_period : String

pub record AutoscalingSpec : Type 0 where
  pub enabled : Bool
  pub metric : String
  pub target : ℤ
  pub min : ℤ
  pub max : ℤ

pub record ScalingSpec : Type 0 where
  pub replicas : ℤ
  pub restart : String
  pub restart_delay : String
  pub max_restarts : ℤ
  pub strategy : String
  pub autoscaling : Option AutoscalingSpec

pub record AlertSpec : Type 0 where
  pub on_crash : Bool
  pub on_deploy : Bool
  pub webhook : String

pub record MaintenanceSpec : Type 0 where
  pub restart_cron : String

pub record ServiceSpec : Type 0 where
  pub container : ContainerSpec
  pub expose : Option ExposeSpec
  pub health : Option HealthSpec
  pub scaling : Option ScalingSpec
  pub depends_on : List String
  pub alerts : Option AlertSpec
  pub maintenance : Option MaintenanceSpec

pub record ServiceManifest : Type 0 where
  pub api_version : String
  pub kind : String
  pub metadata : Metadata
  pub spec : ServiceSpec

-- The first six bytes are "git://" and there are more of them.
unfoldable pub is_git_context : BuildSpec → Bool
is_git_context b = elim (strip_prefix "git://" b.context) [
  | none ↦ false
  | some rest ↦ not (rest == "")
]

-- The parts before and after the last separator; "main" where there is none.
unfoldable pub split_last : String → ℕ → String × String
split_last s sep = elim (cut_last sep s) [ none ↦ (s, "main") | some parts ↦ parts ]

-- The URL and the branch.
unfoldable pub git_url : BuildSpec → String × String
unfolding split_last
git_url b =
    let (repo, branch) = split_last (drop_text 6 b.context) b'#' in ("https://" ++ repo, branch)
