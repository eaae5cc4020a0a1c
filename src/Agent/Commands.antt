-- ===== src/Agent/Commands.antt =====
-- What the plane asks of a worker: the payloads of `PlaneMessage` in internal/agent/proto/agent.proto that
-- internal/agent/client.go builds. An int32 that the plane sends is a number that fits.
use tidefly_plane.Prelude.{ℕ, String, Bool, List, Dict, Option}
use tidefly_plane.Agent.Messages.{Float}

pub record PortSpec : Type 0 where
  pub container_port : ℕ
  pub host_port : ℕ
  pub protocol : String

pub record ResourceLimits : Type 0 where
  pub memory_bytes : ℕ
  pub cpu_shares : Float

pub record VolumeMount : Type 0 where
  pub source : String
  pub target : String
  pub read_only : Bool

-- `CmdDeploy`, and `DeployRequest` of client.go
pub record Deployment : Type 0 where
  pub project_id : String
  pub service_name : String
  pub image : String
  pub env : List String
  pub ports : List PortSpec
  pub labels : Dict String
  pub limits : Option ResourceLimits
  pub volumes : List VolumeMount
  pub network : String

pub data Command : Type 0 where
  list_containers_command : Command
  start_container_command : (container_id : String) → Command
  stop_container_command : (container_id : String) → (timeout_sec : ℕ) → Command
  restart_container_command : (container_id : String) → Command
  remove_container_command : (container_id : String) → (force : Bool) → Command
  stream_logs_command : (container_id : String) → (follow : Bool) → (tail_lines : ℕ) → Command
  deploy_command : Deployment → Command
  collect_metrics_command : Command
  register_route_command : (upstream domain : String) → (tls : Bool) → Command
  remove_route_command : (domain : String) → Command
  heal_command : (service_name reason : String) → Option Deployment → Command
  blue_green_command :
      (service_name current_slot domain : String)
      → (port : ℕ) → (tls : Bool) → Option Deployment
      → Command
  rolling_update_command : (service_name : String) → (replicas : ℕ) → Option Deployment → Command
  autoscale_command :
      (service_name : String) → (current_replicas target_replicas : ℕ) → Option Deployment → Command

pub record PlaneMessage : Type 0 where
  pub command_id : String
  pub worker_id : String
  pub payload : Command
