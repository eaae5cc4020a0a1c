-- ===== src/Agent/Messages.antt =====
-- What a worker answers: the messages of internal/agent/proto/agent.proto that
-- internal/agent/server.go reads. A float64 is never computed with and stands for its bits.
use tidefly_plane.Prelude.{ℕ, String, Bool, List, Dict}

abbrev pub Float : Type 0
Float = ℕ

pub record Container : Type 0 where
  pub id : String
  pub name : String
  pub image : String
  pub status : String
  pub state : String
  pub created : ℕ
  pub labels : Dict String

pub record AgentHello : Type 0 where
  pub agent_version : String
  pub os : String
  pub arch : String
  pub runtime_type : String
  pub hostname : String

pub record AgentHeartbeat : Type 0 where
  pub timestamp : ℕ
  pub container_count : ℕ
  pub cpu_percent : Float
  pub mem_percent : Float

pub record ContainerLogsResult : Type 0 where
  pub command_id : String
  pub container_id : String
  pub line : String
  pub is_stderr : Bool
  pub timestamp : ℕ

pub record MetricsResult : Type 0 where
  pub cpu_percent : Float
  pub mem_used_mb : Float
  pub mem_total_mb : Float
  pub disk_used_gb : Float
  pub disk_total_gb : Float
  pub net_rx_mb : Float
  pub net_tx_mb : Float

-- `DeployResult` and `HealResult`
pub record DeployResult : Type 0 where
  pub success : Bool
  pub container_id : String
  pub error : String

pub record ScaleResult : Type 0 where
  pub success : Bool
  pub replicas : ℕ
  pub error : String

-- The dynamic types of a value in the `result` channel of a pending command; `empty` is `struct{}{}`.
pub data Reply : Type 0 where
  empty : Reply
  container_list : List Container → Reply
  metrics : MetricsResult → Reply
  deploy_result : DeployResult → Reply
  heal_result : DeployResult → Reply
  scale_result : ScaleResult → Reply

-- The payload of an `AgentMessage`; the replies to commands carry the command's id beside them.
pub data AgentMessage : Type 0 where
  hello : AgentHello → AgentMessage
  heartbeat : AgentHeartbeat → AgentMessage
  command_ack : (command_id : String) → (accepted : Bool) → (reason : String) → AgentMessage
  container_logs : ContainerLogsResult → AgentMessage
  result : (command_id : String) → Reply → AgentMessage
  error : (command_id code message : String) → AgentMessage
