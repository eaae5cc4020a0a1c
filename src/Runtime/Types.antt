-- ===== src/Runtime/Types.antt =====
-- internal/infra/runtime/runtime.go and events.go: containers, specifications, events, statuses. The
-- fields of a container that no modelled code reads (state, creation, ports, mounts) are left out.
use tidefly_plane.Prelude.{ℤ, String, Bool, true, false, Option, List, Dict}

pub data RuntimeType : Type 0 where
  docker podman : RuntimeType

abbrev pub is_podman : RuntimeType → Bool
is_podman docker = false
is_podman podman = true

pub data ContainerStatus : Type 0 where
  running stopped paused exited dead restarting created unknown : ContainerStatus

abbrev pub is_running : ContainerStatus → Bool
is_running running = true
is_running _ = false

pub record Container : Type 0 where
  pub id : String
  pub name : String
  pub image : String
  pub status : ContainerStatus
  pub labels : Dict String
  pub networks : List String

pub record VolumeMount : Type 0 where
  pub name : String
  pub mount : String

pub record PortBinding : Type 0 where
  pub host_port : String
  pub container_port : ℤ
  pub protocol : String

-- A duration is a number of nanoseconds.
pub record Healthcheck : Type 0 where
  pub test : List String
  pub interval : ℤ
  pub timeout : ℤ
  pub retries : ℤ
  pub start_period : ℤ

pub record Spec : Type 0 where
  pub name : String
  pub image : String
  pub env : List String
  pub ports : List PortBinding
  pub volumes : List VolumeMount
  pub labels : Dict String
  pub healthcheck : Option Healthcheck
  pub restart : String
  pub command : String
  pub network : String

pub data EventType : Type 0 where
  start stop die kill restart pause unpause destroy create oom other : EventType

pub record ContainerEvent : Type 0 where
  pub type : EventType
  pub container_id : String
  pub name : String
  pub image : String
  pub status : ContainerStatus
  pub labels : Dict String

-- Whether the self-healing job restarts a container in this state.
unfoldable pub needs_restart : ContainerStatus → Bool
needs_restart exited = true
needs_restart dead = true
needs_restart stopped = true
needs_restart _ = false

unfoldable pub event_to_status : EventType → ContainerStatus
event_to_status start = running
event_to_status unpause = running
event_to_status restart = running
event_to_status pause = paused
event_to_status stop = exited
event_to_status kill = exited
event_to_status die = exited
event_to_status oom = exited
event_to_status create = created
event_to_status _ = stopped
