-- ===== src/Agent/Client.antt =====
-- internal/agent/client.go: the commands to a worker and what is made of its reply. A whole call of
-- `WorkerConn.Send` over a connection is the argument `send`; Agent/Conn has its two halves. The fresh id
-- of a command is the argument `id`.
use tidefly_plane.Prelude.{
  ℕ, String, Bool, true, false, Option, none, some, List, Result, ok, err, ◌>>=◌, if◌then◌else◌,
}
use tidefly_plane.Agent.Messages.{
  Container, MetricsResult, DeployResult, Reply, empty, container_list, metrics, deploy_result,
  heal_result, scale_result,
}
use tidefly_plane.Agent.Commands.{Deployment, Command, PlaneMessage}
use tidefly_plane.Agent.Conn.{SendError, WorkerConn, Stuck, stream_logs, close_log_stream}
use tidefly_plane.Agent.Registry.{Registry, get_conn}

pub data ClientError : Type 0 where
  not_connected unexpected_type : ClientError
  send_failed : SendError → ClientError
  refused_by_worker : String → ClientError

abbrev pub connected_at : Option ℕ → Result ClientError ℕ
connected_at none = err not_connected
connected_at (some k) = ok k

-- `Client.conn`
unfoldable pub client_conn : String → Registry → Result ClientError ℕ
unfolding get_conn
client_conn worker_id r = connected_at (get_conn worker_id r)

abbrev pub sent_over : Result SendError Reply → Result ClientError Reply
sent_over (ok r) = ok r
sent_over (err e) = err (send_failed e)

-- The type assertions on a reply.
unfoldable pub containers_of : Reply → Result ClientError (List Container)
containers_of (container_list cs) = ok cs
containers_of empty = err unexpected_type
containers_of (metrics m) = err unexpected_type
containers_of (deploy_result d) = err unexpected_type
containers_of (heal_result d) = err unexpected_type
containers_of (scale_result s) = err unexpected_type

unfoldable pub metrics_of : Reply → Result ClientError MetricsResult
metrics_of (metrics m) = ok m
metrics_of empty = err unexpected_type
metrics_of (container_list cs) = err unexpected_type
metrics_of (deploy_result d) = err unexpected_type
metrics_of (heal_result d) = err unexpected_type
metrics_of (scale_result s) = err unexpected_type

unfoldable pub deployed_of : Reply → Result ClientError DeployResult
deployed_of (deploy_result d) = if d.success then ok d else err (refused_by_worker d.error)
deployed_of empty = err unexpected_type
deployed_of (container_list cs) = err unexpected_type
deployed_of (metrics m) = err unexpected_type
deployed_of (heal_result d) = err unexpected_type
deployed_of (scale_result s) = err unexpected_type

-- The check of `SendHeal` and of `SendBlueGreen`.
unfoldable pub healed_of : Reply → Result ClientError (Unit {0})
healed_of (heal_result d) = if d.success then ok tt else err (refused_by_worker d.error)
healed_of empty = ok tt
healed_of (container_list cs) = ok tt
healed_of (metrics m) = ok tt
healed_of (deploy_result d) = ok tt
healed_of (scale_result s) = ok tt

-- The check of `SendRollingUpdate` and of `SendAutoscale`.
unfoldable pub scaled_of : Reply → Result ClientError (Unit {0})
scaled_of (scale_result s) = if s.success then ok tt else err (refused_by_worker s.error)
scaled_of empty = ok tt
scaled_of (container_list cs) = ok tt
scaled_of (metrics m) = ok tt
scaled_of (deploy_result d) = ok tt
scaled_of (heal_result d) = ok tt

abbrev pub any_reply : Reply → Result ClientError (Unit {0})
any_reply r = ok tt

module _ (send : ℕ → PlaneMessage → Result SendError Reply) (r : Registry)
    (id worker_id : String) where
  abbrev pub ask : Command → Result ClientError Reply
  ask command = client_conn worker_id r >>= λ k.
      sent_over (send k (record { command_id = id; worker_id = worker_id; payload = command }))

  unfoldable pub list_containers : Result ClientError (List Container)
  unfolding client_conn containers_of
  list_containers = ask Command.list_containers_command >>= containers_of

  unfoldable pub start_container : (container_id : String) → Result ClientError (Unit {0})
  unfolding client_conn
  start_container container_id = ask (Command.start_container_command container_id) >>= any_reply

  unfoldable pub stop_container :
      (container_id : String) (timeout_sec : ℕ) → Result ClientError (Unit {0})
  unfolding client_conn
  stop_container container_id timeout_sec =
      ask (Command.stop_container_command container_id timeout_sec) >>= any_reply

  unfoldable pub restart_container : (container_id : String) → Result ClientError (Unit {0})
  unfolding client_conn
  restart_container container_id =
      ask (Command.restart_container_command container_id) >>= any_reply

  unfoldable pub remove_container :
      (container_id : String) (force : Bool) → Result ClientError (Unit {0})
  unfolding client_conn
  remove_container container_id force =
      ask (Command.remove_container_command container_id force) >>= any_reply

  unfoldable pub deploy : Deployment → Result ClientError DeployResult
  unfolding client_conn deployed_of
  deploy request = ask (Command.deploy_command request) >>= deployed_of

  unfoldable pub collect_metrics : Result ClientError MetricsResult
  unfolding client_conn metrics_of
  collect_metrics = ask Command.collect_metrics_command >>= metrics_of

  unfoldable pub register_route :
      (upstream domain : String) (tls : Bool) → Result ClientError (Unit {0})
  unfolding client_conn
  register_route upstream domain tls =
      ask (Command.register_route_command upstream domain tls) >>= any_reply

  unfoldable pub remove_route : (domain : String) → Result ClientError (Unit {0})
  unfolding client_conn
  remove_route domain = ask (Command.remove_route_command domain) >>= any_reply

  unfoldable pub send_heal :
      (service_name reason : String) → Option Deployment → Result ClientError (Unit {0})
  unfolding client_conn healed_of
  send_heal service_name reason spec =
      ask (Command.heal_command service_name reason spec) >>= healed_of

  unfoldable pub send_blue_green :
      (service_name current_slot domain : String) (port : ℕ) (tls : Bool)
      → Option Deployment
      → Result ClientError (Unit {0})
  unfolding client_conn healed_of
  send_blue_green service_name current_slot domain port tls spec =
      ask (Command.blue_green_command service_name current_slot domain port tls spec) >>= healed_of

  unfoldable pub send_rolling_update :
      (service_name : String) (replicas : ℕ) → Option Deployment → Result ClientError (Unit {0})
  unfolding client_conn scaled_of
  send_rolling_update service_name replicas spec =
      ask (Command.rolling_update_command service_name replicas spec) >>= scaled_of

  unfoldable pub send_autoscale :
      (service_name : String) (current target : ℕ)
      → Option Deployment
      → Result ClientError (Unit {0})
  unfolding client_conn scaled_of
  send_autoscale service_name current target spec =
      ask (Command.autoscale_command service_name current target spec) >>= scaled_of

-- `StreamLogs` as far as it changes the connection; `sent` is whether the command could be sent.
unfoldable pub open_log_stream : (sent : Bool) → String → WorkerConn → Result Stuck WorkerConn
unfolding stream_logs close_log_stream
open_log_stream true id c = ok (stream_logs id c)
open_log_stream false id c = close_log_stream id (stream_logs id c)
