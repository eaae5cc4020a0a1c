-- ===== src/Agent/Reconnect.antt =====
-- A worker that connects again while the handler of its first connection still runs: the handlers of
-- internal/agent/server.go over the registry of registry.go.
use tidefly_plane.Prelude.{
  ℕ, ◌<◌, String, Bool, true, false, none, some, ok, ◌≡◌, sym, ap, eq_refl, if◌then◌else◌, lookup,
  remove, lookup-put, lookup-remove, is_some, arith, ◌∙◌,
}
use tidefly_plane.Agent.Conn.{WorkerConn, new_worker_conn}
use tidefly_plane.Agent.Registry.{
  register, unregister, unregister_found, close_done, is_connected, get_conn, update,
}
use tidefly_plane.Agent.Nodes.{WorkerNode}
use tidefly_plane.Agent.Session.{greeting, Plane, on_connect, on_stream_end, leave, left}
use tidefly_plane.Agent.Registered.{Closed}

registered_there :
    (ip : String) (new : WorkerNode) (p : Plane)
    → lookup new.id (on_connect ip new p).registry.workers ≡ some p.registry.count
unfolding on_connect register
registered_there ip new p =
    lookup-put new.id new.id p.registry.count p.registry.workers
    ∙ ap (λ (b : Bool). if b then some p.registry.count else lookup new.id p.registry.workers)
        (eq_refl new.id)

-- What the first handler leaves behind when it ends after the second connection was registered.
abbrev pub Left : ℕ → (ip : String) → (old new : WorkerNode) → Plane → Plane
Left k ip old new p = Closed k p.registry.count new (on_stream_end old (on_connect ip new p))

first_ends :
    (k : ℕ) (ip : String) (old new : WorkerNode) (p : Plane)
    → leave k new (on_stream_end old (on_connect ip new p)) ≡ ok (Left k ip old new p)
unfolding leave unregister on_stream_end on_connect register new_worker_conn
first_ends k ip old new p =
    ap
      (λ o.
        left k (on_stream_end old (on_connect ip new p))
          (unregister_found new.id o (on_connect ip new p).registry))
      (registered_there ip new p)
    ∙ ap
        (λ (c : WorkerConn). left k (on_stream_end old (on_connect ip new p)) (
          close_done p.registry.count c (record (on_connect ip new p).registry {
            workers = remove new.id (on_connect ip new p).registry.workers;
          })))
        (at_count p.registry.conn p.registry.count (new_worker_conn new.id))
    ∙ ap
        (λ (c : WorkerConn). ok (record (Left k ip old new p) {
          registry = record (Left k ip old new p).registry {
            conn =
                update (on_connect ip new p).registry.conn p.registry.count
                  (record c { done = true });
          };
        }))
        (sym (at_count p.registry.conn p.registry.count (new_worker_conn new.id)))
  where
    at_count : (f : ℕ → WorkerConn) (n : ℕ) (c : WorkerConn) → update f n c n ≡ c
    at_count f n c = ground arith

-- A worker connects again while the first handler of its id runs, and then that handler ends, by the end
-- of its stream. The second handler still waits for its first message, but the registry has no connection
-- for the worker any more, and it is the second connection whose `done` has been closed.
pub reconnect_dropped :
    (k : ℕ) (ip : String) (old new : WorkerNode) (p : Plane)
    → old.id ≡ new.id
    → k < p.registry.count
    → (q : Plane) × (leave k old (on_stream_end old (on_connect ip new p)) ≡ ok q)
      × (is_connected new.id q.registry ≡ false)
      × (q.phase p.registry.count ≡ greeting ip new)
      × ((q.registry.conn p.registry.count).done ≡ true)
unfolding is_connected get_conn on_stream_end on_connect register leave
reconnect_dropped k ip old new p same below = (
  Left k ip old new p,
  ap
        (λ (id : String).
          left k (on_stream_end old (on_connect ip new p))
            (unregister id (on_connect ip new p).registry))
        same
      ∙ first_ends k ip old new p,
  ap is_some (
      lookup-remove new.id new.id (on_connect ip new p).registry.workers
      ∙ ap (λ (b : Bool). if b then none else lookup new.id (on_connect ip new p).registry.workers)
          (eq_refl new.id)),
  ground arith,
  ground arith,
)
