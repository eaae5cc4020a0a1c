-- ===== src/Agent/Registry.antt =====
-- `Registry` of internal/agent/registry.go. A connection is a pointer in Go: here it is the number under
-- which it stands in the heap `conn`, and the map takes a worker's id to that number.
use tidefly_plane.Prelude.{
  ℕ, ◌+◌, String, Bool, true, Option, none, some, List, [], ◌∷◌, Result, ok, err, nat_eq,
  if◌then◌else◌, is_some, Dict, lookup, put, remove,
}
use tidefly_plane.Agent.Conn.{WorkerConn, new_worker_conn, Stuck, close_of_closed}

abbrev pub update {ℓ} : {A : Type ℓ} → (ℕ → A) → ℕ → A → ℕ → A
update f k v j = if nat_eq j k then v else f j

pub record Registry : Type 0 where
  pub conn : ℕ → WorkerConn
  pub count : ℕ
  pub workers : Dict ℕ

unfoldable pub new_registry : Registry
new_registry = record { conn = λ k. new_worker_conn ""; count = 0; workers = [] }

unfoldable pub register : String → Registry → Registry
unfolding put new_worker_conn
register worker_id r = record {
  conn = update r.conn r.count (new_worker_conn worker_id);
  count = r.count + 1;
  workers = put worker_id r.count r.workers;
}

abbrev pub close_done : ℕ → WorkerConn → Registry → Result Stuck Registry
close_done k c r =
    if c.done
    then err close_of_closed
    else ok (record r { conn = update r.conn k (record c { done = true }) })

-- What `Unregister` does with what it finds under the worker's id.
abbrev pub unregister_found : String → Option ℕ → Registry → Result Stuck Registry
unregister_found worker_id none r = ok r
unregister_found worker_id (some k) r =
    close_done k (r.conn k) (record r { workers = remove worker_id r.workers })

unfoldable pub unregister : String → Registry → Result Stuck Registry
unfolding lookup remove
unregister worker_id r = unregister_found worker_id (lookup worker_id r.workers) r

unfoldable pub get_conn : String → Registry → Option ℕ
unfolding lookup
get_conn worker_id r = lookup worker_id r.workers

unfoldable pub is_connected : String → Registry → Bool
unfolding get_conn
is_connected worker_id r = is_some (get_conn worker_id r)

abbrev pub keys : Dict ℕ → List String
keys [] = []
keys ((id, k) ∷ m) = id ∷ keys m

-- In no order.
unfoldable pub connected_workers : Registry → List String
connected_workers r = keys r.workers
