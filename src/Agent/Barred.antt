-- ===== src/Agent/Barred.antt =====
-- A revoked worker before the handlers of internal/agent/server.go: shut out for good where none of them
-- runs for it, and let in again where one does.
use tidefly_plane.Prelude.{
  ℕ, String, true, none, some, [], ◌∷◌, Result, ok, err, ◌≡◌, sym, ap, subst, inl, inr, Bool-cases,
  eq_iff, nat_eq, find?, find?-sound, any, arith, ◌≢◌,
}
use tidefly_plane.Agent.Nodes.{
  WorkerNode, Rows, WorkerStatus, is_row, has_id, find_active, revoke, save_disconnected,
  mark_connected, mark_disconnected, update_heartbeat,
}
use tidefly_plane.Agent.Revocation.{
  admits, Barred, revoke-Barred, revoke-Barred_self, save_row-Barred, save_heartbeat-Barred,
  save_disconnected-Barred, create-Barred, delete_worker-Barred,
}
use tidefly_plane.Agent.Session.{
  Phase, greeting, serving, ended, Plane, on_connect, on_hello, on_heartbeat, on_stream_end, leave,
  left, greeted, Step, Run,
}
use tidefly_plane.Agent.Registry.{Registry, unregister, update}
use tidefly_plane.Agent.Conn.{Stuck}
use tidefly_plane.Agent.Soundness.{Owns}
use tidefly_plane.Agent.Registered.{mine_greeting, mine_serving}

-- No handler runs for the worker, it has a row, and no row lets it in.
abbrev pub ShutOut : String → Plane → Type 0
ShutOut w p = ((k : ℕ) → Owns w (p.phase k) → ⊥) × Barred w p.rows

abbrev Idle : String → (ℕ → Phase) → Type 0
Idle w phase = (k : ℕ) → Owns w (phase k) → ⊥

Idle-update :
    (w : String) (phase : ℕ → Phase) (k : ℕ) (ph : Phase)
    → (Owns w ph → ⊥)
    → Idle w phase
    → Idle w (update phase k ph)
Idle-update w phase k ph out idle j own = elim (Bool-cases (nat_eq j k)) [
  | inl same ↦ out (rw same at own)
  | inr other ↦ idle j (rw other at own)
]

leave-phase :
    (k : ℕ) (worker : WorkerNode) (p : Plane) {q : Plane}
    → leave k worker p ≡ ok q
    → (q.phase ≡ update p.phase k ended) × (q.rows ≡ p.rows)
unfolding leave
leave-phase k worker p {q} h = found (unregister worker.id p.registry) h
  where
    found :
        (r : Result Stuck Registry)
        → left k p r ≡ ok q
        → (q.phase ≡ update p.phase k ended) × (q.rows ≡ p.rows)
    found (err e) made = cc
    found (ok r) made =
        let same : ◌≡◌ {A = Plane} (record p { registry = r; phase = update p.phase k ended }) q =
          cc in
        (ap (λ (x : Plane). x.phase) (sym same), ap (λ (x : Plane). x.rows) (sym same))

ShutOut-leave :
    (w : String) (k : ℕ) (worker : WorkerNode) (p : Plane) {q : Plane}
    → leave k worker p ≡ ok q
    → ShutOut w p
    → ShutOut w q
ShutOut-leave w k worker p h out =
    let made = leave-phase k worker p h in
    (
      subst (Idle w) (sym made.0) (Idle-update w p.phase k ended (λ own. own) out.0),
      subst (Barred w) (sym made.1) out.1,
    )

-- A worker that was found active is not the one that is shut out.
found_other :
    (w id : String) (worker : WorkerNode) (rows : Rows)
    → Barred w rows
    → find_active id rows ≡ some worker
    → worker.id ≢ w
unfolding find_active
found_other w id worker rows barred found same =
    let sound = (find?-sound (admits id) rows found).0 in
    let named : worker.id ≡ id = ground (arith, sound, eq_iff worker.id id) in cc (barred.0)

-- A handler that runs is one of another worker.
other_worker :
    (w : String) (k : ℕ) (worker : WorkerNode) (p : Plane)
    → Owns worker.id (p.phase k)
    → ShutOut w p
    → worker.id ≢ w
other_worker w k worker p own out same = out.0 k (subst (λ v. Owns v (p.phase k)) same own)

-- A worker that is shut out stays so at every step of the plane: whatever workers, clients and
-- administrators do, it is not let in and no handler runs for it.
pub Step-ShutOut : (w : String) (p : Plane) {q : Plane} → ShutOut w p → Step p q → ShutOut w q
unfolding on_connect on_hello on_heartbeat on_stream_end mark_connected update_heartbeat
    mark_disconnected
Step-ShutOut w p out (Step.connect ip cn id worker named found) = (
  Idle-update w p.phase p.registry.count (greeting ip worker)
      (found_other w id worker p.rows out.1 found) out.0,
  out.1,
)
Step-ShutOut w p out (Step.greet k now h ip worker at) =
    let other = other_worker w k worker p (mine_greeting ip worker at) out in
    (
      Idle-update w p.phase k (serving (greeted now ip h worker)) other out.0,
      save_row-Barred w p.rows (greeted now ip h worker) other out.1,
    )
Step-ShutOut w p out (Step.refuse k ip worker at left_over) =
    ShutOut-leave w k worker p left_over out
Step-ShutOut w p out (Step.beat k now hb worker at) =
    let other = other_worker w k worker p (mine_serving worker at) out in
    (
      Idle-update w p.phase k (serving (update_heartbeat now hb worker)) other out.0,
      save_heartbeat-Barred w p.rows (update_heartbeat now hb worker) out.1,
    )
Step-ShutOut w p out (Step.message k m worker at handled) = out
Step-ShutOut w p out (Step.client k op done_so) = out
Step-ShutOut w p out (Step.stream_end k worker at left_over) =
    let other = other_worker w k worker p (mine_serving worker at) out in
    ShutOut-leave w k worker (on_stream_end worker p) left_over
      (out.0, save_disconnected-Barred w p.rows (mark_disconnected worker) other out.1)
Step-ShutOut w p out (Step.dropped k worker at left_over) = ShutOut-leave w k worker p left_over out
Step-ShutOut w p out (Step.revoked id) = (out.0, revoke-Barred w p.rows id out.1)
Step-ShutOut w p out (Step.joined worker made) = (out.0, create-Barred w p.rows worker made out.1)
Step-ShutOut w p out (Step.deleted id) = (out.0, delete_worker-Barred w p.rows id out.1)

Run-ShutOut : (w : String) {p q : Plane} → Run p q → ShutOut w p → ShutOut w q
Run-ShutOut w Run.none_left out = out
Run-ShutOut w (Run.more {p} step run) out = Run-ShutOut w run (Step-ShutOut w p out step)

written_back :
    (worker r : WorkerNode) (rows : Rows)
    → find? (is_row worker.id) rows ≡ some r
    → find_active worker.id (save_disconnected worker (revoke worker.id rows))
      ≡ some (record r { status = WorkerStatus.disconnected })
unfolding find_active save_disconnected revoke
written_back worker r [] h = cc
written_back worker r (x ∷ rows) h = elim (Bool-cases (is_row worker.id x)) [
  | inl hit ↦
      let same : x ≡ r = cc (rw hit at h) in
      rw (hit, hit, hit)
        (ap (λ (n : WorkerNode). some (record n { status = WorkerStatus.disconnected })) same)
  | inr miss ↦ rw (miss, miss, miss) (written_back worker r rows (rw miss at h))
]

-- Where no handler runs for a worker with a row, its revocation is final: after any number of steps of
-- the plane it is still not let in.
pub revoke_final :
    (w : String) (p : Plane) {q : Plane} (k : ℕ)
    → Idle w p.phase
    → any (has_id w) p.rows ≡ true
    → Run (record p { rows = revoke w p.rows }) q
    → (find_active w q.rows ≡ none) × (Owns w (q.phase k) → ⊥)
revoke_final w p {q} k idle named run =
    let out = Run-ShutOut w run (idle, revoke-Barred_self w p.rows named) in (out.1.0, out.0 k)

-- A worker whose handler runs while it is revoked, and whose row is not deleted, is let in again when its
-- stream ends: the row is written back to disconnected, and the next call of `Connect` admits it.
pub revocation_undone :
    (k : ℕ) (worker r : WorkerNode) (p : Plane) {q : Plane}
    → p.phase k ≡ serving worker
    → find? (is_row worker.id) p.rows ≡ some r
    → leave k worker (on_stream_end worker (record p { rows = revoke worker.id p.rows })) ≡ ok q
    → find_active worker.id q.rows ≡ some (record r { status = WorkerStatus.disconnected })
unfolding on_stream_end mark_disconnected
revocation_undone k worker r p {q} at there h =
    subst
      (λ rows. find_active worker.id rows ≡ some (record r { status = WorkerStatus.disconnected }))
      (sym
        (leave-phase k worker (on_stream_end worker (record p { rows = revoke worker.id p.rows }))
          h).1)
      (written_back worker r p.rows there)
