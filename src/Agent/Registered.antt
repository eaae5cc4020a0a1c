-- ===== src/Agent/Registered.antt =====
-- What the registry of internal/agent/registry.go holds while the handlers of server.go come and go.
use tidefly_plane.Prelude.{
  ◌⊎◌, ℕ, String, Bool, true, false, none, some, ok, err, ◌≡◌, refl, sym, ap, subst, inl, inr,
  Bool-cases, Option-cases, ◌==◌, eq_iff, nat_eq, nat_eq→eq, if◌then◌else◌, lookup, remove,
  lookup-remove, ◌∙◌,
}
use tidefly_plane.Agent.Conn.{Stuck}
use tidefly_plane.Agent.Registry.{new_registry, unregister, unregister_found, update}
use tidefly_plane.Agent.Identity.{handle_message-Kept, client_step-Kept}
use tidefly_plane.Agent.Nodes.{
  WorkerNode, Rows, mark_connected, update_heartbeat, save_row, save_heartbeat,
}
use tidefly_plane.Agent.Session.{
  Phase, greeting, serving, ended, Plane, on_hello, on_heartbeat, on_stream_end, left, leave, Step,
  start, Reachable, greeted,
}
use tidefly_plane.Agent.Soundness.{
  Owns, Live, Sound, Owns-unique, Sound-on_connect, Sound-phase, Sound-conn, update_other,
}

-- The plane that a handler leaves behind where it finds a connection under its worker's id.
abbrev pub Closed : ℕ → ℕ → WorkerNode → Plane → Plane
Closed k j worker p = record p {
  registry = record p.registry {
    conn = update p.registry.conn j (record (p.registry.conn j) { done = true });
    workers = remove worker.id p.registry.workers;
  };
  phase = update p.phase k ended;
}

abbrev pub Gone : ℕ → Plane → Plane
Gone k p = record p { phase = update p.phase k ended }

-- `Unregister` closes no channel twice: a handler always ends.
leave-Sound :
    (k : ℕ) (worker : WorkerNode) (p : Plane)
    → Sound p
    → ((lookup worker.id p.registry.workers ≡ none) × (leave k worker p ≡ ok (Gone k p)))
      ⊎ ((j : ℕ) × (lookup worker.id p.registry.workers ≡ some j)
          × (leave k worker p ≡ ok (Closed k j worker p)))
unfolding leave unregister
leave-Sound k worker p sound = elim (Option-cases (lookup worker.id p.registry.workers)) [
  | inl none_there ↦
      inl (none_there, ap (λ o. left k p (unregister_found worker.id o p.registry)) none_there)
  | inr (j, there) ↦ inr (
    j,
    there,
    ap (λ o. left k p (unregister_found worker.id o p.registry)) there
        ∙ ap
            (λ (b : Bool).
              left k p (if b then err Stuck.close_of_closed else ok (Closed k j worker p).registry))
            (sound worker.id j there).2,
  )
]

-- A connection that is registered for another worker is not the one of this handler.
other_handler :
    (k j : ℕ) (w : String) (worker : WorkerNode) (p : Plane)
    → Owns worker.id (p.phase k)
    → worker.id == w ≡ false
    → Owns w (p.phase j)
    → nat_eq j k ≡ false
other_handler k j w worker p mine other theirs = elim (Bool-cases (nat_eq j k)) [
  | inr apart ↦ apart
  | inl same ↦
      let equal : worker.id ≡ w =
        Owns-unique worker.id w (p.phase k) mine
          (subst (λ i. Owns w (p.phase i)) (nat_eq→eq j k same) theirs) in
      cc (other, (eq_iff worker.id w).1 equal)
]

Live-ended :
    (k j : ℕ) (w : String) (worker : WorkerNode) (p : Plane)
    → Owns worker.id (p.phase k)
    → worker.id == w ≡ false
    → Live w j p
    → Live w j (Gone k p)
Live-ended k j w worker p mine other before = (
  before.0,
  rw (update_other p.phase k ended j (other_handler k j w worker p mine other before.1)) before.1,
  before.2,
  before.3,
)

Sound-Gone :
    (k : ℕ) (worker : WorkerNode) (p : Plane)
    → Owns worker.id (p.phase k)
    → lookup worker.id p.registry.workers ≡ none
    → Sound p
    → Sound (Gone k p)
Sound-Gone k worker p mine free sound w j h = elim (Bool-cases (worker.id == w)) [
  | inl same ↦
      cc (
        sym (subst (λ v. lookup v p.registry.workers ≡ none) ((eq_iff worker.id w).0 same) free)
        ∙ h)
  | inr other ↦ Live-ended k j w worker p mine other (sound w j h)
]

-- Another worker's connection is not the one that was closed.
Live-Closed :
    (k i j : ℕ) (w : String) (worker : WorkerNode) (p : Plane)
    → Owns worker.id (p.phase k)
    → worker.id == w ≡ false
    → (p.registry.conn i).worker_id ≡ worker.id
    → Live w j p
    → Live w j (Closed k i worker p)
Live-Closed k i j w worker p mine other closed before =
    let kept = Live-ended k j w worker p mine other before in
    elim (Bool-cases (nat_eq j i)) [
      | inl same ↦
          let equal : worker.id ≡ w =
            sym closed
            ∙ subst (λ n. (p.registry.conn n).worker_id ≡ w) (nat_eq→eq j i same) before.3 in
          cc (other, (eq_iff worker.id w).1 equal)
      | inr apart ↦ (kept.0, kept.1, rw apart kept.2, rw apart kept.3)
    ]

Sound-Closed :
    (k i : ℕ) (worker : WorkerNode) (p : Plane)
    → Owns worker.id (p.phase k)
    → lookup worker.id p.registry.workers ≡ some i
    → Sound p
    → Sound (Closed k i worker p)
Sound-Closed k i worker p mine there sound w j h = elim (Bool-cases (worker.id == w)) [
  | inl same ↦ cc (rw same at (sym (lookup-remove worker.id w p.registry.workers) ∙ h))
  | inr other ↦
      Live-Closed k i j w worker p mine other (sound worker.id i there).3
        (sound w j (rw other at (sym (lookup-remove worker.id w p.registry.workers) ∙ h)))
]

pub leave-keeps :
    (k : ℕ) (worker : WorkerNode) (p : Plane) {q : Plane}
    → Owns worker.id (p.phase k)
    → leave k worker p ≡ ok q
    → Sound p
    → Sound q
leave-keeps k worker p {q} mine h sound = elim (leave-Sound k worker p sound) [
  | inl gone ↦
      let same : Gone k p ≡ q = cc (sym gone.1 ∙ h) in
      subst Sound same (Sound-Gone k worker p mine gone.0 sound)
  | inr closed ↦
      let same : Closed k closed.0 worker p ≡ q = cc (sym closed.2 ∙ h) in
      subst Sound same (Sound-Closed k closed.0 worker p mine closed.1 sound)
]

pub greeted-Owns :
    (w : String) (worker next : WorkerNode) (ph : Phase)
    → next.id ≡ worker.id
    → (ph ≡ serving worker) ⊎ ((ip : String) × (ph ≡ greeting ip worker))
    → Owns w ph
    → Owns w (serving next)
greeted-Owns w worker next ph same (inl at) own = same ∙ subst (Owns w) at own
greeted-Owns w worker next ph same (inr (ip, at)) own = same ∙ subst (Owns w) at own

pub mine_greeting :
    (ip : String) (worker : WorkerNode) {ph : Phase} → ph ≡ greeting ip worker → Owns worker.id ph
mine_greeting ip worker at = subst (Owns worker.id) (sym at) refl

pub mine_serving : (worker : WorkerNode) {ph : Phase} → ph ≡ serving worker → Owns worker.id ph
mine_serving worker at = subst (Owns worker.id) (sym at) refl

pub Step-Sound : (p : Plane) {q : Plane} → Sound p → Step p q → Sound q
unfolding on_hello on_heartbeat on_stream_end mark_connected update_heartbeat
Step-Sound p sound (Step.connect ip cn id worker named found) = Sound-on_connect ip worker p sound
Step-Sound p sound (Step.greet k now h ip worker at) =
    Sound-phase k (serving (greeted now ip h worker)) (save_row (greeted now ip h worker) p.rows) p
      (λ w. greeted-Owns w worker (greeted now ip h worker) (p.phase k) refl (inr (ip, at))) sound
Step-Sound p sound (Step.refuse k ip worker at left_over) =
    leave-keeps k worker p (mine_greeting ip worker at) left_over sound
Step-Sound p sound (Step.beat k now hb worker at) =
    Sound-phase k (serving (update_heartbeat now hb worker))
      (save_heartbeat (update_heartbeat now hb worker) p.rows) p
      (λ w. greeted-Owns w worker (update_heartbeat now hb worker) (p.phase k) refl (inl at)) sound
Step-Sound p sound (Step.message k m worker {c} at handled) =
    let kept = handle_message-Kept m (p.registry.conn k) handled in
    Sound-conn k c p kept.0 kept.1 sound
Step-Sound p sound (Step.client k op {c} done_so) =
    let kept = client_step-Kept op (p.registry.conn k) done_so in
    Sound-conn k c p kept.0 kept.1 sound
Step-Sound p sound (Step.stream_end k worker at left_over) =
    leave-keeps k worker (on_stream_end worker p) (mine_serving worker at) left_over sound
Step-Sound p sound (Step.dropped k worker at left_over) =
    leave-keeps k worker p (mine_serving worker at) left_over sound
Step-Sound p sound (Step.revoked id) = sound
Step-Sound p sound (Step.joined worker made) = sound
Step-Sound p sound (Step.deleted id) = sound

-- In every state that the plane can reach, whatever handlers, messages and administrators do and in
-- whatever order: a connection that the registry holds under a worker's id was made for that worker,
-- its handler has not ended, and its `done` channel is open.
pub registered-Live :
    (rows : Rows) {p : Plane}
    → Reachable rows p
    → (w : String) (k : ℕ) → lookup w p.registry.workers ≡ some k
    → Live w k p
unfolding start new_registry lookup
registered-Live rows Reachable.initial w k h = cc
registered-Live rows (Reachable.later {p} before step) w k h =
    Step-Sound p (registered-Live rows before) step w k h

-- In every state that the plane can reach, a handler that has not ended can end: its deferred
-- `Unregister` never closes a channel that is closed already, which would end the whole program.
pub leave_safe :
    (rows : Rows) {p : Plane} (k : ℕ) (worker : WorkerNode)
    → Reachable rows p
    → (q : Plane) × (leave k worker p ≡ ok q)
leave_safe rows {p} k worker reached =
    elim (leave-Sound k worker p (registered-Live rows reached)) [
      | inl gone ↦ (Gone k p, gone.1)
      | inr closed ↦ (Closed k closed.0 worker p, closed.2)
    ]
