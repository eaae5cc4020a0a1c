-- ===== src/Agent/Soundness.antt =====
-- What holds of the connections of internal/agent/registry.go that the registry has, and which steps keep it.
use tidefly_plane.Prelude.{
  ℕ, ◌<◌, String, false, some, ◌≡◌, refl, sym, subst, inl, inr, Bool-cases, ◌==◌, eq_iff, nat_eq,
  nat_eq→eq, lookup, lookup-put, arith, ◌∙◌,
}
use tidefly_plane.Agent.Conn.{WorkerConn, new_worker_conn}
use tidefly_plane.Agent.Registry.{register, update}
use tidefly_plane.Agent.Nodes.{WorkerNode, Rows}
use tidefly_plane.Agent.Session.{Phase, greeting, serving, ended, Plane, on_connect, with_conn}

pub update_same {ℓ} : {A : Type ℓ} (f : ℕ → A) (k : ℕ) (v : A) → update f k v k ≡ v
update_same f k v = ground arith

pub update_other {ℓ} :
    {A : Type ℓ} (f : ℕ → A) (k : ℕ) (v : A) (j : ℕ) → nat_eq j k ≡ false → update f k v j ≡ f j
update_other f k v j apart = rw apart refl

-- The handler in this phase is one of this worker's.
abbrev pub Owns : String → Phase → Type 0
Owns w (greeting ip worker) = worker.id ≡ w
Owns w (serving worker) = worker.id ≡ w
Owns w ended = ⊥

-- The connection under a number belongs to this worker, its handler runs, and its `done` is open.
abbrev pub Live : String → ℕ → Plane → Type 0
Live w k p =
    (k < p.registry.count)
    × Owns w (p.phase k)
    × ((p.registry.conn k).done ≡ false)
    × ((p.registry.conn k).worker_id ≡ w)

abbrev pub Sound : Plane → Type 0
Sound p = (w : String) (k : ℕ) → lookup w p.registry.workers ≡ some k → Live w k p

pub Owns-unique : (w v : String) (ph : Phase) → Owns w ph → Owns v ph → w ≡ v
Owns-unique w v (greeting ip worker) a b = sym a ∙ b
Owns-unique w v (serving worker) a b = sym a ∙ b
Owns-unique w v ended a b = absurd a

pub Sound-on_connect :
    (ip : String) (worker : WorkerNode) (p : Plane) → Sound p → Sound (on_connect ip worker p)
unfolding on_connect register new_worker_conn
Sound-on_connect ip worker p sound w k h = elim (Bool-cases (worker.id == w)) [
  | inl same ↦
      let here : p.registry.count ≡ k =
        cc (rw same at (sym (lookup-put worker.id w p.registry.count p.registry.workers) ∙ h)) in
      subst (λ j. Live w j (on_connect ip worker p)) here
        (
          omega arith,
          rw (update_same p.phase p.registry.count (greeting ip worker))
              ((eq_iff worker.id w).0 same),
          rw (update_same p.registry.conn p.registry.count (new_worker_conn worker.id)) refl,
          rw (update_same p.registry.conn p.registry.count (new_worker_conn worker.id))
              ((eq_iff worker.id w).0 same),
        )
  | inr other ↦
      let before =
        sound w k
          (rw other at (sym (lookup-put worker.id w p.registry.count p.registry.workers) ∙ h)) in
      let apart : nat_eq k p.registry.count ≡ false = ground (arith, before.0) in
      (
        omega (arith, before.0),
        rw (update_other p.phase p.registry.count (greeting ip worker) k apart) before.1,
        rw (update_other p.registry.conn p.registry.count (new_worker_conn worker.id) k apart)
            before.2,
        rw (update_other p.registry.conn p.registry.count (new_worker_conn worker.id) k apart)
            before.3,
      )
]

-- A handler goes on to a phase of the same worker.
pub Sound-phase :
    (k : ℕ) (ph : Phase) (rows : Rows) (p : Plane)
    → ((w : String) → Owns w (p.phase k) → Owns w ph)
    → Sound p
    → Sound (record p { rows = rows; phase = update p.phase k ph })
Sound-phase k ph rows p keeps sound w j h =
    let before = sound w j h in
    elim (Bool-cases (nat_eq j k)) [
      | inl same ↦ (
        before.0,
        subst (λ i. Owns w (update p.phase k ph i)) (sym (nat_eq→eq j k same))
            (rw (update_same p.phase k ph)
              (keeps w (subst (λ i. Owns w (p.phase i)) (nat_eq→eq j k same) before.1))),
        before.2,
        before.3,
      )
      | inr other ↦ (before.0, rw (update_other p.phase k ph j other) before.1, before.2, before.3)
    ]

pub Sound-conn :
    (k : ℕ) (c : WorkerConn) (p : Plane)
    → c.done ≡ (p.registry.conn k).done
    → c.worker_id ≡ (p.registry.conn k).worker_id
    → Sound p
    → Sound (with_conn k c p)
Sound-conn k c p done own sound w j h =
    let before = sound w j h in
    elim (Bool-cases (nat_eq j k)) [
      | inl same ↦ (
        before.0,
        before.1,
        rw same
            (done ∙ subst (λ i. (p.registry.conn i).done ≡ false) (nat_eq→eq j k same) before.2),
        rw same
            (own ∙ subst (λ i. (p.registry.conn i).worker_id ≡ w) (nat_eq→eq j k same) before.3),
      )
      | inr other ↦ (
        before.0,
        before.1,
        rw (update_other p.registry.conn k c j other) before.2,
        rw (update_other p.registry.conn k c j other) before.3,
      )
    ]
