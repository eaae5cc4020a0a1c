-- ===== src/Agent/Revocation.antt =====
-- What a revocation by internal/agent/service.go is worth while the handlers of server.go write the rows.
use tidefly_plane.Prelude.{
  String, Bool, true, false, not, ◌&&◌, Option, none, some, [], ◌∷◌, ◌≡◌, refl, sym, ap, subst, inl,
  inr, Bool-cases, ◌==◌, eq_iff, not_equal, if◌then◌else◌, find?, any, map, arith, ◌≢◌, ◌∙◌,
}
use tidefly_plane.Agent.Nodes.{
  WorkerNode, Rows, WorkerStatus, is_revoked, is_row, has_id, find_active, find_revoked, create,
  update_rows, revoke, delete, delete_found, delete_worker, save_row, save_heartbeat,
  save_disconnected,
}

-- The rows that let a worker in.
abbrev pub admits : String → WorkerNode → Bool
admits id w = is_row id w && not (is_revoked w.status)

-- A write of every row that lets in no row more.
find?-map-none :
    (q : WorkerNode → Bool) (f : WorkerNode → WorkerNode) (rows : Rows)
    → ((r : WorkerNode) → q r ≡ false → q (f r) ≡ false)
    → find? q rows ≡ none
    → find? q (map f rows) ≡ none
find?-map-none q f [] keeps h = refl
find?-map-none q f (r ∷ rows) keeps h = elim (Bool-cases (q r)) [
  | inl hit ↦ cc (rw hit at h)
  | inr miss ↦ rw (keeps r miss) (find?-map-none q f rows keeps (rw miss at h))
]

any-map :
    (q : WorkerNode → Bool) (f : WorkerNode → WorkerNode) (rows : Rows)
    → ((r : WorkerNode) → q (f r) ≡ q r)
    → any q (map f rows) ≡ any q rows
any-map q f [] same = refl
any-map q f (r ∷ rows) same = rw (same r, any-map q f rows same) refl

refused : (gone named out : Bool) → named ≡ false → not gone && named && not out ≡ false
refused true named out other = refl
refused false named out other = rw other refl

-- The worker has a row and no row lets it in.
abbrev pub Barred : String → Rows → Type 0
Barred id rows = (find_active id rows ≡ none) × (any (has_id id) rows ≡ true)

module _ (id : String) (rows : Rows) where
  map-Barred :
      (f : WorkerNode → WorkerNode)
      → ((r : WorkerNode) → admits id r ≡ false → admits id (f r) ≡ false)
      → ((r : WorkerNode) → has_id id (f r) ≡ has_id id r)
      → Barred id rows
      → Barred id (map f rows)
  unfolding find_active
  map-Barred f keeps same barred =
      (find?-map-none (admits id) f rows keeps barred.0, any-map (has_id id) f rows same ∙ barred.1)

  update_rows-Barred :
      (other : String) (f : WorkerNode → WorkerNode)
      → ((r : WorkerNode) → is_row other r ≡ true → admits id r ≡ false → admits id (f r) ≡ false)
      → ((r : WorkerNode) → (f r).id ≡ r.id)
      → Barred id rows
      → Barred id (update_rows other f rows)
  update_rows-Barred other f keeps same barred =
      map-Barred (λ w. if is_row other w then f w else w)
        (λ r out. elim (Bool-cases (is_row other r)) [
          | inl hit ↦ rw hit (keeps r hit out)
          | inr miss ↦ rw miss out
        ])
        (λ r. elim (Bool-cases (is_row other r)) [
          | inl hit ↦ rw hit (ap (λ (x : String). x == id) (same r))
          | inr miss ↦ rw miss refl
        ])
        barred

  pub revoke-Barred : (other : String) → Barred id rows → Barred id (revoke other rows)
  unfolding revoke
  revoke-Barred other barred =
      update_rows-Barred other (λ w. record w { status = WorkerStatus.revoked })
        (λ r hit out. ground arith) (λ r. refl) barred

  pub revoke-Barred_self : any (has_id id) rows ≡ true → Barred id (revoke id rows)
  unfolding revoke find_active
  revoke-Barred_self named = (
    none_active rows,
    any-map (has_id id) (λ w. if is_row id w then record w { status = WorkerStatus.revoked } else w)
          rows
          (λ r. elim (Bool-cases (is_row id r)) [ inl hit ↦ rw hit refl | inr miss ↦ rw miss refl ])
        ∙ named,
  )
    where
      none_active :
          (rest : Rows)
          → find? (admits id) (
              map (λ w. if is_row id w then record w { status = WorkerStatus.revoked } else w) rest)
            ≡ none
      none_active [] = refl
      none_active (r ∷ rest) = elim (Bool-cases (is_row id r)) [
        | inl hit ↦ rw (hit, hit) (none_active rest)
        | inr miss ↦ rw (miss, miss) (none_active rest)
      ]

  pub delete-Barred : (worker : WorkerNode) → Barred id rows → Barred id (delete worker rows)
  unfolding delete
  delete-Barred worker barred =
      update_rows-Barred worker.id (λ w. record w { deleted = true }) (λ r hit out. refl)
        (λ r. refl) barred

  -- A row of another worker is none of this one.
  other_row :
      (worker : WorkerNode) (r : WorkerNode)
      → worker.id ≢ id
      → is_row worker.id r ≡ true
      → r.id == id ≡ false
  other_row worker r apart hit =
      not_equal r.id id (λ same. apart (ground (arith, eq_iff r.id worker.id, same, hit)))

  pub save_heartbeat-Barred :
      (worker : WorkerNode) → Barred id rows → Barred id (save_heartbeat worker rows)
  unfolding save_heartbeat
  save_heartbeat-Barred worker barred =
      update_rows-Barred worker.id
        (λ w. record w {
          last_seen_at = worker.last_seen_at;
          cpu_percent = worker.cpu_percent;
          mem_percent = worker.mem_percent;
          container_count = worker.container_count;
        })
        (λ r hit out. out) (λ r. refl) barred

  pub save_disconnected-Barred :
      (worker : WorkerNode)
      → worker.id ≢ id
      → Barred id rows
      → Barred id (save_disconnected worker rows)
  unfolding save_disconnected
  save_disconnected-Barred worker apart barred =
      update_rows-Barred worker.id (λ w. record w { status = WorkerStatus.disconnected })
        (λ r hit out. ground (arith, other_row worker r apart hit)) (λ r. refl) barred

  cons-Barred : (worker : WorkerNode) → worker.id ≢ id → Barred id rows → Barred id (worker ∷ rows)
  unfolding find_active
  cons-Barred worker apart barred =
      let other = not_equal worker.id id apart in
      (
        rw (refused worker.deleted (worker.id == id) (is_revoked worker.status) other) barred.0,
        rw other barred.1,
      )

  pub save_row-Barred :
      (worker : WorkerNode) → worker.id ≢ id → Barred id rows → Barred id (save_row worker rows)
  unfolding save_row find_active
  save_row-Barred worker apart barred = elim (Bool-cases (any (has_id worker.id) rows)) [
    | inl there ↦ rw there (
        map-Barred (λ w. if has_id worker.id w then worker else w)
          (λ r out. elim (Bool-cases (has_id worker.id r)) [
            | inl hit ↦ rw hit (ground (arith, not_equal worker.id id apart))
            | inr miss ↦ rw miss out
          ])
          (λ r. elim (Bool-cases (has_id worker.id r)) [
            | inl hit ↦ rw hit (ap (λ (x : String). x == id) (sym ((eq_iff r.id worker.id).0 hit)))
            | inr miss ↦ rw miss refl
          ])
          barred)
    | inr missing ↦ rw missing (cons-Barred worker apart barred)
  ]

  pub create-Barred :
      (worker : WorkerNode) {after : Rows}
      → create worker rows ≡ some after
      → Barred id rows
      → Barred id after
  unfolding create find_active
  create-Barred worker {after} made barred = elim (Bool-cases (any (has_id worker.id) rows)) [
    | inl taken ↦ cc (rw taken at made)
    | inr free ↦
        let other : worker.id ≢ id =
          λ same. cc (subst (λ v. any (has_id v) rows ≡ false) same free, barred.1) in
        let here : ◌≡◌ {A = Rows} (worker ∷ rows) after = cc (rw free at made) in
        subst (Barred id) here (cons-Barred worker other barred)
  ]

  pub delete_worker-Barred :
      (other : String) → Barred id rows → Barred id (delete_worker other rows).1
  unfolding delete_worker
  delete_worker-Barred other barred = found (find_revoked other rows)
    where
      found : (o : Option WorkerNode) → Barred id (delete_found o rows).1
      found none = barred
      found (some w) = delete-Barred w barred
