-- ===== src/Notification/Rows.antt =====
-- The rows of internal/notification: one for each fingerprint, and no alert uncounted.
use tidefly_plane.Prelude.{
  ℕ, ◌+◌, String, Bool, List, [], ◌∷◌, ◌≡◌, refl, sym, ◌∙◌, ◌≢◌, inl, inr, Bool-cases, ◌==◌,
  equal_or_not, arith, select, All, subst,
}
use tidefly_plane.Runtime.Engine.{Severity}
use tidefly_plane.Notification.Table.{
  Notification, insert_or, count_again, count_anew, acknowledged, upsert, publish, acknowledge,
  delete, delete_all,
}

abbrev pub Lacks : String → List Notification → Type 0
Lacks fp = All (λ (n : Notification). n.fingerprint ≢ fp)

-- No two rows have one fingerprint.
abbrev pub Distinct : List Notification → Type 0
Distinct [] = Unit
Distinct (n ∷ ns) = Lacks n.fingerprint ns × Distinct ns

abbrev pub total : List Notification → ℕ
total [] = 0
total (n ∷ ns) = n.occurrence_count + total ns

-- An update that keeps the fingerprint and counts one more.
abbrev Counts : (Notification → Notification) → Type 0
Counts update =
    (n : Notification)
    → ((update n).fingerprint ≡ n.fingerprint)
      × ((update n).occurrence_count ≡ n.occurrence_count + 1)

insert_or-Lacks :
    (update : Notification → Notification) (new : Notification) (fp : String)
    (ns : List Notification)
    → Counts update
    → new.fingerprint ≢ fp
    → Lacks fp ns
    → Lacks fp (insert_or update new ns)
unfolding insert_or
insert_or-Lacks update new fp [] counts apart h = (apart, tt)
insert_or-Lacks update new fp (n ∷ ns) counts apart h =
    elim (Bool-cases (n.fingerprint == new.fingerprint)) [
      | inl hit ↦ rw (hit, insert_or) (λ same. h.0 (sym (counts n).0 ∙ same), h.1)
      | inr miss ↦ rw (miss, insert_or) (h.0, insert_or-Lacks update new fp ns counts apart h.1)
    ]

insert_or-Distinct :
    (update : Notification → Notification) (new : Notification) (ns : List Notification)
    → Counts update
    → Distinct ns
    → Distinct (insert_or update new ns)
unfolding insert_or
insert_or-Distinct update new [] counts h = (tt, tt)
insert_or-Distinct update new (n ∷ ns) counts h =
    elim (Bool-cases (n.fingerprint == new.fingerprint)) [
      | inl hit ↦ rw (hit, insert_or) (subst (λ fp. Lacks fp ns) (sym (counts n).0) h.0, h.1)
      | inr miss ↦
          rw (miss, insert_or)
            (
              insert_or-Lacks update new n.fingerprint ns counts
                  (λ same. equal_or_not n.fingerprint new.fingerprint miss (sym same)) h.0,
              insert_or-Distinct update new ns counts h.1,
            )
    ]

insert_or-total :
    (update : Notification → Notification) (new : Notification) (ns : List Notification)
    → Counts update
    → new.occurrence_count ≡ 1
    → total (insert_or update new ns) ≡ total ns + 1
unfolding insert_or
insert_or-total update new [] counts one = omega (arith, one)
insert_or-total update new (n ∷ ns) counts one =
    elim (Bool-cases (n.fingerprint == new.fingerprint)) [
      | inl hit ↦ rw (hit, insert_or) (omega (arith, (counts n).1))
      | inr miss ↦ rw (miss, insert_or) (omega (arith, insert_or-total update new ns counts one))
    ]

select-Lacks :
    (keep : Notification → Bool) (fp : String) (ns : List Notification)
    → Lacks fp ns
    → Lacks fp (select keep ns)
select-Lacks keep fp [] h = tt
select-Lacks keep fp (n ∷ ns) h = elim (Bool-cases (keep n)) [
  | inl kept ↦ rw kept (h.0, select-Lacks keep fp ns h.1)
  | inr gone ↦ rw gone (select-Lacks keep fp ns h.1)
]

select-Distinct :
    (keep : Notification → Bool) (ns : List Notification) → Distinct ns → Distinct (select keep ns)
select-Distinct keep [] h = tt
select-Distinct keep (n ∷ ns) h = elim (Bool-cases (keep n)) [
  | inl kept ↦ rw kept (select-Lacks keep n.fingerprint ns h.0, select-Distinct keep ns h.1)
  | inr gone ↦ rw gone (select-Distinct keep ns h.1)
]

acknowledged-fingerprint :
    (now : ℕ) (id : String) (n : Notification) → (acknowledged now id n).fingerprint ≡ n.fingerprint
acknowledged-fingerprint now id n = ground arith

acknowledge-Lacks :
    (now : ℕ) (id fp : String) (ns : List Notification)
    → Lacks fp ns
    → Lacks fp (acknowledge now id ns)
unfolding acknowledge
acknowledge-Lacks now id fp [] h = tt
acknowledge-Lacks now id fp (n ∷ ns) h = (
  λ same. h.0 (sym (acknowledged-fingerprint now id n) ∙ same),
  acknowledge-Lacks now id fp ns h.1,
)

acknowledge-Distinct :
    (now : ℕ) (id : String) (ns : List Notification)
    → Distinct ns
    → Distinct (acknowledge now id ns)
unfolding acknowledge
acknowledge-Distinct now id [] h = tt
acknowledge-Distinct now id (n ∷ ns) h = (
  subst (λ fp. Lacks fp (acknowledge now id ns)) (sym (acknowledged-fingerprint now id n))
      (acknowledge-Lacks now id n.fingerprint ns h.0),
  acknowledge-Distinct now id ns h.1,
)

-- The calls that write the table.
pub data Operation : Type 0 where
  upserting : (container_id container_name : String) → Severity → (message : String) → Operation
  publishing : Severity → (title message : String) → Operation
  acknowledging deleting : String → Operation
  deleting_all : Operation

module _ (fingerprint : (container_id : String) → Severity → (message : String) → String)
    (truncate : String → String) where
  abbrev pub run : (now : ℕ) (fresh : String) → Operation → List Notification → List Notification
  run now fresh (upserting container_id name severity message) =
      upsert fingerprint truncate now fresh container_id name severity message
  run now fresh (publishing severity title message) =
      publish fingerprint truncate now fresh severity title message
  run now fresh (acknowledging id) = acknowledge now id
  run now fresh (deleting id) = delete id
  run now fresh deleting_all = delete_all

  -- Any sequence of operations, each with its time and its fresh identifier, the first one last.
  abbrev pub run_all : List (ℕ × String × Operation) → List Notification
  run_all [] = []
  run_all ((now, fresh, op) ∷ ops) = run now fresh op (run_all ops)

  run-Distinct :
      (now : ℕ) (fresh : String) (op : Operation) (ns : List Notification)
      → Distinct ns
      → Distinct (run now fresh op ns)
  unfolding upsert publish delete delete_all
  run-Distinct now fresh (upserting container_id name severity message) ns h =
      insert_or-Distinct (count_again now) _ ns (λ n. (refl, refl)) h
  run-Distinct now fresh (publishing severity title message) ns h =
      insert_or-Distinct (count_anew now) _ ns (λ n. (refl, refl)) h
  run-Distinct now fresh (acknowledging id) ns h = acknowledge-Distinct now id ns h
  run-Distinct now fresh (deleting id) ns h = select-Distinct _ ns h
  run-Distinct now fresh deleting_all ns h = select-Distinct _ ns h

  -- Whatever is done to an empty table, in any order and at any times, no two rows ever have one
  -- fingerprint.
  pub run_all-Distinct : (ops : List (ℕ × String × Operation)) → Distinct (run_all ops)
  run_all-Distinct [] = tt
  run_all-Distinct ((now, fresh, op) ∷ ops) =
      run-Distinct now fresh op (run_all ops) (run_all-Distinct ops)

  -- Each alert is counted: `Upsert` and `Publish` make the sum of the counts one larger, whether the
  -- fingerprint is new or not.
  pub upsert-publish-total :
      (now : ℕ) (fresh container_id name title message : String) (severity : Severity)
      (ns : List Notification)
      → (total (upsert fingerprint truncate now fresh container_id name severity message ns)
          ≡ total ns + 1)
        × (total (publish fingerprint truncate now fresh severity title message ns) ≡ total ns + 1)
  unfolding upsert publish
  upsert-publish-total now fresh container_id name title message severity ns = (
    insert_or-total (count_again now) _ ns (λ n. (refl, refl)) refl,
    insert_or-total (count_anew now) _ ns (λ n. (refl, refl)) refl,
  )
