-- ===== src/Notification/Unread.antt =====
-- Which alerts internal/notification shows as unread.
use Prim.Native.String.{◌++◌}
use tidefly_plane.Prelude.{
  ℕ, String, true, false, ◌&&◌, Option, some, List, [], ◌∷◌, ◌≡◌, refl, ap, inl, inr, Bool-cases,
  ◌==◌, eq_iff, arith, select, find?, any, if◌then◌else◌,
}
use tidefly_plane.Runtime.Engine.{Severity}
use tidefly_plane.Notification.Table.{
  Notification, is_unread, insert_or, count_again, count_anew, acknowledged, upsert, publish,
  acknowledge, list_unread, unread_count,
}

-- The row of a fingerprint.
abbrev pub row_of : String → List Notification → Option Notification
row_of fp = find? (λ (n : Notification). n.fingerprint == fp)

insert_or-hidden :
    (now : ℕ) (new : Notification) (ns : List Notification) {n : Notification}
    → row_of new.fingerprint ns ≡ some n
    → is_unread n ≡ false
    → select is_unread (insert_or (count_again now) new ns) ≡ select is_unread ns
unfolding insert_or
insert_or-hidden now new [] row read = cc
insert_or-hidden now new (m ∷ ms) {n} row read =
    elim (Bool-cases (m.fingerprint == new.fingerprint)) [
      | inl hit ↦
          let same : m ≡ n = cc (rw hit at row) in
          let unread : is_unread m ≡ false = rw same read in rw (hit, insert_or) (rw unread refl)
      | inr miss ↦
          rw (miss, insert_or)
            (ap (λ (rest : List Notification). if is_unread m then m ∷ rest else rest)
              (insert_or-hidden now new ms (rw miss at row) read))
    ]

insert_or-shown :
    (now : ℕ) (new : Notification) (ns : List Notification)
    → is_unread new ≡ true
    → any
        (λ (n : Notification). n.fingerprint == new.fingerprint && is_unread n)
        (insert_or (count_anew now) new ns)
      ≡ true
unfolding insert_or
insert_or-shown now new [] unread =
    rw ((eq_iff new.fingerprint new.fingerprint).1 refl, unread) refl
insert_or-shown now new (m ∷ ms) unread = elim (Bool-cases (m.fingerprint == new.fingerprint)) [
  | inl hit ↦ rw (hit, insert_or) (rw hit refl)
  | inr miss ↦ rw (miss, insert_or) (rw miss (insert_or-shown now new ms unread))
]

module _ (fingerprint : (container_id : String) → Severity → (message : String) → String)
    (truncate : String → String) (now : ℕ) (fresh : String) where
  -- An alert that was acknowledged once stays out of the unread ones when `Upsert` reports it again:
  -- the unread list is the same before and after.
  pub upsert-hidden :
      (container_id name message : String) (severity : Severity) (ns : List Notification)
      (n : Notification)
      → row_of (fingerprint container_id severity message) ns ≡ some n
      → is_unread n ≡ false
      → list_unread (upsert fingerprint truncate now fresh container_id name severity message ns)
        ≡ list_unread ns
  unfolding upsert list_unread
  upsert-hidden container_id name message severity ns n row read =
      insert_or-hidden now _ ns row read

  -- What `Publish` reports is unread afterwards, acknowledged before or not.
  pub publish-shown :
      (title message : String) (severity : Severity) (ns : List Notification)
      → any
          (λ (n : Notification).
            n.fingerprint == fingerprint "system" severity (title ++ "|" ++ message) && is_unread n)
          (publish fingerprint truncate now fresh severity title message ns)
        ≡ true
  unfolding publish
  publish-shown title message severity ns = insert_or-shown now _ ns refl

acknowledged-read : (now : ℕ) (n : Notification) → is_unread (acknowledged now "all" n) ≡ false
acknowledged-read now n = ground arith

-- After "all" was acknowledged nothing is unread.
pub acknowledge-all :
    (now : ℕ) (ns : List Notification) → unread_count (acknowledge now "all" ns) ≡ 0
unfolding unread_count acknowledge
acknowledge-all now [] = refl
acknowledge-all now (n ∷ ns) = rw (acknowledged-read now n) (acknowledge-all now ns)
