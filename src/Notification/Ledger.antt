-- ===== src/Notification/Ledger.antt =====
-- The table of internal/notification against what it is for: an account, for each fingerprint, of the
-- alerts that came in. The account knows nothing of rows, their order, their texts or their times.
use Prim.Native.String.{◌++◌}
use tidefly_plane.Prelude.{
  ℕ, ◌+◌, String, Bool, true, false, not, ◌&&◌, ◌||◌, Option, none, some, List, [], ◌∷◌, ◌≡◌, refl,
  sym, ap, ◌∙◌, subst, inl, inr, Bool-cases, ◌==◌, eq_iff, not_equal, arith, select, if◌then◌else◌,
}
use tidefly_plane.Runtime.Engine.{Severity}
use tidefly_plane.Notification.Table.{
  Notification, is_unread, insert_or, count_again, count_anew, acknowledged, upsert, publish,
  acknowledge, delete, delete_all,
}
use tidefly_plane.Notification.Rows.{
  Lacks, Distinct, Operation, upserting, publishing, acknowledging, deleting, deleting_all, run,
  run_all, run_all-Distinct,
}
use tidefly_plane.Notification.Unread.{row_of}

pub record Alert : Type 0 where
  pub id : String
  pub count : ℕ
  pub unread : Bool

abbrev pub Account : Type 0
Account = String → Option Alert

-- A report counts, and opens an account where there is none; `anew` makes an old one unread again.
abbrev pub counted : (anew : Bool) (fresh : String) → Option Alert → Option Alert
counted anew fresh none = some (record { id = fresh; count = 1; unread = true })
counted anew fresh (some a) = some (record a { count = a.count + 1; unread = anew || a.unread })

abbrev pub marked_read : String → Option Alert → Option Alert
marked_read id none = none
marked_read id (some a) = some (record a { unread = a.unread && not (id == "all" || a.id == id) })

abbrev pub closed_if : (Alert → Bool) → Option Alert → Option Alert
closed_if gone none = none
closed_if gone (some a) = if gone a then none else some a

-- What the table says of a fingerprint.
abbrev pub alert : Notification → Alert
alert n = record { id = n.id; count = n.occurrence_count; unread = is_unread n }

abbrev pub alert_of : Option Notification → Option Alert
alert_of none = none
alert_of (some n) = some (alert n)

abbrev pub view : List Notification → Account
view ns fp = alert_of (row_of fp ns)

module _ (fingerprint : (container_id : String) → Severity → (message : String) → String) where
  -- The account after an operation.
  pub account : (fresh : String) → Operation → Account → Account
  account fresh (upserting container_id name severity message) a fp =
      if fingerprint container_id severity message == fp then counted false fresh (a fp) else a fp
  account fresh (publishing severity title message) a fp =
      if fingerprint "system" severity (title ++ "|" ++ message) == fp
      then counted true fresh (a fp)
      else a fp
  account fresh (acknowledging id) a fp = marked_read id (a fp)
  account fresh (deleting id) a fp = closed_if (λ x. x.id == id) (a fp)
  account fresh deleting_all a fp = closed_if (λ x. not x.unread) (a fp)

  pub account_all : List (ℕ × String × Operation) → Account
  account_all [] fp = none
  account_all ((now, fresh, op) ∷ ops) fp = account fresh op (account_all ops) fp

updated_or :
    (Notification → Notification) → Notification → Option Notification → Option Notification
updated_or update new none = some new
updated_or update new (some n) = some (update n)

row_of-insert_or :
    (update : Notification → Notification) (new : Notification) (fp : String)
    (ns : List Notification)
    → ((n : Notification) → (update n).fingerprint ≡ n.fingerprint)
    → row_of fp (insert_or update new ns)
      ≡ (if new.fingerprint == fp then updated_or update new (row_of fp ns) else row_of fp ns)
unfolding insert_or updated_or
row_of-insert_or update new fp [] same = refl
row_of-insert_or update new fp (n ∷ ns) same =
    elim (Bool-cases (n.fingerprint == new.fingerprint)) [
      | inl hit ↦
          let equal : n.fingerprint ≡ new.fingerprint =
            (eq_iff n.fingerprint new.fingerprint).0 hit in
          elim (Bool-cases (new.fingerprint == fp)) [
            | inl here ↦
                let there : n.fingerprint == fp ≡ true =
                  ap (λ (x : String). x == fp) equal ∙ here in
                let updated : (update n).fingerprint == fp ≡ true =
                  ap (λ (x : String). x == fp) (same n) ∙ there in
                rw (hit, insert_or) (rw (here, there, updated) refl)
            | inr other ↦
                let away : n.fingerprint == fp ≡ false =
                  ap (λ (x : String). x == fp) equal ∙ other in
                let updated : (update n).fingerprint == fp ≡ false =
                  ap (λ (x : String). x == fp) (same n) ∙ away in
                rw (hit, insert_or) (rw (other, away, updated) refl)
          ]
      | inr miss ↦ elim (Bool-cases (n.fingerprint == fp)) [
        | inl here ↦
            let other : new.fingerprint == fp ≡ false = not_equal new.fingerprint fp (λ e. cc (
              (eq_iff n.fingerprint new.fingerprint).1
                ((eq_iff n.fingerprint fp).0 here ∙ sym e))) in
            rw (miss, insert_or) (rw (here, other) refl)
        | inr away ↦ rw (miss, insert_or) (rw away (row_of-insert_or update new fp ns same))
      ]
    ]

view-acknowledge :
    (now : ℕ) (id fp : String) (ns : List Notification)
    → view (acknowledge now id ns) fp ≡ marked_read id (view ns fp)
unfolding acknowledge
view-acknowledge now id fp [] = refl
view-acknowledge now id fp (n ∷ ns) =
    let kept : (acknowledged now id n).fingerprint ≡ n.fingerprint = ground arith in
    elim (Bool-cases (n.fingerprint == fp)) [
      | inl here ↦
          rw (ap (λ (x : String). x == fp) kept ∙ here, here)
            (ap (λ (a : Alert). some a) (read (is_unread n) (id == "all" || n.id == id) refl refl))
      | inr away ↦
          rw (ap (λ (x : String). x == fp) kept ∙ away, away) (view-acknowledge now id fp ns)
    ]
  where
    read :
        (u m : Bool)
        → is_unread n ≡ u
        → (id == "all" || n.id == id) ≡ m
        → alert (acknowledged now id n)
          ≡ record (alert n) { unread = is_unread n && not (id == "all" || n.id == id) }
    read true true unread meant = rw (unread, meant) refl
    read true false unread meant =
        rw (unread, meant) (ap (λ (u : Bool). record (alert n) { unread = u }) unread)
    read false m unread meant =
        rw unread (ap (λ (u : Bool). record (alert n) { unread = u }) unread)

row_of-Lacks : (fp : String) (ns : List Notification) → Lacks fp ns → row_of fp ns ≡ none
row_of-Lacks fp [] h = refl
row_of-Lacks fp (n ∷ ns) h = rw (not_equal n.fingerprint fp h.0) (row_of-Lacks fp ns h.1)

select-none :
    (keep : Notification → Bool) (fp : String) (ns : List Notification)
    → row_of fp ns ≡ none
    → row_of fp (select keep ns) ≡ none
select-none keep fp [] h = refl
select-none keep fp (n ∷ ns) h = elim (Bool-cases (n.fingerprint == fp)) [
  | inl here ↦ cc (rw here at h)
  | inr away ↦ elim (Bool-cases (keep n)) [
    | inl kept ↦ rw (kept, away) (select-none keep fp ns (rw away at h))
    | inr gone ↦ rw gone (select-none keep fp ns (rw away at h))
  ]
]

view-select :
    (keep : Notification → Bool) (gone : Alert → Bool) (fp : String) (ns : List Notification)
    → ((n : Notification) → keep n ≡ not (gone (alert n)))
    → Distinct ns
    → view (select keep ns) fp ≡ closed_if gone (view ns fp)
view-select keep gone fp [] same distinct = refl
view-select keep gone fp (n ∷ ns) same distinct = elim (Bool-cases (n.fingerprint == fp)) [
  | inl here ↦
      let equal = (eq_iff n.fingerprint fp).0 here in
      let alone = row_of-Lacks fp ns (subst (λ x. Lacks x ns) equal distinct.0) in
      elim (Bool-cases (gone (alert n))) [
        | inl out ↦
            let dropped : keep n ≡ false = same n ∙ ap not out in
            rw (dropped, here, out) (ap alert_of (select-none keep fp ns alone))
        | inr stays ↦
            let kept : keep n ≡ true = same n ∙ ap not stays in rw (kept, here, stays) refl
      ]
  | inr away ↦ elim (Bool-cases (keep n)) [
    | inl kept ↦ rw (kept, away) (view-select keep gone fp ns same distinct.1)
    | inr dropped ↦ rw (dropped, away) (view-select keep gone fp ns same distinct.1)
  ]
]

view-insert_or :
    (update : Notification → Notification) (new : Notification) (anew : Bool) (fp : String)
    (ns : List Notification)
    → ((n : Notification) → (update n).fingerprint ≡ n.fingerprint)
    → ((n : Notification) → some (alert (update n)) ≡ counted anew new.id (some (alert n)))
    → some (alert new) ≡ counted anew new.id none
    → view (insert_or update new ns) fp
      ≡ (if new.fingerprint == fp then counted anew new.id (view ns fp) else view ns fp)
unfolding updated_or
view-insert_or update new anew fp ns same again first =
    ap alert_of (row_of-insert_or update new fp ns same)
    ∙ chosen (new.fingerprint == fp) (row_of fp ns)
  where
    chosen :
        (b : Bool) (o : Option Notification)
        → alert_of (if b then updated_or update new o else o)
          ≡ (if b then counted anew new.id (alert_of o) else alert_of o)
    chosen false o = refl
    chosen true none = first
    chosen true (some n) = again n

module _ (fingerprint : (container_id : String) → Severity → (message : String) → String)
    (truncate : String → String) where
  run-account :
      (now : ℕ) (fresh : String) (op : Operation) (ns : List Notification) (fp : String)
      → Distinct ns
      → view (run fingerprint truncate now fresh op ns) fp
        ≡ account fingerprint fresh op (view ns) fp
  unfolding upsert publish delete delete_all account
  run-account now fresh (upserting container_id name severity message) ns fp distinct =
      view-insert_or (count_again now) _ false fp ns (λ n. refl) (λ n. refl) refl
  run-account now fresh (publishing severity title message) ns fp distinct =
      view-insert_or (count_anew now) _ true fp ns (λ n. refl) (λ n. refl) refl
  run-account now fresh (acknowledging id) ns fp distinct = view-acknowledge now id fp ns
  run-account now fresh (deleting id) ns fp distinct =
      view-select _ (λ a. a.id == id) fp ns (λ n. refl) distinct
  run-account now fresh deleting_all ns fp distinct =
      view-select _ (λ a. not a.unread) fp ns (λ n. ground arith) distinct

  -- After any operations on an empty table, at any times and with any cut of long messages, the table
  -- says of each fingerprint what the account says: how often it was reported since its row was made,
  -- whether it is unread, and under which identifier it is known.
  pub run_all-account :
      (ops : List (ℕ × String × Operation)) (fp : String)
      → view (run_all fingerprint truncate ops) fp ≡ account_all fingerprint ops fp
  unfolding account_all
  run_all-account [] fp = refl
  run_all-account ((now, fresh, op) ∷ ops) fp =
      run-account now fresh op (run_all fingerprint truncate ops) fp
        (run_all-Distinct fingerprint truncate ops)
      ∙ λ i. account fingerprint fresh op (λ x. run_all-account ops x i) fp
