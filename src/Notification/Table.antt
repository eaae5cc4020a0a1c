-- ===== src/Notification/Table.antt =====
-- internal/notification/service.go over the rows of internal/models/events.go. The fingerprint, a hash of
-- the normalised text, and the cut of a long message are arguments; the list is in no order, and the
-- events for subscribers are left out.
use Prim.Native.String.{◌++◌}
use tidefly_plane.Prelude.{
  ℕ, ◌+◌, String, Bool, not, ◌&&◌, ◌||◌, Option, none, some, List, [], ◌∷◌, ◌==◌, is_some,
  if◌then◌else◌, length, select, map, leb, any,
}
use tidefly_plane.Runtime.Engine.{Severity}

pub record Notification : Type 0 where
  pub id : String
  pub container_id : String
  pub container_name : String
  pub severity : Severity
  pub message : String
  pub fingerprint : String
  pub occurrence_count : ℕ
  pub acknowledged_at : Option ℕ
  pub created_at : ℕ
  pub updated_at : ℕ

abbrev pub is_unread : Notification → Bool
is_unread n = not (is_some n.acknowledged_at)

-- The insertion with its clause for a fingerprint that is there already.
unfoldable pub insert_or :
    (Notification → Notification) → Notification → List Notification → List Notification
insert_or update new [] = new ∷ []
insert_or update new (n ∷ ns) =
    let rest = insert_or update new ns in
    if n.fingerprint == new.fingerprint then update n ∷ ns else n ∷ rest

-- What `Upsert` does to a row that is there.
abbrev pub count_again : ℕ → Notification → Notification
count_again now n = record n { occurrence_count = n.occurrence_count + 1; updated_at = now }

-- What `Publish` does to it.
abbrev pub count_anew : ℕ → Notification → Notification
count_anew now n = record n {
  occurrence_count = n.occurrence_count + 1;
  acknowledged_at = none;
  updated_at = now;
}

abbrev pub acknowledged : ℕ → String → Notification → Notification
acknowledged now id n =
    if is_unread n && (id == "all" || n.id == id)
    then record n { acknowledged_at = some now }
    else n

module _ (fingerprint : (container_id : String) → Severity → (message : String) → String)
    (truncate : String → String) (now : ℕ) (fresh : String) where
  unfoldable pub upsert :
      (container_id container_name : String)
      → Severity
      → (message : String) → List Notification
      → List Notification
  unfolding insert_or
  upsert container_id container_name severity message = insert_or (count_again now) (record {
    id = fresh;
    container_id = container_id;
    container_name = container_name;
    severity = severity;
    message = truncate message;
    fingerprint = fingerprint container_id severity message;
    occurrence_count = 1;
    acknowledged_at = none;
    created_at = now;
    updated_at = now;
  })

  unfoldable pub publish :
      Severity → (title message : String) → List Notification → List Notification
  unfolding insert_or
  publish severity title message = insert_or (count_anew now) (record {
    id = fresh;
    container_id = "";
    container_name = "system";
    severity = severity;
    message = truncate (title ++ ": " ++ message);
    fingerprint = fingerprint "system" severity (title ++ "|" ++ message);
    occurrence_count = 1;
    acknowledged_at = none;
    created_at = now;
    updated_at = now;
  })

unfoldable pub list_unread : List Notification → List Notification
list_unread = select is_unread

unfoldable pub acknowledge : (now : ℕ) (id : String) → List Notification → List Notification
acknowledge now id ns = map (acknowledged now id) ns

unfoldable pub delete : String → List Notification → List Notification
delete id = select (λ (n : Notification). not (n.id == id))

unfoldable pub delete_all : List Notification → List Notification
delete_all = select is_unread

unfoldable pub unread_count : List Notification → ℕ
unread_count ns = length (select is_unread ns)

unfoldable pub is_new : String → List Notification → Bool
is_new fp =
    any (λ (n : Notification). n.fingerprint == fp && (is_unread n && leb n.occurrence_count 1))
