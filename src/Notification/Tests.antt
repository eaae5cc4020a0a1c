-- ===== src/Notification/Tests.antt =====
-- Two alerts of one container, and theorems on internal/notification at them. A fingerprint is the
-- container and the message.
use Prim.Native.String.{◌++◌}
use tidefly_plane.Prelude.{ℕ, String, some, List, [], ◌∷◌, ◌≡◌, refl}
use tidefly_plane.Runtime.Engine.{Severity, error}
use tidefly_plane.Notification.Table.{Notification, upsert, acknowledge}
use tidefly_plane.Notification.Rows.{Operation, upserting, acknowledging, run_all}
use tidefly_plane.Notification.Ledger.{view, account_all, run_all-account}

abbrev print_of : (container_id : String) → Severity → (message : String) → String
print_of container_id severity message = container_id ++ message

abbrev whole : String → String
whole text = text

abbrev history : List (ℕ × String × Operation)
history =
    (3, "c", acknowledging "all")
    ∷ (2, "b", upserting "web" "web" error "down")
    ∷ (1, "a", upserting "web" "web" error "down")
    ∷ []

abbrev down : Notification
down = record {
  id = "a";
  container_id = "web";
  container_name = "web";
  severity = error;
  message = "down";
  fingerprint = "webdown";
  occurrence_count = 2;
  acknowledged_at = some 3;
  created_at = 1;
  updated_at = 2;
}

run_all_test : run_all print_of whole history ≡ down ∷ []
unfolding upsert acknowledge
run_all_test = refl

run_all-account_example :
    view (run_all print_of whole history) "webdown" ≡ account_all print_of history "webdown"
run_all-account_example = run_all-account print_of whole history "webdown"
