-- ===== src/Jobs/Names.antt =====
-- The name of the service that the watcher of internal/jobs/events_webhooks.go finds behind a container of
-- a slot.
use Prim.Native.String.{◌++◌}
use tidefly_plane.Prelude.{String, ◌≡◌, refl, inl, inr, Bool-cases, ◌==◌, arith}
use tidefly_plane.Prelude.Suffix.{strip_suffix-append, strip_suffix-other}
use tidefly_plane.Models.Service.{Service}
use tidefly_plane.Reconciler.BlueGreen.{slot_name, next_slot}
use tidefly_plane.Jobs.Events.{derive_service_name}

-- Also where the whole name is a service's own.
pub derive_service_name-green : (name : String) → derive_service_name (name ++ "-green") ≡ name
unfolding derive_service_name
derive_service_name-green name = rw (strip_suffix-append name "-" "green", derive_service_name) refl

derive_service_name-blue : (name : String) → derive_service_name (name ++ "-blue") ≡ name
unfolding derive_service_name
derive_service_name-blue name =
    rw
      (
        strip_suffix-other name "-" "-" "blue" "green" (λ same. omega (arith, same)),
        strip_suffix-append name "-" "blue",
        derive_service_name,
      )
      refl

-- The container of a new slot, whichever it is, is healed under the name of its service.
pub derive_service_name-slot_name :
    (svc : Service) (current : String)
    → derive_service_name (slot_name svc (next_slot current)) ≡ svc.name
unfolding next_slot
derive_service_name-slot_name svc current = elim (Bool-cases (current == "green")) [
  | inl green ↦ rw green (derive_service_name-blue svc.name)
  | inr other ↦ rw other (derive_service_name-green svc.name)
]
