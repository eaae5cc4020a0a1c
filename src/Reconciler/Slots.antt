-- ===== src/Reconciler/Slots.antt =====
-- The slots of internal/reconciler/bluegreen.go: the removal of the old one spares the new one.
use Prim.Native.String.{◌++◌}
use text.Mathlib.TextLemmas.{append-nil, append_cancel_left, append-eq-nil_iff}
use tidefly_plane.Prelude.{
  equal_or_not, not_equal, String, false, ◌≡◌, refl, sym, ◌∙◌, ◌≢◌, inl, inr, Bool-cases, arith,
  ◌==◌, eq_iff, get,
}
use tidefly_plane.Models.Service.{Service}
use tidefly_plane.Runtime.Types.{Container}
use tidefly_plane.Reconciler.BlueGreen.{next_slot, slot_name, old_name, is_old}

next_slot_moves : (current : String) → next_slot current ≢ current
unfolding next_slot
next_slot_moves current h = elim (Bool-cases (current == "green")) [
  | inl green ↦ equal_or_not "blue" "green" refl (rw green at h ∙ (eq_iff current "green").0 green)
  | inr other ↦ cc ((eq_iff current "green").1 (sym (rw other at h)))
]

-- The new slot's name is neither the bare name nor that of the active slot.
slot_name-old_name : (svc : Service) → slot_name svc (next_slot svc.active_slot_name) ≢ old_name svc
slot_name-old_name svc h = elim (Bool-cases (svc.active_slot_name == "")) [
  | inl first ↦
      equal_or_not "-" "" refl
        (append-eq-nil_iff.0 (
          append_cancel_left svc.name ("-" ++ next_slot svc.active_slot_name) ""
            (rw first at h ∙ sym (append-nil svc.name)))).0
  | inr active ↦
      next_slot_moves svc.active_slot_name
        (append_cancel_left "-" _ _ (append_cancel_left svc.name _ _ (rw active at h)))
]

-- A container that has the new slot's name and label is never one that the deployment removes as old,
-- so that the slot that traffic was switched to survives the clean-up; and the new slot's name and
-- label differ from those of the active slot.
pub is_old-new_slot :
    (svc : Service) (ct : Container)
    → ct.name ≡ slot_name svc (next_slot svc.active_slot_name)
    → get "tidefly.slot" ct.labels ≡ next_slot svc.active_slot_name
    → is_old svc ct ≡ false
unfolding is_old
is_old-new_slot svc ct named labelled =
    let other_slot =
      not_equal (get "tidefly.slot" ct.labels) svc.active_slot_name
        (λ same. next_slot_moves svc.active_slot_name (sym labelled ∙ same)) in
    let other_name =
      not_equal ct.name (old_name svc) (λ same. slot_name-old_name svc (sym named ∙ same)) in
    ground (arith, other_slot, other_name)
