-- ===== src/Reconciler/Rollback.antt =====
-- The two ends of internal/reconciler/bluegreen.go: the switch, and the rollback.
use tidefly_plane.Prelude.{
  ℕ, ℤ, String, Option, none, some, List, [], ◌∷◌, ◌≡◌, refl, ap, ◌∙◌, inl, inr, Bool-cases, ◌==◌,
}
use tidefly_plane.Manifest.Resolved.{ResolvedManifest}
use tidefly_plane.Models.Service.{Service}
use tidefly_plane.Runtime.Types.{Container, is_podman}
use tidefly_plane.Runtime.Engine.{
  Engine, State, Call, list_containers, create_container, stop_and_delete, update_route,
  stop_container, delete_container,
}
use tidefly_plane.Reconciler.Health.{
  Verdict, healthy, wait_healthy, list_failed, exited_early, canceled, timed_out, out_of_fuel,
}
use tidefly_plane.Reconciler.BlueGreen.{
  Failure, next_slot, slot_name, slot_route, slot_spec, is_old, remove_old, remove_listed,
  finish_switch, after_switch, switch_traffic, after_health, after_create, blue_green,
}
use tidefly_plane.Reconciler.Traces.{
  Cleared, create-Cleared, route-Cleared, stop_and_delete-Cleared, wait_healthy-Cleared,
  wait_healthy-svc,
}

-- Only the container of that name is stopped or deleted.
abbrev pub OnlyClears : String → List Call → Type 0
OnlyClears new = Cleared (λ id. id ≡ new) (λ id t. ⊥)

-- The service's row names the new slot, and is otherwise as it was but for its stamp; or the
-- deployment failed: then the row is as it was and no other container was touched.
abbrev pub AllOrNothing :
    {W : Type 0} → Service → (slot new : String) → Option Failure → State W → Type 0
AllOrNothing svc slot new none s =
    (at : ℕ) × (s.svc ≡ record svc { active_slot_name = slot; updated_at = at })
AllOrNothing svc slot new (some failure) s = (s.svc ≡ svc) × OnlyClears new s.trace

module _ {W : Type 0} (e : Engine W) (svc : Service) (resolved : ResolvedManifest)
    (slot new : String) where
  remove_old-svc : (cs : List Container) (s : State W) → (remove_old e svc cs s).svc ≡ s.svc
  unfolding remove_old stop_and_delete stop_container delete_container
  remove_old-svc [] s = refl
  remove_old-svc (ct ∷ cs) s = elim (Bool-cases (is_old svc ct)) [
    | inl old ↦ rw (old, remove_old) (remove_old-svc cs (stop_and_delete e ct.id s))
    | inr other ↦ rw (other, remove_old) (remove_old-svc cs s)
  ]

  remove_listed-svc :
      (found : Option (List Container)) (s : State W) → (remove_listed e svc found s).svc ≡ s.svc
  unfolding remove_listed
  remove_listed-svc none s = refl
  remove_listed-svc (some cs) s = remove_old-svc cs s

  finish_switch-AllOrNothing :
      (s : State W)
      → s.svc ≡ svc
      → AllOrNothing svc slot new (finish_switch e svc slot s).0 (finish_switch e svc slot s).1
  unfolding finish_switch list_containers
  finish_switch-AllOrNothing s same =
      let cleaned = remove_listed e svc (list_containers e s).0 (list_containers e s).1 in
      (
        e.now cleaned.world,
        ap (λ (v : Service). record v { active_slot_name = slot; updated_at = e.now cleaned.world })
            (remove_listed-svc (list_containers e s).0 (list_containers e s).1 ∙ same),
      )

  drop_new-OnlyClears :
      (s : State W) → OnlyClears new s.trace → OnlyClears new (stop_and_delete e new s).trace
  drop_new-OnlyClears s h =
      stop_and_delete-Cleared e (λ id. id ≡ new) (λ id t. ⊥) new s (inl refl) h

  drop_new-svc : (s : State W) → (stop_and_delete e new s).svc ≡ s.svc
  unfolding stop_and_delete stop_container delete_container
  drop_new-svc s = refl

  after_switch-AllOrNothing :
      (failed : Option String) (s : State W)
      → s.svc ≡ svc
      → OnlyClears new s.trace
      → AllOrNothing svc slot new
          (after_switch e svc slot new failed s).0
          (after_switch e svc slot new failed s).1
  unfolding after_switch
  after_switch-AllOrNothing none s same h = finish_switch-AllOrNothing s same
  after_switch-AllOrNothing (some text) s same h = (drop_new-svc s ∙ same, drop_new-OnlyClears s h)

  switch_traffic-AllOrNothing :
      (s : State W)
      → s.svc ≡ svc
      → OnlyClears new s.trace
      → AllOrNothing svc slot new
          (switch_traffic e svc resolved slot new s).0
          (switch_traffic e svc resolved slot new s).1
  unfolding switch_traffic update_route
  switch_traffic-AllOrNothing s same h = elim (Bool-cases (resolved.expose.domain == "")) [
    | inl bare ↦ rw bare (finish_switch-AllOrNothing s same)
    | inr domain ↦
        let r = slot_route svc resolved new in
        rw domain (
          after_switch-AllOrNothing (update_route e r s).0 (update_route e r s).1 same
            (route-Cleared e (λ id. id ≡ new) (λ id t. ⊥) r s h))
  ]

  after_health-AllOrNothing :
      (v : Verdict) (s : State W)
      → s.svc ≡ svc
      → OnlyClears new s.trace
      → AllOrNothing svc slot new
          (after_health e svc resolved slot new v s).0
          (after_health e svc resolved slot new v s).1
  unfolding after_health
  after_health-AllOrNothing healthy s same h = switch_traffic-AllOrNothing s same h
  after_health-AllOrNothing list_failed s same h = (drop_new-svc s ∙ same, drop_new-OnlyClears s h)
  after_health-AllOrNothing exited_early s same h = (drop_new-svc s ∙ same, drop_new-OnlyClears s h)
  after_health-AllOrNothing canceled s same h = (drop_new-svc s ∙ same, drop_new-OnlyClears s h)
  after_health-AllOrNothing timed_out s same h = (drop_new-svc s ∙ same, drop_new-OnlyClears s h)
  after_health-AllOrNothing out_of_fuel s same h = (drop_new-svc s ∙ same, drop_new-OnlyClears s h)

  after_create-AllOrNothing :
      (failed : Option String) (s : State W)
      → s.svc ≡ svc
      → OnlyClears new s.trace
      → AllOrNothing svc slot new
          (after_create e svc resolved slot new failed s).0
          (after_create e svc resolved slot new failed s).1
  unfolding after_create
  after_create-AllOrNothing none s same h =
      after_health-AllOrNothing (wait_healthy e new s).0 (wait_healthy e new s).1
        (wait_healthy-svc e new s ∙ same)
        (wait_healthy-Cleared e new (λ id. id ≡ new) (λ id t. ⊥) s h)
  after_create-AllOrNothing (some text) s same h = (same, h)

-- A blue-green deployment either ends without an error, and then the service's row names the new slot
-- and is otherwise unchanged but for the stamp of the write, or it ends with an error, and then the
-- row is unchanged and no container but the one that the deployment created was stopped or deleted.
pub blue_green_atomic :
    {W : Type 0} (e : Engine W) (parse_duration : String → ℤ) (resolved : ResolvedManifest)
    (s : State W)
    → AllOrNothing s.svc
        (next_slot s.svc.active_slot_name)
        (slot_name s.svc (next_slot s.svc.active_slot_name))
        (blue_green e parse_duration resolved (record s { trace = [] })).0
        (blue_green e parse_duration resolved (record s { trace = [] })).1
unfolding blue_green create_container
blue_green_atomic e parse_duration resolved s =
    let slot = next_slot s.svc.active_slot_name in
    let new = slot_name s.svc slot in
    let start = record s { trace = [] } in
    let spec = slot_spec parse_duration (is_podman e.type) s.svc resolved in
    after_create-AllOrNothing e s.svc resolved slot new (create_container e spec start).0
      (create_container e spec start).1 refl
      (create-Cleared e (λ id. id ≡ new) (λ id t. ⊥) spec start tt)
