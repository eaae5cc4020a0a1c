-- ===== src/Reconciler/Switch.antt =====
-- The order of the calls of internal/reconciler/bluegreen.go.
use mathlib.Core.List.{Memᴰ}
use tidefly_plane.Prelude.{
  ℤ, String, Option, none, some, List, [], ◌∷◌, ◌≡◌, refl, ◌⊎◌, inl, inr, Bool-cases, ◌==◌, eq_iff,
}
use tidefly_plane.Manifest.Resolved.{ResolvedManifest}
use tidefly_plane.Models.Service.{Service}
use tidefly_plane.Runtime.Types.{Container, is_podman}
use tidefly_plane.Runtime.Engine.{
  Engine, State, Call, Route, routed, list_containers, create_container, stop_and_delete,
  update_route, stop_container, delete_container,
}
use tidefly_plane.Reconciler.Health.{
  Verdict, healthy, wait_healthy, list_failed, exited_early, canceled, timed_out, out_of_fuel,
}
use tidefly_plane.Reconciler.BlueGreen.{
  next_slot, slot_name, slot_route, is_old, remove_old, remove_listed, finish_switch, slot_spec,
  after_switch, switch_traffic, after_health, after_create, blue_green,
}
use tidefly_plane.Reconciler.Traces.{
  SeenUp, Cleared, list-Cleared, create-Cleared, route-Cleared, stop_and_delete-Cleared,
  wait_healthy-Cleared, wait_healthy-healthy, update_route-routed,
}

-- The new slot was seen running, and the domain, if there is one, was sent to it.
abbrev pub SwitchedTo : Service → ResolvedManifest → String → List Call → Type 0
SwitchedTo svc resolved new trace =
    SeenUp new trace
    × ((resolved.expose.domain ≡ "") ⊎ Memᴰ (routed (slot_route svc resolved new)) trace)

-- A later call keeps it.
SwitchedTo-cons :
    (svc : Service) (resolved : ResolvedManifest) (new : String) (c : Call) (trace : List Call)
    → SwitchedTo svc resolved new trace
    → SwitchedTo svc resolved new (c ∷ trace)
SwitchedTo-cons svc resolved new c trace ((cs, m, up), inl bare) = ((cs, Memᴰ.tail m, up), inl bare)
SwitchedTo-cons svc resolved new c trace ((cs, m, up), inr sent) =
    ((cs, Memᴰ.tail m, up), inr (Memᴰ.tail sent))

module _ {W : Type 0} (e : Engine W) (svc : Service) (resolved : ResolvedManifest)
    (new : String) where
  later :
      {c : Call} {trace : List Call}
      → SwitchedTo svc resolved new trace
      → SwitchedTo svc resolved new (c ∷ trace)
  later {c} {trace} done = SwitchedTo-cons svc resolved new c trace done

  -- What the trace of a deployment of the slot has to satisfy.
  abbrev Switching : List Call → Type 0
  Switching = Cleared (λ id. id ≡ new) (λ id. SwitchedTo svc resolved new)

  remove_old-Switching :
      (cs : List Container) (s : State W)
      → SwitchedTo svc resolved new s.trace
      → Switching s.trace
      → Switching (remove_old e svc cs s).trace
  unfolding remove_old stop_and_delete stop_container delete_container
  remove_old-Switching [] s done h = h
  remove_old-Switching (ct ∷ cs) s done h = elim (Bool-cases (is_old svc ct)) [
    | inr other ↦ rw (other, remove_old) (remove_old-Switching cs s done h)
    | inl old ↦
        rw (old, remove_old)
          (remove_old-Switching cs (stop_and_delete e ct.id s) (later (later done)) (
            stop_and_delete-Cleared e (λ id. id ≡ new) (λ id. SwitchedTo svc resolved new) ct.id s
              (inr (done, later done)) h))
  ]

  remove_listed-Switching :
      (found : Option (List Container)) (s : State W)
      → SwitchedTo svc resolved new s.trace
      → Switching s.trace
      → Switching (remove_listed e svc found s).trace
  unfolding remove_listed
  remove_listed-Switching none s done h = h
  remove_listed-Switching (some cs) s done h = remove_old-Switching cs s done h

  finish_switch-Switching :
      (slot : String) (s : State W)
      → SwitchedTo svc resolved new s.trace
      → Switching s.trace
      → Switching (finish_switch e svc slot s).1.trace
  unfolding finish_switch list_containers
  finish_switch-Switching slot s done h =
      remove_listed-Switching (list_containers e s).0 (list_containers e s).1 (later done)
        (list-Cleared e (λ id. id ≡ new) (λ id. SwitchedTo svc resolved new) s h)

  drop_new-Switching : (s : State W) → Switching s.trace → Switching (stop_and_delete e new s).trace
  drop_new-Switching s h =
      stop_and_delete-Cleared e (λ id. id ≡ new) (λ id. SwitchedTo svc resolved new) new s
        (inl refl) h

  update_route-seen :
      (r : Route) (s : State W) → SeenUp new s.trace → SeenUp new (update_route e r s).1.trace
  unfolding update_route
  update_route-seen r s (cs, m, up) = (cs, Memᴰ.tail m, up)

  after_switch-Switching :
      (slot : String) (failed : Option String) (s : State W)
      → (failed ≡ none → SwitchedTo svc resolved new s.trace)
      → Switching s.trace
      → Switching (after_switch e svc slot new failed s).1.trace
  unfolding after_switch
  after_switch-Switching slot none s done h = finish_switch-Switching slot s (done refl) h
  after_switch-Switching slot (some text) s done h = drop_new-Switching s h

  switch_traffic-Switching :
      (slot : String) (s : State W)
      → SeenUp new s.trace
      → Switching s.trace
      → Switching (switch_traffic e svc resolved slot new s).1.trace
  unfolding switch_traffic
  switch_traffic-Switching slot s seen h = elim (Bool-cases (resolved.expose.domain == "")) [
    | inl bare ↦
        rw bare
          (finish_switch-Switching slot s (seen, inl ((eq_iff resolved.expose.domain "").0 bare)) h)
    | inr domain ↦
        let r = slot_route svc resolved new in
        rw domain (
          after_switch-Switching slot (update_route e r s).0 (update_route e r s).1
            (λ sent. (update_route-seen r s seen, inr (update_route-routed e r s sent)))
            (route-Cleared e (λ id. id ≡ new) (λ id. SwitchedTo svc resolved new) r s h))
  ]

  after_health-Switching :
      (slot : String) (v : Verdict) (s : State W)
      → (v ≡ healthy → SeenUp new s.trace)
      → Switching s.trace
      → Switching (after_health e svc resolved slot new v s).1.trace
  unfolding after_health
  after_health-Switching slot healthy s seen h = switch_traffic-Switching slot s (seen refl) h
  after_health-Switching slot list_failed s seen h = drop_new-Switching s h
  after_health-Switching slot exited_early s seen h = drop_new-Switching s h
  after_health-Switching slot canceled s seen h = drop_new-Switching s h
  after_health-Switching slot timed_out s seen h = drop_new-Switching s h
  after_health-Switching slot out_of_fuel s seen h = drop_new-Switching s h

  after_create-Switching :
      (slot : String) (failed : Option String) (s : State W)
      → Switching s.trace
      → Switching (after_create e svc resolved slot new failed s).1.trace
  unfolding after_create
  after_create-Switching slot none s h =
      after_health-Switching slot (wait_healthy e new s).0 (wait_healthy e new s).1
        (wait_healthy-healthy e new s)
        (wait_healthy-Cleared e new (λ id. id ≡ new) (λ id. SwitchedTo svc resolved new) s h)
  after_create-Switching slot (some text) s h = h

-- A blue-green deployment stops or deletes no container but the one that it creates itself, unless
-- the new slot was seen running before and the service's domain, if it has one, was successfully sent
-- to the new slot before.
pub blue_green_safe :
    {W : Type 0} (e : Engine W) (parse_duration : String → ℤ) (resolved : ResolvedManifest)
    (s : State W)
    → Cleared
        (λ id. id ≡ slot_name s.svc (next_slot s.svc.active_slot_name))
        (λ id. SwitchedTo s.svc resolved (slot_name s.svc (next_slot s.svc.active_slot_name)))
        (blue_green e parse_duration resolved (record s { trace = [] })).1.trace
unfolding blue_green
blue_green_safe e parse_duration resolved s =
    let slot = next_slot s.svc.active_slot_name in
    let new = slot_name s.svc slot in
    let start = record s { trace = [] } in
    let spec = slot_spec parse_duration (is_podman e.type) s.svc resolved in
    after_create-Switching e s.svc resolved new slot (create_container e spec start).0
      (create_container e spec start).1
      (create-Cleared e (λ id. id ≡ new) (λ id. SwitchedTo s.svc resolved new) spec start tt)
