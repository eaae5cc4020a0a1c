-- ===== src/Jobs/Slots.antt =====
-- internal/jobs/deploy_helpers.go: `deployBlueGreen` where no connected worker runs the service, with its
-- `nextSlot` and its `waitHealthy`, on fuel for its rounds of two seconds.
use Prim.Native.String.{◌++◌}
use tidefly_plane.Prelude.{
  ℕ, zero, suc, ◌+◌, ℤ, String, Bool, true, false, not, ◌&&◌, ◌||◌, Option, none, some, List, [],
  ◌∷◌, ◌==◌, ltb, if◌then◌else◌, put, get,
}
use tidefly_plane.Manifest.Resolved.{ResolvedManifest}
use tidefly_plane.Manifest.Adapter.{to_container_spec, itoa}
use tidefly_plane.Models.Service.{Service}
use tidefly_plane.Runtime.Types.{Container, ContainerStatus, Spec, running, exited, dead, is_podman}
use tidefly_plane.Runtime.Engine.{
  Engine, State, Route, list_containers, create_container, stop_container, delete_container,
  update_route, pause, save,
}
use tidefly_plane.Reconciler.Health.{
  Verdict, healthy, list_failed, exited_early, canceled, timed_out, out_of_fuel, Look, up, down,
  pending,
}
use tidefly_plane.Reconciler.BlueGreen.{
  Failure, creation_failed, unhealthy, switch_failed, proxy_network,
}

unfoldable pub job_next_slot : String → String
job_next_slot current = if current == "green" then "blue" else "green"

abbrev pub job_new_name : Service → String
job_new_name svc = svc.name ++ "-" ++ job_next_slot svc.active_slot_name

abbrev pub job_old_name : Service → String
job_old_name svc =
    if not (svc.active_slot_name == "") then svc.name ++ "-" ++ svc.active_slot_name else svc.name

unfoldable pub job_slot_spec : (String → ℤ) → Bool → Service → ResolvedManifest → Spec
unfolding job_next_slot
job_slot_spec parse_duration podman svc resolved =
    let base =
      to_container_spec parse_duration (record resolved { name = job_new_name svc }) proxy_network
        podman in
    record base {
      labels =
          put "tidefly.slot" (job_next_slot svc.active_slot_name)
            (put "tidefly.service-id" svc.id base.labels);
    }

-- The `switch` on the status of a container that has the name.
abbrev pub job_look_at : ContainerStatus → Look → Look
job_look_at running rest = up
job_look_at exited rest = down
job_look_at dead rest = down
job_look_at _ rest = rest

-- The loop over one listing.
unfoldable pub job_look : String → List Container → Look
job_look name [] = pending
job_look name (ct ∷ cs) =
    let rest = job_look name cs in
    if not (ct.name == name) then rest else job_look_at ct.status rest

-- The two tests of the loop that removes the old slot.
unfoldable pub job_is_old : Service → Container → Bool
job_is_old svc ct =
    let by_label =
      get "tidefly.service" ct.labels == svc.name
      && get "tidefly.slot" ct.labels == svc.active_slot_name in
    ct.name == job_old_name svc || by_label

unfoldable pub job_route : Service → ResolvedManifest → Route
unfolding job_next_slot
job_route svc resolved = record {
  service_name = svc.name;
  domain = resolved.expose.domain;
  upstream = job_new_name svc ++ ":" ++ itoa resolved.expose.port;
  tls = resolved.expose.tls;
  www = resolved.expose.www;
}

module _ {W : Type 0} (e : Engine W) where
  -- A round of the wait, which ends the wait or goes on with the next round.
  unfoldable pub job_waited :
      (State W → Verdict × State W) → (stop : Bool) → State W → Verdict × State W
  job_waited again true s = (canceled, s)
  job_waited again false s = again s

  unfoldable pub job_looked : (State W → Verdict × State W) → Look → State W → Verdict × State W
  unfolding job_waited
  job_looked again up s = (healthy, s)
  job_looked again down s = (exited_early, s)
  job_looked again pending s =
      let later = pause e 2000 s in job_waited again (e.canceled later.world) later

  unfoldable pub job_round :
      String → (State W → Verdict × State W) → Option (List Container) → State W → Verdict × State W
  unfolding job_look job_looked
  job_round name again none s = (list_failed, s)
  job_round name again (some cs) s = job_looked again (job_look name cs) s

  unfoldable pub job_rounds : String → (deadline fuel : ℕ) → State W → Verdict × State W
  unfolding job_round
  job_rounds name deadline zero s = (out_of_fuel, s)
  job_rounds name deadline (suc fuel) s = elim (ltb (e.now s.world) deadline) [
    | true ↦
        let (found, seen) = list_containers e s in
        job_round name (job_rounds name deadline fuel) found seen
    | false ↦ (timed_out, s)
  ]

  -- The caller waits for sixty seconds, which 32 rounds are enough for.
  unfoldable pub job_wait_healthy : String → (timeout : ℕ) → State W → Verdict × State W
  unfolding job_rounds
  job_wait_healthy name timeout s = job_rounds name (e.now s.world + timeout) 32 s

  abbrev pub roll_back : String → State W → State W
  roll_back name s = delete_container e name (stop_container e name s)

  unfoldable pub job_remove_old : Service → List Container → State W → State W
  unfolding job_is_old
  job_remove_old svc [] s = s
  job_remove_old svc (ct ∷ cs) s =
      job_remove_old svc cs (if job_is_old svc ct then roll_back ct.id s else s)

  -- A listing that fails is passed over.
  unfoldable pub job_listed : Service → Option (List Container) → State W → State W
  unfolding job_remove_old
  job_listed svc none s = s
  job_listed svc (some cs) s = job_remove_old svc cs s

  -- From the removal of the old slot on.
  unfoldable pub job_finished : Service → State W → Option Failure × State W
  unfolding job_listed job_next_slot
  job_finished svc s =
      let (found, seen) = list_containers e s in
      let cleaned = job_listed svc found seen in
      let slot = job_next_slot svc.active_slot_name in
      (none, save e (record cleaned.svc { active_slot_name = slot }) cleaned)

  unfoldable pub job_switched : Service → Option String → State W → Option Failure × State W
  unfolding job_finished job_next_slot
  job_switched svc none s = job_finished svc s
  job_switched svc (some text) s = (some (switch_failed text), roll_back (job_new_name svc) s)

  unfoldable pub job_healthy :
      Service → ResolvedManifest → Verdict → State W → Option Failure × State W
  unfolding job_switched job_route job_next_slot
  job_healthy svc resolved healthy s =
      if not (resolved.expose.domain == "")
      then (let (failed, routed) = update_route e (job_route svc resolved) s in
          job_switched svc failed routed)
      else job_finished svc s
  job_healthy svc resolved verdict s = (some (unhealthy verdict), roll_back (job_new_name svc) s)

  unfoldable pub job_created :
      Service → ResolvedManifest → Option String → State W → Option Failure × State W
  unfolding job_healthy job_wait_healthy job_next_slot
  job_created svc resolved none s =
      let (verdict, waited) = job_wait_healthy (job_new_name svc) 60000 s in
      job_healthy svc resolved verdict waited
  job_created svc resolved (some text) s = (some (creation_failed text), s)

  unfoldable pub deploy_blue_green :
      (String → ℤ) → ResolvedManifest → State W → Option Failure × State W
  unfolding job_slot_spec job_created
  deploy_blue_green parse_duration resolved s =
      let svc = s.svc in
      let (failed, tried) =
        create_container e (job_slot_spec parse_duration (is_podman e.type) svc resolved) s in
      job_created svc resolved failed tried
