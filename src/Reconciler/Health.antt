-- ===== src/Reconciler/Health.antt =====
-- internal/reconciler/reconciler.go: `waitHealthy`, on fuel for its rounds of two seconds.
use tidefly_plane.Prelude.{
  ℕ, zero, suc, ◌+◌, String, Bool, true, false, Option, none, some, List, [], ◌∷◌, ◌==◌, ltb,
  if◌then◌else◌,
}
use tidefly_plane.Runtime.Types.{Container, ContainerStatus, running, exited, dead}
use tidefly_plane.Runtime.Engine.{Engine, State, list_containers, pause}

-- Sixty seconds, and the two seconds between two looks, in milliseconds.
abbrev pub health_timeout : ℕ
health_timeout = 60000

abbrev pub poll_interval : ℕ
poll_interval = 2000

pub data Verdict : Type 0 where
  healthy list_failed exited_early canceled timed_out out_of_fuel : Verdict

pub data Look : Type 0 where
  up down pending : Look

-- The `switch` on the status of the container that has the name.
abbrev pub look_at : ContainerStatus → Look → Look
look_at running rest = up
look_at exited rest = down
look_at dead rest = down
look_at _ rest = rest

-- The loop over one listing: a container of another name, or one that is still starting, is passed
-- over.
unfoldable pub look_for : String → List Container → Look
look_for name [] = pending
look_for name (ct ∷ cs) =
    let rest = look_for name cs in if ct.name == name then look_at ct.status rest else rest

module _ {W : Type 0} (e : Engine W) (name : String) (deadline : ℕ) where
  -- The wait between two looks: `again` is the next round, and `stop` says that the context is done.
  unfoldable pub after_pause :
      (State W → Verdict × State W) → (stop : Bool) → State W → Verdict × State W
  after_pause again true s = (canceled, s)
  after_pause again false s = again s

  unfoldable pub after_look : (State W → Verdict × State W) → Look → State W → Verdict × State W
  unfolding after_pause
  after_look again up s = (healthy, s)
  after_look again down s = (exited_early, s)
  after_look again pending s =
      let later = pause e poll_interval s in after_pause again (e.canceled later.world) later

  -- What a round does with the listing that it got.
  unfoldable pub health_round :
      (State W → Verdict × State W) → Option (List Container) → State W → Verdict × State W
  unfolding after_look
  health_round again none s = (list_failed, s)
  health_round again (some cs) s = after_look again (look_for name cs) s

  unfoldable pub health_loop : ℕ → State W → Verdict × State W
  unfolding health_round
  health_loop zero s = (out_of_fuel, s)
  health_loop (suc fuel) s = elim (ltb (e.now s.world) deadline) [
    | true ↦ let (found, seen) = list_containers e s in health_round (health_loop fuel) found seen
    | false ↦ (timed_out, s)
  ]

abbrev pub health_rounds : ℕ
health_rounds = 32

unfoldable pub wait_healthy : {W : Type 0} → Engine W → String → State W → Verdict × State W
wait_healthy e name s = health_loop e name (e.now s.world + health_timeout) health_rounds s
