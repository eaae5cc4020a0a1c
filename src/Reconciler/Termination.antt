-- ===== src/Reconciler/Termination.antt =====
-- `waitHealthy` of internal/reconciler/reconciler.go ends by its deadline.
use tidefly_plane.Prelude.{
  ℕ, zero, suc, ◌+◌, ◌*◌, ◌≤◌, String, true, Option, List, ◌≡◌, ◌≢◌, inl, inr, ltb, Bool-cases,
  arith,
}
use tidefly_plane.Runtime.Types.{Container}
use tidefly_plane.Runtime.Engine.{Engine, State, list_containers, pause}
use tidefly_plane.Reconciler.Health.{
  Verdict, out_of_fuel, health_round, health_loop, wait_healthy, poll_interval, health_timeout,
}

module _ {W : Type 0} (e : Engine W) (name : String) (deadline : ℕ) where
  -- A round runs out of fuel only if the next one does.
  pub health_round_ends :
      (again : State W → Verdict × State W) (found : Option (List Container)) (s : State W)
      → ((again (pause e poll_interval s)).0 ≢ out_of_fuel)
      → (health_round e name deadline again found s).0 ≢ out_of_fuel
  unfolding health_round
  health_round_ends again found s next = ground (arith, next)

  -- One more step of the loop.
  pub health_loop_step :
      (fuel : ℕ) (s : State W)
      → (ltb (e.now s.world) deadline ≡ true
          → (health_loop e name deadline fuel (pause e poll_interval (list_containers e s).1)).0
            ≢ out_of_fuel)
      → (health_loop e name deadline (suc fuel) s).0 ≢ out_of_fuel
  unfolding health_loop
  health_loop_step fuel s next ran = elim (Bool-cases (ltb (e.now s.world) deadline)) [
    | inr late ↦ cc (rw (late, health_loop) at ran)
    | inl early ↦
        health_round_ends (health_loop e name deadline fuel) (list_containers e s).0
          (list_containers e s).1 (next early) (rw (early, health_loop) at ran)
  ]

  pub health_loop_ends :
      ((w : W) → e.now w + poll_interval ≤ e.now (e.wait poll_interval w))
      → (fuel : ℕ) (s : State W) → deadline ≤ e.now s.world + poll_interval * fuel
      → (health_loop e name deadline (suc fuel) s).0 ≢ out_of_fuel
  unfolding pause list_containers
  health_loop_ends ticks zero s enough =
      health_loop_step zero s (λ early. ground (arith, early, enough))
  health_loop_ends ticks (suc fuel) s enough = health_loop_step (suc fuel) s (λ early.
      health_loop_ends ticks fuel (pause e poll_interval (list_containers e s).1)
        (omega (arith, ticks s.world, enough)))

-- Where two seconds of waiting put the clock ahead by two seconds, `waitHealthy` returns within 32
-- rounds, whatever the containers do: the fuel of the model is never used up.
pub wait_healthy_ends :
    {W : Type 0} (e : Engine W)
    → ((w : W) → e.now w + poll_interval ≤ e.now (e.wait poll_interval w))
    → (name : String) (s : State W) → (wait_healthy e name s).0 ≢ out_of_fuel
unfolding wait_healthy
wait_healthy_ends e ticks name s =
    health_loop_ends e name (e.now s.world + health_timeout) ticks 31 s (omega arith)
