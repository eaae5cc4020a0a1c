-- ===== src/Reconciler/Traces.antt =====
-- What a trace of calls says of the order of internal/reconciler's calls to the container engine, and
-- what `waitHealthy` adds to it.
use mathlib.Core.List.{Memᴰ}
use tidefly_plane.Prelude.{
  ℕ, zero, suc, ◌+◌, String, Bool, true, false, Option, none, some, List, [], ◌∷◌, ◌≡◌, refl, ◌⊎◌,
  inl, inr, ltb, Bool-cases, Option-cases,
}
use tidefly_plane.Runtime.Types.{Container, Spec}
use tidefly_plane.Runtime.Engine.{
  Engine, State, Call, Route, listed, routed, stopped, deleted, list_containers, pause, listed_as,
  create_container, update_route, stop_and_delete, stop_container, delete_container,
}
use tidefly_plane.Reconciler.Health.{
  Verdict, healthy, Look, up, down, pending, look_for, after_pause, after_look, health_round,
  health_loop, wait_healthy, poll_interval, health_timeout, health_rounds,
}

-- A listing of the trace shows the container of that name running.
abbrev pub SeenUp : String → List Call → Type 0
SeenUp name trace = (cs : List Container) × Memᴰ (listed cs) trace × (look_for name cs ≡ up)

pub SeenUp-cons :
    (name : String) (c : Call) (trace : List Call) → SeenUp name trace → SeenUp name (c ∷ trace)
SeenUp-cons name c trace (cs, m, shown) = (cs, Memᴰ.tail m, shown)

-- Every container that is stopped or deleted in the trace is one's `own`, or the calls before the
-- stop or deletion are an `excuse` for it.
abbrev pub Cleared :
    (own : String → Type 0) (excuse : String → List Call → Type 0) → List Call → Type 0
Cleared own excuse [] = Unit
Cleared own excuse (stopped id ∷ t) = (own id ⊎ excuse id t) × Cleared own excuse t
Cleared own excuse (deleted id ∷ t) = (own id ⊎ excuse id t) × Cleared own excuse t
Cleared own excuse (_ ∷ t) = Cleared own excuse t

module _ {W : Type 0} (e : Engine W) (own : String → Type 0)
    (excuse : String → List Call → Type 0) where
  pub list-Cleared :
      (s : State W) → Cleared own excuse s.trace → Cleared own excuse (list_containers e s).1.trace
  unfolding list_containers
  list-Cleared s h = elim (Option-cases (e.list s.world)) [ inl e ↦ rw e h | inr t ↦ rw t.1 h ]

  pub create-Cleared :
      (spec : Spec) (s : State W)
      → Cleared own excuse s.trace
      → Cleared own excuse (create_container e spec s).1.trace
  unfolding create_container
  create-Cleared spec s h = elim (Option-cases (e.create spec s.world).0) [
    | inl e ↦ rw e h
    | inr t ↦ rw t.1 h
  ]

  pub route-Cleared :
      (r : Route) (s : State W)
      → Cleared own excuse s.trace
      → Cleared own excuse (update_route e r s).1.trace
  unfolding update_route
  route-Cleared r s h = elim (Option-cases (e.route r s.world).0) [
    | inl e ↦ rw e h
    | inr t ↦ rw t.1 h
  ]

  -- The excuse for a deletion has to outlast the stop before it.
  pub stop_and_delete-Cleared :
      (id : String) (s : State W)
      → (own id ⊎ (excuse id s.trace × excuse id (stopped id ∷ s.trace)))
      → Cleared own excuse s.trace
      → Cleared own excuse (stop_and_delete e id s).trace
  unfolding stop_and_delete stop_container delete_container
  stop_and_delete-Cleared id s (inl mine) h = (inl mine, (inl mine, h))
  stop_and_delete-Cleared id s (inr why) h = (inr why.1, (inr why.0, h))

pub update_route-routed :
    {W : Type 0} (e : Engine W) (r : Route) (s : State W)
    → (update_route e r s).0 ≡ none
    → Memᴰ (routed r) (update_route e r s).1.trace
unfolding update_route
update_route-routed e r s h = rw h (Memᴰ.head refl)

-- What is kept when the containers are listed.
module _ {W : Type 0} (e : Engine W) (name : String) (deadline : ℕ) where
  module _ (kept : State W → Type 0)
      (keep_list : (s : State W) → kept s → kept (list_containers e s).1)
      (keep_pause : (s : State W) → kept s → kept (pause e poll_interval s)) where
    after_pause-keeps :
        (again : State W → Verdict × State W) (stop : Bool) (s : State W)
        → ((t : State W) → kept t → kept (again t).1)
        → kept s
        → kept (after_pause e name deadline again stop s).1
    unfolding after_pause
    after_pause-keeps again true s next h = h
    after_pause-keeps again false s next h = next s h

    after_look-keeps :
        (again : State W → Verdict × State W) (l : Look) (s : State W)
        → ((t : State W) → kept t → kept (again t).1)
        → kept s
        → kept (after_look e name deadline again l s).1
    unfolding after_look
    after_look-keeps again up s next h = h
    after_look-keeps again down s next h = h
    after_look-keeps again pending s next h =
        let later = pause e poll_interval s in
        after_pause-keeps again (e.canceled later.world) later next (keep_pause s h)

    health_round-keeps :
        (again : State W → Verdict × State W) (found : Option (List Container)) (s : State W)
        → ((t : State W) → kept t → kept (again t).1)
        → kept s
        → kept (health_round e name deadline again found s).1
    unfolding health_round
    health_round-keeps again none s next h = h
    health_round-keeps again (some cs) s next h = after_look-keeps again (look_for name cs) s next h

    pub health_loop-keeps :
        (fuel : ℕ) (s : State W) → kept s → kept (health_loop e name deadline fuel s).1
    unfolding health_loop
    health_loop-keeps zero s h = h
    health_loop-keeps (suc fuel) s h = elim (Bool-cases (ltb (e.now s.world) deadline)) [
      | inr late ↦ rw (late, health_loop) h
      | inl early ↦
          rw (early, health_loop)
            (health_round-keeps (health_loop e name deadline fuel) (list_containers e s).0
              (list_containers e s).1 (health_loop-keeps fuel) (keep_list s h))
    ]

  -- The last listing before a verdict of health shows the container running.
  after_look-healthy :
      (again : State W → Verdict × State W) (l : Look) (cs : List Container) (s : State W)
      → look_for name cs ≡ l
      → Memᴰ (listed cs) s.trace
      → ((t : State W) → (again t).0 ≡ healthy → SeenUp name (again t).1.trace)
      → (after_look e name deadline again l s).0 ≡ healthy
      → SeenUp name (after_look e name deadline again l s).1.trace
  unfolding after_look after_pause
  after_look-healthy again up cs s same m next h = (cs, m, same)
  after_look-healthy again down cs s same m next h = cc
  after_look-healthy again pending cs s same m next h =
      elim (Bool-cases (e.canceled (pause e poll_interval s).world)) [
        | inl over ↦ cc (rw over at h)
        | inr more ↦ rw more (next (pause e poll_interval s) (rw more at h))
      ]

  health_round-healthy :
      (again : State W → Verdict × State W) (found : Option (List Container)) (s : State W)
      → Memᴰ (listed_as found) s.trace
      → ((t : State W) → (again t).0 ≡ healthy → SeenUp name (again t).1.trace)
      → (health_round e name deadline again found s).0 ≡ healthy
      → SeenUp name (health_round e name deadline again found s).1.trace
  unfolding health_round
  health_round-healthy again none s m next h = cc
  health_round-healthy again (some cs) s m next h =
      after_look-healthy again (look_for name cs) cs s refl m next h

  pub health_loop-healthy :
      (fuel : ℕ) (s : State W)
      → (health_loop e name deadline fuel s).0 ≡ healthy
      → SeenUp name (health_loop e name deadline fuel s).1.trace
  unfolding health_loop list_containers
  health_loop-healthy zero s h = cc
  health_loop-healthy (suc fuel) s h = elim (Bool-cases (ltb (e.now s.world) deadline)) [
    | inr late ↦ cc (rw (late, health_loop) at h)
    | inl early ↦
        rw (early, health_loop)
          (health_round-healthy (health_loop e name deadline fuel) (list_containers e s).0
            (list_containers e s).1 (Memᴰ.head refl) (health_loop-healthy fuel)
            (rw (early, health_loop) at h))
  ]

module _ {W : Type 0} (e : Engine W) (name : String) where
  pub wait_healthy-keeps :
      (kept : State W → Type 0)
      → ((s : State W) → kept s → kept (list_containers e s).1)
      → ((s : State W) → kept s → kept (pause e poll_interval s))
      → (s : State W) → kept s
      → kept (wait_healthy e name s).1
  unfolding wait_healthy
  wait_healthy-keeps kept keep_list keep_pause s h =
      health_loop-keeps e name (e.now s.world + health_timeout) kept keep_list keep_pause
        health_rounds s h

  pub wait_healthy-healthy :
      (s : State W)
      → (wait_healthy e name s).0 ≡ healthy
      → SeenUp name (wait_healthy e name s).1.trace
  unfolding wait_healthy
  wait_healthy-healthy s h =
      health_loop-healthy e name (e.now s.world + health_timeout) health_rounds s h

  -- The wait does not touch a container or the service.
  pub wait_healthy-svc : (s : State W) → (wait_healthy e name s).1.svc ≡ s.svc
  unfolding list_containers pause
  wait_healthy-svc s = wait_healthy-keeps (λ t. t.svc ≡ s.svc) (λ t h. h) (λ t h. h) s refl

  pub wait_healthy-Cleared :
      (own : String → Type 0) (excuse : String → List Call → Type 0) (s : State W)
      → Cleared own excuse s.trace
      → Cleared own excuse (wait_healthy e name s).1.trace
  unfolding pause
  wait_healthy-Cleared own excuse s h =
      wait_healthy-keeps (λ t. Cleared own excuse t.trace) (list-Cleared e own excuse) (λ t h. h) s
        h
