-- ===== src/Reconciler/Replace.antt =====
-- The order of the calls of internal/reconciler/rolling.go.
use tidefly_plane.Prelude.{
  ℕ, zero, suc, ◌-◌, ℤ, pos_part, String, Option, none, some, List, [], ◌∷◌, ◌≡◌, refl, ◌⊎◌, inl,
  inr, Option-cases, ◌==◌, select, length,
}
use tidefly_plane.Manifest.Resolved.{ResolvedManifest}
use mathlib.Core.List.{Memᴰ}
use tidefly_plane.Manifest.Adapter.{to_container_spec}
use tidefly_plane.Models.Service.{Service}
use tidefly_plane.Runtime.Types.{Container, Spec, is_podman}
use tidefly_plane.Runtime.Engine.{
  Engine, State, Call, list_containers, create_container, stop_and_delete, stopped, listed, created,
  pause,
}
use tidefly_plane.Reconciler.Diff.{service_label, desired_replicas}
use tidefly_plane.Reconciler.Health.{
  Verdict, healthy, wait_healthy, list_failed, exited_early, canceled, timed_out, out_of_fuel,
}
use tidefly_plane.Reconciler.BlueGreen.{Failure, service_spec}
use tidefly_plane.Reconciler.Rolling.{
  roll_name, roll_spec, after_roll_health, after_roll_create, roll_replica, roll_all, fill_up,
  fill_spec, after_rolls, roll_current, roll_listed, rolling,
}
use tidefly_plane.Reconciler.Traces.{
  SeenUp, SeenUp-cons, Cleared, create-Cleared, stop_and_delete-Cleared, wait_healthy-Cleared,
  wait_healthy-healthy, wait_healthy-keeps,
}

-- A container of that name was created in the trace.
abbrev pub IsCreated : String → List Call → Type 0
IsCreated id t = (spec : Spec) × Memᴰ (created spec) t × (spec.name ≡ id)

IsCreated-cons : (id : String) (c : Call) (t : List Call) → IsCreated id t → IsCreated id (c ∷ t)
IsCreated-cons id c t (spec, m, same) = (spec, Memᴰ.tail m, same)

-- A replica that the update has created, under a name that it gives.
abbrev pub IsReplacement : Service → String → List Call → Type 0
IsReplacement svc id t = ((now : ℕ) × (i : ℕ) × (id ≡ roll_name svc now i)) × IsCreated id t

-- The container is one of the old replicas, numbered from `i` on, and the new replica of the same
-- number was created and then seen running.
abbrev pub Replaced : Service → ℕ → List Container → String → List Call → Type 0
Replaced svc i [] id t = ⊥
Replaced svc i (old ∷ olds) id t =
    ((old.id ≡ id) × (now : ℕ) × IsCreated (roll_name svc now i) t × SeenUp (roll_name svc now i) t)
    ⊎ Replaced svc (suc i) olds id t

-- No container is removed without an excuse.
abbrev pub NoOther : String → Type 0
NoOther id = ⊥

module _ {W : Type 0} (e : Engine W) where
  create-IsCreated :
      (spec : Spec) (s : State W)
      → (create_container e spec s).0 ≡ none
      → IsCreated spec.name (create_container e spec s).1.trace
  unfolding create_container
  create-IsCreated spec s h = rw h (spec, Memᴰ.head refl, refl)

  wait_healthy-IsCreated :
      (id name : String) (s : State W)
      → IsCreated id s.trace
      → IsCreated id (wait_healthy e name s).1.trace
  unfolding list_containers pause
  wait_healthy-IsCreated id name s h =
      wait_healthy-keeps e name (λ (t : State W). IsCreated id t.trace)
        (λ t k. IsCreated-cons id _ t.trace k) (λ t k. k) s h

module _ {W : Type 0} (e : Engine W) (parse_duration : String → ℤ) (svc : Service)
    (resolved : ResolvedManifest) (excuse : String → List Call → Type 0)
    (mine : (id : String) (t : List Call) → IsReplacement svc id t → excuse id t) where
  -- What the trace of the update has to satisfy.
  abbrev Rolling : List Call → Type 0
  Rolling = Cleared NoOther excuse

  drop_new :
      (now i : ℕ) (s : State W)
      → IsCreated (roll_name svc now i) s.trace
      → Rolling s.trace
      → Rolling (stop_and_delete e (roll_name svc now i) s).trace
  drop_new now i s made h =
      let new = roll_name svc now i in
      stop_and_delete-Cleared e NoOther excuse new s
        (inr (
          mine new s.trace ((now, i, refl), made),
          mine new (stopped new ∷ s.trace)
              ((now, i, refl), IsCreated-cons new (stopped new) s.trace made),
        ))
        h

  after_roll_health-Rolling :
      (now i : ℕ) (old : Container) (v : Verdict) (s : State W)
      → IsCreated (roll_name svc now i) s.trace
      → ((t : List Call)
          → IsCreated (roll_name svc now i) t
          → SeenUp (roll_name svc now i) t
          → excuse old.id t)
      → (v ≡ healthy → SeenUp (roll_name svc now i) s.trace)
      → Rolling s.trace
      → Rolling (after_roll_health e parse_duration (roll_name svc now i) old v s).1.trace
  unfolding after_roll_health
  after_roll_health-Rolling now i old healthy s made ok seen h =
      stop_and_delete-Cleared e NoOther excuse old.id s
        (inr (
          ok s.trace made (seen refl),
          ok (stopped old.id ∷ s.trace) (IsCreated-cons _ _ _ made) (SeenUp-cons _ _ _ (seen refl)),
        ))
        h
  after_roll_health-Rolling now i old list_failed s made ok seen h = drop_new now i s made h
  after_roll_health-Rolling now i old exited_early s made ok seen h = drop_new now i s made h
  after_roll_health-Rolling now i old canceled s made ok seen h = drop_new now i s made h
  after_roll_health-Rolling now i old timed_out s made ok seen h = drop_new now i s made h
  after_roll_health-Rolling now i old out_of_fuel s made ok seen h = drop_new now i s made h

  after_roll_create-Rolling :
      (now i : ℕ) (old : Container) (failed : Option String) (s : State W)
      → (failed ≡ none → IsCreated (roll_name svc now i) s.trace)
      → ((t : List Call)
          → IsCreated (roll_name svc now i) t
          → SeenUp (roll_name svc now i) t
          → excuse old.id t)
      → Rolling s.trace
      → Rolling (after_roll_create e parse_duration (roll_name svc now i) old failed s).1.trace
  unfolding after_roll_create
  after_roll_create-Rolling now i old none s made ok h =
      let new = roll_name svc now i in
      after_roll_health-Rolling now i old (wait_healthy e new s).0 (wait_healthy e new s).1
        (wait_healthy-IsCreated e new new s (made refl)) ok (wait_healthy-healthy e new s)
        (wait_healthy-Cleared e new NoOther excuse s h)
  after_roll_create-Rolling now i old (some text) s made ok h = h

  roll_replica-Rolling :
      (i : ℕ) (old : Container) (s : State W)
      → ((now : ℕ) (t : List Call)
          → IsCreated (roll_name svc now i) t
          → SeenUp (roll_name svc now i) t
          → excuse old.id t)
      → Rolling s.trace
      → Rolling (roll_replica e parse_duration svc resolved i old s).1.trace
  unfolding roll_replica roll_spec service_spec to_container_spec
  roll_replica-Rolling i old s ok h =
      let now = e.now s.world in
      let spec = roll_spec e parse_duration svc resolved now i in
      after_roll_create-Rolling now i old (create_container e spec s).0
        (create_container e spec s).1 (create-IsCreated e spec s) (ok now)
        (create-Cleared e NoOther excuse spec s h)

  roll_all-Rolling :
      (i : ℕ) (olds : List Container) (s : State W)
      → ((id : String) (t : List Call) → Replaced svc i olds id t → excuse id t)
      → Rolling s.trace
      → Rolling (roll_all e parse_duration svc resolved i olds s).1.trace
  unfolding roll_all
  roll_all-Rolling i [] s ok h = h
  roll_all-Rolling i (old ∷ olds) s ok h =
      let one =
        roll_replica-Rolling i old s (λ now t made up. ok old.id t (inl (refl, now, made, up))) h in
      elim (Option-cases (roll_replica e parse_duration svc resolved i old s).0) [
        | inl fine ↦
            rw (fine, roll_all)
              (roll_all-Rolling (suc i) olds (roll_replica e parse_duration svc resolved i old s).1
                (λ id t r. ok id t (inr r)) one)
        | inr (failure, failed) ↦ rw (failed, roll_all) one
      ]

  fill_up-Rolling :
      (i count : ℕ) (s : State W)
      → Rolling s.trace
      → Rolling (fill_up e parse_duration svc resolved i count s).trace
  unfolding fill_up
  fill_up-Rolling i zero s h = h
  fill_up-Rolling i (suc count) s h =
      let spec = fill_spec e parse_duration svc resolved i in
      fill_up-Rolling (suc i) count (create_container e spec s).1
        (create-Cleared e NoOther excuse spec s h)

  after_rolls-Rolling :
      (count : ℕ) (failed : Option Failure) (s : State W)
      → Rolling s.trace
      → Rolling (after_rolls e parse_duration svc resolved count failed s).1.trace
  unfolding after_rolls
  after_rolls-Rolling count none s h =
      fill_up-Rolling count (pos_part (desired_replicas resolved) - count) s h
  after_rolls-Rolling count (some failure) s h = h

  roll_current-Rolling :
      (olds : List Container) (s : State W)
      → ((id : String) (t : List Call) → Replaced svc 0 olds id t → excuse id t)
      → Rolling s.trace
      → Rolling (roll_current e parse_duration svc resolved olds s).1.trace
  unfolding roll_current
  roll_current-Rolling [] s ok h =
      create-Cleared e NoOther excuse
        (service_spec parse_duration (is_podman e.type) svc resolved resolved.name) s h
  roll_current-Rolling (old ∷ olds) s ok h =
      let rolled = roll_all e parse_duration svc resolved 0 (old ∷ olds) s in
      after_rolls-Rolling (length (old ∷ olds)) rolled.0 rolled.1
        (roll_all-Rolling 0 (old ∷ olds) s ok h)

-- The replicas that a rolling update starts from: the service's containers in its listing.
abbrev pub replicas_in : Service → Option (List Container) → List Container
replicas_in svc none = []
replicas_in svc (some cs) = select (λ (ct : Container). service_label ct == svc.name) cs

-- A rolling update stops or deletes no container but the replicas that it has created itself before, and
-- the old replicas: the old one of a number only after the new one of the same number was created and seen
-- running.
pub rolling_safe :
    {W : Type 0} (e : Engine W) (parse_duration : String → ℤ) (resolved : ResolvedManifest)
    (s : State W)
    → Cleared NoOther
        (λ id t.
          IsReplacement s.svc id t ⊎ Replaced s.svc 0 (replicas_in s.svc (e.list s.world)) id t)
        (rolling e parse_duration resolved (record s { trace = [] })).1.trace
unfolding rolling roll_listed list_containers
rolling_safe e parse_duration resolved s = elim (Option-cases (e.list s.world)) [
  | inl lost ↦ rw lost tt
  | inr (cs, found) ↦ rw found (
      let olds = select (λ (ct : Container). service_label ct == s.svc.name) cs in
      roll_current-Rolling e parse_duration s.svc resolved
        (λ id t. IsReplacement s.svc id t ⊎ Replaced s.svc 0 olds id t) (λ id t. inl) olds
        (record s { trace = listed cs ∷ [] }) (λ id t. inr) tt)
]
