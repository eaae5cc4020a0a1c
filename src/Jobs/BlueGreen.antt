-- ===== src/Jobs/BlueGreen.antt =====
-- The blue-green deployment of internal/jobs/deploy_helpers.go against that of internal/reconciler, stage by
-- stage.
use tidefly_plane.Prelude.{
  ℕ, zero, suc, ◌+◌, ℤ, String, Bool, true, false, Option, some, [], ◌∷◌, ◌≡◌, refl, sym, ap, ◌∙◌,
  inl, inr, List, ltb, get, ◌&&◌, ◌||◌, Bool-cases, ◌==◌, eq_iff, if◌then◌else◌, Dict, lookup, put,
  lookup-put, none,
}
use tidefly_plane.Manifest.Resolved.{ResolvedManifest, ResolvedBuild}
use tidefly_plane.Manifest.Adapter.{
  to_container_spec, source_labels, build_labels, spec_labels, itoa,
}
use tidefly_plane.Models.Service.{Service}
use tidefly_plane.Runtime.Types.{Container, ContainerStatus, Spec, is_podman}
use tidefly_plane.Runtime.Engine.{
  Engine, State, list_containers, create_container, stop_and_delete, save,
}
use tidefly_plane.Reconciler.Health.{
  Verdict, healthy, list_failed, exited_early, canceled, timed_out, out_of_fuel, Look, up, down,
  pending, look_at, look_for, after_pause, after_look, health_round, health_loop, wait_healthy,
  health_timeout, health_rounds,
}
use tidefly_plane.Reconciler.BlueGreen.{
  next_slot, slot_name, old_name, is_old, service_spec, slot_spec, remove_old, remove_listed,
  finish_switch, after_switch, switch_traffic, after_health, after_create, blue_green,
}
use tidefly_plane.Jobs.Slots.{
  job_next_slot, job_new_name, job_old_name, job_slot_spec, job_look_at, job_look, job_is_old,
  job_route, job_waited, job_looked, job_round, job_rounds, job_wait_healthy, job_remove_old,
  job_listed, job_finished, job_switched, job_healthy, job_created, deploy_blue_green,
}

put_same {ℓ} : {V : Type ℓ} (k : String) (v : V) (m : Dict V) → lookup k m ≡ some v → put k v m ≡ m
unfolding lookup put
put_same k v [] h = cc
put_same k v ((i, w) ∷ m) h = elim (Bool-cases (i == k)) [
  | inl same ↦
      let value : w ≡ v = cc (rw same at h) in
      rw (same, value) (ap (λ (x : String). (x, v) ∷ m) (sym ((eq_iff i k).0 same)))
  | inr other ↦ rw other (ap (λ (rest : Dict _). (i, w) ∷ rest) (put_same k v m (rw other at h)))
]

other_label :
    (k : String) (v : String) (m : Dict String)
    → k == "tidefly.service" ≡ false
    → lookup "tidefly.service" (put k v m) ≡ lookup "tidefly.service" m
other_label k v m apart = lookup-put k "tidefly.service" v m ∙ rw apart refl

source_labels-service :
    (b : ResolvedBuild) (m : Dict String)
    → lookup "tidefly.service" (source_labels b m) ≡ lookup "tidefly.service" m
unfolding source_labels
source_labels-service b m = elim (Bool-cases b.is_git) [
  | inl git ↦ rw git (
      other_label "tidefly.dockerfile-path" b.dockerfile_path _ refl
      ∙ (other_label "tidefly.git-branch" b.branch _ refl
          ∙ (other_label "tidefly.git-url" b.git_url _ refl
              ∙ other_label "tidefly.source" "git" m refl)))
  | inr inline ↦ elim (Bool-cases (b.dockerfile_inline == "")) [
    | inl empty ↦ rw (inline, empty) refl
    | inr given ↦ rw (inline, given) (other_label "tidefly.source" "dockerfile" m refl)
  ]
]

build_labels-service :
    (b : Option ResolvedBuild) (m : Dict String)
    → lookup "tidefly.service" (build_labels b m) ≡ lookup "tidefly.service" m
unfolding build_labels
build_labels-service none m = refl
build_labels-service (some b) m =
    other_label "tidefly.build-tag" b.tag (source_labels b m) refl ∙ source_labels-service b m

-- The adapter leaves the label of the service alone.
spec_labels-service :
    (r : ResolvedManifest)
    → lookup "tidefly.service" (spec_labels r) ≡ lookup "tidefly.service" r.labels
unfolding spec_labels
spec_labels-service r =
    build_labels-service r.build _
    ∙ (other_label "tidefly.port" (itoa r.expose.port) _ refl
        ∙ domain_label (r.expose.domain == ""))
  where
    domain_label :
        (b : Bool)
        → lookup "tidefly.service"
            (if b then r.labels else put "tidefly.domain" r.expose.domain r.labels)
          ≡ lookup "tidefly.service" r.labels
    domain_label true = refl
    domain_label false = other_label "tidefly.domain" r.expose.domain r.labels refl

job_slot_spec-slot_spec :
    (parse_duration : String → ℤ) (podman : Bool) (svc : Service) (resolved : ResolvedManifest)
    → lookup "tidefly.service" resolved.labels ≡ some svc.name
    → job_slot_spec parse_duration podman svc resolved
      ≡ slot_spec parse_duration podman svc resolved
unfolding job_slot_spec job_next_slot next_slot slot_spec service_spec to_container_spec
job_slot_spec-slot_spec parse_duration podman svc resolved named =
    let new = slot_name svc (next_slot svc.active_slot_name) in
    let labels = spec_labels (record resolved { name = new }) in
    let there : lookup "tidefly.service" (put "tidefly.service-id" svc.id labels) ≡ some svc.name =
      other_label "tidefly.service-id" svc.id labels refl
      ∙ (spec_labels-service (record resolved { name = new }) ∙ named) in
    ap
      (λ (m : Dict String). record (service_spec parse_duration podman svc resolved new) {
        labels = put "tidefly.slot" (next_slot svc.active_slot_name) m;
      })
      (sym (put_same "tidefly.service" svc.name (put "tidefly.service-id" svc.id labels) there))

job_look_at-look_at : (st : ContainerStatus) (l : Look) → job_look_at st l ≡ look_at st l
job_look_at-look_at ContainerStatus.running l = refl
job_look_at-look_at ContainerStatus.stopped l = refl
job_look_at-look_at ContainerStatus.paused l = refl
job_look_at-look_at ContainerStatus.exited l = refl
job_look_at-look_at ContainerStatus.dead l = refl
job_look_at-look_at ContainerStatus.restarting l = refl
job_look_at-look_at ContainerStatus.created l = refl
job_look_at-look_at ContainerStatus.unknown l = refl

-- Passing over the other names first is looking at the name's own containers.
job_look-look_for : (name : String) (cs : List Container) → job_look name cs ≡ look_for name cs
unfolding job_look look_for
job_look-look_for name [] = refl
job_look-look_for name (ct ∷ cs) = elim (Bool-cases (ct.name == name)) [
  | inl same ↦ rw same (
      job_look_at-look_at ct.status (job_look name cs)
      ∙ ap (look_at ct.status) (job_look-look_for name cs))
  | inr other ↦ rw other (job_look-look_for name cs)
]

job_old_name-old_name : (svc : Service) → job_old_name svc ≡ old_name svc
job_old_name-old_name svc = elim (Bool-cases (svc.active_slot_name == "")) [
  | inl first ↦ rw first refl
  | inr later ↦ rw later refl
]

job_is_old-is_old : (svc : Service) (ct : Container) → job_is_old svc ct ≡ is_old svc ct
unfolding job_is_old is_old
job_is_old-is_old svc ct =
    ap
      (λ (old : String).
        ct.name == old
        || (get "tidefly.service" ct.labels == svc.name
            && get "tidefly.slot" ct.labels == svc.active_slot_name))
      (job_old_name-old_name svc)

module _ {W : Type 0} (e : Engine W) where
  job_round-health_round :
      (name : String) (deadline : ℕ) (again next : State W → Verdict × State W)
      → ((s : State W) → again s ≡ next s)
      → (found : Option (List Container)) (s : State W)
      → job_round e name again found s ≡ health_round e name deadline next found s
  unfolding job_round health_round job_looked after_look job_waited after_pause
  job_round-health_round name deadline again next same none s = refl
  job_round-health_round name deadline again next same (some cs) s =
      ap (λ l. job_looked e again l s) (job_look-look_for name cs) ∙ looked (look_for name cs)
    where
      waited :
          (stop : Bool) (t : State W)
          → job_waited e again stop t ≡ after_pause e name deadline next stop t
      waited true t = refl
      waited false t = same t

      looked : (l : Look) → job_looked e again l s ≡ after_look e name deadline next l s
      looked up = refl
      looked down = refl
      looked pending = waited _ _

  -- The two waits go through the same rounds.
  job_rounds-health_loop :
      (name : String) (deadline fuel : ℕ) (s : State W)
      → job_rounds e name deadline fuel s ≡ health_loop e name deadline fuel s
  unfolding job_rounds health_loop
  job_rounds-health_loop name deadline zero s = refl
  job_rounds-health_loop name deadline (suc fuel) s =
      elim (Bool-cases (ltb (e.now s.world) deadline)) [
        | inl early ↦
            rw (early, job_rounds, health_loop)
              (job_round-health_round name deadline (job_rounds e name deadline fuel)
                (health_loop e name deadline fuel) (job_rounds-health_loop name deadline fuel)
                (list_containers e s).0 (list_containers e s).1)
        | inr late ↦ rw (late, job_rounds, health_loop) refl
      ]

  job_remove_old-remove_old :
      (svc : Service) (cs : List Container) (s : State W)
      → job_remove_old e svc cs s ≡ remove_old e svc cs s
  unfolding job_remove_old remove_old stop_and_delete
  job_remove_old-remove_old svc [] s = refl
  job_remove_old-remove_old svc (ct ∷ cs) s =
      ap (λ (b : Bool). job_remove_old e svc cs (if b then stop_and_delete e ct.id s else s))
        (job_is_old-is_old svc ct)
      ∙ job_remove_old-remove_old svc cs _

  job_listed-remove_listed :
      (svc : Service) (found : Option (List Container)) (s : State W)
      → job_listed e svc found s ≡ remove_listed e svc found s
  unfolding job_listed remove_listed
  job_listed-remove_listed svc none s = refl
  job_listed-remove_listed svc (some cs) s = job_remove_old-remove_old svc cs s

  job_finished-finish_switch :
      (svc : Service) (s : State W)
      → job_finished e svc s ≡ finish_switch e svc (next_slot svc.active_slot_name) s
  unfolding job_finished finish_switch job_next_slot next_slot
  job_finished-finish_switch svc s =
      ap
        (λ (t : State W).
          (none, save e (record t.svc { active_slot_name = next_slot svc.active_slot_name }) t))
        (job_listed-remove_listed svc (list_containers e s).0 (list_containers e s).1)

  job_switched-after_switch :
      (svc : Service) (failed : Option String) (s : State W)
      → job_switched e svc failed s
        ≡ after_switch e svc (next_slot svc.active_slot_name) (job_new_name svc) failed s
  unfolding job_switched after_switch stop_and_delete
  job_switched-after_switch svc none s = job_finished-finish_switch svc s
  job_switched-after_switch svc (some text) s = refl

  job_healthy-after_health :
      (svc : Service) (resolved : ResolvedManifest) (v : Verdict) (s : State W)
      → job_healthy e svc resolved v s
        ≡ after_health e svc resolved (next_slot svc.active_slot_name) (job_new_name svc) v s
  unfolding job_healthy after_health switch_traffic job_route stop_and_delete
  job_healthy-after_health svc resolved healthy s =
      elim (Bool-cases (resolved.expose.domain == "")) [
        | inl bare ↦ rw bare (job_finished-finish_switch svc s)
        | inr routed ↦ rw routed (job_switched-after_switch svc _ _)
      ]
  job_healthy-after_health svc resolved list_failed s = refl
  job_healthy-after_health svc resolved exited_early s = refl
  job_healthy-after_health svc resolved canceled s = refl
  job_healthy-after_health svc resolved timed_out s = refl
  job_healthy-after_health svc resolved out_of_fuel s = refl

  job_created-after_create :
      (svc : Service) (resolved : ResolvedManifest) (failed : Option String) (s : State W)
      → job_created e svc resolved failed s
        ≡ after_create e svc resolved (next_slot svc.active_slot_name) (job_new_name svc) failed s
  unfolding job_created after_create job_wait_healthy wait_healthy
  job_created-after_create svc resolved none s =
      let new = job_new_name svc in
      let deadline = e.now s.world + health_timeout in
      ap (λ (r : Verdict × State W). job_healthy e svc resolved r.0 r.1)
        (job_rounds-health_loop new deadline health_rounds s)
      ∙ job_healthy-after_health svc resolved (wait_healthy e new s).0 (wait_healthy e new s).1
  job_created-after_create svc resolved (some text) s = refl

  -- The blue-green deployment of the redeployment job and that of the reconciler, which are two pieces of
  -- code, do the same to a local service whose resolved manifest has the service's name as its label, as a
  -- manifest of the service's own name has.
  pub deploy_blue_green-blue_green :
      (parse_duration : String → ℤ) (resolved : ResolvedManifest) (s : State W)
      → lookup "tidefly.service" resolved.labels ≡ some s.svc.name
      → deploy_blue_green e parse_duration resolved s ≡ blue_green e parse_duration resolved s
  unfolding deploy_blue_green blue_green job_next_slot next_slot
  deploy_blue_green-blue_green parse_duration resolved s named =
      ap
        (λ (spec : Spec).
          let (failed, tried) = create_container e spec s in
          job_created e s.svc resolved failed tried)
        (job_slot_spec-slot_spec parse_duration (is_podman e.type) s.svc resolved named)
      ∙ job_created-after_create s.svc resolved _ _
