-- ===== src/Reconciler/Rolling.antt =====
-- internal/reconciler/rolling.go: replace the replicas one by one, then fill up to the wanted number.
use Prim.Native.String.{◌++◌}
use tidefly_plane.Prelude.{
  ℕ, zero, suc, ◌+◌, ◌-◌, ◌/◌, ℤ, pos, pos_part, String, Option, none, some, List, [], ◌∷◌, put,
  ◌==◌, length, select,
}
use tidefly_plane.Manifest.Resolved.{ResolvedManifest}
use tidefly_plane.Manifest.Adapter.{itoa}
use tidefly_plane.Models.Service.{Service}
use tidefly_plane.Runtime.Types.{Container, Spec, is_podman}
use tidefly_plane.Runtime.Engine.{Engine, State, list_containers, create_container, stop_and_delete}
use tidefly_plane.Reconciler.Diff.{service_label, desired_replicas}
use tidefly_plane.Reconciler.Health.{Verdict, healthy, wait_healthy}
use tidefly_plane.Reconciler.BlueGreen.{
  Failure, creation_failed, unhealthy, list_failed, service_spec,
}

-- The name of the replica that replaces number `i`, with the clock's seconds in it.
abbrev pub roll_name : Service → ℕ → ℕ → String
roll_name svc now i = svc.name ++ "-roll-" ++ itoa (pos (now / 1000)) ++ "-" ++ itoa (pos i)

module _ {W : Type 0} (e : Engine W) (parse_duration : String → ℤ) where
  -- The new replica of number `i`.
  unfoldable pub roll_spec : Service → ResolvedManifest → (now i : ℕ) → Spec
  unfolding service_spec
  roll_spec svc resolved now i =
      let base =
        service_spec parse_duration (is_podman e.type) svc resolved (roll_name svc now i) in
      record base { labels = put "tidefly.rolling-index" (itoa (pos i)) base.labels }

  -- The replica's verdict decides: the old one goes, or the new one.
  unfoldable pub after_roll_health :
      String → Container → Verdict → State W → Option Failure × State W
  after_roll_health new old healthy s = (none, stop_and_delete e old.id s)
  after_roll_health new old verdict s = (some (unhealthy verdict), stop_and_delete e new s)

  unfoldable pub after_roll_create :
      String → Container → Option String → State W → Option Failure × State W
  unfolding after_roll_health
  after_roll_create new old none s =
      let (verdict, waited) = wait_healthy e new s in after_roll_health new old verdict waited
  after_roll_create new old (some text) s = (some (creation_failed text), s)

  -- One round of the loop over the current replicas.
  unfoldable pub roll_replica :
      Service → ResolvedManifest → ℕ → Container → State W → Option Failure × State W
  unfolding after_roll_create roll_spec
  roll_replica svc resolved i old s =
      let now = e.now s.world in
      let (failed, tried) = create_container e (roll_spec svc resolved now i) s in
      after_roll_create (roll_name svc now i) old failed tried

  unfoldable pub roll_all :
      Service → ResolvedManifest → ℕ → List Container → State W → Option Failure × State W
  roll_all svc resolved i [] s = (none, s)
  roll_all svc resolved i (old ∷ olds) s =
      let (failed, rolled) = roll_replica svc resolved i old s in
      elim failed [
        | none ↦ roll_all svc resolved (suc i) olds rolled
        | some failure ↦ (some failure, rolled)
      ]

  unfoldable pub fill_spec : Service → ResolvedManifest → ℕ → Spec
  unfolding service_spec
  fill_spec svc resolved i =
      service_spec parse_duration (is_podman e.type) svc resolved
        (svc.name ++ "-" ++ itoa (pos (i + 1)))

  -- `count` replicas more, from number `i` on; a failure is logged and passed over.
  unfoldable pub fill_up : Service → ResolvedManifest → ℕ → ℕ → State W → State W
  unfolding fill_spec
  fill_up svc resolved i zero s = s
  fill_up svc resolved i (suc count) s =
      fill_up svc resolved (suc i) count (create_container e (fill_spec svc resolved i) s).1

  abbrev pub as_failure : Option String → Option Failure
  as_failure none = none
  as_failure (some text) = some (creation_failed text)

  -- From "Scale up to desired if needed" on; the error of a replica aborts the update before it.
  unfoldable pub after_rolls :
      Service → ResolvedManifest → ℕ → Option Failure → State W → Option Failure × State W
  unfolding fill_up
  after_rolls svc resolved count none s =
      (none, fill_up svc resolved count (pos_part (desired_replicas resolved) - count) s)
  after_rolls svc resolved count (some failure) s = (some failure, s)

  unfoldable pub roll_current :
      Service → ResolvedManifest → List Container → State W → Option Failure × State W
  unfolding roll_all after_rolls service_spec
  roll_current svc resolved [] s =
      let spec = service_spec parse_duration (is_podman e.type) svc resolved resolved.name in
      let (failed, tried) = create_container e spec s in (as_failure failed, tried)
  roll_current svc resolved (old ∷ olds) s =
      let (failed, rolled) = roll_all svc resolved 0 (old ∷ olds) s in
      after_rolls svc resolved (length (old ∷ olds)) failed rolled

  unfoldable pub roll_listed :
      ResolvedManifest → Option (List Container) → State W → Option Failure × State W
  unfolding roll_current
  roll_listed resolved none s = (some list_failed, s)
  roll_listed resolved (some cs) s =
      let svc = s.svc in
      roll_current svc resolved (select (λ (ct : Container). service_label ct == svc.name) cs) s

  unfoldable pub rolling : ResolvedManifest → State W → Option Failure × State W
  unfolding roll_listed
  rolling resolved s = let (found, seen) = list_containers e s in roll_listed resolved found seen
