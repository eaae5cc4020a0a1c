-- ===== src/Jobs/Removal.antt =====
-- Which containers the jobs of internal/jobs/service_workers.go stop and delete.
use Prim.Native.String.{◌++◌}
use mathlib.Core.List.{Memᴰ}
use text.Mathlib.TextLemmas.{append_assoc}
use tidefly_plane.Prelude.{
  ℤ, ℕ, String, true, Option, none, some, List, [], ◌∷◌, Result, ok, err, ◌≡◌, refl, inl, inr, ◌⊎◌,
  ◌∙◌, Bool-cases, Option-cases, ◌==◌, eq_iff, strip_prefix, strip_prefix-eq,
}
use tidefly_plane.Manifest.Schema.{ServiceManifest}
use tidefly_plane.Manifest.Resolved.{ResolvedManifest}
use tidefly_plane.Manifest.Validate.{ManifestError}
use tidefly_plane.Manifest.Resolve.{resolve}
use tidefly_plane.Runtime.Types.{Container, Spec}
use tidefly_plane.Runtime.Engine.{
  State, Call, listed, deleted, stopped, list_containers, create_container, stop_and_delete,
  stop_container, delete_container, listed_as, created_as, pause, info, error,
}
use tidefly_plane.Reconciler.Diff.{service_label}
use tidefly_plane.Reconciler.BlueGreen.{proxy_network}
use tidefly_plane.Reconciler.Traces.{Cleared}
use tidefly_plane.Jobs.Recovery.{
  JobEngine, JobError, is_of_service, remove_each, remove_seen, remove_containers, make_network,
  created_or, restart_spec, restart_resolved, restart_parsed, after_restart, settle_time,
}

-- The container has the service's label, or its name, or a name that begins with its name and a dash.
abbrev pub Belongs : (name : String) → Container → Type 0
Belongs name ct =
    (service_label ct ≡ name)
    ⊎ ((ct.name ≡ name) ⊎ ((rest : String) × (ct.name ≡ name ++ "-" ++ rest)))

-- The test of `removeContainers` admits no others.
is_of_service-Belongs :
    (name : String) (ct : Container) → is_of_service name ct ≡ true → Belongs name ct
unfolding is_of_service
is_of_service-Belongs name ct test = elim (Bool-cases (service_label ct == name)) [
  | inl labelled ↦ inl ((eq_iff (service_label ct) name).0 labelled)
  | inr other ↦ elim (Bool-cases (ct.name == name)) [
    | inl named ↦ inr (inl ((eq_iff ct.name name).0 named))
    | inr unnamed ↦ elim (Option-cases (strip_prefix (name ++ "-") ct.name)) [
      | inl missing ↦ cc (rw (other, unnamed, missing) at test)
      | inr (rest, found) ↦
          inr (inr (rest, strip_prefix-eq (name ++ "-") ct.name found ∙ append_assoc name "-" rest))
    ]
  ]
]

-- A listing of the calls before shows the container, and it belongs to the service.
abbrev pub ShownOf : (name : String) → String → List Call → Type 0
ShownOf name id trace =
    (cs : List Container) × (ct : Container) × Memᴰ (listed cs) trace
    × Memᴰ ct cs
    × Belongs name ct
    × (ct.id ≡ id)

ShownOf-cons :
    (name id : String) (c : Call) (trace : List Call)
    → ShownOf name id trace
    → ShownOf name id (c ∷ trace)
ShownOf-cons name id c trace (cs, ct, shown, here, test, same) =
    (cs, ct, Memᴰ.tail shown, here, test, same)

-- Nothing but what was shown to belong to the service is stopped or deleted.
abbrev pub OnlyOf : (name : String) → List Call → Type 0
OnlyOf name = Cleared (λ id. ⊥) (ShownOf name)

module _ {W : Type 0} (j : JobEngine W) (name : String) where
  removed-OnlyOf :
      (all : List Container) (ct : Container) (s : State W)
      → Memᴰ (listed all) s.trace
      → Memᴰ ct all
      → is_of_service name ct ≡ true
      → OnlyOf name s.trace
      → OnlyOf name (stop_and_delete j.engine ct.id s).trace
  unfolding stop_and_delete stop_container delete_container
  removed-OnlyOf all ct s shown here test before =
      let excuse : ShownOf name ct.id s.trace =
        (all, ct, shown, here, is_of_service-Belongs name ct test, refl) in
      (inr (ShownOf-cons name ct.id (stopped ct.id) s.trace excuse), (inr excuse, before))

  removed-shown :
      (all : List Container) (id : String) (s : State W)
      → Memᴰ (listed all) s.trace
      → Memᴰ (listed all) (stop_and_delete j.engine id s).trace
  unfolding stop_and_delete stop_container delete_container
  removed-shown all id s shown = Memᴰ.tail (Memᴰ.tail shown)

  remove_each-OnlyOf :
      (all cs : List Container) (s : State W)
      → ((ct : Container) → Memᴰ ct cs → Memᴰ ct all)
      → Memᴰ (listed all) s.trace
      → OnlyOf name s.trace
      → OnlyOf name (remove_each j (is_of_service name) cs s).trace
  unfolding remove_each
  remove_each-OnlyOf all [] s part shown before = before
  remove_each-OnlyOf all (ct ∷ cs) s part shown before = elim (Bool-cases (is_of_service name ct)) [
    | inl test ↦
        rw (test, remove_each)
          (remove_each-OnlyOf all cs (stop_and_delete j.engine ct.id s)
            (λ x h. part x (Memᴰ.tail h)) (removed-shown all ct.id s shown)
            (removed-OnlyOf all ct s shown (part ct (Memᴰ.head refl)) test before))
    | inr other ↦
        rw (other, remove_each)
          (remove_each-OnlyOf all cs s (λ x h. part x (Memᴰ.tail h)) shown before)
  ]

  pub remove_containers-OnlyOf :
      (s : State W) → OnlyOf name s.trace → OnlyOf name (remove_containers j name s).trace
  unfolding remove_containers remove_seen list_containers
  remove_containers-OnlyOf s before = seen (j.engine.list s.world)
    where
      seen :
          (found : Option (List Container))
          → OnlyOf name
              (remove_seen j name found (record s { trace = listed_as found ∷ s.trace })).trace
      seen none = before
      seen (some cs) =
          remove_each-OnlyOf cs cs (record s { trace = listed cs ∷ s.trace }) (λ ct h. h)
            (Memᴰ.head refl) before

-- Calls that stop and delete nothing.
abbrev pub Harmless : Call → Type 0
Harmless (stopped id) = ⊥
Harmless (deleted id) = ⊥
Harmless _ = Unit

-- What only removals can break outlasts the rest of a restart.
module _ {W : Type 0} (j : JobEngine W) (K : List Call → Type 0)
    (keeps : (c : Call) (t : List Call) → Harmless c → K t → K (c ∷ t)) where
  created_or-keeps :
      (spec : Spec) (s : State W)
      → K s.trace
      → K (created_or j (create_container j.engine spec s)).1.trace
  unfolding create_container
  created_or-keeps spec s before = made (j.engine.create spec s.world).0
    where
      made :
          (failed : Option String)
          → K
              (created_or j (
                failed,
                record s {
                  world = (j.engine.create spec s.world).1;
                  trace = created_as failed spec ∷ s.trace;
                },
              )).1.trace
      made none = keeps (Call.created spec) s.trace tt before
      made (some text) = keeps (Call.create_failed spec) s.trace tt before

  pub after_restart-keeps :
      (parse_duration : String → ℤ) (unmarshal : String → Option ServiceManifest)
      (order : List (String × ℕ)) (r : Option JobError × State W)
      → K r.1.trace
      → K (after_restart j parse_duration unmarshal order r).1.trace
  unfolding after_restart
  after_restart-keeps parse_duration unmarshal order (none, s) before =
      keeps (Call.notified info) s.trace tt before
  after_restart-keeps parse_duration unmarshal order (some why, s) before =
      keeps (Call.notified error) s.trace tt before

  restart_resolved-keeps :
      (parse_duration : String → ℤ) (unmarshal : String → Option ServiceManifest)
      (order : List (String × ℕ)) (r : Result ManifestError ResolvedManifest) (s : State W)
      → K s.trace
      → K (restart_resolved j parse_duration unmarshal order r s).1.trace
  unfolding restart_resolved pause make_network
  restart_resolved-keeps parse_duration unmarshal order (err why) s before = before
  restart_resolved-keeps parse_duration unmarshal order (ok resolved) s before =
      created_or-keeps (restart_spec j parse_duration unmarshal order s.svc resolved)
        (pause j.engine settle_time (make_network j proxy_network s)) before

  pub restart_parsed-keeps :
      (parse_duration : String → ℤ) (unmarshal : String → Option ServiceManifest)
      (order : List (String × ℕ)) (m : Option ServiceManifest) (s : State W)
      → K s.trace
      → K (restart_parsed j parse_duration unmarshal order m s).1.trace
  unfolding restart_parsed
  restart_parsed-keeps parse_duration unmarshal order none s before = before
  restart_parsed-keeps parse_duration unmarshal order (some m) s before =
      restart_resolved-keeps parse_duration unmarshal order (resolve order m) s before
