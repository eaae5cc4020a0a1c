-- ===== src/Jobs/Overreach.antt =====
-- Where the jobs of internal/jobs/service_workers.go remove more than they should.
use Prim.Native.String.{◌++◌}
use mathlib.Core.List.{Memᴰ}
use text.Mathlib.TextLemmas.{append_assoc}
use tidefly_plane.Prelude.{
  ℤ, ℕ, String, true, false, Option, none, some, List, [], ◌∷◌, ◌≡◌, refl, sym, ap, subst, ◌==◌,
  eq_refl, is_some, if◌then◌else◌, Dict, lookup, put, lookup-put, has_prefix, strip_prefix-append,
  arith, ◌∙◌,
}
use tidefly_plane.Manifest.Schema.{ServiceManifest}
use tidefly_plane.Models.Service.{is_deploying}
use tidefly_plane.Runtime.Types.{Container, ContainerStatus, needs_restart}
use tidefly_plane.Runtime.Engine.{State, deleted, list_containers, pause, listed_as}
use tidefly_plane.Reconciler.Diff.{service_label}
use tidefly_plane.Jobs.Recovery.{
  JobEngine, JobError, is_of_service, restart_service, after_restart, settle_time,
  already_recovered, heal_local, heal_by, heal_work, skips_heal, last_status, check_up, check_found,
  check_service, is_restarting,
}
use tidefly_plane.Jobs.Healing.{restarted-Deleted}

-- A listing with its last container.
abbrev pub joined : List Container → Container → List Container
joined [] last = last ∷ []
joined (c ∷ cs) last = c ∷ joined cs last

prefixed :
    (name rest : String) (ct : Container)
    → ct.name ≡ name ++ "-" ++ rest
    → is_of_service name ct ≡ true
unfolding is_of_service
prefixed name rest ct named =
    let found : has_prefix (name ++ "-") ct.name ≡ true =
      ap (λ (s : String). has_prefix (name ++ "-") s) (named ∙ sym (append_assoc name "-" rest))
      ∙ ap is_some (strip_prefix-append (name ++ "-") rest) in
    ground (arith, found)

-- The status of the last container of a service is the one that the map has.
last_status-last :
    (name : String) (cs : List Container) (ct : Container) (m : Dict ContainerStatus)
    → service_label ct ≡ name
    → name == "" ≡ false
    → lookup name (last_status (joined cs ct) m) ≡ some ct.status
unfolding last_status
last_status-last name [] ct m labelled named =
    rw (labelled, named) (lookup-put name name ct.status m ∙ rw (eq_refl name) refl)
last_status-last name (c ∷ cs) ct m labelled named =
    last_status-last name cs ct
      (if service_label c == "" then m else put (service_label c) c.status m) labelled named

module _ {W : Type 0} (j : JobEngine W) (parse_duration : String → ℤ)
    (unmarshal : String → Option ServiceManifest) (order : List (String × ℕ)) where
  heal_local-neighbour :
      (s : State W) (cs : List Container) (ct : Container)
      → s.svc.manifest_json == "" ≡ false
      → j.engine.list s.world ≡ some cs
      → already_recovered s.svc.name (some cs) ≡ false
      → Memᴰ ct cs
      → is_of_service s.svc.name ct ≡ true
      → Memᴰ (deleted ct.id) (heal_local j parse_duration unmarshal order s.svc.name s).1.trace
  unfolding heal_local list_containers
  heal_local-neighbour s cs ct stored shown down here test =
      subst (λ o. Memᴰ (deleted ct.id) (done o).1.trace) (sym shown)
        (subst
          (λ b.
            Memᴰ (deleted ct.id) (if b then (none, seen (some cs)) else again (some cs)).1.trace)
          (sym down)
          (restarted-Deleted j parse_duration unmarshal order (seen (some cs)) cs ct stored shown
            here test))
    where
      seen : Option (List Container) → State W
      seen o = record s { trace = listed_as o ∷ s.trace }

      again : Option (List Container) → Option JobError × State W
      again o =
          after_restart j parse_duration unmarshal order
            (restart_service j parse_duration unmarshal order (seen o))

      done : Option (List Container) → Option JobError × State W
      done o = if already_recovered s.svc.name o then (none, seen o) else again o

  -- Where the job that heals a local service finds it down, it deletes every container in sight whose
  -- name begins with the service's name and a dash, whatever service that container belongs to.
  pub heal_work-neighbour :
      (s : State W) (cs : List Container) (ct : Container) (rest : String)
      → skips_heal s.svc ≡ false
      → s.svc.worker_id == "" ≡ true
      → s.svc.manifest_json == "" ≡ false
      → j.engine.list (j.engine.wait settle_time s.world) ≡ some cs
      → already_recovered s.svc.name (some cs) ≡ false
      → Memᴰ ct cs
      → ct.name ≡ s.svc.name ++ "-" ++ rest
      → Memᴰ (deleted ct.id) (heal_work j parse_duration unmarshal order s.svc.name s).1.trace
  unfolding heal_work heal_by pause
  heal_work-neighbour s cs ct rest due local stored shown down here named =
      rw (due, local)
        (heal_local-neighbour (pause j.engine settle_time s) cs ct stored shown down here
          (prefixed s.svc.name rest ct named))

  -- The health check restarts a local service whose last listed container is down, also where another
  -- container of the service is up: that one is deleted.
  pub check_service-up :
      (s : State W) (cs : List Container) (up last : Container)
      → s.svc.name == "" ≡ false
      → s.svc.manifest_json == "" ≡ false
      → is_deploying s.svc.status ≡ false
      → is_restarting s.svc.status ≡ false
      → s.svc.worker_id == "" ≡ true
      → j.engine.list s.world ≡ some (joined cs last)
      → service_label last ≡ s.svc.name
      → needs_restart last.status ≡ true
      → Memᴰ up (joined cs last)
      → service_label up ≡ s.svc.name
      → needs_restart up.status ≡ false
      → Memᴰ
          (deleted up.id)
          (check_service j parse_duration unmarshal order
            (last_status (joined cs last) [])
            s).1.trace
  unfolding check_service check_found check_up
  check_service-up s cs up last named stored settled steady local shown own down here mine alive =
      subst (λ o. Memᴰ (deleted up.id) (check_found j parse_duration unmarshal order o s).1.trace)
        (sym (last_status-last s.svc.name cs last [] own named))
        (rw (named, stored, settled, steady, local, down, check_found)
          (rw (stored, restart_service) at
            (restarted-Deleted j parse_duration unmarshal order s (joined cs last) up stored shown
              here of_it)))
    where
      of_it : is_of_service s.svc.name up ≡ true
      of_it = rw (mine, eq_refl, is_of_service) refl
