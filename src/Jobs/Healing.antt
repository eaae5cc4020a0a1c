-- ===== src/Jobs/Healing.antt =====
-- What `HealWorker` and `HealthCheckWorker` of internal/jobs/service_workers.go do to containers.
use mathlib.Core.List.{Memᴰ}
use tidefly_plane.Prelude.{
  ℤ, ℕ, String, Bool, true, false, Option, none, some, List, [], ◌∷◌, Result, ok, err, ◌≡◌, sym, ap,
  subst, inl, inr, Bool-cases, ◌==◌, if◌then◌else◌,
}
use tidefly_plane.Manifest.Schema.{ServiceManifest}
use tidefly_plane.Manifest.Resolved.{ResolvedManifest}
use tidefly_plane.Manifest.Validate.{ManifestError}
use tidefly_plane.Manifest.Resolve.{resolve}
use tidefly_plane.Runtime.Types.{Container}
use tidefly_plane.Runtime.Engine.{
  State, Call, listed, deleted, list_containers, stop_and_delete, stop_container, delete_container,
  listed_as, pause,
}
use tidefly_plane.Jobs.Recovery.{
  JobEngine, is_of_service, remove_each, remove_seen, remove_containers, restart_service,
  after_restart, settle_time, already_recovered, heal_local, heal_remote, heal_resolved, heal_by,
  heal_work, skips_heal, sent, reachable_worker,
}
use tidefly_plane.Jobs.Removal.{
  OnlyOf, Harmless, remove_containers-OnlyOf, after_restart-keeps, restart_parsed-keeps,
}

OnlyOf-keeps :
    (name : String) (c : Call) (t : List Call) → Harmless c → OnlyOf name t → OnlyOf name (c ∷ t)
OnlyOf-keeps name (Call.listed cs) t h before = before
OnlyOf-keeps name Call.list_failed t h before = before
OnlyOf-keeps name (Call.created spec) t h before = before
OnlyOf-keeps name (Call.create_failed spec) t h before = before
OnlyOf-keeps name (Call.stopped id) t h before = absurd h
OnlyOf-keeps name (Call.deleted id) t h before = absurd h
OnlyOf-keeps name (Call.routed r) t h before = before
OnlyOf-keeps name (Call.route_failed r) t h before = before
OnlyOf-keeps name (Call.notified x) t h before = before

Deleted-keeps :
    (id : String) (c : Call) (t : List Call)
    → Harmless c
    → Memᴰ (deleted id) t
    → Memᴰ (deleted id) (c ∷ t)
Deleted-keeps id c t h there = Memᴰ.tail there

module _ {W : Type 0} (j : JobEngine W) (parse_duration : String → ℤ)
    (unmarshal : String → Option ServiceManifest) (order : List (String × ℕ)) where
  restart_service-OnlyOf :
      (s : State W)
      → OnlyOf s.svc.name s.trace
      → OnlyOf s.svc.name (restart_service j parse_duration unmarshal order s).1.trace
  unfolding restart_service
  restart_service-OnlyOf s before = elim (Bool-cases (s.svc.manifest_json == "")) [
    | inl empty ↦ rw empty before
    | inr stored ↦ rw stored (
        restart_parsed-keeps j (OnlyOf s.svc.name) (OnlyOf-keeps s.svc.name) parse_duration
          unmarshal order (unmarshal s.svc.manifest_json) (remove_containers j s.svc.name s)
          (remove_containers-OnlyOf j s.svc.name s before))
  ]

  restarted-OnlyOf :
      (s : State W)
      → OnlyOf s.svc.name s.trace
      → OnlyOf s.svc.name
          (after_restart j parse_duration unmarshal order
            (restart_service j parse_duration unmarshal order s)).1.trace
  restarted-OnlyOf s before =
      after_restart-keeps j (OnlyOf s.svc.name) (OnlyOf-keeps s.svc.name) parse_duration unmarshal
        order (restart_service j parse_duration unmarshal order s) (restart_service-OnlyOf s before)

  heal_local-OnlyOf :
      (s : State W)
      → OnlyOf s.svc.name s.trace
      → OnlyOf s.svc.name (heal_local j parse_duration unmarshal order s.svc.name s).1.trace
  unfolding heal_local list_containers
  heal_local-OnlyOf s before = seen (j.engine.list s.world)
    where
      seen :
          (found : Option (List Container))
          → OnlyOf s.svc.name
              (if already_recovered s.svc.name found
                then (none, record s { trace = listed_as found ∷ s.trace })
                else after_restart j parse_duration unmarshal order (
                    restart_service j parse_duration unmarshal order
                      (record s { trace = listed_as found ∷ s.trace }))).1.trace
      seen none = restarted-OnlyOf (record s { trace = listed_as none ∷ s.trace }) before
      seen (some cs) = elim (Bool-cases (already_recovered s.svc.name (some cs))) [
        | inl up ↦ rw up before
        | inr down ↦ rw down (restarted-OnlyOf (record s { trace = listed cs ∷ s.trace }) before)
      ]

  heal_remote-OnlyOf :
      (send : ResolvedManifest → Option String × W) (m : Option ServiceManifest) (name : String)
      (s : State W)
      → OnlyOf name s.trace
      → OnlyOf name (heal_remote j parse_duration unmarshal order send m s).1.trace
  unfolding heal_remote heal_resolved
  heal_remote-OnlyOf send none name s before = before
  heal_remote-OnlyOf send (some m) name s before = checked (resolve order m)
    where
      answered :
          (r : Option String × W)
          → OnlyOf name
              (after_restart j parse_duration unmarshal order
                (sent j parse_duration unmarshal order s r)).1.trace
      answered (none, w) =
          after_restart-keeps j (OnlyOf name) (OnlyOf-keeps name) parse_duration unmarshal order
            (sent j parse_duration unmarshal order s (none, w)) before
      answered (some text, w) =
          after_restart-keeps j (OnlyOf name) (OnlyOf-keeps name) parse_duration unmarshal order
            (sent j parse_duration unmarshal order s (some text, w)) before

      checked :
          (r : Result ManifestError ResolvedManifest)
          → OnlyOf name (heal_resolved j parse_duration unmarshal order send r s).1.trace
      checked (err why) = before
      checked (ok resolved) = answered (send resolved)

  -- The job that heals a service stops and deletes no container but one that a listing of the job itself
  -- showed under the service's label, or under its name, or under a name that begins with its name and a
  -- dash.
  pub heal_work-OnlyOf :
      (s : State W)
      → OnlyOf s.svc.name s.trace
      → OnlyOf s.svc.name (heal_work j parse_duration unmarshal order s.svc.name s).1.trace
  unfolding heal_work heal_by pause
  heal_work-OnlyOf s before = elim (Bool-cases (skips_heal s.svc)) [
    | inl skipped ↦ rw skipped before
    | inr due ↦ rw due (
        by (
          reachable_worker j parse_duration unmarshal order s.svc
            (pause j.engine settle_time s).world))
  ]
    where
      by :
          (o : Option (ResolvedManifest → Option String × W))
          → OnlyOf s.svc.name
              (heal_by j parse_duration unmarshal order s.svc.name o
                (pause j.engine settle_time s)).1.trace
      by none = heal_local-OnlyOf (pause j.engine settle_time s) before
      by (some send) =
          heal_remote-OnlyOf send (unmarshal s.svc.manifest_json) s.svc.name
            (pause j.engine settle_time s) before

  -- A removal passes no container over that the test takes.
  remove_each-Deleted :
      (test : Container → Bool) (cs : List Container) (id : String) (s : State W)
      → Memᴰ (deleted id) s.trace
      → Memᴰ (deleted id) (remove_each j test cs s).trace
  unfolding remove_each stop_and_delete stop_container delete_container
  remove_each-Deleted test [] id s there = there
  remove_each-Deleted test (ct ∷ cs) id s there = elim (Bool-cases (test ct)) [
    | inl hit ↦
        rw (hit, remove_each)
          (remove_each-Deleted test cs id (stop_and_delete j.engine ct.id s)
            (Memᴰ.tail (Memᴰ.tail there)))
    | inr miss ↦ rw (miss, remove_each) (remove_each-Deleted test cs id s there)
  ]

  remove_each-all :
      (test : Container → Bool) (ct : Container) (cs : List Container) (s : State W)
      → Memᴰ ct cs
      → test ct ≡ true
      → Memᴰ (deleted ct.id) (remove_each j test cs s).trace
  unfolding remove_each stop_and_delete stop_container delete_container
  remove_each-all test ct [] s there hit = elim there [ ]
  remove_each-all test ct (x ∷ cs) s (Memᴰ.head same) hit =
      let taken : test x ≡ true = subst (λ y. test y ≡ true) same hit in
      rw (taken, remove_each)
        (remove_each-Deleted test cs ct.id (stop_and_delete j.engine x.id s)
          (Memᴰ.head (ap (λ (y : Container). deleted y.id) same)))
  remove_each-all test ct (x ∷ cs) s (Memᴰ.tail there) hit = elim (Bool-cases (test x)) [
    | inl taken ↦
        rw (taken, remove_each)
          (remove_each-all test ct cs (stop_and_delete j.engine x.id s) there hit)
    | inr passed ↦ rw (passed, remove_each) (remove_each-all test ct cs s there hit)
  ]

  -- A restart of a service with a manifest deletes every container in sight that the test takes.
  pub restarted-Deleted :
      (s : State W) (cs : List Container) (ct : Container)
      → (s.svc.manifest_json == "") ≡ false
      → j.engine.list s.world ≡ some cs
      → Memᴰ ct cs
      → is_of_service s.svc.name ct ≡ true
      → Memᴰ
          (deleted ct.id)
          (after_restart j parse_duration unmarshal order
            (restart_service j parse_duration unmarshal order s)).1.trace
  unfolding restart_service remove_containers remove_seen list_containers
  restarted-Deleted s cs ct stored shown here test =
      after_restart-keeps j (Memᴰ (deleted ct.id)) (Deleted-keeps ct.id) parse_duration unmarshal
        order (restart_service j parse_duration unmarshal order s)
        (rw stored (
          restart_parsed-keeps j (Memᴰ (deleted ct.id)) (Deleted-keeps ct.id) parse_duration
            unmarshal order (unmarshal s.svc.manifest_json) (remove_containers j s.svc.name s)
            (subst
              (λ o.
                Memᴰ (deleted ct.id)
                  (remove_seen j s.svc.name o (record s { trace = listed_as o ∷ s.trace })).trace)
              (sym shown)
              (remove_each-all (is_of_service s.svc.name) ct cs
                (record s { trace = listed cs ∷ s.trace }) here test))))
