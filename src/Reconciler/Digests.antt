-- ===== src/Reconciler/Digests.antt =====
-- Which code of internal/reconciler writes a service's deployed digest.
use tidefly_plane.Prelude.{
  ℕ, ℤ, String, Bool, true, false, Option, none, some, List, [], ◌∷◌, ◌≡◌, refl, ◌∙◌, ap, ◌≢◌, inl,
  inr, Bool-cases, arith, ◌==◌, eq_iff, Result, ok, err,
}
use tidefly_plane.Manifest.Schema.{ServiceManifest}
use tidefly_plane.Manifest.Resolved.{ResolvedManifest}
use tidefly_plane.Manifest.Validate.{ManifestError}
use tidefly_plane.Manifest.Resolve.{resolve}
use tidefly_plane.Models.Service.{Service, deploying, has_image_drift}
use tidefly_plane.Runtime.Types.{Container, is_podman}
use tidefly_plane.Runtime.Engine.{
  Engine, State, list_containers, create_container, stop_and_delete, stop_container,
  delete_container, pause, save,
}
use tidefly_plane.Reconciler.Diff.{Action, noop, heal, scale_up, scale_down, update, redeploy, diff}
use tidefly_plane.Reconciler.BlueGreen.{Failure, service_spec}
use tidefly_plane.Reconciler.Actions.{
  last_by_name, listed_or_none, remove_matching, remove_containers, has_recovered, after_recreate,
  recreate, heal_delay, heal_seen, heal_service, scale_up_service, remove_one, scale_down_service,
  redeploy_service, act, reconcile_resolved, reconcile_parsed, reconcile_one,
}
use tidefly_plane.Reconciler.Digest.{
  ImageFields, resolve_image, is_new_digest, record_digest, record_fetched, poll_one,
}

-- Without a deployed digest there is no drift, and so no update.
pub diff-no_update :
    (now : ℕ) (svc : Service) (resolved : ResolvedManifest) (actual : List Container)
    → svc.deployed_digest ≡ ""
    → (diff now svc resolved actual).action ≢ update
unfolding diff has_image_drift
diff-no_update now svc resolved actual bare decided = ground (arith, eq_iff svc.deployed_digest "")

module _ {W : Type 0} (e : Engine W) (parse_duration : String → ℤ)
    (message : Failure → String) where
  remove_matching-svc :
      (test : Container → Bool) (cs : List Container) (s : State W)
      → (remove_matching e parse_duration message test cs s).svc ≡ s.svc
  unfolding remove_matching stop_and_delete stop_container delete_container
  remove_matching-svc test [] s = refl
  remove_matching-svc test (ct ∷ cs) s = elim (Bool-cases (test ct)) [
    | inl hit ↦ rw (hit, remove_matching) (remove_matching-svc test cs (stop_and_delete e ct.id s))
    | inr miss ↦ rw (miss, remove_matching) (remove_matching-svc test cs s)
  ]

  remove_containers-svc :
      (name : String) (s : State W)
      → (remove_containers e parse_duration message name s).svc ≡ s.svc
  unfolding remove_containers list_containers
  remove_containers-svc name s =
      remove_matching-svc _ (listed_or_none (list_containers e s).0) (list_containers e s).1

  after_recreate-digest :
      (tell : Bool) (refused : Option String) (s : State W)
      → (after_recreate e parse_duration message tell refused s).svc.deployed_digest
        ≡ s.svc.deployed_digest
  unfolding after_recreate
  after_recreate-digest true none s = refl
  after_recreate-digest false none s = refl
  after_recreate-digest true (some text) s = refl
  after_recreate-digest false (some text) s = refl

  recreate-digest :
      (tell : Bool) (resolved : ResolvedManifest) (s : State W)
      → (recreate e parse_duration message tell resolved s).svc.deployed_digest
        ≡ s.svc.deployed_digest
  unfolding recreate create_container
  recreate-digest tell resolved s =
      let spec = service_spec parse_duration (is_podman e.type) s.svc resolved resolved.name in
      after_recreate-digest tell (create_container e spec s).0 (create_container e spec s).1

  heal_seen-digest :
      (resolved : ResolvedManifest) (cs : List Container) (s : State W)
      → (heal_seen e parse_duration message resolved cs s).svc.deployed_digest
        ≡ s.svc.deployed_digest
  unfolding heal_seen
  heal_seen-digest resolved cs s =
      elim (Bool-cases (has_recovered e parse_duration message s.svc.name cs)) [
        | inl back ↦ rw (back, heal_seen) refl
        | inr down ↦
            rw (down, heal_seen)
              (recreate-digest true resolved
                  (remove_containers e parse_duration message s.svc.name s)
                ∙ ap (λ (v : Service). v.deployed_digest) (remove_containers-svc s.svc.name s))
      ]

  remove_one-svc :
      (o : Option Container) (s : State W) → (remove_one e parse_duration message o s).svc ≡ s.svc
  unfolding remove_one stop_and_delete stop_container delete_container
  remove_one-svc none s = refl
  remove_one-svc (some ct) s = refl

  -- No action but an update writes the digest.
  pub act-digest :
      (a : Action) (resolved : ResolvedManifest) (actual : List Container) (s : State W)
      → a ≢ update
      → (act e parse_duration message a resolved actual s).svc.deployed_digest
        ≡ s.svc.deployed_digest
  unfolding act heal_service list_containers pause scale_up_service create_container
      scale_down_service redeploy_service
  act-digest noop resolved actual s other = refl
  act-digest heal resolved actual s other =
      let paused = pause e heal_delay s in
      heal_seen-digest resolved (listed_or_none (list_containers e paused).0)
        (list_containers e paused).1
  act-digest scale_up resolved actual s other = refl
  act-digest scale_down resolved actual s other =
      ap (λ (v : Service). v.deployed_digest) (remove_one-svc (last_by_name none actual) s)
  act-digest update resolved actual s other = absurd (other refl)
  act-digest redeploy resolved actual s other =
      let started = save e (record s.svc { status = deploying }) s in
      recreate-digest false resolved (remove_containers e parse_duration message s.svc.name started)
      ∙ ap (λ (v : Service). v.deployed_digest) (remove_containers-svc s.svc.name started)

  reconcile_resolved-digest :
      (r : Result ManifestError ResolvedManifest) (by_service : String → List Container)
      (s : State W)
      → s.svc.deployed_digest ≡ ""
      → (reconcile_resolved e parse_duration message r by_service s).svc.deployed_digest ≡ ""
  unfolding reconcile_resolved
  reconcile_resolved-digest (err why) by_service s bare = bare
  reconcile_resolved-digest (ok resolved) by_service s bare =
      let actual = by_service s.svc.name in
      act-digest (diff (e.now s.world) s.svc resolved actual).action resolved actual s
        (diff-no_update (e.now s.world) s.svc resolved actual bare)
      ∙ bare

  module _ (unmarshal : String → Option ServiceManifest) (order : List (String × ℕ)) where
    reconcile_parsed-digest :
        (m : Option ServiceManifest) (by_service : String → List Container) (s : State W)
        → s.svc.deployed_digest ≡ ""
        → (reconcile_parsed e parse_duration message unmarshal order m by_service
            s).svc.deployed_digest
          ≡ ""
    unfolding reconcile_parsed
    reconcile_parsed-digest none by_service s bare = bare
    reconcile_parsed-digest (some m) by_service s bare =
        reconcile_resolved-digest (resolve order m) by_service s bare

    reconcile_one-digest :
        (by_service : String → List Container) (s : State W)
        → s.svc.deployed_digest ≡ ""
        → (reconcile_one e parse_duration message unmarshal order by_service s).svc.deployed_digest
          ≡ ""
    unfolding reconcile_one
    reconcile_one-digest by_service s bare = elim (Bool-cases (s.svc.manifest_json == "")) [
      | inl blank ↦ rw (blank, reconcile_one) bare
      | inr given ↦
          rw (given, reconcile_one)
            (reconcile_parsed-digest (unmarshal s.svc.manifest_json) by_service s bare)
    ]

-- The poll writes the remote digest, and never the deployed one.
record_fetched-digest :
    (now stamp : ℕ) (svc : Service) (fetched : Option String)
    → (record_fetched now stamp svc fetched).0.deployed_digest ≡ svc.deployed_digest
unfolding record_fetched record_digest
record_fetched-digest now stamp svc none = refl
record_fetched-digest now stamp svc (some digest) = elim (Bool-cases (is_new_digest svc digest)) [
  | inl new ↦ rw new refl
  | inr old ↦ rw old refl
]

poll_one-digest :
    (now : ℕ) (stamp : Service → ℕ) (read : String → Option ImageFields)
    (fetch : String → Option String) (svc : Service)
    → (poll_one now stamp read fetch svc).0.deployed_digest ≡ svc.deployed_digest
unfolding poll_one
poll_one-digest now stamp read fetch svc = elim (Bool-cases (resolve_image read svc == "")) [
  | inl none_named ↦ rw none_named refl
  | inr named ↦
      rw named (record_fetched-digest now (stamp svc) svc (fetch (resolve_image read svc)))
]

-- What the two loops of the reconciler can make of a service's row: any number of turns of either, in
-- any order, each with a world, a listing, a clock and a registry of its own.
module _ {W : Type 0} (e : Engine W) (parse_duration : String → ℤ) (message : Failure → String)
    (unmarshal : String → Option ServiceManifest) (order : List (String × ℕ))
    (read : String → Option ImageFields) where
  pub data Reaches (start : Service) : Service → Type 0 where
    unchanged : Reaches start start
    reconciled :
        {svc : Service}
        → Reaches start svc
        → (by_service : String → List Container) (s : State W) → s.svc ≡ svc
        → Reaches start (reconcile_one e parse_duration message unmarshal order by_service s).svc
    polled :
        {svc : Service}
        → Reaches start svc
        → (now : ℕ) (stamp : Service → ℕ) (fetch : String → Option String)
        → Reaches start (poll_one now stamp read fetch svc).0

  frozen :
      {start svc : Service}
      → start.deployed_digest ≡ ""
      → Reaches start svc
      → svc.deployed_digest ≡ ""
  frozen bare unchanged = bare
  frozen bare (reconciled before by_service s same) =
      reconcile_one-digest e parse_duration message unmarshal order by_service s
        (ap (λ (v : Service). v.deployed_digest) same ∙ frozen bare before)
  frozen bare (polled {svc} before now stamp fetch) =
      poll_one-digest now stamp read fetch svc ∙ frozen bare before

  -- A service whose row starts without a deployed digest never gets one from the reconciler's loops,
  -- and the reconciler never decides to update it, whatever digests its registry announces.
  pub never_updates :
      {start svc : Service}
      → start.deployed_digest ≡ ""
      → Reaches start svc
      → (now : ℕ) (resolved : ResolvedManifest) (actual : List Container)
      → (svc.deployed_digest ≡ "") × ((diff now svc resolved actual).action ≢ update)
  never_updates bare reached now resolved actual =
      let still = frozen bare reached in (still, diff-no_update now _ resolved actual still)
