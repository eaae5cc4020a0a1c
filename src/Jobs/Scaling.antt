-- ===== src/Jobs/Scaling.antt =====
-- The autoscaling of internal/jobs/service_workers.go keeps to its bounds and its pauses.
use tidefly_plane.Prelude.{
  ℕ, ◌-◌, ◌≤◌, pos, ◌≤ℤ◌, ltb_ℤ, Bool, true, false, not, ◌&&◌, Option, none, some, List, [], ◌∷◌,
  ◌≡◌, refl, subst, inl, inr, Bool-cases, ltb, is_some, arith,
}
use tidefly_plane.Manifest.Resolved.{ResolvedAutoscaling}
use tidefly_plane.Jobs.Autoscale.{
  ScaleEntry, Load, within, Decision, nothing, note, scale_up, scale_down, wants_up, wants_down,
  decide_up, decide_down_since, decide_down, decide_reset, decide_local, decide_worker, scaled,
  scale_up_cooldown,
}

-- What a decision may do to the number of containers.
abbrev pub Allowed : ResolvedAutoscaling → ℕ → Decision → Type 0
Allowed limits current nothing = Unit
Allowed limits current (note e) = Unit
Allowed limits current (scale_up e) = ltb_ℤ (pos current) limits.max ≡ true
Allowed limits current (scale_down e) = ltb_ℤ limits.min (pos current) ≡ true

module _ (limits : ResolvedAutoscaling) (current now : ℕ) (load : Load) (entry : ScaleEntry) where
  decide_up-Allowed :
      wants_up limits current load ≡ true → Allowed limits current (decide_up now entry)
  unfolding decide_up
  decide_up-Allowed h = elim (Bool-cases (within now entry.last_scale_up scale_up_cooldown)) [
    | inl soon ↦ rw soon tt
    | inr free ↦ rw free (ground (arith, h))
  ]

  decide_down-Allowed :
      wants_down limits current load ≡ true → Allowed limits current (decide_down now entry)
  unfolding decide_down decide_down_since
  decide_down-Allowed h = since entry.below_threshold_since
    where
      since : (o : Option ℕ) → Allowed limits current (decide_down_since now o entry)
      since none = tt
      since (some t) = elim (Bool-cases (ltb (now - t) 180000)) [
        | inl soon ↦ rw soon tt
        | inr late ↦ rw late (ground (arith, h))
      ]

  decide_reset-Allowed : Allowed limits current (decide_reset load entry)
  unfolding decide_reset
  decide_reset-Allowed =
      elim (Bool-cases (is_some entry.below_threshold_since && not load.cpu_low)) [
        | inl reset ↦ rw reset tt
        | inr kept ↦ rw kept tt
      ]

  decide_local-Allowed : Allowed limits current (decide_local now limits current load entry)
  unfolding decide_local
  decide_local-Allowed = elim (Bool-cases (wants_up limits current load)) [
    | inl up ↦ rw up (decide_up-Allowed up)
    | inr no_up ↦ elim (Bool-cases (wants_down limits current load)) [
      | inl down ↦ rw (no_up, down) (decide_down-Allowed down)
      | inr no_down ↦ rw (no_up, no_down) decide_reset-Allowed
    ]
  ]

  decide_worker-Allowed : Allowed limits current (decide_worker now limits current load entry)
  unfolding decide_worker
  decide_worker-Allowed = elim (Bool-cases (wants_up limits current load)) [
    | inl up ↦ rw up (decide_up-Allowed up)
    | inr no_up ↦ elim (Bool-cases (wants_down limits current load)) [
      | inl down ↦ rw (no_up, down) (decide_down-Allowed down)
      | inr no_down ↦ rw (no_up, no_down) tt
    ]
  ]

abbrev pub Bounded : ResolvedAutoscaling → ℕ → Type 0
Bounded limits n = (pos n ≤ℤ limits.max) × (limits.min ≤ℤ pos n)

scaled-Bounded :
    (done : Bool) (limits : ResolvedAutoscaling) (current : ℕ) (d : Decision)
    → Allowed limits current d
    → Bounded limits current
    → Bounded limits (scaled done d current)
unfolding scaled
scaled-Bounded true limits current (scale_up e) allowed within = (ground arith, ground arith)
scaled-Bounded true limits current (scale_down e) allowed within = (ground arith, ground arith)
scaled-Bounded true limits current nothing allowed within = within
scaled-Bounded true limits current (note e) allowed within = within
scaled-Bounded false limits current d allowed within = within

-- A round of the autoscaling, of a local service or of one on a worker, that finds a number of containers
-- between the minimum and the maximum of the manifest leaves one between them, whatever the load, the
-- history and the outcome of the change are.
pub scaled_bounds :
    (done : Bool) (limits : ResolvedAutoscaling) (current now : ℕ) (load : Load)
    (entry : ScaleEntry)
    → pos current ≤ℤ limits.max
    → limits.min ≤ℤ pos current
    → Bounded limits (scaled done (decide_local now limits current load entry) current)
      × Bounded limits (scaled done (decide_worker now limits current load entry) current)
scaled_bounds done limits current now load entry below above = (
  scaled-Bounded done limits current (decide_local now limits current load entry)
      (decide_local-Allowed limits current now load entry) (below, above),
  scaled-Bounded done limits current (decide_worker now limits current load entry)
      (decide_worker-Allowed limits current now load entry) (below, above),
)

-- A round at a service: when it was, what it found, and whether its change succeeded.
pub record Round : Type 0 where
  pub now : ℕ
  pub current : ℕ
  pub load : Load
  pub done : Bool

-- The entry after a round, with the times of the additions so far, latest first.
abbrev pub Tracked : Type 0
Tracked = ScaleEntry × List ℕ

unfoldable pub advance : (done : Bool) (now : ℕ) → Decision → Tracked → Tracked
advance done now nothing t = t
advance done now (note e) (entry, ups) = (e, ups)
advance true now (scale_up e) (entry, ups) = (e, now ∷ ups)
advance true now (scale_down e) (entry, ups) = (e, ups)
advance false now (scale_up e) t = t
advance false now (scale_down e) t = t

unfoldable pub rounds : ResolvedAutoscaling → List Round → Tracked → Tracked
unfolding advance
rounds limits [] t = t
rounds limits (r ∷ rs) t =
    rounds limits rs (advance r.done r.now (decide_local r.now limits r.current r.load t.0) t)

abbrev latest : List ℕ → Option ℕ
latest [] = none
latest (t ∷ ts) = some t

-- Neighbours are at least thirty seconds apart.
abbrev pub Spaced : List ℕ → Type 0
Spaced [] = Unit
Spaced (t ∷ []) = Unit
Spaced (t ∷ u ∷ ts) = (30000 ≤ t - u) × Spaced (u ∷ ts)

abbrev InStep : Tracked → Type 0
InStep (entry, ups) = (entry.last_scale_up ≡ latest ups) × Spaced ups

Spaced-cons :
    (now : ℕ) (ups : List ℕ)
    → within now (latest ups) scale_up_cooldown ≡ false
    → Spaced ups
    → Spaced (now ∷ ups)
Spaced-cons now [] free spaced = tt
Spaced-cons now (u ∷ ups) free spaced = (ground arith, spaced)

module _ (done : Bool) (now : ℕ) (entry : ScaleEntry) (ups : List ℕ)
    (step : InStep (entry, ups)) where
  decide_up-InStep : InStep (advance done now (decide_up now entry) (entry, ups))
  unfolding decide_up advance
  decide_up-InStep = elim (Bool-cases (within now entry.last_scale_up scale_up_cooldown)) [
    | inl soon ↦ rw soon step
    | inr free ↦
        rw free (added done (subst (λ o. within now o scale_up_cooldown ≡ false) step.0 free))
  ]
    where
      added :
          (d : Bool)
          → within now (latest ups) scale_up_cooldown ≡ false
          → InStep (
              advance d now
                (scale_up (record entry { last_scale_up = some now; below_threshold_since = none }))
                (entry, ups))
      added true free = (refl, Spaced-cons now ups free step.1)
      added false free = step

  decide_down-InStep : InStep (advance done now (decide_down now entry) (entry, ups))
  unfolding decide_down decide_down_since advance
  decide_down-InStep = since entry.below_threshold_since
    where
      removed :
          (d : Bool)
          → InStep (
              advance d now
                (scale_down
                  (record entry { last_scale_down = some now; below_threshold_since = none }))
                (entry, ups))
      removed true = step
      removed false = step

      since :
          (o : Option ℕ) → InStep (advance done now (decide_down_since now o entry) (entry, ups))
      since none = step
      since (some t) = elim (Bool-cases (ltb (now - t) 180000)) [
        | inl soon ↦ rw soon step
        | inr late ↦ rw late (removed done)
      ]

  decide_reset-InStep :
      (load : Load) → InStep (advance done now (decide_reset load entry) (entry, ups))
  unfolding decide_reset advance
  decide_reset-InStep load =
      elim (Bool-cases (is_some entry.below_threshold_since && not load.cpu_low)) [
        | inl reset ↦ rw reset step
        | inr kept ↦ rw kept step
      ]

  decide_local-InStep :
      (limits : ResolvedAutoscaling) (current : ℕ) (load : Load)
      → InStep (advance done now (decide_local now limits current load entry) (entry, ups))
  unfolding decide_local
  decide_local-InStep limits current load = elim (Bool-cases (wants_up limits current load)) [
    | inl up ↦ rw up decide_up-InStep
    | inr no_up ↦ elim (Bool-cases (wants_down limits current load)) [
      | inl down ↦ rw (no_up, down) decide_down-InStep
      | inr no_down ↦ rw (no_up, no_down) (decide_reset-InStep load)
    ]
  ]

-- Over any rounds at a local service, whatever they find and whichever of their changes succeed: between
-- two containers that the autoscaling adds there are at least thirty seconds.
pub rounds-Spaced :
    (limits : ResolvedAutoscaling) (rs : List Round) (entry : ScaleEntry)
    → entry.last_scale_up ≡ none
    → Spaced (rounds limits rs (entry, [])).1
unfolding rounds
rounds-Spaced limits rs entry fresh = (all rs (entry, []) (fresh, tt)).1
  where
    all : (rest : List Round) (t : Tracked) → InStep t → InStep (rounds limits rest t)
    all [] t step = step
    all (r ∷ rest) (e, ups) step =
        all rest (advance r.done r.now (decide_local r.now limits r.current r.load e) (e, ups))
          (decide_local-InStep r.done r.now e ups step limits r.current r.load)
