-- ===== src/Jobs/Updates.antt =====
-- What an update does to the manifest of a service.
use tidefly_plane.Prelude.{
  ℤ, pos, negsuc, eq_ℤ, is_positive, String, true, false, not, ◌&&◌, Option, none, some, ok, ◌≡◌,
  inl, inr, refl, ap, ◌∙◌, ◌==◌, eq_iff, eq_refl, arith, Bool-cases,
}
use tidefly_plane.Manifest.Schema.{ServiceManifest, ScalingSpec, ContainerSpec}
use tidefly_plane.Manifest.Validate.{validate}
use tidefly_plane.Manifest.Validity.{IsValid, IsScaling, validate_iff}
use tidefly_plane.Jobs.Changes.{
  UpdateArgs, scaling_or_empty, change_image, change_domain, change_replicas, with_changes,
}

change_image-IsValid :
    (image : String) (m : ServiceManifest) → IsValid m → IsValid (change_image image m).1
unfolding change_image
change_image-IsValid image m valid =
    elim (Bool-cases (not (image == "") && not (image == m.spec.container.image))) [
      | inr same ↦ rw same valid
      | inl new ↦ rw new (record {
        version = valid.version;
        kind = valid.kind;
        named = valid.named;
        source = inl (λ e. ground (arith, eq_iff image ""), refl);
        scaling = valid.scaling;
        env = valid.env;
      })
    ]

change_domain-IsValid :
    (domain : String) (m : ServiceManifest) → IsValid m → IsValid (change_domain domain m).1
unfolding change_domain
change_domain-IsValid domain m valid = elim (Bool-cases (domain == "")) [
  | inl same ↦ rw same valid
  | inr new ↦ rw new (record {
    version = valid.version;
    kind = valid.kind;
    named = valid.named;
    source = valid.source;
    scaling = valid.scaling;
    env = valid.env;
  })
]

scaled-IsScaling :
    (replicas : ℤ) (s : Option ScalingSpec)
    → IsScaling s
    → IsScaling (some (record (scaling_or_empty s) { replicas = replicas }))
scaled-IsScaling replicas none valid = (inr (inr (inr refl)), inr (inr (inr refl)), tt)
scaled-IsScaling replicas (some s) valid = valid

change_replicas-IsValid :
    (replicas : ℤ) (m : ServiceManifest) → IsValid m → IsValid (change_replicas replicas m).1
unfolding change_replicas
change_replicas-IsValid replicas m valid = elim (Bool-cases (is_positive replicas)) [
  | inr same ↦ rw same valid
  | inl new ↦ rw new (record {
    version = valid.version;
    kind = valid.kind;
    named = valid.named;
    source = valid.source;
    scaling = scaled-IsScaling replicas m.spec.scaling valid.scaling;
    env = valid.env;
  })
]

-- A change that was made is not made again, and leaves the parts of the others alone.
eq_ℤ_self : (n : ℤ) → eq_ℤ n n ≡ true
eq_ℤ_self (pos n) = ground arith
eq_ℤ_self (negsuc n) = ground arith

image_again :
    (image : String) (m n : ServiceManifest)
    → n.spec.container ≡ (change_image image m).1.spec.container
    → change_image image n ≡ (false, n)
unfolding change_image
image_again image m n same =
    elim (Bool-cases (not (image == "") && not (image == m.spec.container.image))) [
      | inl new ↦
          let taken : n.spec.container.image ≡ image =
            ap (λ (c : ContainerSpec). c.image) (rw new at same) in
          rw (taken, eq_refl image)
            (elim (Bool-cases (image == "")) [ inl e ↦ rw e refl | inr e ↦ rw e refl ])
      | inr old ↦
          let kept : n.spec.container.image ≡ m.spec.container.image =
            ap (λ (c : ContainerSpec). c.image) (rw old at same) in
          rw (kept, old) refl
    ]

domain_again :
    (domain : String) (m n : ServiceManifest)
    → n.spec.expose ≡ (change_domain domain m).1.spec.expose
    → (change_domain domain n).0 ≡ false
unfolding change_domain
domain_again domain m n same = elim (Bool-cases (domain == "")) [
  | inl none_given ↦ rw none_given refl
  | inr given ↦ rw (given, same, given) (ground (arith, eq_refl domain))
]

replicas_again :
    (replicas : ℤ) (m n : ServiceManifest)
    → n.spec.scaling ≡ (change_replicas replicas m).1.spec.scaling
    → (change_replicas replicas n).0 ≡ false
unfolding change_replicas
replicas_again replicas m n same = elim (Bool-cases (is_positive replicas)) [
  | inr none_given ↦ rw none_given refl
  | inl given ↦ rw (given, same, given) (ground (arith, eq_ℤ_self replicas))
]

domain-container :
    (domain : String) (m : ServiceManifest)
    → (change_domain domain m).1.spec.container ≡ m.spec.container
unfolding change_domain
domain-container domain m = elim (Bool-cases (domain == "")) [
  | inl e ↦ rw e refl
  | inr e ↦ rw e refl
]

domain-scaling :
    (domain : String) (m : ServiceManifest)
    → (change_domain domain m).1.spec.scaling ≡ m.spec.scaling
unfolding change_domain
domain-scaling domain m = elim (Bool-cases (domain == "")) [ inl e ↦ rw e refl | inr e ↦ rw e refl ]

replicas-container :
    (replicas : ℤ) (m : ServiceManifest)
    → (change_replicas replicas m).1.spec.container ≡ m.spec.container
unfolding change_replicas
replicas-container replicas m = elim (Bool-cases (is_positive replicas)) [
  | inl e ↦ rw e refl
  | inr e ↦ rw e refl
]

replicas-expose :
    (replicas : ℤ) (m : ServiceManifest)
    → (change_replicas replicas m).1.spec.expose ≡ m.spec.expose
unfolding change_replicas
replicas-expose replicas m = elim (Bool-cases (is_positive replicas)) [
  | inl e ↦ rw e refl
  | inr e ↦ rw e refl
]

with_changes_again :
    (p : UpdateArgs) (m : ServiceManifest) → (with_changes p (with_changes p m).1).0 ≡ false
unfolding with_changes
with_changes_again p m =
    let imaged = (change_image p.image m).1 in
    let routed = (change_domain p.domain imaged).1 in
    let scaled = (change_replicas p.replicas routed).1 in
    let image =
      image_again p.image m scaled
        (replicas-container p.replicas routed ∙ domain-container p.domain imaged) in
    let domain = domain_again p.domain imaged scaled (replicas-expose p.replicas routed) in
    let replicas =
      replicas_again p.replicas routed (change_domain p.domain scaled).1
        (domain-scaling p.domain scaled) in
    rw (image, domain, replicas) refl

-- An update leaves a valid manifest valid, so that the container which replaces the ones it removes can be
-- specified; and the same update has nothing left to change afterwards.
pub with_changes_settled :
    (p : UpdateArgs) (m : ServiceManifest)
    → validate m ≡ ok tt
    → (validate (with_changes p m).1 ≡ ok tt) × ((with_changes p (with_changes p m).1).0 ≡ false)
unfolding with_changes
with_changes_settled p m accepted =
    let imaged = (change_image p.image m).1 in
    let routed = (change_domain p.domain imaged).1 in
    (
      (validate_iff _).1 (
          change_replicas-IsValid p.replicas routed (
            change_domain-IsValid p.domain imaged
              (change_image-IsValid p.image m ((validate_iff m).0 accepted)))),
      with_changes_again p m,
    )
