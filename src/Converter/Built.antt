-- ===== src/Converter/Built.antt =====
-- A manifest whose build was resolved can be deployed.
use tidefly_plane.Prelude.{
  String, not, Option, none, some, [], ◌∷◌, All, Result, ok, err, ◌>>=◌, ◌≡◌, ◌≢◌, inl, inr, ◌==◌,
  Bool-cases, refl,
}
use tidefly_plane.Manifest.Schema.{ServiceManifest, BuildSpec, is_git_context, git_url}
use tidefly_plane.Manifest.Validate.{validate}
use tidefly_plane.Manifest.Validity.{IsValid, validate_iff}
use tidefly_plane.Converter.Input.{ConvertInput, Conversion, ConvertError, unbuilt}
use tidefly_plane.Converter.Sources.{local_tag, build_git_context}
use tidefly_plane.Converter.Convert.{
  Readers, BuildParams, resolve_build_spec, with_build, convert_build, convert_named,
}
use tidefly_plane.Converter.Accepted.{IsAccepted}
use tidefly_plane.Converter.Single.{local_tag_nonempty}

-- What is accepted and has nothing left to build.
abbrev pub IsReady : ServiceManifest → Type 0
IsReady m = IsAccepted m × (m.spec.container.build ≡ none)

module _ (readers : Readers) where
  abbrev TaggedAs : String → Result ConvertError BuildParams → Type 0
  TaggedAs tag (err why) = Unit
  TaggedAs tag (ok p) = p.build_tag ≡ tag

  after_archive-TaggedAs :
      (tag : String) (archive : Result ConvertError String) (build : String → BuildParams)
      → ((a : String) → (build a).build_tag ≡ tag)
      → TaggedAs tag (archive >>= λ a. ok (build a))
  after_archive-TaggedAs tag (err why) build same = tt
  after_archive-TaggedAs tag (ok a) build same = same a

  resolve_build_spec-TaggedAs :
      (name : String) (b : BuildSpec) (token : String)
      → TaggedAs (local_tag name) (resolve_build_spec readers name b token)
  unfolding resolve_build_spec
  resolve_build_spec-TaggedAs name b token = elim (Bool-cases (not (b.dockerfile_inline == ""))) [
    | inl inline ↦ rw inline refl
    | inr outside ↦ elim (Bool-cases (is_git_context b)) [
      | inl git ↦
          rw (outside, git)
            (after_archive-TaggedAs (local_tag name)
              (build_git_context readers.clone (git_url b).0 (git_url b).1 token) _ (λ a. refl))
      | inr local ↦ rw (outside, local) refl
    ]
  ]

  with_build-IsReady :
      (m : ServiceManifest) (token : String) (p : BuildParams)
      → IsValid m
      → p.build_tag ≢ ""
      → All IsReady (with_build readers m token p).manifests
  unfolding with_build unbuilt
  with_build-IsReady m token p valid tagged = (
    (
      (validate_iff _).1 (record {
        version = valid.version;
        kind = valid.kind;
        named = valid.named;
        source = inl (tagged, refl);
        scaling = valid.scaling;
        env = valid.env;
      }),
      refl,
    ),
    tt,
  )

  convert_build-IsReady :
      (m : ServiceManifest) (token : String) (build : Option BuildSpec) {r : Conversion}
      → m.spec.container.build ≡ build
      → IsValid m
      → convert_build readers m token build ≡ ok r
      → All IsReady r.manifests
  unfolding convert_build unbuilt
  convert_build-IsReady m token none {r} bare valid h =
      let same : r.manifests ≡ m ∷ [] = cc h in rw same (((validate_iff m).1 valid, bare), tt)
  convert_build-IsReady m token (some b) {r} building valid h =
      resolved (resolve_build_spec readers m.metadata.name b token)
        (resolve_build_spec-TaggedAs m.metadata.name b token) h
    where
      resolved :
          (o : Result ConvertError BuildParams)
          → TaggedAs (local_tag m.metadata.name) o
          → (o >>= λ p. ok (with_build readers m token p)) ≡ ok r
          → All IsReady r.manifests
      resolved (err why) tagged e = cc e
      resolved (ok p) tagged e =
          let same : with_build readers m token p ≡ r = cc e in
          rw (← same) (
            with_build-IsReady m token p valid
              (λ empty. local_tag_nonempty m.metadata.name (cc (tagged, empty))))

  -- A manifest that `validate` accepts is still accepted after its build was resolved, and has no build left.
  pub convert_named-IsReady :
      (input : ConvertInput) (m : ServiceManifest) {r : Conversion}
      → validate m ≡ ok tt
      → convert_named readers input m ≡ ok r
      → All IsReady r.manifests
  unfolding convert_named
  convert_named-IsReady input m {r} accepted h = elim (Bool-cases (m.metadata.name == "")) [
    | inl unnamed ↦ cc (rw unnamed at h)
    | inr named ↦
        convert_build-IsReady m input.git_token m.spec.container.build refl
          ((validate_iff m).0 accepted) (rw named at h)
  ]
