-- ===== src/Converter/Nonempty.antt =====
-- A conversion that succeeds gives a manifest: `Manifests[0]`, which the deployment takes, is there. And a
-- build that was resolved leaves a manifest that can be deployed.
use tidefly_plane.Prelude.{
  String, Bool, true, false, Option, none, some, List, [], ◌∷◌, Result, ok, err, ◌≡◌, Dict, ◌==◌,
  refl, map, not, ◌>>=◌, ◌>>◌, guard, if◌then◌else◌, subst,
}
use tidefly_plane.Manifest.Schema.{ServiceManifest, BuildSpec}
use tidefly_plane.Converter.Input.{
  ConvertInput, Conversion, ConvertError, unbuilt, dockerfile_required, name_required,
  source_compose, no_source_type, source_manifest, source_stack, source_image, source_dockerfile,
  source_git,
}
use tidefly_plane.Converter.Compose.{ComposeService, convert_compose, is_empty, decoded}
use tidefly_plane.Converter.Sources.{
  Repo, convert_image, convert_dockerfile, convert_git, convert_detected, label_git, built_from,
  detect_in_repo, branch_or_main, repo_to_name,
}
use tidefly_plane.Converter.Convert.{
  Readers, BuildParams, resolve_build_spec, with_build, convert_build, convert_named,
  convert_service_manifest, convert_stack_manifest, convert_manifest, convert_as, convert,
  stack_input, detect_type,
}
use tidefly_plane.Converter.Accepted.{convert_compose-services, convert_services-lists}

-- If it succeeds, it has a manifest.
abbrev pub HasManifest : Result ConvertError Conversion → Type 0
HasManifest (err why) = Unit
HasManifest (ok r) = is_empty r.manifests ≡ false

-- What comes after a check or a reading, if that succeeds.
after_check :
    (check : Result ConvertError (Unit {0})) (next : Result ConvertError Conversion)
    → HasManifest next
    → HasManifest (check >> next)
after_check (ok done) next h = h
after_check (err why) next h = tt

after_guard :
    (b : Bool) (why : ConvertError) (next : Result ConvertError Conversion)
    → HasManifest next
    → HasManifest (guard b why >> next)
after_guard b why next h = after_check (guard b why) next h

after_reading {ℓ} :
    {A : Type ℓ} (why : ConvertError) (o : Option A) (next : A → Result ConvertError Conversion)
    → ((a : A) → HasManifest (next a))
    → HasManifest (decoded why o >>= next)
after_reading why none next h = tt
after_reading why (some a) next h = h a

either :
    (b : Bool) (x y : Result ConvertError Conversion)
    → HasManifest x
    → HasManifest y
    → HasManifest (if b then x else y)
either true x y hx hy = hx
either false x y hx hy = hy

convert_compose-HasManifest :
    (yaml : String → Option (Dict ComposeService)) (input : ConvertInput)
    → HasManifest (convert_compose yaml input)
convert_compose-HasManifest yaml input = on (convert_compose yaml input) refl
  where
    on : (o : Result ConvertError Conversion) → convert_compose yaml input ≡ o → HasManifest o
    on (err why) e = tt
    on (ok r) e =
        let (services, read, converted) = convert_compose-services yaml input e in
        (convert_services-lists input services converted).1

convert_image-HasManifest : (input : ConvertInput) → HasManifest (convert_image input)
unfolding convert_image unbuilt
convert_image-HasManifest input = after_guard (not (input.image == "")) _ _ refl

convert_dockerfile-HasManifest : (input : ConvertInput) → HasManifest (convert_dockerfile input)
unfolding convert_dockerfile unbuilt
convert_dockerfile-HasManifest input =
    after_check
      (guard (not (input.dockerfile == "")) dockerfile_required
        >> guard (not (input.name == "")) name_required)
      _ refl

labelled-HasManifest :
    (url branch : String) (o : Result ConvertError Conversion)
    → HasManifest o
    → HasManifest (
        o >>= λ (r : Conversion).
        ok (record r { manifests = map (label_git url branch) r.manifests }))
labelled-HasManifest url branch (err why) h = tt
labelled-HasManifest url branch (ok r) h = kept r.manifests h
  where
    kept :
        (ms : List ServiceManifest)
        → is_empty ms ≡ false
        → is_empty (map (label_git url branch) ms) ≡ false
    kept [] h = h
    kept (m ∷ ms) h = refl

convert_detected-HasManifest :
    (yaml : String → Option (Dict ComposeService)) (name branch : String) (input : ConvertInput)
    (repo : Repo) (found : Option String × Option String)
    → HasManifest (convert_detected yaml name branch input repo found)
unfolding convert_detected built_from unbuilt
convert_detected-HasManifest yaml name branch input repo (some text, path) =
    let read = record input { type = source_compose; compose_yaml = text; name = name } in
    labelled-HasManifest input.git_url branch (convert_compose yaml read)
      (convert_compose-HasManifest yaml read)
convert_detected-HasManifest yaml name branch input repo (none, some path) =
    after_reading _ repo.archive _ (λ archive. refl)
convert_detected-HasManifest yaml name branch input repo (none, none) = tt

convert_git-HasManifest :
    (clone : (url branch token : String) → Option Repo)
    (yaml : String → Option (Dict ComposeService)) (input : ConvertInput)
    → HasManifest (convert_git clone yaml input)
unfolding convert_git
convert_git-HasManifest clone yaml input = after_guard (not (input.git_url == "")) _ _ (
    after_reading _ (clone input.git_url (branch_or_main input.branch) input.git_token) _ (λ repo.
      convert_detected-HasManifest yaml
        (if input.name == "" then repo_to_name input.git_url else input.name)
        (branch_or_main input.branch) input repo (detect_in_repo repo)))

module _ (readers : Readers) where
  convert_build-HasManifest :
      (m : ServiceManifest) (token : String) (build : Option BuildSpec)
      → HasManifest (convert_build readers m token build)
  unfolding convert_build with_build unbuilt
  convert_build-HasManifest m token none = refl
  convert_build-HasManifest m token (some b) =
      resolved (resolve_build_spec readers m.metadata.name b token)
    where
      resolved :
          (o : Result ConvertError BuildParams)
          → HasManifest (o >>= λ p. ok (with_build readers m token p))
      resolved (err why) = tt
      resolved (ok p) = refl

  convert_service_manifest-HasManifest :
      (input : ConvertInput) → HasManifest (convert_service_manifest readers input)
  unfolding convert_service_manifest convert_named
  convert_service_manifest-HasManifest input =
      after_reading _ (readers.read_service input.manifest_json) _ (λ m.
        after_guard (not (m.metadata.name == "")) _ _
          (convert_build-HasManifest m input.git_token m.spec.container.build))

  convert_stack_manifest-HasManifest :
      (input : ConvertInput) → HasManifest (convert_stack_manifest readers input)
  unfolding convert_stack_manifest
  convert_stack_manifest-HasManifest input =
      after_reading _ (readers.read_stack input.manifest_json) _ (λ sm.
        after_guard (not (sm.compose == "")) _ _
          (convert_compose-HasManifest readers.read_compose (stack_input readers sm)))

  convert_manifest-HasManifest :
      (input : ConvertInput) → HasManifest (convert_manifest readers input)
  unfolding convert_manifest
  convert_manifest-HasManifest input =
      after_reading _ (readers.read_kind input.manifest_json) _ (λ kind.
        either (kind == "stack") _ _ (convert_stack_manifest-HasManifest input)
          (convert_service_manifest-HasManifest input))

  convert_as-HasManifest :
      (type : String) (input : ConvertInput) → HasManifest (convert_as readers type input)
  unfolding convert_as
  convert_as-HasManifest type input =
      let compose = convert_compose-HasManifest readers.read_compose input in
      either (type == source_manifest) _ _ (convert_manifest-HasManifest input) (
        either (type == source_stack) _ _ compose (
          either (type == source_image) _ _ (convert_image-HasManifest input) (
            either (type == source_compose) _ _ compose (
              either (type == source_dockerfile) _ _ (convert_dockerfile-HasManifest input) (
                either (type == source_git) _ _
                  (convert_git-HasManifest readers.clone readers.read_compose input) tt)))))

  -- Whatever is submitted, and whatever the decoders and the clone of the repository answer: a conversion
  -- that succeeds has a first manifest.
  pub convert_nonempty :
      (input : ConvertInput) {r : Conversion}
      → convert readers input ≡ ok r
      → (m : ServiceManifest) × (rest : List ServiceManifest) × (r.manifests ≡ m ∷ rest)
  unfolding convert
  convert_nonempty input {r} h = first r.manifests refl (subst HasManifest h all)
    where
      all : HasManifest (convert readers input)
      all =
          let type = if input.type == "" then detect_type input else input.type in
          after_guard (not (type == "")) no_source_type _
            (convert_as-HasManifest type (record input { type = type }))

      first :
          (ms : List ServiceManifest)
          → r.manifests ≡ ms
          → is_empty r.manifests ≡ false
          → (m : ServiceManifest) × (rest : List ServiceManifest) × (r.manifests ≡ m ∷ rest)
      first [] e full = cc (rw e at full)
      first (m ∷ rest) e full = (m, rest, e)
