-- ===== src/Converter/Single.antt =====
-- When `validate` accepts the manifest of an image, of a Dockerfile, and of a build that was resolved.
use text.Mathlib.TextLemmas.{append-eq-nil_iff}
use tidefly_plane.Prelude.{
  String, Option, [], ◌∷◌, All, ok, ◌≡◌, ◌≢◌, ◌↔◌, inl, inr, Dict, ◌==◌, eq_iff, arith, Bool-cases,
  refl, is_positive, not, ◌||◌, contains, if◌then◌else◌, before_first,
}
use tidefly_plane.Manifest.Schema.{ServiceManifest, ScalingSpec}
use tidefly_plane.Manifest.Validity.{IsEnv, IsStrategy, IsScaling, validate_iff}
use tidefly_plane.Converter.Input.{
  ConvertInput, Conversion, unbuilt, input_scaling, source_image, source_dockerfile,
}
use tidefly_plane.Converter.Sources.{
  single_manifest, convert_image, convert_dockerfile, image_to_name, local_tag, qualify_local_tag,
}
use tidefly_plane.Converter.Accepted.{IsAccepted}

single_manifest_iff :
    (name image : String) (labels : Dict String) (scaling : Option ScalingSpec)
    (input : ConvertInput)
    → image ≢ ""
    → IsAccepted (single_manifest name image labels scaling input)
      ↔ ((name ≢ "") × IsScaling scaling × All IsEnv input.env)
unfolding single_manifest
single_manifest_iff name image labels scaling input given =
    let m : ServiceManifest = single_manifest name image labels scaling input in
    (
      λ h. let valid = (validate_iff m).0 h in (valid.named, valid.scaling, valid.env),
      λ (named, scaled, env). (validate_iff m).1 (record {
        version = refl;
        kind = refl;
        named = named;
        source = inl (given, refl);
        scaling = scaled;
        env = env;
      }),
    )

-- Without a strategy and a number there is no scaling to refuse.
input_scaling_iff :
    (input : ConvertInput) → IsScaling (input_scaling input) ↔ IsStrategy input.strategy
unfolding input_scaling
input_scaling_iff input =
    elim (Bool-cases (is_positive input.replicas || not (input.strategy == ""))) [
      | inl scaled ↦ rw scaled (λ h. h.1, λ h. (inl refl, h, tt))
      | inr unscaled ↦ rw unscaled (λ h. ground (arith, eq_iff input.strategy ""), λ h. tt)
    ]

scaled_alone_iff :
    (name image : String) (labels : Dict String) (input : ConvertInput)
    → image ≢ ""
    → All IsAccepted (single_manifest name image labels (input_scaling input) input ∷ [])
      ↔ ((name ≢ "") × IsStrategy input.strategy × All IsEnv input.env)
scaled_alone_iff name image labels input given =
    let single = single_manifest_iff name image labels (input_scaling input) input given in
    let scaled = input_scaling_iff input in
    (
      λ h. let (named, scaling, env) = single.0 h.0 in (named, scaled.0 scaling, env),
      λ (named, strategy, env). (single.1 (named, scaled.1 strategy, env), tt),
    )

-- The manifest of an image is accepted exactly if it has a name, given or taken from the image, a known
-- strategy, and no variable with both a value and a secret.
pub convert_image-IsAccepted :
    (input : ConvertInput) {r : Conversion}
    → convert_image input ≡ ok r
    → All IsAccepted r.manifests ↔ (
        ((if input.name == "" then image_to_name input.image else input.name) ≢ "")
        × IsStrategy input.strategy
        × All IsEnv input.env)
unfolding convert_image unbuilt
convert_image-IsAccepted input {r} h = elim (Bool-cases (input.image == "")) [
  | inl bare ↦ cc (rw bare at h)
  | inr given ↦
      let name = if input.name == "" then image_to_name input.image else input.name in
      let labels : Dict String = ("tidefly.source", source_image) ∷ [] in
      let same : r.manifests
          ≡ single_manifest name input.image labels (input_scaling input) input ∷ [] =
        cc (rw given at h) in
      rw same
        (scaled_alone_iff name input.image labels input (λ e. cc ((eq_iff input.image "").1 e)))
]

-- A local tag is never empty.
qualify_local_tag_nonempty : (tag : String) → tag ≢ "" → qualify_local_tag tag ≢ ""
unfolding qualify_local_tag
qualify_local_tag_nonempty tag given =
    elim (Bool-cases
      (contains b'.' (before_first b'/' tag) || before_first b'/' tag == "localhost")) [
        | inl local ↦ rw local given
        | inr bare ↦ rw bare (λ h.
            let host : ◌≡◌ {A = String} "localhost/" "" = (append-eq-nil_iff.0 h).0 in
            ground (arith, host, eq_iff "localhost/" ""))
      ]

pub local_tag_nonempty : (name : String) → local_tag name ≢ ""
unfolding local_tag
local_tag_nonempty name h =
    let host : ◌≡◌ {A = String} "localhost/tidefly/" "" = (append-eq-nil_iff.0 h).0 in
    ground (arith, host, eq_iff "localhost/tidefly/" "")

given_tag_nonempty : (tag name : String) → (if tag == "" then local_tag name else tag) ≢ ""
given_tag_nonempty tag name = elim (Bool-cases (tag == "")) [
  | inl bare ↦ rw bare (local_tag_nonempty name)
  | inr given ↦ rw given (λ e. cc ((eq_iff tag "").1 e))
]

-- The manifest of a Dockerfile is accepted exactly if its strategy is known and no variable has both a
-- value and a secret: that it has a name and an image is seen to before.
pub convert_dockerfile-IsAccepted :
    (input : ConvertInput) {r : Conversion}
    → convert_dockerfile input ≡ ok r
    → All IsAccepted r.manifests ↔ (IsStrategy input.strategy × All IsEnv input.env)
unfolding convert_dockerfile unbuilt
convert_dockerfile-IsAccepted input {r} h = elim (Bool-cases (input.dockerfile == "")) [
  | inl bare ↦ cc (rw bare at h)
  | inr given ↦ elim (Bool-cases (input.name == "")) [
    | inl unnamed ↦ cc (rw (given, unnamed) at h)
    | inr named ↦
        let tag =
          qualify_local_tag
            (if input.build_tag == "" then local_tag input.name else input.build_tag) in
        let labels : Dict String =
          ("tidefly.source", source_dockerfile) ∷ (("tidefly.build-tag", tag) ∷ []) in
        let same : r.manifests
            ≡ single_manifest input.name tag labels (input_scaling input) input ∷ [] =
          cc (rw (given, named) at h) in
        let both = scaled_alone_iff input.name tag labels input (
          qualify_local_tag_nonempty
            (if input.build_tag == "" then local_tag input.name else input.build_tag)
            (given_tag_nonempty input.build_tag input.name)) in
        rw same (
          λ all. let (_, strategy, env) = both.0 all in (strategy, env),
          λ known. both.1 (λ e. cc ((eq_iff input.name "").1 e), known.0, known.1),
        )
  ]
]
