-- ===== src/Converter/Accepted.antt =====
-- Which converted manifests `validate` of internal/manifest/resolver.go accepts.
use Prim.Native.String.{◌++◌}
use text.Mathlib.TextLemmas.{append-eq-nil_iff}
use tidefly_plane.Prelude.{
  String, false, Option, none, some, List, [], ◌∷◌, All, ok, ◌≡◌, ◌≢◌, ◌↔◌, ◌⊎◌, inl, inr, Dict,
  ◌==◌, eq_iff, arith, Bool-cases, Option-cases, refl, map, cut_first,
}
use tidefly_plane.Manifest.Schema.{ServiceManifest}
use tidefly_plane.Manifest.Validate.{validate}
use tidefly_plane.Manifest.Validity.{IsEnv, IsRestart, validate_iff}
use tidefly_plane.Converter.Input.{ConvertInput, Conversion, unbuilt}
use tidefly_plane.Converter.Compose.{
  Yaml, ComposeService, absent, other, sequence, mapping, env_items, env_pair, env_item,
  parse_compose_env, compose_restart, compose_manifest, compose_manifests, compose_stack_name,
  convert_services, convert_compose, is_empty,
}

-- The restart policies of a Compose file that a service can be deployed with.
abbrev pub IsComposeRestart : String → Type 0
IsComposeRestart s =
    (s ≡ "") ⊎ ((s ≡ "unless-stopped") ⊎ ((s ≡ "on-failure") ⊎ ((s ≡ "always") ⊎ (s ≡ "never"))))

compose_restart_iff : (s : String) → IsRestart (compose_restart s) ↔ IsComposeRestart s
unfolding compose_restart
compose_restart_iff s = ground (
  arith,
  eq_iff s "",
  eq_iff s "unless-stopped",
  eq_iff s "on-failure",
  eq_iff s "always",
  eq_iff s "never",
)

env_item-IsEnv : (o : Option (String × String)) (s : String) → IsEnv (env_item o s)
env_item-IsEnv none s = inr refl
env_item-IsEnv (some p) s = inr refl

env_items-IsEnv : (items : List (Option String)) → All IsEnv (env_items items)
unfolding env_items
env_items-IsEnv [] = tt
env_items-IsEnv (none ∷ items) = env_items-IsEnv items
env_items-IsEnv (some s ∷ items) = (env_item-IsEnv (cut_first b'=' s) s, env_items-IsEnv items)

map-env_pair-IsEnv : (pairs : Dict (Option String)) → All IsEnv (map env_pair pairs)
map-env_pair-IsEnv [] = tt
map-env_pair-IsEnv ((key, none) ∷ pairs) = (inr refl, map-env_pair-IsEnv pairs)
map-env_pair-IsEnv ((key, some value) ∷ pairs) = (inr refl, map-env_pair-IsEnv pairs)

parse_compose_env-IsEnv : (y : Yaml) → All IsEnv (parse_compose_env y)
unfolding parse_compose_env
parse_compose_env-IsEnv absent = tt
parse_compose_env-IsEnv other = tt
parse_compose_env-IsEnv (sequence items) = env_items-IsEnv items
parse_compose_env-IsEnv (mapping pairs) = map-env_pair-IsEnv pairs

dashed : (a b : String) → (a ++ "-" ++ b) ≢ ""
dashed a b h =
    let empty : "-" ++ b ≡ "" = (append-eq-nil_iff.0 h).1 in
    let dash : ◌≡◌ {A = String} "-" "" = (append-eq-nil_iff.0 empty).0 in
    ground (arith, dash, eq_iff "-" "")

compose_manifest-valid :
    (stack : String) (input : ConvertInput) (name : String) (svc : ComposeService)
    → svc.image == "" ≡ false
    → (validate (compose_manifest stack input name svc) ≡ ok tt) ↔ IsComposeRestart svc.restart
unfolding compose_manifest
compose_manifest-valid stack input name svc image =
    let m : ServiceManifest = compose_manifest stack input name svc in
    (
      λ h. (compose_restart_iff svc.restart).0 ((validate_iff m).0 h).scaling.0,
      λ h. (validate_iff m).1 (record {
        version = refl;
        kind = refl;
        named = dashed stack name;
        source = inl (λ e. cc ((eq_iff svc.image "").1 e), refl);
        scaling = ((compose_restart_iff svc.restart).1 h, inl refl, tt);
        env = parse_compose_env-IsEnv svc.environment;
      }),
    )

-- A service of a Compose file that is skipped, or whose policy can be deployed.
abbrev pub IsDeployable : String × ComposeService → Type 0
IsDeployable (name, svc) = (svc.image ≡ "") ⊎ IsComposeRestart svc.restart

listed :
    (name : String) (svc : ComposeService)
    → svc.image == "" ≡ false
    → IsDeployable (name, svc)
    → IsComposeRestart svc.restart
listed name svc image (inl skipped) = cc ((eq_iff svc.image "").1 skipped)
listed name svc image (inr known) = known

abbrev pub IsAccepted : ServiceManifest → Type 0
IsAccepted m = validate m ≡ ok tt

compose_manifests-IsAccepted :
    (stack : String) (input : ConvertInput) (services : Dict ComposeService)
    → All IsAccepted (compose_manifests stack input services) ↔ All IsDeployable services
unfolding compose_manifests
compose_manifests-IsAccepted stack input [] = (λ h. h, λ h. h)
compose_manifests-IsAccepted stack input ((name, svc) ∷ services) =
    let rest = compose_manifests-IsAccepted stack input services in
    elim (Bool-cases (svc.image == "")) [
      | inl skipped ↦
          rw skipped (λ h. (inl ((eq_iff svc.image "").0 skipped), rest.0 h), λ h. rest.1 h.1)
      | inr image ↦
          let this = compose_manifest-valid stack input name svc image in
          rw image (
            λ h. (inr (this.0 h.0), rest.0 h.1),
            λ h. (this.1 (listed name svc image h.0), rest.1 h.1),
          )
    ]

-- A conversion of a Compose file lists the manifests of its services, of which there is one.
pub convert_services-lists :
    (input : ConvertInput) (services : Dict ComposeService) {r : Conversion}
    → convert_services input services ≡ ok r
    → (r.manifests ≡ compose_manifests (compose_stack_name input) input services)
      × (is_empty r.manifests ≡ false)
unfolding convert_services unbuilt
convert_services-lists input services {r} h = elim (Bool-cases (is_empty services)) [
  | inl bare ↦ cc (rw bare at h)
  | inr some_service ↦
      let ms = compose_manifests (compose_stack_name input) input services in
      elim (Bool-cases (is_empty ms)) [
        | inl none_left ↦ cc (rw (some_service, none_left) at h)
        | inr left ↦
            let same : r.manifests ≡ ms = cc (rw (some_service, left) at h) in (same, rw same left)
      ]
]

pub convert_compose-services :
    (yaml : String → Option (Dict ComposeService)) (input : ConvertInput) {r : Conversion}
    → convert_compose yaml input ≡ ok r
    → (services : Dict ComposeService) × (yaml input.compose_yaml ≡ some services)
      × (convert_services input services ≡ ok r)
unfolding convert_compose
convert_compose-services yaml input {r} h = elim (Bool-cases (input.compose_yaml == "")) [
  | inl bare ↦ cc (rw bare at h)
  | inr given ↦ elim (Option-cases (yaml input.compose_yaml)) [
    | inl bad ↦ cc (rw (given, bad) at h)
    | inr (services, read) ↦ (services, read, rw (given, read) at h)
  ]
]

-- Every manifest that comes of a Compose file is accepted by `validate` exactly if each of its services
-- that has an image has one of the restart policies "", "unless-stopped", "on-failure", "always" and "never".
pub convert_compose-IsAccepted :
    (yaml : String → Option (Dict ComposeService)) (input : ConvertInput)
    {services : Dict ComposeService} {r : Conversion}
    → yaml input.compose_yaml ≡ some services
    → convert_compose yaml input ≡ ok r
    → All IsAccepted r.manifests ↔ All IsDeployable services
convert_compose-IsAccepted yaml input {services} {r} read h =
    let (found, there, converted) = convert_compose-services yaml input h in
    let same : found ≡ services = cc (there, read) in
    let lists = convert_services-lists input found converted in
    rw (lists.0, same) (compose_manifests-IsAccepted (compose_stack_name input) input services)
