-- ===== src/Reconciler/Labels.antt =====
-- The labels of the containers that internal/reconciler creates, read back by its next turn.
use tidefly_plane.Prelude.{
  ℕ, ℤ, String, Bool, false, Option, none, some, List, ◌∷◌, ◌≡◌, refl, ap, ◌∙◌, ◌≢◌, inl, inr,
  Bool-cases, ◌==◌, eq_iff, get, put, lookup-put, Dict, not_equal,
}
use tidefly_plane.Manifest.Resolved.{ResolvedManifest, ResolvedBuild}
use tidefly_plane.Manifest.Adapter.{
  to_container_spec, spec_labels, build_labels, source_labels, itoa,
}
use tidefly_plane.Manifest.Digits.{read_ℤ, read_ℤ-itoa}
use tidefly_plane.Models.Service.{Service}
use tidefly_plane.Runtime.Types.{Container, Spec, is_podman}
use tidefly_plane.Reconciler.Diff.{service_label, index_by_service}
use tidefly_plane.Reconciler.BlueGreen.{service_spec, slot_spec}
use tidefly_plane.Reconciler.Rolling.{roll_spec}
use tidefly_plane.Runtime.Engine.{Engine}

get-put : (k : String) (v : String) (m : Dict String) → get k (put k v m) ≡ v
unfolding get
get-put k v m = rw (get, lookup-put k k v m) (rw ((eq_iff k k).1 refl) refl)

get-put_other :
    (k j : String) (v : String) (m : Dict String) → k == j ≡ false → get j (put k v m) ≡ get j m
unfolding get
get-put_other k j v m apart = rw (get, lookup-put k j v m) (rw apart refl)

port_key :
    (k : String) (v : String) (m : Dict String)
    → k == "tidefly.port" ≡ false
    → get "tidefly.port" (put k v m) ≡ get "tidefly.port" m
port_key k v m apart = get-put_other k "tidefly.port" v m apart

source_labels-port :
    (b : ResolvedBuild) (m : Dict String)
    → get "tidefly.port" (source_labels b m) ≡ get "tidefly.port" m
unfolding source_labels
source_labels-port b m = elim (Bool-cases b.is_git) [
  | inl cloned ↦
      rw (cloned, source_labels)
        (port_key "tidefly.dockerfile-path" _ _ refl
          ∙ (port_key "tidefly.git-branch" _ _ refl
              ∙ (port_key "tidefly.git-url" _ _ refl ∙ port_key "tidefly.source" _ m refl)))
  | inr local ↦ elim (Bool-cases (b.dockerfile_inline == "")) [
    | inl bare ↦ rw (local, bare, source_labels) refl
    | inr inline ↦ rw (local, inline, source_labels) (port_key "tidefly.source" _ m refl)
  ]
]

build_labels-port :
    (build : Option ResolvedBuild) (m : Dict String)
    → get "tidefly.port" (build_labels build m) ≡ get "tidefly.port" m
unfolding build_labels
build_labels-port none m = refl
build_labels-port (some b) m =
    port_key "tidefly.build-tag" _ (source_labels b m) refl ∙ source_labels-port b m

spec_labels-port : (r : ResolvedManifest) → get "tidefly.port" (spec_labels r) ≡ itoa r.expose.port
unfolding spec_labels
spec_labels-port r = build_labels-port r.build _ ∙ get-put "tidefly.port" (itoa r.expose.port) _

indexed :
    (ct : Container) (cs : List Container) (name : String)
    → name ≢ ""
    → service_label ct ≡ name
    → index_by_service (ct ∷ cs) name ≡ ct ∷ index_by_service cs name
unfolding index_by_service
indexed ct cs name named labelled =
    rw (not_equal name "" named, (eq_iff (service_label ct) name).1 labelled) refl

-- What the next turn of the reconciler reads in a map of labels.
abbrev pub Says : Service → ResolvedManifest → Dict String → Type 0
Says svc r labels =
    (get "tidefly.service" labels ≡ svc.name)
    × (get "tidefly.service-id" labels ≡ svc.id)
    × (read_ℤ (get "tidefly.port" labels) ≡ r.expose.port)

service_spec-Says :
    (parse_duration : String → ℤ) (podman : Bool) (svc : Service) (r : ResolvedManifest)
    (name : String)
    → Says svc r (service_spec parse_duration podman svc r name).labels
unfolding service_spec to_container_spec
service_spec-Says parse_duration podman svc r name =
    let base = spec_labels (record r { name = name }) in
    let inner = put "tidefly.service-id" svc.id base in
    (
      get-put "tidefly.service" svc.name inner,
      get-put_other "tidefly.service" "tidefly.service-id" svc.name inner refl
          ∙ get-put "tidefly.service-id" svc.id base,
      ap read_ℤ (
            port_key "tidefly.service" svc.name inner refl
            ∙ (port_key "tidefly.service-id" svc.id base refl
                ∙ spec_labels-port (record r { name = name })))
          ∙ read_ℤ-itoa r.expose.port,
    )

-- One more label does not hide the three.
put-Says :
    (svc : Service) (r : ResolvedManifest) (k v : String) (m : Dict String)
    → k == "tidefly.service" ≡ false
    → k == "tidefly.service-id" ≡ false
    → k == "tidefly.port" ≡ false
    → Says svc r m
    → Says svc r (put k v m)
put-Says svc r k v m service id port said = (
  get-put_other k "tidefly.service" v m service ∙ said.0,
  get-put_other k "tidefly.service-id" v m id ∙ said.1,
  ap read_ℤ (port_key k v m port) ∙ said.2,
)

-- The specifications that the reconciler creates containers from: the one that heals, scales, redeploys
-- and fills up, under any name; that of the new slot; and that of a replica of a rolling update.
pub data IsOurs {W : Type 0} (e : Engine W) (parse_duration : String → ℤ) (svc : Service)
    (r : ResolvedManifest) : Spec → Type 0 where
  named :
      (name : String)
      → IsOurs e parse_duration svc r (service_spec parse_duration (is_podman e.type) svc r name)
  slot : IsOurs e parse_duration svc r (slot_spec parse_duration (is_podman e.type) svc r)
  replica : (now i : ℕ) → IsOurs e parse_duration svc r (roll_spec e parse_duration svc r now i)

IsOurs-Says :
    {W : Type 0} (e : Engine W) (parse_duration : String → ℤ) (svc : Service) (r : ResolvedManifest)
    {spec : Spec}
    → IsOurs e parse_duration svc r spec
    → Says svc r spec.labels
unfolding slot_spec roll_spec
IsOurs-Says e parse_duration svc r (IsOurs.named name) =
    service_spec-Says parse_duration (is_podman e.type) svc r name
IsOurs-Says e parse_duration svc r IsOurs.slot =
    put-Says svc r "tidefly.slot" _ _ refl refl refl
      (service_spec-Says parse_duration (is_podman e.type) svc r _)
IsOurs-Says e parse_duration svc r (IsOurs.replica now i) =
    put-Says svc r "tidefly.rolling-index" _ _ refl refl refl
      (service_spec-Says parse_duration (is_podman e.type) svc r _)

-- A container with the labels of any specification that the reconciler creates one from, be it for a
-- healing, a scaling, a redeployment, a new slot or a rolling update, is counted to its service by the next
-- turn of the reconciler, where the service has a name; and the service's identifier and port can be read
-- back from them.
pub IsOurs-labels :
    {W : Type 0} (e : Engine W) (parse_duration : String → ℤ) (svc : Service) (r : ResolvedManifest)
    (spec : Spec) (ct : Container) (cs : List Container)
    → svc.name ≢ ""
    → IsOurs e parse_duration svc r spec
    → ct.labels ≡ spec.labels
    → (index_by_service (ct ∷ cs) svc.name ≡ ct ∷ index_by_service cs svc.name)
      × (get "tidefly.service-id" ct.labels ≡ svc.id)
      × (read_ℤ (get "tidefly.port" ct.labels) ≡ r.expose.port)
IsOurs-labels e parse_duration svc r spec ct cs filled ours labelled =
    let said = IsOurs-Says e parse_duration svc r ours in
    (
      indexed ct cs svc.name filled (ap (get "tidefly.service") labelled ∙ said.0),
      ap (get "tidefly.service-id") labelled ∙ said.1,
      ap (λ m. read_ℤ (get "tidefly.port" m)) labelled ∙ said.2,
    )
