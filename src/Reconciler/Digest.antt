-- ===== src/Reconciler/Digest.antt =====
-- internal/reconciler/digest.go: the poll of the registries for new image digests.
use tidefly_plane.Prelude.{
  ℕ, suc, String, Bool, true, false, not, ◌&&◌, Option, none, some, List, [], ◌∷◌, ◌==◌,
  if◌then◌else◌,
}
use tidefly_plane.Models.Service.{Service, registry, ServiceStatus, running}

abbrev pub is_running_status : ServiceStatus → Bool
is_running_status running = true
is_running_status _ = false

-- The part of a manifest that `resolveImage` reads: the image, and the text of the build field, ""
-- if it is missing.
pub record ImageFields : Type 0 where
  pub image : String
  pub build : String

abbrev pub image_in : Option ImageFields → String
image_in none = ""
image_in (some m) = if not (m.build == "") && not (m.build == "null") then "" else m.image

-- `read` is Go's `json.Unmarshal` into that part.
unfoldable pub resolve_image : (String → Option ImageFields) → Service → String
resolve_image read svc = if svc.manifest_json == "" then "" else image_in (read svc.manifest_json)

abbrev pub is_new_digest : Service → String → Bool
is_new_digest svc digest = not (digest == "") && not (digest == svc.deployed_digest)

-- The write of one service's row, and whether an update was seen. `stamp` is the time of the write.
unfoldable pub record_digest : ℕ → ℕ → Service → String → Service × Bool
record_digest now stamp svc digest =
    let checked = record svc {
      remote_digest = digest;
      update_checked_at = some now;
      updated_at = stamp;
    } in
    if is_new_digest svc digest
    then (record checked { update_available = true; update_source = registry }, true)
    else (checked, false)

unfoldable pub record_fetched : ℕ → ℕ → Service → Option String → Service × Bool
unfolding record_digest
record_fetched now stamp svc none = (svc, false)
record_fetched now stamp svc (some digest) = record_digest now stamp svc digest

-- The clock at the start of the poll, that of each write, the reader of manifests, and the request
-- to the registry, which is not the plane's code.
module _ (now : ℕ) (stamp : Service → ℕ) (read : String → Option ImageFields)
    (fetch : String → Option String) where
  unfoldable pub poll_one : Service → Service × Bool
  unfolding record_fetched resolve_image
  poll_one svc =
      let image = resolve_image read svc in
      if image == "" then (svc, false) else record_fetched now (stamp svc) svc (fetch image)

  -- The services after the poll, and the number of updates seen.
  unfoldable pub poll_digests : List Service → List Service × ℕ
  unfolding poll_one
  poll_digests [] = ([], 0)
  poll_digests (svc ∷ rest) =
      let (polled, seen) =
        (if is_running_status svc.status && svc.manifest_service
          then poll_one svc
          else (svc, false)) in
      let (others, count) = poll_digests rest in
      (polled ∷ others, if seen then suc count else count)
