-- ===== src/Models/Service.antt =====
-- internal/models/services.go: the managed unit of the plane. The fields that no modelled code
-- reads or writes (creation time, credentials, template version) are left out.
use tidefly_plane.Prelude.{ℕ, String, Bool, true, false, not, ◌&&◌, Option, ◌==◌}

pub data ServiceStatus : Type 0 where
  deploying running stopped restarting failed : ServiceStatus

pub data UpdateSource : Type 0 where
  no_source registry git template : UpdateSource

pub record Service : Type 0 where
  pub id : String
  pub name : String
  pub template_slug : String
  pub status : ServiceStatus
  pub project_id : String
  pub worker_id : String
  pub manifest_service : Bool
  pub manifest_json : String
  pub public_url : String
  pub last_error : String
  pub active_slot_name : String
  pub deployed_digest : String
  pub remote_digest : String
  pub update_available : Bool
  pub update_source : UpdateSource
  pub update_checked_at : Option ℕ
  pub updated_at : ℕ  -- milliseconds

-- The running image differs from the registry's.
unfoldable pub has_image_drift : Service → Bool
has_image_drift s =
    not (s.remote_digest == "")
    && (not (s.deployed_digest == "") && not (s.remote_digest == s.deployed_digest))

abbrev pub is_deploying : ServiceStatus → Bool
is_deploying deploying = true
is_deploying _ = false

abbrev pub is_stopped : ServiceStatus → Bool
is_stopped stopped = true
is_stopped _ = false
