-- ===== src/Webhook/Signature.antt =====
-- internal/webhook/parser.go: the signature of a delivery. A header is looked up by name, a missing one
-- being the empty text; the hexadecimal HMAC of a body is an argument.
use tidefly_plane.Prelude.{String, Option, Result, ok, err, ◌==◌, if◌then◌else◌, trim_prefix}

pub data Provider : Type 0 where
  github gitlab gitea bitbucket : Provider
  generic : String → Provider

-- The type of an event that was not set is `no_event`.
-- `Provider(text)`
unfoldable pub to_provider : String → Provider
to_provider text =
    if text == "github"
    then github
    else if text == "gitlab"
    then gitlab
    else if text == "gitea"
    then gitea
    else if text == "bitbucket"
    then bitbucket
    else generic text

pub data DeliveryError : Type 0 where
  unreadable_body invalid_gitlab_token missing_signature signature_mismatch unparsable :
      DeliveryError

pub record Request : Type 0 where
  pub header : String → String
  pub body : Option String  -- the first 5 MB, `none` where reading them fails

-- The signature that a request carries, for a provider that sends an HMAC.
unfoldable pub sent_signature : Provider → (String → String) → String
sent_signature github header = trim_prefix "sha256=" (header "X-Hub-Signature-256")
sent_signature gitea header = trim_prefix "sha256=" (header "X-Hub-Signature-256")
sent_signature bitbucket header = trim_prefix "sha256=" (header "X-Hub-Signature")
sent_signature gitlab header = ""
sent_signature (generic name) header =
    let signature = header "X-Hub-Signature-256" in
    trim_prefix "sha256=" (if signature == "" then header "X-Webhook-Signature" else signature)

unfoldable pub check_signature : (got expected : String) → Result DeliveryError (Unit {0})
check_signature got expected =
    if got == ""
    then err missing_signature
    else if got == expected
    then ok tt
    else err signature_mismatch

module _ (hmac_hex : (secret body : String) → String) where
  unfoldable pub verify_signature :
      Provider → (String → String) → (body secret : String) → Result DeliveryError (Unit {0})
  unfolding check_signature
  verify_signature gitlab header body secret =
      if header "X-Gitlab-Token" == secret then ok tt else err invalid_gitlab_token
  verify_signature github header body secret =
      check_signature (sent_signature github header) (hmac_hex secret body)
  verify_signature gitea header body secret =
      check_signature (sent_signature gitea header) (hmac_hex secret body)
  verify_signature bitbucket header body secret =
      check_signature (sent_signature bitbucket header) (hmac_hex secret body)
  verify_signature (generic name) header body secret =
      check_signature (sent_signature (generic name) header) (hmac_hex secret body)
