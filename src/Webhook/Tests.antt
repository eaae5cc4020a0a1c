-- ===== src/Webhook/Tests.antt =====
-- A webhook of GitHub's with the secret "s" and the filter "main", and theorems at a delivery to it.
use Prim.Native.String.{◌++◌}
use tidefly_plane.Prelude.{
  String, true, Option, none, some, [], ◌∷◌, ◌≡◌, refl, ◌==◌, if◌then◌else◌, strip_prefix,
  trim_prefix,
}
use tidefly_plane.Webhook.Signature.{Request, to_provider, sent_signature}
use tidefly_plane.Webhook.Payload.{Unmarshal, GithubPush, matches_branch}
use tidefly_plane.Webhook.Receive.{Webhook, unset, Store, Job, accepted, receive, verify_and_parse}
use tidefly_plane.Webhook.Authentic.{Admitted, receive-Admitted}

-- A stand-in for the HMAC: the secret and the body.
abbrev seal : (secret body : String) → String
seal secret body = secret ++ body

abbrev push_of : String → GithubPush
push_of ref = record {
  ref = ref;
  after = "c0ffee";
  clone_url = "https://github.com/acme/app.git";
  full_name = "acme/app";
  head_message = some "fix";
  pusher = "ada";
}

-- A body is the name of the ref that it pushes.
abbrev json : Unmarshal
json = record {
  github_push = λ body. some (push_of body);
  gitlab_push = λ body. none;
  bitbucket_push = λ body. none;
  generic_push = λ body. none;
}

abbrev open_secret : String → Option String
open_secret stored = some stored

abbrev take_job : Job → Option String
take_job job = none

abbrev hook : Webhook
hook = record {
  id = "w";
  active = true;
  secret = "s";
  branch = "main";
  provider = "github";
  last_triggered_at = none;
  last_status = unset;
}

abbrev rows : Store
rows = record { webhooks = hook ∷ []; deliveries = []; queue = [] }

abbrev headers : String → String
headers name = if name == "X-Hub-Signature-256" then "sha256=srefs/heads/main" else ""

abbrev main_push : Request
main_push = record { header = headers; body = some "refs/heads/main" }

receive_test : (receive seal json open_secret take_job 9 "d" main_push "w" rows).0 ≡ accepted "d"
unfolding receive strip_prefix trim_prefix verify_and_parse to_provider sent_signature
    matches_branch
receive_test = refl

receive-Admitted_example : Admitted seal json open_secret take_job 9 "d" main_push "w" rows
receive-Admitted_example =
    receive-Admitted seal json open_secret take_job 9 "d" main_push "w" rows "d" receive_test
