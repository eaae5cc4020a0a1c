-- ===== src/Webhook/Payload.antt =====
-- internal/webhook/parser.go: what the body of a delivery says. `json.Unmarshal` into each type of push
-- is an argument.
use tidefly_plane.Prelude.{
  String, Bool, true, false, not, ◌||◌, Option, none, some, List, [], ◌∷◌, Result, ok, err, ◌==◌,
  if◌then◌else◌, has_prefix, trim_prefix, before_first,
}
use tidefly_plane.Webhook.Signature.{
  Provider, github, gitlab, gitea, bitbucket, generic, DeliveryError, unparsable,
}

pub data EventKind : Type 0 where
  push tag ping no_event : EventKind

pub record Payload : Type 0 where
  pub provider : Provider
  pub event_type : EventKind
  pub branch : String
  pub tag : String
  pub commit : String
  pub commit_msg : String
  pub pushed_by : String
  pub repo_url : String
  pub repo_name : String
  pub raw_body : String

abbrev pub is_ping : EventKind → Bool
is_ping ping = true
is_ping _ = false

unfoldable pub first_line : String → String
unfolding before_first
first_line s = before_first 10 s

-- The kind, the branch and the tag that a full name of a ref stands for.
unfoldable pub read_ref : String → EventKind × String × String
read_ref ref =
    if has_prefix "refs/tags/" ref
    then (tag, "", trim_prefix "refs/tags/" ref)
    else (push, trim_prefix "refs/heads/" ref, "")

abbrev pub with_ref : EventKind × String × String → Payload → Payload
with_ref (kind, branch, label) p = record p { event_type = kind; branch = branch; tag = label }

pub record GithubPush : Type 0 where
  pub ref : String
  pub after : String
  pub clone_url : String
  pub full_name : String
  pub head_message : Option String
  pub pusher : String

pub record GitlabPush : Type 0 where
  pub ref : String
  pub after : String
  pub git_http_url : String
  pub name : String
  pub messages : List String
  pub user_name : String

pub record BitbucketNew : Type 0 where
  pub type : String
  pub name : String
  pub hash : String
  pub message : String

-- A change without a new state deletes a branch.
pub record BitbucketPush : Type 0 where
  pub changes : List (Option BitbucketNew)
  pub clone : List (String × String)  -- name and address
  pub full_name : String
  pub display_name : String

pub record GenericPush : Type 0 where
  pub ref : String
  pub after : String
  pub commit : String
  pub branch : String
  pub tag : String
  pub repo : String
  pub by : String
  pub msg : String

abbrev pub head_line : List String → String
head_line [] = ""
head_line (m ∷ ms) = first_line m

abbrev pub head_message_line : Option String → String
head_message_line none = ""
head_message_line (some m) = first_line m

abbrev pub github_known : GithubPush → Payload → Payload
github_known g p = record p {
  repo_url = g.clone_url;
  repo_name = g.full_name;
  commit = g.after;
  pushed_by = g.pusher;
  commit_msg = head_message_line g.head_message;
}

unfoldable pub fill_github : GithubPush → Payload → Payload
unfolding read_ref first_line
fill_github g p = with_ref (read_ref g.ref) (github_known g p)

abbrev pub gitlab_known : GitlabPush → Payload → Payload
gitlab_known g p = record p {
  repo_url = g.git_http_url;
  repo_name = g.name;
  commit = g.after;
  pushed_by = g.user_name;
  commit_msg = head_line g.messages;
}

unfoldable pub fill_gitlab : GitlabPush → Payload → Payload
unfolding read_ref first_line
fill_gitlab g p = with_ref (read_ref g.ref) (gitlab_known g p)

-- The address of the first link that is called "https".
unfoldable pub https_link : List (String × String) → String
https_link [] = ""
https_link ((name, href) ∷ links) = if name == "https" then href else https_link links

unfoldable pub fill_change : List (Option BitbucketNew) → Payload → Payload
unfolding first_line
fill_change [] p = p
fill_change (none ∷ changes) p = p
fill_change (some new ∷ changes) p =
    let known = record p { commit = new.hash; commit_msg = first_line new.message } in
    if new.type == "tag"
    then record known { event_type = tag; tag = new.name }
    else record known { event_type = push; branch = new.name }

abbrev pub bitbucket_known : BitbucketPush → Payload → Payload
bitbucket_known b p = record p {
  repo_url = https_link b.clone;
  repo_name = b.full_name;
  pushed_by = b.display_name;
}

unfoldable pub fill_bitbucket : BitbucketPush → Payload → Payload
unfolding https_link fill_change
fill_bitbucket b p = fill_change b.changes (bitbucket_known b p)

-- What is set whatever the ref is.
abbrev pub generic_known : GenericPush → Payload → Payload
generic_known g p = record p {
  repo_url = g.repo;
  pushed_by = g.by;
  commit_msg = g.msg;
  commit = if g.after == "" then g.commit else g.after;
}

unfoldable pub fill_generic : GenericPush → Payload → Payload
unfolding read_ref
fill_generic g p =
    let known = generic_known g p in
    if not (g.branch == "")
    then record known { event_type = push; branch = g.branch }
    else if not (g.tag == "")
    then record known { event_type = tag; tag = g.tag }
    else with_ref (read_ref g.ref) known

-- Go's `json.Unmarshal` into each type of push.
pub record Unmarshal : Type 0 where
  pub github_push : String → Option GithubPush
  pub gitlab_push : String → Option GitlabPush
  pub bitbucket_push : String → Option BitbucketPush
  pub generic_push : String → Option GenericPush

abbrev pub filled :
    {A : Type 0} → (A → Payload → Payload) → Option A → Payload → Result DeliveryError Payload
filled fill none p = err unparsable
filled fill (some a) p = ok (fill a p)

abbrev pub empty_payload : Provider → String → Payload
empty_payload provider body = record {
  provider = provider;
  event_type = no_event;
  branch = "";
  tag = "";
  commit = "";
  commit_msg = "";
  pushed_by = "";
  repo_url = "";
  repo_name = "";
  raw_body = body;
}

-- A body that is no JSON is a push without a branch for the generic provider.
abbrev pub filled_generic : Option GenericPush → Payload → Payload
filled_generic none p = record p { event_type = push }
filled_generic (some g) p = fill_generic g p

module _ (json : Unmarshal) where
  unfoldable pub parse_github : (String → String) → String → Payload → Result DeliveryError Payload
  unfolding fill_github
  parse_github header body p =
      if header "X-Github-Event" == "ping"
      then ok (record p { event_type = ping })
      else filled fill_github (json.github_push body) p

  unfoldable pub parse_payload :
      Provider → (String → String) → String → Result DeliveryError Payload
  unfolding parse_github fill_gitlab fill_bitbucket fill_generic
  parse_payload github header body = parse_github header body (empty_payload github body)
  parse_payload gitea header body = parse_github header body (empty_payload gitea body)
  parse_payload gitlab header body =
      filled fill_gitlab (json.gitlab_push body) (empty_payload gitlab body)
  parse_payload bitbucket header body =
      filled fill_bitbucket (json.bitbucket_push body) (empty_payload bitbucket body)
  parse_payload (generic name) header body =
      ok (filled_generic (json.generic_push body) (empty_payload (generic name) body))

unfoldable pub matches_branch : (filter branch : String) → Bool
matches_branch filter branch = filter == "" || (filter == "*" || filter == branch)
