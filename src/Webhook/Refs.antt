-- ===== src/Webhook/Refs.antt =====
-- Branches and tags in internal/webhook/parser.go, and the branch filter that tags meet.
use Prim.Native.String.{◌++◌}
use tidefly_plane.Prelude.{
  ℕ, String, Option, none, some, List, [], ◌∷◌, ◌≡◌, refl, ◌≢◌, inl, inr, Bool-cases, Result, ok,
  err, ◌==◌, strip_prefix, strip_prefix-append, trim_prefix-append, strip_prefix-differ, differ,
  is_some, subst, not_equal,
}
use tidefly_plane.Webhook.Signature.{
  Provider, github, gitlab, gitea, bitbucket, generic, DeliveryError,
}
use tidefly_plane.Webhook.Payload.{
  Payload, push, tag, read_ref, with_ref, fill_github, fill_gitlab, fill_change, fill_bitbucket,
  fill_generic, generic_known, github_known, gitlab_known, bitbucket_known, filled, filled_generic,
  empty_payload, Unmarshal, parse_github, parse_payload, matches_branch, BitbucketNew, GenericPush,
}
use tidefly_plane.Webhook.Receive.{Webhook, Store, Job, skipped, receive_payload}

-- A tag's full name is read as the tag, and a branch's as the branch.
pub read_ref_lem :
    (name : String)
    → (read_ref ("refs/tags/" ++ name) ≡ (tag, "", name))
      × (read_ref ("refs/heads/" ++ name) ≡ (push, name, ""))
unfolding read_ref differ
read_ref_lem name = (
  rw (strip_prefix-append "refs/tags/" name, trim_prefix-append "refs/tags/" name) refl,
  rw
      (
        strip_prefix-differ "refs/tags/" "refs/heads/" name refl,
        trim_prefix-append "refs/heads/" name,
      )
      refl,
)

-- An event of one kind has nothing of the other: a tag has no branch, and a push has no tag.
abbrev pub HasOneRef : Payload → Type 0
HasOneRef p = (p.event_type ≡ tag → p.branch ≡ "") × (p.event_type ≡ push → p.tag ≡ "")

read_ref-HasOneRef : (ref : String) (p : Payload) → HasOneRef (with_ref (read_ref ref) p)
unfolding read_ref
read_ref-HasOneRef ref p = elim (Bool-cases (is_some (strip_prefix "refs/tags/" ref))) [
  | inl label ↦ rw label (λ h. refl, λ h. cc)
  | inr head ↦ rw head (λ h. cc, λ h. refl)
]

fill_change-HasOneRef :
    (changes : List (Option BitbucketNew)) (p : Payload)
    → p.branch ≡ ""
    → p.tag ≡ ""
    → HasOneRef (fill_change changes p)
unfolding fill_change
fill_change-HasOneRef [] p b t = (λ h. b, λ h. t)
fill_change-HasOneRef (none ∷ changes) p b t = (λ h. b, λ h. t)
fill_change-HasOneRef (some new ∷ changes) p b t = elim (Bool-cases (new.type == "tag")) [
  | inl label ↦ rw label (λ h. b, λ h. cc)
  | inr head ↦ rw head (λ h. cc, λ h. t)
]

fill_generic-HasOneRef :
    (g : GenericPush) (p : Payload) → p.branch ≡ "" → p.tag ≡ "" → HasOneRef (fill_generic g p)
unfolding fill_generic
fill_generic-HasOneRef g p b t = elim (Bool-cases (g.branch == "")) [
  | inr head ↦ rw head (λ h. cc, λ h. t)
  | inl headless ↦ elim (Bool-cases (g.tag == "")) [
    | inr label ↦ rw (headless, label) (λ h. b, λ h. cc)
    | inl bare ↦ rw (headless, bare) (read_ref-HasOneRef g.ref (generic_known g p))
  ]
]

filled_generic-HasOneRef :
    (read : Option GenericPush) (p : Payload)
    → p.branch ≡ ""
    → p.tag ≡ ""
    → HasOneRef (filled_generic read p)
filled_generic-HasOneRef none p b t = (λ h. cc, λ h. t)
filled_generic-HasOneRef (some g) p b t = fill_generic-HasOneRef g p b t

abbrev pub Parsed : Result DeliveryError Payload → Type 0
Parsed (err why) = Unit
Parsed (ok p) = HasOneRef p

filled-HasOneRef :
    {A : Type 0} (fill : A → Payload → Payload) (read : Option A) (p : Payload)
    → ((a : A) → HasOneRef (fill a p))
    → Parsed (filled fill read p)
filled-HasOneRef fill none p each = tt
filled-HasOneRef fill (some a) p each = each a

module _ (json : Unmarshal) where
  parse_github-HasOneRef :
      (provider : Provider) (header : String → String) (body : String)
      → Parsed (parse_github json header body (empty_payload provider body))
  unfolding parse_github fill_github
  parse_github-HasOneRef provider header body =
      elim (Bool-cases (header "X-Github-Event" == "ping")) [
        | inl greeting ↦ rw greeting (λ h. cc, λ h. cc)
        | inr real ↦
            let p = empty_payload provider body in
            rw real (
              filled-HasOneRef fill_github (json.github_push body) p
                (λ g. read_ref-HasOneRef g.ref (github_known g p)))
      ]

  -- Whatever a provider sends: where it parses, a tag event has no branch, and a push has no tag.
  pub parse_payload-HasOneRef :
      (provider : Provider) (header : String → String) (body : String)
      → Parsed (parse_payload json provider header body)
  unfolding parse_payload fill_gitlab fill_bitbucket
  parse_payload-HasOneRef github header body = parse_github-HasOneRef github header body
  parse_payload-HasOneRef gitea header body = parse_github-HasOneRef gitea header body
  parse_payload-HasOneRef gitlab header body =
      let p = empty_payload gitlab body in
      filled-HasOneRef fill_gitlab (json.gitlab_push body) p
        (λ g. read_ref-HasOneRef g.ref (gitlab_known g p))
  parse_payload-HasOneRef bitbucket header body =
      let p = empty_payload bitbucket body in
      filled-HasOneRef fill_bitbucket (json.bitbucket_push body) p
        (λ b. fill_change-HasOneRef b.changes (bitbucket_known b p) refl refl)
  parse_payload-HasOneRef (generic name) header body =
      filled_generic-HasOneRef (json.generic_push body) (empty_payload (generic name) body) refl
        refl

-- A tag that arrives at a webhook with a branch filter is skipped: the filter is compared with its
-- branch, which is empty, and so a filter that names a branch lets no tag pass.
pub tag_filtered :
    (hmac_hex : (secret body : String) → String) (json : Unmarshal)
    (decrypt : String → Option String) (insert : Job → Option String) (now : ℕ) (fresh : String)
    (wh : Webhook) (provider : Provider) (header : String → String) (body : String) (s : Store)
    {p : Payload}
    → parse_payload json provider header body ≡ ok p
    → p.event_type ≡ tag
    → wh.branch ≢ ""
    → wh.branch ≢ "*"
    → receive_payload hmac_hex json decrypt insert now fresh wh
        (parse_payload json provider header body)
        s
      ≡ (skipped, s)
unfolding receive_payload matches_branch
tag_filtered hmac_hex json decrypt insert now fresh wh provider header body s {p} parsed label named
      star =
    let one : HasOneRef p =
      subst Parsed parsed (parse_payload-HasOneRef json provider header body) in
    rw (parsed, label, one.0 label)
      (rw (not_equal wh.branch "" named, not_equal wh.branch "*" star) refl)
