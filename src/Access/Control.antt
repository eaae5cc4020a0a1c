-- ===== src/Access/Control.antt =====
-- internal/access/access.go and internal/container/access.go: which containers a user sees and may touch.
-- The rows of projects and of their members are lists, and the database is taken to answer.
use tidefly_plane.Prelude.{
  String, Bool, not, ◌&&◌, Option, none, some, List, Result, ok, err, ◌==◌, any, select, map,
  if◌then◌else◌, get,
}
use tidefly_plane.Runtime.Types.{Container}

pub record ProjectMember : Type 0 where
  pub project_id : String
  pub user_id : String

pub record Project : Type 0 where
  pub id : String
  pub network_name : String

pub record UserInfo : Type 0 where
  pub user_id : String
  pub email : String
  pub role : String

unfoldable pub is_internal : Container → Bool
unfolding get
is_internal ct = get "tidefly.internal" ct.labels == "true"

unfoldable pub is_managed : Container → Bool
unfolding get
is_managed ct = get "tidefly-plane.managed" ct.labels == "true"

abbrev pub is_of_user : String → ProjectMember → Bool
is_of_user user_id m = m.user_id == user_id

abbrev pub project_ids : String → List ProjectMember → List String
project_ids user_id members =
    map (λ (m : ProjectMember). m.project_id) (select (is_of_user user_id) members)

-- The names of the networks, in no order; a project with no network adds none.
unfoldable pub allowed_networks : String → List ProjectMember → List Project → List String
allowed_networks user_id members projects =
    map (λ (p : Project). p.network_name)
      (select
        (λ (p : Project).
          any (λ id. p.id == id) (project_ids user_id members) && not (p.network_name == ""))
        projects)

unfoldable pub network_allowed : (networks allowed : List String) → Bool
network_allowed networks allowed = any (λ n. any (λ a. n == a) allowed) networks

pub data AccessError : Type 0 where
  no_project not_a_member unauthorized : AccessError

unfoldable pub check_project_membership :
    List ProjectMember → (user_id : String) → Container → Result AccessError (Unit {0})
unfolding get
check_project_membership members user_id ct =
    let project_id = get "tidefly-plane.project_id" ct.labels in
    if project_id == ""
    then err no_project
    else if any (λ (m : ProjectMember). m.project_id == project_id && m.user_id == user_id) members
    then ok tt
    else err not_a_member

-- `CheckContainerAccess`
unfoldable pub check_container_access :
    List ProjectMember → Option UserInfo → Container → Result AccessError (Unit {0})
unfolding check_project_membership
check_container_access members none ct = err unauthorized
check_container_access members (some u) ct =
    if u.role == "admin" then ok tt else check_project_membership members u.user_id ct

-- `FilterContainers`
unfoldable pub filter_containers :
    List ProjectMember
    → List Project
    → Option UserInfo
    → List Container
    → Result AccessError (List Container)
unfolding is_internal allowed_networks network_allowed
filter_containers members projects none cs = err unauthorized
filter_containers members projects (some u) cs =
    let visible = select (λ ct. not (is_internal ct)) cs in
    if u.role == "admin"
    then ok visible
    else ok (
        select
          (λ (ct : Container).
            network_allowed ct.networks (allowed_networks u.user_id members projects))
          visible)
