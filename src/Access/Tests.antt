-- ===== src/Access/Tests.antt =====
-- One user in one project, and what internal/container/access.go shows to that user.
use mathlib.Core.List.{Memᴰ}
use tidefly_plane.Prelude.{String, false, some, List, [], ◌∷◌, ok, err, ◌≡◌, ◌↔◌, refl}
use tidefly_plane.Runtime.Types.{Container, ContainerStatus}
use tidefly_plane.Access.Control.{
  ProjectMember, Project, UserInfo, is_internal, filter_containers, check_container_access,
  no_project,
}
use tidefly_plane.Access.Visible.{Shares, filter_containers_iff}

abbrev ada : UserInfo
ada = record { user_id = "1"; email = "ada@example.com"; role = "member" }

abbrev members : List ProjectMember
members = record { project_id = "p"; user_id = "1" } ∷ []

abbrev projects : List Project
projects = record { id = "p"; network_name = "tidefly_p" } ∷ []

abbrev on : String → Container
on network = record {
  id = network;
  name = network;
  image = "";
  status = ContainerStatus.running;
  labels = ("tidefly.project", "p") ∷ [];
  networks = network ∷ [];
}

shown :
    filter_containers members projects (some ada) (on "tidefly_p" ∷ on "other" ∷ [])
    ≡ ok (on "tidefly_p" ∷ [])
unfolding filter_containers
shown = refl

filter_containers_iff_example : Memᴰ (on "tidefly_p") (on "tidefly_p" ∷ []) ↔ (
    Memᴰ (on "tidefly_p") (on "tidefly_p" ∷ on "other" ∷ [])
    × (is_internal (on "tidefly_p") ≡ false)
    × Shares members projects "1" (on "tidefly_p"))
filter_containers_iff_example =
    filter_containers_iff members projects ada (on "tidefly_p" ∷ on "other" ∷ [])
      (on "tidefly_p" ∷ []) refl shown (on "tidefly_p")

-- The container that the user is shown, of the user's own project, may not be touched: the jobs label it
-- `tidefly.project`, and the check reads another label.
denied_test : check_container_access members (some ada) (on "tidefly_p") ≡ err no_project
unfolding check_container_access
denied_test = refl
