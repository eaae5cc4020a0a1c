-- ===== src/Access/Visible.antt =====
-- What `FilterContainers` of internal/container/access.go shows, and to whom.
use mathlib.Core.List.{Memᴰ}
use tidefly_plane.Prelude.{
  String, Bool, true, false, not, ◌&&◌, some, List, ok, ◌≡◌, ◌↔◌, ◌≢◌, sym, ap, subst, ◌==◌, eq_iff,
  eq_refl, not_equal, equal_or_not, any, select, arith, ◌∙◌,
}
use tidefly_plane.Prelude.Membership.{of_select, to_select, of_any, to_any, of_map, to_map}
use tidefly_plane.Runtime.Types.{Container}
use tidefly_plane.Access.Control.{
  ProjectMember, Project, UserInfo, is_internal, is_of_user, project_ids, allowed_networks,
  network_allowed, filter_containers,
}

-- The container is on the network of a project that the user is a member of.
abbrev pub Shares : List ProjectMember → List Project → (user_id : String) → Container → Type 0
Shares members projects user_id ct =
    (m : ProjectMember) × (p : Project) × Memᴰ m members
    × Memᴰ p projects
    × (m.user_id ≡ user_id)
    × (m.project_id ≡ p.id)
    × (p.network_name ≢ "")
    × Memᴰ p.network_name ct.networks

module _ (members : List ProjectMember) (projects : List Project) (user_id : String) where
  abbrev is_allowed : Project → Bool
  is_allowed p = any (λ id. p.id == id) (project_ids user_id members) && not (p.network_name == "")

  network_allowed→Shares :
      (ct : Container)
      → network_allowed ct.networks (allowed_networks user_id members projects) ≡ true
      → Shares members projects user_id ct
  unfolding network_allowed allowed_networks
  network_allowed→Shares ct h =
      let (n, on, found) =
        of_any (λ n. any (λ a. n == a) (allowed_networks user_id members projects)) ct.networks h in
      let (a, listed, same) =
        of_any (λ a. n == a) (allowed_networks user_id members projects) found in
      let (p, chosen, named) =
        of_map (λ (p : Project). p.network_name) (select is_allowed projects) listed in
      let (here, passes) = of_select is_allowed projects chosen in
      let mine : any (λ id. p.id == id) (project_ids user_id members) ≡ true =
        ground (arith, passes) in
      let some_network : p.network_name == "" ≡ false = ground (arith, passes) in
      let (id, in_ids, equal) = of_any (λ id. p.id == id) (project_ids user_id members) mine in
      let (m, of_user, made) =
        of_map (λ (m : ProjectMember). m.project_id) (select (is_of_user user_id) members) in_ids in
      let (member, theirs) = of_select (is_of_user user_id) members of_user in
      (
        m,
        p,
        member,
        here,
        (eq_iff m.user_id user_id).0 theirs,
        sym made ∙ sym ((eq_iff p.id id).0 equal),
        equal_or_not p.network_name "" some_network,
        subst (λ x. Memᴰ x ct.networks) ((eq_iff n a).0 same ∙ named) on,
      )

  Shares→network_allowed :
      (ct : Container)
      → Shares members projects user_id ct
      → network_allowed ct.networks (allowed_networks user_id members projects) ≡ true
  unfolding network_allowed allowed_networks
  Shares→network_allowed ct (m, p, member, here, theirs, same, network, on) =
      let of_user =
        to_select (is_of_user user_id) members member ((eq_iff m.user_id user_id).1 theirs) in
      let in_ids =
        to_map (λ (x : ProjectMember). x.project_id) (select (is_of_user user_id) members)
          of_user in
      let mine : any (λ id. p.id == id) (project_ids user_id members) ≡ true =
        to_any (λ id. p.id == id) (project_ids user_id members) in_ids
          ((eq_iff p.id m.project_id).1 (sym same)) in
      let named = not_equal p.network_name "" network in
      let chosen = to_select is_allowed projects here (ground (arith, mine, named)) in
      let listed = to_map (λ (x : Project). x.network_name) (select is_allowed projects) chosen in
      to_any (λ n. any (λ a. n == a) (allowed_networks user_id members projects)) ct.networks on
        (to_any (λ a. p.network_name == a) (allowed_networks user_id members projects) listed
          (eq_refl p.network_name))

-- A user who is no administrator is shown exactly the containers that are not marked as internal and
-- are on the network of a project that the user is a member of.
pub filter_containers_iff :
    (members : List ProjectMember) (projects : List Project) (u : UserInfo)
    (cs shown : List Container)
    → u.role == "admin" ≡ false
    → filter_containers members projects (some u) cs ≡ ok shown
    → (ct : Container)
    → Memᴰ ct shown ↔ (Memᴰ ct cs × (is_internal ct ≡ false) × Shares members projects u.user_id ct)
unfolding filter_containers
filter_containers_iff members projects u cs shown user h ct =
    let visible = select (λ c. not (is_internal c)) cs in
    let is_allowed =
      λ (c : Container). network_allowed c.networks (allowed_networks u.user_id members projects) in
    let same : select is_allowed visible ≡ shown = cc (rw user at h) in
    (
      λ there.
          let (seen, on) = of_select is_allowed visible (subst (Memᴰ ct) (sym same) there) in
          let (listed, open_one) = of_select (λ c. not (is_internal c)) cs seen in
          (
            listed,
            ground (arith, open_one),
            network_allowed→Shares members projects u.user_id ct on,
          ),
      λ (listed, open_one, shares). subst (Memᴰ ct) same (
          to_select is_allowed visible
            (to_select (λ c. not (is_internal c)) cs listed (ap not open_one))
            (Shares→network_allowed members projects u.user_id ct shares)),
    )
