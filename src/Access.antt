-- ===== src/Access.antt =====
-- Who may see and manage what: app/core/auth_scope.py, app/services/teams.py, the permission
-- functions of app/services/library.py and images.py, `_check_team_access` of videos.py, and the
-- two access tests of app/api/routes/videos.py.
pub mod Tenant
pub mod Fresh
mod Tests
use asset_harbor.Base.{
  ℕ, Bool, true, false, not, ◌&&◌, ◌||◌, Option, none, some, Result, ok, err, http, ◌>>=◌, ◌>>◌,
  raise_if, or_raise, ◌==◌, opt_eq, is_none, is_some, if◌then◌else◌, find, str_eq,
}
use asset_harbor.Model.{
  User, Role, Team, TeamRole, TeamMember, AuthScope, Principal, Image, MediaGroup, Db,
}

abbrev pub is_admin : Role → Bool
is_admin Role.admin = true
is_admin Role.user = false

-- `bind_auth_scope`: the identity is captured once.
unfoldable pub bind_auth_scope : Principal → AuthScope → Principal
bind_auth_scope p scope = record p {
  scope = scope;
  identity = if is_none p.identity then some (p.user.id, p.user.created_at) else p.identity;
}

-- A row as the database returns it, with nothing bound to it.
abbrev pub unmarked : User → Principal
unmarked u = record { user = u; scope = AuthScope.internal; identity = none }

-- `copy_auth_scope`, onto a row that carries no mark yet
unfoldable pub copy_auth_scope : Principal → User → Principal
unfolding bind_auth_scope
copy_auth_scope source target = elim (source.identity) [
  | some i ↦ record { user = target; scope = source.scope; identity = some i }
  | none ↦ bind_auth_scope (unmarked target) source.scope
]

abbrev pub is_global_scope : AuthScope → Bool
is_global_scope AuthScope.jwt = true
is_global_scope AuthScope.internal = true
is_global_scope _ = false

unfoldable pub has_global_admin_scope : Principal → Bool
has_global_admin_scope p = is_admin p.user.role && is_global_scope p.scope

unfoldable pub get_membership : Db → ℕ → ℕ → Option TeamMember
get_membership db team_id user_id =
    find (λ m. m.team_id == team_id && m.user_id == user_id) db.team_members

unfoldable pub is_team_member : Db → ℕ → ℕ → Bool
is_team_member db team_id user_id = is_some (get_membership db team_id user_id)

abbrev pub is_owner_role : TeamRole → Bool
is_owner_role TeamRole.owner = true
is_owner_role _ = false

abbrev pub is_manager_role : TeamRole → Bool
is_manager_role TeamRole.member = false
is_manager_role _ = true

unfoldable pub can_manage_team : Db → ℕ → ℕ → Bool → Bool
can_manage_team db team_id user_id require_owner = elim (get_membership db team_id user_id) [
  | none ↦ false
  | some m ↦ if require_owner then is_owner_role m.role else is_manager_role m.role
]

-- `db.get` of a table by its primary key
unfoldable pub get_user : Db → ℕ → Option User
get_user db id = find (λ u. u.id == id) db.users

unfoldable pub get_team : Db → ℕ → Option Team
get_team db id = find (λ t. t.id == id) db.teams

unfoldable pub get_group : Db → ℕ → Option MediaGroup
get_group db id = find (λ g. g.id == id) db.media_groups

-- The two tests of `fresh_library_user` on the identity that the request captured.
identity_names : Option (ℕ × ℕ) → ℕ → Bool
identity_names none id = true
identity_names (some (i, _)) id = i == id

identity_created : Option (ℕ × ℕ) → ℕ → Bool
identity_created none created_at = true
identity_created (some (_, c)) created_at = created_at == c

unfoldable pub fresh_library_user : Db → Principal → Result Principal
unfolding identity_names identity_created
fresh_library_user db p = do
  raise_if (not (identity_names p.identity p.user.id)) (http 401)
  fresh ← or_raise (get_user db p.user.id) (http 401)
  raise_if (not (identity_created p.identity fresh.created_at)) (http 401)
  ok (copy_auth_scope p fresh)

-- `images.can_manage_image`, for images and videos
unfoldable pub can_manage_image : Db → Principal → Image → Bool
can_manage_image db p image = if has_global_admin_scope p then true else elim (image.team_id) [
  | none ↦ opt_eq image.owner_id (some p.user.id)
  | some t ↦ elim (get_membership db t p.user.id) [
    | none ↦ false
    | some m ↦ opt_eq image.owner_id (some p.user.id) || is_manager_role m.role
  ]
]

-- The test of `get_video` on a private video; `signature` is `expires and sig and verify(…)`.
unfoldable pub can_watch_private : Db → Option Principal → Bool → Image → Bool
can_watch_private db current_user signature video = elim current_user [
  | none ↦ signature
  | some p ↦
      (is_none video.team_id && opt_eq video.owner_id (some p.user.id))
      || has_global_admin_scope p
      || signature
      || elim (video.team_id) [ none ↦ false | some t ↦ is_team_member db t p.user.id ]
]

-- The test of `get_video_signed_link`
unfoldable pub can_sign_link : Db → Principal → Image → Bool
can_sign_link db p video =
    has_global_admin_scope p
    || (is_none video.team_id && opt_eq video.owner_id (some p.user.id))
    || elim (video.team_id) [ none ↦ false | some t ↦ is_team_member db t p.user.id ]

-- `videos._check_team_access`
unfoldable pub check_team_access : Db → Option ℕ → Principal → Result (Unit {0})
check_team_access db none p = ok tt
check_team_access db (some t) p = do
  team ← or_raise (get_team db t) (http 404)
  raise_if (not (has_global_admin_scope p) && is_none (get_membership db t p.user.id)) (http 403)

-- `library.validate_team_scope`
unfoldable pub validate_team_scope : Db → ℕ → Principal → Result Team
validate_team_scope db t p = do
  team ← or_raise (get_team db t) (http 404)
  raise_if (not (has_global_admin_scope p) && is_none (get_membership db t p.user.id)) (http 404)
  ok team

unfoldable pub can_view_group : Db → Principal → MediaGroup → Bool
can_view_group db p group = if has_global_admin_scope p then true else elim (group.team_id) [
  | none ↦ group.owner_id == p.user.id
  | some t ↦ is_some (get_membership db t p.user.id)
]

unfoldable pub can_manage_group : Db → Principal → MediaGroup → Bool
can_manage_group db p group =
    if has_global_admin_scope p || group.owner_id == p.user.id
    then true
    else elim (group.team_id) [ none ↦ false | some t ↦ can_manage_team db t p.user.id false ]

unfoldable pub visible_group_or_404 : Db → ℕ → Principal → Bool → Result MediaGroup
visible_group_or_404 db group_id p manage = do
  group ← or_raise (get_group db group_id) (http 404)
  raise_if (not (can_view_group db p group)) (http 404)
  raise_if (elim (group.team_id) [ none ↦ false | some t ↦ is_none (get_team db t) ]) (http 404)
  raise_if (manage && not (can_manage_group db p group)) (http 403)
  ok group
