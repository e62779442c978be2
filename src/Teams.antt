-- ===== src/Teams.antt =====
-- Teams and their members: app/api/routes/teams/team.py and members.py, with
-- `transfer_member_groups` and `delete_team_groups` of app/services/library.py and
-- `dissolve_team_media` of app/services/videos.py. Each handler runs under the lifecycle lease from
-- one state of the database to the next; a handler that raises has written nothing.
mod Keys
pub mod Owners
pub mod Kept
pub mod Roles
pub mod Reach
pub mod Created
pub mod Revoked
pub mod Dissolved
mod Tests
use asset_harbor.Base.{
  ℕ, String, Bool, true, false, not, ◌&&◌, ◌||◌, Option, none, some, List, [], ◌∷◌, ◌++◌, map,
  Result, ok, err, http, ◌>>=◌, ◌>>◌, raise_if, or_raise, ◌==◌, opt_eq, is_some, if◌then◌else◌,
  find, where_, update, any, str_eq,
}
use asset_harbor.Base.Text.{strip_str}
use asset_harbor.Model.{
  User, Team, TeamRole, TeamMember, Principal, Image, MediaGroup, MediaGroupItem, UploadSession, Db,
}
use asset_harbor.Access.{
  is_admin, get_membership, can_manage_team, get_user, get_team, fresh_library_user,
}
use asset_harbor.Ids.{next_team_id, next_team_member_id}

-- `db.get(TeamMember, member_id)`
unfoldable pub get_member : Db → ℕ → Option TeamMember
get_member db id = find (λ m. m.id == id) db.team_members

abbrev get_user_by_name : Db → String → Option User
get_user_by_name db username = find (λ u. str_eq u.username username) db.users

abbrev pub new_member : ℕ → ℕ → ℕ → TeamRole → ℕ → TeamMember
new_member id team_id user_id role now = record {
  id = id;
  team_id = team_id;
  user_id = user_id;
  role = role;
  created_at = now;
}

abbrev pub add_team : Db → Team → Db
add_team db t = record db { teams = db.teams ++ (t ∷ []) }

abbrev pub add_team_member : Db → TeamMember → Db
add_team_member db m = record db { team_members = db.team_members ++ (m ∷ []) }

pub create_team : String → String → Principal → ℕ → Db → Result (Team × Db)
create_team name description current_user now db = do
  p ← fresh_library_user db current_user
  raise_if (any (λ (t : Team). str_eq t.name (strip_str name)) db.teams) (http 409)
  team_id ← next_team_id now db
  member_id ← next_team_member_id now team_id.1
  let team : Team = record {
    id = team_id.0;
    name = strip_str name;
    description = strip_str description;
    owner_id = p.user.id;
    created_at = now;
  }
  ok (
    team,
    add_team_member (add_team member_id.1 team)
        (new_member member_id.0 team_id.0 p.user.id TeamRole.owner now),
  )

pub add_member : ℕ → String → Principal → ℕ → Db → Result (TeamMember × Db)
add_member team_id username current_user now db = do
  p ← fresh_library_user db current_user
  team ← or_raise (get_team db team_id) (http 404)
  raise_if (not (can_manage_team db team.id p.user.id false) && not (is_admin p.user.role))
      (http 403)
  target ← or_raise (get_user_by_name db (strip_str username)) (http 404)
  raise_if (target.id == team.owner_id) (http 409)
  raise_if (is_some (get_membership db team.id target.id)) (http 409)
  member_id ← next_team_member_id now db
  let tm = new_member member_id.0 team.id target.id TeamRole.member now
  ok (tm, add_team_member member_id.1 tm)

-- `library.transfer_member_groups`; the update sets `updated_at`, which the column asks for.
pub transfer_member_groups : ℕ → Db → Team → ℕ → Db
transfer_member_groups now db team user_id = record db {
  media_groups =
      update (λ g. opt_eq g.team_id (some team.id) && g.owner_id == user_id)
        (λ g. record g { owner_id = team.owner_id; updated_at = now }) db.media_groups;
}

pub remove_member : ℕ → ℕ → Principal → ℕ → Db → Result Db
unfolding transfer_member_groups
remove_member team_id member_id current_user now db = do
  p ← fresh_library_user db current_user
  team ← or_raise (get_team db team_id) (http 404)
  tm ← or_raise (get_member db member_id) (http 404)
  raise_if (not (tm.team_id == team.id)) (http 404)
  raise_if (tm.user_id == team.owner_id) (http 400)
  raise_if
      (not (tm.user_id == p.user.id)
        && not (can_manage_team db team.id p.user.id false)
        && not (is_admin p.user.role))
      (http 403)
  let db1 = transfer_member_groups now db team tm.user_id
  ok (record db1 { team_members = where_ (λ m. not (m.id == tm.id)) db1.team_members })

-- `payload.role`, one of `_TEAM_ROLES`
pub role_of : String → Option TeamRole
role_of role =
    if str_eq role "member"
    then some TeamRole.member
    else if str_eq role "admin"
    then some TeamRole.admin
    else none

pub change_member_role : ℕ → ℕ → String → Principal → Db → Result Db
unfolding role_of
change_member_role team_id member_id role current_user db = do
  p ← fresh_library_user db current_user
  team ← or_raise (get_team db team_id) (http 404)
  raise_if (not (can_manage_team db team.id p.user.id true) && not (is_admin p.user.role))
      (http 403)
  new_role ← or_raise (role_of role) (http 422)
  tm ← or_raise (get_member db member_id) (http 404)
  raise_if (not (tm.team_id == team.id)) (http 404)
  raise_if (tm.user_id == team.owner_id) (http 400)
  ok (record db {
    team_members = update (λ m. m.id == tm.id) (λ m. record m { role = new_role }) db.team_members;
  })

-- `library.delete_team_groups`
pub delete_team_groups : Db → ℕ → Db
delete_team_groups db team_id =
    let in_team = λ (g : MediaGroup). opt_eq g.team_id (some team_id) in
    let group_ids = map (λ (g : MediaGroup). g.id) (where_ in_team db.media_groups) in
    record db {
      media_group_items =
          where_ (λ (i : MediaGroupItem). not (any (λ id. i.group_id == id) group_ids))
            db.media_group_items;
      media_groups =
          where_ (λ (g : MediaGroup). not (any (λ id. g.id == id) group_ids)) db.media_groups;
    }

-- `videos.dissolve_team_media` on a team that is there
pub release_team : Db → ℕ → Db
unfolding delete_team_groups
release_team db team_id =
    let db1 = delete_team_groups db team_id in
    record db1 {
      images =
          update (λ (i : Image). opt_eq i.team_id (some team_id)) (λ i. record i { team_id = none })
            db1.images;
      upload_sessions =
          update (λ (u : UploadSession). opt_eq u.team_id (some team_id))
            (λ u. record u { team_id = none }) db1.upload_sessions;
      teams = where_ (λ (t : Team). not (t.id == team_id)) db1.teams;
    }

pub dissolve_team_media : Db → ℕ → Db
dissolve_team_media db team_id = elim (get_team db team_id) [
  | none ↦ db
  | some current ↦ release_team db team_id
]

pub delete_team : ℕ → Principal → Db → Result Db
delete_team team_id current_user db = do
  p ← fresh_library_user db current_user
  team ← or_raise (get_team db team_id) (http 404)
  raise_if (not (can_manage_team db team.id p.user.id true) && not (is_admin p.user.role))
      (http 403)
  ok (dissolve_team_media db team.id)
