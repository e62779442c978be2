-- ===== src/Teams/Revoked.antt =====
-- What a member who is removed from a team can still do with its media and groups.
use asset_harbor.Base.{ℕ, ◌≡◌, sym, subst, false, ◌&&◌, none, some, arith, ok, ◌==◌, find}
use asset_harbor.Model.{TeamMember, Principal, Db, Image, MediaGroup}
use asset_harbor.Access.{
  get_membership, has_global_admin_scope, can_manage_image, can_view_group, can_watch_private,
  is_team_member,
}
use asset_harbor.Teams.{remove_member, get_member}
use asset_harbor.Teams.Keys.{find-dropped}
use asset_harbor.Teams.Owners.{IsOwned}
use asset_harbor.Teams.Kept.{remove_member_writes}

-- After a removal the user has no row in the team.
pub remove_member-get_membership :
    (team_id member_id : ℕ) (p : Principal) (now : ℕ) (db db' : Db) (tm : TeamMember)
    → IsOwned db
    → get_member db member_id ≡ some tm
    → remove_member team_id member_id p now db ≡ ok db'
    → get_membership db' tm.team_id tm.user_id ≡ none
unfolding get_membership get_member
remove_member-get_membership team_id member_id p now db db' tm h found e =
    let (team, row, got, found', in_team, not_owner, written) =
      remove_member_writes team_id member_id p now db db' e in
    let same : row ≡ tm = ground arith in
    subst
      (λ (d : Db).
        find (λ (x : TeamMember). x.team_id == tm.team_id && x.user_id == tm.user_id) d.team_members
        ≡ none)
      (sym written) (rw same (find-dropped _ db.team_members tm h.distinct found))

-- Where every team has its owner among its members, after a member is removed from a team, a
-- principal of that user without the global administrator scope passes none of three tests: whether
-- one can manage a medium of the team, whether a medium of the team that is private is shown without
-- a signature, and whether one can view a group of the team.
pub remove_member_revokes :
    (team_id member_id : ℕ) (p actor : Principal) (now : ℕ) (db db' : Db) (tm : TeamMember)
    (image : Image) (group : MediaGroup)
    → IsOwned db
    → get_member db member_id ≡ some tm
    → remove_member team_id member_id actor now db ≡ ok db'
    → p.user.id ≡ tm.user_id
    → has_global_admin_scope p ≡ false
    → image.team_id ≡ some tm.team_id
    → group.team_id ≡ some tm.team_id
    → (can_manage_image db' p image ≡ false)
      × (can_watch_private db' (some p) false image ≡ false)
      × (can_view_group db' p group ≡ false)
unfolding can_manage_image can_watch_private can_view_group is_team_member
remove_member_revokes team_id member_id p actor now db db' tm image group h found e user tenant
      in_team shared =
    let gone = remove_member-get_membership team_id member_id actor now db db' tm h found e in
    let gone' : get_membership db' tm.team_id p.user.id ≡ none = rw user gone in
    (ground arith, ground arith, ground arith)
