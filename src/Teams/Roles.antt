-- ===== src/Teams/Roles.antt =====
-- A change of role, and the rows of owners.
use asset_harbor.Base.{
  ℕ, String, ◌≤◌, ◌≡◌, refl, sym, subst, ◌≢◌, true, false, not, ◌&&◌, some, arith, ok, http,
  >>=-eq-ok, raise_if, or_raise, ◌==◌, update, All-update, find-update, find_passes,
}
use asset_harbor.Model.{Team, TeamMember, TeamRole, Principal, Db}
use asset_harbor.Access.{get_membership, get_team, fresh_library_user, can_manage_team, is_admin}
use asset_harbor.Teams.{change_member_role, get_member, role_of}
use asset_harbor.Teams.Keys.{Distinct-update}
use asset_harbor.Teams.Owners.{IsOwned, team_counter, owner_row_is_other}

-- What an accepted change of role has written.
change_member_role_writes :
    (team_id member_id : ℕ) (role : String) (p : Principal) (db db' : Db)
    → change_member_role team_id member_id role p db ≡ ok db'
    → (team : Team) × (tm : TeamMember) × (new_role : TeamRole) × (get_team db team_id ≡ some team)
      × (get_member db member_id ≡ some tm)
      × (tm.team_id ≡ team.id)
      × (tm.user_id ≢ team.owner_id)
      × (db' ≡ record db {
        team_members =
            update (λ m. m.id == tm.id) (λ m. record m { role = new_role }) db.team_members;
      })
unfolding change_member_role
change_member_role_writes team_id member_id role p db db' e =
    let (q, fresh, e1) = >>=-eq-ok (fresh_library_user db p) _ e in
    let (team, got, e2) = >>=-eq-ok (or_raise (get_team db team_id) (http 404)) _ e1 in
    let (_, allowed, e3) =
      >>=-eq-ok
        (raise_if (not (can_manage_team db team.id q.user.id true) && not (is_admin q.user.role))
          (http 403))
        _ e2 in
    let (new_role, valid, e4) = >>=-eq-ok (or_raise (role_of role) (http 422)) _ e3 in
    let (tm, found, e5) = >>=-eq-ok (or_raise (get_member db member_id) (http 404)) _ e4 in
    let (_, in_team, e6) = >>=-eq-ok (raise_if (not (tm.team_id == team.id)) (http 404)) _ e5 in
    let (_, not_owner, e7) = >>=-eq-ok (raise_if (tm.user_id == team.owner_id) (http 400)) _ e6 in
    (team, tm, new_role, ground arith, ground arith, ground arith, ground arith, ground arith)

-- A change of role keeps the invariant.
pub change_member_role-IsOwned :
    (team_id member_id : ℕ) (role : String) (p : Principal) (db db' : Db)
    → IsOwned db
    → change_member_role team_id member_id role p db ≡ ok db'
    → IsOwned db'
unfolding get_membership get_team get_member
change_member_role-IsOwned team_id member_id role p db db' h e =
    let (team, tm, new_role, got, found, in_team, not_owner, written) =
      change_member_role_writes team_id member_id role p db db' e in
    let tid : tm.id ≡ member_id =
      ground
        (arith, find_passes (λ (x : TeamMember). x.id == member_id) db.team_members tm found) in
    let is_row = λ (m : TeamMember). m.id == tm.id in
    let set_role = λ (m : TeamMember). record m { role = new_role } in
    let counts = λ (m : TeamMember). m.team_id ≤ team_counter db in
    subst IsOwned (sym written) (record {
      distinct =
          Distinct-update is_row set_role db.team_members (λ x m apart. apart) (λ x m apart. apart)
            h.distinct;
      counted = All-update counts is_row set_role db.team_members (λ m k. k) h.counted;
      owned = λ t other other_found.
          let (row, member, is_owner) = h.owned t other other_found in
          let ne =
            owner_row_is_other db team_id t team other tm row h got other_found
              (subst (λ k. get_member db k ≡ some tm) (sym tid) found) in_team not_owner member in
          let miss : (row.id == tm.id) ≡ false = ground arith in
          let kept = find-update _ is_row set_role db.team_members row (λ m. refl) member in
          (row, rw miss at kept, is_owner);
    })
