-- ===== src/Teams/Kept.antt =====
-- The handlers of members, and the owners of teams.
use asset_harbor.Base.{
  ℕ, String, ◌≤◌, ◌<◌, ◌≡◌, sym, subst, ◌≢◌, ap, false, not, ◌&&◌, none, some, arith, ok, http,
  >>=-eq-ok, raise_if, or_raise, ◌==◌, where_, All-where_, All-map, All-both, All-above,
  All-of_find-none, max_by, find-where_, find_passes, is_some,
}
use asset_harbor.Base.Text.{strip_str}
use asset_harbor.Model.{Team, TeamMember, Principal, CounterName, Db}
use asset_harbor.Access.{get_membership, get_team, fresh_library_user, can_manage_team, is_admin}
use asset_harbor.Ids.{next_team_member_id, next_id, live_max}
use asset_harbor.Ids.Fresh.{allocate-IsAllocated, allocate_writes, allocate-counter_le}
use asset_harbor.Teams.{
  add_member, remove_member, get_member, get_user_by_name, add_team_member, transfer_member_groups,
}
use asset_harbor.Teams.Keys.{Apart, Distinct-where_}
use asset_harbor.Teams.Owners.{
  IsOwned, team_counter, IsOwned-allocate, IsOwned-add, team_is_counted, owner_row_is_other,
}

-- A row that is added under the number just allocated, for a known team and a user with no row.
pub member_added-IsOwned :
    (now id : ℕ) (db db1 : Db) (m : TeamMember)
    → IsOwned db
    → next_team_member_id now db ≡ ok (id, db1)
    → m.id ≡ id
    → m.team_id ≤ team_counter db1
    → get_membership db m.team_id m.user_id ≡ none
    → IsOwned (add_team_member db1 m)
unfolding next_team_member_id next_id live_max get_membership
member_added-IsOwned now id db db1 m h e new known alone =
    let live = max_by (λ (x : TeamMember). x.id) db.team_members in
    let made = allocate-IsAllocated CounterName.team_member_id live now id db db1 e in
    let writes = allocate_writes CounterName.team_member_id live now id db db1 e in
    let same : db1.team_members ≡ db.team_members = ap (λ (d : Db). d.team_members) writes in
    let below = All-above (λ (x : TeamMember). x.id) id db.team_members made.above_live in
    let others = All-of_find-none _ db.team_members alone in
    IsOwned-add db1 m (IsOwned-allocate CounterName.team_member_id live now id db db1 h e)
      (rw same (
        All-map
          (λ (x : TeamMember).
            (x.id < id) × ((x.team_id == m.team_id && x.user_id == m.user_id) ≡ false))
          (λ x. Apart x m) (λ x k. (omega arith, λ team user. ground arith)) db.team_members
          (All-both (λ (x : TeamMember). x.id < id)
            (λ x. (x.team_id == m.team_id && x.user_id == m.user_id) ≡ false) db.team_members below
            others)))
      known

-- What an accepted invitation has written.
add_member_writes :
    (team_id : ℕ) (username : String) (p : Principal) (now : ℕ) (db db' : Db) (m : TeamMember)
    → add_member team_id username p now db ≡ ok (m, db')
    → (team : Team) × (id : ℕ) × (db1 : Db) × (get_team db team_id ≡ some team)
      × (next_team_member_id now db ≡ ok (id, db1))
      × (m.id ≡ id)
      × (m.team_id ≡ team.id)
      × (get_membership db m.team_id m.user_id ≡ none)
      × (db' ≡ add_team_member db1 m)
unfolding add_member
add_member_writes team_id username p now db db' m e =
    let (q, fresh, e1) = >>=-eq-ok (fresh_library_user db p) _ e in
    let (team, got, e2) = >>=-eq-ok (or_raise (get_team db team_id) (http 404)) _ e1 in
    let (_, manages, e3) =
      >>=-eq-ok
        (raise_if (not (can_manage_team db team.id q.user.id false) && not (is_admin q.user.role))
          (http 403))
        _ e2 in
    let (target, named, e4) =
      >>=-eq-ok (or_raise (get_user_by_name db (strip_str username)) (http 404)) _ e3 in
    let (_, not_owner, e5) = >>=-eq-ok (raise_if (target.id == team.owner_id) (http 409)) _ e4 in
    let (_, not_member, e6) =
      >>=-eq-ok (raise_if (is_some (get_membership db team.id target.id)) (http 409)) _ e5 in
    let (made, allocated, e7) = >>=-eq-ok (next_team_member_id now db) _ e6 in
    (
      team,
      made.0,
      made.1,
      ground arith,
      allocated,
      ground arith,
      ground arith,
      ground arith,
      ground arith,
    )

-- An invitation keeps the invariant.
pub add_member-IsOwned :
    (team_id : ℕ) (username : String) (p : Principal) (now : ℕ) (db db' : Db) (m : TeamMember)
    → IsOwned db
    → add_member team_id username p now db ≡ ok (m, db')
    → IsOwned db'
unfolding next_team_member_id next_id live_max
add_member-IsOwned team_id username p now db db' m h e =
    let (team, id, db1, got, made, new, in_team, alone, written) =
      add_member_writes team_id username p now db db' m e in
    let live = max_by (λ (x : TeamMember). x.id) db.team_members in
    let counter =
      allocate-counter_le CounterName.team_member_id CounterName.team_id live now id db db1 made in
    let known = team_is_counted db team_id team h got in
    subst IsOwned (sym written)
      (member_added-IsOwned now id db db1 m h made new (omega arith) alone)

-- What an accepted removal has written.
pub remove_member_writes :
    (team_id member_id : ℕ) (p : Principal) (now : ℕ) (db db' : Db)
    → remove_member team_id member_id p now db ≡ ok db'
    → (team : Team) × (tm : TeamMember) × (get_team db team_id ≡ some team)
      × (get_member db member_id ≡ some tm)
      × (tm.team_id ≡ team.id)
      × (tm.user_id ≢ team.owner_id)
      × (db' ≡ record (transfer_member_groups now db team tm.user_id) {
        team_members = where_ (λ m. not (m.id == tm.id)) db.team_members;
      })
unfolding remove_member
remove_member_writes team_id member_id p now db db' e =
    let (q, fresh, e1) = >>=-eq-ok (fresh_library_user db p) _ e in
    let (team, got, e2) = >>=-eq-ok (or_raise (get_team db team_id) (http 404)) _ e1 in
    let (tm, found, e3) = >>=-eq-ok (or_raise (get_member db member_id) (http 404)) _ e2 in
    let (_, in_team, e4) = >>=-eq-ok (raise_if (not (tm.team_id == team.id)) (http 404)) _ e3 in
    let (_, not_owner, e5) = >>=-eq-ok (raise_if (tm.user_id == team.owner_id) (http 400)) _ e4 in
    (team, tm, ground arith, ground arith, ground arith, ground arith, ground arith)

-- A removal keeps the invariant.
pub remove_member-IsOwned :
    (team_id member_id : ℕ) (p : Principal) (now : ℕ) (db db' : Db)
    → IsOwned db
    → remove_member team_id member_id p now db ≡ ok db'
    → IsOwned db'
unfolding get_membership get_team get_member transfer_member_groups
remove_member-IsOwned team_id member_id p now db db' h e =
    let (team, tm, got, found, in_team, not_owner, written) =
      remove_member_writes team_id member_id p now db db' e in
    let tid : tm.id ≡ member_id =
      ground
        (arith, find_passes (λ (x : TeamMember). x.id == member_id) db.team_members tm found) in
    subst IsOwned (sym written) (record {
      distinct = Distinct-where_ _ db.team_members h.distinct;
      counted =
          All-where_ (λ (m : TeamMember). m.team_id ≤ team_counter db) _ db.team_members h.counted;
      owned = λ t other other_found.
          let (row, member, is_owner) = h.owned t other other_found in
          let ne =
            owner_row_is_other db team_id t team other tm row h got other_found
              (subst (λ k. get_member db k ≡ some tm) (sym tid) found) in_team not_owner member in
          (row, find-where_ _ _ db.team_members row member (ground arith), is_owner);
    })
