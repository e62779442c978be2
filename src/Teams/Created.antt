-- ===== src/Teams/Created.antt =====
-- A new team, and its creator.
use asset_harbor.Base.{
  ℕ, String, ◌≤◌, ◌≡◌, refl, ◌∙◌, sym, subst, ap, false, ◌&&◌, none, some, [], ◌∷◌, arith, ok, http,
  >>=-eq-ok, raise_if, ◌==◌, find, any, All-map, max_by, find-append_some, find-append_none,
  find-none, Option-cases, ◌⊎◌, inl, inr, str_eq,
}
use asset_harbor.Base.Text.{strip_str}
use asset_harbor.Model.{Team, TeamMember, TeamRole, Principal, CounterName, Db}
use asset_harbor.Access.{get_membership, get_team, fresh_library_user}
use asset_harbor.Ids.{next_team_id, next_team_member_id, next_id, live_max}
use asset_harbor.Ids.Fresh.{allocate-IsAllocated, allocate_writes, allocate-counter_le}
use asset_harbor.Teams.{create_team, new_member, add_team, add_team_member}
use asset_harbor.Teams.Owners.{IsOwned, team_counter, IsOwned-allocate}
use asset_harbor.Teams.Kept.{member_added-IsOwned}

create_team_writes :
    (name description : String) (p : Principal) (now : ℕ) (db db' : Db) (team : Team)
    → create_team name description p now db ≡ ok (team, db')
    → (id : ℕ) × (db1 : Db) × (db2 : Db) × (next_team_id now db ≡ ok (team.id, db1))
      × (next_team_member_id now db1 ≡ ok (id, db2))
      × (db'
          ≡ add_team_member
              (add_team db2 team)
              (new_member id team.id team.owner_id TeamRole.owner now))
unfolding create_team
create_team_writes name description p now db db' team e =
    let (q, fresh, e1) = >>=-eq-ok (fresh_library_user db p) _ e in
    let (_, unused, e2) =
      >>=-eq-ok (raise_if (any (λ (t : Team). str_eq t.name (strip_str name)) db.teams) (http 409))
        _ e1 in
    let (t, made, e3) = >>=-eq-ok (next_team_id now db) _ e2 in
    let (m, member, e4) = >>=-eq-ok (next_team_member_id now t.1) _ e3 in
    (m.0, t.1, m.1, ground arith, ground arith, ground arith)

-- With the new team's row in place, every other team is found as before.
get_team-add :
    (db : Db) (team other : Team) (t : ℕ)
    → get_team (add_team db team) t ≡ some other
    → (get_team db t ≡ some other) ⊎ (other ≡ team)
unfolding get_team
get_team-add db team other t e = elim (Option-cases (find (λ (x : Team). x.id == t) db.teams)) [
  | inl new ↦ let f = find-append_none _ db.teams (team ∷ []) new in inr (ground arith)
  | inr (old, found) ↦
      let f = find-append_some _ db.teams (team ∷ []) old found in inl (ground arith)
]

-- A new team keeps the invariant: its creator is a member in the role `owner`.
pub create_team-IsOwned :
    (name description : String) (p : Principal) (now : ℕ) (db db' : Db) (team : Team)
    → IsOwned db
    → create_team name description p now db ≡ ok (team, db')
    → IsOwned db'
unfolding next_team_id next_id live_max next_team_member_id get_membership get_team
create_team-IsOwned name description p now db db' team h e =
    let (id, db1, db2, made, member, written) =
      create_team_writes name description p now db db' team e in
    let m = new_member id team.id team.owner_id TeamRole.owner now in
    let live_team = max_by (λ (t : Team). t.id) db.teams in
    let live_member = max_by (λ (x : TeamMember). x.id) db1.team_members in
    let facts = allocate-IsAllocated CounterName.team_id live_team now team.id db db1 made in
    let same1 =
      ap (λ (d : Db). d.team_members)
        (allocate_writes CounterName.team_id live_team now team.id db db1 made) in
    let same2 =
      ap (λ (d : Db). d.team_members)
        (allocate_writes CounterName.team_member_id live_member now id db1 db2 member) in
    let rises =
      allocate-counter_le CounterName.team_member_id CounterName.team_id live_member now id db1 db2
        member in
    let h1 = IsOwned-allocate CounterName.team_id live_team now team.id db db1 h made in
    let is_pair = λ (x : TeamMember). x.team_id == team.id && x.user_id == team.owner_id in
    let alone : find is_pair db.team_members ≡ none = find-none is_pair db.team_members (
      All-map (λ (x : TeamMember). x.team_id ≤ team_counter db) (λ x. is_pair x ≡ false)
        (λ x k. let fresh = facts.above_counter in ground arith) db.team_members h.counted) in
    let alone1 : find is_pair db1.team_members ≡ none = rw same1 alone in
    let alone2 : find is_pair db2.team_members ≡ none = rw same2 alone1 in
    let h3 =
      member_added-IsOwned now id db1 db2 m h1 member refl (omega (arith, facts.recorded)) alone1 in
    subst IsOwned (sym written) (record {
      distinct = h3.distinct;
      counted = h3.counted;
      owned = λ t other found. elim (get_team-add db2 team other t found) [
        | inl old ↦ h3.owned t other old
        | inr new ↦
            rw new
              (m, find-append_none is_pair db2.team_members (m ∷ []) alone2 ∙ ground arith, refl)
      ];
    })
