-- ===== src/Teams/Owners.antt =====
-- Teams and their owners among their members.
use asset_harbor.Base.{
  ℕ, ◌≤◌, ◌≡◌, sym, subst, ◌≢◌, true, ◌&&◌, some, List, [], ◌∷◌, arith, ok, ◌==◌, All, All-append,
  All-find, All-map, find-append_some, find_passes,
}
use asset_harbor.Model.{RuntimeCounter, Team, TeamMember, CounterName, Db}
use asset_harbor.Access.{get_membership, get_team, is_owner_role}
use asset_harbor.Ids.{counter_value, allocate}
use asset_harbor.Ids.Fresh.{allocate_writes, allocate-counter_le}
use asset_harbor.Teams.{get_member, add_team_member}
use asset_harbor.Teams.Keys.{Apart, Distinct, find_unique, Distinct-append}

abbrev pub OwnerRow : Db → Team → Type 0
OwnerRow db team =
    (m : TeamMember) × (get_membership db team.id team.owner_id ≡ some m)
    × (is_owner_role m.role ≡ true)

abbrev pub team_counter : Db → ℕ
team_counter db = counter_value CounterName.team_id db.runtime_counters

pub record IsOwned (db : Db) : Type 0 where
  pub distinct : Distinct db.team_members
  pub counted : All (λ (m : TeamMember). m.team_id ≤ team_counter db) db.team_members
  pub owned : (t : ℕ) (team : Team) → get_team db t ≡ some team → OwnerRow db team

-- New counter values keep the invariant, as long as the counter of teams does not fall.
pub IsOwned-counters :
    (db : Db) (counters : List RuntimeCounter)
    → IsOwned db
    → team_counter db ≤ counter_value CounterName.team_id counters
    → IsOwned (record db { runtime_counters = counters })
unfolding get_membership get_team
IsOwned-counters db counters h le = record {
  distinct = h.distinct;
  counted =
      All-map (λ (m : TeamMember). m.team_id ≤ team_counter db)
        (λ m. m.team_id ≤ counter_value CounterName.team_id counters) (λ m k. omega arith)
        db.team_members h.counted;
  owned = h.owned;
}

pub IsOwned-allocate :
    (name : CounterName) (live now id : ℕ) (db db' : Db)
    → IsOwned db
    → allocate name live now db ≡ ok (id, db')
    → IsOwned db'
IsOwned-allocate name live now id db db' h e =
    subst IsOwned (sym (allocate_writes name live now id db db' e)) (
      IsOwned-counters db db'.runtime_counters h
        (allocate-counter_le name CounterName.team_id live now id db db' e))

-- A new row of a known team, under a new number.
pub IsOwned-add :
    (db : Db) (m : TeamMember)
    → IsOwned db
    → All (λ x. Apart x m) db.team_members
    → m.team_id ≤ team_counter db
    → IsOwned (add_team_member db m)
unfolding get_membership get_team
IsOwned-add db m h new known = record {
  distinct = Distinct-append db.team_members m h.distinct new;
  counted =
      All-append (λ (x : TeamMember). x.team_id ≤ team_counter db) db.team_members (m ∷ [])
        h.counted (known, tt);
  owned = λ t team found.
      let (row, member, is_owner) = h.owned t team found in
      (row, find-append_some _ db.team_members (m ∷ []) row member, is_owner);
}

pub get_team-id : (db : Db) (t : ℕ) (team : Team) → get_team db t ≡ some team → team.id ≡ t
unfolding get_team
get_team-id db t team e = ground (arith, find_passes (λ (x : Team). x.id == t) db.teams team e)

pub get_membership-fields :
    (db : Db) (t u : ℕ) (m : TeamMember)
    → get_membership db t u ≡ some m
    → (m.team_id ≡ t) × (m.user_id ≡ u)
unfolding get_membership
get_membership-fields db t u m e =
    ground (
      arith,
      find_passes (λ (x : TeamMember). x.team_id == t && x.user_id == u) db.team_members m e,
    )

-- The number of a stored team is one that the counter has given out.
pub team_is_counted :
    (db : Db) (t : ℕ) (team : Team)
    → IsOwned db
    → get_team db t ≡ some team
    → team.id ≤ team_counter db
unfolding get_membership
team_is_counted db t team h e =
    let (row, member, is_owner) = h.owned t team e in
    let fields = get_membership-fields db team.id team.owner_id row member in
    let counted =
      All-find (λ (m : TeamMember). m.team_id ≤ team_counter db) _ db.team_members row h.counted
        member in
    omega arith

-- A member row that is not its team's owner's is no team's owner's.
pub owner_row_is_other :
    (db : Db) (t k : ℕ) (team other : Team) (tm row : TeamMember)
    → IsOwned db
    → get_team db t ≡ some team
    → get_team db k ≡ some other
    → get_member db tm.id ≡ some tm
    → tm.team_id ≡ team.id
    → tm.user_id ≢ team.owner_id
    → get_membership db other.id other.owner_id ≡ some row
    → row.id ≢ tm.id
unfolding get_member get_membership get_team
owner_row_is_other db t k team other tm row h e f g in_team not_owner owner_row same =
    let one : row ≡ tm = find_unique _ _ db.team_members row tm h.distinct owner_row g same in
    let fields = get_membership-fields db other.id other.owner_id row owner_row in
    let id1 = get_team-id db t team e in
    let id2 = get_team-id db k other f in
    let u : tm.user_id ≡ other.owner_id = ground arith in
    let kt : k ≡ t = ground arith in
    let both : team ≡ other = let f' = rw kt at f in ground arith in not_owner (rw both u)
