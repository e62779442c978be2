-- ===== src/Teams/Reach.antt =====
-- The handlers that change teams, in any order.
use asset_harbor.Base.{ℕ, String, ◌≡◌, List, ok}
use asset_harbor.Model.{Db, User, Team, TeamMember, Principal}
use asset_harbor.Access.{get_membership, get_team}
use asset_harbor.Teams.{create_team, delete_team, add_member, remove_member, change_member_role}
use asset_harbor.Teams.Owners.{IsOwned}
use asset_harbor.Teams.Created.{create_team-IsOwned}
use asset_harbor.Teams.Kept.{add_member-IsOwned, remove_member-IsOwned}
use asset_harbor.Teams.Roles.{change_member_role-IsOwned}
use asset_harbor.Teams.Dissolved.{delete_team-IsOwned}

-- One handler that returns, for anyone and at any time; accounts come and go in between.
pub data Step (db : Db) : Db → Type 0 where
  creates :
      (name description : String) (p : Principal) (now : ℕ) (team : Team) (after : Db)
      → create_team name description p now db ≡ ok (team, after)
      → Step db after
  adds :
      (team_id : ℕ) (username : String) (p : Principal) (now : ℕ) (m : TeamMember) (after : Db)
      → add_member team_id username p now db ≡ ok (m, after)
      → Step db after
  removes :
      (team_id member_id : ℕ) (p : Principal) (now : ℕ) (after : Db)
      → remove_member team_id member_id p now db ≡ ok after
      → Step db after
  changes_role :
      (team_id member_id : ℕ) (role : String) (p : Principal) (after : Db)
      → change_member_role team_id member_id role p db ≡ ok after
      → Step db after
  deletes :
      (team_id : ℕ) (p : Principal) (after : Db)
      → delete_team team_id p db ≡ ok after
      → Step db after
  accounts : (users : List User) → Step db (record db { users = users })

pub data Reach (db : Db) : Db → Type 0 where
  here : Reach db db
  next : {mid after : Db} → Reach db mid → Step mid after → Reach db after

accounts-IsOwned :
    (db : Db) (users : List User) → IsOwned db → IsOwned (record db { users = users })
unfolding get_membership get_team
accounts-IsOwned db users h = record { distinct = h.distinct; counted = h.counted; owned = h.owned }

Step-IsOwned : {db after : Db} → Step db after → IsOwned db → IsOwned after
Step-IsOwned {db = db} (creates name description p now team after e) h =
    create_team-IsOwned name description p now db after team h e
Step-IsOwned {db = db} (adds team_id username p now m after e) h =
    add_member-IsOwned team_id username p now db after m h e
Step-IsOwned {db = db} (removes team_id member_id p now after e) h =
    remove_member-IsOwned team_id member_id p now db after h e
Step-IsOwned {db = db} (changes_role team_id member_id role p after e) h =
    change_member_role-IsOwned team_id member_id role p db after h e
Step-IsOwned {db = db} (deletes team_id p after e) h = delete_team-IsOwned team_id p db after h e
Step-IsOwned {db = db} (accounts users) h = accounts-IsOwned db users h

-- However teams are created and deleted, members added and removed and roles changed, by whomever and
-- in whatever order, every team keeps its owner among its members, in the role of an owner, no two
-- rows of members share their number or their team and user, and the counter of teams is above the
-- team of every row; this is from a database on, an empty one for example, of which it holds.
pub Reach-IsOwned : {db after : Db} → IsOwned db → Reach db after → IsOwned after
Reach-IsOwned h here = h
Reach-IsOwned h (next r step) = Step-IsOwned step (Reach-IsOwned h r)
