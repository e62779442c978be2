-- ===== src/Model/Account.antt =====
-- app/models/user.py, api_key.py, team.py and runtime_counter.py, and the request's principal of
-- app/core/auth_scope.py.
use asset_harbor.Base.{ℕ, String, Option}

-- `users.role`
pub data Role : Type 0 where
  admin user : Role

pub record User : Type 0 where
  pub id : ℕ
  pub username : String
  pub password_hash : String
  pub role : Role
  pub auth_version : ℕ
  pub created_at : ℕ

pub record ApiKey : Type 0 where
  pub id : ℕ
  pub user_id : ℕ
  pub name : String
  pub key_hash : String
  pub key_prefix : String
  pub created_at : ℕ
  pub last_used_at : Option ℕ

pub record Team : Type 0 where
  pub id : ℕ
  pub name : String
  pub description : String
  pub owner_id : ℕ
  pub created_at : ℕ

-- `team_members.role`
pub data TeamRole : Type 0 where
  owner admin member : TeamRole

pub record TeamMember : Type 0 where
  pub id : ℕ
  pub team_id : ℕ
  pub user_id : ℕ
  pub role : TeamRole
  pub created_at : ℕ

-- The counters that the code keeps, by the names that it gives them.
pub data CounterName : Type 0 where
  user_id team_id team_member_id media_group_id api_key_id : CounterName

pub record RuntimeCounter : Type 0 where
  pub name : CounterName
  pub value : ℕ
  pub updated_at : ℕ

-- `AuthScope`; `internal` is also the scope of a principal that no request has marked.
pub data AuthScope : Type 0 where
  jwt api_key tenant internal : AuthScope

-- A user row with the two attributes that a request binds to it.
pub record Principal : Type 0 where
  pub user : User
  pub open user use *
  pub scope : AuthScope
  pub identity : Option (ℕ × ℕ)
