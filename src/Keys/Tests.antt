-- ===== src/Keys/Tests.antt =====
-- The theorem on rotation at an account with one key.
use asset_harbor.Base.{String, ◌≡◌, refl, some, List, [], ◌∷◌, ok}
use asset_harbor.Model.{
  User, Role, Principal, AuthScope, ApiKey, Db, empty_db, CounterName, RuntimeCounter,
}
use asset_harbor.Access.{fresh_library_user, copy_auth_scope, bind_auth_scope, get_user}
use asset_harbor.Ids.{
  next_api_key_id, next_id, allocate, live_max, counter_value, get_counter, put_counter,
}
use asset_harbor.Keys.{get_key, get_own_key, Secret, new_key, rotate_key_body}
use asset_harbor.Keys.Rotated.{IsRotated, rotate_key_body-IsRotated}

abbrev holder : User
holder = record {
  id = 1;
  username = "alice";
  password_hash = "";
  role = Role.user;
  auth_version = 0;
  created_at = 10;
}

abbrev login : Principal
login = record { user = holder; scope = AuthScope.jwt; identity = some (1, 10) }

abbrev secret : String → Secret
secret h = record { key_hash = h; key_prefix = "ah_" }

abbrev keys : List ApiKey → List RuntimeCounter → Db
keys l c = record empty_db { users = holder ∷ []; api_keys = l; runtime_counters = c }

abbrev before : Db
before = keys (new_key 4 1 "laptop" (secret "old") 20 ∷ []) []

abbrev after : Db
after =
    keys (new_key 5 1 "laptop" (secret "new") 30 ∷ [])
      (record { name = CounterName.api_key_id; value = 5; updated_at = 30 } ∷ [])

rotate_laptop :
    rotate_key_body 4 (secret "new") login 30 before
    ≡ ok (new_key 5 1 "laptop" (secret "new") 30, after)
unfolding rotate_key_body get_own_key get_key fresh_library_user copy_auth_scope bind_auth_scope
    get_user next_api_key_id next_id allocate live_max counter_value get_counter put_counter
rotate_laptop = refl

rotate_key_body-IsRotated_example :
    (old : ApiKey) × (get_key before 4 ≡ some old)
    × (old.user_id ≡ 1)
    × IsRotated 4 1 old.name (secret "new") (new_key 5 1 "laptop" (secret "new") 30) after
rotate_key_body-IsRotated_example =
    rotate_key_body-IsRotated 4 (secret "new") login 30 before after
      (new_key 5 1 "laptop" (secret "new") 30) rotate_laptop
