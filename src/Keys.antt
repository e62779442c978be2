-- ===== src/Keys.antt =====
-- API keys: `_get_own_key`, `create_key`, `rotate_key` and `revoke_key` of app/api/routes/keys.py.
-- The text of a new key and its hash are arguments, and so is the text that the limiter counts the
-- account under.
pub mod Rotated
mod Tests
use asset_harbor.Base.{
  ℕ, ◌+◌, String, Bool, true, false, not, Option, none, some, List, [], ◌∷◌, ◌++◌, Result, ok, err,
  http, ◌>>=◌, ◌>>◌, raise_if, or_raise, leb, ◌==◌, if◌then◌else◌, where_, find, length,
}
use asset_harbor.Base.Text.{strip_str}
use asset_harbor.Model.{ApiKey, Db, Settings, Principal}
use asset_harbor.Access.{fresh_library_user}
use asset_harbor.Ids.{next_api_key_id}
use asset_harbor.RateLimit.{Limiter, check_rate_limit}

unfoldable pub get_key : Db → ℕ → Option ApiKey
get_key db id = find (λ k. k.id == id) db.api_keys

-- `_get_own_key`
unfoldable pub get_own_key : Db → ℕ → ℕ → Result ApiKey
get_own_key db key_id user_id = do
  key ← or_raise (get_key db key_id) (http 404)
  raise_if (not (key.user_id == user_id)) (http 404)
  ok key

-- What `generate_api_key` and `hash_api_key` give for a new key.
pub record Secret : Type 0 where
  pub key_hash : String
  pub key_prefix : String

abbrev pub new_key : ℕ → ℕ → String → Secret → ℕ → ApiKey
new_key id user_id name secret now = record {
  id = id;
  user_id = user_id;
  name = name;
  key_hash = secret.key_hash;
  key_prefix = secret.key_prefix;
  created_at = now;
  last_used_at = none;
}

abbrev pub add_key : Db → ApiKey → Db
add_key db k = record db { api_keys = db.api_keys ++ (k ∷ []) }

abbrev pub delete_key : Db → ApiKey → Db
delete_key db k = record db { api_keys = where_ (λ x. not (x.id == k.id)) db.api_keys }

unfoldable pub key_count : Db → ℕ → ℕ
key_count db user_id = length (where_ (λ (k : ApiKey). k.user_id == user_id) db.api_keys)

-- The handlers after the limiter has let them pass.
unfoldable pub create_key_body :
    Settings → String → Secret → Principal → ℕ → Db → Result (ApiKey × Db)
create_key_body s name secret current_user now db = do
  p ← fresh_library_user db current_user
  raise_if (leb s.max_api_keys_per_user (key_count db p.user.id)) (http 409)
  id ← next_api_key_id now db
  let key = new_key id.0 p.user.id (strip_str name) secret now
  ok (key, add_key id.1 key)

unfoldable pub rotate_key_body : ℕ → Secret → Principal → ℕ → Db → Result (ApiKey × Db)
rotate_key_body key_id secret current_user now db = do
  p ← fresh_library_user db current_user
  old ← get_own_key db key_id p.user.id
  id ← next_api_key_id now db
  let key = new_key id.0 p.user.id old.name secret now
  ok (key, add_key (delete_key id.1 old) key)

unfoldable pub revoke_key_body : ℕ → Principal → Db → Result Db
revoke_key_body key_id current_user db = do
  p ← fresh_library_user db current_user
  key ← get_own_key db key_id p.user.id
  ok (delete_key db key)

-- Every mutation is counted before anything else, against a limit per day.
abbrev pub limited : {A : Type 0} → String → ℕ → ℕ → Limiter → Result A → Result A × Limiter
limited identity limit tick limiter body =
    let r = check_rate_limit identity limit 86400 tick limiter in (r.0 >> body, r.1)

abbrev pub create_key :
    String
    → ℕ
    → ℕ
    → Settings
    → String
    → Secret
    → Principal
    → ℕ
    → Db
    → Limiter
    → Result (ApiKey × Db) × Limiter
create_key identity limit tick s name secret current_user now db limiter =
    limited identity limit tick limiter (create_key_body s name secret current_user now db)

abbrev pub rotate_key :
    String → ℕ → ℕ → ℕ → Secret → Principal → ℕ → Db → Limiter → Result (ApiKey × Db) × Limiter
rotate_key identity limit tick key_id secret current_user now db limiter =
    limited identity limit tick limiter (rotate_key_body key_id secret current_user now db)

abbrev pub revoke_key : String → ℕ → ℕ → ℕ → Principal → Db → Limiter → Result Db × Limiter
revoke_key identity limit tick key_id current_user db limiter =
    limited identity limit tick limiter (revoke_key_body key_id current_user db)
