-- ===== src/Ids.antt =====
-- Durable identifiers: `_next_id` and its four callers (app/services/identifiers.py), and
-- `_next_api_key_id` (app/api/routes/keys.py).
pub mod Fresh
mod Tests
use asset_harbor.Base.{
  ℕ, ◌+◌, max, Bool, Option, none, some, List, [], ◌∷◌, ◌++◌, Result, ok, err, http, ltb, ◌==◌,
  if◌then◌else◌, find, update, max_by,
}
use asset_harbor.Model.{
  CounterName, RuntimeCounter, Db, User, Team, TeamMember, MediaGroup, ApiKey, TrafficDaily,
}

-- `_MAX_SAFE_JSON_INTEGER`
abbrev pub max_safe_json_integer : ℕ
max_safe_json_integer = 9007199254740991

abbrev pub counter_index : CounterName → ℕ
counter_index CounterName.user_id = 0
counter_index CounterName.team_id = 1
counter_index CounterName.team_member_id = 2
counter_index CounterName.media_group_id = 3
counter_index CounterName.api_key_id = 4

abbrev pub counter_eq : CounterName → CounterName → Bool
counter_eq a b = counter_index a == counter_index b

-- `db.get(RuntimeCounter, name)`
unfoldable pub get_counter : CounterName → List RuntimeCounter → Option RuntimeCounter
get_counter name = find (λ c. counter_eq c.name name)

-- The counter's value, 0 where there is no row.
unfoldable pub counter_value : CounterName → List RuntimeCounter → ℕ
unfolding get_counter
counter_value name counters = elim (get_counter name counters) [ none ↦ 0 | some c ↦ c.value ]

-- The row is added or its value replaced.
unfoldable pub put_counter : CounterName → ℕ → ℕ → List RuntimeCounter → List RuntimeCounter
unfolding get_counter
put_counter name value now counters = elim (get_counter name counters) [
  | none ↦ counters ++ (record { name = name; value = value; updated_at = now } ∷ [])
  | some _ ↦
      update (λ c. counter_eq c.name name) (λ c. record c { value = value; updated_at = now })
        counters
]

-- What `_next_id` and `_next_api_key_id` do with the largest number that they have found.
unfoldable pub allocate : CounterName → ℕ → ℕ → Db → Result (ℕ × Db)
allocate name found now db =
    let id = max found (counter_value name db.runtime_counters) + 1 in
    if ltb max_safe_json_integer id
    then err (http 503)
    else ok (id, record db { runtime_counters = put_counter name id now db.runtime_counters })

-- The classes that `_next_id` is called with.
pub data Table : Type 0 where
  user team team_member media_group : Table

-- `select(func.max(model.id))`, 0 where there is no row
unfoldable pub live_max : Table → Db → ℕ
live_max Table.user db = max_by (λ (u : User). u.id) db.users
live_max Table.team db = max_by (λ (t : Team). t.id) db.teams
live_max Table.team_member db = max_by (λ (m : TeamMember). m.id) db.team_members
live_max Table.media_group db = max_by (λ (g : MediaGroup). g.id) db.media_groups

-- `_next_id`
unfoldable pub next_id : Table → CounterName → ℕ → Db → Result (ℕ × Db)
next_id model name now db = allocate name (live_max model db) now db

unfoldable pub next_user_id : ℕ → Db → Result (ℕ × Db)
next_user_id now db = next_id Table.user CounterName.user_id now db

unfoldable pub next_team_id : ℕ → Db → Result (ℕ × Db)
next_team_id now db = next_id Table.team CounterName.team_id now db

unfoldable pub next_team_member_id : ℕ → Db → Result (ℕ × Db)
next_team_member_id now db = next_id Table.team_member CounterName.team_member_id now db

unfoldable pub next_media_group_id : ℕ → Db → Result (ℕ × Db)
next_media_group_id now db = next_id Table.media_group CounterName.media_group_id now db

-- `_next_api_key_id` also stays above every number in the traffic history.
unfoldable pub next_api_key_id : ℕ → Db → Result (ℕ × Db)
next_api_key_id now db =
    let live_max = max_by (λ (k : ApiKey). k.id) db.api_keys in
    let historical_max = max_by (λ (r : TrafficDaily). r.api_key_id) db.traffic_daily in
    allocate CounterName.api_key_id (max live_max historical_max) now db

-- The function that gives out the numbers of a counter.
abbrev pub next_of : CounterName → ℕ → Db → Result (ℕ × Db)
next_of CounterName.user_id = next_user_id
next_of CounterName.team_id = next_team_id
next_of CounterName.team_member_id = next_team_member_id
next_of CounterName.media_group_id = next_media_group_id
next_of CounterName.api_key_id = next_api_key_id
