-- ===== src/Ids/Tests.antt =====
-- The theorems on numbers at two teams that are created, the first deleted before the second.
use asset_harbor.Base.{ℕ, ◌≡◌, ◌<◌, refl, [], ◌∷◌, ok}
use asset_harbor.Model.{CounterName, Db, Team, empty_db}
use asset_harbor.Ids.{
  next_id, next_team_id, allocate, live_max, counter_value, get_counter, put_counter,
}
use asset_harbor.Ids.Fresh.{IsNew, next_id-IsNew, next_id-increasing, Later}

abbrev old_team : Team
old_team = record { id = 4; name = "red"; description = ""; owner_id = 1; created_at = 5 }

abbrev before : Db
before = record empty_db { teams = old_team ∷ [] }

abbrev counted_db : ℕ → ℕ → Db → Db
counted_db n now db = record db {
  runtime_counters = record { name = CounterName.team_id; value = n; updated_at = now } ∷ [];
}

first_team : next_team_id 100 before ≡ ok (5, counted_db 5 100 before)
unfolding next_team_id next_id allocate live_max counter_value get_counter put_counter
first_team = refl

second_team : next_team_id 200 (counted_db 5 100 empty_db) ≡ ok (6, counted_db 6 200 empty_db)
unfolding next_team_id next_id allocate live_max counter_value get_counter put_counter
second_team = refl

next_id-IsNew_example : IsNew CounterName.team_id 5 before (counted_db 5 100 before)
next_id-IsNew_example =
    next_id-IsNew CounterName.team_id 100 5 before (counted_db 5 100 before) first_team

teams_deleted : Later (counted_db 5 100 before) (counted_db 5 100 empty_db)
teams_deleted = Later.changed (counted_db 5 100 empty_db) Later.here refl

next_id-increasing_example : 5 < 6
next_id-increasing_example =
    next_id-increasing CounterName.team_id 100 5 200 6 before (counted_db 5 100 before)
      (counted_db 5 100 empty_db) (counted_db 6 200 empty_db) first_team teams_deleted second_team
