-- ===== src/Ids/Fresh.antt =====
-- The numbers that the counters give out, and the rows and numbers that came before them.
use asset_harbor.Base.{
  ℕ, ◌+◌, ◌≤◌, ◌<◌, max, ◌≡◌, refl, ap, true, none, List, [], ◌∷◌, ◌++◌, arith, ok, if◌then◌else◌,
  update, is_none, Bool-cases, Option-cases, inl, inr, All, All-above, max_by, sym, ◌∙◌,
}
use asset_harbor.Model.{
  CounterName, RuntimeCounter, Db, User, Team, TeamMember, MediaGroup, ApiKey, TrafficDaily,
}
use asset_harbor.Ids.{
  counter_eq, get_counter, counter_value, put_counter, allocate, next_of, next_id, live_max, Table,
  next_user_id, next_team_id, next_team_member_id, next_media_group_id, next_api_key_id,
  max_safe_json_integer,
}

get_counter_added :
    (name other : CounterName) (r : RuntimeCounter) (l : List RuntimeCounter)
    → r.name ≡ name
    → get_counter name l ≡ none
    → counter_value other (l ++ (r ∷ []))
      ≡ (if counter_eq name other then r.value else counter_value other l)
unfolding counter_value
get_counter_added name other r [] e h = ground arith
get_counter_added name other r (c ∷ l) e h = ground (arith, get_counter_added name other r l e)

counter_eq-eq : (a b : CounterName) → counter_eq a b ≡ true → a ≡ b
counter_eq-eq a b h = ground arith

counter_value-update :
    (name other : CounterName) (v now : ℕ) (l : List RuntimeCounter)
    → counter_value other
        (update (λ c. counter_eq c.name name) (λ c. record c { value = v; updated_at = now }) l)
      ≡ (if counter_eq name other
          then (if is_none (get_counter name l) then 0 else v)
          else counter_value other l)
unfolding counter_value
counter_value-update name other v now [] = ground arith
counter_value-update name other v now (c ∷ l) = elim (Bool-cases (counter_eq c.name name)) [
  | inl hit ↦ rw hit (ground (arith, counter_value-update name other v now l))
  | inr miss ↦ rw miss (ground (arith, counter_value-update name other v now l))
]

-- A counter that is written is read back, and the others are untouched.
pub counter_value-put_counter :
    (name other : CounterName) (v now : ℕ) (l : List RuntimeCounter)
    → counter_value other (put_counter name v now l)
      ≡ (if counter_eq name other then v else counter_value other l)
unfolding put_counter
counter_value-put_counter name other v now l = elim (Option-cases (get_counter name l)) [
  | inl new ↦ ground (
    arith,
    get_counter_added name other (record { name = name; value = v; updated_at = now }) l refl new,
  )
  | inr (c, old) ↦ ground (arith, counter_value-update name other v now l)
]

-- What one allocation promises.
pub record IsAllocated (name : CounterName) (live_max id : ℕ) (before after : Db) : Type 0 where
  pub above_live : live_max < id
  pub above_counter : counter_value name before.runtime_counters < id
  pub recorded : counter_value name after.runtime_counters ≡ id
  pub safe : id ≤ max_safe_json_integer

pub allocate-IsAllocated :
    (name : CounterName) (live_max now id : ℕ) (db db' : Db)
    → allocate name live_max now db ≡ ok (id, db')
    → IsAllocated name live_max id db db'
unfolding allocate
allocate-IsAllocated name live_max now id db db' h =
    let n = max live_max (counter_value name db.runtime_counters) + 1 in
    let put = counter_value-put_counter name name n now db.runtime_counters in
    record {
      above_live = ground arith;
      above_counter = ground arith;
      recorded = ground (arith, put);
      safe = ground arith;
    }

pub allocate-counter_le :
    (name other : CounterName) (live_max now id : ℕ) (db db' : Db)
    → allocate name live_max now db ≡ ok (id, db')
    → counter_value other db.runtime_counters ≤ counter_value other db'.runtime_counters
unfolding allocate
allocate-counter_le name other live_max now id db db' h =
    let n = max live_max (counter_value name db.runtime_counters) + 1 in
    ground (
      arith,
      counter_value-put_counter name other n now db.runtime_counters,
      counter_eq-eq name other,
      ap (λ (k : CounterName). counter_value k db.runtime_counters),
    )

-- An allocation writes the counters only.
pub allocate_writes :
    (name : CounterName) (live_max now id : ℕ) (db db' : Db)
    → allocate name live_max now db ≡ ok (id, db')
    → db' ≡ record db { runtime_counters = db'.runtime_counters }
unfolding allocate
allocate_writes name live_max now id db db' h = ground arith

-- Which number each function starts from.
next_of-allocate :
    (name : CounterName) (now : ℕ) (db : Db)
    → (found : ℕ) × (next_of name now db ≡ allocate name found now db)
unfolding next_user_id next_team_id next_team_member_id next_media_group_id next_api_key_id next_id
next_of-allocate CounterName.user_id now db = (live_max Table.user db, refl)
next_of-allocate CounterName.team_id now db = (live_max Table.team db, refl)
next_of-allocate CounterName.team_member_id now db = (live_max Table.team_member db, refl)
next_of-allocate CounterName.media_group_id now db = (live_max Table.media_group db, refl)
next_of-allocate CounterName.api_key_id now db = (_, refl)

-- Every row of the table, for keys also of the traffic history, has a smaller number.
abbrev pub IsAbove : CounterName → Db → ℕ → Type 0
IsAbove CounterName.user_id db id = All (λ (u : User). u.id < id) db.users
IsAbove CounterName.team_id db id = All (λ (t : Team). t.id < id) db.teams
IsAbove CounterName.team_member_id db id = All (λ (m : TeamMember). m.id < id) db.team_members
IsAbove CounterName.media_group_id db id = All (λ (g : MediaGroup). g.id < id) db.media_groups
IsAbove CounterName.api_key_id db id =
    All (λ (k : ApiKey). k.id < id) db.api_keys
    × All (λ (r : TrafficDaily). r.api_key_id < id) db.traffic_daily

next_of-IsAbove :
    (name : CounterName) (now id : ℕ) (db db' : Db)
    → next_of name now db ≡ ok (id, db')
    → IsAbove name db id
unfolding next_user_id next_team_id next_team_member_id next_media_group_id next_api_key_id next_id
    live_max
next_of-IsAbove CounterName.user_id now id db db' h =
    All-above (λ (u : User). u.id) id db.users
      (allocate-IsAllocated CounterName.user_id _ now id db db' h).above_live
next_of-IsAbove CounterName.team_id now id db db' h =
    All-above (λ (t : Team). t.id) id db.teams
      (allocate-IsAllocated CounterName.team_id _ now id db db' h).above_live
next_of-IsAbove CounterName.team_member_id now id db db' h =
    All-above (λ (m : TeamMember). m.id) id db.team_members
      (allocate-IsAllocated CounterName.team_member_id _ now id db db' h).above_live
next_of-IsAbove CounterName.media_group_id now id db db' h =
    All-above (λ (g : MediaGroup). g.id) id db.media_groups
      (allocate-IsAllocated CounterName.media_group_id _ now id db db' h).above_live
next_of-IsAbove CounterName.api_key_id now id db db' h =
    let live = max_by (λ (k : ApiKey). k.id) db.api_keys in
    let historical = max_by (λ (r : TrafficDaily). r.api_key_id) db.traffic_daily in
    let above =
      (allocate-IsAllocated CounterName.api_key_id (max live historical) now id db db'
        h).above_live in
    (
      All-above (λ (k : ApiKey). k.id) id db.api_keys (omega arith),
      All-above (λ (r : TrafficDaily). r.api_key_id) id db.traffic_daily (omega arith),
    )

-- What a number that a counter gives out is.
pub record IsNew (name : CounterName) (id : ℕ) (before after : Db) : Type 0 where
  pub above_rows : IsAbove name before id
  pub above_counter : counter_value name before.runtime_counters < id
  pub recorded : counter_value name after.runtime_counters ≡ id
  pub safe : id ≤ max_safe_json_integer

-- A number that is given out for a user, a team, a member, a group or a key is above every number in
-- its table, for a key also above those in the traffic history, and above the counter; it is the
-- counter's value afterwards, and a safe integer of JSON.
pub next_id-IsNew :
    (name : CounterName) (now id : ℕ) (db db' : Db)
    → next_of name now db ≡ ok (id, db')
    → IsNew name id db db'
next_id-IsNew name now id db db' h =
    let (found, same) = next_of-allocate name now db in
    let made = allocate-IsAllocated name found now id db db' (sym same ∙ h) in
    record {
      above_rows = next_of-IsAbove name now id db db' h;
      above_counter = made.above_counter;
      recorded = made.recorded;
      safe = made.safe;
    }

-- What may happen to the database between two allocations: an allocation from any counter, or any
-- change of the tables, deletions included, that leaves the counters alone.
pub data Later : Db → Db → Type 0 where
  here : {a : Db} → Later a a
  changed : {a b : Db} (c : Db) → Later a b → c.runtime_counters ≡ b.runtime_counters → Later a c
  allocated :
      {a b : Db} (name : CounterName) (now id : ℕ) (c : Db)
      → Later a b
      → next_of name now b ≡ ok (id, c)
      → Later a c

-- No counter ever falls.
Later-counter_le :
    (name : CounterName) {a b : Db}
    → Later a b
    → counter_value name a.runtime_counters ≤ counter_value name b.runtime_counters
Later-counter_le name here = omega arith
Later-counter_le name (changed c l e) = rw e (Later-counter_le name l)
Later-counter_le name (allocated {b = b} n t id c l h) =
    let (found, same) = next_of-allocate n t b in
    omega (arith, Later-counter_le name l, allocate-counter_le n name found t id b c (sym same ∙ h))

-- A number that a counter gives out is larger than every number that it gave out before, whatever
-- rows were deleted and whatever was allocated from other counters in between.
pub next_id-increasing :
    (name : CounterName) (now id now' id' : ℕ) (a b c d : Db)
    → next_of name now a ≡ ok (id, b)
    → Later b c
    → next_of name now' c ≡ ok (id', d)
    → id < id'
next_id-increasing name now id now' id' a b c d first between second = omega (
  arith,
  (next_id-IsNew name now id a b first).recorded,
  Later-counter_le name between,
  (next_id-IsNew name now' id' c d second).above_counter,
)
