-- ===== src/Traffic.antt =====
-- API traffic: app/services/traffic.py. A day is a number, the clock and today are arguments, and
-- the instants of creation, which the code compares as ISO texts, are numbers. The queue and the
-- worker's variables are one record; `dropped` is `_dropped_events`. Logging, the back-off between
-- attempts and the time limits of waiting are left out.
pub mod Totals
pub mod Retired
pub mod Worker
pub mod Fifo
mod Tests
use asset_harbor.Base.{
  ℕ, zero, suc, ◌+◌, ◌-◌, ◌≤◌, Bool, true, false, not, ◌&&◌, ◌||◌, Option, none, some, List, [],
  ◌∷◌, ◌++◌, map, ltb, leb, ◌==◌, opt_eq, is_none, is_some, if◌then◌else◌, where_, find, any,
  length, take,
}
use asset_harbor.Base.Text.{Text, codes, text_eq}
use asset_harbor.Model.{Db, Settings, User, ApiKey, TrafficDaily}

pub record TrafficEvent : Type 0 where
  pub day : ℕ
  pub user_id : ℕ
  pub api_key_id : ℕ
  pub user_created_at : Option ℕ
  pub api_key_created_at : Option ℕ
  pub route : Text
  pub method : Text
  pub request_count : ℕ
  pub error_count : ℕ
  pub request_bytes : ℕ
  pub response_bytes : ℕ

-- The arguments of `record_traffic`; numbers below zero count as zero.
pub record Call : Type 0 where
  pub user_id : Option ℕ
  pub api_key_id : Option ℕ
  pub user_created_at : Option ℕ
  pub api_key_created_at : Option ℕ
  pub route : Text
  pub method : Text
  pub status_code : ℕ
  pub request_bytes : ℕ
  pub response_bytes : ℕ

-- `str.upper` on the ASCII letters; a method with other letters is not tracked in either case.
abbrev pub upper : Text → Text
upper = map (λ c. if leb b'a' c && leb c b'z' then c - 32 else c)

-- `_TRACKED_METHODS`
abbrev pub tracked_methods : List Text
tracked_methods =
    codes "GET"
    ∷ codes "POST"
    ∷ codes "PUT"
    ∷ codes "PATCH"
    ∷ codes "DELETE"
    ∷ codes "HEAD"
    ∷ codes "OPTIONS"
    ∷ []

unfoldable pub normalized_method : Text → Text
normalized_method method =
    if any (λ m. text_eq m (upper method)) tracked_methods then upper method else codes "OTHER"

abbrev pub or_zero : Option ℕ → ℕ
or_zero none = 0
or_zero (some n) = n

abbrev pub route_of : Text → Text
route_of [] = codes "unknown"
route_of (c ∷ s) = take 160 (c ∷ s)

-- The event that `record_traffic` makes.
unfoldable pub event_of : ℕ → Call → TrafficEvent
event_of today c = record {
  day = today;
  user_id = or_zero c.user_id;
  api_key_id = or_zero c.api_key_id;
  user_created_at = c.user_created_at;
  api_key_created_at = c.api_key_created_at;
  route = route_of c.route;
  method = normalized_method c.method;
  request_count = 1;
  error_count = if leb 400 c.status_code then 1 else 0;
  request_bytes = c.request_bytes;
  response_bytes = c.response_bytes;
}

-- The account of an event, if it is still the one that made the request; else nobody's.
unfoldable pub resolved_user : Db → TrafficEvent → ℕ
resolved_user db e = elim (find (λ (u : User). u.id == e.user_id) db.users) [
  | none ↦ 0
  | some u ↦
      if ltb 0 e.user_id && opt_eq e.user_created_at (some u.created_at) then e.user_id else 0
]

-- Whether the key of an event is the user's own or is gone.
unfoldable pub names_key : Db → ℕ → TrafficEvent → Bool
names_key db user_id e = elim (find (λ (k : ApiKey). k.id == e.api_key_id) db.api_keys) [
  | none ↦ true
  | some k ↦ k.user_id == user_id && opt_eq e.api_key_created_at (some k.created_at)
]

unfoldable pub resolved_key : Db → ℕ → TrafficEvent → ℕ
resolved_key db user_id e =
    if ltb 0 user_id && is_some e.api_key_created_at && names_key db user_id e
    then e.api_key_id
    else 0

abbrev pub resolved : Db → TrafficEvent → TrafficEvent
resolved db e = record e {
  user_id = resolved_user db e;
  api_key_id = resolved_key db (resolved_user db e) e;
}

abbrev pub same_key : TrafficEvent → TrafficEvent → Bool
same_key p e =
    p.day == e.day
    && p.user_id == e.user_id
    && p.api_key_id == e.api_key_id
    && text_eq p.route e.route
    && text_eq p.method e.method

abbrev pub combined : TrafficEvent → TrafficEvent → TrafficEvent
combined p e = record e {
  request_count = p.request_count + e.request_count;
  error_count = p.error_count + e.error_count;
  request_bytes = p.request_bytes + e.request_bytes;
  response_bytes = p.response_bytes + e.response_bytes;
}

-- `merged[key] = …`, where a key keeps the place it has.
unfoldable pub merge_event : TrafficEvent → List TrafficEvent → List TrafficEvent
merge_event e [] = e ∷ []
merge_event e (p ∷ merged) =
    let rest = merge_event e merged in if same_key p e then combined p e ∷ merged else p ∷ rest

unfoldable pub merge_all : Db → List TrafficEvent → List TrafficEvent → List TrafficEvent
merge_all db merged [] = merged
merge_all db merged (e ∷ events) = merge_all db (merge_event (resolved db e) merged) events

abbrev pub row_of : ℕ → TrafficEvent → TrafficDaily
row_of now e = record {
  day = e.day;
  user_id = e.user_id;
  api_key_id = e.api_key_id;
  route = e.route;
  method = e.method;
  request_count = e.request_count;
  error_count = e.error_count;
  request_bytes = e.request_bytes;
  response_bytes = e.response_bytes;
  created_at = now;
  updated_at = now;
}

abbrev pub conflicts : TrafficEvent → TrafficDaily → Bool
conflicts e r =
    r.day == e.day
    && r.user_id == e.user_id
    && r.api_key_id == e.api_key_id
    && text_eq r.route e.route
    && text_eq r.method e.method

abbrev pub added_to : ℕ → TrafficEvent → TrafficDaily → TrafficDaily
added_to now e r = record r {
  request_count = r.request_count + e.request_count;
  error_count = r.error_count + e.error_count;
  request_bytes = r.request_bytes + e.request_bytes;
  response_bytes = r.response_bytes + e.response_bytes;
  updated_at = now;
}

-- `INSERT … ON CONFLICT DO UPDATE` over the unique key
unfoldable pub upsert : ℕ → TrafficEvent → List TrafficDaily → List TrafficDaily
upsert now e [] = row_of now e ∷ []
upsert now e (r ∷ rows) =
    let rest = upsert now e rows in if conflicts e r then added_to now e r ∷ rows else r ∷ rest

unfoldable pub upsert_all : ℕ → List TrafficEvent → List TrafficDaily → List TrafficDaily
upsert_all now [] rows = rows
upsert_all now (e ∷ events) rows = upsert_all now events (upsert now e rows)

-- `_commit_batch_under_lease`
unfoldable pub commit_batch : ℕ → List TrafficEvent → Db → Db
commit_batch now events db = record db {
  traffic_daily = upsert_all now (merge_all db [] events) db.traffic_daily;
}

-- `_prune_expired_traffic`, when it is due
unfoldable pub prune_expired_traffic : Settings → ℕ → Db → Db
prune_expired_traffic settings today db = record db {
  traffic_daily =
      where_ (λ (r : TrafficDaily). leb (today - (settings.traffic_retention_days - 1)) r.day)
        db.traffic_daily;
}
