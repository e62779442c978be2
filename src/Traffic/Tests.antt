-- ===== src/Traffic/Tests.antt =====
-- The theorems on traffic at two requests of one account, one of them from before the account was
-- created anew.
use asset_harbor.Base.{ℕ, ◌+◌, ◌≡◌, false, none, some, List, [], ◌∷◌, arith, sum_by, if◌then◌else◌}
use asset_harbor.Base.Text.{codes}
use asset_harbor.Model.{Db, empty_db, Role}
use asset_harbor.Traffic.{TrafficEvent, commit_batch}
use asset_harbor.Traffic.Totals.{requests, of_event}
use asset_harbor.Traffic.Retired.{row_part, is_own, commit_batch-part}
use asset_harbor.Traffic.Worker.{Recorder, event, barrier}

abbrev request : ℕ → TrafficEvent
request created_at = record {
  day = 7;
  user_id = 1;
  api_key_id = 0;
  user_created_at = some created_at;
  api_key_created_at = none;
  route = codes "/i";
  method = codes "GET";
  request_count = 1;
  error_count = 0;
  request_bytes = 0;
  response_bytes = 5;
}

abbrev accounts : Db
accounts = record empty_db {
  users =
      record {
        id = 1;
        username = "alice";
        password_hash = "";
        role = Role.user;
        auth_version = 0;
        created_at = 10;
      }
      ∷ [];
}

abbrev batch : List TrafficEvent
batch = request 10 ∷ request 4 ∷ []

commit_batch-part_example :
    sum_by (row_part requests 1) (commit_batch 99 batch accounts).traffic_daily
    ≡ sum_by (row_part requests 1) accounts.traffic_daily
      + sum_by (λ e. if is_own accounts 1 e then of_event requests e else 0) batch
commit_batch-part_example = commit_batch-part requests 1 99 batch accounts (omega arith)

abbrev waiting : Recorder
waiting = record {
  queue = event (request 10) ∷ event (request 4) ∷ barrier 3 ∷ event (request 10) ∷ [];
  events = [];
  deferred = none;
  db = accounts;
  acknowledged = [];
  stopped = false;
  dropped = 0;
}
