-- ===== src/Traffic/Worker.antt =====
-- The queue and the writer thread of app/services/traffic.py: `record_traffic`, `flush_traffic`,
-- `shutdown_traffic_recorder` and one turn of the loop of `_worker_loop`, in which the commit of a
-- batch may fail. A barrier is known by a number, and `acknowledged` holds those that are set.
use asset_harbor.Base.{
  ℕ, zero, suc, ◌+◌, ◌-◌, Bool, true, Option, none, some, List, [], ◌∷◌, ◌++◌, ltb, length,
  if◌then◌else◌,
}
use asset_harbor.Model.{Db}
use asset_harbor.Traffic.{TrafficEvent, Call, event_of, commit_batch}

-- What stands in the queue.
pub data Item : Type 0 where
  event : TrafficEvent → Item
  barrier : ℕ → Item
  stop : Item

-- A control item: anything but an event.
pub data Control : Type 0 where
  to_acknowledge : ℕ → Control
  to_stop : Control

pub record Recorder : Type 0 where
  pub queue : List Item
  pub events : List TrafficEvent
  pub deferred : Option Control
  pub db : Db
  pub acknowledged : List ℕ
  pub stopped : Bool
  pub dropped : ℕ

-- `_QUEUE_LIMIT` and `_BATCH_LIMIT`
abbrev pub queue_limit : ℕ
queue_limit = 100000

abbrev pub batch_limit : ℕ
batch_limit = 512

-- `record_traffic`: a full queue drops the event and counts it.
unfoldable pub record_traffic : ℕ → Call → Recorder → Recorder
record_traffic today c s =
    if ltb (length s.queue) queue_limit
    then record s { queue = s.queue ++ (event (event_of today c) ∷ []) }
    else record s { dropped = s.dropped + 1 }

-- The barrier of `flush_traffic`, and the stop of `shutdown_traffic_recorder` after it; where the
-- queue stays full for the whole budget, nothing is put.
unfoldable pub put_control : Item → Recorder → Recorder
put_control item s =
    if ltb (length s.queue) queue_limit then record s { queue = s.queue ++ (item ∷ []) } else s

-- What a turn has taken: a batch, the control item after it, and the rest of the queue.
pub record Taken : Type 0 where
  pub batch : List TrafficEvent
  pub control : Option Control
  pub rest : List Item

-- `get_nowait` until the batch is full, the queue is empty or a control item comes.
unfoldable pub drain : ℕ → List TrafficEvent → List Item → Taken
drain zero batch queue = record { batch = batch; control = none; rest = queue }
drain (suc room) batch [] = record { batch = batch; control = none; rest = [] }
drain (suc room) batch (event e ∷ queue) = drain room (batch ++ (e ∷ [])) queue
drain (suc room) batch (barrier n ∷ queue) = record {
  batch = batch;
  control = some (to_acknowledge n);
  rest = queue;
}
drain (suc room) batch (stop ∷ queue) = record {
  batch = batch;
  control = some to_stop;
  rest = queue;
}

abbrev pub take_next : List Item → Taken
take_next [] = record { batch = []; control = none; rest = [] }
take_next (event e ∷ queue) = drain (batch_limit - 1) (e ∷ []) queue
take_next (barrier n ∷ queue) = record {
  batch = [];
  control = some (to_acknowledge n);
  rest = queue;
}
take_next (stop ∷ queue) = record { batch = []; control = some to_stop; rest = queue }

-- The item of a turn: the deferred one, none while a batch is retried, or the next of the queue.
unfoldable pub take_item : List TrafficEvent → Option Control → List Item → Taken
take_item events (some control) queue = record {
  batch = events;
  control = some control;
  rest = queue;
}
take_item [] none queue = take_next queue
take_item (e ∷ events) none queue = record { batch = e ∷ events; control = none; rest = queue }

-- The end of a turn whose batch, if any, is committed.
unfoldable pub end_turn : Option Control → Recorder → Recorder
end_turn none s = s
end_turn (some (to_acknowledge n)) s = record s { acknowledged = s.acknowledged ++ (n ∷ []) }
end_turn (some to_stop) s = record s { stopped = true }

-- A turn from the item on; a batch whose commit fails is kept, with the control item behind it.
unfoldable pub work_off :
    ℕ → Bool → List TrafficEvent → Option Control → List Item → Recorder → Recorder
work_off now fails [] control rest s =
    end_turn control (record s { queue = rest; events = []; deferred = none })
work_off now fails (e ∷ batch) control rest s =
    if fails
    then record s { queue = rest; events = e ∷ batch; deferred = control }
    else end_turn control (record s {
      queue = rest;
      events = [];
      deferred = none;
      db = commit_batch now (e ∷ batch) s.db;
    })

-- One turn, at a time and with a commit that fails or not.
unfoldable pub worker_turn : ℕ → Bool → Recorder → Recorder
worker_turn now fails s =
    let taken = take_item s.events s.deferred s.queue in
    work_off now fails taken.batch taken.control taken.rest s
