-- ===== src/Traffic/Fifo.antt =====
-- One turn of the writer of traffic over its queue.
use asset_harbor.Base.{ℕ, ◌+◌, ◌≡◌, Option, none, some, List, [], ◌∷◌, ◌++◌, map, sum_by}
use asset_harbor.Model.{Db}
use asset_harbor.Traffic.Totals.{Column, of_event, of_row}
use asset_harbor.Traffic.Worker.{
  Item, event, barrier, stop, Control, to_acknowledge, to_stop, Recorder, Taken,
}

abbrev pub as_items : Option Control → List Item
as_items none = []
as_items (some (to_acknowledge n)) = barrier n ∷ []
as_items (some to_stop) = stop ∷ []

-- Everything that is not worked off, in the order of its arrival: the batch that is retried, the
-- control item behind it, and the queue.
abbrev pub pending : Recorder → List Item
pending s = map event s.events ++ (as_items s.deferred ++ s.queue)

-- What the items of a list count, and the barriers among them.
abbrev pub counted : Column → Item → ℕ
counted c (event e) = of_event c e
counted c (barrier n) = 0
counted c stop = 0

abbrev pub barriers : List Item → List ℕ
barriers [] = []
barriers (event e ∷ items) = barriers items
barriers (barrier n ∷ items) = n ∷ barriers items
barriers (stop ∷ items) = barriers items

abbrev all_of : Taken → List Item
all_of t = map event t.batch ++ (as_items t.control ++ t.rest)

-- A turn works off a first part of what is pending: its events, and no others, are in the table, and
-- its barriers, and no others, are acknowledged.
pub record IsTurn (s s' : Recorder) : Type 0 where
  pub handled : List Item
  pub split : pending s ≡ handled ++ pending s'
  pub counts :
      (c : Column)
      → sum_by (of_row c) s'.db.traffic_daily
        ≡ sum_by (of_row c) s.db.traffic_daily + sum_by (counted c) handled
  pub acknowledged : s'.acknowledged ≡ s.acknowledged ++ barriers handled
  pub dropped : s'.dropped ≡ s.dropped

-- The state before the end of a turn.
abbrev left_over : Recorder → List Item → Db → Recorder
left_over s rest db = record s { queue = rest; events = []; deferred = none; db = db }
