-- ===== src/Traffic/Totals.antt =====
-- The sums of a batch that is merged, anonymized and added up.
use asset_harbor.Base.{ℕ, ◌+◌, ◌≡◌, refl, List, [], ◌∷◌, arith, sum_by, Bool-cases, inl, inr}
use asset_harbor.Model.{Db, TrafficDaily}
use asset_harbor.Traffic.{
  TrafficEvent, resolved, same_key, combined, merge_event, merge_all, row_of, conflicts, added_to,
  upsert, upsert_all, commit_batch,
}

-- The counts that are kept.
pub data Column : Type 0 where
  requests errors bytes_in bytes_out : Column

abbrev pub of_event : Column → TrafficEvent → ℕ
of_event requests e = e.request_count
of_event errors e = e.error_count
of_event bytes_in e = e.request_bytes
of_event bytes_out e = e.response_bytes

abbrev pub of_row : Column → TrafficDaily → ℕ
of_row requests r = r.request_count
of_row errors r = r.error_count
of_row bytes_in r = r.request_bytes
of_row bytes_out r = r.response_bytes

pub combined-total :
    (c : Column) (p e : TrafficEvent) → of_event c (combined p e) ≡ of_event c p + of_event c e
combined-total requests p e = refl
combined-total errors p e = refl
combined-total bytes_in p e = refl
combined-total bytes_out p e = refl

pub added_to-total :
    (c : Column) (now : ℕ) (e : TrafficEvent) (r : TrafficDaily)
    → of_row c (added_to now e r) ≡ of_row c r + of_event c e
added_to-total requests now e r = refl
added_to-total errors now e r = refl
added_to-total bytes_in now e r = refl
added_to-total bytes_out now e r = refl

pub row_of-total :
    (c : Column) (now : ℕ) (e : TrafficEvent) → of_row c (row_of now e) ≡ of_event c e
row_of-total requests now e = refl
row_of-total errors now e = refl
row_of-total bytes_in now e = refl
row_of-total bytes_out now e = refl

pub resolved-total :
    (c : Column) (db : Db) (e : TrafficEvent) → of_event c (resolved db e) ≡ of_event c e
resolved-total requests db e = refl
resolved-total errors db e = refl
resolved-total bytes_in db e = refl
resolved-total bytes_out db e = refl

module _ (c : Column) where
  merge_event-total :
      (e : TrafficEvent) (merged : List TrafficEvent)
      → sum_by (of_event c) (merge_event e merged) ≡ sum_by (of_event c) merged + of_event c e
  unfolding merge_event
  merge_event-total e [] = omega arith
  merge_event-total e (p ∷ merged) = elim (Bool-cases (same_key p e)) [
    | inl same ↦ rw same (let k = combined-total c p e in omega arith)
    | inr other ↦ rw other (let k = merge_event-total e merged in omega arith)
  ]

  merge_all-total :
      (db : Db) (merged events : List TrafficEvent)
      → sum_by (of_event c) (merge_all db merged events)
        ≡ sum_by (of_event c) merged + sum_by (of_event c) events
  unfolding merge_all
  merge_all-total db merged [] = omega arith
  merge_all-total db merged (e ∷ events) =
      let rest = merge_all-total db (merge_event (resolved db e) merged) events in
      let one = merge_event-total (resolved db e) merged in
      let same = resolved-total c db e in omega arith

  upsert-total :
      (now : ℕ) (e : TrafficEvent) (rows : List TrafficDaily)
      → sum_by (of_row c) (upsert now e rows) ≡ sum_by (of_row c) rows + of_event c e
  unfolding upsert
  upsert-total now e [] = let k = row_of-total c now e in omega arith
  upsert-total now e (r ∷ rows) = elim (Bool-cases (conflicts e r)) [
    | inl same ↦ rw same (let k = added_to-total c now e r in omega arith)
    | inr other ↦ rw other (let k = upsert-total now e rows in omega arith)
  ]

  upsert_all-total :
      (now : ℕ) (events : List TrafficEvent) (rows : List TrafficDaily)
      → sum_by (of_row c) (upsert_all now events rows)
        ≡ sum_by (of_row c) rows + sum_by (of_event c) events
  unfolding upsert_all
  upsert_all-total now [] rows = omega arith
  upsert_all-total now (e ∷ events) rows =
      let rest = upsert_all-total now events (upsert now e rows) in
      let one = upsert-total now e rows in omega arith

  -- A batch adds to the totals of the table exactly what its events count: merging events of one
  -- key, taking an account's name away and adding to a row that is there lose nothing and count
  -- nothing twice, for the requests, the errors and the bytes in both directions.
  pub commit_batch-total :
      (now : ℕ) (events : List TrafficEvent) (db : Db)
      → sum_by (of_row c) (commit_batch now events db).traffic_daily
        ≡ sum_by (of_row c) db.traffic_daily + sum_by (of_event c) events
  unfolding commit_batch
  commit_batch-total now events db =
      let table = upsert_all-total now (merge_all db [] events) db.traffic_daily in
      let batch = merge_all-total db [] events in omega arith
