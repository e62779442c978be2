-- ===== src/Traffic/Retired.antt =====
-- What a batch adds to the rows of one account.
use asset_harbor.Base.{
  ℕ, ◌+◌, ◌<◌, ◌≡◌, refl, sym, subst, ◌∙◌, Bool, true, false, ◌&&◌, List, [], ◌∷◌, arith, sum_by,
  Bool-cases, Option-cases, inl, inr, if◌then◌else◌, ◌==◌, find, none, some, ltb, opt_eq,
}
use asset_harbor.Model.{Db, User, TrafficDaily}
use asset_harbor.Traffic.{
  TrafficEvent, resolved, resolved_user, same_key, combined, merge_event, merge_all, row_of,
  conflicts, added_to, upsert, upsert_all, commit_batch,
}
use asset_harbor.Traffic.Totals.{
  Column, of_event, of_row, combined-total, added_to-total, row_of-total, resolved-total,
}

-- The event was made by the account with the number, as the database has it now.
abbrev pub is_own : Db → ℕ → TrafficEvent → Bool
is_own db k e = elim (find (λ (u : User). u.id == k) db.users) [
  | none ↦ false
  | some u ↦ e.user_id == k && opt_eq e.user_created_at (some u.created_at)
]

own-same :
    (db : Db) (e : TrafficEvent)
    → 0 < e.user_id
    → (resolved_user db e == e.user_id) ≡ is_own db e.user_id e
unfolding resolved_user
own-same db e pos = elim (Option-cases (find (λ (u : User). u.id == e.user_id) db.users)) [
  | inl gone ↦ rw (resolved_user, gone) (ground arith)
  | inr (u, there) ↦
      rw (resolved_user, there)
        (elim (Bool-cases (opt_eq e.user_created_at (some u.created_at))) [
          | inl made ↦ rw made (ground arith)
          | inr other ↦ rw other (ground arith)
        ])
]

own-other :
    (db : Db) (k : ℕ) (e : TrafficEvent)
    → 0 < k
    → (e.user_id == k) ≡ false
    → ((resolved_user db e == k) ≡ false) × (is_own db k e ≡ false)
unfolding resolved_user
own-other db k e pos other = (
  elim (Option-cases (find (λ (u : User). u.id == e.user_id) db.users)) [
    | inl gone ↦ rw (resolved_user, gone) (ground arith)
    | inr (u, there) ↦
        rw (resolved_user, there)
          (elim (Bool-cases (ltb 0 e.user_id && opt_eq e.user_created_at (some u.created_at))) [
            | inl made ↦ rw made other
            | inr stale ↦ rw stale (ground arith)
          ])
  ],
  elim (Option-cases (find (λ (u : User). u.id == k) db.users)) [
    | inl gone ↦ rw (is_own, gone) refl
    | inr (u, there) ↦ rw (is_own, there, other) refl
  ],
)

-- An event keeps its account exactly where the account is its own.
own-resolved :
    (db : Db) (k : ℕ) (e : TrafficEvent) → 0 < k → (resolved_user db e == k) ≡ is_own db k e
own-resolved db k e pos = elim (Bool-cases (e.user_id == k)) [
  | inr other ↦ let (left, right) = own-other db k e pos other in left ∙ sym right
  | inl mine ↦
      let same : e.user_id ≡ k = ground arith in
      subst (λ n. (resolved_user db e == n) ≡ is_own db n e) same (own-same db e (omega arith))
]

module _ (c : Column) (k : ℕ) where
  abbrev event_part : TrafficEvent → ℕ
  event_part e = if e.user_id == k then of_event c e else 0

  abbrev pub row_part : TrafficDaily → ℕ
  row_part r = if r.user_id == k then of_row c r else 0

  combined-part :
      (p e : TrafficEvent)
      → same_key p e ≡ true
      → event_part (combined p e) ≡ event_part p + event_part e
  combined-part p e same =
      let user : p.user_id ≡ e.user_id = ground arith in
      let total = combined-total c p e in
      elim (Bool-cases (e.user_id == k)) [
        | inl mine ↦ let m : (p.user_id == k) ≡ true = ground arith in rw (mine, m) total
        | inr other ↦ let m : (p.user_id == k) ≡ false = ground arith in rw (other, m) (omega arith)
      ]

  merge_event-part :
      (e : TrafficEvent) (merged : List TrafficEvent)
      → sum_by event_part (merge_event e merged) ≡ sum_by event_part merged + event_part e
  unfolding merge_event
  merge_event-part e [] = omega arith
  merge_event-part e (p ∷ merged) = elim (Bool-cases (same_key p e)) [
    | inl same ↦ rw same (let h = combined-part p e same in omega arith)
    | inr other ↦ rw other (let h = merge_event-part e merged in omega arith)
  ]

  merge_all-part :
      (db : Db) (merged events : List TrafficEvent)
      → sum_by event_part (merge_all db merged events)
        ≡ sum_by event_part merged + sum_by (λ e. event_part (resolved db e)) events
  unfolding merge_all
  merge_all-part db merged [] = omega arith
  merge_all-part db merged (e ∷ events) =
      let rest = merge_all-part db (merge_event (resolved db e) merged) events in
      let one = merge_event-part (resolved db e) merged in omega arith

  added_to-part :
      (now : ℕ) (e : TrafficEvent) (r : TrafficDaily)
      → conflicts e r ≡ true
      → row_part (added_to now e r) ≡ row_part r + event_part e
  added_to-part now e r same =
      let user : r.user_id ≡ e.user_id = ground arith in
      let total = added_to-total c now e r in
      elim (Bool-cases (e.user_id == k)) [
        | inl mine ↦ let m : (r.user_id == k) ≡ true = ground arith in rw (mine, m) total
        | inr other ↦ let m : (r.user_id == k) ≡ false = ground arith in rw (other, m) (omega arith)
      ]

  row_of-part : (now : ℕ) (e : TrafficEvent) → row_part (row_of now e) ≡ event_part e
  row_of-part now e = elim (Bool-cases (e.user_id == k)) [
    | inl mine ↦ rw mine (row_of-total c now e)
    | inr other ↦ rw other refl
  ]

  upsert-part :
      (now : ℕ) (e : TrafficEvent) (rows : List TrafficDaily)
      → sum_by row_part (upsert now e rows) ≡ sum_by row_part rows + event_part e
  unfolding upsert
  upsert-part now e [] = let h = row_of-part now e in omega arith
  upsert-part now e (r ∷ rows) = elim (Bool-cases (conflicts e r)) [
    | inl same ↦ rw same (let h = added_to-part now e r same in omega arith)
    | inr other ↦ rw other (let h = upsert-part now e rows in omega arith)
  ]

  upsert_all-part :
      (now : ℕ) (events : List TrafficEvent) (rows : List TrafficDaily)
      → sum_by row_part (upsert_all now events rows)
        ≡ sum_by row_part rows + sum_by event_part events
  unfolding upsert_all
  upsert_all-part now [] rows = omega arith
  upsert_all-part now (e ∷ events) rows =
      let rest = upsert_all-part now events (upsert now e rows) in
      let one = upsert-part now e rows in omega arith

  resolved-part :
      (db : Db) (events : List TrafficEvent)
      → 0 < k
      → sum_by (λ e. event_part (resolved db e)) events
        ≡ sum_by (λ e. if is_own db k e then of_event c e else 0) events
  resolved-part db [] pos = refl
  resolved-part db (e ∷ events) pos =
      let rest = resolved-part db events pos in
      let total = resolved-total c db e in
      rw (own-resolved db k e pos) (elim (Bool-cases (is_own db k e)) [
        | inl mine ↦ rw mine (omega arith)
        | inr other ↦ rw other (omega arith)
      ])

  -- A batch adds to the rows of an account exactly what those of its events count that were made by
  -- the account as the database has it at the commit: nothing of a request of an account that was
  -- deleted, or deleted and created anew under the same number, is ever put down to that number.
  pub commit_batch-part :
      (now : ℕ) (events : List TrafficEvent) (db : Db)
      → 0 < k
      → sum_by row_part (commit_batch now events db).traffic_daily
        ≡ sum_by row_part db.traffic_daily
          + sum_by (λ e. if is_own db k e then of_event c e else 0) events
  unfolding commit_batch
  commit_batch-part now events db pos =
      let table = upsert_all-part now (merge_all db [] events) db.traffic_daily in
      let batch = merge_all-part db [] events in
      let own = resolved-part db events pos in omega arith
