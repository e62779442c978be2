-- ===== src/Uploads/Sweep/Live.antt =====
-- The cleanup of uploads, one helper after the other, and an upload that has not expired.
use asset_harbor.Base.{
  ℕ, String, Bool, true, false, not, ◌&&◌, ◌||◌, ◌≡◌, inl, inr, some, List, [], ◌∷◌, arith, ltb,
  str_eq, eq_iff, Bool-cases, Option-cases, Result, ok, err,
}
use asset_harbor.Base.Text.{Text}
use asset_harbor.Model.{UploadSession}
use asset_harbor.Uploads.Create.{World}
use asset_harbor.Uploads.Parts.{fresh_upload_session, is_active}
use asset_harbor.Uploads.Cancel.{Library, is_finalizing}
use asset_harbor.Uploads.Finalize.{is_verifying}
use asset_harbor.Uploads.Sweep.Apart.{recovered_first-IsApart, delete_upload_session-IsApart}
use asset_harbor.Uploads.Sweep.{
  Candidates, cleanup_orphan_parts_candidate, cleanup_upload_directory,
  cleanup_invalid_part_candidate, recovered_first, removed_if_expired, checked_again,
  cleanup_expired_candidate, cleanup_invalid_session_candidate, each, each_silent,
  cleanup_candidates, removed,
}
use asset_harbor.Uploads.Sweep.Kept.{
  IsKept, IsKept-refl, IsKept-trans, IsApart-IsKept, cleanup_orphan_parts_candidate-IsKept,
  cleanup_upload_directory-IsKept, cleanup_invalid_part_candidate-IsKept,
}

-- Helpers that keep an upload keep it one after the other.
module _ {A : Type 0} (k : String) (u : UploadSession) where
  each-IsKept :
      (step : A → Library → Library × Bool)
      → ((x : A) (s : Library) → fresh_upload_session s.db k ≡ some u → IsKept k u s (step x s).0)
      → (l : List A) (s : Library) → fresh_upload_session s.db k ≡ some u
      → IsKept k u s (each step l s).0
  unfolding each
  each-IsKept step keeps [] s found = IsKept-refl k u s found
  each-IsKept step keeps (x ∷ l) s found =
      let first = keeps x s found in
      IsKept-trans k u s (step x s).0 (each step l (step x s).0).0 first
        (each-IsKept step keeps l (step x s).0 first.session)

  each_silent-IsKept :
      (step : A → Library → Library)
      → ((x : A) (s : Library) → fresh_upload_session s.db k ≡ some u → IsKept k u s (step x s))
      → (l : List A) (s : Library) → fresh_upload_session s.db k ≡ some u
      → IsKept k u s (each_silent step l s)
  unfolding each_silent
  each_silent-IsKept step keeps [] s found = IsKept-refl k u s found
  each_silent-IsKept step keeps (x ∷ l) s found =
      let first = keeps x s found in
      IsKept-trans k u s (step x s) (each_silent step l (step x s)) first
        (each_silent-IsKept step keeps l (step x s) first.session)

module _ (code_length : ℕ) (inside : Text → Bool) (has_directory : String → Bool) (k : String)
    (u : UploadSession) where
  removed-IsKept :
      (j : String) (s : Library)
      → str_eq j k ≡ false
      → fresh_upload_session s.db k ≡ some u
      → IsKept k u s (removed code_length inside j s).0
  removed-IsKept j s other found =
      IsApart-IsKept k u s _ found (delete_upload_session-IsApart code_length inside k j s other)

  removed_if_expired-IsKept :
      (w : World) (j : String) (s : Library)
      → str_eq j k ≡ false
      → fresh_upload_session s.db k ≡ some u
      → IsKept k u s (removed_if_expired code_length inside w j s).0
  unfolding removed_if_expired
  removed_if_expired-IsKept w j s other found = elim (Option-cases (fresh_upload_session s.db j)) [
    | inl gone ↦ rw (removed_if_expired, gone) (IsKept-refl k u s found)
    | inr (v, there) ↦
        rw (removed_if_expired, there)
          (elim (Bool-cases (ltb w.now v.expires_at)) [
            | inl live ↦ rw live (IsKept-refl k u s found)
            | inr late ↦ rw late (removed-IsKept j s other found)
          ])
  ]

  checked_again-IsKept :
      (w : World) (j : String) (r : Library × Result (Unit {0}))
      → str_eq j k ≡ false
      → fresh_upload_session r.0.db k ≡ some u
      → IsKept k u r.0 (checked_again code_length inside w j r).0
  unfolding checked_again
  checked_again-IsKept w j (s, err e) other found = IsKept-refl k u s found
  checked_again-IsKept w j (s, ok x) other found = removed_if_expired-IsKept w j s other found

  -- The removal of another upload, recovered before or not.
  retired-IsKept :
      (w : World) (failing : Bool × Bool) (j : String) (v : UploadSession) (s : Library)
      → str_eq j k ≡ false
      → fresh_upload_session s.db k ≡ some u
      → IsKept k u s
          (checked_again code_length inside w j
            (recovered_first code_length inside w failing j v s)).0
  retired-IsKept w failing j v s other found =
      let r = recovered_first code_length inside w failing j v s in
      let first =
        IsApart-IsKept k u s r.0 found
          (recovered_first-IsApart code_length inside k j w failing v s other) in
      IsKept-trans k u s r.0 (checked_again code_length inside w j r).0 first
        (checked_again-IsKept w j r other first.session)

  other_expired-IsKept :
      (w : World) (failing : Bool × Bool) (j : String) (s : Library)
      → str_eq j k ≡ false
      → fresh_upload_session s.db k ≡ some u
      → IsKept k u s (cleanup_expired_candidate code_length inside has_directory w failing j s).0
  unfolding cleanup_expired_candidate checked_again removed_if_expired recovered_first
  other_expired-IsKept w failing j s other found =
      elim (Option-cases (fresh_upload_session s.db j)) [
        | inl gone ↦ rw (cleanup_expired_candidate, gone) (IsKept-refl k u s found)
        | inr (v, there) ↦
            rw (cleanup_expired_candidate, there)
              (elim (Bool-cases (ltb w.now v.expires_at)) [
                | inl live ↦ rw live (IsKept-refl k u s found)
                | inr late ↦ rw late (elim (Bool-cases (has_directory j)) [
                  | inr unsafe ↦ rw unsafe (removed-IsKept j s other found)
                  | inl safe ↦
                      rw safe (elim (Bool-cases (is_verifying v.status || is_finalizing v.status)) [
                        | inr idle ↦ rw idle (removed-IsKept j s other found)
                        | inl busy ↦ rw busy (retired-IsKept w failing j v s other found)
                      ])
                ])
              ])
      ]

  cleanup_expired_candidate-IsKept :
      (w : World) (failing : Bool × Bool) (j : String) (s : Library)
      → ltb w.now u.expires_at ≡ true
      → fresh_upload_session s.db k ≡ some u
      → IsKept k u s (cleanup_expired_candidate code_length inside has_directory w failing j s).0
  unfolding cleanup_expired_candidate
  cleanup_expired_candidate-IsKept w failing j s live found = elim (Bool-cases (str_eq j k)) [
    | inr other ↦ other_expired-IsKept w failing j s other found
    | inl same ↦
        let mine : j ≡ k = (eq_iff j k).0 same in
        rw (mine, cleanup_expired_candidate, found) (rw live (IsKept-refl k u s found))
  ]

  cleanup_invalid_session_candidate-IsKept :
      (j : String) (s : Library)
      → has_directory k ≡ true
      → fresh_upload_session s.db k ≡ some u
      → IsKept k u s (cleanup_invalid_session_candidate code_length inside has_directory j s).0
  unfolding cleanup_invalid_session_candidate
  cleanup_invalid_session_candidate-IsKept j s safe found =
      elim (Option-cases (fresh_upload_session s.db j)) [
        | inl gone ↦ rw (cleanup_invalid_session_candidate, gone) (IsKept-refl k u s found)
        | inr (v, there) ↦
            rw (cleanup_invalid_session_candidate, there)
              (elim (Bool-cases (is_active v.status && not (has_directory j))) [
                | inr stays ↦ rw stays (IsKept-refl k u s found)
                | inl goes ↦
                    let other : str_eq j k ≡ false = elim (Bool-cases (str_eq j k)) [
                      | inr differs ↦ differs
                      | inl same ↦
                          let safe_j : has_directory j ≡ true = rw ((eq_iff j k).0 same) safe in
                          absurd (ground arith)
                    ] in
                    rw goes (removed-IsKept j s other found)
              ])
      ]

module _ (code_length : ℕ) (inside : Text → Bool)
    (has_directory stat_fails move_fails : String → Bool) (failing : String → Bool × Bool) where
  -- Whatever candidates a cleanup acts on, an upload that has not expired and whose identifier is
  -- safe keeps its session, its file and its parts, except parts of an active session whose columns
  -- or part file contradict their number.
  pub cleanup_candidates-IsKept :
      (w : World) (c : Candidates) (s : Library) (k : String) (u : UploadSession)
      → fresh_upload_session s.db k ≡ some u
      → ltb w.now u.expires_at ≡ true
      → has_directory k ≡ true
      → IsKept k u s
          (cleanup_candidates code_length inside has_directory stat_fails move_fails failing w c
            s).0
  unfolding cleanup_candidates
  cleanup_candidates-IsKept w c s k u found live safe =
      let a =
        each-IsKept k u
          (λ j. cleanup_expired_candidate code_length inside has_directory w (failing j) j)
          (λ j t h.
            cleanup_expired_candidate-IsKept code_length inside has_directory k u w (failing j) j t
              live h)
          c.expired s found in
      let b =
        each-IsKept k u (cleanup_invalid_session_candidate code_length inside has_directory)
          (λ j t h.
            cleanup_invalid_session_candidate-IsKept code_length inside has_directory k u j t safe
              h)
          c.invalid_sessions _ a.session in
      let d =
        each_silent-IsKept k u cleanup_orphan_parts_candidate
          (cleanup_orphan_parts_candidate-IsKept k u) c.orphan_parts _ b.session in
      let e =
        each_silent-IsKept k u
          (λ (part : String × ℕ).
            cleanup_invalid_part_candidate has_directory stat_fails part.0 part.1)
          (λ part t h.
            cleanup_invalid_part_candidate-IsKept k u has_directory stat_fails part.0 part.1 t h)
          c.invalid_parts _ d.session in
      let f =
        each_silent-IsKept k u (cleanup_upload_directory move_fails)
          (cleanup_upload_directory-IsKept k u move_fails) c.directories _ e.session in
      IsKept-trans k u _ _ _
        (IsKept-trans k u _ _ _ (IsKept-trans k u _ _ _ (IsKept-trans k u _ _ _ a b) d) e) f
