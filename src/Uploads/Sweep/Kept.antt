-- ===== src/Uploads/Sweep/Kept.antt =====
-- What the helpers of the cleanup do to the parts and files of one upload.
use asset_harbor.Base.{
  ℕ, String, Bool, true, false, not, ◌&&◌, ◌||◌, ◌≡◌, refl, sym, subst, ◌∙◌, inl, inr, some, arith,
  ◌==◌, is_some, find-where_same, str_eq, eq_iff, Bool-cases, Option-cases, find_passes,
  find-where_,
}
use asset_harbor.Model.{UploadSession, UploadPart}
use asset_harbor.Uploads.Parts.{fresh_upload_session, get_part, is_active}
use asset_harbor.Uploads.Cancel.{Library}
use asset_harbor.Uploads.Sweep.Apart.{IsApart}
use asset_harbor.Uploads.Sweep.{
  file_size, is_sound_part, cleanup_orphan_parts_candidate, cleanup_upload_directory,
  cleanup_invalid_part_candidate, without_part,
}

-- The session and the file of an upload are as they were, and so is each of its parts, except those
-- of an active session that are not sound.
pub record IsKept (k : String) (u : UploadSession) (s s' : Library) : Type 0 where
  pub session : fresh_upload_session s'.db k ≡ some u
  pub file : s'.part_files k ≡ s.part_files k
  pub parts :
      (n : ℕ) (p : UploadPart)
      → get_part s.db k n ≡ some p
      → (is_active u.status ≡ true → is_sound_part u (file_size (s.part_files k)) p ≡ true)
      → get_part s'.db k n ≡ some p

module _ (k : String) (u : UploadSession) where
  pub IsKept-refl : (s : Library) → fresh_upload_session s.db k ≡ some u → IsKept k u s s
  IsKept-refl s found = record { session = found; file = refl; parts = λ n p there sound. there }

  pub IsKept-trans : (a b c : Library) → IsKept k u a b → IsKept k u b c → IsKept k u a c
  IsKept-trans a b c x y = record {
    session = y.session;
    file = y.file ∙ x.file;
    parts = λ n p there sound.
        y.parts n p (x.parts n p there sound) (λ active. rw (x.file) (sound active));
  }

pub IsApart-IsKept :
    (k : String) (u : UploadSession) (s s' : Library)
    → fresh_upload_session s.db k ≡ some u
    → IsApart k s s'
    → IsKept k u s s'
IsApart-IsKept k u s s' found x = record {
  session = x.session ∙ found;
  file = x.file;
  parts = λ n p there sound. x.parts n ∙ there;
}

module _ (k : String) (u : UploadSession) where
  pub cleanup_orphan_parts_candidate-IsKept :
      (j : String) (s : Library)
      → fresh_upload_session s.db k ≡ some u
      → IsKept k u s (cleanup_orphan_parts_candidate j s)
  unfolding cleanup_orphan_parts_candidate get_part fresh_upload_session
  cleanup_orphan_parts_candidate-IsKept j s found = elim (Bool-cases (str_eq j k)) [
    | inl same ↦
        let mine : j ≡ k = (eq_iff j k).0 same in rw (mine, found) (IsKept-refl k u s found)
    | inr other ↦ elim (Bool-cases (is_some (fresh_upload_session s.db j))) [
      | inl there ↦ rw there (IsKept-refl k u s found)
      | inr absent ↦ rw absent (
          IsApart-IsKept k u s _ found (record {
            session = refl;
            file = refl;
            parts = λ n.
                find-where_same (λ (p : UploadPart). str_eq p.upload_id k && p.part_number == n)
                  (λ p. not (str_eq p.upload_id j)) s.db.upload_parts
                  (λ p mine.
                    ground (arith, eq_iff p.upload_id k, eq_iff p.upload_id j, eq_iff j k));
          }))
    ]
  ]

  pub cleanup_upload_directory-IsKept :
      (move_fails : String → Bool) (j : String) (s : Library)
      → fresh_upload_session s.db k ≡ some u
      → IsKept k u s (cleanup_upload_directory move_fails j s)
  unfolding cleanup_upload_directory
  cleanup_upload_directory-IsKept move_fails j s found = elim (Bool-cases (str_eq j k)) [
    | inl same ↦
        let mine : j ≡ k = (eq_iff j k).0 same in rw (mine, found) (IsKept-refl k u s found)
    | inr other ↦ elim (Bool-cases (is_some (fresh_upload_session s.db j) || move_fails j)) [
      | inl stays ↦ rw stays (IsKept-refl k u s found)
      | inr goes ↦ rw goes (
          IsApart-IsKept k u s _ found
            (record { session = refl; file = rw other refl; parts = λ n. refl }))
    ]
  ]

  -- A part that is deleted is not one that was asked for.
  without_part-IsKept :
      (j : String) (m : ℕ) (s : Library)
      → fresh_upload_session s.db k ≡ some u
      → ((p : UploadPart)
          → str_eq j k ≡ true
          → get_part s.db k m ≡ some p
          → (is_active u.status ≡ true → is_sound_part u (file_size (s.part_files k)) p ≡ true)
          → false ≡ true)
      → IsKept k u s (without_part j m s)
  unfolding get_part fresh_upload_session
  without_part-IsKept j m s found unsound = record {
    session = found;
    file = refl;
    parts = λ n p there sound.
        find-where_ (λ (q : UploadPart). str_eq q.upload_id k && q.part_number == n)
          (λ q. not (str_eq q.upload_id j && q.part_number == m)) s.db.upload_parts p there
          (elim (Bool-cases (str_eq p.upload_id j && p.part_number == m)) [
            | inr other ↦ rw other refl
            | inl hit ↦
                let mine =
                  find_passes (λ (q : UploadPart). str_eq q.upload_id k && q.part_number == n)
                    s.db.upload_parts p there in
                let same : str_eq j k ≡ true =
                  ground (arith, eq_iff p.upload_id k, eq_iff p.upload_id j, eq_iff j k) in
                let number : n ≡ m = ground arith in
                let contra =
                  unsound p same (subst (λ i. get_part s.db k i ≡ some p) number there) sound in
                absurd (ground arith)
          ]);
  }

  pub cleanup_invalid_part_candidate-IsKept :
      (has_directory stat_fails : String → Bool) (j : String) (m : ℕ) (s : Library)
      → fresh_upload_session s.db k ≡ some u
      → IsKept k u s (cleanup_invalid_part_candidate has_directory stat_fails j m s)
  unfolding cleanup_invalid_part_candidate
  cleanup_invalid_part_candidate-IsKept has_directory stat_fails j m s found =
      elim (Option-cases (fresh_upload_session s.db j)) [
        | inl gone ↦ rw (cleanup_invalid_part_candidate, gone) (IsKept-refl k u s found)
        | inr (v, there) ↦
            rw (cleanup_invalid_part_candidate, there)
              (elim (Bool-cases (is_active v.status)) [
                | inr idle ↦ rw idle (IsKept-refl k u s found)
                | inl active ↦ rw active (elim (Option-cases (get_part s.db j m)) [
                  | inl missing ↦ rw missing (IsKept-refl k u s found)
                  | inr (q, part) ↦
                      rw part (elim (Bool-cases (not (has_directory j) || stat_fails j)) [
                        | inl blocked ↦ rw blocked (IsKept-refl k u s found)
                        | inr readable ↦
                            rw readable
                              (elim (Bool-cases (is_sound_part v (file_size (s.part_files j)) q)) [
                                | inl fine ↦ rw fine (IsKept-refl k u s found)
                                | inr bad ↦ rw bad (
                                    without_part-IsKept j m s found (λ p same here sound.
                                      let mine : j ≡ k = (eq_iff j k).0 same in
                                      let uv : some u ≡ some v = sym found ∙ rw (← mine) there in
                                      let pq : some p ≡ some q = sym here ∙ rw (← mine) part in
                                      let uu : u ≡ v = cc in
                                      let pp : p ≡ q = cc in
                                      let good : is_sound_part v (file_size (s.part_files j)) q
                                          ≡ true =
                                        rw (← uu, ← pp, mine) (sound (rw uu active)) in
                                      sym bad ∙ good))
                              ])
                      ])
                ])
              ])
      ]
