-- ===== src/Uploads/Cancel/Gone.antt =====
-- What a cancelled upload leaves behind.
use asset_harbor.Base.{
  ℕ, String, ◌≡◌, refl, subst, ◌⊎◌, Bool, true, false, not, ◌&&◌, none, some, arith, ok, http,
  >>=-eq-ok, raise_if-eq-ok, ok-injective, or_raise-eq-ok, raise_if, or_raise, ◌==◌, str_eq, eq_iff,
  eq_refl, find-where_none, find-where_same, All, All-of, All-where_pass, Option-cases, inl, inr,
  Bool-cases,
}
use asset_harbor.Base.Text.{Text, text_eq, text_eq_refl}
use asset_harbor.Model.{UploadSession, UploadPart, Principal}
use asset_harbor.Access.{fresh_library_user, has_global_admin_scope, check_team_access}
use asset_harbor.Uploads.Parts.{fresh_upload_session, get_part}
use asset_harbor.Uploads.Cancel.{
  Library, delete_upload_session, cancel_upload_session, destination_of,
}

module _ (code_length : ℕ) (inside : Text → Bool) where
  -- No row of the upload is left, nor its file and the destination that it was being finalized to, if
  -- the file system deletes them; the session, the parts and the file of any other upload are as
  -- they were, and so are the media and every other published file.
  pub record IsGone (upload_id : String) (s s' : Library) : Type 0 where
    pub session : fresh_upload_session s'.db upload_id ≡ none
    pub parts : All (λ (p : UploadPart). str_eq p.upload_id upload_id ≡ false) s'.db.upload_parts
    pub file : s.keeps_directory upload_id ≡ false → s'.part_files upload_id ≡ none
    pub destination :
        (d : Text)
        → destination_of code_length inside (fresh_upload_session s.db upload_id) ≡ some d
        → s.keeps_file d ≡ false
        → s'.published d ≡ none
    pub others :
        (k : String)
        → str_eq upload_id k ≡ false
        → (fresh_upload_session s'.db k ≡ fresh_upload_session s.db k)
          × (s'.part_files k ≡ s.part_files k)
          × ((n : ℕ) → get_part s'.db k n ≡ get_part s.db k n)
    pub media : s'.db.images ≡ s.db.images
    pub media_files :
        (path : Text)
        → ((d : Text)
            → destination_of code_length inside (fresh_upload_session s.db upload_id) ≡ some d
            → text_eq d path ≡ false)
        → s'.published path ≡ s.published path

  delete_upload_session-IsGone :
      (upload_id : String) (s : Library)
      → IsGone upload_id s (delete_upload_session code_length inside upload_id s)
  unfolding delete_upload_session fresh_upload_session get_part
  delete_upload_session-IsGone upload_id s = record {
    session =
        find-where_none (λ (u : UploadSession). str_eq u.upload_id upload_id)
          (λ u. not (str_eq u.upload_id upload_id)) s.db.upload_sessions
          (All-of
            (λ (u : UploadSession).
              str_eq u.upload_id upload_id ≡ true → not (str_eq u.upload_id upload_id) ≡ false)
            (λ u h. ground arith) s.db.upload_sessions);
    parts =
        All-where_pass (λ (p : UploadPart). str_eq p.upload_id upload_id ≡ false)
          (λ p. not (str_eq p.upload_id upload_id)) s.db.upload_parts
          (All-of
            (λ (p : UploadPart).
              not (str_eq p.upload_id upload_id) ≡ true → str_eq p.upload_id upload_id ≡ false)
            (λ p h. ground arith) s.db.upload_parts);
    file = λ deletes. rw (deletes, eq_refl upload_id) refl;
    destination = λ d named deletes. rw (named, text_eq_refl d, deletes) refl;
    others = λ k other. (
      find-where_same (λ (u : UploadSession). str_eq u.upload_id k)
          (λ u. not (str_eq u.upload_id upload_id)) s.db.upload_sessions
          (λ u mine.
            ground (arith, eq_iff u.upload_id k, eq_iff u.upload_id upload_id, eq_iff upload_id k)),
      elim (Bool-cases (s.keeps_directory upload_id)) [
        | inl keeps ↦ rw keeps refl
        | inr deletes ↦ rw (deletes, other) refl
      ],
      λ n.
          find-where_same (λ (p : UploadPart). str_eq p.upload_id k && p.part_number == n)
            (λ p. not (str_eq p.upload_id upload_id)) s.db.upload_parts
            (λ p mine.
              ground
                (arith, eq_iff p.upload_id k, eq_iff p.upload_id upload_id, eq_iff upload_id k)),
    );
    media = refl;
    media_files = λ path apart.
        elim (Option-cases
          (destination_of code_length inside (fresh_upload_session s.db upload_id))) [
            | inl nothing ↦ rw nothing
            | inr (d, named) ↦ let differs = apart d named in rw (named, differs)
          ];
  }

  -- Who may cancel: the fresh row of the request's account is the owner's, or has the global
  -- administrator scope, and may use the upload's team.
  pub record IsAllowed (s : Library) (actor : Principal) (u : UploadSession) (q : Principal)
      : Type 0 where
    pub fresh : fresh_library_user s.db actor ≡ ok q
    pub owns : (u.owner_id ≡ q.user.id) ⊎ (has_global_admin_scope q ≡ true)
    pub in_team : check_team_access s.db u.team_id q ≡ ok tt

  -- A cancellation that succeeds is by the upload's owner or a global administrator, who may use its
  -- team. Then its session and its parts are gone from the database, and its part file and the file
  -- that it was being finalized to are gone if the file system deletes them; the session, parts and
  -- part file of any other upload, the media, and every other published file are as they were.
  pub cancel_upload_session-IsGone :
      (upload_id : String) (actor : Principal) (s s' : Library)
      → cancel_upload_session code_length inside upload_id actor s ≡ ok s'
      → IsGone upload_id s s'
        × (u : UploadSession) × (q : Principal) × (fresh_upload_session s.db upload_id ≡ some u)
        × IsAllowed s actor u q
  unfolding cancel_upload_session
  cancel_upload_session-IsGone upload_id actor s s' e =
      let (u, found, e1) =
        >>=-eq-ok (or_raise (fresh_upload_session s.db upload_id) (http 404)) _ e in
      let (q, fresh, e2) = >>=-eq-ok (fresh_library_user s.db actor) _ e1 in
      let (_, owns, e3) =
        >>=-eq-ok
          (raise_if (not (u.owner_id == q.user.id) && not (has_global_admin_scope q)) (http 404)) _
          e2 in
      let (_, in_team, e4) = >>=-eq-ok (check_team_access s.db u.team_id q) _ e3 in
      let allowed = raise_if-eq-ok _ _ owns in
      (
        subst (IsGone upload_id s) (ok-injective e4) (delete_upload_session-IsGone upload_id s),
        u,
        q,
        or_raise-eq-ok (fresh_upload_session s.db upload_id) (http 404) found,
        record { fresh = fresh; owns = ground arith; in_team = in_team },
      )
