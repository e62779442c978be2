-- ===== src/Uploads/Complete/Atomic.antt =====
-- A run of the second phase that dies after the commit of its metadata, and recovery.
use asset_harbor.Base.{
  ℕ, String, Bool, true, false, ◌≡◌, refl, sym, subst, ap, ◌∙◌, none, some, ok, All-update, str_eq,
  is_some, Option-cases, inl, inr,
}
use asset_harbor.Base.Text.{Text}
use asset_harbor.Model.{Db, Principal, UploadSession, Image}
use asset_harbor.Access.{has_global_admin_scope}
use asset_harbor.Uploads.Create.{World}
use asset_harbor.Uploads.Recovery.{FinalInfo, validated_finalizing_info}
use asset_harbor.Uploads.Cancel.{Library}
use asset_harbor.Uploads.Finalize.{
  set_session, with_session, has_file, get_image_by_code, create_final_image, new_image,
}
use asset_harbor.Uploads.Recover.{publish_file, recovery_access, recover_finalizing_session}
use asset_harbor.Uploads.Recover.Settled.{set_session-fresh, fresh-id, settled_recovery}
use asset_harbor.Uploads.Verify.{Verified}
use asset_harbor.Uploads.Complete.{Chance, finalizing, prepare_final, commit_final, dumped}
use asset_harbor.Uploads.Complete.Dumped.{IsFound, validated_finalizing_info-dumped}
use asset_harbor.Uploads.Complete.Granted.{AreDraws, check_attempt-IsGranted, choose_info-IsNew}
use asset_harbor.Uploads.Complete.Resumed.{prepare_final-IsChosen, IsOpen}
use asset_harbor.Uploads.Complete.Crashed.{
  recovery_access-set_session, recover_moved, recover_unmoved, publish_file-moved,
  commit_final-image,
}

-- The state after the move.
abbrev moved : String → FinalInfo → Library → Library
moved upload_id info s = publish_file upload_id info.destination s

-- What the run leaves when nothing fails after the move.
abbrev pub finished : World → Chance → String → FinalInfo → Library → Library
finished w c upload_id info s = (commit_final w c upload_id info (moved upload_id info s)).0

-- What is promised of the states that the run goes through after the commit of the metadata, with
-- the process restarted at another time. Recovery of the first two leaves what the run's own last
-- steps would leave then; recovery of the last one changes nothing. There, the upload's bytes are at
-- the destination that the image names, and its digest is the one that was computed.
pub record IsAtomic (code_length : ℕ) (inside : Text → Bool) (w later : World) (c : Chance)
    (upload_id : String) (v : Verified) (info : FinalInfo) (before s : Library) : Type 0 where
  pub before_move :
      (b : Bool)
      → recover_finalizing_session code_length inside later (false, b) upload_id s
        ≡ (finished later c upload_id info s, ok tt)
  pub after_move :
      (b : Bool)
      → recover_finalizing_session code_length inside later
          (false, b)
          upload_id
          (moved upload_id info s)
        ≡ (finished later c upload_id info s, ok tt)
  pub after_commit :
      (failing : Bool × Bool)
      → recover_finalizing_session code_length inside later failing upload_id
          (finished w c upload_id info s)
        ≡ (finished w c upload_id info s, ok tt)
  pub image :
      (i : Image) × ((commit_final w c upload_id info (moved upload_id info s)).1 ≡ ok i)
      × (get_image_by_code (finished w c upload_id info s).db info.code ≡ some i)
      × (i.stored_path ≡ info.destination)
      × (i.sha256 ≡ v.sha256)
  pub bytes : (moved upload_id info s).published info.destination ≡ before.part_files upload_id
  pub kept : has_file before upload_id ≡ true

-- What happens to no image while the session is set.
set_session-image :
    (k : String) (f : UploadSession → UploadSession) (db : Db) (code : Text)
    → get_image_by_code (set_session k f db) code ≡ get_image_by_code db code
unfolding get_image_by_code set_session
set_session-image k f db code = refl

-- The upload is open with the metadata and the image in place.
IsOpen-finalizing :
    (upload_id : String) (w w' : World) (info : FinalInfo) (u : UploadSession) (db : Db)
    → IsOpen upload_id db
    → IsOpen upload_id
        (create_final_image w' u info (set_session upload_id (finalizing w info) db)).0
unfolding create_final_image set_session
IsOpen-finalizing upload_id w w' info u db h =
    let set : IsOpen upload_id (set_session upload_id (finalizing w info) db) =
      All-update
        (λ (v : UploadSession). str_eq v.upload_id upload_id ≡ true → v.completed_at ≡ none)
        (λ v. str_eq v.upload_id upload_id) (finalizing w info) db.upload_sessions (λ v k. k) h in
    elim (Option-cases
      (get_image_by_code (set_session upload_id (finalizing w info) db) info.code)) [
        | inl new ↦ rw (create_final_image, new) set
        | inr (i, there) ↦ rw (create_final_image, there) set
      ]

-- A run for a user without a global administrator's scope, from the commit of its metadata on, is
-- atomic with regard to crashes: wherever the process dies, before the move of the file, after it or
-- after the last commit, recovery at the next start ends where the run would have. This is for
-- random draws as the short code's function asks for, a type and digest as the reading of the file
-- finds them, a destination inside the directory of files with no file there yet, and an upload that
-- was not completed before; and no file operation and no commit fails after the crash.
pub prepare_final-IsAtomic :
    (code_length : ℕ) (inside : Text → Bool) (w later : World) (c : Chance)
    (upload_id nonce : String) (v : Verified) (actor : Principal) (s s' : Library)
    (info : FinalInfo)
    → prepare_final w c upload_id nonce v actor s ≡ (s', ok info)
    → info.global_admin ≡ false
    → AreDraws code_length c.draws
    → IsFound v
    → inside info.destination ≡ true
    → s.published info.destination ≡ none
    → IsOpen upload_id s.db
    → c.commit_fails ≡ none
    → IsAtomic code_length inside w later c upload_id v info s s'
unfolding publish_file
prepare_final-IsAtomic n inside w later c upload_id nonce v actor s s' info e tenant drawn read
      resolves free fresh smooth =
    let run = prepare_final-IsChosen w c upload_id nonce v actor s s' info e in
    let u = run.current in
    let admin = has_global_admin_scope run.user in
    let new = choose_info-IsNew n c v admin s.db info drawn run.chosen in
    let plain : admin ≡ false = sym (ap (λ (i : FinalInfo). i.global_admin) new.made) ∙ tenant in
    let granted = check_attempt-IsGranted s u nonce actor run.user run.checked plain in
    let mine = fresh-id s.db upload_id u run.found in
    let kept : has_file s upload_id ≡ true = ap (has_file s) (sym mine) ∙ granted.file in
    let valid : validated_finalizing_info n inside (dumped info) ≡ ok info =
      ap (λ i. validated_finalizing_info n inside (dumped i)) new.made
      ∙ validated_finalizing_info-dumped n inside v admin info.code read new.code
          (ap inside (sym (ap (λ (i : FinalInfo). i.destination) new.made)) ∙ resolves)
      ∙ ap (λ i. ok i) (sym new.made) in
    let s1 = with_session upload_id (finalizing w info) s in
    let found = set_session-fresh upload_id (finalizing w info) s.db u (λ x. refl) run.found in
    let access : recovery_access s1.db (finalizing w info u) info.global_admin ≡ ok tt =
      ap (recovery_access s1.db (finalizing w info u)) tenant
      ∙ recovery_access-set_session upload_id w (finalizing w info) s.db info u false
      ∙ granted.access in
    let unused = set_session-image upload_id (finalizing w info) s.db info.code ∙ new.unused in
    let opened =
      λ (at : World). IsOpen-finalizing upload_id w at info (finalizing w info u) s.db fresh in
    let (made, there, quiet) =
      commit_final-image w c upload_id (finalizing w info u) info (moved upload_id info s1) found
        unused smooth in
    subst (IsAtomic n inside w later c upload_id v info s) (sym run.after) (record {
      before_move = λ b.
          recover_unmoved n inside later c upload_id (finalizing w info u) info b s1 found refl
            valid (ap is_some free) kept access (opened later) smooth;
      after_move = λ b.
          recover_moved n inside later c upload_id (finalizing w info u) info b
            (moved upload_id info s1) found refl valid
            (ap is_some (publish_file-moved upload_id info.destination s1).0 ∙ kept) access
            (opened later) smooth;
      after_commit = λ failing.
          settled_recovery n inside later failing upload_id (finished w c upload_id info s1) quiet;
      image = (
        new_image w s1.db (finalizing w info u) info,
        made,
        there,
        refl,
        ap (λ (i : FinalInfo). i.sha256) new.made,
      );
      bytes = (publish_file-moved upload_id info.destination s1).0;
      kept = kept;
    })
