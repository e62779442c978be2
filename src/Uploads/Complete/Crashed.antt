-- ===== src/Uploads/Complete/Crashed.antt =====
-- Recovery of a session that is being finalized, before and after the move of its file, next to the
-- last step of the run.
use asset_harbor.Base.{
  ℕ, String, Bool, true, false, ◌≡◌, refl, ap, ◌∙◌, none, some, [], ◌∷◌, ◌++◌, ok, find-append_none,
  eq_refl,
}
use asset_harbor.Base.Text.{Text, text_eq, text_eq_refl}
use asset_harbor.Model.{Db, UploadSession, Image}
use asset_harbor.Access.{check_team_access, get_user, get_team, get_membership}
use asset_harbor.Uploads.Create.{World}
use asset_harbor.Uploads.Parts.{fresh_upload_session}
use asset_harbor.Uploads.Recovery.{FinalInfo, validated_finalizing_info}
use asset_harbor.Uploads.Cancel.{Library, is_finalizing}
use asset_harbor.Uploads.Finalize.{
  set_session, has_file, get_image_by_code, create_final_image, new_image,
}
use asset_harbor.Uploads.Recover.{
  publish_file, recovery_access, recover_finalizing_session, recover_valid, settle,
  create_and_complete, is_published,
}
use asset_harbor.Uploads.Recover.Settled.{fresh-id, IsSettled, with_session-IsSettled}
use asset_harbor.Uploads.Complete.{Chance, finalizing, commit_final, published_session}
use asset_harbor.Uploads.Complete.Resumed.{IsOpen, create_and_complete-commit_final}

-- Access is read from users, teams and members alone.
pub recovery_access-set_session :
    (k : String) (w : World) (f : UploadSession → UploadSession) (db : Db) (info : FinalInfo)
    (u : UploadSession) (b : Bool)
    → recovery_access (set_session k f db) (finalizing w info u) b ≡ recovery_access db u b
unfolding recovery_access set_session get_user check_team_access get_team get_membership
recovery_access-set_session k w f db info u b = refl

module _ (code_length : ℕ) (inside : Text → Bool) (w : World) (c : Chance) (upload_id : String)
    (u : UploadSession) (info : FinalInfo) (withdraw_fails : Bool) where
  -- A session whose metadata is valid and whose upload is granted, after the move.
  pub recover_moved :
      (s : Library)
      → fresh_upload_session s.db upload_id ≡ some u
      → is_finalizing u.status ≡ true
      → validated_finalizing_info code_length inside u.resume_info ≡ ok info
      → is_published s info.destination ≡ true
      → recovery_access s.db u info.global_admin ≡ ok tt
      → IsOpen upload_id (create_final_image w u info s.db).0
      → c.commit_fails ≡ none
      → recover_finalizing_session code_length inside w (false, withdraw_fails) upload_id s
        ≡ ((commit_final w c upload_id info s).0, ok tt)
  unfolding recover_finalizing_session recover_valid settle
  recover_moved s found final valid there access fresh smooth =
      rw (recover_finalizing_session, found, final, valid, recover_valid, there, settle, access)
        (ap (λ l. (l, ok tt))
          (create_and_complete-commit_final w c upload_id u info s found
            (fresh-id s.db upload_id u found) fresh smooth))

  pub recover_unmoved :
      (s : Library)
      → fresh_upload_session s.db upload_id ≡ some u
      → is_finalizing u.status ≡ true
      → validated_finalizing_info code_length inside u.resume_info ≡ ok info
      → is_published s info.destination ≡ false
      → has_file s upload_id ≡ true
      → recovery_access s.db u info.global_admin ≡ ok tt
      → IsOpen upload_id (create_final_image w u info s.db).0
      → c.commit_fails ≡ none
      → recover_finalizing_session code_length inside w (false, withdraw_fails) upload_id s
        ≡ ((commit_final w c upload_id info (publish_file upload_id info.destination s)).0, ok tt)
  unfolding recover_finalizing_session recover_valid settle publish_file
  recover_unmoved s found final valid absent kept access fresh smooth =
      let mine = fresh-id s.db upload_id u found in
      let here : has_file s u.upload_id ≡ true = ap (has_file s) mine ∙ kept in
      let place : publish_file u.upload_id info.destination s
          ≡ publish_file upload_id info.destination s =
        ap (λ k. publish_file k info.destination s) mine in
      rw
        (
          recover_finalizing_session, found, final, valid, recover_valid, absent, here, settle,
          access,
        )
        (ap (λ l. (create_and_complete w u info l, ok tt)) place
          ∙ ap (λ l. (l, ok tt))
              (create_and_complete-commit_final w c upload_id u info
                (publish_file upload_id info.destination s) found mine fresh smooth))

-- A file that is moved is at the destination, and nowhere else.
pub publish_file-moved :
    (upload_id : String) (path : Text) (s : Library)
    → ((publish_file upload_id path s).published path ≡ s.part_files upload_id)
      × ((publish_file upload_id path s).part_files upload_id ≡ none)
unfolding publish_file
publish_file-moved upload_id path s = (rw (text_eq_refl path) refl, rw (eq_refl upload_id) refl)

-- A new image is found by its code, and the sessions stay as they are.
abbrev with_image : World → UploadSession → FinalInfo → Db → Db
with_image w u info db = record db { images = db.images ++ (new_image w db u info ∷ []) }

image-added :
    (w : World) (upload_id : String) (u : UploadSession) (info : FinalInfo) (db : Db)
    → get_image_by_code db info.code ≡ none
    → get_image_by_code
        (set_session upload_id (published_session w info.code) (with_image w u info db))
        info.code
      ≡ some (new_image w db u info)
unfolding get_image_by_code set_session
image-added w upload_id u info db h =
    find-append_none (λ (i : Image). text_eq i.code info.code) db.images
      (new_image w db u info ∷ []) h
    ∙ rw (text_eq_refl info.code) refl

with_image-fresh :
    (w : World) (upload_id : String) (v u : UploadSession) (info : FinalInfo) (db : Db)
    → fresh_upload_session db upload_id ≡ some v
    → fresh_upload_session (with_image w u info db) upload_id ≡ some v
unfolding fresh_upload_session
with_image-fresh w upload_id v u info db h = h

-- The last commit adds the image of the metadata.
pub commit_final-image :
    (w : World) (c : Chance) (upload_id : String) (u : UploadSession) (info : FinalInfo)
    (s : Library)
    → fresh_upload_session s.db upload_id ≡ some u
    → get_image_by_code s.db info.code ≡ none
    → c.commit_fails ≡ none
    → ((commit_final w c upload_id info s).1 ≡ ok (new_image w s.db u info))
      × (get_image_by_code (commit_final w c upload_id info s).0.db info.code
          ≡ some (new_image w s.db u info))
      × IsSettled upload_id (commit_final w c upload_id info s).0
unfolding commit_final create_final_image
commit_final-image w c upload_id u info s found unused smooth =
    rw (commit_final, found, smooth, create_final_image, unused)
      (
        refl,
        image-added w upload_id u info s.db unused,
        with_session-IsSettled upload_id (published_session w info.code)
            (record s { db = with_image w u info s.db }) u (λ v. refl)
            (with_image-fresh w upload_id u u info s.db found) refl,
      )
