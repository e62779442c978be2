-- ===== src/Uploads/Cancel.antt =====
-- Cancellation: `_delete_upload_session_locked`, `cancel_upload_session`,
-- `cancel_upload_session_internal` and `delete_upload_sessions_for_owner` of
-- app/services/videos.py. Draining the upload's requests, which cancellation waits for first,
-- changes no state.
pub mod Gone
mod Tests
use asset_harbor.Base.{
  ℕ, String, ◌+◌, Bool, true, false, not, ◌&&◌, ◌||◌, Option, none, some, List, [], ◌∷◌, Result, ok,
  err, http, ◌>>=◌, ◌>>◌, raise_if, or_raise, ◌==◌, is_none, is_some, if◌then◌else◌, str_eq, where_,
  find, map,
}
use asset_harbor.Model.{Db, Status, ResumeInfo, UploadSession, UploadPart, Principal}
use asset_harbor.Access.{fresh_library_user, has_global_admin_scope, check_team_access}
use asset_harbor.Sniff.{Bytes}
use asset_harbor.Base.Text.{Text, text_eq}
use asset_harbor.Uploads.Recovery.{validated_finalizing_info}
use asset_harbor.Uploads.Parts.{fresh_upload_session, assign_file}

-- The database, the part files by upload, and the published files by their stored path; and what
-- the file system refuses to delete: the directories of uploads, be it that `session_dir` does not
-- accept the identifier or that their removal fails, and published files.
pub record Library : Type 0 where
  pub db : Db
  pub part_files : String → Option Bytes
  pub published : Text → Option Bytes
  pub keeps_directory : String → Bool
  pub keeps_file : Text → Bool

abbrev pub is_finalizing : Status → Bool
is_finalizing Status.finalizing = true
is_finalizing _ = false

module _ (code_length : ℕ) (inside : Text → Bool) where
  -- The destination that valid recovery metadata of a finalizing session names.
  unfoldable pub destination_of : Option UploadSession → Option Text
  destination_of none = none
  destination_of (some current) =
      if is_finalizing current.status
      then elim (validated_finalizing_info code_length inside current.resume_info) [
        | ok info ↦ some info.destination
        | err _ ↦ none
      ]
      else none

  -- `destination.unlink`, whose failure is ignored.
  abbrev pub unlinked : (Text → Bool) → (Text → Option Bytes) → Option Text → Text → Option Bytes
  unlinked keeps files none = files
  unlinked keeps files (some path) =
      λ other. if text_eq path other && not (keeps path) then none else files other

  -- `_delete_upload_session_locked`
  unfoldable pub delete_upload_session : String → Library → Library
  delete_upload_session upload_id s = record s {
    db = record s.db {
      upload_parts =
          where_ (λ (p : UploadPart). not (str_eq p.upload_id upload_id)) s.db.upload_parts;
      upload_sessions =
          where_ (λ (u : UploadSession). not (str_eq u.upload_id upload_id)) s.db.upload_sessions;
    };
    part_files =
        if s.keeps_directory upload_id
        then s.part_files
        else assign_file s.part_files upload_id none;
    published =
        unlinked s.keeps_file s.published (destination_of (fresh_upload_session s.db upload_id));
  }

  unfoldable pub cancel_upload_session : String → Principal → Library → Result Library
  cancel_upload_session upload_id actor s = do
    current ← or_raise (fresh_upload_session s.db upload_id) (http 404)
    user ← fresh_library_user s.db actor
    raise_if (not (current.owner_id == user.user.id) && not (has_global_admin_scope user))
        (http 404)
    check_team_access s.db current.team_id user
    ok (delete_upload_session upload_id s)

  pub delete_each : List UploadSession → Library → Library
  delete_each [] s = s
  delete_each (u ∷ l) s = delete_each l (delete_upload_session u.upload_id s)

  -- `delete_upload_sessions_for_owner`
  unfoldable pub delete_upload_sessions_for_owner : ℕ → Library → Library
  unfolding delete_each
  delete_upload_sessions_for_owner owner s =
      delete_each
        (where_ (λ (u : UploadSession). u.owner_id == owner && is_none u.team_id)
          s.db.upload_sessions)
        s
