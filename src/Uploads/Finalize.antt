-- ===== src/Uploads/Finalize.antt =====
-- The helpers of finalization: `_unique_video_code`, `_create_final_image`,
-- `_has_verification_nonce`, `_return_verifying_to_active` and `_reset_verifying_upload` of
-- app/services/videos.py. The random draws are an argument. A row that is added has
-- the number after the largest, as SQLite gives it.
use asset_harbor.Base.{
  ℕ, suc, String, Bool, true, false, ◌&&◌, Option, none, some, List, [], ◌∷◌, ◌++◌, Result,
  runtime_error, or_raise, is_none, is_some, if◌then◌else◌, str_eq, find, update, max_by, map, take,
}
use asset_harbor.Base.Text.{Text, text_eq}
use asset_harbor.Model.{Db, Image, MediaKind, Status, ResumeInfo, UploadSession}
use asset_harbor.ShortCode.{generate_short_code}
use asset_harbor.Uploads.Create.{World, new_expiry}
use asset_harbor.Uploads.Parts.{fresh_upload_session}
use asset_harbor.Uploads.Recovery.{FinalInfo}
use asset_harbor.Uploads.Cancel.{Library}

-- The columns of one session that a handler sets and commits.
unfoldable pub set_session : String → (UploadSession → UploadSession) → Db → Db
set_session upload_id change db = record db {
  upload_sessions = update (λ u. str_eq u.upload_id upload_id) change db.upload_sessions;
}

abbrev pub with_session : String → (UploadSession → UploadSession) → Library → Library
with_session upload_id change s = record s { db = set_session upload_id change s.db }

-- `session_file(upload_id).is_file()`
abbrev pub has_file : Library → String → Bool
has_file s upload_id = is_some (s.part_files upload_id)

-- `select(Image).where(Image.code == code)`
unfoldable pub get_image_by_code : Db → Text → Option Image
get_image_by_code db code = find (λ i. text_eq i.code code) db.images

-- `_unique_video_code`, over the numbers that `generate_short_code` draws each time.
unfoldable pub unique_video_code : Db → List (List ℕ) → Result Text
unique_video_code db draws =
    or_raise
      (find (λ code. is_none (get_image_by_code db code)) (map generate_short_code (take 16 draws)))
      runtime_error

abbrev pub new_image : World → Db → UploadSession → FinalInfo → Image
new_image w db upload info = record {
  id = suc (max_by (λ (i : Image). i.id) db.images);
  code = info.code;
  original_filename = upload.original_filename;
  name = upload.name;
  visibility = upload.visibility;
  stored_path = info.destination;
  content_type = info.content_type;
  size = upload.size;
  sha256 = info.sha256;
  media_kind = MediaKind.video;
  created_at = w.now;
  owner_id = some upload.owner_id;
  team_id = upload.team_id;
  signing_version = 1;
}

-- `_create_final_image`
unfoldable pub create_final_image : World → UploadSession → FinalInfo → Db → Db × Image
create_final_image w upload info db = elim (get_image_by_code db info.code) [
  | some existing ↦ (db, existing)
  | none ↦ (
    record db { images = db.images ++ (new_image w db upload info ∷ []) },
    new_image w db upload info,
  )
]

abbrev pub is_verifying : Status → Bool
is_verifying Status.verifying = true
is_verifying _ = false

abbrev pub nonce_is : String → ResumeInfo → Bool
nonce_is nonce (ResumeInfo.nonce n) = str_eq n nonce
nonce_is nonce _ = false

-- `_has_verification_nonce`
unfoldable pub has_verification_nonce : UploadSession → String → Bool
has_verification_nonce upload nonce =
    is_verifying upload.status && nonce_is nonce upload.resume_info

-- The status of an upload that goes on, or that has lost its bytes.
abbrev pub resumable : World → Bool → UploadSession → UploadSession
resumable w there upload = record upload {
  status = if there then Status.active else Status.failed;
  resume_info = ResumeInfo.empty;
  updated_at = w.now;
  expires_at = new_expiry w;
}

-- `_return_verifying_to_active`, whose result its callers do not read.
unfoldable pub return_verifying_to_active : World → UploadSession → String → Library → Library
return_verifying_to_active w upload nonce s =
    if has_verification_nonce upload nonce
    then with_session upload.upload_id (resumable w (has_file s upload.upload_id)) s
    else s

-- `_reset_verifying_upload`
unfoldable pub reset_verifying_upload : World → String → String → Library → Library
reset_verifying_upload w upload_id nonce s = elim (fresh_upload_session s.db upload_id) [
  | none ↦ s
  | some current ↦ return_verifying_to_active w current nonce s
]
