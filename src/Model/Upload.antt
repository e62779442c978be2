-- ===== src/Model/Upload.antt =====
-- app/models/upload.py. The row number of a part is SQLite's and never read, so it is left out.
use asset_harbor.Base.{ℕ, String, Option}
use asset_harbor.Base.Text.{Text}

-- `upload_sessions.status`
pub data Status : Type 0 where
  active verifying finalizing completed failed : Status

-- What `upload_sessions.resume_info` holds: nothing, the nonce of a verification, or the recovery
-- metadata of a finalization. `corrupt` is any text that does not parse to one of these.
pub data ResumeInfo : Type 0 where
  empty corrupt : ResumeInfo
  nonce : String → ResumeInfo
  final :
      (code stored_path : Text)
      → (content_type : String) → (sha256 : Text) → Option String
      → ResumeInfo

pub record UploadSession : Type 0 where
  pub upload_id : String
  pub owner_id : ℕ
  pub team_id : Option ℕ
  pub original_filename : Text
  pub name : Text
  pub visibility : String
  pub size : ℕ
  pub chunk_size : ℕ
  pub total_parts : ℕ
  pub fingerprint : Text
  pub status : Status
  pub expires_at : ℕ
  pub final_code : Option Text
  pub resume_info : ResumeInfo
  pub created_at : ℕ
  pub updated_at : ℕ
  pub completed_at : Option ℕ

pub record UploadPart : Type 0 where
  pub upload_id : String
  pub part_number : ℕ
  pub offset : ℕ
  pub size : ℕ
  pub sha256 : Text
  pub created_at : ℕ
