-- ===== src/Uploads/Create.antt =====
-- Creation of an upload session: `create_upload_session` of app/services/videos.py. The clock, the
-- new UUID, the free disk space and the bytes reserved are arguments; a UUID that is taken violates
-- the primary key. The directory that the code makes for the session is not part of the state.
pub mod Admission
pub mod Retry
use asset_harbor.Base.{
  ℕ, ◌+◌, ◌*◌, ◌-◌, ◌/◌, String, Bool, true, false, not, ◌&&◌, ◌||◌, Option, none, some, List, [],
  ◌∷◌, ◌++◌, Result, ok, err, http, runtime_error, integrity_error, ◌>>=◌, ◌>>◌, raise_if, or_raise,
  ltb, leb, ◌==◌, opt_eq, is_some, if◌then◌else◌, str_eq, where_, find, any, length, take,
}
use asset_harbor.Base.Text.{Text, strip, text_eq}
use asset_harbor.Model.{
  Db, Settings, Status, ResumeInfo, UploadSession, Principal, max_video_size_bytes,
  video_chunk_size_bytes, min_free_space_bytes,
}
use asset_harbor.Access.{fresh_library_user, check_team_access}
use asset_harbor.Chunks.{is_sha256, lower, ceil_div}
use asset_harbor.Disk.{ensure_free_space}
use asset_harbor.Quota.{is_reserved, enforce_storage_quota}
use asset_harbor.Uploads.Filename.{safe_filename, or_text}

-- The arguments of the request.
pub record Request : Type 0 where
  pub filename : Text
  pub size : ℕ
  pub name : Text
  pub visibility : String
  pub team_id : Option ℕ
  pub fingerprint : Text

-- What the process sees besides the database.
pub record World : Type 0 where
  pub settings : Settings
  pub now : ℕ
  pub free : ℕ
  pub reserved : ℕ
  pub uuid : String

-- `_new_expiry`
abbrev pub new_expiry : World → ℕ
new_expiry w = w.now + w.settings.video_upload_ttl_hours * 3600

abbrev pub normalized_name : Request → Text
normalized_name r = or_text (take 255 (strip r.name)) (safe_filename r.filename)

-- `_ACTIVE_STATUSES`
abbrev pub is_active_status : Status → Bool
is_active_status Status.active = true
is_active_status Status.verifying = true
is_active_status Status.finalizing = true
is_active_status _ = false

-- The session has the complete normalized intent of the request.
unfoldable pub same_intent : ℕ → Request → UploadSession → Bool
same_intent owner r u =
    u.owner_id == owner
    && text_eq u.fingerprint (lower r.fingerprint)
    && u.size == r.size
    && text_eq u.original_filename (safe_filename r.filename)
    && text_eq u.name (normalized_name r)
    && str_eq u.visibility r.visibility
    && opt_eq u.team_id r.team_id

-- `ORDER BY created_at DESC LIMIT 1`
unfoldable pub latest : List UploadSession → Option UploadSession
latest [] = none
latest (u ∷ l) = elim (latest l) [
  | none ↦ some u
  | some v ↦ if ltb u.created_at v.created_at then some v else some u
]

unfoldable pub reusable_session : World → Db → ℕ → Request → Option UploadSession
reusable_session w db owner r = latest (
    where_ (λ u. same_intent owner r u && is_active_status u.status && ltb w.now u.expires_at)
      db.upload_sessions)

unfoldable pub active_count : World → Db → ℕ → ℕ
active_count w db owner = length (
    where_
      (λ (u : UploadSession). u.owner_id == owner && is_reserved u.status && ltb w.now u.expires_at)
      db.upload_sessions)

unfoldable pub new_session : World → ℕ → Request → UploadSession
new_session w owner r = record {
  upload_id = w.uuid;
  owner_id = owner;
  team_id = r.team_id;
  original_filename = safe_filename r.filename;
  name = normalized_name r;
  visibility = r.visibility;
  size = r.size;
  chunk_size = video_chunk_size_bytes w.settings;
  total_parts = ceil_div r.size (video_chunk_size_bytes w.settings);
  fingerprint = lower r.fingerprint;
  status = Status.active;
  expires_at = new_expiry w;
  final_code = none;
  resume_info = ResumeInfo.empty;
  created_at = w.now;
  updated_at = w.now;
  completed_at = none;
}

-- The checks and the insertion that follow where no session is reused.
unfoldable pub insert_session : World → Db → ℕ → Request → Result (Db × UploadSession)
insert_session w db owner r = do
  enforce_storage_quota w.settings w.now db owner r.team_id r.size
  raise_if (leb w.settings.max_active_video_uploads (active_count w db owner)) (http 429)
  ensure_free_space (min_free_space_bytes w.settings) w.free w.reserved r.size
  raise_if (video_chunk_size_bytes w.settings == 0) runtime_error
  raise_if (any (λ (u : UploadSession). str_eq u.upload_id w.uuid) db.upload_sessions)
      integrity_error
  ok (
    record db { upload_sessions = db.upload_sessions ++ (new_session w owner r ∷ []) },
    new_session w owner r,
  )

-- An existing session is returned as it is.
unfoldable pub reuse_or_insert : World → Db → ℕ → Request → Result (Db × UploadSession)
reuse_or_insert w db owner r = elim (reusable_session w db owner r) [
  | some existing ↦ ok (db, existing)
  | none ↦ insert_session w db owner r
]

unfoldable pub create_upload_session :
    World → Db → Principal → Request → Result (Db × UploadSession)
create_upload_session w db p r = do
  user ← fresh_library_user db p
  raise_if (not (str_eq r.visibility "public" || str_eq r.visibility "private")) (http 422)
  raise_if (r.size == 0) (http 422)
  raise_if (ltb (max_video_size_bytes w.settings) r.size) (http 413)
  raise_if (not (is_sha256 (lower r.fingerprint))) (http 422)
  check_team_access db r.team_id user
  reuse_or_insert w db user.user.id r
