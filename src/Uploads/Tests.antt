-- ===== src/Uploads/Tests.antt =====
-- The theorems on upload sessions at one request, sent twice.
use asset_harbor.Base.{ℕ, String, ◌≤◌, ◌<◌, ◌≡◌, refl, none, some, [], ◌∷◌, arith, ok, length}
use asset_harbor.Base.Text.{Text, codes}
use asset_harbor.Model.{
  User, Role, Principal, AuthScope, Db, empty_db, UploadSession, default_settings,
}
use asset_harbor.Access.{
  fresh_library_user, copy_auth_scope, bind_auth_scope, get_user, check_team_access,
}
use asset_harbor.Chunks.{is_sha256, all_hex, lower}
use asset_harbor.Disk.{ensure_free_space}
use asset_harbor.Quota.{enforce_storage_quota, user_storage_usage_bytes}
use asset_harbor.Quota.Admitted.{IsWithinQuota, add_session, enforce_storage_quota-add_session}
use asset_harbor.Uploads.Filename.{safe_filename}
use asset_harbor.Uploads.Filename.Plain.{IsPlain, safe_filename-IsPlain}
use asset_harbor.Uploads.Create.{
  Request, World, latest, reusable_session, active_count, new_session, insert_session,
  reuse_or_insert, create_upload_session,
}
use asset_harbor.Uploads.Create.Admission.{IsReturned, create_upload_session_lem}
use asset_harbor.Uploads.Create.Retry.{create_upload_session_again}

safe_filename-IsPlain_example :
    IsPlain (safe_filename (codes "..\\a/b/clip.mp4"))
    × (0 < length (safe_filename (codes "..\\a/b/clip.mp4")))
    × (length (safe_filename (codes "..\\a/b/clip.mp4")) ≤ 255)
safe_filename-IsPlain_example = safe_filename-IsPlain (codes "..\\a/b/clip.mp4")

abbrev uploader : User
uploader = record {
  id = 2;
  username = "bob";
  password_hash = "";
  role = Role.user;
  auth_version = 0;
  created_at = 11;
}

abbrev login : Principal
login = record { user = uploader; scope = AuthScope.jwt; identity = some (2, 11) }

abbrev library : Db
library = record empty_db { users = uploader ∷ [] }

abbrev hex : Text
hex = codes "0123456789abcdef0123456789abcdef0123456789ABCDEF0123456789abcdef"

abbrev clip : Request
clip = record {
  filename = codes "a/b/clip.mp4";
  size = 20000000;
  name = [];
  visibility = "private";
  team_id = none;
  fingerprint = hex;
}

abbrev world : ℕ → String → World
world now uuid = record {
  settings = record default_settings { user_storage_quota_mb = 100 };
  now = now;
  free = 5000000000;
  reserved = 0;
  uuid = uuid;
}

abbrev clip_session : UploadSession
clip_session = new_session (world 1000 "u1") 2 clip

create_clip :
    create_upload_session (world 1000 "u1") library login clip
    ≡ ok (add_session clip_session library, clip_session)
unfolding create_upload_session reuse_or_insert insert_session reusable_session latest active_count
    enforce_storage_quota user_storage_usage_bytes ensure_free_space fresh_library_user
    copy_auth_scope bind_auth_scope get_user check_team_access is_sha256 all_hex lower
create_clip = refl

enforce_storage_quota-add_session_example :
    IsWithinQuota (world 1000 "u1").settings 1000 (add_session clip_session library) 2 none
unfolding new_session enforce_storage_quota user_storage_usage_bytes
enforce_storage_quota-add_session_example =
    enforce_storage_quota-add_session (world 1000 "u1").settings 1000 library clip_session refl refl
      refl

create_upload_session_lem_example :
    IsReturned (world 1000 "u1") library 2 clip (add_session clip_session library) clip_session
create_upload_session_lem_example =
    create_upload_session_lem (world 1000 "u1") library (add_session clip_session library) login
      clip clip_session (omega arith) create_clip

create_upload_session_again_example :
    (v : UploadSession) × (create_upload_session
        (world 5000 "u2")
        (add_session clip_session library)
        login
        clip
      ≡ ok (add_session clip_session library, v))
unfolding new_session
create_upload_session_again_example =
    create_upload_session_again (world 1000 "u1") (world 5000 "u2") library
      (add_session clip_session library) login clip clip_session (omega arith) refl (omega arith)
      create_clip
