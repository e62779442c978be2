-- ===== src/Uploads/Cancel/Tests.antt =====
-- The theorem on cancellation at one of two uploads.
use asset_harbor.Base.{String, ◌≡◌, refl, true, false, none, some, [], ◌∷◌, ok}
use asset_harbor.Model.{
  User, Role, Principal, AuthScope, empty_db, UploadSession, Status, ResumeInfo,
}
use asset_harbor.Access.{
  fresh_library_user, copy_auth_scope, bind_auth_scope, get_user, check_team_access,
}
use asset_harbor.Uploads.Parts.{fresh_upload_session}
use asset_harbor.Uploads.Cancel.{Library, delete_upload_session, cancel_upload_session}
use asset_harbor.Uploads.Cancel.Gone.{IsGone, IsAllowed, cancel_upload_session-IsGone}

abbrev owner : User
owner = record {
  id = 1;
  username = "alice";
  password_hash = "";
  role = Role.user;
  auth_version = 0;
  created_at = 10;
}

abbrev login : Principal
login = record { user = owner; scope = AuthScope.jwt; identity = some (1, 10) }

abbrev upload : String → UploadSession
upload id = record {
  upload_id = id;
  owner_id = 1;
  team_id = none;
  original_filename = [];
  name = [];
  visibility = "public";
  size = 4;
  chunk_size = 2;
  total_parts = 2;
  fingerprint = [];
  status = Status.active;
  expires_at = 100;
  final_code = none;
  resume_info = ResumeInfo.empty;
  created_at = 0;
  updated_at = 0;
  completed_at = none;
}

abbrev library : Library
library = record {
  db = record empty_db { users = owner ∷ []; upload_sessions = upload "u" ∷ upload "v" ∷ [] };
  part_files = λ _. some (7 ∷ []);
  published = λ _. none;
  keeps_directory = λ _. false;
  keeps_file = λ _. false;
}

cancel_u :
    cancel_upload_session 6 (λ _. true) "u" login library
    ≡ ok (delete_upload_session 6 (λ _. true) "u" library)
unfolding cancel_upload_session fresh_upload_session fresh_library_user copy_auth_scope
    bind_auth_scope get_user check_team_access
cancel_u = refl

cancel_upload_session-IsGone_example :
    IsGone 6 (λ _. true) "u" library (delete_upload_session 6 (λ _. true) "u" library)
    × (u : UploadSession) × (q : Principal) × (fresh_upload_session library.db "u" ≡ some u)
    × IsAllowed 6 (λ _. true) library login u q
cancel_upload_session-IsGone_example =
    cancel_upload_session-IsGone 6 (λ _. true) "u" login library
      (delete_upload_session 6 (λ _. true) "u" library) cancel_u
