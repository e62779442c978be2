-- ===== src/Uploads/Parts/Tests.antt =====
-- The theorems on parts at an upload of four bytes whose first half is there. The digest is the
-- identity.
use asset_harbor.Base.{◌≡◌, ◌<◌, refl, subst, none, some, List, [], ◌∷◌, arith, ok, length, All}
use asset_harbor.Base.Text.{Text}
use asset_harbor.Model.{
  User, Role, Principal, AuthScope, empty_db, UploadSession, UploadPart, Status, ResumeInfo,
  default_settings,
}
use asset_harbor.Access.{
  fresh_library_user, copy_auth_scope, bind_auth_scope, get_user, check_team_access,
}
use asset_harbor.Chunks.{expected_part}
use asset_harbor.Sniff.{Bytes}
use asset_harbor.Uploads.Create.{World}
use asset_harbor.Uploads.Parts.{
  Store, Staged, fresh_upload_session, get_part, new_part, with_part, check_first_part,
  publish_part, commit_upload_part, verify_from, verify_parts_and_sha256,
}
use asset_harbor.Uploads.Parts.Intact.{
  IsIntact, IsReceived, IsCommitted, commit_upload_part-IsCommitted,
}
use asset_harbor.Uploads.Parts.Verified.{IsVerified, verify_parts_and_sha256-file}

abbrev owner : User
owner = record {
  id = 1;
  username = "alice";
  password_hash = "";
  role = Role.user;
  auth_version = 0;
  created_at = 10;
}

abbrev login : Principal
login = record { user = owner; scope = AuthScope.jwt; identity = some (1, 10) }

abbrev world : World
world = record { settings = default_settings; now = 50; free = 0; reserved = 0; uuid = "" }

abbrev upload : UploadSession
upload = record {
  upload_id = "u";
  owner_id = 1;
  team_id = none;
  original_filename = [];
  name = [];
  visibility = "public";
  size = 4;
  chunk_size = 2;
  total_parts = 2;
  fingerprint = [];
  status = Status.active;
  expires_at = 100;
  final_code = none;
  resume_info = ResumeInfo.empty;
  created_at = 0;
  updated_at = 0;
  completed_at = none;
}

abbrev first_half : UploadPart
first_half = record {
  upload_id = "u";
  part_number = 0;
  offset = 0;
  size = 2;
  sha256 = 7 ∷ 8 ∷ [];
  created_at = 40;
}

abbrev half_way : Store
half_way = record {
  db = record empty_db {
    users = owner ∷ [];
    upload_sessions = upload ∷ [];
    upload_parts = first_half ∷ [];
  };
  part_files = λ _. some (7 ∷ 8 ∷ []);
}

abbrev second_half : Staged
second_half = record {
  part_number = 1;
  offset = 2;
  received = 2;
  actual_sha = 9 ∷ 6 ∷ [];
  bytes = some (9 ∷ 6 ∷ []);
}

abbrev id_digest : Bytes → Text
id_digest b = b

second_half-IsReceived : IsReceived id_digest upload second_half
unfolding expected_part
second_half-IsReceived = record {
  expected = refl;
  measured = λ bytes same.
      subst (λ (b : Bytes). (0 < length b) × (length b ≡ 2) × (b ≡ 9 ∷ 6 ∷ [])) (ground arith)
        (omega arith, refl, refl);
}

half_way-IsIntact : IsIntact id_digest upload half_way
unfolding expected_part
half_way-IsIntact = (λ _. (refl, omega arith, refl), tt)

commit_second :
    commit_upload_part world "u" login second_half half_way
    ≡ ok (new_part world "u" second_half, with_part world "u" second_half (9 ∷ 6 ∷ []) half_way)
unfolding commit_upload_part publish_part check_first_part get_part fresh_upload_session
    fresh_library_user copy_auth_scope bind_auth_scope get_user check_team_access
commit_second = refl

commit_upload_part-IsCommitted_example :
    IsCommitted id_digest upload second_half
      (with_part world "u" second_half (9 ∷ 6 ∷ []) half_way)
      (new_part world "u" second_half)
commit_upload_part-IsCommitted_example =
    commit_upload_part-IsCommitted id_digest world upload login second_half half_way
      (with_part world "u" second_half (9 ∷ 6 ∷ []) half_way) (new_part world "u" second_half)
      second_half-IsReceived half_way-IsIntact commit_second

abbrev both : List UploadPart
both = first_half ∷ new_part world "u" second_half ∷ []

verify_both : verify_parts_and_sha256 id_digest (7 ∷ 8 ∷ 9 ∷ 6 ∷ []) both ≡ ok (7 ∷ 8 ∷ 9 ∷ 6 ∷ [])
unfolding verify_parts_and_sha256 verify_from
verify_both = refl

verify_parts_and_sha256-file_example :
    All (IsVerified id_digest (7 ∷ 8 ∷ 9 ∷ 6 ∷ [])) both
    × (7 ∷ 8 ∷ 9 ∷ 6 ∷ [] ≡ id_digest (7 ∷ 8 ∷ 9 ∷ 6 ∷ []))
verify_parts_and_sha256-file_example =
    verify_parts_and_sha256-file id_digest (7 ∷ 8 ∷ 9 ∷ 6 ∷ []) both (7 ∷ 8 ∷ 9 ∷ 6 ∷ [])
      (refl, (refl, refl)) verify_both
