-- ===== src/Uploads/Sweep/Tests.antt =====
-- The cleanup of a library with a live upload, an expired one, and a part without a session.
use asset_harbor.Base.{ℕ, String, ◌≡◌, refl, true, false, none, some, [], ◌∷◌, map}
use asset_harbor.Base.Text.{Text, codes}
use asset_harbor.Model.{empty_db, UploadSession, UploadPart, Status, ResumeInfo, default_settings}
use asset_harbor.Chunks.{is_sha256, all_hex}
use asset_harbor.Uploads.Create.{World}
use asset_harbor.Uploads.Parts.{fresh_upload_session, get_part}
use asset_harbor.Uploads.Cancel.{Library, delete_upload_session, destination_of}
use asset_harbor.Uploads.Sweep.{
  cleanup_candidate_snapshot, cleanup_candidates, cleanup_expired_uploads, is_sound_part,
  invalid_parts_of, cleanup_expired_candidate, cleanup_invalid_session_candidate,
  cleanup_orphan_parts_candidate, cleanup_invalid_part_candidate, cleanup_upload_directory, each,
  each_silent,
}
use asset_harbor.Uploads.Sweep.Kept.{IsKept}
use asset_harbor.Uploads.Sweep.Live.{cleanup_candidates-IsKept}

abbrev upload : String → ℕ → UploadSession
upload id expires_at = record {
  upload_id = id;
  owner_id = 1;
  team_id = none;
  original_filename = [];
  name = [];
  visibility = "public";
  size = 3;
  chunk_size = 2;
  total_parts = 2;
  fingerprint = [];
  status = Status.active;
  expires_at = expires_at;
  final_code = none;
  resume_info = ResumeInfo.empty;
  created_at = 0;
  updated_at = 0;
  completed_at = none;
}

abbrev digest : Text
digest = codes "0123456789abcdef0123456789abcdef0123456789abcdef0123456789abcdef"

abbrev part : String → ℕ → ℕ → UploadPart
part id number offset = record {
  upload_id = id;
  part_number = number;
  offset = offset;
  size = 2;
  sha256 = digest;
  created_at = 0;
}

abbrev library : Library
library = record {
  db = record empty_db {
    upload_sessions = upload "u" 100 ∷ upload "v" 10 ∷ [];
    upload_parts = part "u" 0 0 ∷ part "u" 1 2 ∷ part "v" 0 0 ∷ part "x" 0 0 ∷ [];
  };
  part_files = λ _. some (7 ∷ 8 ∷ []);
  published = λ _. none;
  keeps_directory = λ _. false;
  keeps_file = λ _. false;
}

abbrev world : World
world = record { settings = default_settings; now = 50; free = 0; reserved = 0; uuid = "w" }

-- The live upload and its first part are left; its second part is longer than the upload.
cleanup_expired_uploads_test :
    let after =
      cleanup_expired_uploads 6
        (λ _. true)
        (λ _. true)
        (λ _. false)
        (λ _. false)
        (λ _. (false, false))
        world
        ("x" ∷ [])
        library in
    (after.1 ≡ 1)
    × (after.0.db.upload_sessions ≡ upload "u" 100 ∷ [])
    × (after.0.db.upload_parts ≡ part "u" 0 0 ∷ [])
    × (map after.0.part_files ("u" ∷ "v" ∷ "x" ∷ []) ≡ some (7 ∷ 8 ∷ []) ∷ none ∷ none ∷ [])
unfolding cleanup_expired_uploads cleanup_candidates cleanup_candidate_snapshot invalid_parts_of
    is_sound_part is_sha256 all_hex cleanup_expired_candidate cleanup_invalid_session_candidate
    cleanup_orphan_parts_candidate cleanup_invalid_part_candidate cleanup_upload_directory each
    each_silent fresh_upload_session get_part delete_upload_session destination_of
cleanup_expired_uploads_test = (refl, refl, refl, refl)

cleanup_candidates-IsKept_example :
    IsKept "u"
      (upload "u" 100)
      library
      (cleanup_candidates 6
        (λ _. true)
        (λ _. true)
        (λ _. false)
        (λ _. false)
        (λ _. (false, false))
        world
        (cleanup_candidate_snapshot (λ _. true) (λ _. false) world ("x" ∷ "u" ∷ []) library)
        library).0
unfolding fresh_upload_session
cleanup_candidates-IsKept_example =
    cleanup_candidates-IsKept 6 (λ _. true) (λ _. true) (λ _. false) (λ _. false)
      (λ _. (false, false)) world
      (cleanup_candidate_snapshot (λ _. true) (λ _. false) world ("x" ∷ "u" ∷ []) library) library
      "u" (upload "u" 100) refl refl refl
