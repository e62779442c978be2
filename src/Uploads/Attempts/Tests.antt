-- ===== src/Uploads/Attempts/Tests.antt =====
-- The theorems on completion at an upload of the first twenty bytes of an MP4 file in two parts. The
-- digest is the same for all bytes.
use asset_harbor.Base.{ℕ, ◌≡◌, refl, true, false, none, some, [], ◌∷◌, ok, arith}
use asset_harbor.Base.Text.{Text, codes}
use asset_harbor.Model.{
  User, Role, Principal, AuthScope, empty_db, UploadSession, UploadPart, Status, ResumeInfo,
  default_settings,
}
use asset_harbor.Access.{
  fresh_library_user, copy_auth_scope, bind_auth_scope, get_user, check_team_access,
  has_global_admin_scope,
}
use asset_harbor.Chunks.{is_sha256, all_hex, expected_part}
use asset_harbor.ShortCode.{generate_short_code}
use asset_harbor.Sniff.{Bytes, video_extension}
use asset_harbor.Sniff.Sample.{mp4_head, detect_mp4}
use asset_harbor.Uploads.Create.{World}
use asset_harbor.Uploads.Parts.{fresh_upload_session, verify_parts_and_sha256, verify_from}
use asset_harbor.Uploads.Recovery.{FinalInfo, all_base62, is_base62}
use asset_harbor.Uploads.Cancel.{Library}
use asset_harbor.Uploads.Finalize.{
  set_session, with_session, has_verification_nonce, unique_video_code, get_image_by_code,
}
use asset_harbor.Uploads.Recover.{recover_finalizing_session}
use asset_harbor.Uploads.Recover.Settled.{IsSettled, recover_finalizing_session_twice}
use asset_harbor.Uploads.Begin.{
  Claim, claimed, begin_verification, begin_attempt, authorized_session, check_active, parts_of,
  by_number, insert_part, numbered_from, check_parts, verifying,
}
use asset_harbor.Uploads.Verify.{Verified, verify_source, calculate_quick_fingerprint}
use asset_harbor.Uploads.Verify.Whole.{IsWhole, verify_source-IsWhole}
use asset_harbor.Uploads.Complete.{
  Chance, check_attempt, choose_info, final_info, finalizing, prepare_final,
}
use asset_harbor.Uploads.Complete.Dumped.{IsFound, IsCode}
use asset_harbor.Uploads.Complete.Resumed.{IsOpen}
use asset_harbor.Uploads.Complete.Atomic.{IsAtomic, finished, prepare_final-IsAtomic}
use asset_harbor.Uploads.Attempts.{begins, reads, here, next}
use asset_harbor.Uploads.Attempts.Stable.{IsCurrent, prepare_final-IsCurrent}

abbrev owner : User
owner = record {
  id = 1;
  username = "alice";
  password_hash = "";
  role = Role.user;
  auth_version = 0;
  created_at = 10;
}

abbrev login : Principal
login = record { user = owner; scope = AuthScope.jwt; identity = some (1, 10) }

abbrev world : World
world = record { settings = default_settings; now = 50; free = 0; reserved = 0; uuid = "" }

abbrev digest : Text
digest = codes "0123456789abcdef0123456789abcdef0123456789abcdef0123456789abcdef"

abbrev digest_of : Bytes → Text
digest_of bytes = digest

abbrev upload : UploadSession
upload = record {
  upload_id = "u";
  owner_id = 1;
  team_id = none;
  original_filename = codes "a.mp4";
  name = codes "a";
  visibility = "public";
  size = 20;
  chunk_size = 10;
  total_parts = 2;
  fingerprint = digest;
  status = Status.active;
  expires_at = 100;
  final_code = none;
  resume_info = ResumeInfo.empty;
  created_at = 0;
  updated_at = 0;
  completed_at = none;
}

abbrev part : ℕ → ℕ → UploadPart
part n offset = record {
  upload_id = "u";
  part_number = n;
  offset = offset;
  size = 10;
  sha256 = digest;
  created_at = 40;
}

abbrev file : Bytes
file = mp4_head

abbrev uploaded : Library
uploaded = record {
  db = record empty_db {
    users = owner ∷ [];
    upload_sessions = upload ∷ [];
    upload_parts = part 1 10 ∷ part 0 0 ∷ [];
  };
  part_files = λ _. some file;
  published = λ _. none;
  keeps_directory = λ _. false;
  keeps_file = λ _. false;
}

abbrev held : Library
held = with_session "u" (verifying world "n") uploaded

abbrev claim : Claim
claim = record {
  parts = part 0 0 ∷ part 1 10 ∷ [];
  expected_size = 20;
  expected_fingerprint = digest;
}

abbrev verified : Verified
verified = record { content_type = "video/mp4"; extension = "mp4"; sha256 = digest }

abbrev chance : Chance
chance = record {
  draws = (1 ∷ 2 ∷ 3 ∷ 4 ∷ 5 ∷ 6 ∷ []) ∷ [];
  prepare = none;
  move_fails = false;
  commit_fails = none;
}

abbrev info : FinalInfo
info = final_info verified false (codes "123456")

abbrev prepared : Library
prepared = with_session "u" (finalizing world info) held

check_uploaded : check_active uploaded upload (copy_auth_scope login owner) ≡ ok claim
unfolding check_active copy_auth_scope bind_auth_scope check_team_access parts_of by_number
    insert_part numbered_from check_parts expected_part
check_uploaded = refl

begin_u :
    begin_verification 6 (λ _. true) world (false, false) "n" "u" login uploaded
    ≡ (held, ok (claimed claim))
unfolding begin_verification begin_attempt authorized_session fresh_library_user copy_auth_scope
    bind_auth_scope get_user check_active check_team_access parts_of by_number insert_part
    numbered_from check_parts expected_part fresh_upload_session set_session
begin_u = refl

read_u : verify_source digest_of (some file) claim ≡ ok verified
unfolding verify_source calculate_quick_fingerprint verify_parts_and_sha256 verify_from
read_u = rw detect_mp4 refl

prepare_u : prepare_final world chance "u" "n" verified login held ≡ (prepared, ok info)
unfolding prepare_final check_attempt choose_info fresh_library_user copy_auth_scope bind_auth_scope
    get_user check_team_access has_global_admin_scope fresh_upload_session set_session
    has_verification_nonce unique_video_code get_image_by_code generate_short_code
prepare_u = refl

verified-IsFound : IsFound verified
unfolding video_extension is_sha256 all_hex
verified-IsFound = record { listed = refl; digest = refl }

digits-IsCode : IsCode 6 (codes "123456")
unfolding all_base62 is_base62
digits-IsCode = record { letters = refl; long = refl }

verify_source-IsWhole_example : IsWhole digest_of uploaded upload claim verified
verify_source-IsWhole_example =
    verify_source-IsWhole digest_of uploaded upload (copy_auth_scope login owner) claim verified
      (record { sized = omega arith; chunked = omega arith; counted = refl }) check_uploaded read_u

held-IsOpen : IsOpen "u" held.db
unfolding set_session
held-IsOpen = ((λ _. refl), tt)

prepare_final-IsAtomic_example :
    IsAtomic 6 (λ _. true) world world chance "u" verified info held prepared
prepare_final-IsAtomic_example =
    prepare_final-IsAtomic 6 (λ _. true) world world chance "u" "n" verified login held prepared
      info prepare_u refl ((refl, ground arith), tt) verified-IsFound refl refl held-IsOpen refl

recovered_u : IsAtomic 6 (λ _. true) world world chance "u" verified info held prepared
recovered_u =
    prepare_final-IsAtomic 6 (λ _. true) world world chance "u" "n" verified login held prepared
      info prepare_u refl ((refl, ground arith), tt) verified-IsFound refl refl held-IsOpen refl

abbrev done_ : Library
done_ = finished world chance "u" info prepared

recover_finalizing_session_twice_example :
    IsSettled "u" done_
    × (recover_finalizing_session 6 (λ _. true) world (false, false) "u" done_ ≡ (done_, ok tt))
recover_finalizing_session_twice_example =
    recover_finalizing_session_twice 6 (λ _. true) world world (false, false) (false, false) "u"
      prepared done_ (recovered_u.before_move false)

prepare_final-IsCurrent_example :
    IsCurrent 6
      (λ _. true)
      digest_of
      "u"
      (record {
        library = held;
        claims = ("n", claim) ∷ [];
        readings = record { nonce = "n"; claim = claim; verified = verified } ∷ [];
      })
      (record { nonce = "n"; claim = claim; verified = verified })
      prepared
      info
prepare_final-IsCurrent_example =
    prepare_final-IsCurrent 6 (λ _. true) digest_of "u" world chance "n" login uploaded prepared
      (record {
        library = held;
        claims = ("n", claim) ∷ [];
        readings = record { nonce = "n"; claim = claim; verified = verified } ∷ [];
      })
      (record { nonce = "n"; claim = claim; verified = verified }) info
      (next (next here (begins world (false, false) "n" login claim held refl begin_u))
        (reads "n" "n" claim verified refl read_u))
      refl prepare_u
