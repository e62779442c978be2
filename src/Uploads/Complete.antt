-- ===== src/Uploads/Complete.antt =====
-- The second phase of a completion, and the whole of `complete_upload_session` of
-- app/services/videos.py. The code gives up its locks before the second phase, which is three steps
-- here, one up to each point at which a crash leaves something behind. The removal of the empty
-- directory at the end is left out.
pub mod Atomic
pub mod Crashed
pub mod Dumped
pub mod Granted
pub mod Resumed
use asset_harbor.Base.{
  ℕ, String, Bool, true, false, not, ◌&&◌, ◌||◌, Option, none, some, List, [], ◌∷◌, Result, ok, err,
  http, runtime_error, os_error, Error, ◌>>=◌, ◌>>◌, raise_if, ◌==◌, if◌then◌else◌,
}
use asset_harbor.Base.Text.{Text}
use asset_harbor.Model.{Db, Principal, Status, ResumeInfo, UploadSession, Image}
use asset_harbor.Access.{fresh_library_user, has_global_admin_scope, check_team_access}
use asset_harbor.Sniff.{Bytes}
use asset_harbor.Uploads.Create.{World, new_expiry}
use asset_harbor.Uploads.Parts.{fresh_upload_session}
use asset_harbor.Uploads.Recovery.{Json, resume_info_of, FinalInfo, expected_relative}
use asset_harbor.Uploads.Cancel.{Library}
use asset_harbor.Uploads.Finalize.{
  with_session, has_file, unique_video_code, create_final_image, return_verifying_to_active,
  reset_verifying_upload, has_verification_nonce,
}
use asset_harbor.Uploads.Recover.{publish_file}
use asset_harbor.Uploads.Begin.{done, claimed, begin_verification, size_is}
use asset_harbor.Uploads.Verify.{Verified, verify_source}

-- What can go wrong while the metadata is made and committed.
pub data Failure : Type 0 where
  storage_full os_failure : Failure
  other : Error → Failure

abbrev pub failure_error : Failure → Error
failure_error storage_full = http 507
failure_error os_failure = http 500
failure_error (other e) = e

-- The outside of one run of the second phase: the random draws, a failure while the metadata
-- is prepared, a failing move and a failing last commit.
pub record Chance : Type 0 where
  pub draws : List (List ℕ)
  pub prepare : Option Failure
  pub move_fails : Bool
  pub commit_fails : Option Error

-- The checks of the second phase, on a session that is still there.
unfoldable pub check_attempt : Library → UploadSession → String → Principal → Result Principal
check_attempt s current nonce actor = do
  user ← fresh_library_user s.db actor
  raise_if (not (current.owner_id == user.user.id) && not (has_global_admin_scope user)) (http 404)
  raise_if (not (has_verification_nonce current nonce)) (http 409)
  check_team_access s.db current.team_id user
  raise_if (not (size_is (s.part_files current.upload_id) current.size)) (http 409)
  ok user

abbrev pub scope_name : Bool → String
scope_name true = "global_admin"
scope_name false = "tenant"

abbrev pub final_info : Verified → Bool → Text → FinalInfo
final_info v global_admin code = record {
  code = code;
  content_type = v.content_type;
  sha256 = v.sha256;
  destination = expected_relative code v.extension;
  global_admin = global_admin;
}

-- The dictionary `info`
abbrev pub info_fields : FinalInfo → List (String × Json)
info_fields info =
    ("code", Json.text info.code)
    ∷ ("stored_path", Json.text info.destination)
    ∷ ("content_type", Json.word info.content_type)
    ∷ ("sha256", Json.text info.sha256)
    ∷ ("auth_scope", Json.word (scope_name info.global_admin))
    ∷ []

-- `json.dumps(info)`, as recovery reads it back: the library prints and parses the object, and each
-- field is found by its key.
abbrev pub dumped : FinalInfo → ResumeInfo
dumped info = resume_info_of (info_fields info)

abbrev pub finalizing : World → FinalInfo → UploadSession → UploadSession
finalizing w info upload = record upload {
  status = Status.finalizing;
  resume_info = dumped info;
  updated_at = w.now;
  expires_at = new_expiry w;
}

-- The code and the metadata, or the failure that keeps them from being committed.
unfoldable pub choose_info : Chance → Verified → Bool → Db → Result FinalInfo
choose_info c v global_admin db = do
  code ← unique_video_code db c.draws
  elim (c.prepare) [
    | some failure ↦ err (failure_error failure)
    | none ↦ ok (final_info v global_admin code)
  ]

-- The second phase up to the commit of the recovery metadata. Where a check fails, the attempt is
-- reset; that changes nothing where the check is that of the nonce, after which the code raises
-- without it.
unfoldable pub prepare_final :
    World → Chance → String → String → Verified → Principal → Library → Library × Result FinalInfo
prepare_final w c upload_id nonce v actor s = elim (fresh_upload_session s.db upload_id) [
  | none ↦ (s, err (http 404))
  | some current ↦
      let chosen : Result FinalInfo = check_attempt s current nonce actor >>= λ user.
      choose_info c v (has_global_admin_scope user) s.db in
      elim chosen [
        | err e ↦ (return_verifying_to_active w current nonce s, err e)
        | ok info ↦ (with_session upload_id (finalizing w info) s, ok info)
      ]
]

abbrev back_to_active : World → UploadSession → UploadSession
back_to_active w upload = record upload {
  status = Status.active;
  resume_info = ResumeInfo.empty;
  updated_at = w.now;
}

-- `os.replace(source, destination)`, and what is done where it fails.
unfoldable pub move_final :
    World → Chance → String → FinalInfo → Library → Library × Result (Unit {0})
move_final w c upload_id info s =
    if c.move_fails || not (has_file s upload_id)
    then (
      if has_file s upload_id then with_session upload_id (back_to_active w) s else s,
      err os_error,
    )
    else (publish_file upload_id info.destination s, ok tt)

abbrev pub published_session : World → Text → UploadSession → UploadSession
published_session w code upload = record upload {
  status = Status.completed;
  final_code = some code;
  completed_at = some w.now;
  updated_at = w.now;
  expires_at = new_expiry w;
}

-- The image and the completed session; a commit that fails leaves both out.
unfoldable pub commit_final : World → Chance → String → FinalInfo → Library → Library × Result Image
commit_final w c upload_id info s = elim (fresh_upload_session s.db upload_id) [
  | none ↦ (s, err runtime_error)
  | some final ↦ elim (c.commit_fails) [
    | some e ↦ (s, err e)
    | none ↦
        let created = create_final_image w final info s.db in
        (
          with_session upload_id (published_session w info.code) (record s { db = created.0 }),
          ok created.1,
        )
  ]
]

-- The second phase, under the locks.
unfoldable pub publish :
    World → Chance → String → String → Verified → Principal → Library → Library × Result Image
publish w c upload_id nonce v actor s =
    let prepared = prepare_final w c upload_id nonce v actor s in
    elim (prepared.1) [
      | err e ↦ (prepared.0, err e)
      | ok info ↦
          let moved = move_final w c upload_id info prepared.0 in
          elim (moved.1) [
            | err e ↦ (moved.0, err e)
            | ok _ ↦ commit_final w c upload_id info moved.0
          ]
    ]

module _ (code_length : ℕ) (inside : Text → Bool) (digest_of : Bytes → Text) where
  -- `complete_upload_session`, where nothing else runs between its phases.
  unfoldable pub complete_upload_session :
      World
      → (Bool × Bool)
      → Chance
      → String
      → String
      → Principal
      → Library
      → Library × Result Image
  complete_upload_session w failing c nonce upload_id actor s =
      let begun = begin_verification code_length inside w failing nonce upload_id actor s in
      elim (begun.1) [
        | err e ↦ (begun.0, err e)
        | ok (done image) ↦ (begun.0, ok image)
        | ok (claimed claim) ↦ elim (verify_source digest_of (begun.0.part_files upload_id) claim) [
          | err e ↦ (reset_verifying_upload w upload_id nonce begun.0, err e)
          | ok v ↦ publish w c upload_id nonce v actor begun.0
        ]
      ]
