-- ===== src/Uploads/Recover.antt =====
-- Recovery of interrupted uploads: `recover_finalizing_session`, `recover_verifying_session`,
-- `recover_finalizing_uploads`, `get_upload_for_user` and `uploaded_part_numbers` of
-- app/services/videos.py. The handlers hold the lifecycle lease, the finalization lock and the
-- upload's lock, so that each is one step. Whether moving a
-- file fails is an argument: `failing.0` on the way to the destination, `failing.1` on the way back.
pub mod Settled
use asset_harbor.Base.{
  ℕ, ◌+◌, String, Bool, not, ◌&&◌, ◌||◌, Option, none, some, List, [], ◌∷◌, Result, ok, err, http,
  os_error, ◌>>=◌, ◌>>◌, raise_if, or_raise, leb, ltb, ◌==◌, is_some, if◌then◌else◌, where_,
}
use asset_harbor.Base.Text.{Text, text_eq}
use asset_harbor.Model.{Db, AuthScope, Principal, Status, UploadSession}
use asset_harbor.Access.{
  bind_auth_scope, unmarked, check_team_access, get_user, has_global_admin_scope,
}
use asset_harbor.Sniff.{Bytes}
use asset_harbor.Uploads.Create.{World, new_expiry}
use asset_harbor.Uploads.Parts.{fresh_upload_session, assign_file}
use asset_harbor.Uploads.Recovery.{FinalInfo, validated_finalizing_info}
use asset_harbor.Uploads.Cancel.{Library, is_finalizing, cancel_upload_session}
use asset_harbor.Uploads.Finalize.{
  with_session, has_file, create_final_image, is_verifying, resumable,
}

-- A dictionary of published files, with one of them replaced.
abbrev pub assign_published : (Text → Option Bytes) → Text → Option Bytes → Text → Option Bytes
assign_published files path f other = if text_eq path other then f else files other

-- `destination.is_file()`
abbrev pub is_published : Library → Text → Bool
is_published s path = is_some (s.published path)

-- `os.replace(source, destination)`
unfoldable pub publish_file : String → Text → Library → Library
publish_file upload_id path s = record s {
  part_files = assign_file s.part_files upload_id none;
  published = assign_published s.published path (s.part_files upload_id);
}

-- `os.replace(destination, source)`, or only the removal of the destination where the source is
-- still there.
unfoldable pub withdraw_file : String → Text → Library → Library
withdraw_file upload_id path s = record s {
  part_files =
      if has_file s upload_id
      then s.part_files
      else assign_file s.part_files upload_id (s.published path);
  published = assign_published s.published path none;
}

-- The columns of a session whose image is there.
abbrev pub completed : World → Text → UploadSession → UploadSession
completed w code upload = record upload {
  status = Status.completed;
  final_code = some code;
  completed_at = elim (upload.completed_at) [ none ↦ some w.now | some t ↦ some t ];
  updated_at = w.now;
  expires_at = new_expiry w;
}

abbrev failed : World → UploadSession → UploadSession
failed w upload = record upload {
  status = Status.failed;
  updated_at = w.now;
  expires_at = new_expiry w;
}

-- The owner acts with the scope that the metadata records, never with the account's role alone.
unfoldable pub recovery_access : Db → UploadSession → Bool → Result (Unit {0})
recovery_access db upload global_admin = do
  owner ← or_raise (get_user db upload.owner_id) (http 404)
  check_team_access db upload.team_id
      (bind_auth_scope (unmarked owner) (if global_admin then AuthScope.jwt else AuthScope.tenant))

-- The image and the completed session.
unfoldable pub create_and_complete : World → UploadSession → FinalInfo → Library → Library
create_and_complete w upload info s =
    with_session upload.upload_id (completed w info.code)
      (record s { db = (create_final_image w upload info s.db).0 })

-- Authorization was revoked: the bytes go back to where the upload can go on.
unfoldable pub withdraw :
    World → (Bool × Bool) → UploadSession → FinalInfo → Library → Library × Result (Unit {0})
withdraw w failing upload info s = if failing.1 then (s, err os_error) else (
  with_session upload.upload_id (resumable w (is_some (get_user s.db upload.owner_id)))
      (withdraw_file upload.upload_id info.destination s),
  ok tt,
)

-- What recovery does where the destination is there.
unfoldable pub settle :
    World → (Bool × Bool) → UploadSession → FinalInfo → Library → Library × Result (Unit {0})
settle w failing upload info s = elim (recovery_access s.db upload info.global_admin) [
  | err _ ↦ withdraw w failing upload info s
  | ok _ ↦ (create_and_complete w upload info s, ok tt)
]

-- What recovery does with valid metadata: the move is made where it is missing.
unfoldable pub recover_valid :
    World → (Bool × Bool) → UploadSession → FinalInfo → Library → Library × Result (Unit {0})
recover_valid w failing upload info s =
    if is_published s info.destination
    then settle w failing upload info s
    else if not (has_file s upload.upload_id)
    then (with_session upload.upload_id (failed w) s, ok tt)
    else if failing.0
    then (s, err os_error)
    else settle w failing upload info (publish_file upload.upload_id info.destination s)

-- The tests of `get_upload_for_user` on the session; `has_directory` tells whether `session_dir`
-- accepts the identifier.
unfoldable pub visible_upload : Db → (String → Bool) → String → Principal → Result UploadSession
visible_upload db has_directory upload_id user = do
  raise_if (not (has_directory upload_id)) (http 404)
  upload ← or_raise (fresh_upload_session db upload_id) (http 404)
  raise_if (not (upload.owner_id == user.user.id) && not (has_global_admin_scope user)) (http 404)
  check_team_access db upload.team_id user
  ok upload

module _ (code_length : ℕ) (inside : Text → Bool) where
  unfoldable pub recover_finalizing_session :
      World → (Bool × Bool) → String → Library → Library × Result (Unit {0})
  recover_finalizing_session w failing upload_id s = elim (fresh_upload_session s.db upload_id) [
    | none ↦ (s, ok tt)
    | some upload ↦
        if is_finalizing upload.status
        then elim (validated_finalizing_info code_length inside upload.resume_info) [
          | err _ ↦ (with_session upload_id (resumable w (has_file s upload_id)) s, ok tt)
          | ok info ↦ recover_valid w failing upload info s
        ]
        else (s, ok tt)
  ]

  unfoldable pub recover_verifying_session : World → String → Library → Library
  recover_verifying_session w upload_id s = elim (fresh_upload_session s.db upload_id) [
    | none ↦ s
    | some current ↦
        if is_verifying current.status
        then with_session upload_id (resumable w (has_file s upload_id)) s
        else s
  ]

  -- One upload of `recover_finalizing_uploads`, as it was when the list was read.
  recover_one :
      World → (String → Bool × Bool) → UploadSession → Library → Library × Result (Unit {0})
  recover_one w failing upload s =
      if is_verifying upload.status
      then (recover_verifying_session w upload.upload_id s, ok tt)
      else recover_finalizing_session w (failing upload.upload_id) upload.upload_id s

  pub recover_each : World → (String → Bool × Bool) → List UploadSession → Library → Library × ℕ
  unfolding recover_one
  recover_each w failing [] s = (s, 0)
  recover_each w failing (u ∷ uploads) s =
      let one = recover_one w failing u s in
      let rest = recover_each w failing uploads one.0 in
      (rest.0, elim (one.1) [ ok _ ↦ 1 + rest.1 | err _ ↦ rest.1 ])

  -- `recover_finalizing_uploads`, with the number of sessions that are recovered.
  unfoldable pub recover_finalizing_uploads : World → (String → Bool × Bool) → Library → Library × ℕ
  unfolding recover_each
  recover_finalizing_uploads w failing s =
      recover_each w failing
        (where_ (λ (u : UploadSession). is_verifying u.status || is_finalizing u.status)
          s.db.upload_sessions)
        s

  -- The session again, after it may have been recovered; an expired one is cancelled.
  unfoldable pub still_there :
      World → Bool → String → Principal → Library → Library × Result UploadSession
  still_there w cleanup_expired upload_id user s = elim (fresh_upload_session s.db upload_id) [
    | none ↦ (s, err (http 404))
    | some upload ↦
        if ltb w.now upload.expires_at
        then (s, ok upload)
        else if not cleanup_expired
        then (s, err (http 410))
        else elim (cancel_upload_session code_length inside upload_id user s) [
          | err e ↦ (s, err e)
          | ok cancelled ↦ (cancelled, err (http 410))
        ]
  ]

  -- `get_upload_for_user`
  unfoldable pub get_upload_for_user :
      World
      → (Bool × Bool)
      → (String → Bool)
      → String
      → Principal
      → Bool
      → Library
      → Library × Result UploadSession
  get_upload_for_user w failing has_directory upload_id user cleanup_expired s =
      elim (visible_upload s.db has_directory upload_id user) [
        | err e ↦ (s, err e)
        | ok upload ↦
            if leb upload.expires_at w.now && is_finalizing upload.status
            then (let recovered = recover_finalizing_session w failing upload_id s in
                elim (recovered.1) [
                  | err e ↦ (recovered.0, err e)
                  | ok _ ↦ still_there w cleanup_expired upload_id user recovered.0
                ])
            else still_there w cleanup_expired upload_id user s
      ]
