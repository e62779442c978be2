-- ===== src/Uploads/Begin.antt =====
-- The first phase of a completion: the part of `complete_upload_session` under its first lease, and
-- `uploaded_part_numbers`, of app/services/videos.py.
use asset_harbor.Base.{
  ℕ, ◌+◌, String, Bool, true, false, not, ◌&&◌, ◌||◌, Option, none, some, List, [], ◌∷◌, map,
  Result, ok, err, http, runtime_error, ◌>>=◌, ◌>>◌, raise_if, or_raise, leb, ◌==◌, if◌then◌else◌,
  str_eq, where_, length,
}
use asset_harbor.Base.Text.{Text}
use asset_harbor.Model.{
  Db, Principal, Status, ResumeInfo, UploadSession, UploadPart, Image, MediaKind, pos,
}
use asset_harbor.Access.{fresh_library_user, has_global_admin_scope, check_team_access}
use asset_harbor.Chunks.{expected_part}
use asset_harbor.Sniff.{Bytes}
use asset_harbor.Media.{get_media}
use asset_harbor.Uploads.Create.{World, new_expiry}
use asset_harbor.Uploads.Parts.{fresh_upload_session, is_active}
use asset_harbor.Uploads.Cancel.{Library, is_finalizing}
use asset_harbor.Uploads.Finalize.{with_session, get_image_by_code}
use asset_harbor.Uploads.Recover.{recover_finalizing_session}

-- `ORDER BY part_number`
unfoldable pub insert_part : UploadPart → List UploadPart → List UploadPart
insert_part p [] = p ∷ []
insert_part p (q ∷ parts) =
    let rest = insert_part p parts in
    if leb p.part_number q.part_number then p ∷ q ∷ parts else q ∷ rest

unfoldable pub by_number : List UploadPart → List UploadPart
by_number [] = []
by_number (p ∷ parts) = insert_part p (by_number parts)

unfoldable pub parts_of : Db → String → List UploadPart
parts_of db upload_id =
    by_number (where_ (λ (p : UploadPart). str_eq p.upload_id upload_id) db.upload_parts)

-- `uploaded_part_numbers`
unfoldable pub uploaded_part_numbers : Db → String → List ℕ
uploaded_part_numbers db upload_id = map (λ (p : UploadPart). p.part_number) (parts_of db upload_id)

-- The parts from a number on are numbered without a gap: `list(range(total_parts))`.
unfoldable pub numbered_from : ℕ → List UploadPart → Bool
numbered_from n [] = true
numbered_from n (p ∷ parts) = p.part_number == n && numbered_from (n + 1) parts

-- Every part has the offset and size of its number; a number out of range raises.
unfoldable pub check_parts : UploadSession → List UploadPart → Result (Unit {0})
check_parts u [] = ok tt
check_parts u (p ∷ parts) =
    let rest = check_parts u parts in
    do
      expected ← expected_part u (pos p.part_number)
      raise_if (not (p.offset == expected.0) || not (p.size == expected.1)) (http 409)
      rest

-- What the unlocked reading goes by.
pub record Claim : Type 0 where
  pub parts : List UploadPart
  pub expected_size : ℕ
  pub expected_fingerprint : Text

-- The first phase ends with the image that is there already, or with the claim of an attempt.
pub data Begun : Type 0 where
  done : Image → Begun
  claimed : Claim → Begun

abbrev pub size_is : Option Bytes → ℕ → Bool
size_is none size = false
size_is (some file) size = length file == size

-- What the first phase checks of an active session.
unfoldable pub check_active : Library → UploadSession → Principal → Result Claim
unfolding by_number check_parts numbered_from
check_active s current user = do
  raise_if (not (is_active current.status)) (http 409)
  check_team_access s.db current.team_id user
  let parts = parts_of s.db current.upload_id
  raise_if (not (length parts == current.total_parts) || not (numbered_from 0 parts)) (http 409)
  check_parts current parts
  raise_if (not (size_is (s.part_files current.upload_id) current.size)) (http 409)
  ok (record {
    parts = parts;
    expected_size = current.size;
    expected_fingerprint = current.fingerprint;
  })

-- The session and the user of a request, fresh from the database.
unfoldable pub authorized_session : Db → String → Principal → Result (UploadSession × Principal)
authorized_session db upload_id actor = do
  user ← fresh_library_user db actor
  current ← or_raise (fresh_upload_session db upload_id) (http 404)
  raise_if (not (current.owner_id == user.user.id) && not (has_global_admin_scope user)) (http 404)
  ok (current, user)

-- The image of a completed session, if its status and code say that it is one.
abbrev pub final_code_of : UploadSession → Option Text
final_code_of upload = elim (upload.status) [
  | Status.completed ↦ elim (upload.final_code) [ some (c ∷ code) ↦ some (c ∷ code) | _ ↦ none ]
  | _ ↦ none
]

abbrev pub verifying : World → String → UploadSession → UploadSession
verifying w nonce upload = record upload {
  status = Status.verifying;
  resume_info = ResumeInfo.nonce nonce;
  updated_at = w.now;
  expires_at = new_expiry w;
}

-- The session after a recovery that the request has made.
unfoldable pub after_recovery : Library → String → Result Begun
after_recovery s upload_id = do
  current ← or_raise (fresh_upload_session s.db upload_id) (http 409)
  code ← or_raise (final_code_of current) (http 409)
  image ← or_raise (get_image_by_code s.db code) runtime_error
  ok (done image)

unfoldable pub recovered_attempt : String → Library × Result (Unit {0}) → Library × Result Begun
recovered_attempt upload_id (s, err e) = (s, err e)
recovered_attempt upload_id (s, ok _) = (s, after_recovery s upload_id)

module _ (code_length : ℕ) (inside : Text → Bool) where
  -- The first phase, for a session that is found and whose image is not there.
  unfoldable pub begin_attempt :
      World → (Bool × Bool) → String → UploadSession → Principal → Library → Library × Result Begun
  unfolding recovered_attempt
  begin_attempt w failing nonce current user s =
      if is_finalizing current.status
      then recovered_attempt current.upload_id
          (recover_finalizing_session code_length inside w failing current.upload_id s)
      else elim (check_active s current user) [
        | err e ↦ (s, err e)
        | ok claim ↦ (with_session current.upload_id (verifying w nonce) s, ok (claimed claim))
      ]

  -- The first phase of `complete_upload_session`.
  unfoldable pub begin_verification :
      World → (Bool × Bool) → String → String → Principal → Library → Library × Result Begun
  begin_verification w failing nonce upload_id actor s =
      elim (authorized_session s.db upload_id actor) [
        | err e ↦ (s, err e)
        | ok (current, user) ↦ elim (final_code_of current) [
          | none ↦ begin_attempt w failing nonce current user s
          | some code ↦ (
            s,
            elim (get_media s.db code MediaKind.video) [
              | none ↦ err (http 409)
              | some image ↦ ok (done image)
            ],
          )
        ]
      ]
