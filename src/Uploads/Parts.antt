-- ===== src/Uploads/Parts.antt =====
-- Parts of an upload: `_commit_upload_part`, `_fresh_upload_session`, `uploaded_part_numbers` and
-- `_verify_parts_and_sha256` of app/services/videos.py. A staged part is its bytes, `none` where
-- the staging file is gone. The handlers hold the lifecycle lease and the upload's lock, so that
-- each is one step, and the unique index on the parts, which the code checks beforehand under the
-- same locks, is not violated.
pub mod Intact
pub mod Verified
mod Tests
use asset_harbor.Base.{
  ℕ, suc, ◌+◌, ◌-◌, ◌≤◌, min, String, Bool, true, false, not, ◌&&◌, ◌||◌, Option, none, some, List,
  [], ◌∷◌, ◌++◌, map, Result, ok, err, http, ◌>>=◌, ◌>>◌, raise_if, or_raise, ltb, leb, ◌==◌,
  is_none, is_some, if◌then◌else◌, str_eq, where_, find, update, length, take, drop,
}
use asset_harbor.Base.Text.{Text, text_eq}
use asset_harbor.Model.{Db, Status, UploadSession, UploadPart, Principal}
use asset_harbor.Access.{fresh_library_user, has_global_admin_scope, check_team_access}
use asset_harbor.Sniff.{Bytes, detect_video_type}
use asset_harbor.Uploads.Bytes.{write_at, region}
use asset_harbor.Uploads.Create.{World, new_expiry}

-- The database and the part files, `session_file(upload_id)`.
pub record Store : Type 0 where
  pub db : Db
  pub part_files : String → Option Bytes

-- A dictionary of files, with one of them replaced.
abbrev pub assign_file : (String → Option Bytes) → String → Option Bytes → String → Option Bytes
assign_file files k f j = if str_eq k j then f else files j

-- `_fresh_upload_session`
unfoldable pub fresh_upload_session : Db → String → Option UploadSession
fresh_upload_session db upload_id = find (λ u. str_eq u.upload_id upload_id) db.upload_sessions

unfoldable pub get_part : Db → String → ℕ → Option UploadPart
get_part db upload_id n =
    find (λ p. str_eq p.upload_id upload_id && p.part_number == n) db.upload_parts

-- A staged part: its place, its digest as it was computed while it was received, and its bytes.
pub record Staged : Type 0 where
  pub part_number : ℕ
  pub offset : ℕ
  pub received : ℕ
  pub actual_sha : Text
  pub bytes : Option Bytes

abbrev pub is_active : Status → Bool
is_active Status.active = true
is_active _ = false

-- `expires_at` and `updated_at` of the session
unfoldable pub touch : World → String → Db → Db
touch w upload_id db = record db {
  upload_sessions =
      update (λ u. str_eq u.upload_id upload_id)
        (λ u. record u { expires_at = new_expiry w; updated_at = w.now }) db.upload_sessions;
}

-- The bytes of the part file after the part is moved or copied into it.
unfoldable pub placed : Option Bytes → ℕ → Bytes → Bytes
placed none offset bytes = if offset == 0 then bytes else write_at offset bytes []
placed (some file) offset bytes = write_at offset bytes file

abbrev pub new_part : World → String → Staged → UploadPart
new_part w upload_id st = record {
  upload_id = upload_id;
  part_number = st.part_number;
  offset = st.offset;
  size = st.received;
  sha256 = st.actual_sha;
  created_at = w.now;
}

-- The part whose number is already taken: the same data is accepted again.
unfoldable pub repeat_part :
    World → String → Staged → UploadSession → UploadPart → Store → Result (UploadPart × Store)
repeat_part w upload_id st current existing s =
    if text_eq existing.sha256 st.actual_sha && existing.size == st.received
    then ok
        (existing, if is_active current.status then record s { db = touch w upload_id s.db } else s)
    else err (http 409)

-- The first part must begin a supported container.
unfoldable pub check_first_part : Staged → Bytes → Result (Unit {0})
check_first_part st bytes =
    raise_if
      (st.part_number == 0 && is_none (detect_video_type (take (min st.received 65536) bytes)))
      (http 415)

-- The state with the part's bytes placed and its row added.
unfoldable pub with_part : World → String → Staged → Bytes → Store → Store
with_part w upload_id st bytes s =
    let db1 = touch w upload_id s.db in
    record {
      db = record db1 { upload_parts = db1.upload_parts ++ (new_part w upload_id st ∷ []) };
      part_files =
          assign_file s.part_files upload_id
            (some (placed (s.part_files upload_id) st.offset bytes));
    }

unfoldable pub publish_part :
    World → String → Staged → UploadSession → Store → Result (UploadPart × Store)
publish_part w upload_id st current s = do
  raise_if (not (is_active current.status)) (http 409)
  bytes ← or_raise st.bytes (http 409)
  check_first_part st bytes
  ok (new_part w upload_id st, with_part w upload_id st bytes s)

-- `_commit_upload_part`
unfoldable pub commit_upload_part :
    World → String → Principal → Staged → Store → Result (UploadPart × Store)
commit_upload_part w upload_id p st s = do
  user ← fresh_library_user s.db p
  current ← or_raise (fresh_upload_session s.db upload_id) (http 404)
  raise_if (not (current.owner_id == user.user.id) && not (has_global_admin_scope user)) (http 404)
  check_team_access s.db current.team_id user
  elim (get_part s.db upload_id st.part_number) [
    | some existing ↦ repeat_part w upload_id st current existing s
    | none ↦ publish_part w upload_id st current s
  ]

-- `_verify_parts_and_sha256`, for a digest of byte strings: every part is read back and compared,
-- in the order given, and the digest of all of them together is returned.
module _ (sha256 : Bytes → Text) where
  unfoldable pub verify_from : Bytes → List UploadPart → Bytes → Result Text
  verify_from file [] whole = ok (sha256 whole)
  verify_from file (p ∷ parts) whole =
      let rest = verify_from file parts (whole ++ region p.offset p.size file) in
      if ltb (length (region p.offset p.size file)) p.size
      then err (http 409)
      else if not (text_eq (sha256 (region p.offset p.size file)) p.sha256)
      then err (http 409)
      else rest

  unfoldable pub verify_parts_and_sha256 : Bytes → List UploadPart → Result Text
  unfolding verify_from
  verify_parts_and_sha256 file parts = verify_from file parts []
