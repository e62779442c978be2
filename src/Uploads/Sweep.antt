-- ===== src/Uploads/Sweep.antt =====
-- The periodic cleanup of uploads: `_cleanup_candidate_snapshot`, the five helpers that act on its
-- candidates, and `cleanup_expired_uploads` of app/services/videos.py. The candidates are hints:
-- requests may have changed the state since they were collected, and each helper, which is one step
-- under its locks, looks again. `has_directory` tells whether `session_dir` accepts an identifier,
-- `stat_fails` whether the size of its file raises, and `move_fails` whether its directory is none or
-- its move raises. Temporary files of staged parts are not in the state.
pub mod Apart
pub mod Kept
pub mod Live
mod Tests
use asset_harbor.Base.{
  ℕ, ◌+◌, ◌-◌, ◌*◌, ◌≤◌, min, String, Bool, true, false, not, ◌&&◌, ◌||◌, Option, none, some, List,
  [], ◌∷◌, ◌++◌, map, Result, ok, err, ltb, leb, ◌==◌, is_none, is_some, if◌then◌else◌, str_eq,
  where_, length,
}
use asset_harbor.Base.Text.{Text}
use asset_harbor.Model.{Db, UploadSession, UploadPart}
use asset_harbor.Sniff.{Bytes}
use asset_harbor.Chunks.{is_sha256}
use asset_harbor.Uploads.Create.{World}
use asset_harbor.Uploads.Parts.{fresh_upload_session, get_part, is_active, assign_file}
use asset_harbor.Uploads.Cancel.{Library, is_finalizing, delete_upload_session}
use asset_harbor.Uploads.Finalize.{is_verifying}
use asset_harbor.Uploads.Recover.{recover_finalizing_session, recover_verifying_session}

-- The size of the part file, 0 where it is not there.
abbrev pub file_size : Option Bytes → ℕ
file_size none = 0
file_size (some file) = length file

-- The offset and size of a part are those of its number, its bytes are within the file, and its
-- digest is written as one. An offset beyond the upload gives a negative size, which no part has.
unfoldable pub is_sound_part : UploadSession → ℕ → UploadPart → Bool
is_sound_part u size p =
    p.offset == p.part_number * u.chunk_size
    && ltb p.part_number u.total_parts
    && leb (p.part_number * u.chunk_size) u.size
    && p.size == min u.chunk_size (u.size - p.part_number * u.chunk_size)
    && leb (p.offset + p.size) size
    && is_sha256 p.sha256

-- What a snapshot collects.
pub record Candidates : Type 0 where
  pub expired : List String
  pub invalid_sessions : List String
  pub orphan_parts : List String
  pub invalid_parts : List (String × ℕ)
  pub directories : List String

abbrev pub without_part : String → ℕ → Library → Library
without_part upload_id n s = record s {
  db = record s.db {
    upload_parts =
        where_ (λ (p : UploadPart). not (str_eq p.upload_id upload_id && p.part_number == n))
          s.db.upload_parts;
  };
}

-- `_cleanup_orphan_parts_candidate`
unfoldable pub cleanup_orphan_parts_candidate : String → Library → Library
cleanup_orphan_parts_candidate upload_id s =
    if is_some (fresh_upload_session s.db upload_id) then s else record s {
      db = record s.db {
        upload_parts =
            where_ (λ (p : UploadPart). not (str_eq p.upload_id upload_id)) s.db.upload_parts;
      };
    }

-- `_cleanup_upload_directory`: a directory that no session tracks is moved away and removed.
unfoldable pub cleanup_upload_directory : (String → Bool) → String → Library → Library
cleanup_upload_directory move_fails name s =
    if is_some (fresh_upload_session s.db name) || move_fails name
    then s
    else record s { part_files = assign_file s.part_files name none }

module _ (has_directory stat_fails : String → Bool) where
  -- `_cleanup_invalid_part_candidate`
  unfoldable pub cleanup_invalid_part_candidate : String → ℕ → Library → Library
  cleanup_invalid_part_candidate upload_id n s = elim (fresh_upload_session s.db upload_id) [
    | none ↦ s
    | some upload ↦ if not (is_active upload.status) then s else elim (get_part s.db upload_id n) [
      | none ↦ s
      | some part ↦
          if not (has_directory upload_id) || stat_fails upload_id
          then s
          else if is_sound_part upload (file_size (s.part_files upload_id)) part
          then s
          else without_part upload_id n s
    ]
  ]

  -- The parts of a session, numbered, that its columns or its part file contradict.
  unfoldable pub invalid_parts_of : Library → List UploadSession → List (String × ℕ)
  invalid_parts_of s [] = []
  invalid_parts_of s (u ∷ sessions) =
      let rest = invalid_parts_of s sessions in
      if is_active u.status && has_directory u.upload_id && not (stat_fails u.upload_id)
      then map (λ (p : UploadPart). (u.upload_id, p.part_number))
          (where_
            (λ (p : UploadPart).
              str_eq p.upload_id u.upload_id
              && not (is_sound_part u (file_size (s.part_files u.upload_id)) p))
            s.db.upload_parts)
        ++ rest
      else rest

  -- `_cleanup_candidate_snapshot`, with the directories of `_snapshot_upload_directories`. The
  -- identifiers of orphan parts are neither sorted nor free of repetitions here, which changes
  -- nothing of what is deleted.
  unfoldable pub cleanup_candidate_snapshot : World → List String → Library → Candidates
  unfolding invalid_parts_of
  cleanup_candidate_snapshot w directories s = record {
    expired =
        map (λ (u : UploadSession). u.upload_id)
          (where_ (λ (u : UploadSession). leb u.expires_at w.now) s.db.upload_sessions);
    invalid_sessions =
        map (λ (u : UploadSession). u.upload_id)
          (where_ (λ (u : UploadSession). is_active u.status && not (has_directory u.upload_id))
            s.db.upload_sessions);
    orphan_parts =
        map (λ (p : UploadPart). p.upload_id)
          (where_ (λ (p : UploadPart). is_none (fresh_upload_session s.db p.upload_id))
            s.db.upload_parts);
    invalid_parts = invalid_parts_of s s.db.upload_sessions;
    directories = directories;
  }

module _ (code_length : ℕ) (inside : Text → Bool) where
  -- The session is gone afterwards, and counted.
  abbrev pub removed : String → Library → Library × Bool
  removed upload_id s = (delete_upload_session code_length inside upload_id s, true)

  -- An interrupted completion is recovered first, which may give the session a new expiry.
  unfoldable pub recovered_first :
      World → (Bool × Bool) → String → UploadSession → Library → Library × Result (Unit {0})
  recovered_first w failing upload_id current s =
      if is_verifying current.status
      then (recover_verifying_session code_length inside w upload_id s, ok tt)
      else recover_finalizing_session code_length inside w failing upload_id s

  unfoldable pub removed_if_expired : World → String → Library → Library × Bool
  removed_if_expired w upload_id s = elim (fresh_upload_session s.db upload_id) [
    | none ↦ (s, false)
    | some current ↦ if ltb w.now current.expires_at then (s, false) else removed upload_id s
  ]

  unfoldable pub checked_again : World → String → Library × Result (Unit {0}) → Library × Bool
  checked_again w upload_id (s, err e) = (s, false)
  checked_again w upload_id (s, ok x) = removed_if_expired w upload_id s

module _ (code_length : ℕ) (inside : Text → Bool) (has_directory : String → Bool) where
  -- `_cleanup_expired_candidate`
  unfoldable pub cleanup_expired_candidate :
      World → (Bool × Bool) → String → Library → Library × Bool
  cleanup_expired_candidate w failing upload_id s = elim (fresh_upload_session s.db upload_id) [
    | none ↦ (s, false)
    | some current ↦
        if ltb w.now current.expires_at
        then (s, false)
        else if not (has_directory upload_id)
        then removed code_length inside upload_id s
        else if is_verifying current.status || is_finalizing current.status
        then checked_again code_length inside w upload_id
            (recovered_first code_length inside w failing upload_id current s)
        else removed code_length inside upload_id s
  ]

  -- `_cleanup_invalid_session_candidate`
  unfoldable pub cleanup_invalid_session_candidate : String → Library → Library × Bool
  cleanup_invalid_session_candidate upload_id s = elim (fresh_upload_session s.db upload_id) [
    | none ↦ (s, false)
    | some current ↦
        if is_active current.status && not (has_directory upload_id)
        then removed code_length inside upload_id s
        else (s, false)
  ]

-- A helper on every candidate of a list, and the number of those that it removed.
unfoldable pub each : {A : Type 0} → (A → Library → Library × Bool) → List A → Library → Library × ℕ
each step [] s = (s, 0)
each step (x ∷ l) s =
    let one = step x s in
    let rest = each step l one.0 in (rest.0, if one.1 then 1 + rest.1 else rest.1)

-- The helpers whose results are not counted.
unfoldable pub each_silent : {A : Type 0} → (A → Library → Library) → List A → Library → Library
each_silent step [] s = s
each_silent step (x ∷ l) s = each_silent step l (step x s)

module _ (code_length : ℕ) (inside : Text → Bool)
    (has_directory stat_fails move_fails : String → Bool) (failing : String → Bool × Bool) where
  -- What `cleanup_expired_uploads` does with the candidates.
  unfoldable pub cleanup_candidates : World → Candidates → Library → Library × ℕ
  cleanup_candidates w c s =
      let expired =
        each (λ k. cleanup_expired_candidate code_length inside has_directory w (failing k) k)
          c.expired s in
      let invalid =
        each (cleanup_invalid_session_candidate code_length inside has_directory) c.invalid_sessions
          expired.0 in
      let orphans = each_silent cleanup_orphan_parts_candidate c.orphan_parts invalid.0 in
      let parts =
        each_silent
          (λ (part : String × ℕ).
            cleanup_invalid_part_candidate has_directory stat_fails part.0 part.1)
          c.invalid_parts orphans in
      (each_silent (cleanup_upload_directory move_fails) c.directories parts, expired.1 + invalid.1)

  -- `cleanup_expired_uploads`, without requests in between.
  unfoldable pub cleanup_expired_uploads : World → List String → Library → Library × ℕ
  cleanup_expired_uploads w directories s =
      cleanup_candidates w (cleanup_candidate_snapshot has_directory stat_fails w directories s) s
