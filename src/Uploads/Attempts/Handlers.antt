-- ===== src/Uploads/Attempts/Handlers.antt =====
-- The commit of a part and the reset of an attempt, and an upload that an attempt holds.
use asset_harbor.Base.{
  String, Bool, true, not, ◌&&◌, ◌≡◌, refl, subst, ◌∙◌, ◌⊎◌, inl, inr, none, some, List, ok, http,
  arith, Bool-cases, Option-cases, >>=-eq-ok, raise_if-eq-ok, ok-injective, or_raise-eq-ok,
  raise_if, or_raise, pair-injective, err≢ok, ◌==◌,
}
use asset_harbor.Base.Text.{text_eq}
use asset_harbor.Model.{Db, UploadSession, UploadPart, Principal}
use asset_harbor.Access.{fresh_library_user, has_global_admin_scope, check_team_access}
use asset_harbor.Uploads.Create.{World}
use asset_harbor.Uploads.Parts.{
  Store, Staged, commit_upload_part, fresh_upload_session, get_part, repeat_part, publish_part,
  with_part, touch, is_active, check_first_part,
}
use asset_harbor.Uploads.Cancel.{Library}
use asset_harbor.Uploads.Finalize.{
  set_session, has_file, resumable, return_verifying_to_active, reset_verifying_upload,
  has_verification_nonce,
}
use asset_harbor.Uploads.Recover.Settled.{fresh-id}
use asset_harbor.Uploads.Attempts.{store_of, with_store}
use asset_harbor.Uploads.Attempts.Held.{
  holder, holder-some, active-free, set_session-free, touch-holder,
}

abbrev pub IsQuiet : String → Library → Library → Type 0
IsQuiet upload_id s t =
    (holder upload_id t.db ≡ none)
    ⊎ ((holder upload_id t.db ≡ holder upload_id s.db)
        × (t.part_files upload_id ≡ s.part_files upload_id))

-- The holder is read from the sessions alone.
parts-holder :
    (upload_id : String) (db : Db) (parts : List UploadPart)
    → holder upload_id (record db { upload_parts = parts }) ≡ holder upload_id db
unfolding holder fresh_upload_session
parts-holder upload_id db parts = refl

module _ (w : World) (upload_id : String) (st : Staged) (current : UploadSession)
    (l : Library) where
  -- An upload that takes a part is active.
  active-holder :
      fresh_upload_session l.db upload_id ≡ some current
      → is_active current.status ≡ true
      → holder upload_id l.db ≡ none
  active-holder found active =
      holder-some upload_id l.db current found
      ∙ active-free current.status current.resume_info active

  repeat_part-IsQuiet :
      (existing p : UploadPart) (s' : Store)
      → fresh_upload_session l.db upload_id ≡ some current
      → repeat_part w upload_id st current existing (store_of l) ≡ ok (p, s')
      → IsQuiet upload_id l (with_store l s')
  unfolding repeat_part
  repeat_part-IsQuiet existing p s' found e =
      elim (Bool-cases (text_eq existing.sha256 st.actual_sha && existing.size == st.received)) [
        | inr differs ↦ absurd (err≢ok (rw differs at e))
        | inl same ↦ elim (Bool-cases (is_active current.status)) [
          | inl active ↦
              let f = (pair-injective (ok-injective (rw (same, active) at e))).1 in
              inl (
                subst (λ (x : Store). holder upload_id x.db ≡ none) f
                  (touch-holder w upload_id l.db (active-holder found active)))
          | inr other ↦
              let f = (pair-injective (ok-injective (rw (same, other) at e))).1 in
              inr (
                subst
                  (λ (x : Store).
                    (holder upload_id x.db ≡ holder upload_id l.db)
                    × (x.part_files upload_id ≡ l.part_files upload_id))
                  f (refl, refl))
        ]
      ]

  publish_part-IsQuiet :
      (p : UploadPart) (s' : Store)
      → fresh_upload_session l.db upload_id ≡ some current
      → publish_part w upload_id st current (store_of l) ≡ ok (p, s')
      → IsQuiet upload_id l (with_store l s')
  unfolding publish_part with_part
  publish_part-IsQuiet p s' found e =
      let (_, active, e1) = >>=-eq-ok (raise_if (not (is_active current.status)) (http 409)) _ e in
      let (bytes, _, e2) = >>=-eq-ok (or_raise st.bytes (http 409)) _ e1 in
      let (_, _, e3) = >>=-eq-ok (check_first_part st bytes) _ e2 in
      let f = (pair-injective (ok-injective e3)).1 in
      let k = raise_if-eq-ok _ _ active in
      inl (
        subst (λ (x : Store). holder upload_id x.db ≡ none) f
          (parts-holder upload_id (touch w upload_id l.db) _
            ∙ touch-holder w upload_id l.db (active-holder found (ground arith))))

pub commit_upload_part-IsQuiet :
    (w : World) (upload_id : String) (actor : Principal) (st : Staged) (l : Library)
    (p : UploadPart) (s' : Store)
    → commit_upload_part w upload_id actor st (store_of l) ≡ ok (p, s')
    → IsQuiet upload_id l (with_store l s')
unfolding commit_upload_part
commit_upload_part-IsQuiet w upload_id actor st l p s' e =
    let (user, _, e1) = >>=-eq-ok (fresh_library_user l.db actor) _ e in
    let (current, seen, e2) =
      >>=-eq-ok (or_raise (fresh_upload_session l.db upload_id) (http 404)) _ e1 in
    let found = or_raise-eq-ok (fresh_upload_session l.db upload_id) (http 404) seen in
    let (_, _, e3) =
      >>=-eq-ok
        (raise_if (not (current.owner_id == user.user.id) && not (has_global_admin_scope user))
          (http 404))
        _ e2 in
    let (_, _, e4) = >>=-eq-ok (check_team_access l.db current.team_id user) _ e3 in
    elim (Option-cases (get_part l.db upload_id st.part_number)) [
      | inl new ↦ publish_part-IsQuiet w upload_id st current l p s' found (rw new at e4)
      | inr (existing, there) ↦
          repeat_part-IsQuiet w upload_id st current l existing p s' found (rw there at e4)
    ]

-- A session that goes on, or that has lost its bytes, is held by no attempt.
pub resumed-free :
    (w : World) (b : Bool) (upload_id k : String) (l : Library)
    → k ≡ upload_id
    → holder upload_id (set_session k (resumable w b) l.db) ≡ none
resumed-free w b upload_id k l same =
    subst (λ j. holder j (set_session k (resumable w b) l.db) ≡ none) same
      (elim (Bool-cases b) [
        | inl there ↦ set_session-free k (resumable w b) l.db (λ v. refl) (λ v. rw there refl)
        | inr lost ↦ set_session-free k (resumable w b) l.db (λ v. refl) (λ v. rw lost refl)
      ])

pub return_verifying_to_active-IsQuiet :
    (w : World) (upload_id nonce : String) (current : UploadSession) (l : Library)
    → current.upload_id ≡ upload_id
    → IsQuiet upload_id l (return_verifying_to_active w current nonce l)
unfolding return_verifying_to_active
return_verifying_to_active-IsQuiet w upload_id nonce current l mine =
    elim (Bool-cases (has_verification_nonce current nonce)) [
      | inr other ↦ rw (return_verifying_to_active, other) (inr (refl, refl))
      | inl held ↦
          rw (return_verifying_to_active, held)
            (inl (resumed-free w (has_file l current.upload_id) upload_id current.upload_id l mine))
    ]

pub reset_verifying_upload-IsQuiet :
    (w : World) (upload_id nonce : String) (l : Library)
    → IsQuiet upload_id l (reset_verifying_upload w upload_id nonce l)
unfolding reset_verifying_upload
reset_verifying_upload-IsQuiet w upload_id nonce l =
    elim (Option-cases (fresh_upload_session l.db upload_id)) [
      | inl gone ↦ rw (reset_verifying_upload, gone) (inr (refl, refl))
      | inr (current, found) ↦
          rw (reset_verifying_upload, found)
            (return_verifying_to_active-IsQuiet w upload_id nonce current l
              (fresh-id l.db upload_id current found))
    ]
