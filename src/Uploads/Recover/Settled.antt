-- ===== src/Uploads/Recover/Settled.antt =====
-- The states that a recovery leaves.
use asset_harbor.Base.{
  ℕ, String, Bool, false, ◌≡◌, refl, sym, ap, none, some, Result, ok, err, find-update, str_eq,
  is_some, Bool-cases, Option-cases, Result-cases, subst, ◌∙◌, inl, inr, find_passes, eq_iff,
}
use asset_harbor.Base.Text.{Text}
use asset_harbor.Model.{Db, UploadSession}
use asset_harbor.Access.{get_user}
use asset_harbor.Uploads.Create.{World}
use asset_harbor.Uploads.Parts.{fresh_upload_session}
use asset_harbor.Uploads.Recovery.{FinalInfo, validated_finalizing_info}
use asset_harbor.Uploads.Cancel.{Library, is_finalizing}
use asset_harbor.Uploads.Finalize.{
  set_session, with_session, has_file, create_final_image, get_image_by_code,
}
use asset_harbor.Uploads.Recover.{
  recover_finalizing_session, recover_valid, settle, withdraw, create_and_complete, publish_file,
  withdraw_file, is_published, recovery_access,
}

-- The session that is found is changed in place.
pub set_session-fresh :
    (upload_id : String) (change : UploadSession → UploadSession) (db : Db) (u : UploadSession)
    → ((v : UploadSession) → (change v).upload_id ≡ v.upload_id)
    → fresh_upload_session db upload_id ≡ some u
    → fresh_upload_session (set_session upload_id change db) upload_id ≡ some (change u)
unfolding set_session fresh_upload_session
set_session-fresh upload_id change db u keeps found =
    let mine =
      find_passes (λ (v : UploadSession). str_eq v.upload_id upload_id) db.upload_sessions u
        found in
    rw
      (
        find-update (λ (v : UploadSession). str_eq v.upload_id upload_id)
            (λ v. str_eq v.upload_id upload_id) change db.upload_sessions u
            (λ v. ap (λ k. str_eq k upload_id) (keeps v)) found,
        mine,
      )
      refl

-- What is found has the identifier.
pub fresh-id :
    (db : Db) (upload_id : String) (u : UploadSession)
    → fresh_upload_session db upload_id ≡ some u
    → u.upload_id ≡ upload_id
unfolding fresh_upload_session
fresh-id db upload_id u found =
    (eq_iff u.upload_id upload_id).0
      (find_passes (λ (v : UploadSession). str_eq v.upload_id upload_id) db.upload_sessions u found)

-- No session of this identifier is being finalized.
abbrev pub IsSettled : String → Library → Type 0
IsSettled upload_id s =
    (u : UploadSession)
    → fresh_upload_session s.db upload_id ≡ some u
    → is_finalizing u.status ≡ false

pub with_session-IsSettled :
    (upload_id : String) (change : UploadSession → UploadSession) (s : Library) (u : UploadSession)
    → ((v : UploadSession) → (change v).upload_id ≡ v.upload_id)
    → fresh_upload_session s.db upload_id ≡ some u
    → is_finalizing (change u).status ≡ false
    → IsSettled upload_id (with_session upload_id change s)
with_session-IsSettled upload_id change s u keeps found quiet v seen =
    let now = set_session-fresh upload_id change s.db u keeps found in
    let same : some v ≡ some (change u) = cc in let w : v ≡ change u = cc in rw w quiet

pub create_final_image-sessions :
    (w : World) (u : UploadSession) (info : FinalInfo) (db : Db) (upload_id : String)
    → fresh_upload_session (create_final_image w u info db).0 upload_id
      ≡ fresh_upload_session db upload_id
unfolding create_final_image fresh_upload_session
create_final_image-sessions w u info db upload_id =
    elim (Option-cases (get_image_by_code db info.code)) [
      | inl new ↦ rw (create_final_image, new) refl
      | inr (i, there) ↦ rw (create_final_image, there) refl
    ]

-- What a part of a recovery that does not raise leaves.
abbrev LeavesSettled : String → Library × Result (Unit {0}) → Type 0
LeavesSettled upload_id (s, err e) = Unit
LeavesSettled upload_id (s, ok x) = IsSettled upload_id s

module _ (w : World) (failing : Bool × Bool) (u : UploadSession) (info : FinalInfo) where
  create_and_complete-IsSettled :
      (s : Library)
      → fresh_upload_session s.db u.upload_id ≡ some u
      → IsSettled u.upload_id (create_and_complete w u info s)
  unfolding create_and_complete
  create_and_complete-IsSettled s found =
      with_session-IsSettled u.upload_id _ (record s { db = (create_final_image w u info s.db).0 })
        u (λ v. refl) (create_final_image-sessions w u info s.db u.upload_id ∙ found) refl

  withdraw-LeavesSettled :
      (s : Library)
      → fresh_upload_session s.db u.upload_id ≡ some u
      → LeavesSettled u.upload_id (withdraw w failing u info s)
  unfolding withdraw withdraw_file
  withdraw-LeavesSettled s found = elim (Bool-cases (failing.1)) [
    | inl f ↦ rw f tt
    | inr f ↦ rw f (elim (Bool-cases (is_some (get_user s.db u.owner_id))) [
      | inl o ↦ rw o (
          with_session-IsSettled u.upload_id _ (withdraw_file u.upload_id info.destination s) u
            (λ v. refl) found refl)
      | inr o ↦ rw o (
          with_session-IsSettled u.upload_id _ (withdraw_file u.upload_id info.destination s) u
            (λ v. refl) found refl)
    ])
  ]

  settle-LeavesSettled :
      (s : Library)
      → fresh_upload_session s.db u.upload_id ≡ some u
      → LeavesSettled u.upload_id (settle w failing u info s)
  unfolding settle
  settle-LeavesSettled s found = elim (Result-cases (recovery_access s.db u info.global_admin)) [
    | inl (e, denied) ↦ rw (settle, denied) (withdraw-LeavesSettled s found)
    | inr (x, allowed) ↦ rw (settle, allowed) (create_and_complete-IsSettled s found)
  ]

  recover_valid-LeavesSettled :
      (s : Library)
      → fresh_upload_session s.db u.upload_id ≡ some u
      → LeavesSettled u.upload_id (recover_valid w failing u info s)
  unfolding recover_valid publish_file settle withdraw
  recover_valid-LeavesSettled s found = elim (Bool-cases (is_published s info.destination)) [
    | inl there ↦ rw there (settle-LeavesSettled s found)
    | inr absent ↦ rw absent (elim (Bool-cases (has_file s u.upload_id)) [
      | inr lost ↦ rw lost (with_session-IsSettled u.upload_id _ s u (λ v. refl) found refl)
      | inl kept ↦ rw kept (elim (Bool-cases (failing.0)) [
        | inl f ↦ rw f tt
        | inr f ↦ rw f (settle-LeavesSettled (publish_file u.upload_id info.destination s) found)
      ])
    ])
  ]

module _ (code_length : ℕ) (inside : Text → Bool) where
  recover_finalizing_session-LeavesSettled :
      (w : World) (failing : Bool × Bool) (upload_id : String) (s : Library)
      → LeavesSettled upload_id
          (recover_finalizing_session code_length inside w failing upload_id s)
  unfolding recover_finalizing_session
  recover_finalizing_session-LeavesSettled w failing upload_id s =
      elim (Option-cases (fresh_upload_session s.db upload_id)) [
        | inl gone ↦
            rw (recover_finalizing_session, gone)
              (λ u seen. absurd (let h : none ≡ some u = cc in cc))
        | inr (u, found) ↦
            rw (recover_finalizing_session, found)
              (elim (Bool-cases (is_finalizing u.status)) [
                | inr other ↦
                    rw other
                      (λ v seen. let h : some v ≡ some u = cc in let e : v ≡ u = cc in rw e other)
                | inl final ↦
                    rw final
                      (elim (Result-cases
                        (validated_finalizing_info code_length inside u.resume_info)) [
                          | inl (e, bad) ↦ rw bad (elim (Bool-cases (has_file s upload_id)) [
                            | inl there ↦
                                rw there
                                  (with_session-IsSettled upload_id _ s u (λ v. refl) found refl)
                            | inr lost ↦
                                rw lost
                                  (with_session-IsSettled upload_id _ s u (λ v. refl) found refl)
                          ])
                          | inr (info, good) ↦
                              let same = fresh-id s.db upload_id u found in
                              rw good (
                                subst (λ k. LeavesSettled k (recover_valid w failing u info s)) same
                                  (recover_valid-LeavesSettled w failing u info s (
                                    subst (λ k. fresh_upload_session s.db k ≡ some u) (sym same)
                                      found)))
                        ])
              ])
      ]

  pub settled_recovery :
      (w : World) (failing : Bool × Bool) (upload_id : String) (s : Library)
      → IsSettled upload_id s
      → recover_finalizing_session code_length inside w failing upload_id s ≡ (s, ok tt)
  unfolding recover_finalizing_session
  settled_recovery w failing upload_id s quiet =
      elim (Option-cases (fresh_upload_session s.db upload_id)) [
        | inl gone ↦ rw (recover_finalizing_session, gone) refl
        | inr (u, found) ↦ let q = quiet u found in rw (recover_finalizing_session, found, q) refl
      ]

  -- A recovery that does not raise is final: whatever it found, the session is not being finalized
  -- any more, and a second recovery, at whatever time, changes nothing.
  pub recover_finalizing_session_twice :
      (w later : World) (failing failing_later : Bool × Bool) (upload_id : String) (s s' : Library)
      → recover_finalizing_session code_length inside w failing upload_id s ≡ (s', ok tt)
      → IsSettled upload_id s'
        × (recover_finalizing_session code_length inside later failing_later upload_id s'
            ≡ (s', ok tt))
  recover_finalizing_session_twice w later failing failing_later upload_id s s' e =
      let quiet : IsSettled upload_id s' =
        subst (LeavesSettled upload_id) e
          (recover_finalizing_session-LeavesSettled w failing upload_id s) in
      (quiet, settled_recovery later failing_later upload_id s' quiet)
