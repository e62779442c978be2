-- ===== src/Uploads/Attempts/Recovered.antt =====
-- Recovery and cancellation, and an upload that an attempt holds.
use asset_harbor.Base.{
  ℕ, String, Bool, ◌≡◌, refl, sym, subst, ◌∙◌, inl, inr, none, ok, is_some, Bool-cases,
  Option-cases, Result-cases,
}
use asset_harbor.Base.Text.{Text}
use asset_harbor.Model.{UploadSession, Principal}
use asset_harbor.Access.{get_user}
use asset_harbor.Uploads.Create.{World}
use asset_harbor.Uploads.Parts.{fresh_upload_session}
use asset_harbor.Uploads.Recovery.{FinalInfo, validated_finalizing_info}
use asset_harbor.Uploads.Cancel.{Library, is_finalizing, cancel_upload_session}
use asset_harbor.Uploads.Cancel.Gone.{cancel_upload_session-IsGone}
use asset_harbor.Uploads.Finalize.{has_file, is_verifying, create_final_image}
use asset_harbor.Uploads.Recover.{
  recover_finalizing_session, recover_verifying_session, recover_valid, settle, withdraw,
  withdraw_file, create_and_complete, publish_file, recovery_access, is_published,
}
use asset_harbor.Uploads.Recover.Settled.{fresh-id}
use asset_harbor.Uploads.Attempts.Held.{
  holder, holder-some, holder-none, finalizing-free, set_session-free,
}
use asset_harbor.Uploads.Attempts.Handlers.{IsQuiet, resumed-free}

-- A recovery of a session that no attempt holds leaves it so.
module _ (w : World) (failing : Bool × Bool) (u : UploadSession) (info : FinalInfo) where
  settle-free :
      (l : Library)
      → holder u.upload_id l.db ≡ none
      → holder u.upload_id (settle w failing u info l).0.db ≡ none
  unfolding settle withdraw create_and_complete withdraw_file
  settle-free l free = elim (Result-cases (recovery_access l.db u info.global_admin)) [
    | inr (x, allowed) ↦
        rw (settle, allowed)
          (set_session-free u.upload_id _ (create_final_image w u info l.db).0 (λ v. refl)
            (λ v. refl))
    | inl (e, denied) ↦
        rw (settle, denied)
          (elim (Bool-cases (failing.1)) [
            | inl f ↦ rw (withdraw, f) free
            | inr f ↦
                rw (withdraw, f)
                  (resumed-free w (is_some (get_user l.db u.owner_id)) u.upload_id u.upload_id
                    (withdraw_file u.upload_id info.destination l) refl)
          ])
  ]

  recover_valid-free :
      (l : Library)
      → holder u.upload_id l.db ≡ none
      → holder u.upload_id (recover_valid w failing u info l).0.db ≡ none
  unfolding recover_valid publish_file settle withdraw
  recover_valid-free l free = elim (Bool-cases (is_published l info.destination)) [
    | inl there ↦ rw there (settle-free l free)
    | inr absent ↦ rw absent (elim (Bool-cases (has_file l u.upload_id)) [
      | inr lost ↦ rw lost (set_session-free u.upload_id _ l.db (λ v. refl) (λ v. refl))
      | inl kept ↦ rw kept (elim (Bool-cases (failing.0)) [
        | inl f ↦ rw f free
        | inr f ↦ rw f (settle-free (publish_file u.upload_id info.destination l) free)
      ])
    ])
  ]

module _ (code_length : ℕ) (inside : Text → Bool) (upload_id : String) where
  pub recover_finalizing_session-IsQuiet :
      (w : World) (failing : Bool × Bool) (l : Library)
      → IsQuiet upload_id l (recover_finalizing_session code_length inside w failing upload_id l).0
  unfolding recover_finalizing_session
  recover_finalizing_session-IsQuiet w failing l =
      elim (Option-cases (fresh_upload_session l.db upload_id)) [
        | inl gone ↦ rw (recover_finalizing_session, gone) (inr (refl, refl))
        | inr (u, found) ↦
            rw (recover_finalizing_session, found)
              (elim (Bool-cases (is_finalizing u.status)) [
                | inr other ↦ rw other (inr (refl, refl))
                | inl final ↦
                    rw final
                      (elim (Result-cases
                        (validated_finalizing_info code_length inside u.resume_info)) [
                          | inl (e, bad) ↦ rw bad (
                              inl
                                (resumed-free w (has_file l upload_id) upload_id upload_id l refl))
                          | inr (info, good) ↦
                              let mine = fresh-id l.db upload_id u found in
                              let free : holder upload_id l.db ≡ none =
                                holder-some upload_id l.db u found
                                ∙ finalizing-free u.status u.resume_info final in
                              rw good (
                                inl (
                                  subst
                                    (λ k. holder k (recover_valid w failing u info l).0.db ≡ none)
                                    mine
                                    (recover_valid-free w failing u info l
                                      (subst (λ k. holder k l.db ≡ none) (sym mine) free))))
                        ])
              ])
      ]

  pub recover_verifying_session-IsQuiet :
      (w : World) (l : Library)
      → IsQuiet upload_id l (recover_verifying_session code_length inside w upload_id l)
  unfolding recover_verifying_session
  recover_verifying_session-IsQuiet w l =
      elim (Option-cases (fresh_upload_session l.db upload_id)) [
        | inl gone ↦ rw (recover_verifying_session, gone) (inr (refl, refl))
        | inr (u, found) ↦
            rw (recover_verifying_session, found)
              (elim (Bool-cases (is_verifying u.status)) [
                | inr other ↦ rw other (inr (refl, refl))
                | inl held ↦
                    rw held (inl (resumed-free w (has_file l upload_id) upload_id upload_id l refl))
              ])
      ]

  pub cancel_upload_session-IsQuiet :
      (actor : Principal) (l l' : Library)
      → cancel_upload_session code_length inside upload_id actor l ≡ ok l'
      → IsQuiet upload_id l l'
  cancel_upload_session-IsQuiet actor l l' e =
      let gone = (cancel_upload_session-IsGone code_length inside upload_id actor l l' e).0 in
      inl (holder-none upload_id l'.db gone.session)
