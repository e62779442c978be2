-- ===== src/Uploads/Attempts/Finished.antt =====
-- What the two phases of a completion do to an upload that an attempt holds.
use asset_harbor.Base.{
  String, ◌≡◌, refl, sym, subst, ap, inl, inr, none, ok, Bool-cases, Option-cases, Result-cases,
  ◌>>=◌,
}
use asset_harbor.Model.{Principal}
use asset_harbor.Access.{has_global_admin_scope}
use asset_harbor.Uploads.Create.{World}
use asset_harbor.Uploads.Parts.{fresh_upload_session}
use asset_harbor.Uploads.Recovery.{FinalInfo}
use asset_harbor.Uploads.Cancel.{Library}
use asset_harbor.Uploads.Finalize.{has_file, create_final_image}
use asset_harbor.Uploads.Recover.{publish_file}
use asset_harbor.Uploads.Recover.Settled.{fresh-id}
use asset_harbor.Uploads.Verify.{Verified}
use asset_harbor.Uploads.Complete.{
  Chance, check_attempt, choose_info, finalizing, prepare_final, move_final, commit_final, publish,
  published_session,
}
use asset_harbor.Uploads.Complete.Resumed.{prepare_final-IsChosen}
use asset_harbor.Uploads.Attempts.Held.{holder, set_session-free}
use asset_harbor.Uploads.Attempts.Handlers.{IsQuiet, return_verifying_to_active-IsQuiet}

module _ (w : World) (c : Chance) (upload_id : String) where
  -- The second phase ends in an upload that no attempt holds, or resets nothing.
  pub prepare_final-IsQuiet :
      (nonce : String) (v : Verified) (actor : Principal) (l : Library)
      → IsQuiet upload_id l (prepare_final w c upload_id nonce v actor l).0
  unfolding prepare_final
  prepare_final-IsQuiet nonce v actor l =
      elim (Option-cases (fresh_upload_session l.db upload_id)) [
        | inl gone ↦ rw (prepare_final, gone) (inr (refl, refl))
        | inr (current, found) ↦
            rw (prepare_final, found)
              (elim (Result-cases (
                check_attempt l current nonce actor >>= λ user.
                choose_info c v (has_global_admin_scope user) l.db)) [
                  | inl (e, refused) ↦ rw refused (
                      return_verifying_to_active-IsQuiet w upload_id nonce current l
                        (fresh-id l.db upload_id current found))
                  | inr (info, chosen) ↦ rw chosen (
                      inl (
                        set_session-free upload_id (finalizing w info) l.db (λ v. refl)
                          (λ v. refl)))
                ])
      ]

  prepare_final-free :
      (nonce : String) (v : Verified) (actor : Principal) (l l' : Library) (info : FinalInfo)
      → prepare_final w c upload_id nonce v actor l ≡ (l', ok info)
      → holder upload_id l'.db ≡ none
  prepare_final-free nonce v actor l l' info e =
      let run = prepare_final-IsChosen w c upload_id nonce v actor l l' info e in
      subst (λ (x : Library). holder upload_id x.db ≡ none) (sym run.after)
        (set_session-free upload_id (finalizing w info) l.db (λ v. refl) (λ v. refl))

  move_final-free :
      (info : FinalInfo) (l : Library)
      → holder upload_id l.db ≡ none
      → holder upload_id (move_final w c upload_id info l).0.db ≡ none
  unfolding move_final publish_file
  move_final-free info l free = elim (Bool-cases (has_file l upload_id)) [
    | inr lost ↦
        rw (move_final, lost)
          (elim (Bool-cases c.move_fails) [ inl f ↦ rw f free | inr f ↦ rw f free ])
    | inl kept ↦
        rw (move_final, kept)
          (elim (Bool-cases c.move_fails) [
            | inl f ↦ rw f (set_session-free upload_id _ l.db (λ v. refl) (λ v. refl))
            | inr f ↦ rw f free
          ])
  ]

  commit_final-free :
      (info : FinalInfo) (l : Library)
      → holder upload_id l.db ≡ none
      → holder upload_id (commit_final w c upload_id info l).0.db ≡ none
  unfolding commit_final
  commit_final-free info l free = elim (Option-cases (fresh_upload_session l.db upload_id)) [
    | inl gone ↦ rw (commit_final, gone) free
    | inr (u, found) ↦ elim (Option-cases c.commit_fails) [
      | inr (e, f) ↦ rw (commit_final, found, f) free
      | inl f ↦
          rw (commit_final, found, f)
            (set_session-free upload_id (published_session w info.code)
              (create_final_image w u info l.db).0 (λ v. refl) (λ v. refl))
    ]
  ]

  pub publish-IsQuiet :
      (nonce : String) (v : Verified) (actor : Principal) (l : Library)
      → IsQuiet upload_id l (publish w c upload_id nonce v actor l).0
  unfolding publish
  publish-IsQuiet nonce v actor l =
      let prepared = prepare_final w c upload_id nonce v actor l in
      elim (Result-cases prepared.1) [
        | inl (e, refused) ↦ rw (publish, refused) (prepare_final-IsQuiet nonce v actor l)
        | inr (info, chosen) ↦
            let free =
              prepare_final-free nonce v actor l prepared.0 info
                (ap (λ r. (prepared.0, r)) chosen) in
            let moved = move_final w c upload_id info prepared.0 in
            let after = move_final-free info prepared.0 free in
            elim (Result-cases moved.1) [
              | inl (e, failed) ↦ rw (publish, chosen, failed) (inl after)
              | inr (x, done_) ↦
                  rw (publish, chosen, done_) (inl (commit_final-free info moved.0 after))
            ]
      ]
