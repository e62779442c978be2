-- ===== src/Uploads/Attempts/Claimed.antt =====
-- The first phase of a completion, and the holder and file of its upload.
use asset_harbor.Base.{
  ℕ, String, Bool, not, ◌&&◌, ◌≡◌, refl, sym, subst, ap, ◌∙◌, inl, inr, none, some, Result, ok, err,
  http, runtime_error, Bool-cases, Option-cases, Result-cases, >>=-eq-ok, ok-injective,
  or_raise-eq-ok, raise_if, or_raise, ◌==◌,
}
use asset_harbor.Base.Text.{Text}
use asset_harbor.Model.{Db, UploadSession, Principal, Image, MediaKind}
use asset_harbor.Access.{fresh_library_user, has_global_admin_scope}
use asset_harbor.Media.{get_media}
use asset_harbor.Uploads.Create.{World}
use asset_harbor.Uploads.Parts.{fresh_upload_session}
use asset_harbor.Uploads.Cancel.{Library, is_finalizing}
use asset_harbor.Uploads.Finalize.{set_session, get_image_by_code}
use asset_harbor.Uploads.Recover.{recover_finalizing_session}
use asset_harbor.Uploads.Recover.Settled.{fresh-id}
use asset_harbor.Uploads.Begin.{
  Begun, done, claimed, authorized_session, check_active, begin_attempt, begin_verification,
  recovered_attempt, after_recovery, final_code_of, verifying,
}
use asset_harbor.Uploads.Attempts.Held.{holder, set_session-holder}
use asset_harbor.Uploads.Attempts.Handlers.{IsQuiet}
use asset_harbor.Uploads.Attempts.Recovered.{recover_finalizing_session-IsQuiet}

abbrev pub HasBegun : String → String → Library → Library × Result Begun → Type 0
HasBegun upload_id nonce l (t, err e) = IsQuiet upload_id l t
HasBegun upload_id nonce l (t, ok (done i)) = IsQuiet upload_id l t
HasBegun upload_id nonce l (t, ok (claimed c)) = holder upload_id t.db ≡ some nonce

authorized_session-found :
    (db : Db) (upload_id : String) (actor user : Principal) (current : UploadSession)
    → authorized_session db upload_id actor ≡ ok (current, user)
    → fresh_upload_session db upload_id ≡ some current
unfolding authorized_session
authorized_session-found db upload_id actor user current e =
    let (fresh, _, e1) = >>=-eq-ok (fresh_library_user db actor) _ e in
    let (found, seen, e2) =
      >>=-eq-ok (or_raise (fresh_upload_session db upload_id) (http 404)) _ e1 in
    let (_, _, e3) =
      >>=-eq-ok
        (raise_if (not (found.owner_id == fresh.user.id) && not (has_global_admin_scope fresh))
          (http 404))
        _ e2 in
    or_raise-eq-ok (fresh_upload_session db upload_id) (http 404) seen
    ∙ ap (λ (x : UploadSession × Principal). some x.0) (ok-injective e3)

after_recovery-done :
    (t : Library) (k : String) (b : Begun) → after_recovery t k ≡ ok b → (i : Image) × (b ≡ done i)
unfolding after_recovery
after_recovery-done t k b e =
    let (current, _, e1) = >>=-eq-ok (or_raise (fresh_upload_session t.db k) (http 409)) _ e in
    let (code, _, e2) = >>=-eq-ok (or_raise (final_code_of current) (http 409)) _ e1 in
    let (image, _, e3) = >>=-eq-ok (or_raise (get_image_by_code t.db code) runtime_error) _ e2 in
    (image, sym (ok-injective e3))

-- A recovery that the request makes ends it without a claim.
recovered-HasBegun :
    (upload_id nonce k : String) (l t : Library) (r : Result (Unit {0}))
    → IsQuiet upload_id l t
    → HasBegun upload_id nonce l (recovered_attempt k (t, r))
unfolding recovered_attempt
recovered-HasBegun upload_id nonce k l t (err e) quiet = quiet
recovered-HasBegun upload_id nonce k l t (ok x) quiet = elim (Result-cases (after_recovery t k)) [
  | inl (e, r) ↦ rw r quiet
  | inr (b, r) ↦ let (i, ended) = after_recovery-done t k b r in rw (r, ended) quiet
]

module _ (code_length : ℕ) (inside : Text → Bool) (upload_id : String) where
  begin_attempt-HasBegun :
      (w : World) (failing : Bool × Bool) (nonce : String) (current : UploadSession)
      (user : Principal) (l : Library)
      → fresh_upload_session l.db upload_id ≡ some current
      → HasBegun upload_id nonce l (begin_attempt code_length inside w failing nonce current user l)
  unfolding begin_attempt
  begin_attempt-HasBegun w failing nonce current user l found =
      let mine = fresh-id l.db upload_id current found in
      elim (Bool-cases (is_finalizing current.status)) [
        | inl final ↦ rw final (
            recovered-HasBegun upload_id nonce current.upload_id l
              (recover_finalizing_session code_length inside w failing current.upload_id l).0
              (recover_finalizing_session code_length inside w failing current.upload_id l).1
              (subst
                (λ k.
                  IsQuiet upload_id l
                    (recover_finalizing_session code_length inside w failing k l).0)
                (sym mine)
                (recover_finalizing_session-IsQuiet code_length inside upload_id w failing l)))
        | inr other ↦ rw other (elim (Result-cases (check_active l current user)) [
          | inl (e, refused) ↦ rw refused (inr (refl, refl))
          | inr (claim, checked) ↦ rw checked (
              subst (λ k. holder upload_id (set_session k (verifying w nonce) l.db) ≡ some nonce)
                (sym mine)
                (elim (set_session-holder upload_id (verifying w nonce) l.db (some nonce)
                  (λ v. refl) (λ v _. refl)) [
                    | inl held ↦ held
                    | inr gone ↦ absurd (let h : none ≡ some current = sym gone ∙ found in cc)
                  ]))
        ])
      ]

  pub begin_verification-HasBegun :
      (w : World) (failing : Bool × Bool) (nonce : String) (actor : Principal) (l : Library)
      → HasBegun upload_id nonce l
          (begin_verification code_length inside w failing nonce upload_id actor l)
  unfolding begin_verification
  begin_verification-HasBegun w failing nonce actor l =
      elim (Result-cases (authorized_session l.db upload_id actor)) [
        | inl (e, refused) ↦ rw (begin_verification, refused) (inr (refl, refl))
        | inr ((current, user), seen) ↦
            rw (begin_verification, seen)
              (elim (Option-cases (final_code_of current)) [
                | inl open_ ↦ rw open_ (
                    begin_attempt-HasBegun w failing nonce current user l
                      (authorized_session-found l.db upload_id actor user current seen))
                | inr (code, final) ↦
                    rw final (elim (Option-cases (get_media l.db code MediaKind.video)) [
                      | inl gone ↦ rw gone (inr (refl, refl))
                      | inr (i, there) ↦ rw there (inr (refl, refl))
                    ])
              ])
      ]
