-- ===== src/Uploads/Complete/Resumed.antt =====
-- A run of the second phase up to the commit of its metadata.
use asset_harbor.Base.{
  All-map, String, Bool, true, ◌≡◌, refl, sym, ap, ◌∙◌, none, some, List, [], ◌∷◌, ok, All, update,
  str_eq, Bool-cases, Option-cases, Result-cases, inl, inr, pair-injective, err≢ok, >>=-eq-ok,
  ok-injective, ◌>>=◌,
}
use asset_harbor.Base.Text.{Text}
use asset_harbor.Model.{Db, Principal, UploadSession}
use asset_harbor.Access.{has_global_admin_scope}
use asset_harbor.Uploads.Create.{World}
use asset_harbor.Uploads.Parts.{fresh_upload_session}
use asset_harbor.Uploads.Recovery.{FinalInfo}
use asset_harbor.Uploads.Cancel.{Library}
use asset_harbor.Uploads.Finalize.{set_session, with_session, create_final_image}
use asset_harbor.Uploads.Recover.{create_and_complete, completed}
use asset_harbor.Uploads.Verify.{Verified}
use asset_harbor.Uploads.Complete.{
  Chance, check_attempt, choose_info, finalizing, prepare_final, commit_final, published_session,
}

-- The checks that a session has passed, and the metadata that was chosen for it.
pub record IsChosen (w : World) (c : Chance) (upload_id nonce : String) (v : Verified)
    (actor : Principal) (s s' : Library) (info : FinalInfo) : Type 0 where
  pub current : UploadSession
  pub user : Principal
  pub found : fresh_upload_session s.db upload_id ≡ some current
  pub checked : check_attempt s current nonce actor ≡ ok user
  pub chosen : choose_info c v (has_global_admin_scope user) s.db ≡ ok info
  pub after : s' ≡ with_session upload_id (finalizing w info) s

pub prepare_final-IsChosen :
    (w : World) (c : Chance) (upload_id nonce : String) (v : Verified) (actor : Principal)
    (s s' : Library) (info : FinalInfo)
    → prepare_final w c upload_id nonce v actor s ≡ (s', ok info)
    → IsChosen w c upload_id nonce v actor s s' info
unfolding prepare_final
prepare_final-IsChosen w c upload_id nonce v actor s s' info e =
    elim (Option-cases (fresh_upload_session s.db upload_id)) [
      | inl gone ↦ absurd (err≢ok (pair-injective (rw (prepare_final, gone) at e)).1)
      | inr (current, found) ↦
          elim (Result-cases (
            check_attempt s current nonce actor >>= λ user.
            choose_info c v (has_global_admin_scope user) s.db)) [
              | inl (x, refused) ↦
                  absurd (err≢ok (pair-injective (rw (prepare_final, found, refused) at e)).1)
              | inr (i, passed) ↦
                  let (user, checked, chosen) =
                    >>=-eq-ok (check_attempt s current nonce actor) _ passed in
                  let (left, right) = pair-injective (rw (prepare_final, found, passed) at e) in
                  let same : i ≡ info = ok-injective right in
                  record {
                    current = current;
                    user = user;
                    found = found;
                    checked = checked;
                    chosen = chosen ∙ ap (λ j. ok j) same;
                    after = sym left ∙ ap (λ j. with_session upload_id (finalizing w j) s) same;
                  }
            ]
    ]

-- No row of the upload has been completed.
abbrev pub IsOpen : String → Db → Type 0
IsOpen upload_id db =
    All (λ (u : UploadSession). str_eq u.upload_id upload_id ≡ true → u.completed_at ≡ none)
      db.upload_sessions

update-same {ℓ} :
    {A : Type ℓ} (p : A → Bool) (f g : A → A) (xs : List A)
    → All (λ x. p x ≡ true → f x ≡ g x) xs
    → update p f xs ≡ update p g xs
update-same p f g [] h = refl
update-same p f g (x ∷ xs) h = elim (Bool-cases (p x)) [
  | inl hit ↦ rw (hit, h.0 hit) (ap (λ l. g x ∷ l) (update-same p f g xs h.1))
  | inr miss ↦ rw miss (ap (λ l. x ∷ l) (update-same p f g xs h.1))
]

-- Both ways of completing a session that was not completed set the same columns.
completed-published :
    (w : World) (code : Text) (u : UploadSession)
    → u.completed_at ≡ none
    → completed w code u ≡ published_session w code u
completed-published w code u h = rw h refl

module _ (w : World) (c : Chance) (upload_id : String) (u : UploadSession) (info : FinalInfo) where
  -- What recovery does with a destination that is there is what the last step of the run does.
  pub create_and_complete-commit_final :
      (s : Library)
      → fresh_upload_session s.db upload_id ≡ some u
      → u.upload_id ≡ upload_id
      → IsOpen upload_id (create_final_image w u info s.db).0
      → c.commit_fails ≡ none
      → create_and_complete w u info s ≡ (commit_final w c upload_id info s).0
  unfolding create_and_complete commit_final set_session
  create_and_complete-commit_final s found mine fresh smooth =
      let rows = (create_final_image w u info s.db).0.upload_sessions in
      let named : create_and_complete w u info s
          ≡ with_session upload_id (completed w info.code)
              (record s { db = (create_final_image w u info s.db).0 }) =
        ap
          (λ k.
            with_session k (completed w info.code)
              (record s { db = (create_final_image w u info s.db).0 }))
          mine in
      let same : update (λ v. str_eq v.upload_id upload_id) (completed w info.code) rows
          ≡ update (λ v. str_eq v.upload_id upload_id) (published_session w info.code) rows =
        update-same (λ v. str_eq v.upload_id upload_id) (completed w info.code)
          (published_session w info.code) rows
          (All-map
            (λ (v : UploadSession). str_eq v.upload_id upload_id ≡ true → v.completed_at ≡ none)
            (λ v.
              str_eq v.upload_id upload_id ≡ true
              → completed w info.code v ≡ published_session w info.code v)
            (λ v h k. completed-published w info.code v (h k)) rows fresh) in
      rw (commit_final, found, smooth)
        (named
          ∙ ap
              (λ l. record s {
                db = record (create_final_image w u info s.db).0 { upload_sessions = l };
              })
              same)
