-- ===== src/Uploads/Attempts/Held.antt =====
-- The attempt that an upload is held by.
use asset_harbor.Base.{
  String, Bool, true, false, ◌&&◌, ◌≡◌, refl, sym, ap, ◌∙◌, Option, none, some, List, find,
  find-none, All-of_find-none, All-update, update, str_eq, eq_iff, Option-cases, ◌⊎◌, inl, inr,
}
use asset_harbor.Model.{Db, Status, ResumeInfo, UploadSession}
use asset_harbor.Uploads.Create.{World, new_expiry}
use asset_harbor.Uploads.Parts.{fresh_upload_session, touch, is_active}
use asset_harbor.Uploads.Cancel.{is_finalizing}
use asset_harbor.Uploads.Recover.Settled.{set_session-fresh}
use asset_harbor.Uploads.Finalize.{set_session, has_verification_nonce, is_verifying, nonce_is}

abbrev pub held_by : Status → ResumeInfo → Option String
held_by Status.verifying (ResumeInfo.nonce n) = some n
held_by _ _ = none

abbrev pub nonce_of : UploadSession → Option String
nonce_of u = held_by u.status u.resume_info

-- The nonce of the attempt that the upload's status names.
unfoldable pub holder : String → Db → Option String
holder upload_id db = elim (fresh_upload_session db upload_id) [ none ↦ none | some u ↦ nonce_of u ]

pub holder-some :
    (upload_id : String) (db : Db) (u : UploadSession)
    → fresh_upload_session db upload_id ≡ some u
    → holder upload_id db ≡ nonce_of u
unfolding holder
holder-some upload_id db u found = rw (holder, found) refl

pub holder-none :
    (upload_id : String) (db : Db)
    → fresh_upload_session db upload_id ≡ none
    → holder upload_id db ≡ none
unfolding holder
holder-none upload_id db gone = rw (holder, gone) refl

verifying_nonce :
    (status : Status) (info : ResumeInfo) (nonce : String)
    → (is_verifying status && nonce_is nonce info) ≡ true
    → held_by status info ≡ some nonce
verifying_nonce Status.verifying (ResumeInfo.nonce n) nonce h =
    ap (λ k. some k) ((eq_iff n nonce).0 h)
verifying_nonce Status.verifying ResumeInfo.empty nonce h = absurd cc
verifying_nonce Status.verifying ResumeInfo.corrupt nonce h = absurd cc
verifying_nonce Status.verifying (ResumeInfo.final _ _ _ _ _) nonce h = absurd cc
verifying_nonce Status.active info nonce h = absurd cc
verifying_nonce Status.finalizing info nonce h = absurd cc
verifying_nonce Status.completed info nonce h = absurd cc
verifying_nonce Status.failed info nonce h = absurd cc

-- An attempt whose nonce is accepted holds the upload.
pub has_verification_nonce-nonce_of :
    (u : UploadSession) (nonce : String)
    → has_verification_nonce u nonce ≡ true
    → nonce_of u ≡ some nonce
unfolding has_verification_nonce
has_verification_nonce-nonce_of u nonce h = verifying_nonce u.status u.resume_info nonce h

pub active-free :
    (status : Status) (info : ResumeInfo) → is_active status ≡ true → held_by status info ≡ none
active-free Status.active info h = refl
active-free Status.verifying info h = absurd cc
active-free Status.finalizing info h = absurd cc
active-free Status.completed info h = absurd cc
active-free Status.failed info h = absurd cc

pub finalizing-free :
    (status : Status) (info : ResumeInfo) → is_finalizing status ≡ true → held_by status info ≡ none
finalizing-free Status.finalizing info h = refl
finalizing-free Status.active info h = absurd cc
finalizing-free Status.verifying info h = absurd cc
finalizing-free Status.completed info h = absurd cc
finalizing-free Status.failed info h = absurd cc

find-update-none {ℓ} :
    {A : Type ℓ} (p q : A → Bool) (f : A → A) (xs : List A)
    → ((x : A) → p (f x) ≡ p x)
    → find p xs ≡ none
    → find p (update q f xs) ≡ none
find-update-none p q f xs keeps h =
    find-none p (update q f xs)
      (All-update (λ x. p x ≡ false) q f xs (λ x k. keeps x ∙ k) (All-of_find-none p xs h))

-- What a change of the upload's row makes of the holder.
pub set_session-holder :
    (upload_id : String) (change : UploadSession → UploadSession) (db : Db) (o : Option String)
    → ((v : UploadSession) → (change v).upload_id ≡ v.upload_id)
    → ((v : UploadSession) → fresh_upload_session db upload_id ≡ some v → nonce_of (change v) ≡ o)
    → (holder upload_id (set_session upload_id change db) ≡ o)
      ⊎ (fresh_upload_session db upload_id ≡ none)
unfolding set_session fresh_upload_session
set_session-holder upload_id change db o keeps sets =
    elim (Option-cases (fresh_upload_session db upload_id)) [
      | inl gone ↦ inr gone
      | inr (u, found) ↦ inl (
          holder-some upload_id (set_session upload_id change db) (change u)
            (set_session-fresh upload_id change db u keeps found)
          ∙ sets u found)
    ]

-- A change to a status without a nonce frees the upload.
pub set_session-free :
    (upload_id : String) (change : UploadSession → UploadSession) (db : Db)
    → ((v : UploadSession) → (change v).upload_id ≡ v.upload_id)
    → ((v : UploadSession) → nonce_of (change v) ≡ none)
    → holder upload_id (set_session upload_id change db) ≡ none
unfolding set_session fresh_upload_session
set_session-free upload_id change db keeps frees =
    elim (set_session-holder upload_id change db none keeps (λ v _. frees v)) [
      | inl free ↦ free
      | inr gone ↦ holder-none upload_id (set_session upload_id change db) (
          find-update-none (λ (v : UploadSession). str_eq v.upload_id upload_id)
            (λ v. str_eq v.upload_id upload_id) change db.upload_sessions
            (λ v. ap (λ k. str_eq k upload_id) (keeps v)) gone)
    ]

touch-fresh :
    (w : World) (upload_id : String) (db : Db) (u : UploadSession)
    → fresh_upload_session db upload_id ≡ some u
    → fresh_upload_session (touch w upload_id db) upload_id
      ≡ some (record u { expires_at = new_expiry w; updated_at = w.now })
unfolding touch set_session
touch-fresh w upload_id db u found =
    set_session-fresh upload_id (λ v. record v { expires_at = new_expiry w; updated_at = w.now }) db
      u (λ v. refl) found

-- The timestamps of a session say nothing of its holder.
pub touch-holder :
    (w : World) (upload_id : String) (db : Db)
    → holder upload_id db ≡ none
    → holder upload_id (touch w upload_id db) ≡ none
unfolding touch fresh_upload_session
touch-holder w upload_id db free = elim (Option-cases (fresh_upload_session db upload_id)) [
  | inl gone ↦ holder-none upload_id (touch w upload_id db) (
      find-update-none (λ (v : UploadSession). str_eq v.upload_id upload_id)
        (λ v. str_eq v.upload_id upload_id)
        (λ v. record v { expires_at = new_expiry w; updated_at = w.now }) db.upload_sessions
        (λ v. refl) gone)
  | inr (u, found) ↦
      holder-some upload_id (touch w upload_id db)
        (record u { expires_at = new_expiry w; updated_at = w.now })
        (touch-fresh w upload_id db u found)
      ∙ sym (holder-some upload_id db u found)
      ∙ free
]
