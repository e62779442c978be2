-- ===== src/Uploads/Attempts/Stable.antt =====
-- What an attempt has read of the file, and the state in which its metadata is committed.
use asset_harbor.Base.{
  ℕ, String, Bool, true, not, ◌&&◌, ◌≡◌, refl, sym, subst, ap, ◌∙◌, inl, inr, none, some, List, ◌∷◌,
  ok, http, arith, All, All-map, All-find, str_eq, is_some, Bool-cases, Option-cases, err≢ok,
  >>=-eq-ok, raise_if-eq-ok, ok-injective, raise_if, ◌==◌,
}
use asset_harbor.Base.Text.{Text}
use asset_harbor.Model.{UploadSession, Principal}
use asset_harbor.Access.{fresh_library_user, has_global_admin_scope}
use asset_harbor.Sniff.{Bytes}
use asset_harbor.Uploads.Create.{World}
use asset_harbor.Uploads.Recovery.{FinalInfo}
use asset_harbor.Uploads.Cancel.{Library}
use asset_harbor.Uploads.Finalize.{has_verification_nonce, unique_video_code}
use asset_harbor.Uploads.Begin.{Claim}
use asset_harbor.Uploads.Verify.{Verified, verify_source}
use asset_harbor.Uploads.Complete.{Chance, check_attempt, choose_info, prepare_final}
use asset_harbor.Uploads.Complete.Resumed.{prepare_final-IsChosen}
use asset_harbor.Uploads.Attempts.{
  Run, Reading, Step, put, begins, returns, raises, reads, resets, publishes, dies, recovers,
  restarts, cancels, Reach, here, next, start, claim_of, reading_of, with_store,
}
use asset_harbor.Uploads.Attempts.Held.{holder, holder-some, has_verification_nonce-nonce_of}
use asset_harbor.Uploads.Attempts.Handlers.{
  IsQuiet, commit_upload_part-IsQuiet, reset_verifying_upload-IsQuiet,
}
use asset_harbor.Uploads.Attempts.Recovered.{
  recover_finalizing_session-IsQuiet, recover_verifying_session-IsQuiet,
  cancel_upload_session-IsQuiet,
}
use asset_harbor.Uploads.Attempts.Finished.{prepare_final-IsQuiet, publish-IsQuiet}
use asset_harbor.Uploads.Attempts.Claimed.{HasBegun, begin_verification-HasBegun}

module _ (code_length : ℕ) (inside : Text → Bool) (digest_of : Bytes → Text)
    (upload_id : String) where
  -- The attempt that a reading is of has begun.
  abbrev IsKnown : List (String × Claim) → Reading → Type 0
  IsKnown claims r = is_some (claim_of r.nonce claims) ≡ true

  -- If the reading's attempt holds the upload, reading again gives the same.
  abbrev IsUpToDate : Library → Reading → Type 0
  IsUpToDate l r =
      holder upload_id l.db ≡ some r.nonce
      → verify_source digest_of (l.part_files upload_id) r.claim ≡ ok r.verified

  record IsStable (s : Run) : Type 0 where
    known : All (IsKnown s.claims) s.readings
    up_to_date : All (IsUpToDate s.library) s.readings

  quiet-IsStable :
      (s : Run) (l : Library)
      → IsStable s
      → IsQuiet upload_id s.library l
      → IsStable (record s { library = l })
  quiet-IsStable s l stable (inl free) = record {
    known = stable.known;
    up_to_date =
        All-map (IsUpToDate s.library) (IsUpToDate l)
          (λ r _ held. absurd (let h : none ≡ some r.nonce = sym free ∙ held in cc)) s.readings
          stable.up_to_date;
  }
  quiet-IsStable s l stable (inr (same, file)) = record {
    known = stable.known;
    up_to_date =
        All-map (IsUpToDate s.library) (IsUpToDate l)
          (λ r before held.
            ap (λ f. verify_source digest_of f r.claim) file ∙ before (sym same ∙ held))
          s.readings stable.up_to_date;
  }

  -- A known attempt stays known, and it is not the one that begins.
  IsKnown-cons :
      (claims : List (String × Claim)) (nonce : String) (claim : Claim) (r : Reading)
      → IsKnown claims r
      → IsKnown ((nonce, claim) ∷ claims) r
  IsKnown-cons claims nonce claim r known = elim (Bool-cases (str_eq nonce r.nonce)) [
    | inl same ↦ rw same refl
    | inr other ↦ rw other known
  ]

  begins-IsStable :
      (s : Run) (l : Library) (nonce : String) (claim : Claim)
      → IsStable s
      → claim_of nonce s.claims ≡ none
      → holder upload_id l.db ≡ some nonce
      → IsStable (record s { library = l; claims = (nonce, claim) ∷ s.claims })
  begins-IsStable s l nonce claim stable new held = record {
    known =
        All-map (IsKnown s.claims) (IsKnown ((nonce, claim) ∷ s.claims))
          (IsKnown-cons s.claims nonce claim) s.readings stable.known;
    up_to_date =
        All-map (IsKnown s.claims) (IsUpToDate l)
          (λ r known now.
            let both : some nonce ≡ some r.nonce = sym held ∙ now in
            let same : nonce ≡ r.nonce = cc in
            let gone : claim_of r.nonce s.claims ≡ none =
              subst (λ k. claim_of k s.claims ≡ none) same new in
            absurd (let k = rw gone at known in cc))
          s.readings stable.known;
  }

  Step-IsStable :
      {s t : Run} → Step code_length inside digest_of upload_id s t → IsStable s → IsStable t
  Step-IsStable {s = s} (put w actor st p s' e) h =
      quiet-IsStable s (with_store s.library s') h
        (commit_upload_part-IsQuiet w upload_id actor st s.library p s' e)
  Step-IsStable {s = s} (begins w failing nonce actor claim l new e) h =
      begins-IsStable s l nonce claim h new (
        subst (HasBegun upload_id nonce s.library) e (
          begin_verification-HasBegun code_length inside upload_id w failing nonce actor s.library))
  Step-IsStable {s = s} (returns w failing nonce actor i l e) h = quiet-IsStable s l h (
      subst (HasBegun upload_id nonce s.library) e
        (begin_verification-HasBegun code_length inside upload_id w failing nonce actor s.library))
  Step-IsStable {s = s} (raises w failing nonce actor x l e) h = quiet-IsStable s l h (
      subst (HasBegun upload_id nonce s.library) e
        (begin_verification-HasBegun code_length inside upload_id w failing nonce actor s.library))
  Step-IsStable {s = s} (reads nonce m claim v begun e) h = record {
    known = (ap is_some begun, h.known);
    up_to_date = ((λ _. e), h.up_to_date);
  }
  Step-IsStable {s = s} (resets w nonce) h =
      quiet-IsStable s _ h (reset_verifying_upload-IsQuiet w upload_id nonce s.library)
  Step-IsStable {s = s} (publishes w c r actor nonce e) h =
      quiet-IsStable s _ h (publish-IsQuiet w c upload_id r.nonce r.verified actor s.library)
  Step-IsStable {s = s} (dies w c r actor nonce e) h =
      quiet-IsStable s _ h (prepare_final-IsQuiet w c upload_id r.nonce r.verified actor s.library)
  Step-IsStable {s = s} (recovers w failing) h =
      quiet-IsStable s _ h
        (recover_finalizing_session-IsQuiet code_length inside upload_id w failing s.library)
  Step-IsStable {s = s} (restarts w) h =
      quiet-IsStable s _ h
        (recover_verifying_session-IsQuiet code_length inside upload_id w s.library)
  Step-IsStable {s = s} (cancels actor l e) h =
      quiet-IsStable s l h
        (cancel_upload_session-IsQuiet code_length inside upload_id actor s.library l e)

  Reach-IsStable :
      {s t : Run} → IsStable s → Reach code_length inside digest_of upload_id s t → IsStable t
  Reach-IsStable h here = h
  Reach-IsStable h (next r step) = Step-IsStable step (Reach-IsStable h r)

  -- What the metadata says of the file that is about to be moved.
  pub record IsCurrent (t : Run) (r : Reading) (after : Library) (info : FinalInfo) : Type 0 where
    pub again : verify_source digest_of (after.part_files upload_id) r.claim ≡ ok r.verified
    pub digest : info.sha256 ≡ r.verified.sha256
    pub content_type : info.content_type ≡ r.verified.content_type

  check_attempt-held :
      (l : Library) (u : UploadSession) (nonce : String) (actor user : Principal)
      → check_attempt l u nonce actor ≡ ok user
      → has_verification_nonce u nonce ≡ true
  unfolding check_attempt
  check_attempt-held l u nonce actor user e =
      let (fresh, _, e1) = >>=-eq-ok (fresh_library_user l.db actor) _ e in
      let (_, _, e2) =
        >>=-eq-ok
          (raise_if (not (u.owner_id == fresh.user.id) && not (has_global_admin_scope fresh))
            (http 404))
          _ e1 in
      let (_, mine, e3) =
        >>=-eq-ok (raise_if (not (has_verification_nonce u nonce)) (http 409)) _ e2 in
      let k = raise_if-eq-ok _ _ mine in ground arith

  choose_info-made :
      (c : Chance) (v : Verified) (admin : Bool) (l : Library) (info : FinalInfo)
      → choose_info c v admin l.db ≡ ok info
      → (info.sha256 ≡ v.sha256) × (info.content_type ≡ v.content_type)
  unfolding choose_info
  choose_info-made c v admin l info e =
      let (code, _, e1) = >>=-eq-ok (unique_video_code l.db c.draws) _ e in
      elim (Option-cases c.prepare) [
        | inr (failure, failed) ↦ absurd (err≢ok (rw failed at e1))
        | inl smooth ↦
            let same = ok-injective (rw smooth at e1) in
            (
              sym (ap (λ (i : FinalInfo). i.sha256) same),
              sym (ap (λ (i : FinalInfo). i.content_type) same),
            )
      ]

  -- However the requests on an upload interleave between the two phases of a completion (parts that
  -- are put, other attempts, resets, cancellations, recoveries, restarts and crashes), an attempt whose
  -- metadata is committed read the file that is there at that moment: reading and verifying it again
  -- gives the digest and the type that the metadata states.
  pub prepare_final-IsCurrent :
      (w : World) (c : Chance) (nonce : String) (actor : Principal) (l after : Library) (t : Run)
      (r : Reading) (info : FinalInfo)
      → Reach code_length inside digest_of upload_id (start l) t
      → reading_of nonce t.readings ≡ some r
      → prepare_final w c upload_id r.nonce r.verified actor t.library ≡ (after, ok info)
      → IsCurrent t r after info
  prepare_final-IsCurrent w c nonce actor l after t r info reached read e =
      let stable = Reach-IsStable (record { known = tt; up_to_date = tt }) reached in
      let run =
        prepare_final-IsChosen w c upload_id r.nonce r.verified actor t.library after info e in
      let held : holder upload_id t.library.db ≡ some r.nonce =
        holder-some upload_id t.library.db run.current run.found
        ∙ has_verification_nonce-nonce_of run.current r.nonce
            (check_attempt-held t.library run.current r.nonce actor run.user run.checked) in
      let up_to_date =
        All-find (IsUpToDate t.library) (λ (x : Reading). str_eq x.nonce nonce) t.readings r
          stable.up_to_date read in
      let (digest, content_type) =
        choose_info-made c r.verified (has_global_admin_scope run.user) t.library info run.chosen in
      record {
        again =
            subst
              (λ (x : Library).
                verify_source digest_of (x.part_files upload_id) r.claim ≡ ok r.verified)
              (sym run.after) (up_to_date held);
        digest = digest;
        content_type = content_type;
      }
