-- ===== src/Uploads/Attempts.antt =====
-- The attempts to complete one upload, as other requests interleave with them: the handlers of
-- app/services/videos.py that read or change the upload, each of which holds its lock, as the steps
-- of a relation. Between the two phases of `complete_upload_session` anything can happen.
pub mod Held
pub mod Handlers
pub mod Recovered
pub mod Finished
pub mod Claimed
pub mod Stable
mod Tests
use asset_harbor.Base.{
  ℕ, String, Bool, ◌≡◌, Option, none, some, List, [], ◌∷◌, Result, ok, err, Error, find, str_eq,
}
use asset_harbor.Base.Text.{Text}
use asset_harbor.Model.{Image, UploadPart, Principal}
use asset_harbor.Sniff.{Bytes}
use asset_harbor.Uploads.Create.{World}
use asset_harbor.Uploads.Parts.{Store, Staged, commit_upload_part}
use asset_harbor.Uploads.Recovery.{FinalInfo}
use asset_harbor.Uploads.Cancel.{Library, cancel_upload_session}
use asset_harbor.Uploads.Finalize.{reset_verifying_upload}
use asset_harbor.Uploads.Recover.{recover_finalizing_session, recover_verifying_session}
use asset_harbor.Uploads.Begin.{Claim, Begun, done, claimed, begin_verification}
use asset_harbor.Uploads.Verify.{Verified, verify_source}
use asset_harbor.Uploads.Complete.{Chance, prepare_final, publish}

-- What an attempt has found by reading the file.
pub record Reading : Type 0 where
  pub nonce : String
  pub claim : Claim
  pub verified : Verified

-- The library, and what the requests that are under way hold in memory: the claims of the attempts
-- that have begun, and the readings of those that have read the file.
pub record Run : Type 0 where
  pub library : Library
  pub claims : List (String × Claim)
  pub readings : List Reading

abbrev pub claim_of : String → List (String × Claim) → Option (String × Claim)
claim_of nonce claims = find (λ (c : String × Claim). str_eq c.0 nonce) claims

abbrev pub reading_of : String → List Reading → Option Reading
reading_of nonce readings = find (λ (r : Reading). str_eq r.nonce nonce) readings

abbrev pub store_of : Library → Store
store_of s = record { db = s.db; part_files = s.part_files }

abbrev pub with_store : Library → Store → Library
with_store s st = record s { db = st.db; part_files = st.part_files }

module _ (code_length : ℕ) (inside : Text → Bool) (digest_of : Bytes → Text)
    (upload_id : String) where
  -- One handler runs on the upload. A new attempt has a nonce that no attempt has had, as `uuid4`
  -- promises. A process that dies in the second phase leaves what `prepare_final` has left.
  pub data Step (s : Run) : Run → Type 0 where
    put :
        (w : World) (actor : Principal) (st : Staged) (p : UploadPart) (s' : Store)
        → commit_upload_part w upload_id actor st (store_of s.library) ≡ ok (p, s')
        → Step s (record s { library = with_store s.library s' })
    begins :
        (w : World) (failing : Bool × Bool) (nonce : String) (actor : Principal) (claim : Claim)
        (l : Library)
        → claim_of nonce s.claims ≡ none
        → begin_verification code_length inside w failing nonce upload_id actor s.library
          ≡ (l, ok (claimed claim))
        → Step s (record s { library = l; claims = (nonce, claim) ∷ s.claims })
    returns :
        (w : World) (failing : Bool × Bool) (nonce : String) (actor : Principal) (i : Image)
        (l : Library)
        → begin_verification code_length inside w failing nonce upload_id actor s.library
          ≡ (l, ok (done i))
        → Step s (record s { library = l })
    raises :
        (w : World) (failing : Bool × Bool) (nonce : String) (actor : Principal) (e : Error)
        (l : Library)
        → begin_verification code_length inside w failing nonce upload_id actor s.library
          ≡ (l, err e)
        → Step s (record s { library = l })
    reads :
        (nonce m : String) (claim : Claim) (v : Verified)
        → claim_of nonce s.claims ≡ some (m, claim)
        → verify_source digest_of (s.library.part_files upload_id) claim ≡ ok v
        → Step s (record s {
          readings = record { nonce = nonce; claim = claim; verified = v } ∷ s.readings;
        })
    resets :
        (w : World) (nonce : String)
        → Step s (record s { library = reset_verifying_upload w upload_id nonce s.library })
    publishes :
        (w : World) (c : Chance) (r : Reading) (actor : Principal) (nonce : String)
        → reading_of nonce s.readings ≡ some r
        → Step s
            (record s { library = (publish w c upload_id r.nonce r.verified actor s.library).0 })
    dies :
        (w : World) (c : Chance) (r : Reading) (actor : Principal) (nonce : String)
        → reading_of nonce s.readings ≡ some r
        → Step s (record s {
          library = (prepare_final w c upload_id r.nonce r.verified actor s.library).0;
        })
    recovers :
        (w : World) (failing : Bool × Bool)
        → Step s (record s {
          library = (recover_finalizing_session code_length inside w failing upload_id s.library).0;
        })
    restarts :
        (w : World)
        → Step s (record s {
          library = recover_verifying_session code_length inside w upload_id s.library;
        })
    cancels :
        (actor : Principal) (l : Library)
        → cancel_upload_session code_length inside upload_id actor s.library ≡ ok l
        → Step s (record s { library = l })

  pub data Reach (s : Run) : Run → Type 0 where
    here : Reach s s
    next : {t u : Run} → Reach s t → Step t u → Reach s u

-- Nothing is under way.
abbrev pub start : Library → Run
start l = record { library = l; claims = []; readings = [] }
