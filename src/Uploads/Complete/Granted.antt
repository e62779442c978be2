-- ===== src/Uploads/Complete/Granted.antt =====
-- What an attempt that passes the second phase's checks establishes: its file, its code, and the
-- access that recovery will ask for.
use asset_harbor.Base.{
  ℕ, zero, suc, ◌<◌, String, Bool, true, false, not, ◌&&◌, ◌≡◌, refl, sym, subst, ap, ◌∙◌, Option,
  none, some, List, [], ◌∷◌, map, take, ok, http, arith, length, All, All-find, is_some, is_none,
  Option-cases, inl, inr, find_passes, err≢ok, >>=-eq-ok, raise_if-eq-ok, ok-injective,
  or_raise-eq-ok, raise_if, or_raise, runtime_error, ◌==◌, find,
}
use asset_harbor.Base.Text.{Text}
use asset_harbor.Model.{Db, User, Principal, UploadSession, AuthScope}
use asset_harbor.Access.{
  fresh_library_user, has_global_admin_scope, check_team_access, get_user, bind_auth_scope,
  unmarked,
}
use asset_harbor.Access.Fresh.{fresh_library_user-IsFresh}
use asset_harbor.Sniff.{Bytes}
use asset_harbor.ShortCode.{
  generate_short_code, generate_short_code-base62, length-generate_short_code,
}
use asset_harbor.Uploads.Recovery.{FinalInfo}
use asset_harbor.Uploads.Cancel.{Library}
use asset_harbor.Uploads.Finalize.{
  has_file, has_verification_nonce, unique_video_code, get_image_by_code,
}
use asset_harbor.Uploads.Recover.{recovery_access}
use asset_harbor.Uploads.Begin.{size_is}
use asset_harbor.Uploads.Verify.{Verified}
use asset_harbor.Uploads.Complete.{Chance, check_attempt, choose_info, final_info}
use asset_harbor.Uploads.Complete.Dumped.{IsCode}

-- A tenant's access is that of the member with the same number.
check_team_access-tenant :
    (db : Db) (team_id : Option ℕ) (p q : Principal)
    → has_global_admin_scope p ≡ false
    → has_global_admin_scope q ≡ false
    → p.user.id ≡ q.user.id
    → check_team_access db team_id p ≡ ok tt
    → check_team_access db team_id q ≡ ok tt
unfolding check_team_access
check_team_access-tenant db none p q hp hq same h = refl
check_team_access-tenant db (some t) p q hp hq same h = rw (hq, ← same) (rw hp at h)

tenant-scope :
    (u : User) → has_global_admin_scope (bind_auth_scope (unmarked u) AuthScope.tenant) ≡ false
unfolding has_global_admin_scope bind_auth_scope
tenant-scope u = ground arith

tenant-id : (u : User) → (bind_auth_scope (unmarked u) AuthScope.tenant).user.id ≡ u.id
unfolding bind_auth_scope
tenant-id u = refl

is_none-none {ℓ} : {A : Type ℓ} (o : Option A) → is_none o ≡ true → o ≡ none
is_none-none none h = refl
is_none-none (some a) h = cc

size_is-has_file : (file : Option Bytes) (size : ℕ) → size_is file size ≡ true → is_some file ≡ true
size_is-has_file none size h = cc
size_is-has_file (some file) size h = refl

-- What the checks establish, for an actor without the scope of a global administrator.
pub record IsGranted (s : Library) (current : UploadSession) (nonce : String) : Type 0 where
  pub attempt : has_verification_nonce current nonce ≡ true
  pub file : has_file s current.upload_id ≡ true
  pub access : recovery_access s.db current false ≡ ok tt

pub check_attempt-IsGranted :
    (s : Library) (current : UploadSession) (nonce : String) (actor user : Principal)
    → check_attempt s current nonce actor ≡ ok user
    → has_global_admin_scope user ≡ false
    → IsGranted s current nonce
unfolding check_attempt recovery_access
check_attempt-IsGranted s current nonce actor user e tenant =
    let (fresh, revalidated, e1) = >>=-eq-ok (fresh_library_user s.db actor) _ e in
    let (_, owns, e2) =
      >>=-eq-ok
        (raise_if (not (current.owner_id == fresh.user.id) && not (has_global_admin_scope fresh))
          (http 404))
        _ e1 in
    let (_, mine, e3) =
      >>=-eq-ok (raise_if (not (has_verification_nonce current nonce)) (http 409)) _ e2 in
    let (_, member, e4) = >>=-eq-ok (check_team_access s.db current.team_id fresh) _ e3 in
    let (_, sized, e5) =
      >>=-eq-ok (raise_if (not (size_is (s.part_files current.upload_id) current.size)) (http 409))
        _ e4 in
    let same : fresh ≡ user = ok-injective e5 in
    let plain : has_global_admin_scope fresh ≡ false = rw same tenant in
    let facts = fresh_library_user-IsFresh s.db actor fresh revalidated in
    let owner : current.owner_id ≡ fresh.user.id =
      let k = raise_if-eq-ok _ _ owns in ground arith in
    let stored : get_user s.db current.owner_id ≡ some fresh.user =
      ap (get_user s.db) (owner ∙ facts.same_id) ∙ facts.stored in
    record {
      attempt = let k = raise_if-eq-ok _ _ mine in ground arith;
      file =
          size_is-has_file (s.part_files current.upload_id) current.size
            (let k = raise_if-eq-ok _ _ sized in ground arith);
      access = rw stored (
          check_team_access-tenant s.db current.team_id fresh
            (bind_auth_scope (unmarked fresh.user) AuthScope.tenant) plain (tenant-scope fresh.user)
            (sym (tenant-id fresh.user)) member);
    }

-- One position for each letter of a code, and each draw below the number of letters.
abbrev pub AreDraws : ℕ → List (List ℕ) → Type 0
AreDraws code_length draws =
    All (λ (d : List ℕ). (length d ≡ code_length) × All (λ i. i < 62) d) draws

codes-IsCode :
    (code_length k : ℕ) (draws : List (List ℕ))
    → AreDraws code_length draws
    → All (IsCode code_length) (map generate_short_code (take k draws))
codes-IsCode n zero draws h = tt
codes-IsCode n (suc k) [] h = tt
codes-IsCode n (suc k) (d ∷ draws) h = (
  record {
    letters = generate_short_code-base62 d h.0.1;
    long = length-generate_short_code d ∙ h.0.0;
  },
  codes-IsCode n k draws h.1,
)

-- The metadata that is chosen is made of what the file is found to be and of a new short code.
pub record IsNew (code_length : ℕ) (v : Verified) (admin : Bool) (info : FinalInfo) (db : Db)
    : Type 0 where
  pub made : info ≡ final_info v admin info.code
  pub code : IsCode code_length info.code
  pub unused : get_image_by_code db info.code ≡ none

pub choose_info-IsNew :
    (code_length : ℕ) (c : Chance) (v : Verified) (admin : Bool) (db : Db) (info : FinalInfo)
    → AreDraws code_length c.draws
    → choose_info c v admin db ≡ ok info
    → IsNew code_length v admin info db
unfolding choose_info unique_video_code
choose_info-IsNew n c v admin db info drawn e =
    let codes = map generate_short_code (take 16 c.draws) in
    let free : Text → Bool = λ code. is_none (get_image_by_code db code) in
    let (code, found, e1) = >>=-eq-ok (or_raise (find free codes) runtime_error) _ e in
    let there = or_raise-eq-ok (find free codes) runtime_error found in
    elim (Option-cases c.prepare) [
      | inr (failure, failed) ↦ absurd (err≢ok (rw failed at e1))
      | inl smooth ↦
          let same : final_info v admin code ≡ info = ok-injective (rw smooth at e1) in
          let named : code ≡ info.code = ap (λ (i : FinalInfo). i.code) same in
          record {
            made = sym same ∙ ap (final_info v admin) named;
            code =
                subst (IsCode n) named
                  (All-find (IsCode n) free codes code (codes-IsCode n 16 c.draws drawn) there);
            unused =
                subst (λ k. get_image_by_code db k ≡ none) named
                  (is_none-none (get_image_by_code db code) (find_passes free codes code there));
          }
    ]
