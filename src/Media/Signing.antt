-- ===== src/Media/Signing.antt =====
-- What an update of a medium stores, and when it revokes the signed links.
use asset_harbor.Base.{
  ℕ, ◌+◌, String, ◌≡◌, refl, subst, true, false, not, ◌&&◌, Option, none, some, List, [], ◌∷◌,
  arith, ok, http, >>=-eq-ok, raise_if-eq-ok, ok-injective, or_raise-eq-ok, raise_if, or_raise,
  ◌==◌, if◌then◌else◌, str_eq, eq_iff, find, update, Bool, Bool-cases, inl, inr, ==-refl,
}
use asset_harbor.Base.Text.{Text, text_eq}
use asset_harbor.Model.{Image, MediaKind, Db, Principal}
use asset_harbor.Access.{fresh_library_user, can_manage_image}
use asset_harbor.Media.{
  get_media, kind_eq, with_visibility, set_visibility, set_name, allowed_visibility,
  update_media_metadata,
}

-- A medium before and after an update that asks for a visibility or none: what it shows, the version
-- of its links, and what an update never changes.
pub record IsUpdated (visibility : Option String) (old changed : Image) : Type 0 where
  pub shown : changed.visibility ≡ elim visibility [ none ↦ old.visibility | some v ↦ v ]
  pub version : changed.signing_version ≡ (
      if str_eq changed.visibility "private" && not (str_eq old.visibility "private")
      then old.signing_version + 1
      else old.signing_version)
  pub owner : (changed.owner_id ≡ old.owner_id) × (changed.team_id ≡ old.team_id)
  pub content :
      (changed.sha256 ≡ old.sha256)
      × (changed.stored_path ≡ old.stored_path)
      × (changed.size ≡ old.size)

set-IsUpdated :
    (name : Option Text) (visibility : Option String) (old : Image)
    → IsUpdated visibility old (set_name name (set_visibility visibility old))
unfolding with_visibility
set-IsUpdated none none old = record {
  shown = refl;
  version = ground arith;
  owner = (refl, refl);
  content = (refl, refl, refl);
}
set-IsUpdated (some n) none old = record {
  shown = refl;
  version = ground arith;
  owner = (refl, refl);
  content = (refl, refl, refl);
}
set-IsUpdated none (some v) old = record {
  shown = refl;
  version = ground (arith, eq_iff v old.visibility);
  owner = (refl, refl);
  content = (refl, refl, refl);
}
set-IsUpdated (some n) (some v) old = record {
  shown = refl;
  version = ground (arith, eq_iff v old.visibility);
  owner = (refl, refl);
  content = (refl, refl, refl);
}

set-id :
    (name : Option Text) (visibility : Option String) (old : Image)
    → (set_name name (set_visibility visibility old)).id ≡ old.id
unfolding with_visibility
set-id none none old = refl
set-id (some n) none old = refl
set-id none (some v) old = refl
set-id (some n) (some v) old = refl

-- A row that is there is found as what it is replaced by.
find-update_stored :
    (p : Image → Bool) (id : ℕ) (changed old : Image) (l : List Image)
    → changed.id ≡ id
    → old.id ≡ id
    → find p l ≡ some old
    → find (λ i. i.id == id) (update (λ i. i.id == id) (λ _. changed) l) ≡ some changed
find-update_stored p id changed old [] same mine found = absurd (ground arith)
find-update_stored p id changed old (x ∷ l) same mine found = elim (Bool-cases (x.id == id)) [
  | inl hit ↦ let there : (changed.id == id) ≡ true = rw same (==-refl id) in rw (hit, there) refl
  | inr miss ↦ elim (Bool-cases (p x)) [
    | inl first ↦
        let xo : some x ≡ some old = rw first at found in
        let e : x ≡ old = cc in
        let f : x.id ≡ id = rw e mine in
        absurd (let t : (x.id == id) ≡ true = rw f (==-refl id) in cc)
    | inr later ↦
        rw (miss, miss) (find-update_stored p id changed old l same mine (rw later at found))
  ]
]

find-update_other :
    (k id : ℕ) (changed : Image) (l : List Image)
    → changed.id ≡ id
    → (id == k) ≡ false
    → find (λ i. i.id == k) (update (λ i. i.id == id) (λ _. changed) l) ≡ find (λ i. i.id == k) l
find-update_other k id changed [] same other = refl
find-update_other k id changed (x ∷ l) same other =
    ground (arith, find-update_other k id changed l same other)

-- A successful update is by a principal who can manage the medium, and the updated medium is what its
-- number finds afterwards. It has the visibility that is asked for, or its old one where none is; its
-- signed links are revoked, by the next version, exactly if it is private now and was not; its
-- owner, team, digest, path and size are the old ones; and every other number finds what it found.
pub update_media_metadata-IsUpdated :
    (code : Text) (kind : MediaKind) (actor : Principal) (name : Option Text)
    (visibility : Option String) (db db' : Db) (changed : Image)
    → update_media_metadata code kind actor name visibility db ≡ ok (changed, db')
    → (old : Image) × (p : Principal) × (get_media db code kind ≡ some old)
      × (fresh_library_user db actor ≡ ok p)
      × (can_manage_image db p old ≡ true)
      × IsUpdated visibility old changed
      × (find (λ i. i.id == old.id) db'.images ≡ some changed)
      × ((k : ℕ)
          → (old.id == k) ≡ false
          → find (λ i. i.id == k) db'.images ≡ find (λ i. i.id == k) db.images)
unfolding update_media_metadata get_media
update_media_metadata-IsUpdated code kind actor name visibility db db' changed e =
    let (p, fresh, e1) = >>=-eq-ok (fresh_library_user db actor) _ e in
    let (old, found, e2) = >>=-eq-ok (or_raise (get_media db code kind) (http 404)) _ e1 in
    let (_, manages, e3) = >>=-eq-ok (raise_if (not (can_manage_image db p old)) (http 403)) _ e2 in
    let (_, valid, e4) =
      >>=-eq-ok (raise_if (not (allowed_visibility visibility)) (http 422)) _ e3 in
    let m = set_name name (set_visibility visibility old) in
    let result = ok-injective e4 in
    (
      old,
      p,
      or_raise-eq-ok (get_media db code kind) (http 404) found,
      fresh,
      (let k = raise_if-eq-ok _ _ manages in ground arith),
      subst (λ x. IsUpdated visibility old x.0) result (set-IsUpdated name visibility old),
      subst (λ x. find (λ (i : Image). i.id == old.id) x.1.images ≡ some x.0) result
          (find-update_stored (λ i. text_eq i.code code && kind_eq i.media_kind kind) old.id m old
            db.images (set-id name visibility old) refl
            (or_raise-eq-ok (get_media db code kind) (http 404) found)),
      subst
          (λ x.
            (k : ℕ)
            → (old.id == k) ≡ false
            → find (λ (i : Image). i.id == k) x.1.images ≡ find (λ i. i.id == k) db.images)
          result
          (λ k other. find-update_other k old.id m db.images (set-id name visibility old) other),
    )
