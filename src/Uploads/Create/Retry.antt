-- ===== src/Uploads/Create/Retry.antt =====
-- A request to create an upload session that is sent a second time.
use asset_harbor.Base.{
  ℕ, ◌<◌, ◌≡◌, refl, sym, subst, ap, ◌∙◌, inl, inr, Bool, true, not, ◌&&◌, ◌||◌, Option, none, some,
  List, [], ◌∷◌, ◌++◌, arith, ok, http, >>=-eq-ok, raise_if, ltb, ◌==◌, ==-refl, str_eq, eq_refl,
  where_, any, Bool-cases, Option-cases,
}
use asset_harbor.Base.Text.{Text, text_eq}
use asset_harbor.Model.{Db, UploadSession, Principal, max_video_size_bytes}
use asset_harbor.Access.{fresh_library_user, check_team_access, get_user, get_team, get_membership}
use asset_harbor.Access.Fresh.{fresh_library_user-IsFresh}
use asset_harbor.Chunks.{is_sha256, lower}
use asset_harbor.Quota.Admitted.{opt_eq_refl}
use asset_harbor.Uploads.Create.{
  Request, World, normalized_name, same_intent, is_active_status, latest, reusable_session,
  new_session, reuse_or_insert, create_upload_session,
}
use asset_harbor.Uploads.Filename.{safe_filename}
use asset_harbor.Uploads.Create.Admission.{create_upload_session_lem, IsReturned}

latest-some :
    (p : UploadSession → Bool) (l : List UploadSession)
    → any p l ≡ true
    → (u : UploadSession) × (latest (where_ p l) ≡ some u)
unfolding latest
latest-some p [] h = absurd (ground arith)
latest-some p (v ∷ l) h = elim (Bool-cases (p v)) [
  | inl hit ↦ elim (Option-cases (latest (where_ p l))) [
    | inl only ↦ (v, rw (hit, only))
    | inr (x, rest) ↦ elim (Bool-cases (ltb v.created_at x.created_at)) [
      | inl later ↦ (x, rw (hit, rest, later))
      | inr first ↦ (v, rw (hit, rest, first))
    ]
  ]
  | inr miss ↦ let (u, found) = latest-some p l (rw miss at h) in (u, rw miss found)
]

-- What the query returns is a row that every test it passes finds.
latest-any :
    (p q : UploadSession → Bool) (l : List UploadSession) (u : UploadSession)
    → latest (where_ p l) ≡ some u
    → q u ≡ true
    → any q l ≡ true
unfolding latest
latest-any p q [] u h k = absurd (ground arith)
latest-any p q (v ∷ l) u h k = elim (Bool-cases (p v)) [
  | inl hit ↦ elim (Option-cases (latest (where_ p l))) [
    | inl only ↦
        let same : v ≡ u = let e = rw (hit, only) at h in cc in
        let e : q v ≡ true = rw same k in rw e
    | inr (x, rest) ↦ elim (Bool-cases (ltb v.created_at x.created_at)) [
      | inl later ↦
          let same : x ≡ u = let e = rw (hit, rest, later) at h in cc in
          let ih = latest-any p q l u (rest ∙ ap (λ y. some y) same) k in ground arith
      | inr first ↦
          let same : v ≡ u = let e = rw (hit, rest, first) at h in cc in
          let e : q v ≡ true = rw same k in rw e
    ]
  ]
  | inr miss ↦ let ih = latest-any p q l u (rw miss at h) k in ground arith
]

any-append_last :
    (p : UploadSession → Bool) (l : List UploadSession) (u : UploadSession)
    → p u ≡ true
    → any p (l ++ (u ∷ [])) ≡ true
any-append_last p [] u h = rw h
any-append_last p (x ∷ l) u h = ground (arith, any-append_last p l u h)

text_eq_refl : (s : Text) → text_eq s s ≡ true
text_eq_refl [] = refl
text_eq_refl (c ∷ s) = ground (arith, text_eq_refl s)

new_session-same_intent :
    (w : World) (owner : ℕ) (r : Request) → same_intent owner r (new_session w owner r) ≡ true
unfolding same_intent new_session
new_session-same_intent w owner r = rw (
  ==-refl owner,
  text_eq_refl (lower r.fingerprint),
  ==-refl r.size,
  text_eq_refl (safe_filename r.filename),
  text_eq_refl (normalized_name r),
  eq_refl r.visibility,
  opt_eq_refl r.team_id,
)

-- The filter of the query, at another time.
abbrev is_match : World → ℕ → Request → UploadSession → Bool
is_match w owner r u = same_intent owner r u && is_active_status u.status && ltb w.now u.expires_at

-- The session that was returned is still in the table, and matches while it is not expired.
returned-any :
    (w w' : World) (db db' : Db) (owner : ℕ) (r : Request) (u : UploadSession)
    → IsReturned w db owner r db' u
    → w'.now < u.expires_at
    → any (is_match w' owner r) db'.upload_sessions ≡ true
unfolding reusable_session new_session
returned-any w w' db db' owner r u (inl (same, found, intent)) h = rw same (
    latest-any (is_match w owner r) (is_match w' owner r) db.upload_sessions u found
      (ground (arith, intent)))
returned-any w w' db db' owner r u (inr new) h =
    let is_new : is_match w' owner r u ≡ true =
      subst (λ v. w'.now < v.expires_at → is_match w' owner r v ≡ true) (sym new.session)
        (λ k. rw (new_session-same_intent w owner r) (ground arith)) h in
    rw (new.written) (any-append_last (is_match w' owner r) db.upload_sessions u is_new)

-- The database differs in its upload sessions at most.
abbrev SameAccess : Db → Db → Type 0
SameAccess db db' = (l : List UploadSession) × (db' ≡ record db { upload_sessions = l })

returned-SameAccess :
    (w : World) (db db' : Db) (owner : ℕ) (r : Request) (u : UploadSession)
    → IsReturned w db owner r db' u
    → SameAccess db db'
returned-SameAccess w db db' owner r u (inl (same, found, intent)) = (db.upload_sessions, same)
returned-SameAccess w db db' owner r u (inr new) = (db.upload_sessions ++ (u ∷ []), new.written)

fresh-upload_sessions :
    (db : Db) (l : List UploadSession) (p : Principal)
    → fresh_library_user (record db { upload_sessions = l }) p ≡ fresh_library_user db p
unfolding fresh_library_user get_user
fresh-upload_sessions db l p = refl

team-upload_sessions :
    (db : Db) (l : List UploadSession) (t : Option ℕ) (p : Principal)
    → check_team_access (record db { upload_sessions = l }) t p ≡ check_team_access db t p
unfolding check_team_access get_team get_membership
team-upload_sessions db l none p = refl
team-upload_sessions db l (some t) p = refl

-- The checks that a request has passed are passed again.
checks_again :
    (w w' : World) (db db' : Db) (p : Principal) (r : Request) (x : Db × UploadSession)
    → w'.settings ≡ w.settings
    → SameAccess db db'
    → create_upload_session w db p r ≡ ok x
    → create_upload_session w' db' p r ≡ reuse_or_insert w' db' p.user.id r
unfolding create_upload_session
checks_again w w' db db' p r x s (l, same) e =
    let (q, fresh, e1) = >>=-eq-ok (fresh_library_user db p) _ e in
    let (_, visible, e2) =
      >>=-eq-ok
        (raise_if (not (str_eq r.visibility "public" || str_eq r.visibility "private")) (http 422))
        _ e1 in
    let (_, sized, e3) = >>=-eq-ok (raise_if (r.size == 0) (http 422)) _ e2 in
    let (_, bounded, e4) =
      >>=-eq-ok (raise_if (ltb (max_video_size_bytes w.settings) r.size) (http 413)) _ e3 in
    let (_, hex, e5) =
      >>=-eq-ok (raise_if (not (is_sha256 (lower r.fingerprint))) (http 422)) _ e4 in
    let (_, allowed, e6) = >>=-eq-ok (check_team_access db r.team_id q) _ e5 in
    let same_id = (fresh_library_user-IsFresh db p q fresh).same_id in
    let fresh' : fresh_library_user db' p ≡ ok q = rw same (fresh-upload_sessions db l p ∙ fresh) in
    let allowed' : check_team_access db' r.team_id q ≡ ok tt =
      rw same (team-upload_sessions db l r.team_id q ∙ allowed) in
    let bounded' : raise_if (ltb (max_video_size_bytes w'.settings) r.size) (http 413) ≡ ok tt =
      rw s bounded in
    rw (fresh', visible, sized, bounded', hex, allowed')
      (ap (λ o. reuse_or_insert w' db' o r) same_id)

reuse-ok :
    (w : World) (db : Db) (owner : ℕ) (r : Request) (u : UploadSession)
    → reusable_session w db owner r ≡ some u
    → reuse_or_insert w db owner r ≡ ok (db, u)
unfolding reuse_or_insert
reuse-ok w db owner r u h = rw (h, reuse_or_insert)

-- A request that has got a session and is sent again before that session expires, at any time, disk
-- state and new number, gets a session and writes nothing.
pub create_upload_session_again :
    (w w' : World) (db db' : Db) (p : Principal) (r : Request) (u : UploadSession)
    → 0 < w.settings.video_upload_ttl_hours
    → w'.settings ≡ w.settings
    → w'.now < u.expires_at
    → create_upload_session w db p r ≡ ok (db', u)
    → (v : UploadSession) × (create_upload_session w' db' p r ≡ ok (db', v))
unfolding reusable_session
create_upload_session_again w w' db db' p r u t s before e =
    let returned = create_upload_session_lem w db db' p r u t e in
    let (v, found) =
      latest-some (is_match w' p.user.id r) db'.upload_sessions
        (returned-any w w' db db' p.user.id r u returned before) in
    (
      v,
      checks_again w w' db db' p r (db', u) s (returned-SameAccess w db db' p.user.id r u returned)
            e
          ∙ reuse-ok w' db' p.user.id r v found,
    )
