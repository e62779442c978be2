-- ===== src/Uploads/Create/Admission.antt =====
-- The session that a creation request is answered with.
use asset_harbor.Base.{
  ℕ, ◌+◌, ◌≤◌, ◌<◌, ◌≡◌, refl, sym, subst, ap, ◌∙◌, ◌⊎◌, inl, inr, Bool, true, false, not, ◌&&◌,
  ◌||◌, some, List, [], ◌∷◌, ◌++◌, arith, ok, http, runtime_error, integrity_error, >>=-eq-ok,
  raise_if-eq-ok, ok-injective, raise_if, ltb, leb, ◌==◌, str_eq, where_, any, length, All,
  All-where_pass, All-of, Bool-cases, Option-cases,
}
use asset_harbor.Model.{
  Db, UploadSession, Principal, max_video_size_bytes, video_chunk_size_bytes, min_free_space_bytes,
}
use asset_harbor.Access.{fresh_library_user, check_team_access}
use asset_harbor.Access.Fresh.{fresh_library_user-IsFresh}
use asset_harbor.Chunks.{is_sha256, lower}
use asset_harbor.Chunks.Tiling.{IsChunked}
use asset_harbor.Disk.{ensure_free_space}
use asset_harbor.Quota.{is_reserved, enforce_storage_quota}
use asset_harbor.Quota.Admitted.{IsWithinQuota, add_session, enforce_storage_quota-add_session}
use asset_harbor.Uploads.Create.{
  reuse_or_insert, Request, World, same_intent, is_active_status, latest, reusable_session,
  active_count, new_session, insert_session, create_upload_session,
}

-- An unexpired session of the owner in progress, with the complete intent of the request.
abbrev pub IsReusable : World → ℕ → Request → UploadSession → Type 0
IsReusable w owner r u =
    (same_intent owner r u ≡ true)
    × (is_active_status u.status ≡ true)
    × (ltb w.now u.expires_at ≡ true)

-- What is admitted with a new session: the database with it added is within the quotas and the
-- number of unfinished uploads, the disk keeps its minimum free, and the session has the number of
-- parts that its size takes.
pub record IsAdmitted (w : World) (db : Db) (owner : ℕ) (r : Request) (db' : Db) (u : UploadSession)
    : Type 0 where
  pub session : u ≡ new_session w owner r
  pub written : db' ≡ add_session u db
  pub unused :
      any (λ (v : UploadSession). str_eq v.upload_id u.upload_id) db.upload_sessions ≡ false
  pub in_quota : IsWithinQuota w.settings w.now db' owner r.team_id
  pub few : active_count w db' owner ≤ w.settings.max_active_video_uploads
  pub room : min_free_space_bytes w.settings + w.reserved + r.size ≤ w.free
  pub parts : IsChunked u

latest_All :
    (P : UploadSession → Type 0) (l : List UploadSession) (u : UploadSession)
    → All P l
    → latest l ≡ some u
    → P u
unfolding latest
latest_All P [] u h e = absurd (ground arith)
latest_All P (v ∷ l) u h e = elim (Option-cases (latest l)) [
  | inl only ↦ let same : v ≡ u = ground arith in subst P same h.0
  | inr (x, rest) ↦ elim (Bool-cases (ltb v.created_at x.created_at)) [
    | inl later ↦ latest_All P l u h.1 (ground arith)
    | inr first ↦ let same : v ≡ u = ground arith in subst P same h.0
  ]
]

reusable_session-IsReusable :
    (w : World) (db : Db) (owner : ℕ) (r : Request) (u : UploadSession)
    → reusable_session w db owner r ≡ some u
    → IsReusable w owner r u
unfolding reusable_session
reusable_session-IsReusable w db owner r u e =
    latest_All (IsReusable w owner r) _ u
      (All-where_pass (IsReusable w owner r) _ db.upload_sessions
        (All-of _ (λ v h. ground arith) db.upload_sessions))
      e

length-where_-append :
    (p : UploadSession → Bool) (l : List UploadSession) (u : UploadSession)
    → length (where_ p (l ++ (u ∷ []))) ≤ length (where_ p l) + 1
length-where_-append p [] u = ground arith
length-where_-append p (x ∷ l) u = ground (arith, length-where_-append p l u)

-- The session that is added is unfinished and does not expire at once.
new_session-IsAdmitted :
    (w : World) (db : Db) (owner : ℕ) (r : Request)
    → 0 < w.settings.video_upload_ttl_hours
    → 0 < r.size
    → enforce_storage_quota w.settings w.now db owner r.team_id r.size ≡ ok tt
    → leb w.settings.max_active_video_uploads (active_count w db owner) ≡ false
    → ensure_free_space (min_free_space_bytes w.settings) w.free w.reserved r.size ≡ ok tt
    → video_chunk_size_bytes w.settings == 0 ≡ false
    → any (λ (v : UploadSession). str_eq v.upload_id w.uuid) db.upload_sessions ≡ false
    → IsAdmitted w db owner r (add_session (new_session w owner r) db) (new_session w owner r)
unfolding new_session active_count ensure_free_space
new_session-IsAdmitted w db owner r t z quota few free chunk unused = record {
  session = refl;
  written = refl;
  unused = unused;
  in_quota =
      enforce_storage_quota-add_session w.settings w.now db (new_session w owner r) refl
        (ground arith) quota;
  few =
      let grows =
        length-where_-append
          (λ (u : UploadSession).
            u.owner_id == owner && is_reserved u.status && ltb w.now u.expires_at)
          db.upload_sessions (new_session w owner r) in
      ground arith;
  room = ground arith;
  parts = record { sized = z; chunked = ground arith; counted = refl };
}

insert_session-IsAdmitted :
    (w : World) (db db' : Db) (owner : ℕ) (r : Request) (u : UploadSession)
    → 0 < w.settings.video_upload_ttl_hours
    → 0 < r.size
    → insert_session w db owner r ≡ ok (db', u)
    → IsAdmitted w db owner r db' u
unfolding insert_session
insert_session-IsAdmitted w db db' owner r u t z e =
    let (_, quota, e1) =
      >>=-eq-ok (enforce_storage_quota w.settings w.now db owner r.team_id r.size) _ e in
    let (_, few, e2) =
      >>=-eq-ok
        (raise_if (leb w.settings.max_active_video_uploads (active_count w db owner)) (http 429)) _
        e1 in
    let (_, free, e3) =
      >>=-eq-ok (ensure_free_space (min_free_space_bytes w.settings) w.free w.reserved r.size) _
        e2 in
    let (_, chunk, e4) =
      >>=-eq-ok (raise_if (video_chunk_size_bytes w.settings == 0) runtime_error) _ e3 in
    let (_, unused, e5) =
      >>=-eq-ok
        (raise_if (any (λ (v : UploadSession). str_eq v.upload_id w.uuid) db.upload_sessions)
          integrity_error)
        _ e4 in
    subst (λ x. IsAdmitted w db owner r x.0 x.1) (ok-injective e5)
      (new_session-IsAdmitted w db owner r t z quota (raise_if-eq-ok _ _ few) free
        (raise_if-eq-ok _ _ chunk) (raise_if-eq-ok _ _ unused))

-- The two outcomes.
abbrev pub IsReturned : World → Db → ℕ → Request → Db → UploadSession → Type 0
IsReturned w db owner r db' u =
    ((db' ≡ db) × (reusable_session w db owner r ≡ some u) × IsReusable w owner r u)
    ⊎ IsAdmitted w db owner r db' u

reuse_or_insert-IsReturned :
    (w : World) (db db' : Db) (owner : ℕ) (r : Request) (u : UploadSession)
    → 0 < w.settings.video_upload_ttl_hours
    → 0 < r.size
    → reuse_or_insert w db owner r ≡ ok (db', u)
    → IsReturned w db owner r db' u
unfolding reuse_or_insert
reuse_or_insert-IsReturned w db db' owner r u t z e =
    elim (Option-cases (reusable_session w db owner r)) [
      | inl new ↦
          inr (insert_session-IsAdmitted w db db' owner r u t z (rw (new, reuse_or_insert) at e))
      | inr (v, old) ↦
          let same = ok-injective (rw (old, reuse_or_insert) at e) in
          let is_u : v ≡ u = ap (λ x. x.1) same in
          inl (
            sym (ap (λ x. x.0) same),
            old ∙ ap (λ x. some x) is_u,
            subst (IsReusable w owner r) is_u (reusable_session-IsReusable w db owner r v old),
          )
    ]

-- The session that a request gets is either an unexpired one of the same owner in progress with the
-- complete intent of the request, and nothing is written; or a new one with a fresh number, added
-- within the quotas of the owner and the team, the number of unfinished uploads and the free space,
-- with the count of parts that its size takes.
pub create_upload_session_lem :
    (w : World) (db db' : Db) (p : Principal) (r : Request) (u : UploadSession)
    → 0 < w.settings.video_upload_ttl_hours
    → create_upload_session w db p r ≡ ok (db', u)
    → IsReturned w db p.user.id r db' u
unfolding create_upload_session
create_upload_session_lem w db db' p r u t e =
    let (q, fresh, e1) = >>=-eq-ok (fresh_library_user db p) _ e in
    let (_, visible, e2) =
      >>=-eq-ok
        (raise_if (not (str_eq r.visibility "public" || str_eq r.visibility "private")) (http 422))
        _ e1 in
    let (_, sized, e3) = >>=-eq-ok (raise_if (r.size == 0) (http 422)) _ e2 in
    let (_, bounded, e4) =
      >>=-eq-ok (raise_if (ltb (max_video_size_bytes w.settings) r.size) (http 413)) _ e3 in
    let (_, hex, e5) =
      >>=-eq-ok (raise_if (not (is_sha256 (lower r.fingerprint))) (http 422)) _ e4 in
    let (_, allowed, e6) = >>=-eq-ok (check_team_access db r.team_id q) _ e5 in
    let same = (fresh_library_user-IsFresh db p q fresh).same_id in
    let z = raise_if-eq-ok _ _ sized in
    subst (λ owner. IsReturned w db owner r db' u) same
      (reuse_or_insert-IsReturned w db db' q.user.id r u t (ground arith) e6)
