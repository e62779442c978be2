-- ===== src/Quota/Admitted.antt =====
-- What an admission check leaves room for.
use asset_harbor.Base.{
  ℕ, ◌+◌, ◌≤◌, ◌≡◌, refl, ◌⊎◌, inl, inr, Bool, true, false, ◌&&◌, Option, none, some, List, [], ◌∷◌,
  ◌++◌, arith, ok, ltb, ◌==◌, ==-refl, opt_eq, where_, sum_by, Bool-cases,
}
use asset_harbor.Model.{
  Db, Settings, Status, UploadSession, user_storage_quota_bytes, team_storage_quota_bytes,
}
use asset_harbor.Quota.{
  is_reserved, exceeds, user_storage_usage_bytes, team_storage_usage_bytes, enforce_storage_quota,
}

-- The usage is within the limit, or there is no limit.
abbrev pub IsWithin : ℕ → ℕ → Type 0
IsWithin limit usage = (limit ≡ 0) ⊎ (usage ≤ limit)

-- The owner's usage is within the limit of a user, and the usage of the team, where there is one,
-- within the limit of a team.
abbrev pub IsWithinQuota : Settings → ℕ → Db → ℕ → Option ℕ → Type 0
IsWithinQuota s now db owner none =
    IsWithin (user_storage_quota_bytes s) (user_storage_usage_bytes now db owner)
IsWithinQuota s now db owner (some t) =
    IsWithin (user_storage_quota_bytes s) (user_storage_usage_bytes now db owner)
    × IsWithin (team_storage_quota_bytes s) (team_storage_usage_bytes now db t)

not_exceeds : (limit usage : ℕ) → exceeds limit usage ≡ false → IsWithin limit usage
not_exceeds limit usage h = ground arith

abbrev pub add_session : UploadSession → Db → Db
add_session u db = record db { upload_sessions = db.upload_sessions ++ (u ∷ []) }

-- A row that passes the filter adds its number to the sum.
sum_by-where_-append :
    (f : UploadSession → ℕ) (p : UploadSession → Bool) (l : List UploadSession) (u : UploadSession)
    → p u ≡ true
    → sum_by f (where_ p (l ++ (u ∷ []))) ≡ sum_by f (where_ p l) + f u
sum_by-where_-append f p [] u h = rw h (omega arith)
sum_by-where_-append f p (x ∷ l) u h = elim (Bool-cases (p x)) [
  | inl kept ↦ rw kept (omega (arith, sum_by-where_-append f p l u h))
  | inr gone ↦ rw gone (sum_by-where_-append f p l u h)
]

user_usage-add_session :
    (now : ℕ) (db : Db) (u : UploadSession)
    → u.status ≡ Status.active
    → ltb now u.expires_at ≡ true
    → user_storage_usage_bytes now (add_session u db) u.owner_id
      ≡ user_storage_usage_bytes now db u.owner_id + u.size
unfolding user_storage_usage_bytes
user_usage-add_session now db u a e = omega (
  arith,
  sum_by-where_-append (λ u. u.size)
      (λ v. v.owner_id == u.owner_id && is_reserved v.status && ltb now v.expires_at)
      db.upload_sessions u (rw (a, e, ==-refl u.owner_id)),
)

pub opt_eq_refl : (a : Option ℕ) → opt_eq a a ≡ true
opt_eq_refl none = refl
opt_eq_refl (some a) = ==-refl a

team_usage-add_session :
    (now t : ℕ) (db : Db) (u : UploadSession)
    → u.status ≡ Status.active
    → ltb now u.expires_at ≡ true
    → u.team_id ≡ some t
    → team_storage_usage_bytes now (add_session u db) t ≡ team_storage_usage_bytes now db t + u.size
unfolding team_storage_usage_bytes
team_usage-add_session now t db u a e k = omega (
  arith,
  sum_by-where_-append (λ u. u.size)
      (λ v. opt_eq v.team_id (some t) && is_reserved v.status && ltb now v.expires_at)
      db.upload_sessions u (rw (a, e, k, ==-refl t)),
)

admitted_user :
    (s : Settings) (now : ℕ) (db : Db) (owner additional : ℕ) (team : Option ℕ)
    → enforce_storage_quota s now db owner team additional ≡ ok tt
    → IsWithin (user_storage_quota_bytes s) (user_storage_usage_bytes now db owner + additional)
unfolding enforce_storage_quota
admitted_user s now db owner additional team h =
    elim (Bool-cases
      (exceeds (user_storage_quota_bytes s) (user_storage_usage_bytes now db owner + additional))) [
        | inl over ↦ absurd (let k = rw over at h in cc)
        | inr within ↦
            not_exceeds (user_storage_quota_bytes s)
              (user_storage_usage_bytes now db owner + additional) within
      ]

admitted_team :
    (s : Settings) (now : ℕ) (db : Db) (owner additional t : ℕ)
    → enforce_storage_quota s now db owner (some t) additional ≡ ok tt
    → IsWithin (team_storage_quota_bytes s) (team_storage_usage_bytes now db t + additional)
unfolding enforce_storage_quota
admitted_team s now db owner additional t h =
    elim (Bool-cases
      (exceeds (user_storage_quota_bytes s) (user_storage_usage_bytes now db owner + additional))) [
        | inl over ↦ absurd (let k = rw over at h in cc)
        | inr within ↦
            elim (Bool-cases (
              exceeds (team_storage_quota_bytes s)
                (team_storage_usage_bytes now db t + additional))) [
                  | inl over ↦ absurd (let k = rw (within, over) at h in cc)
                  | inr room ↦
                      not_exceeds (team_storage_quota_bytes s)
                        (team_storage_usage_bytes now db t + additional) room
                ]
      ]

-- Where the check admits the bytes of a session, the quotas hold with the active session added.
pub enforce_storage_quota-add_session :
    (s : Settings) (now : ℕ) (db : Db) (u : UploadSession)
    → u.status ≡ Status.active
    → ltb now u.expires_at ≡ true
    → enforce_storage_quota s now db u.owner_id u.team_id u.size ≡ ok tt
    → IsWithinQuota s now (add_session u db) u.owner_id u.team_id
enforce_storage_quota-add_session s now db u a e h = by_team u.team_id refl
  where
    by_team :
        (team : Option ℕ)
        → u.team_id ≡ team
        → IsWithinQuota s now (add_session u db) u.owner_id team
    by_team none k =
        rw (user_usage-add_session now db u a e)
          (admitted_user s now db u.owner_id u.size u.team_id h)
    by_team (some t) k = (
      rw (user_usage-add_session now db u a e)
          (admitted_user s now db u.owner_id u.size u.team_id h),
      rw (team_usage-add_session now t db u a e k)
          (admitted_team s now db u.owner_id u.size t (rw k at h)),
    )
