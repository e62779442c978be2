-- ===== src/Quota.antt =====
-- Storage accounting: app/services/storage_quota.py.
pub mod Admitted
use asset_harbor.Base.{
  ℕ, ◌+◌, Bool, true, false, ◌&&◌, Option, none, some, Result, ok, err, http, ltb, ◌==◌, opt_eq,
  if◌then◌else◌, where_, sum_by,
}
use asset_harbor.Model.{
  Db, Settings, Status, Image, UploadSession, user_storage_quota_bytes, team_storage_quota_bytes,
}

-- `status.in_(RESERVED_UPLOAD_STATUSES)`
abbrev pub is_reserved : Status → Bool
is_reserved Status.completed = false
is_reserved _ = true

unfoldable pub user_storage_usage_bytes : ℕ → Db → ℕ → ℕ
user_storage_usage_bytes now db owner =
    sum_by (λ (i : Image). i.size) (where_ (λ i. opt_eq i.owner_id (some owner)) db.images)
    + sum_by (λ (u : UploadSession). u.size)
        (where_ (λ u. u.owner_id == owner && is_reserved u.status && ltb now u.expires_at)
          db.upload_sessions)

unfoldable pub team_storage_usage_bytes : ℕ → Db → ℕ → ℕ
team_storage_usage_bytes now db team =
    sum_by (λ (i : Image). i.size) (where_ (λ i. opt_eq i.team_id (some team)) db.images)
    + sum_by (λ (u : UploadSession). u.size)
        (where_ (λ u. opt_eq u.team_id (some team) && is_reserved u.status && ltb now u.expires_at)
          db.upload_sessions)

-- A limit of zero is none.
abbrev pub exceeds : ℕ → ℕ → Bool
exceeds limit usage = ltb 0 limit && ltb limit usage

unfoldable pub enforce_storage_quota : Settings → ℕ → Db → ℕ → Option ℕ → ℕ → Result (Unit {0})
enforce_storage_quota s now db owner team additional =
    if exceeds (user_storage_quota_bytes s) (user_storage_usage_bytes now db owner + additional)
    then err (http 413)
    else elim team [
      | none ↦ ok tt
      | some t ↦
          if exceeds (team_storage_quota_bytes s) (team_storage_usage_bytes now db t + additional)
          then err (http 413)
          else ok tt
    ]
