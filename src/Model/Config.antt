-- ===== src/Model/Config.antt =====
-- The settings of app/core/config.py that the modelled code reads, with their derived byte counts.
use asset_harbor.Base.{ℕ, ◌*◌}

pub record Settings : Type 0 where
  pub max_video_size_mb : ℕ
  pub video_chunk_size_mb : ℕ
  pub video_upload_ttl_hours : ℕ
  pub max_active_video_uploads : ℕ
  pub min_free_space_mb : ℕ
  pub user_storage_quota_mb : ℕ
  pub team_storage_quota_mb : ℕ
  pub max_api_keys_per_user : ℕ
  pub traffic_retention_days : ℕ

abbrev pub max_video_size_bytes : Settings → ℕ
max_video_size_bytes s = s.max_video_size_mb * 1024 * 1024

abbrev pub video_chunk_size_bytes : Settings → ℕ
video_chunk_size_bytes s = s.video_chunk_size_mb * 1024 * 1024

abbrev pub min_free_space_bytes : Settings → ℕ
min_free_space_bytes s = s.min_free_space_mb * 1024 * 1024

abbrev pub user_storage_quota_bytes : Settings → ℕ
user_storage_quota_bytes s = s.user_storage_quota_mb * 1024 * 1024

abbrev pub team_storage_quota_bytes : Settings → ℕ
team_storage_quota_bytes s = s.team_storage_quota_mb * 1024 * 1024

-- The defaults of the class.
abbrev pub default_settings : Settings
default_settings = record {
  max_video_size_mb = 2048;
  video_chunk_size_mb = 8;
  video_upload_ttl_hours = 168;
  max_active_video_uploads = 3;
  min_free_space_mb = 1024;
  user_storage_quota_mb = 0;
  team_storage_quota_mb = 0;
  max_api_keys_per_user = 20;
  traffic_retention_days = 365;
}
