-- ===== src/Model/Media.antt =====
-- app/models/image.py, media_group.py and traffic.py.
use asset_harbor.Base.{ℕ, String, Option}
use asset_harbor.Base.Text.{Text}

-- `images.media_kind`; `other` is any value that the code does not write.
pub data MediaKind : Type 0 where
  image video other : MediaKind

pub record Image : Type 0 where
  pub id : ℕ
  pub code : Text
  pub original_filename : Text
  pub name : Text
  pub visibility : String
  pub stored_path : Text
  pub content_type : String
  pub size : ℕ
  pub sha256 : Text
  pub media_kind : MediaKind
  pub created_at : ℕ
  pub owner_id : Option ℕ
  pub team_id : Option ℕ
  pub signing_version : ℕ

-- A sort order may be below zero.
pub data ℤ : Type 0 where
  pos negsuc : ℕ → ℤ

pub record MediaGroup : Type 0 where
  pub id : ℕ
  pub owner_id : ℕ
  pub team_id : Option ℕ
  pub name : Text
  pub description : Text
  pub color : Text
  pub sort_order : ℤ
  pub created_at : ℕ
  pub updated_at : ℕ

pub record MediaGroupItem : Type 0 where
  pub id : ℕ
  pub group_id : ℕ
  pub media_id : ℕ
  pub added_by : ℕ
  pub created_at : ℕ

pub record TrafficDaily : Type 0 where
  pub day : ℕ
  pub user_id : ℕ
  pub api_key_id : ℕ
  pub route : Text
  pub method : Text
  pub request_count : ℕ
  pub error_count : ℕ
  pub request_bytes : ℕ
  pub response_bytes : ℕ
  pub created_at : ℕ
  pub updated_at : ℕ
