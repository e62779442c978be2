-- ===== src/Model/Database.antt =====
-- The tables of the SQLite file, each a list of rows.
use asset_harbor.Base.{List, []}
use asset_harbor.Model.Account.{User, ApiKey, Team, TeamMember, RuntimeCounter}
use asset_harbor.Model.Media.{Image, MediaGroup, MediaGroupItem, TrafficDaily}
use asset_harbor.Model.Upload.{UploadSession, UploadPart}

pub record Db : Type 0 where
  pub users : List User
  pub api_keys : List ApiKey
  pub teams : List Team
  pub team_members : List TeamMember
  pub runtime_counters : List RuntimeCounter
  pub images : List Image
  pub media_groups : List MediaGroup
  pub media_group_items : List MediaGroupItem
  pub upload_sessions : List UploadSession
  pub upload_parts : List UploadPart
  pub traffic_daily : List TrafficDaily

abbrev pub empty_db : Db
empty_db = record {
  users = [];
  api_keys = [];
  teams = [];
  team_members = [];
  runtime_counters = [];
  images = [];
  media_groups = [];
  media_group_items = [];
  upload_sessions = [];
  upload_parts = [];
  traffic_daily = [];
}
