-- ===== src/Access/Tests.antt =====
-- The theorems on access at a personal and a team medium, and at a replaced account.
use asset_harbor.Base.{ℕ, ◌≡◌, refl, ◌≢◌, true, false, some, [], ◌∷◌, arith, ok, err, http}
use asset_harbor.Base.Text.{codes}
use asset_harbor.Model.{User, Role, TeamRole, Principal, AuthScope, Db, empty_db, Image, MediaKind}
use asset_harbor.Access.{
  fresh_library_user, copy_auth_scope, bind_auth_scope, get_user, can_manage_image,
  can_watch_private, can_sign_link,
}
use asset_harbor.Access.Tenant.{can_manage_image-can_sign_link}
use asset_harbor.Access.Fresh.{IsFresh, fresh_library_user-IsFresh, fresh_library_user_replaced}

abbrev account : ℕ → User
account created_at = record {
  id = 2;
  username = "bob";
  password_hash = "";
  role = Role.user;
  auth_version = 0;
  created_at = created_at;
}

abbrev accounts : ℕ → Db
accounts created_at = record empty_db {
  users = account created_at ∷ [];
  team_members =
      record { id = 2; team_id = 1; user_id = 2; role = TeamRole.admin; created_at = 21 } ∷ [];
}

abbrev request : Principal
request = record { user = account 11; scope = AuthScope.api_key; identity = some (2, 11) }

abbrev team_photo : Image
team_photo = record {
  id = 1;
  code = codes "abc";
  original_filename = [];
  name = [];
  visibility = "private";
  stored_path = codes "f";
  content_type = "image/png";
  size = 10;
  sha256 = [];
  media_kind = MediaKind.image;
  created_at = 30;
  owner_id = some 1;
  team_id = some 1;
  signing_version = 0;
}

can_manage_image-can_sign_link_example :
    (can_manage_image (accounts 11) request team_photo ≡ true
      → can_sign_link (accounts 11) request team_photo ≡ true)
    × (can_sign_link (accounts 11) request team_photo
        ≡ can_watch_private (accounts 11) (some request) false team_photo)
can_manage_image-can_sign_link_example =
    can_manage_image-can_sign_link (accounts 11) request team_photo

fresh_request : fresh_library_user (accounts 11) request ≡ ok request
unfolding fresh_library_user copy_auth_scope bind_auth_scope get_user
fresh_request = refl

fresh_library_user-IsFresh_example : IsFresh (accounts 11) request request
fresh_library_user-IsFresh_example =
    fresh_library_user-IsFresh (accounts 11) request request fresh_request

other_creation : (u : User) → get_user (accounts 50) 2 ≡ some u → u.created_at ≢ 11
unfolding get_user
other_creation u h = ground arith

fresh_library_user_replaced_example : fresh_library_user (accounts 50) request ≡ err (http 401)
fresh_library_user_replaced_example =
    fresh_library_user_replaced (accounts 50) request 2 11 refl other_creation
