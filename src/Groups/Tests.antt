-- ===== src/Groups/Tests.antt =====
-- The theorems on groups at a personal group and one photo of the same account.
use asset_harbor.Base.{◌≡◌, refl, true, none, some, [], ◌∷◌, ok, All}
use asset_harbor.Base.Text.{codes}
use asset_harbor.Model.{
  User, Role, Principal, AuthScope, Db, empty_db, Image, MediaKind, MediaGroup, Team, pos,
}
use asset_harbor.Access.{
  fresh_library_user, copy_auth_scope, bind_auth_scope, get_user, get_group, visible_group_or_404,
  can_view_group, can_manage_group, has_global_admin_scope,
}
use asset_harbor.Groups.{
  add_media_group_items, resolve_group_media, normalized_codes, media_in_scope, listed_media,
  in_scope, add_items,
}
use asset_harbor.Groups.Repair.{valid_scope, cleanup_orphan_media_library}
use asset_harbor.Groups.Repaired.{IsRepaired, cleanup_orphan_media_library-IsRepaired}
use asset_harbor.Groups.Repeated.{cleanup_orphan_media_library_twice}
use asset_harbor.Groups.Handover.{
  IsHanded, prepare_groups_for_user_deletion, prepare_groups_for_user_deletion-IsHanded,
}
use asset_harbor.Groups.Scoped.{add_media_group_items-valid_scope}

abbrev owner : User
owner = record {
  id = 1;
  username = "alice";
  password_hash = "";
  role = Role.user;
  auth_version = 0;
  created_at = 10;
}

abbrev login : Principal
login = record { user = owner; scope = AuthScope.jwt; identity = some (1, 10) }

abbrev photo : Image
photo = record {
  id = 4;
  code = codes "abc";
  original_filename = [];
  name = [];
  visibility = "public";
  stored_path = codes "f";
  content_type = "image/png";
  size = 3;
  sha256 = [];
  media_kind = MediaKind.image;
  created_at = 20;
  owner_id = some 1;
  team_id = none;
  signing_version = 0;
}

abbrev holidays : MediaGroup
holidays = record {
  id = 7;
  owner_id = 1;
  team_id = none;
  name = codes "holidays";
  description = [];
  color = [];
  sort_order = pos 0;
  created_at = 30;
  updated_at = 30;
}

abbrev album : Db
album = record empty_db { users = owner ∷ []; images = photo ∷ []; media_groups = holidays ∷ [] }

abbrev filled : Db
filled = record album {
  media_groups = record holidays { updated_at = 40 } ∷ [];
  media_group_items =
      record { id = 1; group_id = 7; media_id = 4; added_by = 1; created_at = 40 } ∷ [];
}

add_photo :
    add_media_group_items 7 (codes " abc" ∷ codes "abc" ∷ []) login 40 album ≡ ok (1, filled)
unfolding add_media_group_items resolve_group_media normalized_codes media_in_scope listed_media
    in_scope add_items fresh_library_user copy_auth_scope bind_auth_scope get_user get_group
    visible_group_or_404 can_view_group can_manage_group has_global_admin_scope
add_photo = refl

add_media_group_items-valid_scope_example :
    All (λ i. valid_scope filled i ≡ true) filled.media_group_items
add_media_group_items-valid_scope_example =
    add_media_group_items-valid_scope 7 (codes " abc" ∷ codes "abc" ∷ []) login 40 album filled 1
      (tt, tt) tt add_photo

-- A group whose account is gone.
abbrev damaged : Db
damaged = record filled { users = [] }

cleanup_orphan_media_library-IsRepaired_example :
    IsRepaired (cleanup_orphan_media_library 50 damaged).0
cleanup_orphan_media_library-IsRepaired_example = cleanup_orphan_media_library-IsRepaired 50 damaged

cleanup_orphan_media_library_twice_example :
    cleanup_orphan_media_library 60 (cleanup_orphan_media_library 50 damaged).0
    ≡ ((cleanup_orphan_media_library 50 damaged).0, 0)
cleanup_orphan_media_library_twice_example = cleanup_orphan_media_library_twice 50 60 damaged

-- A team of another account.
abbrev guests : Team
guests = record { id = 3; name = "guests"; description = ""; owner_id = 2; created_at = 5 }

abbrev shared : MediaGroup
shared = record holidays { id = 8; team_id = some 3 }

-- The personal group is removed, the shared one is the team owner's.
prepare_groups_for_user_deletion-IsHanded_example :
    IsHanded 1
      (record empty_db { teams = guests ∷ []; media_groups = holidays ∷ shared ∷ [] })
      (prepare_groups_for_user_deletion 50 1
        (record empty_db { teams = guests ∷ []; media_groups = holidays ∷ shared ∷ [] }))
prepare_groups_for_user_deletion-IsHanded_example =
    prepare_groups_for_user_deletion-IsHanded 50 1
      (record empty_db { teams = guests ∷ []; media_groups = holidays ∷ shared ∷ [] })
