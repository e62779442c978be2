-- ===== src/Media/Tests.antt =====
-- The theorem on updates at a public image that becomes private.
use asset_harbor.Base.{ℕ, String, ◌≡◌, refl, true, false, none, some, [], ◌∷◌, ok, find, ◌==◌}
use asset_harbor.Base.Text.{codes}
use asset_harbor.Model.{User, Role, Principal, AuthScope, Image, MediaKind, Db, empty_db}
use asset_harbor.Access.{
  fresh_library_user, copy_auth_scope, bind_auth_scope, get_user, can_manage_image,
  has_global_admin_scope,
}
use asset_harbor.Media.{get_media, update_media_metadata, with_visibility}
use asset_harbor.Media.Signing.{IsUpdated, update_media_metadata-IsUpdated}

abbrev author : User
author = record {
  id = 1;
  username = "alice";
  password_hash = "";
  role = Role.user;
  auth_version = 0;
  created_at = 10;
}

abbrev login : Principal
login = record { user = author; scope = AuthScope.jwt; identity = some (1, 10) }

abbrev photo : String → ℕ → Image
photo visibility version = record {
  id = 1;
  code = codes "abc";
  original_filename = [];
  name = [];
  visibility = visibility;
  stored_path = codes "f";
  content_type = "image/png";
  size = 10;
  sha256 = [];
  media_kind = MediaKind.image;
  created_at = 30;
  owner_id = some 1;
  team_id = none;
  signing_version = version;
}

abbrev album : Image → Db
album i = record empty_db { users = author ∷ []; images = i ∷ [] }

hide_photo :
    update_media_metadata
      (codes "abc")
      MediaKind.image
      login
      none
      (some "private")
      (album (photo "public" 3))
    ≡ ok (photo "private" 4, album (photo "private" 4))
unfolding update_media_metadata get_media with_visibility fresh_library_user copy_auth_scope
    bind_auth_scope get_user can_manage_image has_global_admin_scope
hide_photo = refl

update_media_metadata-IsUpdated_example :
    (old : Image) × (p : Principal) × (get_media
        (album (photo "public" 3))
        (codes "abc")
        MediaKind.image
      ≡ some old)
    × (fresh_library_user (album (photo "public" 3)) login ≡ ok p)
    × (can_manage_image (album (photo "public" 3)) p old ≡ true)
    × IsUpdated (some "private") old (photo "private" 4)
    × (find (λ (i : Image). i.id == old.id) (photo "private" 4 ∷ []) ≡ some (photo "private" 4))
    × ((k : ℕ)
        → (old.id == k) ≡ false
        → find (λ (i : Image). i.id == k) (photo "private" 4 ∷ [])
          ≡ find (λ i. i.id == k) (photo "public" 3 ∷ []))
update_media_metadata-IsUpdated_example =
    update_media_metadata-IsUpdated (codes "abc") MediaKind.image login none (some "private")
      (album (photo "public" 3)) (album (photo "private" 4)) (photo "private" 4) hide_photo
