-- ===== src/Media.antt =====
-- Changes of a stored image or video: `update_media_metadata` and `delete_image` of
-- app/services/images.py, with `delete_group_items_for_media` of app/services/library.py. Files are
-- named by the stored path; whether a path resolves inside the data directory is a parameter, and
-- the deletion of a file does not fail.
pub mod Signing
mod Tests
use asset_harbor.Base.{
  ℕ, ◌+◌, String, Bool, true, false, not, ◌&&◌, ◌||◌, Option, none, some, List, [], ◌∷◌, Result, ok,
  err, http, ◌>>=◌, ◌>>◌, raise_if, or_raise, ◌==◌, if◌then◌else◌, str_eq, where_, find, update,
}
use asset_harbor.Base.Text.{Text, strip, text_eq}
use asset_harbor.Model.{Image, MediaKind, MediaGroupItem, Db, Principal}
use asset_harbor.Access.{fresh_library_user, can_manage_image}
use asset_harbor.Sniff.{Bytes}
use asset_harbor.Uploads.Filename.{or_text}

abbrev pub kind_eq : MediaKind → MediaKind → Bool
kind_eq MediaKind.image MediaKind.image = true
kind_eq MediaKind.video MediaKind.video = true
kind_eq MediaKind.other MediaKind.other = true
kind_eq _ _ = false

-- The medium of a short code and kind.
unfoldable pub get_media : Db → Text → MediaKind → Option Image
get_media db code kind = find (λ i. text_eq i.code code && kind_eq i.media_kind kind) db.images

-- The visibility, and with it the version of the signed links.
unfoldable pub with_visibility : String → Image → Image
with_visibility visibility media = record media {
  visibility = visibility;
  signing_version =
      if not (str_eq visibility media.visibility)
        && str_eq visibility "private"
        && not (str_eq media.visibility "private")
      then media.signing_version + 1
      else media.signing_version;
}

abbrev pub set_visibility : Option String → Image → Image
set_visibility none media = media
set_visibility (some visibility) media = with_visibility visibility media

abbrev pub set_name : Option Text → Image → Image
set_name none media = media
set_name (some name) media = record media { name = or_text (strip name) media.name }

abbrev pub allowed_visibility : Option String → Bool
allowed_visibility none = true
allowed_visibility (some v) = str_eq v "public" || str_eq v "private"

unfoldable pub update_media_metadata :
    Text → MediaKind → Principal → Option Text → Option String → Db → Result (Image × Db)
update_media_metadata code kind actor name visibility db = do
  p ← fresh_library_user db actor
  media ← or_raise (get_media db code kind) (http 404)
  raise_if (not (can_manage_image db p media)) (http 403)
  raise_if (not (allowed_visibility visibility)) (http 422)
  let changed = set_name name (set_visibility visibility media)
  ok (changed, record db { images = update (λ i. i.id == media.id) (λ _. changed) db.images })

-- `delete_group_items_for_media`
unfoldable pub delete_group_items_for_media : Db → ℕ → Db
delete_group_items_for_media db media_id = record db {
  media_group_items =
      where_ (λ (i : MediaGroupItem). not (i.media_id == media_id)) db.media_group_items;
}

-- Files by the path that is stored.
abbrev pub Files : Type 0
Files = Text → Option Bytes

-- The rows of `delete_image`, and its file where `resolves` tells that the path is inside the data
-- directory.
unfoldable pub erase : (Text → Bool) → Image → Db → Files → Db × Files
erase resolves current db files =
    let db1 = delete_group_items_for_media db current.id in
    (
      record db1 { images = where_ (λ (i : Image). not (i.id == current.id)) db1.images },
      if resolves current.stored_path
          then (λ path. if text_eq current.stored_path path then none else files path)
          else files,
    )

-- With no actor the code trusts its caller.
unfoldable pub check_actor : Option Principal → Image → Db → Result (Unit {0})
check_actor none current db = ok tt
check_actor (some actor) current db = do
  p ← fresh_library_user db actor
  raise_if (not (can_manage_image db p current)) (http 403)

unfoldable pub delete_image :
    (Text → Bool) → ℕ → Option Principal → Db → Files → Result (Db × Files)
delete_image resolves image_id actor db files =
    elim (find (λ (i : Image). i.id == image_id) db.images) [
      | none ↦ ok (db, files)
      | some current ↦ check_actor actor current db >> ok (erase resolves current db files)
    ]
