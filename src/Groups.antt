-- ===== src/Groups.antt =====
-- Media groups: the handlers of app/api/routes/library.py that change groups, their items and the
-- signed links of a medium, and the tests of those that show one medium; `ensure_unique_group_name`
-- and `delete_group` of app/services/library.py. `py_lower` is `str.lower`; the database's `lower`
-- only changes the ASCII letters. What a handler returns is left out where it only repeats rows.
pub mod Scoped
pub mod Repair
pub mod Repaired
pub mod Repeated
pub mod Handover
mod Tests
use asset_harbor.Base.{
  ℕ, suc, ◌+◌, ◌-◌, Bool, true, false, not, ◌&&◌, ◌||◌, Option, none, some, List, [], ◌∷◌, ◌++◌,
  Result, ok, err, http, runtime_error, ◌>>=◌, ◌>>◌, raise_if, or_raise, ltb, ◌==◌, opt_eq, is_none,
  is_some, if◌then◌else◌, str_eq, where_, find, update, any, length, max_by,
}
use asset_harbor.Base.Text.{Text, strip, text_eq}
use asset_harbor.Model.{Db, Image, MediaKind, MediaGroup, MediaGroupItem, Principal, ℤ}
use asset_harbor.Access.{
  fresh_library_user, has_global_admin_scope, is_team_member, validate_team_scope,
  visible_group_or_404, can_manage_image,
}
use asset_harbor.Chunks.{lower}
use asset_harbor.Ids.{next_media_group_id}

-- `media_kind in ("image", "video")`
abbrev pub is_listed : MediaKind → Bool
is_listed MediaKind.other = false
is_listed _ = true

-- `select(Image).where(Image.code == code, Image.media_kind.in_(("image", "video")))`
unfoldable pub listed_media : Db → Text → Option Image
listed_media db code = find (λ i. text_eq i.code code && is_listed i.media_kind) db.images

-- The scope that a group's media have.
unfoldable pub in_scope : ℕ → Option ℕ → Image → Bool
in_scope owner_id none media = opt_eq media.owner_id (some owner_id) && is_none media.team_id
in_scope owner_id (some t) media = opt_eq media.team_id (some t)

-- The codes of a request, each once, in the order of their first mention.
unfoldable pub normalized_codes : List Text → List Text → Result (List Text)
normalized_codes codes [] = ok codes
normalized_codes codes (raw ∷ raw_codes) =
    let rest =
      normalized_codes
        (if any (λ c. text_eq c (strip raw)) codes then codes else codes ++ (strip raw ∷ []))
        raw_codes in
    raise_if (length (strip raw) == 0 || ltb 32 (length (strip raw))) (http 422) >> rest

unfoldable pub media_in_scope : Db → ℕ → Option ℕ → List Text → Result (List Image)
media_in_scope db owner_id team_id [] = ok []
media_in_scope db owner_id team_id (code ∷ codes) =
    let rest = media_in_scope db owner_id team_id codes in
    do
      media ← or_raise (listed_media db code) (http 404)
      raise_if (not (in_scope owner_id team_id media)) (http 404)
      others ← rest
      ok (media ∷ others)

-- `_resolve_group_media`
unfoldable pub resolve_group_media : Db → List Text → ℕ → Option ℕ → Result (List Image × ℕ)
resolve_group_media db raw_codes owner_id team_id = do
  codes ← normalized_codes [] raw_codes
  media ← media_in_scope db owner_id team_id codes
  ok (media, length raw_codes - length codes)

-- The groups of a scope.
abbrev pub of_scope : ℕ → Option ℕ → MediaGroup → Bool
of_scope owner_id none g = g.owner_id == owner_id && is_none g.team_id
of_scope owner_id (some t) g = opt_eq g.team_id (some t)

abbrev pub is_excluded : Option ℕ → ℕ → Bool
is_excluded none id = false
is_excluded (some k) id = id == k

-- The items of one group, each of a medium that is not in it yet.
abbrev pub new_item : ℕ → ℕ → ℕ → ℕ → List MediaGroupItem → MediaGroupItem
new_item group_id media_id added_by now items = record {
  id = suc (max_by (λ (i : MediaGroupItem). i.id) items);
  group_id = group_id;
  media_id = media_id;
  added_by = added_by;
  created_at = now;
}

unfoldable pub add_items : ℕ → ℕ → ℕ → List Image → List MediaGroupItem → List MediaGroupItem
add_items group_id added_by now [] items = items
add_items group_id added_by now (media ∷ rows) items =
    add_items group_id added_by now rows
      (items ++ (new_item group_id media.id added_by now items ∷ []))

-- `delete_group`
unfoldable pub delete_group : Db → ℕ → Db
delete_group db id = record db {
  media_group_items = where_ (λ (i : MediaGroupItem). not (i.group_id == id)) db.media_group_items;
  media_groups = where_ (λ (g : MediaGroup). not (g.id == id)) db.media_groups;
}

pub record GroupCreate : Type 0 where
  pub name : Text
  pub description : Text
  pub color : Text
  pub sort_order : ℤ
  pub team_id : Option ℕ
  pub codes : List Text

-- The fields that the request sets.
pub record GroupUpdate : Type 0 where
  pub name : Option Text
  pub description : Option Text
  pub color : Option Text
  pub sort_order : Option ℤ

abbrev pub or_kept {ℓ} : {A : Type ℓ} → Option A → A → A
or_kept none old = old
or_kept (some new) old = new

abbrev pub is_empty_update : GroupUpdate → Bool
is_empty_update u =
    is_none u.name && is_none u.description && is_none u.color && is_none u.sort_order

abbrev pub with_group : ℕ → (MediaGroup → MediaGroup) → Db → Db
with_group id change db = record db {
  media_groups = update (λ (g : MediaGroup). g.id == id) change db.media_groups;
}

module _ (py_lower : Text → Text) where
  -- The groups of the scope that the database finds under the name.
  unfoldable pub homonyms : Db → Text → ℕ → Option ℕ → Option ℕ → List MediaGroup
  homonyms db name owner_id team_id exclude_id =
      where_
        (λ (g : MediaGroup).
          text_eq (lower g.name) (py_lower name)
          && of_scope owner_id team_id g
          && not (is_excluded exclude_id g.id))
        db.media_groups

  -- `ensure_unique_group_name`; `scalar_one_or_none` raises where there are two.
  unfoldable pub ensure_unique_group_name : Db → Text → ℕ → Option ℕ → Option ℕ → Result (Unit {0})
  ensure_unique_group_name db name owner_id team_id exclude_id =
      elim (homonyms db name owner_id team_id exclude_id) [
        | [] ↦ ok tt
        | g ∷ [] ↦ err (http 409)
        | g ∷ h ∷ _ ↦ err runtime_error
      ]

  abbrev pub team_or_own : Db → Option ℕ → Principal → Result (Unit {0})
  team_or_own db none p = ok tt
  team_or_own db (some t) p = validate_team_scope db t p >> ok tt

  -- `create_media_group`
  unfoldable pub create_media_group : GroupCreate → Principal → ℕ → Db → Result (MediaGroup × Db)
  create_media_group payload current_user now db = do
    p ← fresh_library_user db current_user
    raise_if (length (strip payload.name) == 0) (http 422)
    team_or_own db payload.team_id p
    ensure_unique_group_name db (strip payload.name) p.user.id payload.team_id none
    resolved ← resolve_group_media db payload.codes p.user.id payload.team_id
    numbered ← next_media_group_id now db
    let group : MediaGroup = record {
      id = numbered.0;
      owner_id = p.user.id;
      team_id = payload.team_id;
      name = strip payload.name;
      description = strip payload.description;
      color = py_lower payload.color;
      sort_order = payload.sort_order;
      created_at = now;
      updated_at = now;
    }
    ok (
      group,
      record (numbered.1) {
        media_groups = db.media_groups ++ (group ∷ []);
        media_group_items = add_items numbered.0 p.user.id now resolved.0 db.media_group_items;
      },
    )

  -- The new name, if there is one, has been checked.
  unfoldable pub check_name : Db → MediaGroup → Option Text → Result (Unit {0})
  check_name db group none = ok tt
  check_name db group (some name) =
      raise_if (length (strip name) == 0) (http 422)
      >> ensure_unique_group_name db (strip name) group.owner_id group.team_id (some group.id)

  abbrev pub updated_group : GroupUpdate → ℕ → MediaGroup → MediaGroup
  updated_group u now g = record g {
    name = elim (u.name) [ none ↦ g.name | some n ↦ strip n ];
    description = elim (u.description) [ none ↦ g.description | some d ↦ strip d ];
    color = elim (u.color) [ none ↦ g.color | some c ↦ py_lower c ];
    sort_order = or_kept u.sort_order g.sort_order;
    updated_at = now;
  }

  -- `update_media_group`
  unfoldable pub update_media_group : ℕ → GroupUpdate → Principal → ℕ → Db → Result Db
  update_media_group group_id u current_user now db = do
    p ← fresh_library_user db current_user
    group ← visible_group_or_404 db group_id p true
    check_name db group u.name
    ok (if is_empty_update u then db else with_group group.id (updated_group u now) db)

-- `remove_media_group`
unfoldable pub remove_media_group : ℕ → Principal → Db → Result Db
remove_media_group group_id current_user db = do
  p ← fresh_library_user db current_user
  group ← visible_group_or_404 db group_id p true
  ok (delete_group db group.id)

-- The media that are not in the group yet.
abbrev pub not_in_group : Db → ℕ → Image → Bool
not_in_group db group_id media = not (
    any (λ (i : MediaGroupItem). i.group_id == group_id && i.media_id == media.id)
      db.media_group_items)

-- `add_media_group_items`, with the number of items that are added.
unfoldable pub add_media_group_items : ℕ → List Text → Principal → ℕ → Db → Result (ℕ × Db)
add_media_group_items group_id codes current_user now db = do
  p ← fresh_library_user db current_user
  group ← visible_group_or_404 db group_id p true
  resolved ← resolve_group_media db codes group.owner_id group.team_id
  let rows = where_ (not_in_group db group.id) resolved.0
  let db1 = with_group group.id (λ g. record g { updated_at = now }) db
  ok (
    length rows,
    record db1 { media_group_items = add_items group.id p.user.id now rows db.media_group_items },
  )

-- The item of a group whose medium has the code and the group's scope.
unfoldable pub item_of : Db → MediaGroup → Text → Option MediaGroupItem
item_of db group code =
    find
      (λ (i : MediaGroupItem).
        i.group_id == group.id
        && any
            (λ (m : Image).
              m.id == i.media_id && text_eq m.code code && in_scope group.owner_id group.team_id m)
            db.images)
      db.media_group_items

-- `remove_media_group_item`
unfoldable pub remove_media_group_item : ℕ → Text → Principal → ℕ → Db → Result Db
remove_media_group_item group_id code current_user now db = do
  p ← fresh_library_user db current_user
  group ← visible_group_or_404 db group_id p true
  item ← or_raise (item_of db group code) (http 404)
  let db1 = with_group group.id (λ g. record g { updated_at = now }) db
  ok (record db1 {
    media_group_items = where_ (λ (i : MediaGroupItem). not (i.id == item.id)) db.media_group_items;
  })

-- `_has_media_scope`
unfoldable pub has_media_scope : Db → Image → Option Principal → Bool
has_media_scope db media none = false
has_media_scope db media (some p) =
    has_global_admin_scope p
    || (is_none media.team_id && opt_eq media.owner_id (some p.user.id))
    || elim (media.team_id) [ none ↦ false | some t ↦ is_team_member db t p.user.id ]

-- `get_media_metadata`: the medium, and whether its owner and team are shown.
unfoldable pub get_media_metadata : Db → Text → Option Principal → Result (Image × Bool)
get_media_metadata db code current_user = do
  media ← or_raise (listed_media db code) (http 404)
  raise_if (str_eq media.visibility "private" && not (has_media_scope db media current_user))
      (http 404)
  ok (media, has_media_scope db media current_user)

-- `get_media_link`: the medium, and the version that its link is signed with, if it is signed.
unfoldable pub get_media_link : Db → Text → Option Principal → Result (Image × Option ℕ)
get_media_link db code current_user = do
  media ← or_raise (listed_media db code) (http 404)
  if str_eq media.visibility "public"
      then ok (media, none)
      else raise_if (not (has_media_scope db media current_user)) (http 404)
        >> ok (media, some media.signing_version)

-- `revoke_media_links`
unfoldable pub revoke_media_links : Text → Principal → Db → Result Db
revoke_media_links code current_user db = do
  p ← fresh_library_user db current_user
  media ← or_raise (listed_media db code) (http 404)
  raise_if (not (can_manage_image db p media)) (http 403)
  ok (record db {
    images =
        update (λ (i : Image). i.id == media.id)
          (λ i. record i { signing_version = i.signing_version + 1 }) db.images;
  })
