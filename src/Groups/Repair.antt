-- ===== src/Groups/Repair.antt =====
-- Start-up repair of the media library: `cleanup_orphan_media_library` of app/services/library.py.
use asset_harbor.Base.{
  ℕ, ◌+◌, ◌-◌, Bool, false, not, ◌&&◌, ◌||◌, Option, none, some, List, [], ◌∷◌, ◌==◌, opt_eq,
  is_none, is_some, if◌then◌else◌, where_, find, any, length, map,
}
use asset_harbor.Model.{Db, Team, Image, MediaKind, MediaGroup, MediaGroupItem}
use asset_harbor.Access.{
  get_user, get_team, get_group, get_membership, has_global_admin_scope, unmarked,
}
use asset_harbor.Media.{kind_eq}

-- The group's owner can stay: an account that is a global administrator or a member of the team.
unfoldable pub may_own : Db → Team → ℕ → Bool
may_own db team owner_id = elim (get_user db owner_id) [
  | none ↦ false
  | some owner ↦
      has_global_admin_scope (unmarked owner) || is_some (get_membership db team.id owner.id)
]

-- `group.owner_id = owner_id`: a new owner is written, and `updated_at` with it, as the column asks for.
unfoldable pub with_owner : ℕ → ℕ → MediaGroup → MediaGroup
with_owner now owner_id group = record group {
  owner_id = owner_id;
  updated_at = if group.owner_id == owner_id then group.updated_at else now;
}

-- A group as the repair leaves it, personal or of a team; none where it is removed.
unfoldable pub repaired_as : ℕ → Db → MediaGroup → Option ℕ → Option MediaGroup
repaired_as now db group none = if is_none (get_user db group.owner_id) then none else some group
repaired_as now db group (some t) = elim (get_team db t) [
  | none ↦ none
  | some team ↦
      if is_none (get_user db team.owner_id)
      then none
      else if may_own db team group.owner_id
      then some group
      else some (with_owner now team.owner_id group)
]

unfoldable pub repaired_group : ℕ → Db → MediaGroup → Option MediaGroup
unfolding repaired_as
repaired_group now db group = repaired_as now db group group.team_id

unfoldable pub repaired_groups : ℕ → Db → List MediaGroup → List MediaGroup
repaired_groups now db [] = []
repaired_groups now db (g ∷ groups) =
    let rest = repaired_groups now db groups in
    elim (repaired_group now db g) [ none ↦ rest | some kept ↦ kept ∷ rest ]

-- The state after the groups are repaired, with the items of the removed ones.
unfoldable pub with_repaired_groups : ℕ → Db → Db
with_repaired_groups now db = record db {
  media_groups = repaired_groups now db db.media_groups;
  media_group_items =
      where_
        (λ (i : MediaGroupItem). not (
          any (λ (g : MediaGroup). g.id == i.group_id && is_none (repaired_group now db g))
            db.media_groups))
        db.media_group_items;
}

-- `media_kind in (…)`
abbrev pub kind_in : MediaKind → List MediaKind → Bool
kind_in kind = any (λ k. kind_eq k kind)

unfoldable pub get_image : Db → ℕ → Option Image
get_image db id = find (λ (i : Image). i.id == id) db.images

-- Whether the item's group and medium are there, in one scope.
unfoldable pub valid_scope : Db → MediaGroupItem → Bool
valid_scope db item = elim (get_group db item.group_id) [
  | none ↦ false
  | some group ↦ elim (get_image db item.media_id) [
    | none ↦ false
    | some media ↦
        kind_in media.media_kind (MediaKind.image ∷ MediaKind.video ∷ [])
        && ((is_none group.team_id
              && is_none media.team_id
              && opt_eq media.owner_id (some group.owner_id))
            || (is_some group.team_id && opt_eq media.team_id group.team_id))
  ]
]

-- The user who added an item; the group's owner takes the place of one who is gone.
unfoldable pub repaired_item : Db → MediaGroupItem → MediaGroupItem
repaired_item db item =
    if is_some (get_user db item.added_by) then item else elim (get_group db item.group_id) [
      | none ↦ item
      | some group ↦ record item { added_by = group.owner_id }
    ]

unfoldable pub with_repaired_items : Db → Db
with_repaired_items db = record db {
  media_group_items = map (repaired_item db) (where_ (valid_scope db) db.media_group_items);
}

-- `cleanup_orphan_media_library`, with the number of groups and items that it counts as removed:
-- the items of a removed group go with it and are not counted.
unfoldable pub cleanup_orphan_media_library : ℕ → Db → Db × ℕ
cleanup_orphan_media_library now db =
    let db1 = with_repaired_groups now db in
    let db2 = with_repaired_items db1 in
    (
      db2,
      length db.media_groups
          - length db1.media_groups
          + (length db1.media_group_items - length db2.media_group_items),
    )
