-- ===== src/Groups/Handover.antt =====
-- The groups of an account that is about to be deleted: `prepare_groups_for_user_deletion` of
-- app/services/library.py.
use asset_harbor.Base.{
  ℕ, ◌≡◌, refl, sym, subst, ap, ◌∙◌, Bool, true, false, not, ◌&&◌, ◌||◌, Option, none, some, List,
  [], ◌∷◌, inl, inr, ◌==◌, ==_iff, is_none, is_some, if◌then◌else◌, where_, any, map, Bool-cases,
  Option-cases,
}
use asset_harbor.Model.{Db, MediaGroup, MediaGroupItem}
use asset_harbor.Access.{get_team, get_group}
use asset_harbor.Groups.Repair.{with_owner}

-- A group of the account, personal or of a team: none where it is removed.
unfoldable pub handed_as : ℕ → Db → ℕ → MediaGroup → Option ℕ → Option MediaGroup
handed_as now db user_id group none = none
handed_as now db user_id group (some t) = elim (get_team db t) [
  | none ↦ none
  | some team ↦
      if team.owner_id == user_id then some group else some (with_owner now team.owner_id group)
]

unfoldable pub handed_group : ℕ → Db → ℕ → MediaGroup → Option MediaGroup
unfolding handed_as
handed_group now db user_id group =
    if group.owner_id == user_id then handed_as now db user_id group group.team_id else some group

unfoldable pub handed_groups : ℕ → Db → ℕ → List MediaGroup → List MediaGroup
handed_groups now db user_id [] = []
handed_groups now db user_id (g ∷ groups) =
    let rest = handed_groups now db user_id groups in
    elim (handed_group now db user_id g) [ none ↦ rest | some kept ↦ kept ∷ rest ]

unfoldable pub with_handed_groups : ℕ → ℕ → Db → Db
with_handed_groups now user_id db = record db {
  media_groups = handed_groups now db user_id db.media_groups;
  media_group_items =
      where_
        (λ (i : MediaGroupItem). not (
          any (λ (g : MediaGroup). g.id == i.group_id && is_none (handed_group now db user_id g))
            db.media_groups))
        db.media_group_items;
}

-- An item that the account added is its group's owner's now.
unfoldable pub handed_item : Db → ℕ → MediaGroupItem → MediaGroupItem
handed_item db user_id item =
    if item.added_by == user_id
    then elim (get_group db item.group_id) [
      | none ↦ item
      | some group ↦ record item { added_by = group.owner_id }
    ]
    else item

unfoldable pub prepare_groups_for_user_deletion : ℕ → ℕ → Db → Db
prepare_groups_for_user_deletion now user_id db =
    let db1 = with_handed_groups now user_id db in
    record db1 { media_group_items = map (handed_item db1 user_id) db1.media_group_items }

-- Whether the group is one of a team that is there.
abbrev pub in_team : Db → Option ℕ → Bool
in_team db none = false
in_team db (some t) = is_some (get_team db t)

-- The owner of a team that is there.
abbrev pub team_owner : Db → Option ℕ → ℕ → ℕ
team_owner db none other = other
team_owner db (some t) other = elim (get_team db t) [ none ↦ other | some team ↦ team.owner_id ]

-- The groups that are left: those of other accounts, and those of a team that is there.
abbrev pub stays : Db → ℕ → MediaGroup → Bool
stays db user_id g = not (g.owner_id == user_id) || in_team db g.team_id

-- Whose a group is then.
abbrev pub heir : Db → ℕ → MediaGroup → ℕ
heir db user_id g = if g.owner_id == user_id then team_owner db g.team_id g.owner_id else g.owner_id

-- Who an item counts as added by, once the groups are handed over.
abbrev pub adder : Db → ℕ → MediaGroupItem → ℕ
adder after user_id i =
    if i.added_by == user_id
    then elim (get_group after i.group_id) [ none ↦ i.added_by | some g ↦ g.owner_id ]
    else i.added_by

-- What is said of a group and of an item.
abbrev pub group_view : MediaGroup → ℕ → ℕ × Option ℕ × ℕ
group_view g owner_id = (g.id, g.team_id, owner_id)

abbrev pub item_view : MediaGroupItem → ℕ → ℕ × ℕ × ℕ
item_view i added_by = (i.id, i.group_id, added_by)

pub record IsHanded (user_id : ℕ) (db db' : Db) : Type 0 where
  pub groups :
      map (λ (g : MediaGroup). group_view g g.owner_id) db'.media_groups
      ≡ map
          (λ (g : MediaGroup). group_view g (heir db user_id g))
          (where_ (stays db user_id) db.media_groups)
  pub items :
      map (λ (i : MediaGroupItem). item_view i i.added_by) db'.media_group_items
      ≡ map
          (λ (i : MediaGroupItem). item_view i (adder db' user_id i))
          (where_
            (λ (i : MediaGroupItem). not (
              any
                (λ (g : MediaGroup). g.id == i.group_id && not (stays db user_id g))
                db.media_groups))
            db.media_group_items)

-- What becomes of one group of the account.
abbrev IsHandedAs : Db → MediaGroup → Option ℕ → Option MediaGroup → Type 0
IsHandedAs db g o none = in_team db o ≡ false
IsHandedAs db g o (some h) =
    (in_team db o ≡ true)
    × (h.id ≡ g.id)
    × (h.team_id ≡ g.team_id)
    × (h.owner_id ≡ team_owner db o g.owner_id)

handed_as-IsHandedAs :
    (now : ℕ) (db : Db) (user_id : ℕ) (g : MediaGroup) (o : Option ℕ)
    → (g.owner_id == user_id) ≡ true
    → IsHandedAs db g o (handed_as now db user_id g o)
unfolding handed_as with_owner
handed_as-IsHandedAs now db user_id g none mine = refl
handed_as-IsHandedAs now db user_id g (some t) mine = elim (Option-cases (get_team db t)) [
  | inl gone ↦ rw (handed_as, gone) (ap is_some gone)
  | inr (team, there) ↦
      let owner : team_owner db (some t) g.owner_id ≡ team.owner_id = rw (team_owner, there) refl in
      rw (handed_as, there)
        (elim (Bool-cases (team.owner_id == user_id)) [
          | inl own ↦
              let same : g.owner_id ≡ team.owner_id =
                (==_iff g.owner_id user_id).0 mine ∙ sym ((==_iff team.owner_id user_id).0 own) in
              rw own (ap is_some there, refl, refl, same ∙ sym owner)
          | inr other ↦ rw other (ap is_some there, refl, refl, sym owner)
        ])
]

handed_group_mine :
    (now : ℕ) (db : Db) (user_id : ℕ) (g : MediaGroup)
    → (g.owner_id == user_id) ≡ true
    → handed_group now db user_id g ≡ handed_as now db user_id g g.team_id
unfolding handed_group
handed_group_mine now db user_id g mine = rw (handed_group, mine) refl

handed_group_other :
    (now : ℕ) (db : Db) (user_id : ℕ) (g : MediaGroup)
    → (g.owner_id == user_id) ≡ false
    → handed_group now db user_id g ≡ some g
unfolding handed_group
handed_group_other now db user_id g other = rw (handed_group, other) refl

-- What becomes of one group.
abbrev IsHandedTo : Db → ℕ → MediaGroup → Option MediaGroup → Type 0
IsHandedTo db user_id g none = stays db user_id g ≡ false
IsHandedTo db user_id g (some h) =
    (stays db user_id g ≡ true)
    × (h.id ≡ g.id)
    × (h.team_id ≡ g.team_id)
    × (h.owner_id ≡ heir db user_id g)

as-IsHandedTo :
    (db : Db) (user_id : ℕ) (g : MediaGroup) (o : Option MediaGroup)
    → (g.owner_id == user_id) ≡ true
    → IsHandedAs db g g.team_id o
    → IsHandedTo db user_id g o
as-IsHandedTo db user_id g none mine gone = rw (mine, gone) refl
as-IsHandedTo db user_id g (some h) mine (there, id, team, owner) =
    (rw (mine, there) refl, id, team, rw mine owner)

handed_group-IsHandedTo :
    (now : ℕ) (db : Db) (user_id : ℕ) (g : MediaGroup)
    → IsHandedTo db user_id g (handed_group now db user_id g)
handed_group-IsHandedTo now db user_id g = elim (Bool-cases (g.owner_id == user_id)) [
  | inl mine ↦ subst (IsHandedTo db user_id g) (sym (handed_group_mine now db user_id g mine)) (
      as-IsHandedTo db user_id g (handed_as now db user_id g g.team_id) mine
        (handed_as-IsHandedAs now db user_id g g.team_id mine))
  | inr other ↦
      subst (IsHandedTo db user_id g) (sym (handed_group_other now db user_id g other))
        (rw other refl, refl, refl, rw other refl)
]

-- A group is removed exactly if it does not stay.
removed-stays :
    (db : Db) (user_id : ℕ) (g : MediaGroup) (o : Option MediaGroup)
    → IsHandedTo db user_id g o
    → is_none o ≡ not (stays db user_id g)
removed-stays db user_id g none gone = rw gone refl
removed-stays db user_id g (some h) (there, id, team, owner) = rw there refl

abbrev HasHeirs : Db → ℕ → List MediaGroup → List MediaGroup → Type 0
HasHeirs db user_id groups after =
    map (λ (g : MediaGroup). group_view g g.owner_id) after
    ≡ map (λ (g : MediaGroup). group_view g (heir db user_id g)) (where_ (stays db user_id) groups)

-- One group before the others, by what becomes of it.
handed_more :
    (db : Db) (user_id : ℕ) (g : MediaGroup) (groups after : List MediaGroup)
    (o : Option MediaGroup)
    → IsHandedTo db user_id g o
    → HasHeirs db user_id groups after
    → HasHeirs db user_id (g ∷ groups) (elim o [ none ↦ after | some h ↦ h ∷ after ])
handed_more db user_id g groups after none gone rest = rw gone rest
handed_more db user_id g groups after (some h) (there, id, team, owner) rest =
    rw (there, id, team, owner) (ap (λ l. group_view g (heir db user_id g) ∷ l) rest)

handed_groups-HasHeirs :
    (now : ℕ) (db : Db) (user_id : ℕ) (groups : List MediaGroup)
    → HasHeirs db user_id groups (handed_groups now db user_id groups)
unfolding handed_groups
handed_groups-HasHeirs now db user_id [] = refl
handed_groups-HasHeirs now db user_id (g ∷ groups) =
    handed_more db user_id g groups (handed_groups now db user_id groups)
      (handed_group now db user_id g) (handed_group-IsHandedTo now db user_id g)
      (handed_groups-HasHeirs now db user_id groups)

handed_item-adder :
    (db : Db) (user_id : ℕ) (i : MediaGroupItem)
    → (
      (handed_item db user_id i).id,
      (handed_item db user_id i).group_id,
      (handed_item db user_id i).added_by,
    )
      ≡ item_view i (adder db user_id i)
unfolding handed_item
handed_item-adder db user_id i = elim (Bool-cases (i.added_by == user_id)) [
  | inr other ↦ rw (handed_item, other) refl
  | inl mine ↦ elim (Option-cases (get_group db i.group_id)) [
    | inl gone ↦ rw (handed_item, mine, gone) refl
    | inr (g, there) ↦ rw (handed_item, mine, there) refl
  ]
]

map-map_same {ℓ κ} :
    {A : Type ℓ} {B : Type κ} (f : A → A) (p q : A → B)
    → ((x : A) → p (f x) ≡ q x)
    → (l : List A) → map p (map f l) ≡ map q l
map-map_same f p q h [] = refl
map-map_same f p q h (x ∷ l) = rw (h x) (ap (λ r. q x ∷ r) (map-map_same f p q h l))

-- After the preparation for the deletion of an account, the groups that are left are those of other
-- accounts and those of a team that is there, in their order, each in its team: one that was the
-- account's is its team's owner's, and the others are whose they were. The items of the groups that
-- are not left are removed; each of the rest is in its group, and one that the account had added
-- counts as added by the owner of its group, if that is there, and the others by whom they were.
pub prepare_groups_for_user_deletion-IsHanded :
    (now user_id : ℕ) (db : Db)
    → IsHanded user_id db (prepare_groups_for_user_deletion now user_id db)
unfolding prepare_groups_for_user_deletion with_handed_groups get_group
prepare_groups_for_user_deletion-IsHanded now user_id db =
    let after = with_handed_groups now user_id db in
    let gone : (λ (g : MediaGroup). is_none (handed_group now db user_id g))
        ≡ (λ g. not (stays db user_id g)) =
      λ i g.
        removed-stays db user_id g (handed_group now db user_id g)
          (handed_group-IsHandedTo now db user_id g) i in
    record {
      groups = handed_groups-HasHeirs now db user_id db.media_groups;
      items =
          map-map_same (handed_item after user_id) (λ (i : MediaGroupItem). item_view i i.added_by)
            (λ i. item_view i (adder after user_id i)) (handed_item-adder after user_id)
            after.media_group_items
          ∙ ap
              (λ (f : MediaGroup → Bool).
                map (λ (i : MediaGroupItem). item_view i (adder after user_id i))
                  (where_
                    (λ (i : MediaGroupItem).
                      not (any (λ (g : MediaGroup). g.id == i.group_id && f g) db.media_groups))
                    db.media_group_items))
              gone;
    }
