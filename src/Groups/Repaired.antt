-- ===== src/Groups/Repaired.antt =====
-- What the repair of the media library establishes.
use asset_harbor.Base.{
  ℕ, ◌≡◌, refl, sym, subst, ap, ◌∙◌, true, false, ◌||◌, Option, none, some, List, [], ◌∷◌, arith,
  ◌==◌, is_none, is_some, where_, map, All, All-where_pass, All-find, All-of, Bool-cases,
  Option-cases, inl, inr,
}
use asset_harbor.Model.{Db, Team, MediaGroup, MediaGroupItem}
use asset_harbor.Access.{get_user, get_team, get_group, get_membership}
use asset_harbor.Groups.Repair.{
  may_own, with_owner, repaired_as, repaired_group, repaired_groups, with_repaired_groups,
  get_image, valid_scope, repaired_item, with_repaired_items, cleanup_orphan_media_library,
}

-- A group of an account, or of a team whose owner is an account, owned by that owner or by one who
-- may own it.
abbrev pub IsSoundAs : Db → MediaGroup → Option ℕ → Type 0
IsSoundAs db g none = is_some (get_user db g.owner_id) ≡ true
IsSoundAs db g (some t) =
    (team : Team) × (get_team db t ≡ some team)
    × (is_some (get_user db team.owner_id) ≡ true)
    × ((may_own db team g.owner_id || g.owner_id == team.owner_id) ≡ true)

abbrev pub IsSound : Db → MediaGroup → Type 0
IsSound db g = IsSoundAs db g g.team_id

some_of_not_none {ℓ} : {A : Type ℓ} (o : Option A) → is_none o ≡ false → is_some o ≡ true
some_of_not_none none h = cc
some_of_not_none (some a) h = refl

repaired_as-IsSound :
    (now : ℕ) (db : Db) (g kept : MediaGroup) (o : Option ℕ)
    → repaired_as now db g o ≡ some kept
    → IsSoundAs db kept o × (kept.team_id ≡ g.team_id)
unfolding repaired_as with_owner
repaired_as-IsSound now db g kept none e = elim (Bool-cases (is_none (get_user db g.owner_id))) [
  | inl gone ↦ absurd (let f = rw (repaired_as, gone) at e in cc)
  | inr there ↦
      let f : some g ≡ some kept = rw (repaired_as, there) at e in
      let same : g ≡ kept = cc in
      subst (λ k. IsSoundAs db k none × (k.team_id ≡ g.team_id)) same
        (some_of_not_none (get_user db g.owner_id) there, refl)
]
repaired_as-IsSound now db g kept (some t) e = elim (Option-cases (get_team db t)) [
  | inl gone ↦ absurd (let f = rw (repaired_as, gone) at e in cc)
  | inr (team, found) ↦ elim (Bool-cases (is_none (get_user db team.owner_id))) [
    | inl gone ↦ absurd (let f = rw (repaired_as, found, gone) at e in cc)
    | inr there ↦
        let owner = some_of_not_none (get_user db team.owner_id) there in
        elim (Bool-cases (may_own db team g.owner_id)) [
          | inl may ↦
              let f : some g ≡ some kept = rw (repaired_as, found, there, may) at e in
              let same : g ≡ kept = cc in
              subst (λ k. IsSoundAs db k (some t) × (k.team_id ≡ g.team_id)) same
                ((team, found, owner, rw may refl), refl)
          | inr must_not ↦
              let f : some (with_owner now team.owner_id g) ≡ some kept =
                rw (repaired_as, found, there, must_not) at e in
              let same : with_owner now team.owner_id g ≡ kept = cc in
              subst (λ k. IsSoundAs db k (some t) × (k.team_id ≡ g.team_id)) same
                ((team, found, owner, ground arith), refl)
        ]
  ]
]

repaired_group-IsSound :
    (now : ℕ) (db : Db) (g kept : MediaGroup)
    → repaired_group now db g ≡ some kept
    → IsSound db kept
unfolding repaired_group
repaired_group-IsSound now db g kept e =
    let (sound, same) = repaired_as-IsSound now db g kept g.team_id e in
    subst (IsSoundAs db kept) (sym same) sound

repaired_groups-IsSound :
    (now : ℕ) (db : Db) (groups : List MediaGroup)
    → All (IsSound db) (repaired_groups now db groups)
unfolding repaired_groups
repaired_groups-IsSound now db [] = tt
repaired_groups-IsSound now db (g ∷ groups) = elim (Option-cases (repaired_group now db g)) [
  | inl removed ↦ rw (repaired_groups, removed) (repaired_groups-IsSound now db groups)
  | inr (kept, e) ↦
      rw (repaired_groups, e)
        (repaired_group-IsSound now db g kept e, repaired_groups-IsSound now db groups)
]

may_own-user :
    (db : Db) (team : Team) (id : ℕ) → may_own db team id ≡ true → is_some (get_user db id) ≡ true
unfolding may_own
may_own-user db team id h = elim (Option-cases (get_user db id)) [
  | inl gone ↦ absurd (let f = rw (may_own, gone) at h in cc)
  | inr (u, there) ↦ rw there refl
]

-- The owner of a sound group is an account.
IsSoundAs-owner :
    (db : Db) (g : MediaGroup) (o : Option ℕ)
    → IsSoundAs db g o
    → is_some (get_user db g.owner_id) ≡ true
IsSoundAs-owner db g none h = h
IsSoundAs-owner db g (some t) (team, found, owner, may) =
    elim (Bool-cases (may_own db team g.owner_id)) [
      | inl can ↦ may_own-user db team g.owner_id can
      | inr cannot ↦
          let same : g.owner_id ≡ team.owner_id = let k = rw cannot at may in ground arith in
          ap (λ k. is_some (get_user db k)) same ∙ owner
    ]

-- An item whose group and medium are there, in one scope, and which an account has added.
abbrev pub IsValid : Db → MediaGroupItem → Type 0
IsValid db i = (valid_scope db i ≡ true) × (is_some (get_user db i.added_by) ≡ true)

repaired_item-IsValid :
    (db : Db) (i : MediaGroupItem)
    → All (IsSound db) db.media_groups
    → valid_scope db i ≡ true
    → IsValid db (repaired_item db i)
unfolding repaired_item valid_scope get_group
repaired_item-IsValid db i sound valid = elim (Bool-cases (is_some (get_user db i.added_by))) [
  | inl there ↦ rw (repaired_item, there) (valid, there)
  | inr gone ↦ elim (Option-cases (get_group db i.group_id)) [
    | inl lost ↦ absurd (let f = rw (valid_scope, lost) at valid in cc)
    | inr (g, found) ↦
        let owner = IsSoundAs-owner db g g.team_id (
          All-find (IsSound db) (λ (x : MediaGroup). x.id == i.group_id) db.media_groups g sound
            found) in
        rw (repaired_item, gone, found) (valid, owner)
  ]
]

map-All {ℓ κ} :
    {A : Type ℓ} (P : A → Type κ) (f : A → A) (xs : List A)
    → All (λ x. P (f x)) xs
    → All P (map f xs)
map-All P f [] h = tt
map-All P f (x ∷ xs) h = (h.0, map-All P f xs h.1)

-- The media library as it should be.
pub record IsRepaired (db : Db) : Type 0 where
  pub groups : All (IsSound db) db.media_groups
  pub items : All (IsValid db) db.media_group_items

with_repaired_groups-IsSound :
    (now : ℕ) (db : Db)
    → All (IsSound (with_repaired_groups now db)) (with_repaired_groups now db).media_groups
unfolding with_repaired_groups get_user get_team get_membership may_own
with_repaired_groups-IsSound now db = repaired_groups-IsSound now db db.media_groups

with_repaired_items-IsRepaired :
    (db : Db) → All (IsSound db) db.media_groups → IsRepaired (with_repaired_items db)
unfolding with_repaired_items get_user get_team get_group get_membership may_own get_image
    valid_scope
with_repaired_items-IsRepaired db sound = record {
  groups = sound;
  items = map-All (IsValid db) (repaired_item db) (where_ (valid_scope db) db.media_group_items) (
      All-where_pass (λ i. IsValid db (repaired_item db i)) (valid_scope db) db.media_group_items
        (All-of (λ i. valid_scope db i ≡ true → IsValid db (repaired_item db i))
          (λ i valid. repaired_item-IsValid db i sound valid) db.media_group_items));
}

-- The repair at start-up leaves a media library in order, whatever it finds: every group belongs to
-- an account, or to a team whose owner is an account and is owned by that owner or by an account that
-- may own it, a member or a global administrator; and every item is of a group and an image or video
-- that are there, in one scope, and was added by an account.
pub cleanup_orphan_media_library-IsRepaired :
    (now : ℕ) (db : Db) → IsRepaired (cleanup_orphan_media_library now db).0
unfolding cleanup_orphan_media_library
cleanup_orphan_media_library-IsRepaired now db =
    with_repaired_items-IsRepaired (with_repaired_groups now db)
      (with_repaired_groups-IsSound now db)
