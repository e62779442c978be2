-- ===== src/Groups/Repeated.antt =====
-- The repair of the media library, run a second time.
use asset_harbor.Base.{
  ℕ, ◌≡◌, refl, ap, ◌∙◌, Bool, true, false, not, ◌&&◌, Option, none, some, List, [], ◌∷◌, arith,
  ◌==◌, ==-refl, is_none, is_some, where_, any, map, All, All-map, All-of, Bool-cases, inl, inr,
}
use asset_harbor.Model.{Db, MediaGroup, MediaGroupItem}
use asset_harbor.Access.{get_user}
use asset_harbor.Groups.Repair.{
  may_own, with_owner, repaired_as, repaired_group, repaired_groups, with_repaired_groups,
  valid_scope, repaired_item, with_repaired_items, cleanup_orphan_media_library,
}
use asset_harbor.Groups.Repaired.{
  IsSoundAs, IsSound, IsValid, IsRepaired, cleanup_orphan_media_library-IsRepaired,
}

not_none_of_some {ℓ} : {A : Type ℓ} (o : Option A) → is_some o ≡ true → is_none o ≡ false
not_none_of_some none h = cc
not_none_of_some (some a) h = refl

with_owner-same : (now o : ℕ) (g : MediaGroup) → o ≡ g.owner_id → with_owner now o g ≡ g
unfolding with_owner
with_owner-same now o g same = rw (same, ==-refl g.owner_id) refl

repaired_as-same :
    (now : ℕ) (db : Db) (g : MediaGroup) (o : Option ℕ)
    → IsSoundAs db g o
    → repaired_as now db g o ≡ some g
unfolding repaired_as
repaired_as-same now db g none h =
    let there = not_none_of_some (get_user db g.owner_id) h in rw (repaired_as, there) refl
repaired_as-same now db g (some t) (team, found, owner, may) =
    let there = not_none_of_some (get_user db team.owner_id) owner in
    elim (Bool-cases (may_own db team g.owner_id)) [
      | inl can ↦ rw (repaired_as, found, there, can) refl
      | inr cannot ↦
          let same : team.owner_id ≡ g.owner_id = let k = rw cannot at may in ground arith in
          rw (repaired_as, found, there, cannot)
            (ap (λ x. some x) (with_owner-same now team.owner_id g same))
    ]

repaired_group-same :
    (now : ℕ) (db : Db) (g : MediaGroup) → IsSound db g → repaired_group now db g ≡ some g
unfolding repaired_group
repaired_group-same now db g h = repaired_as-same now db g g.team_id h

repaired_groups-same :
    (now : ℕ) (db : Db) (groups : List MediaGroup)
    → All (IsSound db) groups
    → repaired_groups now db groups ≡ groups
unfolding repaired_groups
repaired_groups-same now db [] h = refl
repaired_groups-same now db (g ∷ groups) h =
    rw (repaired_groups, repaired_group-same now db g h.0)
      (ap (λ l. g ∷ l) (repaired_groups-same now db groups h.1))

where_-all {ℓ} :
    {A : Type ℓ} (p : A → Bool) (xs : List A) → All (λ x. p x ≡ true) xs → where_ p xs ≡ xs
where_-all p [] h = refl
where_-all p (x ∷ xs) h = rw (h.0) (ap (λ l. x ∷ l) (where_-all p xs h.1))

map-same {ℓ} : {A : Type ℓ} (f : A → A) (xs : List A) → All (λ x. f x ≡ x) xs → map f xs ≡ xs
map-same f [] h = refl
map-same f (x ∷ xs) h = rw (h.0) (ap (λ l. x ∷ l) (map-same f xs h.1))

-- No item stands in a removed group.
not_removed :
    (now : ℕ) (db : Db) (i : MediaGroupItem) (groups : List MediaGroup)
    → All (IsSound db) groups
    → any (λ (g : MediaGroup). g.id == i.group_id && is_none (repaired_group now db g)) groups
      ≡ false
not_removed now db i [] h = refl
not_removed now db i (g ∷ groups) h =
    rw (repaired_group-same now db g h.0)
      (let rest = not_removed now db i groups h.1 in ground arith)

with_repaired_groups-same :
    (now : ℕ) (db : Db) → All (IsSound db) db.media_groups → with_repaired_groups now db ≡ db
unfolding with_repaired_groups
with_repaired_groups-same now db h =
    ap
      (λ gs. record db {
        media_groups = gs;
        media_group_items =
            where_
              (λ (i : MediaGroupItem). not (
                any (λ (g : MediaGroup). g.id == i.group_id && is_none (repaired_group now db g))
                  db.media_groups))
              db.media_group_items;
      })
      (repaired_groups-same now db db.media_groups h)
    ∙ ap (λ l. record db { media_group_items = l })
        (where_-all
          (λ (i : MediaGroupItem). not (
            any (λ (g : MediaGroup). g.id == i.group_id && is_none (repaired_group now db g))
              db.media_groups))
          db.media_group_items
          (All-of
            (λ (i : MediaGroupItem).
              not (
                any (λ (g : MediaGroup). g.id == i.group_id && is_none (repaired_group now db g))
                  db.media_groups)
              ≡ true)
            (λ i. ap not (not_removed now db i db.media_groups h)) db.media_group_items))

repaired_item-same : (db : Db) (i : MediaGroupItem) → IsValid db i → repaired_item db i ≡ i
unfolding repaired_item
repaired_item-same db i h = let user = h.1 in rw (repaired_item, user) refl

with_repaired_items-same :
    (db : Db) → All (IsValid db) db.media_group_items → with_repaired_items db ≡ db
unfolding with_repaired_items
with_repaired_items-same db h =
    ap (λ l. record db { media_group_items = map (repaired_item db) l })
      (where_-all (valid_scope db) db.media_group_items
        (All-map (IsValid db) (λ i. valid_scope db i ≡ true) (λ i k. k.0) db.media_group_items h))
    ∙ ap (λ l. record db { media_group_items = l })
        (map-same (repaired_item db) db.media_group_items (
          All-map (IsValid db) (λ i. repaired_item db i ≡ i) (repaired_item-same db)
            db.media_group_items h))

repaired_again : (now : ℕ) (db : Db) → IsRepaired db → cleanup_orphan_media_library now db ≡ (db, 0)
unfolding cleanup_orphan_media_library
repaired_again now db h =
    let first = with_repaired_groups-same now db h.groups in
    let second = with_repaired_items-same db h.items in
    simp (cleanup_orphan_media_library, first, second) (ap (λ n. (db, n)) (omega arith))

-- The repair is idempotent: run again on what it has left, whatever that was made from and at
-- whatever time, it changes no row and counts nothing as removed.
pub cleanup_orphan_media_library_twice :
    (now later : ℕ) (db : Db)
    → cleanup_orphan_media_library later (cleanup_orphan_media_library now db).0
      ≡ ((cleanup_orphan_media_library now db).0, 0)
cleanup_orphan_media_library_twice now later db =
    repaired_again later (cleanup_orphan_media_library now db).0
      (cleanup_orphan_media_library-IsRepaired now db)
