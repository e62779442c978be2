-- ===== src/Groups/Scoped.antt =====
-- The items that are added to a group, and the test of the repair.
use asset_harbor.Base.{
  ℕ, ◌≡◌, refl, sym, subst, ap, ◌∙◌, Bool, true, false, not, ◌&&◌, Option, none, some, List, [],
  ◌∷◌, arith, ok, http, ◌==◌, ==-refl, ==_iff, where_, find, find-update, find_passes, All, All-map,
  All-append, All-where_, All-find, is_none, is_some, opt_eq, ◌||◌, Bool-cases, Option-cases, inl,
  inr, >>=-eq-ok, raise_if, or_raise, raise_if-eq-ok, or_raise-eq-ok, ok-injective, >>=-eq-ok,
}
use asset_harbor.Base.Text.{Text, text_eq}
use asset_harbor.Model.{Db, Image, MediaKind, MediaGroup, MediaGroupItem, Principal}
use asset_harbor.Access.{
  fresh_library_user, visible_group_or_404, get_group, can_view_group, can_manage_group, get_team,
}
use asset_harbor.Groups.{
  is_listed, listed_media, in_scope, normalized_codes, media_in_scope, resolve_group_media,
  add_items, new_item, with_group, add_media_group_items, not_in_group,
}
use asset_harbor.Groups.Repair.{get_image, valid_scope, kind_in}

-- No two rows of images have one number: the primary key.
abbrev pub IsKeyed : List Image → Type 0
IsKeyed [] = Unit {0}
IsKeyed (x ∷ xs) = All (λ (y : Image). (x.id == y.id) ≡ false) xs × IsKeyed xs

find-other :
    (p : Image → Bool) (n : ℕ) (xs : List Image) (m : Image)
    → All (λ (y : Image). (n == y.id) ≡ false) xs
    → find p xs ≡ some m
    → (n == m.id) ≡ false
find-other p n xs m h e = All-find (λ (y : Image). (n == y.id) ≡ false) p xs m h e

-- A row that is found is found again by its number.
find-by_id :
    (p : Image → Bool) (xs : List Image) (m : Image)
    → IsKeyed xs
    → find p xs ≡ some m
    → find (λ (i : Image). i.id == m.id) xs ≡ some m
find-by_id p [] m h e = absurd (ground arith)
find-by_id p (x ∷ xs) m h e = elim (Bool-cases (p x)) [
  | inl hit ↦
      let same : x ≡ m = let f : some x ≡ some m = rw hit at e in cc in
      subst (λ (k : Image). find (λ (i : Image). i.id == k.id) (x ∷ xs) ≡ some k) same
        (rw (==-refl x.id) refl)
  | inr miss ↦
      let f = rw miss at e in
      let other = find-other p x.id xs m h.0 f in rw other (find-by_id p xs m h.1 f)
]

-- A medium that may stand in a group.
abbrev Fits : Db → ℕ → Option ℕ → Image → Type 0
Fits db owner_id team_id m =
    (get_image db m.id ≡ some m)
    × (is_listed m.media_kind ≡ true)
    × (in_scope owner_id team_id m ≡ true)

media_in_scope-Fits :
    (db : Db) (owner_id : ℕ) (team_id : Option ℕ) (codes : List Text) (rows : List Image)
    → IsKeyed db.images
    → media_in_scope db owner_id team_id codes ≡ ok rows
    → All (Fits db owner_id team_id) rows
unfolding media_in_scope listed_media get_image
media_in_scope-Fits db owner_id team_id [] rows keyed e =
    subst (All (Fits db owner_id team_id)) (ok-injective e) tt
media_in_scope-Fits db owner_id team_id (code ∷ codes) rows keyed e =
    let (m, found, e1) = >>=-eq-ok (or_raise (listed_media db code) (http 404)) _ e in
    let (_, scoped, e2) =
      >>=-eq-ok (raise_if (not (in_scope owner_id team_id m)) (http 404)) _ e1 in
    let (others, rest, e3) = >>=-eq-ok (media_in_scope db owner_id team_id codes) _ e2 in
    let there = or_raise-eq-ok (listed_media db code) (http 404) found in
    let passes =
      find_passes (λ (i : Image). text_eq i.code code && is_listed i.media_kind) db.images m
        there in
    let k = raise_if-eq-ok _ _ scoped in
    subst (All (Fits db owner_id team_id)) (ok-injective e3) (
      (
        find-by_id (λ (i : Image). text_eq i.code code && is_listed i.media_kind) db.images m keyed
            there,
        ground arith,
        ground arith,
      ),
      media_in_scope-Fits db owner_id team_id codes others keyed rest,
    )

-- A change of a group that keeps its owner and its team keeps its items in scope.
with_group-valid_scope :
    (id now : ℕ) (db : Db) (i : MediaGroupItem)
    → valid_scope db i ≡ true
    → valid_scope (with_group id (λ g. record g { updated_at = now }) db) i ≡ true
unfolding valid_scope get_group get_image
with_group-valid_scope id now db i h = elim (Option-cases (get_group db i.group_id)) [
  | inl gone ↦ absurd (let f = rw (valid_scope, gone) at h in cc)
  | inr (g, found) ↦
      let touched =
        find-update (λ (x : MediaGroup). x.id == i.group_id) (λ x. x.id == id)
          (λ x. record x { updated_at = now }) db.media_groups g (λ x. refl) found in
      elim (Bool-cases (g.id == id)) [
        | inl hit ↦
            let t = rw hit at touched in
            rw (valid_scope, get_group, t) (rw (valid_scope, found) at h)
        | inr miss ↦
            let t = rw miss at touched in
            rw (valid_scope, get_group, t) (rw (valid_scope, found) at h)
      ]
]

add_items-All :
    (P : MediaGroupItem → Type 0) (Q : Image → Type 0) (group_id added_by now : ℕ)
    (rows : List Image) (items : List MediaGroupItem)
    → ((m : Image) (l : List MediaGroupItem) → Q m → P (new_item group_id m.id added_by now l))
    → All Q rows
    → All P items
    → All P (add_items group_id added_by now rows items)
unfolding add_items
add_items-All P Q group_id added_by now [] items fits k h = h
add_items-All P Q group_id added_by now (m ∷ rows) items fits k h =
    add_items-All P Q group_id added_by now rows _ fits k.1
      (All-append P items (new_item group_id m.id added_by now items ∷ []) h (fits m items k.0, tt))

is_listed-kind_in :
    (k : MediaKind) → is_listed k ≡ true → kind_in k (MediaKind.image ∷ MediaKind.video ∷ []) ≡ true
is_listed-kind_in MediaKind.image h = refl
is_listed-kind_in MediaKind.video h = refl
is_listed-kind_in MediaKind.other h = h

-- The two tests of the scope agree.
in_scope-tested :
    (owner : ℕ) (team : Option ℕ) (m : Image)
    → in_scope owner team m ≡ true
    → ((is_none team && is_none m.team_id && opt_eq m.owner_id (some owner))
        || (is_some team && opt_eq m.team_id team))
      ≡ true
unfolding in_scope
in_scope-tested owner none m h = ground arith
in_scope-tested owner (some t) m h = ground arith

-- A new item of a medium that fits its group is in scope.
new_item-valid_scope :
    (db : Db) (g : MediaGroup) (group_id added_by now : ℕ) (m : Image) (l : List MediaGroupItem)
    → get_group db group_id ≡ some g
    → Fits db g.owner_id g.team_id m
    → valid_scope db (new_item group_id m.id added_by now l) ≡ true
unfolding valid_scope
new_item-valid_scope db g group_id added_by now m l found (keyed, listed, scoped) =
    let kind = is_listed-kind_in m.media_kind listed in
    let scope = in_scope-tested g.owner_id g.team_id m scoped in
    rw (valid_scope, found, keyed) (rw (kind, scope) refl)

visible_group-found :
    (db : Db) (group_id : ℕ) (p : Principal) (g : MediaGroup)
    → visible_group_or_404 db group_id p true ≡ ok g
    → get_group db group_id ≡ some g
unfolding visible_group_or_404
visible_group-found db group_id p g e =
    let (h, found, e1) = >>=-eq-ok (or_raise (get_group db group_id) (http 404)) _ e in
    let (_, _, e2) = >>=-eq-ok (raise_if (not (can_view_group db p h)) (http 404)) _ e1 in
    let (_, _, e3) =
      >>=-eq-ok
        (raise_if (elim (h.team_id) [ none ↦ false | some t ↦ is_none (get_team db t) ]) (http 404))
        _ e2 in
    let (_, _, e4) = >>=-eq-ok (raise_if (true && not (can_manage_group db p h)) (http 403)) _ e3 in
    or_raise-eq-ok (get_group db group_id) (http 404) found ∙ ap (λ k. some k) (ok-injective e4)

get_group-id : (db : Db) (id : ℕ) (g : MediaGroup) → get_group db id ≡ some g → g.id ≡ id
unfolding get_group
get_group-id db id g e =
    (==_iff g.id id).0 (find_passes (λ (x : MediaGroup). x.id == id) db.media_groups g e)

abbrev touched : ℕ → ℕ → Db → Db
touched id now db = with_group id (λ g. record g { updated_at = now }) db

touched-group :
    (id now : ℕ) (db : Db) (g : MediaGroup)
    → get_group db id ≡ some g
    → (h : MediaGroup) × (get_group (touched id now db) id ≡ some h)
      × (h.owner_id ≡ g.owner_id)
      × (h.team_id ≡ g.team_id)
unfolding get_group
touched-group id now db g found =
    let mine = find_passes (λ (x : MediaGroup). x.id == id) db.media_groups g found in
    let after =
      find-update (λ (x : MediaGroup). x.id == id) (λ x. x.id == id)
        (λ x. record x { updated_at = now }) db.media_groups g (λ x. refl) found in
    (record g { updated_at = now }, rw mine at after, refl, refl)

-- Whether an item is in scope is read from groups and images alone.
items-valid_scope :
    (db : Db) (items : List MediaGroupItem) (i : MediaGroupItem)
    → valid_scope (record db { media_group_items = items }) i ≡ valid_scope db i
unfolding valid_scope get_group get_image
items-valid_scope db items i = refl

-- Where images have numbers of their own and every item passes the test of the start-up repair, that
-- its group and an image or video are there, personal and of one account or in one team, then every
-- item still passes it after media are added to a group, whatever codes are asked for.
pub add_media_group_items-valid_scope :
    (group_id : ℕ) (codes : List Text) (actor : Principal) (now : ℕ) (db db' : Db) (added : ℕ)
    → IsKeyed db.images
    → All (λ i. valid_scope db i ≡ true) db.media_group_items
    → add_media_group_items group_id codes actor now db ≡ ok (added, db')
    → All (λ i. valid_scope db' i ≡ true) db'.media_group_items
unfolding add_media_group_items resolve_group_media get_image
add_media_group_items-valid_scope group_id codes actor now db db' added keyed h e =
    let (p, _, e1) = >>=-eq-ok (fresh_library_user db actor) _ e in
    let (g, visible, e2) = >>=-eq-ok (visible_group_or_404 db group_id p true) _ e1 in
    let (resolved, looked_up, e3) =
      >>=-eq-ok (resolve_group_media db codes g.owner_id g.team_id) _ e2 in
    let (names, _, r1) = >>=-eq-ok (normalized_codes [] codes) _ looked_up in
    let (rows, found, r2) = >>=-eq-ok (media_in_scope db g.owner_id g.team_id names) _ r1 in
    let fits =
      subst (All (Fits db g.owner_id g.team_id)) (ap (λ x. x.0) (ok-injective r2))
        (media_in_scope-Fits db g.owner_id g.team_id names rows keyed found) in
    let there = visible_group-found db group_id p g visible in
    let mine = get_group-id db group_id g there in
    let (t, after, owner, team) =
      touched-group g.id now db g (subst (λ k. get_group db k ≡ some g) (sym mine) there) in
    let db1 = touched g.id now db in
    let IsIn = λ (i : MediaGroupItem). valid_scope db1 i ≡ true in
    let all : All IsIn (
        add_items g.id p.user.id now (where_ (not_in_group db g.id) resolved.0)
          db.media_group_items) =
      add_items-All IsIn (Fits db g.owner_id g.team_id) g.id p.user.id now
        (where_ (not_in_group db g.id) resolved.0) db.media_group_items
        (λ m l k. new_item-valid_scope db1 t g.id p.user.id now m l after (
          k.0,
          k.1,
          ap (λ o. in_scope o t.team_id m) owner ∙ ap (λ o. in_scope g.owner_id o m) team ∙ k.2,
        ))
        (All-where_ (Fits db g.owner_id g.team_id) (not_in_group db g.id) resolved.0 fits)
        (All-map (λ i. valid_scope db i ≡ true) IsIn (λ i k. with_group-valid_scope g.id now db i k)
          db.media_group_items h) in
    subst (λ (d : Db). All (λ i. valid_scope d i ≡ true) d.media_group_items)
      (ap (λ x. x.1) (ok-injective e3))
      (All-map IsIn
        (λ i.
          valid_scope
            (record db1 {
              media_group_items =
                  add_items g.id p.user.id now (where_ (not_in_group db g.id) resolved.0)
                    db.media_group_items;
            })
            i
          ≡ true)
        (λ i k. items-valid_scope db1 _ i ∙ k) _ all)
