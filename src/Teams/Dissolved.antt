-- ===== src/Teams/Dissolved.antt =====
-- What the dissolution of a team leaves behind.
use asset_harbor.Base.{
  ℕ, ◌≡◌, refl, ◌⊎◌, sym, subst, Bool, true, false, not, ◌&&◌, none, some, List, [], ◌∷◌, map,
  arith, ok, http, >>=-eq-ok, raise_if, or_raise, ◌==◌, where_, update, any, All, All-where_pass,
  All-map, find-where_same, find-where_none, All-of, Bool-cases, Option-cases, inl, inr, opt_eq,
  String, if◌then◌else◌, find, find-update, find-where_, find_passes, str_eq, ==_iff,
}
use asset_harbor.Model.{Team, Principal, Db, Image, UploadSession, MediaGroup}
use asset_harbor.Uploads.Parts.{fresh_upload_session}
use asset_harbor.Access.{
  get_group, get_membership, get_team, fresh_library_user, can_manage_team, is_admin,
}
use asset_harbor.Teams.{delete_team, dissolve_team_media, delete_team_groups, release_team}
use asset_harbor.Teams.Owners.{IsOwned}

release_team-IsOwned : (db : Db) (t : ℕ) → IsOwned db → IsOwned (release_team db t)
unfolding release_team get_membership get_team
release_team-IsOwned db t h = record {
  distinct = h.distinct;
  counted = h.counted;
  owned = λ k other e. elim (Bool-cases (k == t)) [
    | inl same ↦
        let none_left =
          find-where_none (λ (x : Team). x.id == k) (λ x. not (x.id == t)) db.teams
            (All-of (λ (x : Team). (x.id == k) ≡ true → not (x.id == t) ≡ false)
              (λ x hit. ground arith) db.teams) in
        absurd (ground arith)
    | inr differs ↦
        let kept =
          find-where_same (λ (x : Team). x.id == k) (λ x. not (x.id == t)) db.teams
            (λ x hit. ground arith) in
        h.owned k other (ground arith)
  ];
}

-- What dissolving does, by whether the team is there.
dissolve-cases :
    (db : Db) (t : ℕ)
    → ((get_team db t ≡ none) × (dissolve_team_media db t ≡ db))
      ⊎ (dissolve_team_media db t ≡ release_team db t)
unfolding dissolve_team_media
dissolve-cases db t = elim (Option-cases (get_team db t)) [
  | inl gone ↦ inl (gone, rw (gone, dissolve_team_media))
  | inr (team, found) ↦ inr (rw (found, dissolve_team_media))
]

-- Dissolving a team keeps the invariant of the others.
pub delete_team-IsOwned :
    (t : ℕ) (p : Principal) (db db' : Db) → IsOwned db → delete_team t p db ≡ ok db' → IsOwned db'
unfolding delete_team
delete_team-IsOwned t p db db' h e =
    let (q, fresh, e1) = >>=-eq-ok (fresh_library_user db p) _ e in
    let (team, got, e2) = >>=-eq-ok (or_raise (get_team db t) (http 404)) _ e1 in
    let (_, allowed, e3) =
      >>=-eq-ok
        (raise_if (not (can_manage_team db team.id q.user.id true) && not (is_admin q.user.role))
          (http 403))
        _ e2 in
    let done : dissolve_team_media db team.id ≡ db' = ground arith in
    subst IsOwned done (elim (dissolve-cases db team.id) [
      | inl (gone, same) ↦ subst IsOwned (sym same) h
      | inr released ↦ subst IsOwned (sym released) (release_team-IsOwned db team.id h)
    ])

-- The row without its team, if it is in team `t`.
abbrev pub image_without : ℕ → Image → Image
image_without t i = if opt_eq i.team_id (some t) then record i { team_id = none } else i

abbrev pub upload_without : ℕ → UploadSession → UploadSession
upload_without t u = if opt_eq u.team_id (some t) then record u { team_id = none } else u

-- Neither team `t` nor a group of it is there, no image or upload is in it, and each image and upload
-- that was there is there with its owner and all else, those of `t` without their team, so that those
-- of another team are as they were. Groups whose number is none of `t`'s are as they were. The member
-- rows are untouched.
pub record IsReleased (t : ℕ) (before after : Db) : Type 0 where
  pub team : get_team after t ≡ none
  pub images : All (λ (i : Image). opt_eq i.team_id (some t) ≡ false) after.images
  pub uploads : All (λ (u : UploadSession). opt_eq u.team_id (some t) ≡ false) after.upload_sessions
  pub groups : All (λ (g : MediaGroup). opt_eq g.team_id (some t) ≡ false) after.media_groups
  pub each_image :
      (k : ℕ) (i : Image)
      → find (λ (x : Image). x.id == k) before.images ≡ some i
      → find (λ (x : Image). x.id == k) after.images ≡ some (image_without t i)
  pub each_upload :
      (k : String) (u : UploadSession)
      → fresh_upload_session before k ≡ some u
      → fresh_upload_session after k ≡ some (upload_without t u)
  pub other_groups :
      (k : ℕ) (g : MediaGroup)
      → get_group before k ≡ some g
      → any (λ (h : MediaGroup). opt_eq h.team_id (some t) && h.id == k) before.media_groups ≡ false
      → get_group after k ≡ some g
  pub members : after.team_members ≡ before.team_members

images_released :
    (t : ℕ) (xs : List Image)
    → All
        (λ (i : Image). opt_eq i.team_id (some t) ≡ false)
        (update (λ i. opt_eq i.team_id (some t)) (λ i. record i { team_id = none }) xs)
images_released t [] = tt
images_released t (x ∷ xs) = (ground arith, images_released t xs)

uploads_released :
    (t : ℕ) (xs : List UploadSession)
    → All
        (λ (i : UploadSession). opt_eq i.team_id (some t) ≡ false)
        (update (λ i. opt_eq i.team_id (some t)) (λ i. record i { team_id = none }) xs)
uploads_released t [] = tt
uploads_released t (x ∷ xs) = (ground arith, uploads_released t xs)

-- A number that no group of the team has is none of its groups' numbers.
not_listed :
    (in_team : MediaGroup → Bool) (k : ℕ) (xs : List MediaGroup)
    → any (λ (h : MediaGroup). in_team h && h.id == k) xs ≡ false
    → any (λ id. k == id) (map (λ (g : MediaGroup). g.id) (where_ in_team xs)) ≡ false
not_listed in_team k [] none_of = refl
not_listed in_team k (x ∷ xs) none_of = elim (Bool-cases (in_team x)) [
  | inl hit ↦
      let h = rw hit at none_of in
      rw hit (let rest = not_listed in_team k xs (ground arith) in ground arith)
  | inr miss ↦ let h = rw miss at none_of in rw miss (not_listed in_team k xs h)
]

-- The numbers of a team's groups hold the number of each of its groups.
groups_listed :
    (in_team : MediaGroup → Bool) (ids : List ℕ) (xs : List MediaGroup)
    → ((k : ℕ)
        → any (λ id. k == id) (map (λ (g : MediaGroup). g.id) (where_ in_team xs)) ≡ true
        → any (λ id. k == id) ids ≡ true)
    → All (λ (g : MediaGroup). in_team g ≡ true → any (λ id. g.id == id) ids ≡ true) xs
groups_listed in_team ids [] held = tt
groups_listed in_team ids (x ∷ xs) held = elim (Bool-cases (in_team x)) [
  | inl hit ↦
      let held' = rw hit at held in
      (λ _. held' x.id (ground arith), groups_listed in_team ids xs (λ k e. held' k (ground arith)))
  | inr miss ↦
      let held' = rw miss at held in
      (λ hit. absurd (ground arith), groups_listed in_team ids xs held')
]

dissolve-release :
    (db : Db) (t : ℕ) (team : Team)
    → get_team db t ≡ some team
    → dissolve_team_media db t ≡ release_team db t
unfolding dissolve_team_media
dissolve-release db t team found = rw (found, dissolve_team_media)

-- Dissolving a team that is there removes it and its groups, and takes exactly its images, videos
-- and upload sessions out of it, whose owners and other columns stay, as do the rows of other teams;
-- a group stays if no group of the team has its number, and every member row stays.
pub dissolve_team_media-IsReleased :
    (db : Db) (t : ℕ) (team : Team)
    → get_team db t ≡ some team
    → IsReleased t db (dissolve_team_media db t)
unfolding release_team delete_team_groups get_team get_group fresh_upload_session
dissolve_team_media-IsReleased db t team found =
    let in_team = λ (g : MediaGroup). opt_eq g.team_id (some t) in
    let ids = map (λ (g : MediaGroup). g.id) (where_ in_team db.media_groups) in
    rw (dissolve-release db t team found) (record {
      team =
          find-where_none (λ (x : Team). x.id == t) (λ x. not (x.id == t)) db.teams
            (All-of (λ (x : Team). (x.id == t) ≡ true → not (x.id == t) ≡ false)
              (λ x hit. ground arith) db.teams);
      images = images_released t db.images;
      uploads = uploads_released t db.upload_sessions;
      groups =
          All-where_pass (λ g. in_team g ≡ false) _ db.media_groups
            (All-map (λ g. in_team g ≡ true → any (λ id. g.id == id) ids ≡ true)
              (λ g. not (any (λ id. g.id == id) ids) ≡ true → in_team g ≡ false)
              (λ g listed kept. ground arith) db.media_groups
              (groups_listed in_team ids db.media_groups (λ k e. e)));
      each_image = λ k i there.
          find-update (λ (x : Image). x.id == k) (λ x. opt_eq x.team_id (some t))
            (λ x. record x { team_id = none }) db.images i (λ x. refl) there;
      each_upload = λ k u there.
          find-update (λ (x : UploadSession). str_eq x.upload_id k) (λ x. opt_eq x.team_id (some t))
            (λ x. record x { team_id = none }) db.upload_sessions u (λ x. refl) there;
      other_groups = λ k g there apart.
          let mine = find_passes (λ (x : MediaGroup). x.id == k) db.media_groups g there in
          let same : g.id ≡ k = (==_iff g.id k).0 mine in
          let free = not_listed in_team k db.media_groups apart in
          find-where_ (λ (x : MediaGroup). x.id == k) (λ x. not (any (λ id. x.id == id) ids))
            db.media_groups g there (rw (same, free) refl);
      members = refl;
    })
