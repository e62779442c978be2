-- ===== src/Access/Tenant.antt =====
-- Who may manage a medium, see it where it is private, and make signed links to it.
use asset_harbor.Base.{
  ℕ, ◌≡◌, refl, ◌⊎◌, inl, inr, ◌↔◌, true, false, none, some, arith, opt_eq_iff, Option-cases,
  Bool-cases,
}
use asset_harbor.Model.{TeamMember, Principal, Image, Db, Role, AuthScope, TeamRole}
use asset_harbor.Access.{
  get_membership, has_global_admin_scope, can_manage_image, can_watch_private, is_team_member,
  is_manager_role, can_sign_link,
}

-- The media is personal and the principal's own.
abbrev pub IsOwn : Principal → Image → Type 0
IsOwn p image = (image.team_id ≡ none) × (image.owner_id ≡ some p.user.id)

-- The media belongs to a team of which the principal is a member with a row that passes `Q`.
abbrev pub InTeam : (TeamMember → Type 0) → Db → Principal → Image → Type 0
InTeam Q db p image =
    (t : ℕ) × (m : TeamMember) × (image.team_id ≡ some t)
    × (get_membership db t p.user.id ≡ some m)
    × Q m

-- The global administrator scope: an administrator's login, or an actor of the application itself.
abbrev pub IsGlobal : Principal → Type 0
IsGlobal p =
    (p.user.role ≡ Role.admin) × ((p.scope ≡ AuthScope.jwt) ⊎ (p.scope ≡ AuthScope.internal))

tenant_manages :
    (db : Db) (p : Principal) (image : Image)
    → has_global_admin_scope p ≡ false
    → (can_manage_image db p image ≡ true) ↔ (
        IsOwn p image
        ⊎ InTeam
            (λ m. (image.owner_id ≡ some p.user.id) ⊎ (is_manager_role m.role ≡ true))
            db
            p
            image)
unfolding can_manage_image
tenant_manages db p image h = elim (Option-cases image.team_id) [
  | inl personal ↦ (
    λ allowed. inl (personal, ground (arith, opt_eq_iff image.owner_id (some p.user.id))),
    elim [
      | inl own ↦ ground (arith, opt_eq_iff image.owner_id (some p.user.id))
      | inr (t, m, e, _, _) ↦ ground arith
    ],
  )
  | inr (t, in_team) ↦ elim (Option-cases (get_membership db t p.user.id)) [
    | inl outsider ↦ (
      λ allowed. absurd (ground arith),
      elim [ inl own ↦ ground arith | inr (t', m', e, joined, _) ↦ ground arith ],
    )
    | inr (m, joined) ↦ (
      λ allowed.
          inr (t, m, in_team, joined, ground (arith, opt_eq_iff image.owner_id (some p.user.id))),
      elim [
        | inl own ↦ ground arith
        | inr (t', m', e, joined', q) ↦ ground (arith, opt_eq_iff image.owner_id (some p.user.id))
      ],
    )
  ]
]

-- A membership row that lets its user manage the medium: in the role of an owner or an administrator
-- of the team, or, in any role, where the user has uploaded it.
abbrev pub MayManage : Principal → Image → TeamMember → Type 0
MayManage p image m =
    (image.owner_id ≡ some p.user.id) ⊎ ((m.role ≡ TeamRole.owner) ⊎ (m.role ≡ TeamRole.admin))

manage-sign :
    (db : Db) (p : Principal) (image : Image)
    → can_manage_image db p image ≡ true
    → can_sign_link db p image ≡ true
unfolding can_manage_image can_sign_link is_team_member
manage-sign db p image h = elim (Bool-cases (has_global_admin_scope p)) [
  | inl admin ↦ rw (can_sign_link, admin) refl
  | inr tenant ↦ elim ((tenant_manages db p image tenant).0 h) [
    | inl own ↦ ground (arith, opt_eq_iff image.owner_id (some p.user.id))
    | inr (t, m, e, joined, _) ↦ ground arith
  ]
]

sign-watch :
    (db : Db) (p : Principal) (image : Image)
    → can_sign_link db p image ≡ can_watch_private db (some p) false image
unfolding can_sign_link can_watch_private
sign-watch db p image = ground arith

-- The three tests agree: whoever can manage a medium can make signed links to it, and whoever is
-- logged in can make them exactly if the private medium is shown without a signature.
pub can_manage_image-can_sign_link :
    (db : Db) (p : Principal) (image : Image)
    → (can_manage_image db p image ≡ true → can_sign_link db p image ≡ true)
      × (can_sign_link db p image ≡ can_watch_private db (some p) false image)
can_manage_image-can_sign_link db p image = (manage-sign db p image, sign-watch db p image)
