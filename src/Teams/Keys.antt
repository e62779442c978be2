-- ===== src/Teams/Keys.antt =====
-- The primary keys of `team_members` are distinct, and what follows for lookups.
use asset_harbor.Base.{
  ◌≡◌, refl, sym, subst, ◌≢◌, Bool, true, false, not, ◌&&◌, none, some, List, [], ◌∷◌, ◌++◌, arith,
  ◌==◌, find, find-where_none, where_, update, All, All-append, All-where_, All-update, All-find,
  All-map, Bool-cases, inl, inr,
}
use asset_harbor.Model.{TeamMember}

-- Two rows differ in their number, and in their team or their user.
abbrev pub Apart : TeamMember → TeamMember → Type 0
Apart x y = (x.id ≢ y.id) × (x.team_id ≡ y.team_id → x.user_id ≢ y.user_id)

-- Every two rows are apart: the primary key and the constraint `uq_team_member`.
abbrev pub Distinct : List TeamMember → Type 0
Distinct [] = Unit {0}
Distinct (x ∷ xs) = All (Apart x) xs × Distinct xs

-- Two lookups that end at one number end at one row.
pub find_unique :
    (p q : TeamMember → Bool) (xs : List TeamMember) (a b : TeamMember)
    → Distinct xs
    → find p xs ≡ some a
    → find q xs ≡ some b
    → a.id ≡ b.id
    → a ≡ b
find_unique p q [] a b d e f same = absurd (ground arith)
find_unique p q (x ∷ xs) a b d e f same = elim (Bool-cases (p x)) [
  | inl hit ↦ elim (Bool-cases (q x)) [
    | inl hit' ↦ ground arith
    | inr miss' ↦
        let far = (All-find (Apart x) q xs b d.0 (rw miss' at f)).0 in absurd (ground arith)
  ]
  | inr miss ↦ elim (Bool-cases (q x)) [
    | inl hit' ↦ let far = (All-find (Apart x) p xs a d.0 (rw miss at e)).0 in absurd (ground arith)
    | inr miss' ↦ find_unique p q xs a b d.1 (rw miss at e) (rw miss' at f) same
  ]
]

pub Distinct-append :
    (xs : List TeamMember) (m : TeamMember)
    → Distinct xs
    → All (λ x. Apart x m) xs
    → Distinct (xs ++ (m ∷ []))
Distinct-append [] m d h = (tt, tt)
Distinct-append (x ∷ xs) m d h =
    (All-append (Apart x) xs (m ∷ []) d.0 (h.0, tt), Distinct-append xs m d.1 h.1)

pub Distinct-where_ :
    (q : TeamMember → Bool) (xs : List TeamMember) → Distinct xs → Distinct (where_ q xs)
Distinct-where_ q [] d = tt
Distinct-where_ q (x ∷ xs) d = elim (Bool-cases (q x)) [
  | inl kept ↦ rw kept (All-where_ (Apart x) q xs d.0, Distinct-where_ q xs d.1)
  | inr gone ↦ rw gone (Distinct-where_ q xs d.1)
]

-- An update of the role, or of anything but the keys, keeps them.
pub Distinct-update :
    (q : TeamMember → Bool) (f : TeamMember → TeamMember) (xs : List TeamMember)
    → ((x m : TeamMember) → Apart x m → Apart x (f m))
    → ((x m : TeamMember) → Apart x m → Apart (f x) m)
    → Distinct xs
    → Distinct (update q f xs)
Distinct-update q f [] right left d = tt
Distinct-update q f (x ∷ xs) right left d = elim (Bool-cases (q x)) [
  | inl changed ↦ rw changed (
    All-update (Apart (f x)) q f xs (right (f x)) (All-map (Apart x) (Apart (f x)) (left x) xs d.0),
    Distinct-update q f xs right left d.1,
  )
  | inr as_was ↦
      rw as_was (All-update (Apart x) q f xs (right x) d.0, Distinct-update q f xs right left d.1)
]

abbrev IsRow : TeamMember → TeamMember → Type 0
IsRow m x = x.team_id ≡ m.team_id → x.user_id ≡ m.user_id → x.id ≡ m.id

-- A row of the found row's team and user is the found row.
same_pair :
    (p : TeamMember → Bool) (xs : List TeamMember) (m : TeamMember)
    → Distinct xs
    → find p xs ≡ some m
    → All (IsRow m) xs
same_pair p [] m d e = tt
same_pair p (x ∷ xs) m d e = elim (Bool-cases (p x)) [
  | inl hit ↦
      let same : x ≡ m = ground arith in
      let rest =
        All-map (Apart x) (IsRow x) (λ y apart team user. absurd (apart.1 (sym team) (sym user))) xs
          d.0 in
      subst (λ n. All (IsRow n) (x ∷ xs)) same (λ _ _. refl, rest)
  | inr miss ↦
      let far = All-find (Apart x) p xs m d.0 (rw miss at e) in
      (λ team user. absurd (far.1 team user), same_pair p xs m d.1 (rw miss at e))
]

-- After a row is dropped by its number, no row of its team and user is left.
pub find-dropped :
    (p : TeamMember → Bool) (xs : List TeamMember) (m : TeamMember)
    → Distinct xs
    → find p xs ≡ some m
    → find
        (λ x. x.team_id == m.team_id && x.user_id == m.user_id)
        (where_ (λ x. not (x.id == m.id)) xs)
      ≡ none
find-dropped p xs m d e =
    find-where_none (λ x. x.team_id == m.team_id && x.user_id == m.user_id)
      (λ x. not (x.id == m.id)) xs
      (All-map (λ (x : TeamMember). x.team_id ≡ m.team_id → x.user_id ≡ m.user_id → x.id ≡ m.id)
        (λ x.
          (x.team_id == m.team_id && x.user_id == m.user_id) ≡ true → not (x.id == m.id) ≡ false)
        (λ x same hit. ground (arith, same (ground arith) (ground arith))) xs
        (same_pair p xs m d e))
