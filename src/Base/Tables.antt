-- ===== src/Base/Tables.antt =====
-- Laws of the table operations: find, where_, update and All, over appended and filtered rows.
use Prim.Native.Nat.{ℕ, ◌<◌}
use mathlib.Core.Path.{◌≡◌, refl, ap}
use mathlib.Core.Logic.{inl, inr}
use mathlib.Core.Bool.{Bool, true, false}
use mathlib.Core.Option.{none, some}
use mathlib.Core.List.{List, [], ◌∷◌, ◌++◌}
use native.Mathlib.Omega.{arith}
use asset_harbor.Base.Tests.{if◌then◌else◌, Bool-cases}
use asset_harbor.Base.Lists.{find, where_, update, All, max_by}

module _ {ℓ} {A : Type ℓ} where
  pub find-append_some :
      (p : A → Bool) (xs ys : List A) (m : A) → find p xs ≡ some m → find p (xs ++ ys) ≡ some m
  find-append_some p [] ys m h = cc
  find-append_some p (x ∷ xs) ys m h = elim (Bool-cases (p x)) [
    | inl hit ↦ rw hit (rw hit at h)
    | inr miss ↦ rw miss (find-append_some p xs ys m (rw miss at h))
  ]

  pub find-append_none :
      (p : A → Bool) (xs ys : List A) → find p xs ≡ none → find p (xs ++ ys) ≡ find p ys
  find-append_none p [] ys h = refl
  find-append_none p (x ∷ xs) ys h = elim (Bool-cases (p x)) [
    | inl hit ↦ absurd (ground arith)
    | inr miss ↦ rw miss (find-append_none p xs ys (rw miss at h))
  ]

  -- The first match is kept by a filter that it passes.
  pub find-where_ :
      (p q : A → Bool) (xs : List A) (m : A)
      → find p xs ≡ some m
      → q m ≡ true
      → find p (where_ q xs) ≡ some m
  find-where_ p q [] m h k = h
  find-where_ p q (x ∷ xs) m h k = elim (Bool-cases (p x)) [
    | inl hit ↦ let same : x ≡ m = ground arith in rw (same, k) (ground arith)
    | inr miss ↦ elim (Bool-cases (q x)) [
      | inl kept ↦ rw (kept, miss) (find-where_ p q xs m (rw miss at h) k)
      | inr gone ↦ rw gone (find-where_ p q xs m (rw miss at h) k)
    ]
  ]

  -- Where every match is filtered out, nothing is found.
  pub find-where_none :
      (p q : A → Bool) (xs : List A)
      → All (λ x. p x ≡ true → q x ≡ false) xs
      → find p (where_ q xs) ≡ none
  find-where_none p q [] h = refl
  find-where_none p q (x ∷ xs) h = elim (Bool-cases (q x)) [
    | inl kept ↦ elim (Bool-cases (p x)) [
      | inl hit ↦ absurd (ground (arith, h.0 hit))
      | inr miss ↦ rw (kept, miss) (find-where_none p q xs h.1)
    ]
    | inr gone ↦ rw gone (find-where_none p q xs h.1)
  ]

  -- A filter that every match passes changes no lookup.
  pub find-where_same :
      (p q : A → Bool) (xs : List A)
      → ((x : A) → p x ≡ true → q x ≡ true)
      → find p (where_ q xs) ≡ find p xs
  find-where_same p q [] keep = refl
  find-where_same p q (x ∷ xs) keep = elim (Bool-cases (q x)) [
    | inl kept ↦ rw kept (ap (λ r. if p x then some x else r) (find-where_same p q xs keep))
    | inr gone ↦ elim (Bool-cases (p x)) [
      | inl hit ↦ absurd (ground (arith, keep x hit))
      | inr miss ↦ rw (gone, miss) (find-where_same p q xs keep)
    ]
  ]

  pub find-none : (p : A → Bool) (xs : List A) → All (λ x. p x ≡ false) xs → find p xs ≡ none
  find-none p [] h = refl
  find-none p (x ∷ xs) h = rw (h.0) (find-none p xs h.1)

  pub All-of_find-none : (p : A → Bool) (xs : List A) → find p xs ≡ none → All (λ x. p x ≡ false) xs
  All-of_find-none p [] h = tt
  All-of_find-none p (x ∷ xs) h = elim (Bool-cases (p x)) [
    | inl hit ↦ absurd (ground arith)
    | inr miss ↦ (miss, All-of_find-none p xs (rw miss at h))
  ]

  pub find-update :
      (p q : A → Bool) (f : A → A) (xs : List A) (m : A)
      → ((x : A) → p (f x) ≡ p x)
      → find p xs ≡ some m
      → find p (update q f xs) ≡ some (if q m then f m else m)
  find-update p q f [] m keep h = cc
  find-update p q f (x ∷ xs) m keep h = elim (Bool-cases (p x)) [
    | inl hit ↦
        let same : x ≡ m = ground arith in
        rw (← same) (elim (Bool-cases (q x)) [
          | inl changed ↦ rw (changed, keep x, hit)
          | inr as_was ↦ rw (as_was, hit)
        ])
    | inr miss ↦
        let ih = find-update p q f xs m keep (rw miss at h) in
        elim (Bool-cases (q x)) [
          | inl changed ↦ rw (changed, keep x, miss) ih
          | inr as_was ↦ rw (as_was, miss) ih
        ]
  ]

module _ {ℓ κ} {A : Type ℓ} (P : A → Type κ) where
  pub All-append : (xs ys : List A) → All P xs → All P ys → All P (xs ++ ys)
  All-append [] ys h k = k
  All-append (x ∷ xs) ys h k = (h.0, All-append xs ys h.1 k)

  pub All-where_ : (q : A → Bool) (xs : List A) → All P xs → All P (where_ q xs)
  All-where_ q [] h = tt
  All-where_ q (x ∷ xs) h = elim (Bool-cases (q x)) [
    | inl kept ↦ rw kept (h.0, All-where_ q xs h.1)
    | inr gone ↦ rw gone (All-where_ q xs h.1)
  ]

  -- A filter establishes what its test implies.
  pub All-where_pass :
      (q : A → Bool) (xs : List A) → All (λ x. q x ≡ true → P x) xs → All P (where_ q xs)
  All-where_pass q [] h = tt
  All-where_pass q (x ∷ xs) h = elim (Bool-cases (q x)) [
    | inl kept ↦ rw kept (h.0 kept, All-where_pass q xs h.1)
    | inr gone ↦ rw gone (All-where_pass q xs h.1)
  ]

  pub All-update :
      (q : A → Bool) (f : A → A) (xs : List A)
      → ((x : A) → P x → P (f x))
      → All P xs
      → All P (update q f xs)
  All-update q f [] keep h = tt
  All-update q f (x ∷ xs) keep h = elim (Bool-cases (q x)) [
    | inl changed ↦ rw changed (keep x h.0, All-update q f xs keep h.1)
    | inr as_was ↦ rw as_was (h.0, All-update q f xs keep h.1)
  ]

  pub All-find : (p : A → Bool) (xs : List A) (m : A) → All P xs → find p xs ≡ some m → P m
  All-find p [] m h e = absurd (ground arith)
  All-find p (x ∷ xs) m h e = elim (Bool-cases (p x)) [
    | inl hit ↦ let same : x ≡ m = ground arith in rw same at h.0
    | inr miss ↦ All-find p xs m h.1 (rw miss at e)
  ]

  pub All-of : ((x : A) → P x) → (xs : List A) → All P xs
  All-of h [] = tt
  All-of h (x ∷ xs) = (h x, All-of h xs)

module _ {ℓ κ μ} {A : Type ℓ} (P : A → Type κ) (Q : A → Type μ) where
  pub All-map : ((x : A) → P x → Q x) → (xs : List A) → All P xs → All Q xs
  All-map f [] h = tt
  All-map f (x ∷ xs) h = (f x h.0, All-map f xs h.1)

module _ {ℓ κ μ} {A : Type ℓ} (P : A → Type κ) (Q : A → Type μ) where
  pub All-both : (xs : List A) → All P xs → All Q xs → All (λ x. P x × Q x) xs
  All-both [] h k = tt
  All-both (x ∷ xs) h k = ((h.0, k.0), All-both xs h.1 k.1)

module _ {ℓ} {A : Type ℓ} (number : A → ℕ) where
  -- A number above the largest is no row's.
  pub All-above : (k : ℕ) (xs : List A) → max_by number xs < k → All (λ x. number x < k) xs
  All-above k [] h = tt
  All-above k (x ∷ xs) h = (omega arith, All-above k xs (omega arith))
