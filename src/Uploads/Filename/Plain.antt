-- ===== src/Uploads/Filename/Plain.antt =====
-- Which characters a cleaned file name is free of.
use asset_harbor.Base.{
  ℕ, ◌≡◌, refl, ◌≤◌, true, false, not, [], ◌∷◌, ◌++◌, arith, ◌==◌, if◌then◌else◌, length, take, map,
  where_, All, All-append, All-where_, All-where_pass, All-of, All-both, length-take, Bool-cases,
  inl, inr, zero, suc, ◌<◌, ◌≢◌,
}
use asset_harbor.Base.Text.{Text, codes, strip, lstrip, rstrip, is_space}
use asset_harbor.Uploads.Filename.{or_text, last_segment, is_control, safe_filename}

module _ (P : ℕ → Type 0) where
  All-take : (n : ℕ) (s : Text) → All P s → All P (take n s)
  All-take zero s h = tt
  All-take (suc n) [] h = tt
  All-take (suc n) (c ∷ s) h = (h.0, All-take n s h.1)

  All-lstrip : (s : Text) → All P s → All P (lstrip s)
  All-lstrip [] h = tt
  All-lstrip (c ∷ s) h = elim (Bool-cases (is_space c)) [
    | inl space ↦ rw space (All-lstrip s h.1)
    | inr other ↦ rw other h
  ]

  rstrip_step :
      (c : ℕ) (r : Text)
      → P c
      → All P r
      → All P (elim r [ [] ↦ if is_space c then [] else c ∷ [] | d ∷ t ↦ c ∷ d ∷ t ])
  rstrip_step c [] p h = elim (Bool-cases (is_space c)) [
    | inl space ↦ rw space tt
    | inr other ↦ rw other (p, tt)
  ]
  rstrip_step c (d ∷ t) p h = (p, h)

  All-rstrip : (s : Text) → All P s → All P (rstrip s)
  All-rstrip [] h = tt
  All-rstrip (c ∷ s) h = rstrip_step c (rstrip s) h.0 (All-rstrip s h.1)

  All-or_text : (s t : Text) → All P s → All P t → All P (or_text s t)
  All-or_text [] t h k = k
  All-or_text (c ∷ s) t h k = h

-- Neither `/` nor `\`.
abbrev pub IsSegment : ℕ → Type 0
IsSegment c = (c == b'/' ≡ false) × (c == b'\\' ≡ false)

last_segment-IsSegment :
    (seg s : Text)
    → All IsSegment seg
    → All (λ c. c == b'\\' ≡ false) s
    → All IsSegment (last_segment seg s)
unfolding last_segment
last_segment-IsSegment seg [] h k = h
last_segment-IsSegment seg (c ∷ s) h k = elim (Bool-cases (c == b'/')) [
  | inl slash ↦ rw slash (last_segment-IsSegment [] s tt k.1)
  | inr other ↦ rw other (
      last_segment-IsSegment (seg ++ (c ∷ [])) s
        (All-append IsSegment seg (c ∷ []) h ((other, k.0), tt)) k.1)
]

slashed : (s : Text) → All (λ c. c == b'\\' ≡ false) (map (λ c. if c == b'\\' then b'/' else c) s)
slashed [] = tt
slashed (c ∷ s) = (ground arith, slashed s)

-- A character that is printable in ASCII, or beyond it: neither below U+0020 nor U+007F.
abbrev pub IsPrintable : ℕ → Type 0
IsPrintable c = (32 ≤ c) × (c ≢ 127)

is_control-IsPrintable : (c : ℕ) → not (is_control c) ≡ true → IsPrintable c
unfolding is_control
is_control-IsPrintable c h = (ground arith, ground arith)

-- No separator and no control character of ASCII.
abbrev pub IsPlain : Text → Type 0
IsPlain s = All (λ c. IsSegment c × IsPrintable c) s

default-IsPlain : IsPlain (codes "video")
default-IsPlain = (
  ((refl, refl), (omega arith, ground arith)),
  (
    ((refl, refl), (omega arith, ground arith)),
    (
      ((refl, refl), (omega arith, ground arith)),
      (
        ((refl, refl), (omega arith, ground arith)),
        (((refl, refl), (omega arith, ground arith)), tt),
      ),
    ),
  ),
)

or_text_bounds :
    (s : Text)
    → length s ≤ 255
    → (0 < length (or_text s (codes "video"))) × (length (or_text s (codes "video")) ≤ 255)
or_text_bounds [] h = (omega arith, omega arith)
or_text_bounds (c ∷ s) h = (omega arith, h)

-- Whatever name a client sends, the stored one has neither `/` nor `\`, no character below U+0020 and
-- no U+007F, and has 1 to 255 characters.
pub safe_filename-IsPlain :
    (s : Text)
    → IsPlain (safe_filename s) × (0 < length (safe_filename s)) × (length (safe_filename s) ≤ 255)
unfolding safe_filename
safe_filename-IsPlain s =
    let source = map (λ c. if c == b'\\' then b'/' else c) (or_text s (codes "video")) in
    let segment = last_segment [] source in
    let plain =
      All-both IsSegment IsPrintable (where_ (λ c. not (is_control c)) segment)
        (All-where_ IsSegment (λ c. not (is_control c)) segment
          (last_segment-IsSegment [] source tt (slashed (or_text s (codes "video")))))
        (All-where_pass IsPrintable (λ c. not (is_control c)) segment
          (All-of (λ c. not (is_control c) ≡ true → IsPrintable c) is_control-IsPrintable
            segment)) in
    let cleaned = strip (where_ (λ c. not (is_control c)) segment) in
    let P = λ (c : ℕ). IsSegment c × IsPrintable c in
    (
      All-or_text P (take 255 cleaned) (codes "video")
          (All-take P 255 cleaned (
            All-rstrip P (lstrip (where_ (λ c. not (is_control c)) segment))
              (All-lstrip P (where_ (λ c. not (is_control c)) segment) plain)))
          default-IsPlain,
      (or_text_bounds (take 255 cleaned) (omega (arith, length-take 255 cleaned))).0,
      (or_text_bounds (take 255 cleaned) (omega (arith, length-take 255 cleaned))).1,
    )
