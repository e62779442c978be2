-- ===== src/Sniff/Boxes.antt =====
-- The loop over the boxes of a file and its fuel.
use asset_harbor.Base.{
  ℕ, zero, suc, ◌+◌, ◌≤◌, ◌<◌, min, ◌≡◌, sym, ◌∙◌, ◌&&◌, ◌||◌, some, List, [], ◌∷◌, arith, ltb, leb,
  length, take, drop, Bool-cases, inl, inr, ap,
}
use asset_harbor.Base.Text.{codes, text_eq}
use asset_harbor.Sniff.{Bytes, slice, quads, box_at, bmff_from, bmff_brands, or_empty}

-- A header is 8 or 16 bytes long.
box_at-header : (s : Bytes) (limit offset : ℕ) → 8 ≤ (box_at s limit offset).1
unfolding box_at
box_at-header s limit offset = ground arith

bmff_from-some :
    (fuel : ℕ) (s : Bytes) (limit offset : ℕ)
    → 0 < fuel
    → limit < fuel + offset
    → (brands : List Bytes) × (bmff_from fuel s limit offset ≡ some brands)
unfolding bmff_from
bmff_from-some zero s limit offset p h = absurd (omega arith)
bmff_from-some (suc fuel) s limit offset p h =
    let box = box_at s limit offset in
    let header = box_at-header s limit offset in
    let payload = slice (offset + box.1) (offset + box.0) s in
    elim (Bool-cases (leb (offset + 8) limit)) [
      | inr ended ↦ ([], rw ended)
      | inl room ↦ elim (Bool-cases (ltb box.0 box.1 || ltb limit (offset + box.0))) [
        | inl broken ↦ ([], rw (room, broken))
        | inr whole ↦
            elim (Bool-cases (
              text_eq (slice (offset + 4) (offset + 8) s) (codes "ftyp")
              && leb (box.1 + 8) box.0)) [
                | inl brands ↦ (take 4 payload ∷ quads (drop 8 payload), rw (room, whole, brands))
                | inr other ↦
                    let (l, found) =
                      bmff_from-some fuel s limit (offset + box.0) (ground arith) (ground arith) in
                    (l, rw (room, whole, other) found)
              ]
      ]
    ]

-- The loop ends for every file: with fuel for the bytes that it looks at it returns a list of
-- brands, which is the result of `bmff_brands`.
pub bmff_brands-ends :
    (s : Bytes)
    → bmff_from (suc (min (length s) 65536)) s (min (length s) 65536) 0 ≡ some (bmff_brands s)
unfolding bmff_brands
bmff_brands-ends s =
    let limit = min (length s) 65536 in
    let (l, found) = bmff_from-some (suc limit) s limit 0 (omega arith) (omega arith) in
    found ∙ ap (λ b. some (or_empty b)) (sym found)
