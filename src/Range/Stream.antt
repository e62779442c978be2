-- ===== src/Range/Stream.antt =====
-- The blocks that `_range_stream` sends.
use mathlib.Core.List.{flatten}
use asset_harbor.Base.{
  ℕ, zero, suc, ◌-◌, ◌≤◌, ◌<◌, min, ◌≡◌, refl, ap, ◌∙◌, sym, List, [], ◌∷◌, ◌++◌, arith, take, drop,
  length, All, inl, inr, length-take, ◌==◌, Bool-cases,
}
use asset_harbor.Range.{ByteRange, range_blocks, range_stream}

-- Bytes `from` to `stop - 1` of a file.
abbrev pub slice : ℕ → ℕ → List ℕ → List ℕ
slice from stop file = take (stop - from) (drop from file)

take-nil : (n : ℕ) → take {A = ℕ} n [] ≡ []
take-nil zero = refl
take-nil (suc n) = refl

-- What is read, and then what is left to read, are together what was to be read.
take-rest :
    (m remaining : ℕ) (file : List ℕ)
    → m ≤ remaining
    → take m file ++ take (remaining - length (take m file)) (drop m file) ≡ take remaining file
take-rest zero remaining file h = ap (λ n. take n file) (omega arith)
take-rest (suc m) remaining [] h = take-nil (remaining - 0) ∙ sym (take-nil remaining)
take-rest (suc m) zero (x ∷ xs) h = absurd (omega arith)
take-rest (suc m) (suc r) (x ∷ xs) h =
    let e : suc r - suc (length (take m xs)) ≡ r - length (take m xs) = omega arith in
    rw e (ap (λ l. x ∷ l) (take-rest m r xs (omega arith)))

-- An empty read of a file that has bytes to send happens only at its end.
take-eq-nil :
    (m remaining : ℕ) (file : List ℕ) → 0 < m → length (take m file) ≡ 0 → take remaining file ≡ []
take-eq-nil zero remaining file p h = absurd (omega arith)
take-eq-nil (suc m) remaining [] p h = take-nil remaining
take-eq-nil (suc m) remaining (x ∷ xs) p h = absurd (omega arith)

module _ (block : ℕ) (positive : 0 < block) where
  flatten-range_blocks :
      (fuel remaining : ℕ) (file : List ℕ)
      → remaining ≤ fuel
      → flatten (range_blocks block fuel remaining file) ≡ take remaining file
  unfolding range_blocks flatten
  flatten-range_blocks zero remaining file h =
      let e : remaining ≡ 0 = omega arith in ap (λ n. take n file) (sym e)
  flatten-range_blocks (suc fuel) remaining file h =
      let m = min block remaining in
      let rest = remaining - length (take m file) in
      elim (Bool-cases (remaining == 0)) [
        | inl done ↦ let e : remaining ≡ 0 = ground arith in rw done (ap (λ n. take n file) (sym e))
        | inr more ↦ elim (Bool-cases (length (take m file) == 0)) [
          | inl ended ↦
              rw (more, ended) (sym (take-eq-nil m remaining file (ground arith) (ground arith)))
          | inr sent ↦
              rw (more, sent)
                (ap (λ l. take m file ++ l)
                    (flatten-range_blocks fuel rest (drop m file) (ground arith))
                  ∙ take-rest m remaining file (omega arith))
        ]
      ]

  range_blocks_bounded :
      (fuel remaining : ℕ) (file : List ℕ)
      → All
          (λ sent. (0 < length sent) × (length sent ≤ block))
          (range_blocks block fuel remaining file)
  unfolding range_blocks
  range_blocks_bounded zero remaining file = tt
  range_blocks_bounded (suc fuel) remaining file =
      let m = min block remaining in
      let ih = range_blocks_bounded fuel (remaining - length (take m file)) (drop m file) in
      let size = length-take m file in
      elim (Bool-cases (remaining == 0)) [
        | inl done ↦ rw done tt
        | inr more ↦ elim (Bool-cases (length (take m file) == 0)) [
          | inl ended ↦ rw (more, ended) tt
          | inr sent ↦ rw (more, sent) ((ground arith, omega arith), ih)
        ]
      ]

-- The blocks that are sent for a range are, joined, the bytes of the file from its start up to its
-- end, and each of them has between 1 and 262144 bytes.
pub range_stream-slice :
    (file : List ℕ) (r : ByteRange)
    → (flatten (range_stream file r) ≡ slice r.start r.stop file)
      × All (λ sent. (0 < length sent) × (length sent ≤ 262144)) (range_stream file r)
unfolding range_stream
range_stream-slice file r =
    let remaining = r.stop - r.start in
    (
      flatten-range_blocks 262144 (omega arith) remaining remaining (drop r.start file)
          (omega arith),
      range_blocks_bounded 262144 (omega arith) remaining remaining (drop r.start file),
    )
