-- ===== src/Chunks/Tiling.antt =====
-- Where the parts of an upload lie in its file.
use asset_harbor.Base.{
  ℕ, suc, ◌+◌, ◌-◌, ◌*◌, ◌≤◌, ◌<◌, min, max, ◌≡◌, refl, arith, ok, err, http, ltb, leb, ◌==◌, ◌⊎◌,
  if◌then◌else◌, ◌≢◌, ap, ok-injective, Bool-cases, inl, inr,
}
use asset_harbor.Model.{UploadSession, ℤ, pos, negsuc}
use asset_harbor.Chunks.{ceil_div, expected_part, part_peak_growth}

-- What `create_upload_session` establishes of a row and nothing changes.
pub record IsChunked (u : UploadSession) : Type 0 where
  pub sized : 0 < u.size
  pub chunked : 0 < u.chunk_size
  pub counted : u.total_parts ≡ ceil_div u.size u.chunk_size

-- Where part `n` starts, and where the last one ends.
abbrev pub boundary : UploadSession → ℕ → ℕ
boundary u n = if n == u.total_parts then u.size else n * u.chunk_size

ceil_div_lt : (size chunk n : ℕ) → 0 < chunk → n < ceil_div size chunk → n * chunk < size
ceil_div_lt size chunk n p h = grind arith

ceil_div_last : (size chunk n : ℕ) → 0 < chunk → suc n ≡ ceil_div size chunk → size ≤ suc n * chunk
ceil_div_last size chunk n p h = grind arith

part_end :
    (u : UploadSession) (n : ℕ)
    → IsChunked u
    → n < u.total_parts
    → n * u.chunk_size + min u.chunk_size (u.size - n * u.chunk_size) ≡ boundary u (suc n)
part_end u n c h = elim (Bool-cases (suc n == u.total_parts)) [
  | inl last ↦
      let covers = ceil_div_last u.size u.chunk_size n c.chunked (ground (arith, c.counted)) in
      let starts = ceil_div_lt u.size u.chunk_size n c.chunked (ground (arith, c.counted)) in
      rw last (omega arith)
  | inr more ↦
      let starts = ceil_div_lt u.size u.chunk_size (suc n) c.chunked (ground (arith, c.counted)) in
      rw more (omega arith)
]

pub expected_part-pos :
    (u : UploadSession) (n : ℕ)
    → IsChunked u
    → ((n < u.total_parts)
        × (size : ℕ) × (expected_part u (pos n) ≡ ok (n * u.chunk_size, size))
        × (0 < size)
        × (size ≤ u.chunk_size)
        × (n * u.chunk_size + size ≡ boundary u (suc n)))
      ⊎ ((u.total_parts ≤ n) × (expected_part u (pos n) ≡ err (http 416)))
unfolding expected_part
expected_part-pos u n c = elim (Bool-cases (leb u.total_parts n)) [
  | inl outside ↦ inr (ground arith, rw outside)
  | inr inside ↦
      let h : n < ceil_div u.size u.chunk_size = ground (arith, c.counted) in
      let starts = ceil_div_lt u.size u.chunk_size n c.chunked h in
      inl (
        ground arith,
        min u.chunk_size (u.size - n * u.chunk_size),
        rw inside,
        ground arith,
        ground arith,
        part_end u n c (ground arith),
      )
]

-- Where the part of an integer lies: a number below `total_parts` is that of a part.
abbrev pub IsPlaced : UploadSession → ℤ → ℕ → Type 0
IsPlaced u k n =
    (k ≡ pos n)
    × (n < u.total_parts)
    × (size : ℕ) × (expected_part u k ≡ ok (n * u.chunk_size, size))
    × (0 < size)
    × (size ≤ u.chunk_size)
    × (n * u.chunk_size + size ≡ boundary u (suc n))

-- Every part number below `total_parts` has a part, which is not empty, is at most a chunk long,
-- starts where the part before it ends and ends where the next one starts, the last one at the end
-- of the file; every other integer, the negative ones included, is refused with 416.
pub expected_part_tiles :
    (u : UploadSession) (k : ℤ)
    → IsChunked u
    → ((n : ℕ) × IsPlaced u k n)
      ⊎ ((expected_part u k ≡ err (http 416)) × ((n : ℕ) → k ≡ pos n → u.total_parts ≤ n))
unfolding expected_part
expected_part_tiles u (negsuc m) c = inr (refl, λ n e. absurd cc)
expected_part_tiles u (pos n) c = elim (expected_part-pos u n c) [
  | inl (inside, size, e, positive, long, end) ↦
      inl (n, (refl, inside, size, e, positive, long, end))
  | inr (outside, e) ↦ inr (e, λ m same. let k : n ≡ m = cc in omega arith)
]

-- The space that is reserved for a part covers its temporary copy and any growth of the target
-- file, at least one chunk's worth even where the file is sparse.
pub part_peak_growth_covers :
    (size offset current : ℕ)
    → (size + max current (offset + size) ≤ current + part_peak_growth size offset current)
      × (size + size ≤ part_peak_growth size offset current)
unfolding part_peak_growth
part_peak_growth_covers size offset current = (omega arith, omega arith)

pub expected_part-place :
    (u : UploadSession) (n offset size : ℕ)
    → expected_part u (pos n) ≡ ok (offset, size)
    → (offset ≡ n * u.chunk_size) × (size ≤ u.chunk_size)
unfolding expected_part
expected_part-place u n offset size e = elim (Bool-cases (leb u.total_parts n)) [
  | inl outside ↦ absurd (let f = rw (outside, expected_part) at e in cc)
  | inr inside ↦
      let f = ok-injective (rw (inside, expected_part) at e) in
      let o : n * u.chunk_size ≡ offset = ap (λ x. x.0) f in
      let z : min u.chunk_size (u.size - n * u.chunk_size) ≡ size = ap (λ x. x.1) f in
      (omega arith, omega arith)
]

later_offset : (n k chunk : ℕ) → n < k → n * chunk + chunk ≤ k * chunk
later_offset n k chunk h = grind arith

-- Two different parts do not overlap.
pub expected_part-apart :
    (u : UploadSession) (n k offset size offset' size' : ℕ)
    → n ≢ k
    → expected_part u (pos n) ≡ ok (offset, size)
    → expected_part u (pos k) ≡ ok (offset', size')
    → (offset + size ≤ offset') ⊎ (offset' + size' ≤ offset)
expected_part-apart u n k offset size offset' size' differ e f =
    let (o, z) = expected_part-place u n offset size e in
    let (o', z') = expected_part-place u k offset' size' f in
    elim (Bool-cases (ltb n k)) [
      | inl before ↦ let gap = later_offset n k u.chunk_size (ground arith) in inl (omega arith)
      | inr behind ↦
          let less : k < n = elim (Bool-cases (n == k)) [
            | inl same ↦ absurd (differ (ground arith))
            | inr other ↦ ground arith
          ] in
          let gap = later_offset k n u.chunk_size less in inr (omega arith)
    ]
