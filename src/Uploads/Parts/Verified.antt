-- ===== src/Uploads/Parts/Verified.antt =====
-- The verification of a finished upload against its recorded parts.
use asset_harbor.Base.{
  ℕ, zero, suc, ◌+◌, ◌-◌, ◌≤◌, ◌≡◌, refl, sym, ap, ◌∙◌, List, [], ◌∷◌, ◌++◌, arith, ok,
  ok-injective, ltb, length, take, drop, length-take, All, Bool-cases, inl, inr,
}
use asset_harbor.Base.Text.{Text, text_eq, text_eq_iff}
use mathlib.Core.List.{append_assoc, append-nil}
use asset_harbor.Model.{UploadPart}
use asset_harbor.Sniff.{Bytes}
use asset_harbor.Uploads.Bytes.{region, take_all}
use asset_harbor.Uploads.Parts.{verify_from, verify_parts_and_sha256}

-- The parts follow each other without a gap from one offset to another.
abbrev pub Tiles : ℕ → List UploadPart → ℕ → Type 0
Tiles from [] stop = from ≡ stop
Tiles from (p ∷ parts) stop = (p.offset ≡ from) × Tiles (from + p.size) parts stop

Tiles-le : (from : ℕ) (parts : List UploadPart) (stop : ℕ) → Tiles from parts stop → from ≤ stop
Tiles-le from [] stop t = omega arith
Tiles-le from (p ∷ parts) stop t = omega (arith, Tiles-le (from + p.size) parts stop t.1)

take-nil : (k : ℕ) → take {A = ℕ} k [] ≡ []
take-nil zero = refl
take-nil (suc k) = refl

take-split : (a b : ℕ) (l : List ℕ) → take a l ++ take b (drop a l) ≡ take (a + b) l
take-split zero b l = ap (λ n. take n l) (omega arith)
take-split (suc a) b [] = take-nil b ∙ sym (take-nil (suc a + b))
take-split (suc a) b (x ∷ l) =
    let e : suc a + b ≡ suc (a + b) = omega arith in rw e (ap (λ r. x ∷ r) (take-split a b l))

drop-nil : (k : ℕ) → drop {A = ℕ} k [] ≡ []
drop-nil zero = refl
drop-nil (suc k) = refl

drop-drop : (n a : ℕ) (l : List ℕ) → drop (n + a) l ≡ drop a (drop n l)
drop-drop zero a l = ap (λ n. drop n l) (omega arith)
drop-drop (suc n) a [] = drop-nil (suc n + a) ∙ sym (drop-nil a)
drop-drop (suc n) a (x ∷ l) =
    let e : suc n + a ≡ suc (n + a) = omega arith in rw e (drop-drop n a l)

-- Two regions, one after the other, are one.
region-split :
    (from a b : ℕ) (file : List ℕ)
    → region from a file ++ region (from + a) b file ≡ region from (a + b) file
region-split from a b file =
    ap (λ l. take a (drop from file) ++ take b l) (drop-drop from a file)
    ∙ take-split a b (drop from file)

module _ (sha256 : Bytes → Text) where
  -- The part is in the file as a whole, with the digest of its row.
  abbrev pub IsVerified : Bytes → UploadPart → Type 0
  IsVerified file p =
      (length (region p.offset p.size file) ≡ p.size)
      × (sha256 (region p.offset p.size file) ≡ p.sha256)

  verify_from-ok :
      (file whole : Bytes) (from stop : ℕ) (parts : List UploadPart) (digest : Text)
      → Tiles from parts stop
      → verify_from sha256 file parts whole ≡ ok digest
      → All (IsVerified file) parts × (digest ≡ sha256 (whole ++ region from (stop - from) file))
  unfolding verify_from
  verify_from-ok file whole from stop [] digest t e =
      let none_left : stop - from ≡ 0 = omega (arith, t) in
      (tt, rw none_left (sym (ok-injective e) ∙ ap sha256 (sym (append-nil whole))))
  verify_from-ok file whole from stop (p ∷ parts) digest t e =
      elim (Bool-cases (ltb (length (region p.offset p.size file)) p.size)) [
        | inl short ↦ absurd (let f = rw (short, verify_from) at e in cc)
        | inr full ↦ elim (Bool-cases (text_eq (sha256 (region p.offset p.size file)) p.sha256)) [
          | inr other ↦ absurd (let f = rw (full, other, verify_from) at e in cc)
          | inl same ↦
              let f = rw (full, same, verify_from) at e in
              let (verified, whole_digest) =
                verify_from-ok file (whole ++ region p.offset p.size file) (from + p.size) stop
                  parts digest t.1 f in
              let reaches = Tiles-le (from + p.size) parts stop t.1 in
              let left : p.size + (stop - (from + p.size)) ≡ stop - from = omega arith in
              let joined : region p.offset p.size file
                    ++ region (from + p.size) (stop - (from + p.size)) file
                  ≡ region from (stop - from) file =
                rw (t.0) (
                  region-split from p.size (stop - (from + p.size)) file
                  ∙ ap (λ n. region from n file) left) in
              (
                (
                  (
                    let l = length-take p.size (drop p.offset file) in ground arith,
                    (text_eq_iff (sha256 (region p.offset p.size file)) p.sha256).0 same,
                  ),
                  verified,
                ),
                whole_digest
                    ∙ ap sha256 (
                        append_assoc whole (region p.offset p.size file) _
                        ∙ ap (λ l. whole ++ l) joined),
              )
        ]
      ]

  -- Where verification of parts that follow each other from the start of the file to its end
  -- succeeds, every part is in the file with its digest, and the result is the digest of the file.
  pub verify_parts_and_sha256-file :
      (file : Bytes) (parts : List UploadPart) (digest : Text)
      → Tiles 0 parts (length file)
      → verify_parts_and_sha256 sha256 file parts ≡ ok digest
      → All (IsVerified file) parts × (digest ≡ sha256 file)
  unfolding verify_parts_and_sha256
  verify_parts_and_sha256-file file parts digest t e =
      let (verified, result) = verify_from-ok file [] 0 (length file) parts digest t e in
      let whole : length file - 0 ≡ length file = omega arith in
      (verified, result ∙ ap (λ n. sha256 (take n file)) whole ∙ ap sha256 (take_all file))
