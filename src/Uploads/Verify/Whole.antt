-- ===== src/Uploads/Verify/Whole.antt =====
-- A completion that begins, and what it reads of the file.
use asset_harbor.Base.{
  ℕ, suc, ◌+◌, ◌*◌, ◌<◌, min, true, not, ◌||◌, ◌≡◌, refl, sym, subst, ap, ◌∙◌, Option, none, some,
  List, [], ◌∷◌, ok, http, arith, length, take, All, ◌==◌, inl, inr, >>=-eq-ok, raise_if-eq-ok,
  ok-injective, or_raise-eq-ok, raise_if, or_raise,
}
use asset_harbor.Base.Text.{Text, text_eq, text_eq_iff}
use asset_harbor.Model.{UploadSession, UploadPart, Principal, pos}
use asset_harbor.Access.{check_team_access}
use asset_harbor.Chunks.{expected_part, ceil_div}
use asset_harbor.Chunks.Tiling.{IsChunked, boundary, expected_part-pos}
use asset_harbor.Sniff.{Bytes, detect_video_type, video_extension}
use asset_harbor.Sniff.Types.{detect_video_type-extension}
use asset_harbor.Uploads.Parts.{verify_parts_and_sha256, is_active}
use asset_harbor.Uploads.Parts.Verified.{Tiles, IsVerified, verify_parts_and_sha256-file}
use asset_harbor.Uploads.Cancel.{Library}
use asset_harbor.Uploads.Begin.{Claim, parts_of, numbered_from, check_parts, check_active, size_is}
use asset_harbor.Uploads.Verify.{Verified, verify_source, calculate_quick_fingerprint}

-- One part of those that are checked, at its place.
check_parts-head :
    (u : UploadSession) (p : UploadPart) (parts : List UploadPart)
    → check_parts u (p ∷ parts) ≡ ok tt
    → (expected_part u (pos p.part_number) ≡ ok (p.offset, p.size)) × (check_parts u parts ≡ ok tt)
unfolding check_parts
check_parts-head u p parts e =
    let (expected, numbered, e1) = >>=-eq-ok (expected_part u (pos p.part_number)) _ e in
    let (_, placed, e2) =
      >>=-eq-ok (raise_if (not (p.offset == expected.0) || not (p.size == expected.1)) (http 409)) _
        e1 in
    let same = raise_if-eq-ok _ _ placed in
    let offset : expected.0 ≡ p.offset = ground arith in
    let size : expected.1 ≡ p.size = ground arith in
    (numbered ∙ ap (λ o. ok (o, expected.1)) offset ∙ ap (λ z. ok (p.offset, z)) size, e2)

-- Parts that are numbered without a gap up to the last one tile the file.
covered :
    (u : UploadSession) (n : ℕ) (parts : List UploadPart)
    → IsChunked u
    → numbered_from n parts ≡ true
    → check_parts u parts ≡ ok tt
    → n + length parts ≡ u.total_parts
    → Tiles (boundary u n) parts u.size
unfolding numbered_from
covered u n [] chunked numbered checked counted = ground arith
covered u n (p ∷ parts) chunked numbered checked counted =
    let (here, rest) = check_parts-head u p parts checked in
    let is_n : p.part_number ≡ n = ground arith in
    elim (expected_part-pos u n chunked) [
      | inr (outside, e) ↦ absurd (omega arith)
      | inl (inside, size, e, positive, long, next) ↦
          let both : (n * u.chunk_size, size) ≡ (p.offset, p.size) =
            ok-injective (sym e ∙ ap (λ k. expected_part u (pos k)) (sym is_n) ∙ here) in
          let start : n * u.chunk_size ≡ p.offset = ap (λ x. x.0) both in
          let length_ : size ≡ p.size = ap (λ x. x.1) both in
          let at : boundary u n ≡ n * u.chunk_size = ground arith in
          let after : boundary u n + p.size ≡ boundary u (suc n) = omega arith in
          let ih = covered u (n + 1) parts chunked (ground arith) rest (omega arith) in
          let one : n + 1 ≡ suc n = omega arith in
          (
            sym start ∙ sym at,
            subst (λ k. Tiles k parts u.size) (ap (boundary u) one ∙ sym after) ih,
          )
    ]

ceil_div_positive : (size chunk : ℕ) → 0 < size → 0 < chunk → 0 < ceil_div size chunk
ceil_div_positive size chunk p q = grind arith

boundary-first : (u : UploadSession) → IsChunked u → boundary u 0 ≡ 0
boundary-first u chunked =
    let some_part = ceil_div_positive u.size u.chunk_size chunked.sized chunked.chunked in
    let counted = chunked.counted in ground arith

-- What the first phase has checked of the file and the parts.
record IsClaim (s : Library) (u : UploadSession) (claim : Claim) : Type 0 where
  file : Bytes
  stored : s.part_files u.upload_id ≡ some file
  size : length file ≡ u.size
  tiled : Tiles 0 claim.parts (length file)
  expected : claim.expected_size ≡ u.size
  fingerprint : claim.expected_fingerprint ≡ u.fingerprint

size_is-file :
    (o : Option Bytes) (size : ℕ)
    → size_is o size ≡ true
    → (file : Bytes) × (o ≡ some file) × (length file ≡ size)
size_is-file none size h = cc
size_is-file (some file) size h = (file, refl, ground arith)

check_active-IsClaim :
    (s : Library) (u : UploadSession) (user : Principal) (claim : Claim)
    → IsChunked u
    → check_active s u user ≡ ok claim
    → IsClaim s u claim
unfolding check_active
check_active-IsClaim s u user claim chunked e =
    let (_, active, e1) = >>=-eq-ok (raise_if (not (is_active u.status)) (http 409)) _ e in
    let (_, member, e2) = >>=-eq-ok (check_team_access s.db u.team_id user) _ e1 in
    let parts = parts_of s.db u.upload_id in
    let (_, all, e3) =
      >>=-eq-ok
        (raise_if (not (length parts == u.total_parts) || not (numbered_from 0 parts)) (http 409)) _
        e2 in
    let (_, checked, e4) = >>=-eq-ok (check_parts u parts) _ e3 in
    let (_, sized, e5) =
      >>=-eq-ok (raise_if (not (size_is (s.part_files u.upload_id) u.size)) (http 409)) _ e4 in
    let claimed = ok-injective e5 in
    let complete = raise_if-eq-ok _ _ all in
    let exact = raise_if-eq-ok _ _ sized in
    let (file, stored, size) = size_is-file (s.part_files u.upload_id) u.size (ground arith) in
    let tiles : Tiles (boundary u 0) parts u.size =
      covered u 0 parts chunked (ground arith) checked (ground arith) in
    record {
      file = file;
      stored = stored;
      size = size;
      tiled =
          subst (λ (c : Claim). Tiles 0 c.parts (length file)) claimed
            (subst (λ k. Tiles k parts (length file)) (boundary-first u chunked)
              (subst (λ k. Tiles (boundary u 0) parts k) (sym size) tiles));
      expected = sym (ap (λ (c : Claim). c.expected_size) claimed);
      fingerprint = sym (ap (λ (c : Claim). c.expected_fingerprint) claimed);
    }

module _ (digest_of : Bytes → Text) where
  -- The file that was read: every byte of it belongs to a part with the part's digest.
  pub record IsWhole (s : Library) (u : UploadSession) (claim : Claim) (v : Verified) : Type 0 where
    pub file : Bytes
    pub stored : s.part_files u.upload_id ≡ some file
    pub size : length file ≡ u.size
    pub tiled : Tiles 0 claim.parts (length file)
    pub parts : All (IsVerified digest_of file) claim.parts
    pub digest : v.sha256 ≡ digest_of file
    pub fingerprint : calculate_quick_fingerprint digest_of file u.size ≡ u.fingerprint
    pub listed : video_extension v.content_type ≡ some v.extension

  -- A completion that begins with an active session and whose reading of the file succeeds has read
  -- the whole upload: the file has the size that was announced, its parts follow each other from its
  -- start to its end and have the digests of their rows, the digest is that of all the bytes, the
  -- fingerprint is the one that was announced, and the type has an extension in the table.
  pub verify_source-IsWhole :
      (s : Library) (u : UploadSession) (user : Principal) (claim : Claim) (v : Verified)
      → IsChunked u
      → check_active s u user ≡ ok claim
      → verify_source digest_of (s.part_files u.upload_id) claim ≡ ok v
      → IsWhole s u claim v
  unfolding verify_source
  verify_source-IsWhole s u user claim v chunked begun e =
      let c = check_active-IsClaim s u user claim chunked begun in
      let (file, opened, e1) = >>=-eq-ok (or_raise (s.part_files u.upload_id) (http 404)) _ e in
      let there = or_raise-eq-ok (s.part_files u.upload_id) (http 404) opened in
      let same : file ≡ c.file = let h : some file ≡ some c.file = sym there ∙ c.stored in cc in
      let (detected, known, e2) =
        >>=-eq-ok
          (or_raise (detect_video_type (take (min claim.expected_size 65536) file)) (http 415)) _
          e1 in
      let (_, printed, e3) =
        >>=-eq-ok
          (raise_if
            (not (
              text_eq (calculate_quick_fingerprint digest_of file claim.expected_size)
                claim.expected_fingerprint))
            (http 409))
          _ e2 in
      let (digest, read, e4) =
        >>=-eq-ok (verify_parts_and_sha256 digest_of file claim.parts) _ e3 in
      let made = ok-injective e4 in
      let sniffed =
        or_raise-eq-ok (detect_video_type (take (min claim.expected_size 65536) file)) (http 415)
          known in
      let equal = raise_if-eq-ok _ _ printed in
      let tiled = subst (λ f. Tiles 0 claim.parts (length f)) (sym same) c.tiled in
      let (verified, whole) =
        verify_parts_and_sha256-file digest_of file claim.parts digest tiled read in
      record {
        file = file;
        stored = there;
        size = ap (λ f. length f) same ∙ c.size;
        tiled = tiled;
        parts = verified;
        digest = sym (ap (λ (x : Verified). x.sha256) made) ∙ whole;
        fingerprint =
            ap (calculate_quick_fingerprint digest_of file) (sym c.expected)
            ∙ (text_eq_iff _ _).0 (ground arith)
            ∙ c.fingerprint;
        listed =
            subst (λ (x : Verified). video_extension x.content_type ≡ some x.extension) made
              (detect_video_type-extension _ detected.0 detected.1 sniffed);
      }
