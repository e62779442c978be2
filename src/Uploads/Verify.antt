-- ===== src/Uploads/Verify.antt =====
-- The reading of the file without a lock in `complete_upload_session`, and
-- `calculate_quick_fingerprint`, of app/services/videos.py. The file is read as one piece.
pub mod Whole
use asset_harbor.Base.{
  ℕ, zero, suc, ◌+◌, ◌-◌, ◌/◌, ◌%◌, min, String, not, Option, [], ◌∷◌, ◌++◌, Result, ok, http,
  ◌>>=◌, ◌>>◌, raise_if, or_raise, ltb, if◌then◌else◌, take,
}
use mathlib.Core.List.{reverse}
use asset_harbor.Base.Text.{Text, text_eq}
use asset_harbor.Sniff.{Bytes, detect_video_type}
use asset_harbor.Uploads.Bytes.{region}
use asset_harbor.Uploads.Parts.{verify_parts_and_sha256}
use asset_harbor.Uploads.Begin.{Claim}

-- What the unlocked reading finds.
pub record Verified : Type 0 where
  pub content_type : String
  pub extension : String
  pub sha256 : Text

-- The decimal digits of a number, least significant first.
pub decimal_digits : ℕ → ℕ → Text
decimal_digits zero n = []
decimal_digits (suc fuel) n =
    let rest = decimal_digits fuel (n / 10) in
    if ltb n 10 then (b'0' + n) ∷ [] else (b'0' + n % 10) ∷ rest

-- `str(n)`; a number has no more digits than its own value, or the one digit of zero.
unfoldable pub decimal : ℕ → Text
unfolding decimal_digits
decimal n = reverse (decimal_digits (suc n) n)

-- `_SAMPLE_SIZE`
abbrev pub sample_size : ℕ
sample_size = 1048576

module _ (digest_of : Bytes → Text) where
  -- The digest of one sample.
  abbrev pub sample : Bytes → ℕ → ℕ → Text
  sample file size offset = digest_of (region offset (min sample_size (size - offset)) file)

  -- `calculate_quick_fingerprint`
  unfoldable pub calculate_quick_fingerprint : Bytes → ℕ → Text
  calculate_quick_fingerprint file size = digest_of (
      decimal size
      ++ (b':' ∷ sample file size 0)
      ++ (b':' ∷ sample file size (size / 2 - sample_size / 2))
      ++ (b':' ∷ sample file size (size - sample_size)))

  -- What is read without a lock: the type, the fingerprint and the digests.
  unfoldable pub verify_source : Option Bytes → Claim → Result Verified
  verify_source source claim = do
    file ← or_raise source (http 404)
    detected ← or_raise (detect_video_type (take (min claim.expected_size 65536) file)) (http 415)
    raise_if
        (not (
          text_eq (calculate_quick_fingerprint file claim.expected_size)
            claim.expected_fingerprint))
        (http 409)
    digest ← verify_parts_and_sha256 digest_of file claim.parts
    ok (record { content_type = detected.0; extension = detected.1; sha256 = digest })
