-- ===== src/Uploads/Complete/Dumped.antt =====
-- The recovery metadata that the second phase writes, and its validation.
use asset_harbor.Base.{ℕ, Bool, true, false, ◌≡◌, refl, some, ok, length, ==-refl}
use asset_harbor.Base.Text.{Text, text_eq_refl}
use asset_harbor.Chunks.{is_sha256}
use asset_harbor.Sniff.{video_extension}
use asset_harbor.Uploads.Recovery.{
  validated_finalizing_info, expected_relative, all_base62, scope_of,
}
use asset_harbor.Uploads.Verify.{Verified}
use asset_harbor.Uploads.Complete.{final_info, dumped, scope_name}

scope_of-scope_name : (admin : Bool) → scope_of (some (scope_name admin)) ≡ ok admin
unfolding scope_of
scope_of-scope_name true = refl
scope_of-scope_name false = refl

-- What is found by reading the file, as the code establishes it: the type is one of the table's and
-- the digest is hexadecimal.
pub record IsFound (v : Verified) : Type 0 where
  pub listed : video_extension v.content_type ≡ some v.extension
  pub digest : is_sha256 v.sha256 ≡ true

-- A short code of the length that is configured.
pub record IsCode (code_length : ℕ) (code : Text) : Type 0 where
  pub letters : all_base62 code ≡ true
  pub long : length code ≡ code_length

-- The metadata that the second phase writes for a type of the table, a hexadecimal digest and a short
-- code of the configured length reads back as the same code, type, digest, destination and scope,
-- where the destination resolves to a path in the directory of files.
pub validated_finalizing_info-dumped :
    (code_length : ℕ) (inside : Text → Bool) (v : Verified) (admin : Bool) (code : Text)
    → IsFound v
    → IsCode code_length code
    → inside (expected_relative code v.extension) ≡ true
    → validated_finalizing_info code_length inside (dumped (final_info v admin code))
      ≡ ok (final_info v admin code)
unfolding validated_finalizing_info
validated_finalizing_info-dumped n inside v admin code found coded resolves =
    rw
      (
        scope_of-scope_name admin,
        coded.long,
        ==-refl n,
        coded.letters,
        found.digest,
        found.listed,
        text_eq_refl (expected_relative code v.extension),
        resolves,
      )
      refl
