-- ===== src/Chunks/Tests.antt =====
-- The theorems on chunks at an upload of ten bytes in chunks of four.
use asset_harbor.Base.{
  ℕ, ◌+◌, ◌≤◌, ◌≡◌, refl, ◌&&◌, none, some, [], arith, ok, err, http, ◌>>=◌, ◌⊎◌, ◌==◌,
  if◌then◌else◌,
}
use asset_harbor.Base.Text.{codes, digits_value, parse_int}
use asset_harbor.Model.{UploadSession, pos, Status, ResumeInfo}
use asset_harbor.Chunks.{
  expected_part, parse_content_range, match_content_range, take_number, expect, at_end, int_or_400,
}
use asset_harbor.Chunks.Tiling.{IsChunked, IsPlaced, expected_part_tiles}
use asset_harbor.Chunks.Header.{content_range, parse_content_range_lem}

abbrev upload : UploadSession
upload = record {
  upload_id = "u";
  owner_id = 1;
  team_id = none;
  original_filename = [];
  name = [];
  visibility = "public";
  size = 10;
  chunk_size = 4;
  total_parts = 3;
  fingerprint = [];
  status = Status.active;
  expires_at = 100;
  final_code = none;
  resume_info = ResumeInfo.empty;
  created_at = 0;
  updated_at = 0;
  completed_at = none;
}

upload-IsChunked : IsChunked upload
upload-IsChunked = record { sized = omega arith; chunked = omega arith; counted = refl }

expected_part_tiles_example :
    ((n : ℕ) × IsPlaced upload (pos 2) n)
    ⊎ ((expected_part upload (pos 2) ≡ err (http 416)) × ((n : ℕ) → pos 2 ≡ pos n → 3 ≤ n))
expected_part_tiles_example = expected_part_tiles upload (pos 2) upload-IsChunked

parse_content_range_lem_example :
    parse_content_range (some (content_range (codes "8") (codes "9") (codes "10"))) upload (pos 2)
    ≡ (expected_part upload (pos 2) >>= λ part.
        if digits_value 0 (codes "10") == 10
          && digits_value 0 (codes "8") == part.0
          && digits_value 0 (codes "9") + 1 == digits_value 0 (codes "8") + part.1
        then ok part
        else err (http 416))
parse_content_range_lem_example =
    parse_content_range_lem (codes "8") (codes "9") (codes "10") upload (pos 2)
      ((refl, tt), omega arith) ((refl, tt), omega arith) ((refl, (refl, tt)), omega arith)

last_part : parse_content_range (some (codes "bytes 8-9/10")) upload (pos 2) ≡ ok (8, 2)
unfolding parse_content_range match_content_range take_number expect at_end int_or_400 expected_part
    parse_int
last_part = refl
