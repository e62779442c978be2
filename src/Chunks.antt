-- ===== src/Chunks.antt =====
-- The geometry of a chunked upload: `_expected_part`, `_parse_content_range`, `_part_peak_growth`
-- and `_SHA256_RE` of app/services/videos.py. A part number in a path is an integer.
pub mod Tiling
pub mod Header
mod Tests
use asset_harbor.Base.{
  ℕ, ◌+◌, ◌-◌, ◌*◌, ◌/◌, min, max, Bool, true, false, not, ◌&&◌, ◌||◌, Option, none, some, List, [],
  ◌∷◌, map, Result, ok, err, http, ◌>>=◌, ◌>>◌, raise_if, or_raise, ltb, leb, ◌==◌, if◌then◌else◌,
  length,
}
use asset_harbor.Base.Text.{
  Text, codes, strip, after_prefix, span_digits, digits_value, is_digit, int_max_str_digits,
}
use asset_harbor.Model.{UploadSession, ℤ, pos, negsuc}

-- `math.ceil(size / chunk_size)`; the quotient of two numbers below 2^53 that are at most 2^40
-- apart is exact enough for the ceiling.
abbrev pub ceil_div : ℕ → ℕ → ℕ
ceil_div size chunk_size = (size + chunk_size - 1) / chunk_size

-- `_expected_part`: the offset and the size of a part.
unfoldable pub expected_part : UploadSession → ℤ → Result (ℕ × ℕ)
expected_part upload (negsuc n) = err (http 416)
expected_part upload (pos part_number) =
    if leb upload.total_parts part_number
    then err (http 416)
    else let offset = part_number * upload.chunk_size in
      ok (offset, min upload.chunk_size (upload.size - offset))

-- `(\d+)` and the character after it, or the end of the text
take_number : Text → Option (Text × Text)
take_number s = let r = span_digits s in elim (r.0) [ [] ↦ none | c ∷ ds ↦ some (c ∷ ds, r.1) ]

expect : ℕ → Text → Option Text
expect c [] = none
expect c (d ∷ s) = if d == c then some s else none

at_end : Text → Bool
at_end [] = true
at_end (c ∷ s) = false

-- `_CONTENT_RANGE_RE`, `^bytes (\d+)-(\d+)/(\d+)$`
pub match_content_range : Text → Option (Text × Text × Text)
unfolding take_number expect at_end
match_content_range s = elim (after_prefix (codes "bytes ") s) [
  | none ↦ none
  | some r0 ↦ elim (take_number r0) [
    | none ↦ none
    | some (start, r1) ↦ elim (expect b'-' r1) [
      | none ↦ none
      | some r2 ↦ elim (take_number r2) [
        | none ↦ none
        | some (end, r3) ↦ elim (expect b'/' r3) [
          | none ↦ none
          | some r4 ↦ elim (take_number r4) [
            | none ↦ none
            | some (total, r5) ↦ if at_end r5 then some (start, end, total) else none
          ]
        ]
      ]
    ]
  ]
]

-- `int` on a matched group; a group past CPython's conversion limit becomes the stable 400.
int_or_400 : Text → Result ℕ
int_or_400 s = if ltb int_max_str_digits (length s) then err (http 400) else ok (digits_value 0 s)

pub parse_content_range : Option Text → UploadSession → ℤ → Result (ℕ × ℕ)
parse_content_range none upload part_number = err (http 400)
parse_content_range (some value) upload part_number = do
  raise_if (length value == 0) (http 400)
  groups ← or_raise (match_content_range (strip value)) (http 400)
  start ← int_or_400 groups.0
  end ← int_or_400 groups.1
  total ← int_or_400 groups.2
  expected ← expected_part upload part_number
  raise_if
      (not (total == upload.size)
        || not (start == expected.0)
        || not (end + 1 == start + expected.1))
      (http 416)
  ok expected

-- `_part_peak_growth`
pub part_peak_growth : ℕ → ℕ → ℕ → ℕ
part_peak_growth expected_size offset current_file_size =
    let target_growth = offset + expected_size - current_file_size in
    expected_size + max expected_size target_growth

unfoldable pub all_hex : Text → Bool
all_hex [] = true
all_hex (c ∷ s) = (is_digit c || (leb b'a' c && leb c b'f')) && all_hex s

-- `_SHA256_RE.fullmatch`
unfoldable pub is_sha256 : Text → Bool
unfolding all_hex
is_sha256 s = length s == 64 && all_hex s

-- `str.lower` on the ASCII letters; no other character becomes a hexadecimal digit.
unfoldable pub lower : Text → Text
lower = map (λ c. if leb b'A' c && leb c b'Z' then c + 32 else c)
