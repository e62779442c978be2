-- ===== src/Range.antt =====
-- Byte-range delivery of a stored video (`_parse_range`, `_range_stream` of
-- app/api/routes/videos.py). A header value is a list of code points, a file a list of bytes.
pub mod Bounds
pub mod Closed
pub mod Stream
mod Tests
use asset_harbor.Base.{
  ℕ, zero, suc, ◌+◌, ◌-◌, min, Bool, true, false, ◌||◌, Option, none, some, List, [], ◌∷◌, Result,
  ok, err, value_error, ◌>>=◌, ◌>>◌, raise_if, or_raise, leb, ◌==◌, if◌then◌else◌, any, take, drop,
  length,
}
use asset_harbor.Base.Text.{Text, codes, strip, after_prefix, span_digits, parse_int}

-- `stop` is the code's `end + 1`, so that the `end = -1` of an empty file is a number.
pub record ByteRange : Type 0 where
  pub start : ℕ
  pub stop : ℕ

-- `_RANGE_RE`, `^bytes=(\d*)-(\d*)$`, in three steps: the prefix, the dash, the end.
match_end : Text → Text × Text → Option (Text × Text)
match_end start_text (end_text, []) = some (start_text, end_text)
match_end start_text (end_text, c ∷ r) = none

match_dash : Text × Text → Option (Text × Text)
unfolding match_end
match_dash (start_text, []) = none
match_dash (start_text, c ∷ r) = if c == b'-' then match_end start_text (span_digits r) else none

pub match_range : Text → Option (Text × Text)
unfolding match_dash
match_range s = elim (after_prefix (codes "bytes=") s) [
  | none ↦ none
  | some r ↦ match_dash (span_digits r)
]

-- The exclusive end that an explicit start is given with.
pub stop_of : Text → ℕ → Result ℕ
unfolding parse_int
stop_of [] size = ok size
stop_of (c ∷ s) size = do end ← parse_int (c ∷ s); ok (end + 1)

-- What the two groups of the pattern select from a file of `size` bytes.
pub range_of : Text → Text → ℕ → Result ByteRange
unfolding stop_of parse_int
range_of [] [] size = err value_error
range_of [] (e ∷ es) size = do
  suffix ← parse_int (e ∷ es)
  raise_if (suffix == 0) value_error
  ok (record { start = size - suffix; stop = size })
range_of (c ∷ s) end_text size = do
  start ← parse_int (c ∷ s)
  stop ← stop_of end_text size
  raise_if (leb size start || leb stop start) value_error
  ok (record { start = start; stop = min stop size })

-- `_parse_range`
pub parse_range : Text → ℕ → Result ByteRange
unfolding match_range range_of
parse_range value size = do
  raise_if (any (λ c. c == b',') value) value_error
  groups ← or_raise (match_range (strip value)) value_error
  range_of groups.0 groups.1 size

-- `_range_stream` after its `seek`: blocks of at most `block` bytes until `remaining` are sent or
-- the file ends. Each round sends a byte at least, so that `remaining` rounds are enough.
pub range_blocks : ℕ → ℕ → ℕ → List ℕ → List (List ℕ)
range_blocks block zero remaining file = []
range_blocks block (suc fuel) remaining file =
    let sent = take (min block remaining) file in
    let more =
      sent ∷ range_blocks block fuel (remaining - length sent) (drop (min block remaining) file) in
    if remaining == 0 then [] else if length sent == 0 then [] else more

pub range_stream : List ℕ → ByteRange → List (List ℕ)
unfolding range_blocks
range_stream file r =
    let remaining = r.stop - r.start in range_blocks 262144 remaining remaining (drop r.start file)
