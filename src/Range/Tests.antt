-- ===== src/Range/Tests.antt =====
-- The theorems on ranges at headers of a file of ten bytes.
use asset_harbor.Base.{ℕ, ◌≡◌, ◌≤◌, ◌<◌, refl, List, [], ◌∷◌, arith, ok, length, All}
use asset_harbor.Base.Text.{codes}
use asset_harbor.Range.{
  ByteRange, parse_range, match_range, match_dash, match_end, range_of, stop_of, range_stream,
}
use mathlib.Core.List.{flatten}
use asset_harbor.Range.Closed.{range_header, selected, parse_range-selected}
use asset_harbor.Range.Stream.{range_stream-slice, slice}

abbrev ten : List ℕ
ten = 1 ∷ 2 ∷ 3 ∷ 4 ∷ 5 ∷ 6 ∷ 7 ∷ 8 ∷ 9 ∷ 10 ∷ []

parse_range-selected_example :
    parse_range (range_header (codes "2") (codes "5")) 10 ≡ selected (codes "2") (codes "5") 10
parse_range-selected_example =
    parse_range-selected (codes "2") (codes "5") 10 (refl, tt) (refl, tt) (omega arith)
      (omega arith)

abbrev middle : ByteRange
middle = record { start = 2; stop = 5 }

range_stream-slice_example :
    (flatten (range_stream ten middle) ≡ slice 2 5 ten)
    × All (λ sent. (0 < length sent) × (length sent ≤ 262144)) (range_stream ten middle)
range_stream-slice_example = range_stream-slice ten middle

-- The last three bytes, and a range that starts at the end.
suffix_range : parse_range (codes " bytes=-3") 10 ≡ ok (record { start = 7; stop = 10 })
unfolding parse_range match_range match_dash match_end range_of stop_of
suffix_range = refl
