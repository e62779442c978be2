-- ===== src/Range/Bounds.antt =====
-- Where the ranges that `_parse_range` accepts lie.
use asset_harbor.Base.{
  ℕ, ◌≤◌, ◌<◌, ◌≡◌, [], ◌∷◌, arith, ok, value_error, or_raise, >>=-eq-ok, any, ◌==◌, raise_if,
}
use asset_harbor.Base.Text.{Text, strip}
use asset_harbor.Range.{ByteRange, match_range, range_of, parse_range}

-- What a served range promises of its file.
pub record IsWithin (size : ℕ) (r : ByteRange) : Type 0 where
  pub stops : r.stop ≤ size
  pub holds_a_byte : 0 < size → r.start < r.stop

pub range_of-IsWithin :
    (s e : Text) (size : ℕ) (r : ByteRange) → range_of s e size ≡ ok r → IsWithin size r
unfolding range_of
range_of-IsWithin [] [] size r h = ground arith
range_of-IsWithin [] (c ∷ es) size r h = ground arith
range_of-IsWithin (c ∷ s) [] size r h = ground arith
range_of-IsWithin (c ∷ s) (d ∷ e) size r h = ground arith

-- A range that is accepted ends inside the file, and of a file with a byte it holds one.
pub parse_range-IsWithin :
    (value : Text) (size : ℕ) (r : ByteRange) → parse_range value size ≡ ok r → IsWithin size r
unfolding parse_range
parse_range-IsWithin value size r h =
    let (u, first, rest) = >>=-eq-ok (raise_if (any (λ c. c == b',') value) value_error) _ h in
    let (g, matched, last) = >>=-eq-ok (or_raise (match_range (strip value)) value_error) _ rest in
    range_of-IsWithin g.0 g.1 size r last
