-- ===== src/Range/Closed.antt =====
-- The forms `bytes=a-b`, `bytes=a-` and `bytes=-n` of a `Range` header, as a client writes them.
use asset_harbor.Base.{
  ℕ, ◌+◌, ◌-◌, ◌≤◌, ◌≡◌, refl, false, ◌&&◌, some, [], ◌∷◌, ◌++◌, arith, Result, ok, err,
  value_error, ltb, leb, ◌==◌, if◌then◌else◌, any, length, min,
}
use asset_harbor.Base.Text.{
  Text, codes, strip, Digits, digits_value, int_max_str_digits, span_digits-append,
}
use asset_harbor.Base.Strip.{span_digits_all, rstrip-append, rstrip_mark}
use asset_harbor.Range.{ByteRange, match_range, parse_range, range_of}

-- The header value `bytes=<ds>-<es>`.
abbrev pub range_header : Text → Text → Text
range_header ds es = codes "bytes=" ++ (ds ++ (b'-' ∷ es))

match_range_lem :
    (ds es : Text) → Digits ds → Digits es → match_range (range_header ds es) ≡ some (ds, es)
unfolding match_range
match_range_lem ds es d e = rw (span_digits-append ds (b'-' ∷ es) d refl, span_digits_all es e)

no_comma : (es : Text) → Digits es → any (λ c. c == b',') es ≡ false
no_comma [] d = refl
no_comma (c ∷ s) d = ground (arith, no_comma s d.1)

no_comma_dash :
    (ds es : Text) → Digits ds → Digits es → any (λ c. c == b',') (ds ++ (b'-' ∷ es)) ≡ false
no_comma_dash [] es d e = no_comma es e
no_comma_dash (c ∷ s) es d e = ground (arith, no_comma_dash s es d.1 e)

strip-range_header : (ds es : Text) → Digits es → strip (range_header ds es) ≡ range_header ds es
strip-range_header ds es e =
    rstrip-append (codes "bytes=" ++ ds) b'-' es (rstrip_mark b'-' es refl e)

-- A value written `bytes=` digits `-` digits is read as the range of its two runs of digits.
parse_range_lem :
    (ds es : Text) (size : ℕ)
    → Digits ds
    → Digits es
    → parse_range (range_header ds es) size ≡ range_of ds es size
unfolding parse_range
parse_range_lem ds es size d e =
    rw (no_comma_dash ds es d e, strip-range_header ds es e, match_range_lem ds es d e)

-- What the three forms of a single range select from a file of `size` bytes.
abbrev pub selected : Text → Text → ℕ → Result ByteRange
selected [] [] size = err value_error
selected [] (c ∷ s) size =
    let suffix = digits_value 0 (c ∷ s) in
    if suffix == 0 then err value_error else ok (record { start = size - suffix; stop = size })
selected (c ∷ s) [] size =
    let first = digits_value 0 (c ∷ s) in
    if ltb first size then ok (record { start = first; stop = size }) else err value_error
selected (c ∷ s) (x ∷ r) size =
    let first = digits_value 0 (c ∷ s) in
    let last = digits_value 0 (x ∷ r) in
    if ltb first size && leb first last
    then ok (record { start = first; stop = min (last + 1) size })
    else err value_error

-- For digit runs within CPython's conversion limit, `bytes=a-b` selects bytes a to b, cut at the
-- end of the file, `bytes=a-` all from a, and `bytes=-n` the last n; `bytes=-`, `bytes=-0`, a start
-- at or past the end and an end before the start are refused.
pub parse_range-selected :
    (ds es : Text) (size : ℕ)
    → Digits ds
    → Digits es
    → length ds ≤ int_max_str_digits
    → length es ≤ int_max_str_digits
    → parse_range (range_header ds es) size ≡ selected ds es size
unfolding range_of
parse_range-selected [] [] size d e l m = parse_range_lem [] [] size d e
parse_range-selected [] (c ∷ s) size d e l m = ground (arith, parse_range_lem [] (c ∷ s) size d e)
parse_range-selected (c ∷ s) [] size d e l m = ground (arith, parse_range_lem (c ∷ s) [] size d e)
parse_range-selected (c ∷ s) (x ∷ r) size d e l m =
    ground (arith, parse_range_lem (c ∷ s) (x ∷ r) size d e)
