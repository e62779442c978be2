-- ===== src/Chunks/Header.antt =====
-- Which `Content-Range` headers are accepted for a part.
use asset_harbor.Base.{
  ◌+◌, ◌≤◌, ◌≡◌, refl, ◌&&◌, some, [], ◌∷◌, ◌++◌, arith, ok, err, http, ◌==◌, if◌then◌else◌, length,
  ◌>>=◌,
}
use asset_harbor.Base.Text.{
  Text, codes, strip, Digits, digits_value, int_max_str_digits, span_digits, span_digits-append,
}
use asset_harbor.Base.Strip.{span_digits_all, rstrip-append, rstrip_mark}
use asset_harbor.Model.{UploadSession, ℤ}
use asset_harbor.Chunks.{
  expected_part, parse_content_range, match_content_range, int_or_400, take_number,
}

-- The header value `bytes <ds>-<es>/<ts>`.
abbrev pub content_range : Text → Text → Text → Text
content_range ds es ts = codes "bytes " ++ (ds ++ (b'-' ∷ (es ++ (b'/' ∷ ts))))

abbrev pub IsNumber : Text → Type 0
IsNumber [] = ⊥
IsNumber (c ∷ s) = Digits (c ∷ s) × (length (c ∷ s) ≤ int_max_str_digits)

IsNumber-Digits : (s : Text) → IsNumber s → Digits s
IsNumber-Digits [] h = absurd h
IsNumber-Digits (c ∷ s) h = h.0

IsNumber-int : (s : Text) → IsNumber s → int_or_400 s ≡ ok (digits_value 0 s)
unfolding int_or_400
IsNumber-int [] h = absurd h
IsNumber-int (c ∷ s) h = ground arith

take_number-append :
    (s rest : Text)
    → IsNumber s
    → span_digits rest ≡ ([], rest)
    → take_number (s ++ rest) ≡ some (s, rest)
unfolding take_number
take_number-append [] rest h e = absurd h
take_number-append (c ∷ s) rest h e = ground (arith, span_digits-append (c ∷ s) rest h.0 e)

take_number_all : (s : Text) → IsNumber s → take_number s ≡ some (s, [])
unfolding take_number
take_number_all [] h = absurd h
take_number_all (c ∷ s) h = ground (arith, span_digits_all (c ∷ s) h.0)

match_content_range_lem :
    (ds es ts : Text)
    → IsNumber ds
    → IsNumber es
    → IsNumber ts
    → match_content_range (content_range ds es ts) ≡ some (ds, es, ts)
unfolding match_content_range
match_content_range_lem ds es ts d e t = ground (
  arith,
  take_number-append ds (b'-' ∷ (es ++ (b'/' ∷ ts))) d refl,
  take_number-append es (b'/' ∷ ts) e refl,
  take_number_all ts t,
)

strip-content_range :
    (ds es ts : Text) → IsNumber ts → strip (content_range ds es ts) ≡ content_range ds es ts
strip-content_range ds es ts t =
    rstrip-append (codes "bytes " ++ ds) b'-' (es ++ (b'/' ∷ ts))
      (rstrip-append (b'-' ∷ es) b'/' ts (rstrip_mark b'/' ts refl (IsNumber-Digits ts t)))

-- For three runs of digits within CPython's conversion limit, `bytes a-b/t` is accepted for a part
-- exactly if `a` is the part's offset, `b` its last byte and `t` the size of the file; otherwise it
-- is refused with 416, as is a part number outside the upload.
pub parse_content_range_lem :
    (ds es ts : Text) (u : UploadSession) (n : ℤ)
    → IsNumber ds
    → IsNumber es
    → IsNumber ts
    → parse_content_range (some (content_range ds es ts)) u n ≡ (
        expected_part u n >>= λ part.
        if digits_value 0 ts == u.size
          && digits_value 0 ds == part.0
          && digits_value 0 es + 1 == digits_value 0 ds + part.1
        then ok part
        else err (http 416))
unfolding parse_content_range
parse_content_range_lem ds es ts u n d e t =
    rw
      (
        strip-content_range ds es ts t,
        match_content_range_lem ds es ts d e t,
        IsNumber-int ds d,
        IsNumber-int es e,
        IsNumber-int ts t,
      )
      (ground arith)
