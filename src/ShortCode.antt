-- ===== src/ShortCode.antt =====
-- Short codes: app/services/shortcode.py. The numbers that `secrets.randbelow(BASE)` draws, which
-- are below 62, are an argument.
use asset_harbor.Base.{
  ℕ, zero, suc, ◌<◌, ◌≡◌, refl, true, List, [], ◌∷◌, map, length, All, arith, ap,
}
use asset_harbor.Base.Text.{Text, codes}
use asset_harbor.Uploads.Recovery.{all_base62, is_base62}

-- `ALPHABET`
abbrev pub alphabet : Text
alphabet = codes "0123456789abcdefghijklmnopqrstuvwxyzABCDEFGHIJKLMNOPQRSTUVWXYZ"

-- `ALPHABET[i]`; past the end, where the code raises, there is no letter.
abbrev pub letter_from : Text → ℕ → ℕ
letter_from [] i = 0
letter_from (c ∷ s) zero = c
letter_from (c ∷ s) (suc i) = letter_from s i

-- `generate_short_code`, with one number for each position.
unfoldable pub generate_short_code : List ℕ → Text
generate_short_code draws = map (letter_from alphabet) draws

letter_from-base62 :
    (s : Text) (i : ℕ) → all_base62 s ≡ true → i < length s → is_base62 (letter_from s i) ≡ true
unfolding all_base62
letter_from-base62 [] i h below = absurd (omega arith)
letter_from-base62 (c ∷ s) zero h below = ground arith
letter_from-base62 (c ∷ s) (suc i) h below = letter_from-base62 s i (ground arith) (omega arith)

alphabet-base62 : all_base62 alphabet ≡ true
unfolding all_base62 is_base62
alphabet-base62 = refl

pub generate_short_code-base62 :
    (draws : List ℕ) → All (λ i. i < 62) draws → all_base62 (generate_short_code draws) ≡ true
unfolding generate_short_code all_base62
generate_short_code-base62 [] h = refl
generate_short_code-base62 (i ∷ draws) h =
    rw (letter_from-base62 alphabet i alphabet-base62 h.0) (generate_short_code-base62 draws h.1)

pub length-generate_short_code :
    (draws : List ℕ) → length (generate_short_code draws) ≡ length draws
unfolding generate_short_code
length-generate_short_code [] = refl
length-generate_short_code (i ∷ draws) = ap suc (length-generate_short_code draws)
