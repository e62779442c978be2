-- ===== src/Base/Text.antt =====
-- Header values and other texts that the code walks, as lists of code points.
use Prim.Native.Char.{code}
use Prim.Native.String.{String}
use Prim.Native.Nat.{ℕ, ◌+◌, ◌-◌, ◌*◌}
use mathlib.Core.Path.{◌≡◌}
use mathlib.Core.Bool.{Bool, true, false, ◌&&◌, ◌||◌}
use mathlib.Core.Option.{Option, none, some}
use mathlib.Core.List.{List, [], ◌∷◌, ◌++◌}
use mathlib.Core.Logic.{◌↔◌}
use native.Mathlib.Omega.{arith}
use asset_harbor.Base.Tests.{ltb, leb, ◌==◌, if◌then◌else◌}
use asset_harbor.Base.Lists.{length}
use asset_harbor.Base.Errors.{Result, ok, err, value_error}

abbrev pub Text : Type 0
Text = List ℕ

abbrev pub codes : String → Text
codes String.[] = []
codes (String.◌∷◌ c s) = code c ∷ codes s

abbrev pub is_digit : ℕ → Bool
is_digit c = leb b'0' c && leb c b'9'

-- What `str.isspace` holds of.
abbrev pub is_space : ℕ → Bool
is_space c =
    (leb 9 c && leb c 13)
    || (leb 28 c && leb c 32)
    || c == 133
    || c == 160
    || c == 5760
    || (leb 8192 c && leb c 8202)
    || (leb 8232 c && leb c 8233)
    || c == 8239
    || c == 8287
    || c == 12288

abbrev pub lstrip : Text → Text
lstrip [] = []
lstrip (c ∷ s) = let rest = lstrip s in if is_space c then rest else c ∷ s

-- Drops the trailing white space.
abbrev pub rstrip : Text → Text
rstrip [] = []
rstrip (c ∷ s) = elim (rstrip s) [ [] ↦ if is_space c then [] else c ∷ [] | d ∷ r ↦ c ∷ d ∷ r ]

-- `str.strip`
abbrev pub strip : Text → Text
strip s = rstrip (lstrip s)

-- `str.strip`, `s == ""` and `or` on a native text.
abbrev pub lstrip_str : String → String
lstrip_str String.[] = String.[]
lstrip_str (String.◌∷◌ c s) =
    let rest = lstrip_str s in if is_space (code c) then rest else String.◌∷◌ c s

abbrev pub rstrip_str : String → String
rstrip_str String.[] = String.[]
rstrip_str (String.◌∷◌ c s) = elim (rstrip_str s) [
  | String.[] ↦ if is_space (code c) then String.[] else String.◌∷◌ c String.[]
  | String.◌∷◌ d r ↦ String.◌∷◌ c (String.◌∷◌ d r)
]

abbrev pub strip_str : String → String
strip_str s = rstrip_str (lstrip_str s)

abbrev pub or_str : String → String → String
or_str String.[] t = t
or_str (String.◌∷◌ c s) t = String.◌∷◌ c s

abbrev pub text_eq : Text → Text → Bool
text_eq [] [] = true
text_eq [] (d ∷ t) = false
text_eq (c ∷ s) [] = false
text_eq (c ∷ s) (d ∷ t) = c == d && text_eq s t

-- `s.startswith(prefix)`, with what follows the prefix.
abbrev pub after_prefix : Text → Text → Option Text
after_prefix [] s = some s
after_prefix (p ∷ ps) [] = none
after_prefix (p ∷ ps) (c ∷ s) = let rest = after_prefix ps s in if p == c then rest else none

-- `(\d*)` followed by the rest; the pattern's next character is never a digit.
abbrev pub span_digits : Text → Text × Text
span_digits [] = ([], [])
span_digits (c ∷ s) =
    let rest = span_digits s in if is_digit c then (c ∷ rest.0, rest.1) else ([], c ∷ s)

-- The value of a run of decimal digits, most significant first.
abbrev pub digits_value : ℕ → Text → ℕ
digits_value n [] = n
digits_value n (c ∷ s) = digits_value (n * 10 + (c - b'0')) s

-- `sys.get_int_max_str_digits()`: CPython's default bound on `int(text)`.
abbrev pub int_max_str_digits : ℕ
int_max_str_digits = 4300

-- `int(text)` on a run of digits that a pattern has matched.
unfoldable pub parse_int : Text → Result ℕ
parse_int s = if ltb int_max_str_digits (length s) then err value_error else ok (digits_value 0 s)

abbrev pub Digits : Text → Type 0
Digits [] = Unit
Digits (c ∷ s) = (is_digit c ≡ true) × Digits s

-- A run of digits is taken whole where what follows starts with no digit.
pub span_digits-append :
    (ds rest : Text)
    → Digits ds
    → span_digits rest ≡ ([], rest)
    → span_digits (ds ++ rest) ≡ (ds, rest)
span_digits-append [] rest d h = h
span_digits-append (c ∷ s) rest d h = ground (arith, span_digits-append s rest d.1 h)

pub text_eq_iff : (s t : Text) → (text_eq s t ≡ true) ↔ (s ≡ t)
text_eq_iff [] [] = ground arith
text_eq_iff [] (d ∷ t) = ground arith
text_eq_iff (c ∷ s) [] = ground arith
text_eq_iff (c ∷ s) (d ∷ t) = ground (arith, text_eq_iff s t)

pub text_eq_refl : (s : Text) → text_eq s s ≡ true
text_eq_refl s = (text_eq_iff s s).1 (λ i. s)
