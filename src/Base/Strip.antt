-- ===== src/Base/Strip.antt =====
-- Runs of digits in a header value, and where `strip` changes nothing.
use Prim.Native.Nat.{ℕ}
use mathlib.Core.Path.{◌≡◌, refl}
use mathlib.Core.Bool.{false}
use mathlib.Core.List.{[], ◌∷◌, ◌++◌}
use native.Mathlib.Omega.{arith}
use asset_harbor.Base.Text.{Text, Digits, is_space, rstrip, span_digits}

pub span_digits_all : (es : Text) → Digits es → span_digits es ≡ (es, [])
span_digits_all [] d = refl
span_digits_all (c ∷ s) d = ground (arith, span_digits_all s d.1)

-- A text with no white space at its end is not stripped there.
pub rstrip-Digits : (es : Text) → Digits es → rstrip es ≡ es
rstrip-Digits [] d = refl
rstrip-Digits (c ∷ []) d = ground arith
rstrip-Digits (c ∷ x ∷ s) d = rw (rstrip-Digits (x ∷ s) d.1)

-- Such an end also keeps what stands before it.
pub rstrip-append :
    (s : Text) (c : ℕ) (r : Text) → rstrip (c ∷ r) ≡ c ∷ r → rstrip (s ++ (c ∷ r)) ≡ s ++ (c ∷ r)
rstrip-append [] c r h = h
rstrip-append (x ∷ []) c r h = rw h
rstrip-append (x ∷ y ∷ s) c r h = rw (rstrip-append (y ∷ s) c r h)

pub rstrip_mark : (c : ℕ) (es : Text) → is_space c ≡ false → Digits es → rstrip (c ∷ es) ≡ c ∷ es
rstrip_mark c [] h e = rw h
rstrip_mark c (d ∷ s) h e = rw (rstrip-Digits (d ∷ s) e)
