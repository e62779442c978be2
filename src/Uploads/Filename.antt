-- ===== src/Uploads/Filename.antt =====
-- The name that an upload is stored under: `_safe_filename` of app/services/videos.py.
pub mod Plain
use asset_harbor.Base.{
  ℕ, ◌≡◌, refl, ◌≤◌, Bool, true, false, not, ◌&&◌, ◌||◌, Option, none, some, List, [], ◌∷◌, ◌++◌,
  arith, ltb, leb, ◌==◌, if◌then◌else◌, length, take, map, where_, All, All-append, All-where_,
  All-where_pass, All-of, All-both, length-take, Bool-cases, inl, inr,
}
use asset_harbor.Base.Text.{Text, codes, strip, lstrip, rstrip, is_space}

-- `s or t`
abbrev pub or_text : Text → Text → Text
or_text [] t = t
or_text (c ∷ s) t = c ∷ s

-- `.split("/")[-1]`, with the segment that is being read.
pub last_segment : Text → Text → Text
last_segment seg [] = seg
last_segment seg (c ∷ s) = last_segment (if c == b'/' then [] else seg ++ (c ∷ [])) s

pub is_control : ℕ → Bool
is_control c = ltb c 32 || c == 127

pub safe_filename : Text → Text
unfolding last_segment is_control
safe_filename filename =
    let slashed = map (λ c. if c == b'\\' then b'/' else c) (or_text filename (codes "video")) in
    let cleaned = strip (where_ (λ c. not (is_control c)) (last_segment [] slashed)) in
    or_text (take 255 cleaned) (codes "video")
