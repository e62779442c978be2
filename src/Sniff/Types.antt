-- ===== src/Sniff/Types.antt =====
-- The types that the sniffer reports, and the table that crash recovery consults.
use asset_harbor.Base.{
  String, ◌≡◌, Option, none, some, List, [], ◌∷◌, Bool, true, false, subst, if◌then◌else◌,
}
use asset_harbor.Sniff.{
  Bytes, Verdict, accept, refuse, go_on, brand_verdict, bmff_brands, ebml_type, later_type,
  by_magic, detect_video_type, video_extension,
}

-- A result is listed if the type that it reports, if any, is in the table with its extension.
data IsListed : Option (String × String) → Type 0 where
  unknown : IsListed none
  row :
      {mime extension : String}
      → video_extension mime ≡ some extension
      → IsListed (some (mime, extension))

if-IsListed :
    (b : Bool) {x y : Option (String × String)}
    → IsListed x
    → IsListed y
    → IsListed (if b then x else y)
if-IsListed true h k = h
if-IsListed false h k = k

or_later :
    (a b : Option (String × String))
    → IsListed a
    → IsListed b
    → IsListed (elim a [ some t ↦ some t | none ↦ b ])
or_later none b h k = k
or_later (some t) b h k = h

later_type-IsListed : (s : Bytes) → IsListed (later_type s)
unfolding later_type video_extension
later_type-IsListed s = search (if-IsListed, row, unknown) depth 20

ebml_type-IsListed : (s : Bytes) → IsListed (ebml_type s)
unfolding ebml_type video_extension
ebml_type-IsListed s = search (if-IsListed, row, unknown) depth 20

by_magic-IsListed : (s : Bytes) → IsListed (by_magic s)
unfolding by_magic
by_magic-IsListed s =
    if-IsListed _
      (or_later (ebml_type s) (later_type s) (ebml_type-IsListed s) (later_type-IsListed s))
      (later_type-IsListed s)

-- An accepting verdict is listed.
data IsListedVerdict : Verdict → Type 0 where
  refused : IsListedVerdict refuse
  went_on : IsListedVerdict go_on
  accepted :
      {mime extension : String}
      → video_extension mime ≡ some extension
      → IsListedVerdict (accept mime extension)

if-IsListedVerdict :
    (b : Bool) {v w : Verdict}
    → IsListedVerdict v
    → IsListedVerdict w
    → IsListedVerdict (if b then v else w)
if-IsListedVerdict true h k = h
if-IsListedVerdict false h k = k

brand_verdict-IsListedVerdict : (l : List Bytes) → IsListedVerdict (brand_verdict l)
unfolding brand_verdict video_extension
brand_verdict-IsListedVerdict [] = went_on
brand_verdict-IsListedVerdict (major ∷ brands) =
    search (if-IsListedVerdict, accepted, refused, went_on) depth 20

listed_extension :
    (mime extension : String)
    → IsListed (some (mime, extension))
    → video_extension mime ≡ some extension
listed_extension mime extension (row e) = e

listed_verdict :
    (mime extension : String)
    → IsListedVerdict (accept mime extension)
    → video_extension mime ≡ some extension
listed_verdict mime extension (accepted e) = e

detect_video_type-IsListed : (s : Bytes) → IsListed (detect_video_type s)
unfolding detect_video_type
detect_video_type-IsListed s = if-IsListed _ unknown (
    verdict_cases s (brand_verdict (bmff_brands s)) (brand_verdict-IsListedVerdict (bmff_brands s)))
  where
    verdict_cases :
        (s : Bytes) (v : Verdict)
        → IsListedVerdict v
        → IsListed (elim v [
          | accept mime extension ↦ some (mime, extension)
          | refuse ↦ none
          | go_on ↦ by_magic s
        ])
    verdict_cases s refuse h = unknown
    verdict_cases s go_on h = by_magic-IsListed s
    verdict_cases s (accept mime extension) h = row (listed_verdict mime extension h)

-- Every type that is reported for the bytes of a file has its extension in the table that crash
-- recovery consults.
pub detect_video_type-extension :
    (s : Bytes) (mime extension : String)
    → detect_video_type s ≡ some (mime, extension)
    → video_extension mime ≡ some extension
detect_video_type-extension s mime extension h =
    listed_extension mime extension (subst IsListed h (detect_video_type-IsListed s))
