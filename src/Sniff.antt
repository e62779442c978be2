-- ===== src/Sniff.antt =====
-- Recognition of a container from its bytes: `_bmff_brands`, `detect_video_type` and
-- `_VIDEO_EXTENSION_BY_CONTENT_TYPE` of app/services/videos.py.
pub mod Types
pub mod Boxes
pub mod Sample
mod Tests
use asset_harbor.Base.{
  ℕ, zero, suc, ◌+◌, ◌-◌, ◌*◌, ◌%◌, min, String, Bool, true, false, not, ◌&&◌, ◌||◌, Option, none,
  some, List, [], ◌∷◌, map, ltb, leb, ◌==◌, if◌then◌else◌, str_eq, take, drop, length, any, is_some,
}
use asset_harbor.Base.Text.{Text, codes, after_prefix, text_eq}
use asset_harbor.Chunks.{lower}

abbrev pub Bytes : Type 0
Bytes = List ℕ

-- `data[from:to]`
abbrev pub slice : ℕ → ℕ → Bytes → Bytes
slice from to s = take (to - from) (drop from s)

-- `int.from_bytes(…, "big")`
pub from_big_endian : ℕ → Bytes → ℕ
from_big_endian n [] = n
from_big_endian n (b ∷ s) = from_big_endian (n * 256 + b) s

-- The complete groups of four bytes.
pub quads : Bytes → List Bytes
quads (a ∷ b ∷ c ∷ d ∷ s) = (a ∷ b ∷ c ∷ d ∷ []) ∷ quads s
quads _ = []

-- Length and header size of the box at `offset`: the 64-bit form where the 32-bit length is 1.
box_at : Bytes → ℕ → ℕ → ℕ × ℕ
unfolding from_big_endian
box_at s limit offset =
    let size = from_big_endian 0 (slice offset (offset + 4) s) in
    if size == 1 && leb (offset + 16) limit
    then (from_big_endian 0 (slice (offset + 8) (offset + 16) s), 16)
    else (size, 8)

-- The loop of `_bmff_brands`. Each round moves on by 8 bytes at least, so that fuel for the limit
-- is enough; running out of it is `none`.
pub bmff_from : ℕ → Bytes → ℕ → ℕ → Option (List Bytes)
unfolding box_at quads
bmff_from zero s limit offset = none
bmff_from (suc fuel) s limit offset =
    let box = box_at s limit offset in
    let payload = slice (offset + box.1) (offset + box.0) s in
    let further = bmff_from fuel s limit (offset + box.0) in
    if not (leb (offset + 8) limit)
    then some []
    else if ltb box.0 box.1 || ltb limit (offset + box.0)
    then some []
    else if text_eq (slice (offset + 4) (offset + 8) s) (codes "ftyp") && leb (box.1 + 8) box.0
    then some (take 4 payload ∷ quads (drop 8 payload))
    else further

abbrev pub or_empty : Option (List Bytes) → List Bytes
or_empty none = []
or_empty (some l) = l

-- `_bmff_brands`
pub bmff_brands : Bytes → List Bytes
unfolding bmff_from
bmff_brands s = let limit = min (length s) 65536 in or_empty (bmff_from (suc limit) s limit 0)

starts_with : Text → Bytes → Bool
starts_with p s = is_some (after_prefix p s)

among : List String → Bytes → Bool
among names s = any (λ n. text_eq s (codes n)) names

-- `needle in data`
contains : Text → Bytes → Bool
contains needle [] = is_some (after_prefix needle [])
contains needle (b ∷ s) = is_some (after_prefix needle (b ∷ s)) || contains needle s

-- What the major brand and the compatible brands decide: a type, a refusal, or nothing.
data Verdict : Type 0 where
  accept : String → String → Verdict
  refuse go_on : Verdict

abbrev bmff_video_brands : List String
bmff_video_brands =
    "isom" ∷ "iso2" ∷ "iso3" ∷ "iso4" ∷ "iso5" ∷ "iso6" ∷ "iso7" ∷ "iso8" ∷ "iso9" ∷ "mp41" ∷ "mp42"
    ∷ "avc1" ∷ "dash" ∷ "MSNV" ∷ "F4V " ∷ "M4VP" ∷ []

brand_verdict : List Bytes → Verdict
unfolding starts_with among
brand_verdict [] = go_on
brand_verdict (major ∷ brands) =
    if starts_with (codes "3g") major || starts_with (codes "3G") major
    then accept "video/3gpp" "3gp"
    else if text_eq major (codes "qt  ")
    then accept "video/quicktime" "mov"
    else if among ("M4V " ∷ "M4VH" ∷ "M4VP" ∷ []) major
    then accept "video/x-m4v" "m4v"
    else if among ("avif" ∷ "avis" ∷ "heic" ∷ "heix" ∷ "mif1" ∷ "msf1" ∷ "M4A " ∷ []) major
    then refuse
    else if any (λ b. among bmff_video_brands b || starts_with (codes "mp4") b) (major ∷ brands)
    then accept "video/mp4" "mp4"
    else go_on

byte_at : Bytes → ℕ → ℕ → Bool
byte_at [] i v = false
byte_at (b ∷ s) zero v = b == v
byte_at (b ∷ s) (suc i) v = byte_at s i v

low_bit_at : Bytes → ℕ → Bool
low_bit_at [] i = false
low_bit_at (b ∷ s) zero = b % 2 == 1
low_bit_at (b ∷ s) (suc i) = low_bit_at s i

-- The EBML containers; `none` where the header names neither.
ebml_type : Bytes → Option (String × String)
unfolding contains
ebml_type s =
    let header = lower (take 65536 s) in
    if contains (codes "webm") header
    then some ("video/webm", "webm")
    else if contains (codes "matroska") header
    then some ("video/x-matroska", "mkv")
    else none

-- The tests after the EBML ones.
later_type : Bytes → Option (String × String)
unfolding starts_with contains byte_at low_bit_at
later_type s =
    if leb 12 (length s) && starts_with (codes "RIFF") s && text_eq (slice 8 12 s) (codes "AVI ")
    then some ("video/x-msvideo", "avi")
    else if starts_with (0 ∷ 0 ∷ 1 ∷ 0xba ∷ []) s || starts_with (0 ∷ 0 ∷ 1 ∷ 0xb3 ∷ []) s
    then some ("video/mpeg", "mpg")
    else if leb 189 (length s) && byte_at s 0 0x47 && byte_at s 188 0x47
    then some ("video/mp2t", "ts")
    else if starts_with (codes "OggS") s && contains (codes "theora") (lower (take 65536 s))
    then some ("video/ogg", "ogv")
    else if starts_with (codes "FLV") s && leb 5 (length s) && low_bit_at s 4
    then some ("video/x-flv", "flv")
    else if starts_with
        (0x30 ∷ 0x26 ∷ 0xb2 ∷ 0x75 ∷ 0x8e ∷ 0x66 ∷ 0xcf ∷ 0x11 ∷ 0xa6 ∷ 0xd9 ∷ 0x00 ∷ 0xaa ∷ 0x00
          ∷ 0x62 ∷ 0xce ∷ 0x6c ∷ [])
        s
    then some ("video/x-ms-wmv", "wmv")
    else none

by_magic : Bytes → Option (String × String)
unfolding ebml_type later_type starts_with
by_magic s =
    if starts_with (0x1a ∷ 0x45 ∷ 0xdf ∷ 0xa3 ∷ []) s
    then elim (ebml_type s) [ some t ↦ some t | none ↦ later_type s ]
    else later_type s

-- `detect_video_type`: the MIME type and the extension
pub detect_video_type : Bytes → Option (String × String)
unfolding bmff_brands brand_verdict by_magic
detect_video_type s = if ltb (length s) 4 then none else elim (brand_verdict (bmff_brands s)) [
  | accept mime extension ↦ some (mime, extension)
  | refuse ↦ none
  | go_on ↦ by_magic s
]

-- `_VIDEO_EXTENSION_BY_CONTENT_TYPE.get`
unfoldable pub video_extension : String → Option String
video_extension t =
    if str_eq t "video/3gpp"
    then some "3gp"
    else if str_eq t "video/quicktime"
    then some "mov"
    else if str_eq t "video/x-m4v"
    then some "m4v"
    else if str_eq t "video/mp4"
    then some "mp4"
    else if str_eq t "video/webm"
    then some "webm"
    else if str_eq t "video/x-matroska"
    then some "mkv"
    else if str_eq t "video/x-msvideo"
    then some "avi"
    else if str_eq t "video/mpeg"
    then some "mpg"
    else if str_eq t "video/mp2t"
    then some "ts"
    else if str_eq t "video/ogg"
    then some "ogv"
    else if str_eq t "video/x-flv"
    then some "flv"
    else if str_eq t "video/x-ms-wmv"
    then some "wmv"
    else none
