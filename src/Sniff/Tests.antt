-- ===== src/Sniff/Tests.antt =====
-- The theorems on sniffed types and their boxes at the first bytes of an MP4 and of a Matroska file.
use asset_harbor.Base.{suc, min, length, ◌≡◌, refl, some, ◌∷◌}
use asset_harbor.Base.Text.{codes}
use asset_harbor.Chunks.{lower}
use asset_harbor.Sniff.{
  detect_video_type, bmff_brands, bmff_from, box_at, from_big_endian, quads, brand_verdict,
  by_magic, ebml_type, starts_with, contains,
}
use asset_harbor.Sniff.Sample.{mp4_head}
use asset_harbor.Sniff.Boxes.{bmff_brands-ends}

bmff_brands-ends_example :
    bmff_from (suc (min (length mp4_head) 65536)) mp4_head (min (length mp4_head) 65536) 0
    ≡ some (bmff_brands mp4_head)
bmff_brands-ends_example = bmff_brands-ends mp4_head

detect_matroska :
    detect_video_type (0x1a ∷ 0x45 ∷ 0xdf ∷ 0xa3 ∷ codes "..Matroska")
    ≡ some ("video/x-matroska", "mkv")
unfolding detect_video_type bmff_brands bmff_from box_at from_big_endian quads brand_verdict
    by_magic ebml_type starts_with contains lower
detect_matroska = refl
