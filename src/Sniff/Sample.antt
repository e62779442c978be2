-- ===== src/Sniff/Sample.antt =====
-- The first bytes of an MP4 file, which the tests use.
use asset_harbor.Base.{◌≡◌, refl, some, ◌∷◌, ◌++◌}
use asset_harbor.Base.Text.{codes}
use asset_harbor.Sniff.{
  Bytes, detect_video_type, bmff_brands, bmff_from, box_at, from_big_endian, quads, brand_verdict,
  starts_with, among,
}

abbrev pub mp4_head : Bytes
mp4_head = 0 ∷ 0 ∷ 0 ∷ 20 ∷ codes "ftypisom" ++ (0 ∷ 0 ∷ 2 ∷ 0 ∷ codes "mp41")

pub detect_mp4 : detect_video_type mp4_head ≡ some ("video/mp4", "mp4")
unfolding detect_video_type bmff_brands bmff_from box_at from_big_endian quads brand_verdict
    starts_with among
detect_mp4 = refl
