-- ===== src/Uploads/Recovery/Tests.antt =====
-- The theorem on recovery metadata at the metadata of an MP4 file.
use asset_harbor.Base.{String, ◌≡◌, refl, true, false, none, some, ok, length}
use asset_harbor.Base.Text.{Text, codes}
use asset_harbor.Model.{ResumeInfo}
use asset_harbor.Chunks.{is_sha256, all_hex}
use asset_harbor.Sniff.{video_extension}
use asset_harbor.Uploads.Recovery.{
  FinalInfo, expected_relative, validated_finalizing_info, validated_finalizing_info-destination,
  scope_of, all_base62, is_base62, IsFlat,
}

abbrev digest : Text
digest = codes "0123456789abcdef0123456789abcdef0123456789abcdef0123456789abcdef"

abbrev path : Text
path = codes "files/aB/3d/aB3dE5.mp4"

abbrev info : FinalInfo
info = record {
  code = codes "aB3dE5";
  content_type = "video/mp4";
  sha256 = digest;
  destination = path;
  global_admin = false;
}

validated_info :
    validated_finalizing_info 6
      (λ _. true)
      (ResumeInfo.final (codes "aB3dE5") path "video/mp4" digest none)
    ≡ ok info
unfolding validated_finalizing_info scope_of all_base62 is_base62 is_sha256 all_hex video_extension
    expected_relative
validated_info = refl

validated_finalizing_info-destination_example :
    (extension : String) × (video_extension "video/mp4" ≡ some extension)
    × (path ≡ expected_relative (codes "aB3dE5") extension)
    × (path ≡ expected_relative (codes "aB3dE5") extension)
    × (length (codes "aB3dE5") ≡ 6)
    × IsFlat (codes "aB3dE5")
    × (true ≡ true)
validated_finalizing_info-destination_example =
    validated_finalizing_info-destination 6 (λ _. true) (codes "aB3dE5") path "video/mp4" digest
      none info validated_info
