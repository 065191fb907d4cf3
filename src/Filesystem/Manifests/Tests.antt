-- ===== src/Filesystem/Manifests/Tests.antt =====
-- A manifest put under a tag on an empty disk.
use simple_registry.Base.{
  true, [], nat_eq, list_eq, list_beq, codes, ok, ◌≡◌, refl, any, lookup, put, without,
}
use simple_registry.Digest.{parse, split_first, check_parts, new_hasher}
use simple_registry.Disk.{
  find, stat, is_blocked, read_file, place, write_file, mkdir_from, mkdir_all, remove_all, remove,
  rename, is_under,
}
use simple_registry.Paths.{join, split_slash, clean_from, resolve, dir_of, push_head}
use simple_registry.Regex.{match_string}
use simple_registry.Uuid
use simple_registry.Uuid.{hex_char}
use simple_registry.Validator.{is_name, is_uuid, is_tag}
use simple_registry.Filesystem.Layout.{
  upload_dir, upload_file, blob_path, layer_link, manifests_path,
}
use simple_registry.Filesystem.Manifests.{manifest_put, manifest_get, index_referrer}
use simple_registry.Filesystem.Manifests.Stored.{manifest_put-Stored}
use simple_registry.Filesystem.Sound.Tests.{toy_hex, toy-HexHashes, empty_disk, stored_disk}
use simple_registry.Filesystem.Uploads.{
  blobs_upload_create, blobs_upload_write, splice, verify_upload, store_upload, write_link,
  blobs_upload_commit,
}

put_ok :
    (manifest_put toy_hex [] (codes "r") (codes "v1") (codes "{}") empty_disk).0
    ≡ ok (codes "sha256:00bd")
unfolding manifest_put mkdir_all put without any check_parts new_hasher split_first is_blocked
    is_under mkdir_from place remove remove_all rename write_file layer_link manifests_path
    upload_dir upload_file index_referrer blobs_upload_commit blobs_upload_write splice store_upload
    verify_upload write_link clean_from dir_of push_head resolve split_slash Uuid.hex hex_char
    Uuid.set_variant Uuid.set_version Uuid.stamp Uuid.to_string is_tag is_uuid is_name match_string
    list_beq lookup find stat read_file blob_path join parse blobs_upload_create Uuid.must_new
    Uuid.new
put_ok = refl

manifest_put-Stored_example :
    (manifest_get toy_hex [] (codes "r") (codes "sha256:00bd") stored_disk
      ≡ (ok (codes "{}", 2, codes "sha256:00bd"), stored_disk))
    × (is_tag (codes "v1") ≡ true
        → manifest_get toy_hex [] (codes "r") (codes "v1") stored_disk
          ≡ (ok (codes "{}", 2, codes "sha256:00bd"), stored_disk))
manifest_put-Stored_example =
    manifest_put-Stored toy_hex [] (codes "r") (codes "v1") (codes "{}") (codes "sha256:00bd")
      empty_disk stored_disk toy-HexHashes (λ i. (put_ok i, stored_disk))
