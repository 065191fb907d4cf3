-- ===== src/Filesystem/Sound/Tests.antt =====
-- A manifest stored on an empty disk, over a toy hash in hexadecimal, and read as a blob.
use simple_registry.Base.{
  ℕ, ◌%◌, ◌<◌, true, none, [], ◌∷◌, nat_eq, list_eq, list_beq, Text, codes, ok, ◌≡◌, refl, All, map,
  arith, any, lookup, put, without,
}
use simple_registry.Digest.{Algo, parse, split_first, check_parts, new_hasher}
use simple_registry.Disk.{
  Disk, find, stat, is_blocked, read_file, place, write_file, mkdir_from, mkdir_all, remove_all,
  remove, rename, is_under,
}
use simple_registry.Disk.Laws.{file_at}
use simple_registry.Paths.{join, split_slash, clean_from, resolve, dir_of, push_head}
use simple_registry.Regex.{match_string}
use simple_registry.Uuid
use simple_registry.Uuid.{hex_char}
use simple_registry.Validator.{is_name, is_digest, is_uuid, is_tag}
use simple_registry.Filesystem.Blobs.{blobs_get, check_link, open_blob}
use simple_registry.Filesystem.Layout.{
  Library, upload_dir, upload_file, blob_path, layer_link, manifests_path,
}
use simple_registry.Filesystem.Manifests.{manifest_put, index_referrer}
use simple_registry.Filesystem.Uploads.{
  blobs_upload_create, blobs_upload_write, splice, verify_upload, store_upload, write_link,
  blobs_upload_commit,
}
use simple_registry.Filesystem.Sound.{HexHashes, IsSound, is_hex}
use simple_registry.Filesystem.Sound.Reach.{
  manifest_stored, Reaches, at_once, then_step, Reaches-IsSound, blobs_get-Authentic,
}

-- The low halves of the bytes.
abbrev toy_hash : Text → Text
toy_hash t = b'0' ∷ b'0' ∷ map (λ c. hex_char (c % 16)) t

abbrev pub toy_hex : Library
toy_hex = record {
  hash_as_string = λ a t. toy_hash t;
  decode_image_manifest = λ t. none;
  decode_first_image = λ t. none;
  format_time = λ n. [];
}

hex_char-is_hex : (n : ℕ) → n < 16 → is_hex (hex_char n) ≡ true
unfolding hex_char
hex_char-is_hex n h = ground arith

toy-digits : (t : Text) → All (λ c. is_hex c ≡ true) (map (λ c. hex_char (c % 16)) t)
toy-digits [] = tt
toy-digits (c ∷ t) = (hex_char-is_hex (c % 16) (omega arith), toy-digits t)

pub toy-HexHashes : HexHashes toy_hex
toy-HexHashes = record { digits = λ a t. (refl, (refl, toy-digits t)); many = λ a t. omega arith }

abbrev pub empty_disk : Disk
empty_disk = record {
  nodes = [];
  now = 1;
  entropy = (0 ∷ 0 ∷ 0 ∷ 0 ∷ 0 ∷ 0 ∷ 0 ∷ 0 ∷ 0 ∷ 0 ∷ 0 ∷ 0 ∷ 0 ∷ 0 ∷ 0 ∷ 0 ∷ []) ∷ [];
}

pub empty-IsSound : IsSound toy_hex [] empty_disk
unfolding file_at find lookup
empty-IsSound [] c x h = absurd (cc)
empty-IsSound (y ∷ q) c x h = absurd (cc)

abbrev pub stored_disk : Disk
stored_disk = (manifest_put toy_hex [] (codes "r") (codes "v1") (codes "{}") empty_disk).1

stored : Reaches toy_hex [] empty_disk stored_disk
stored = then_step at_once (manifest_stored (codes "r") (codes "v1") (codes "{}") empty_disk)

Reaches-IsSound_example : IsSound toy_hex [] stored_disk
Reaches-IsSound_example = Reaches-IsSound toy_hex [] toy-HexHashes empty-IsSound stored

served : (blobs_get [] [] (codes "sha256:00bd") stored_disk).0 ≡ ok (codes "{}", 2)
unfolding manifest_put mkdir_all put without any check_parts new_hasher split_first is_blocked
    is_under mkdir_from place remove remove_all rename write_file layer_link manifests_path
    upload_dir upload_file index_referrer blobs_upload_commit blobs_upload_write splice store_upload
    verify_upload write_link clean_from dir_of push_head resolve split_slash Uuid.hex hex_char
    Uuid.set_variant Uuid.set_version Uuid.stamp Uuid.to_string is_tag is_uuid is_name blobs_get
    check_link open_blob match_string list_beq lookup find stat read_file blob_path join parse
    blobs_upload_create Uuid.must_new Uuid.new
served = refl

digest_valid : is_digest (codes "sha256:00bd") ≡ true
unfolding is_digest match_string any
digest_valid = refl

blobs_get-Authentic_example :
    (algo : Text) × (hash : Text) × (parse (codes "sha256:00bd") ≡ ok (algo, hash))
    × ((hasher : Algo) → new_hasher algo ≡ ok hasher → toy_hash (codes "{}") ≡ hash)
blobs_get-Authentic_example =
    blobs_get-Authentic toy_hex [] empty_disk stored_disk
      (blobs_get [] [] (codes "sha256:00bd") stored_disk).1 [] (codes "sha256:00bd") (codes "{}") 2
      toy-HexHashes empty-IsSound stored digest_valid
      (λ i. (served i, (blobs_get [] [] (codes "sha256:00bd") stored_disk).1))
