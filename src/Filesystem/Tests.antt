-- ===== src/Filesystem/Tests.antt =====
-- An upload of a repository that is committed, over a toy hash that is the text itself.
use simple_registry.Base.{
  some, ◌++◌, ◌≢◌, inr, true, none, [], ◌∷◌, nat_eq, list_eq, list_beq, Text, codes, ok, ◌≡◌,
  length, refl, any, lookup, put, without,
}
use simple_registry.Digest.{parse, split_first, check_parts, new_hasher}
use simple_registry.Regex.{match_string}
use simple_registry.Validator.{is_name, is_digest, is_uuid}
use simple_registry.Disk.{
  Disk, file, dir, read_file, stat, find, is_blocked, place, write_file, mkdir_from, mkdir_all,
  remove_all, remove, rename, is_under,
}
use simple_registry.Paths.{FilePath, join, split_slash, clean_from, resolve, dir_of}
use simple_registry.Filesystem.Layout.{Library, upload_file, blob_path, layer_link}
use simple_registry.Filesystem.Uploads.{
  blobs_upload_write, splice, verify_upload, store_upload, write_link, blobs_upload_commit,
}
use simple_registry.Filesystem.Commits.{Verified}
use simple_registry.Filesystem.Appends.{blobs_upload_write-append}
use simple_registry.Disk.Laws.{file_at}
use simple_registry.Filesystem.Stored.{blobs_upload_commit-Stored}
use simple_registry.Filesystem.Blobs.{blobs_get}

abbrev pub toy : Library
toy = record {
  hash_as_string = λ a t. t;
  decode_image_manifest = λ t. none;
  decode_first_image = λ t. none;
  format_time = λ n. [];
}

abbrev pub upload_id : Text
upload_id = codes "00000000-0000-0000-0000-000000000000"

abbrev pub start : Disk
start = record {
  nodes =
      (codes "repositories" ∷ [], dir)
      ∷ (codes "repositories" ∷ codes "r" ∷ [], dir)
      ∷ (codes "repositories" ∷ codes "r" ∷ codes "_uploads" ∷ [], dir)
      ∷ (codes "repositories" ∷ codes "r" ∷ codes "_uploads" ∷ upload_id ∷ [], dir)
      ∷ (
        codes "repositories" ∷ codes "r" ∷ codes "_uploads" ∷ upload_id ∷ codes "data" ∷ [],
        file (codes "abc") 0,
      )
      ∷ [];
  now = 1;
  entropy = [];
}

pub valid_r : is_name (codes "r") ≡ true
unfolding is_name match_string any
valid_r = refl

pub committed :
    (blobs_upload_commit toy [] (codes "r") upload_id (codes "sha256:abc") start).0 ≡ ok tt
unfolding blobs_upload_commit parse split_first check_parts verify_upload new_hasher is_name is_uuid
    match_string any list_beq store_upload write_link upload_file blob_path layer_link join
    split_slash clean_from resolve dir_of read_file stat find is_blocked place write_file mkdir_from
    mkdir_all remove_all remove rename is_under lookup put without
committed = refl

pub digest_ok : is_digest (codes "sha256:abc") ≡ true
unfolding is_digest match_string any
digest_ok = refl

blobs_upload_commit-Stored_example :
    (content : Text) × Verified toy [] (codes "r") upload_id (codes "sha256:abc") start
    × (read_file (upload_file [] (codes "r") upload_id (codes "data")) start ≡ ok content)
    × (blobs_get []
          (codes "r")
          (codes "sha256:abc")
          (blobs_upload_commit toy [] (codes "r") upload_id (codes "sha256:abc") start).1
        ≡ (
          ok (content, length content),
          (blobs_upload_commit toy [] (codes "r") upload_id (codes "sha256:abc") start).1,
        ))
blobs_upload_commit-Stored_example =
    blobs_upload_commit-Stored toy [] (codes "r") upload_id (codes "sha256:abc") start
      (blobs_upload_commit toy [] (codes "r") upload_id (codes "sha256:abc") start).1 digest_ok
      (λ i. (
        committed i,
        (blobs_upload_commit toy [] (codes "r") upload_id (codes "sha256:abc") start).1,
      ))

held : read_file (upload_file [] (codes "r") upload_id (codes "data")) start ≡ ok (codes "abc")
unfolding upload_file join split_slash clean_from resolve read_file stat find is_blocked lookup
    list_beq
held = refl

appended : (blobs_upload_write toy [] (codes "r") upload_id (codes "de") (some 3) start).0 ≡ ok tt
unfolding blobs_upload_write splice is_name is_uuid match_string any list_beq upload_file join
    split_slash clean_from resolve dir_of read_file stat find is_blocked place write_file lookup put
appended = refl

blobs_upload_write-append_example :
    (read_file
        (upload_file [] (codes "r") upload_id (codes "data"))
        (blobs_upload_write toy [] (codes "r") upload_id (codes "de") (some 3) start).1
      ≡ ok (codes "abc" ++ codes "de"))
    × ((q : FilePath)
        → upload_file [] (codes "r") upload_id (codes "data") ≢ q
        → file_at q (blobs_upload_write toy [] (codes "r") upload_id (codes "de") (some 3) start).1
          ≡ file_at q start)
blobs_upload_write-append_example =
    blobs_upload_write-append toy [] (codes "r") upload_id (codes "abc") (codes "de") (some 3) start
      (blobs_upload_write toy [] (codes "r") upload_id (codes "de") (some 3) start).1 held
      (inr refl)
      (λ i. (
        appended i,
        (blobs_upload_write toy [] (codes "r") upload_id (codes "de") (some 3) start).1,
      ))
