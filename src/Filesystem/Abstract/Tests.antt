-- ===== src/Filesystem/Abstract/Tests.antt =====
-- A commit, a read and two deletions against the abstract store.
use simple_registry.Base.{
  [], ◌≡◌, refl, nat_eq, list_eq, list_beq, Text, codes, ok, lookup, put, without, any,
}
use simple_registry.Digest.{parse, split_first, check_parts, new_hasher}
use simple_registry.Disk.{
  Disk, find, stat, is_blocked, read_file, place, write_file, mkdir_from, mkdir_all, remove_all,
  remove, rename, is_under,
}
use simple_registry.Paths.{join, split_slash, clean_from, resolve, dir_of}
use simple_registry.Regex.{match_string}
use simple_registry.Validator.{is_name, is_uuid}
use simple_registry.Filesystem.Blobs.{blobs_get, blobs_delete, doomed}
use simple_registry.Filesystem.Layout.{upload_file, blob_path, layer_link, layer_dir}
use simple_registry.Filesystem.Uploads.{
  blobs_upload_commit, verify_upload, store_upload, write_link,
}
use simple_registry.Filesystem.Tests.{toy, upload_id, start, valid_r, committed, digest_ok}
use simple_registry.Filesystem.Abstract.{Agrees, abstract, get, unlink, erase, commit, served}
use simple_registry.Filesystem.Abstract.Commits.{blobs_upload_commit-Refines}
use simple_registry.Filesystem.Abstract.Refines.{
  blobs_get-Refines, blobs_delete-Unlinks, blobs_delete-Erases,
}

abbrev abc : Text
abc = codes "sha256:abc"

abbrev full : Disk
full = (blobs_upload_commit toy [] (codes "r") upload_id abc start).1

blobs_upload_commit-Refines_example :
    (content : Text) × (read_file (upload_file [] (codes "r") upload_id (codes "data")) start
      ≡ ok content)
    × Agrees (abstract [] full) (commit (codes "r") abc content (abstract [] start))
blobs_upload_commit-Refines_example =
    blobs_upload_commit-Refines toy [] (codes "r") upload_id abc start full digest_ok
      (λ i. (committed i, full))

blobs_get-Refines_example :
    served (blobs_get [] (codes "r") abc full).0 ≡ get (codes "r") abc (abstract [] full)
blobs_get-Refines_example = blobs_get-Refines [] full (codes "r") abc valid_r digest_ok

unlinked : (blobs_delete [] (codes "r") abc full).0 ≡ ok tt
unfolding blobs_delete doomed layer_dir blobs_upload_commit parse split_first check_parts
    verify_upload new_hasher is_name is_uuid match_string any list_beq store_upload write_link
    upload_file blob_path layer_link join split_slash clean_from resolve dir_of read_file stat find
    is_blocked place write_file mkdir_from mkdir_all remove_all remove rename is_under lookup put
    without
unlinked = refl

blobs_delete-Unlinks_example :
    Agrees
      (abstract [] (blobs_delete [] (codes "r") abc full).1)
      (unlink (codes "r") abc (abstract [] full))
blobs_delete-Unlinks_example =
    blobs_delete-Unlinks [] full (blobs_delete [] (codes "r") abc full).1 abc digest_ok (codes "r")
      valid_r (λ i. (unlinked i, (blobs_delete [] (codes "r") abc full).1))

erased : (blobs_delete [] [] abc full).0 ≡ ok tt
unfolding blobs_delete doomed layer_dir blobs_upload_commit parse split_first check_parts
    verify_upload new_hasher is_name is_uuid match_string any list_beq store_upload write_link
    upload_file blob_path layer_link join split_slash clean_from resolve dir_of read_file stat find
    is_blocked place write_file mkdir_from mkdir_all remove_all remove rename is_under lookup put
    without
erased = refl

blobs_delete-Erases_example :
    Agrees (abstract [] (blobs_delete [] [] abc full).1) (erase abc (abstract [] full))
blobs_delete-Erases_example =
    blobs_delete-Erases [] full (blobs_delete [] [] abc full).1 abc digest_ok
      (λ i. (erased i, (blobs_delete [] [] abc full).1))
