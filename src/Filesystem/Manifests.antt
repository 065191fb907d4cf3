-- ===== src/Filesystem/Manifests.antt =====
-- internal/data/filesystem/manifests.go; `ManifestsList` is with the other listings.
pub mod Apart
pub mod Links
pub mod Stored
mod Tests
use simple_registry.Base.{
  ℕ, Bool, Option, none, some, [], ◌∷◌, ◌++◌, nat_eq, list_eq, Text, codes, Result, ok, err, Action,
  pure, raise, lift, ◌>>=◌, ◌>>◌, repo_invalid, digest_invalid, panic, length, ltb, if◌then◌else◌,
}
use simple_registry.Digest.{sha256, parse}
use simple_registry.Disk.{Disk, write_file, remove_all, mkdir_all}
use simple_registry.Oci.{ImageManifest, DescriptorManifest}
use simple_registry.Paths.{FilePath}
use simple_registry.Validator.{is_name, is_tag}
use simple_registry.Filesystem.Blobs.{reads, stats, open_blob, blob_last_access}
use simple_registry.Filesystem.Layout.{Library, manifests_path}
use simple_registry.Filesystem.Uploads.{
  require, ignore, write_link, blobs_upload_create, blobs_upload_write, blobs_upload_commit,
}

abbrev pub manifest_algo : Text
manifest_algo = codes "sha256"

module _ (lib : Library) (base : FilePath) where
  abbrev pub revision_dir : Text → Text → Text → FilePath
  revision_dir repo algo hash = manifests_path base repo (codes "revisions" ∷ algo ∷ hash ∷ [])

  abbrev pub revision_link : Text → Text → Text → FilePath
  revision_link repo algo hash =
      manifests_path base repo (codes "revisions" ∷ algo ∷ hash ∷ codes "link" ∷ [])

  abbrev pub tag_dir : Text → Text → FilePath
  tag_dir repo tag = manifests_path base repo (codes "tags" ∷ tag ∷ [])

  abbrev pub tag_link : Text → Text → FilePath
  tag_link repo tag =
      manifests_path base repo (codes "tags" ∷ tag ∷ codes "current" ∷ codes "link" ∷ [])

  abbrev pub referrer_dir : Text → Text → Text → Text → FilePath
  referrer_dir repo algo hash referrer =
      manifests_path base repo (codes "referrers" ∷ algo ∷ hash ∷ referrer ∷ [])

  abbrev pub referrer_link : Text → Text → Text → Text → FilePath
  referrer_link repo algo hash referrer =
      manifests_path base repo (codes "referrers" ∷ algo ∷ hash ∷ referrer ∷ codes "link" ∷ [])

  -- The part of `indexReferrer` behind the test for a subject.
  unfoldable pub index_subject : Text → Text → Text → Action Disk (Unit {0})
  index_subject repo referrer subject = do
    (algo, hash) ← lift (parse subject)
    mkdir_all (referrer_dir repo algo hash referrer)
    write_file (referrer_link repo algo hash referrer) subject

  abbrev pub subject_or_nothing : Text → Text → Option DescriptorManifest → Action Disk (Unit {0})
  subject_or_nothing repo referrer none = pure tt
  subject_or_nothing repo referrer (some subject) = index_subject repo referrer subject.digest

  abbrev pub index_decoded : Text → Text → Option ImageManifest → Action Disk (Unit {0})
  index_decoded repo referrer none = pure tt
  index_decoded repo referrer (some m) = subject_or_nothing repo referrer m.subject

  unfoldable pub index_referrer : Text → Text → Text → Action Disk (Unit {0})
  index_referrer repo referrer manifest =
      index_decoded repo referrer (lib.decode_image_manifest manifest)

  abbrev pub update_tag : Text → Text → Text → Bool → Action Disk (Unit {0})
  update_tag repo reference digest tagged =
      if tagged then write_link lib base (tag_link repo reference) digest else pure tt

  -- The error of `indexReferrer` is dropped.
  unfoldable pub manifest_put : Text → Text → Text → Action Disk Text
  manifest_put repo reference content = do
    require (is_name repo) repo_invalid
    let hash = lib.hash_as_string sha256 content
    let digest = manifest_algo ++ b':' ∷ hash
    uuid ← blobs_upload_create lib base repo
    blobs_upload_write lib base repo uuid content none
    blobs_upload_commit lib base repo uuid digest
    write_link lib base (revision_link repo manifest_algo hash) digest
    update_tag repo reference digest (is_tag reference)
    ignore (index_referrer repo digest content)
    pure digest

  abbrev pub resolve_tag : Text → Text → Action Disk (Text × Text)
  resolve_tag repo tag = do link ← reads (tag_link repo tag); lift (parse link)

  -- The algorithm and the hash that a reference stands for. What is neither a digest nor a tag
  -- leaves both empty, as in the source.
  unfoldable pub resolve_reference : Text → Text → Action Disk (Text × Text)
  resolve_reference repo reference = elim (parse reference) [
    | ok parts ↦ pure parts
    | err e ↦ if is_tag reference then resolve_tag repo reference else pure ([], [])
  ]

  -- `hash[0:2]` panics on a hash of fewer than two bytes: nothing tests its length here.
  unfoldable pub manifest_get : Text → Text → Action Disk (Text × ℕ × Text)
  manifest_get repo reference = do
    require (is_name repo) repo_invalid
    (algo, hash) ← resolve_reference repo reference
    if ltb (length hash) 2 then raise panic else do
      (content, size) ← open_blob base algo hash
      pure (content, size, algo ++ b':' ∷ hash)

  -- The parts of the subject's digest, empty where it is malformed.
  abbrev pub parts_or_empty : Result (Text × Text) → Text × Text
  parts_or_empty (ok p) = p
  parts_or_empty (err e) = ([], [])

  abbrev pub drop_subject : Text → Text → Option DescriptorManifest → Action Disk (Unit {0})
  drop_subject repo reference none = pure tt
  drop_subject repo reference (some subject) =
      let (algo, hash) = parts_or_empty (parse subject.digest) in
      remove_all (referrer_dir repo algo hash reference)

  abbrev pub drop_decoded : Text → Text → Option ImageManifest → Action Disk (Unit {0})
  drop_decoded repo reference none = pure tt
  drop_decoded repo reference (some m) = drop_subject repo reference m.subject

  -- Errors are dropped; a panic of `ManifestGet` is not.
  abbrev pub on_manifest : Text → Text → Result (Text × ℕ × Text) → Action Disk (Unit {0})
  on_manifest repo reference (ok (content, _, _)) =
      drop_decoded repo reference (lib.decode_image_manifest content)
  on_manifest repo reference (err panic) = raise panic
  on_manifest repo reference (err e) = pure tt

  -- The removal of the referrer that a manifest is.
  unfoldable pub drop_referrer : Text → Text → Action Disk (Unit {0})
  drop_referrer repo reference d =
      let (r, d') = manifest_get repo reference d in on_manifest repo reference r d'

  abbrev pub parse_or_invalid : Text → Result (Text × Text)
  parse_or_invalid reference = elim (parse reference) [
    | ok p ↦ ok p
    | err e ↦ err (digest_invalid e)
  ]

  abbrev pub delete_tag : Text → Text → Action Disk (Unit {0})
  delete_tag repo tag = do stats (tag_dir repo tag); remove_all (tag_dir repo tag)

  unfoldable pub delete_revision : Text → Text → Action Disk (Unit {0})
  delete_revision repo reference = do
    (algo, hash) ← lift (parse_or_invalid reference)
    stats (revision_dir repo algo hash)
    remove_all (revision_dir repo algo hash)

  unfoldable pub manifest_delete : Text → Text → Action Disk (Unit {0})
  manifest_delete repo reference = do
    require (is_name repo) repo_invalid
    if is_tag reference
        then delete_tag repo reference
        else do drop_referrer repo reference; delete_revision repo reference

  unfoldable pub manifest_last_access : Text → Action Disk ℕ
  manifest_last_access digest = blob_last_access base digest
