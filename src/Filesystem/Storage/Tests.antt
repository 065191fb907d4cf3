-- ===== src/Filesystem/Storage/Tests.antt =====
-- A collection of a disk with one repository whose tag has no link, and one blob: the blob goes.
use simple_registry.Base.{
  true, false, none, [], ◌∷◌, ◌++◌, ◌≡◌, refl, nat_eq, list_eq, pair_eq, pair_beq, list_beq, codes,
  ok, lookup, keep, sort_texts, contains, any, without, put,
}
use simple_registry.Digest.{parse, split_first, check_parts}
use simple_registry.Disk.{Disk, file, dir, find, stat, is_blocked, read_file, remove_all, is_under}
use simple_registry.Disk.Entries.{read_dir, child_names, sub_dirs, sub_files}
use simple_registry.MapSet.{add_one, add}
use simple_registry.Paths.{FilePath, join, split_slash, clean_from, resolve, push_head}
use simple_registry.Regex.{match_string}
use simple_registry.Validator.{is_name, is_tag}
use simple_registry.Filesystem.Blobs.{blobs_delete, blob_last_access, open_blob, doomed}
use simple_registry.Filesystem.Layout.{Library, manifests_path, blob_path}
use simple_registry.Filesystem.Listings.{blob_digests, manifest_digests, tags_of}
use simple_registry.Filesystem.Listings.Walk.{
  repositories_of, walk_dir, visit_each, visit, has_manifests, deepest,
}
use simple_registry.Filesystem.Manifests.{
  manifest_get, manifest_last_access, manifest_delete, resolve_reference,
}
use simple_registry.Filesystem.Storage.{filesystem_storage}
use simple_registry.Garbage.Mark.{Decoders}
use simple_registry.Garbage.Sweep.{
  Report, garbage_collect, each, mark_roots, root_of_tag, roots_of_repo, collect_root_manifests,
  plan_sweep_manifests, delete_blob, delete_manifest, plan_blob, plan_manifest, plan_repo,
  plan_sweep_blobs, sweep,
}

abbrev repository : FilePath
repository = codes "repositories" ∷ codes "r" ∷ codes "_manifests" ∷ []

abbrev cellar : Disk
cellar = record {
  nodes =
      (codes "repositories" ∷ [], dir)
      ∷ (codes "repositories" ∷ codes "r" ∷ [], dir)
      ∷ (repository, dir)
      ∷ (repository ++ codes "tags" ∷ [], dir)
      ∷ (repository ++ codes "tags" ∷ codes "v1" ∷ [], dir)
      ∷ (codes "blobs" ∷ [], dir)
      ∷ (codes "blobs" ∷ codes "sha256" ∷ [], dir)
      ∷ (codes "blobs" ∷ codes "sha256" ∷ codes "ab" ∷ [], dir)
      ∷ (codes "blobs" ∷ codes "sha256" ∷ codes "ab" ∷ codes "abc" ∷ [], file (codes "abc") 0)
      ∷ [];
  now = 1;
  entropy = [];
}

abbrev no_library : Library
no_library = record {
  hash_as_string = λ a t. t;
  decode_image_manifest = λ t. none;
  decode_first_image = λ t. none;
  format_time = λ n. [];
}

abbrev no_decoders : Decoders
no_decoders = record {
  decode_raw = λ t. none;
  decode_image = λ t. none;
  decode_index = λ t. none;
  decode_docker_v1 = λ t. none;
}

abbrev cellar_report : Report
cellar_report = record {
  blobs_to_delete = codes "sha256:abc" ∷ [];
  manifests_to_delete = [];
  marks = record { manifests = []; blobs = [] };
}

collected :
    (garbage_collect (filesystem_storage no_library []) no_decoders 1 10 false 2 true cellar).0
    ≡ ok cellar_report
unfolding garbage_collect each mark_roots root_of_tag roots_of_repo collect_root_manifests
    plan_sweep_manifests delete_blob delete_manifest plan_blob plan_manifest plan_repo
    plan_sweep_blobs sweep pair_beq list_beq any contains add add_one parse split_first check_parts
    find stat is_blocked read_file remove_all is_under read_dir child_names sub_dirs sub_files join
    split_slash clean_from resolve push_head match_string is_name is_tag blobs_delete
    blob_last_access open_blob doomed manifests_path blob_path blob_digests manifest_digests tags_of
    repositories_of walk_dir visit_each visit has_manifests deepest manifest_get
    manifest_last_access manifest_delete resolve_reference lookup keep sort_texts without put
collected = refl
