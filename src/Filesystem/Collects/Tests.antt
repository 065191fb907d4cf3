-- ===== src/Filesystem/Collects/Tests.antt =====
-- A collection of a disk with one repository, whose tag names a manifest, and one blob that nothing
-- names: the blob goes, the manifest stays.
use simple_registry.Base.{
  true, Text, List, sym, subst, ◌∙◌, In, inl, inr, false, none, some, [], ◌∷◌, ◌++◌, ◌≡◌, refl,
  nat_eq, list_eq, pair_eq, pair_beq, list_beq, codes, ok, lookup, keep, sort_texts, contains, any,
  without, put,
}
use simple_registry.Digest.{parse, split_first, check_parts}
use simple_registry.Disk.{Disk, file, dir, find, stat, is_blocked, read_file, remove_all, is_under}
use simple_registry.Disk.Entries.{read_dir, child_names, sub_dirs, sub_files}
use simple_registry.MapSet.{add_one, add}
use simple_registry.Paths.{FilePath, join, split_slash, clean_from, resolve, push_head}
use simple_registry.Regex.{match_string}
use simple_registry.Validator.{is_name, is_tag, is_digest}
use simple_registry.Filesystem.Blobs.{blobs_delete, blob_last_access, open_blob, doomed}
use simple_registry.Filesystem.Layout.{Library, manifests_path, blob_path}
use simple_registry.Filesystem.Listings.{blob_digests, manifest_digests, tags_of, referrers_found}
use simple_registry.Filesystem.Listings.Walk.{
  repositories_of, walk_dir, visit_each, visit, has_manifests, deepest,
}
use simple_registry.Filesystem.Manifests.{
  manifest_get, manifest_last_access, manifest_delete, resolve_reference,
}
use simple_registry.Filesystem.Storage.{filesystem_storage}
use simple_registry.Disk.Laws.{file_at}
use simple_registry.Filesystem.Collects.Blobs.{garbage_collect-Keeps}
use simple_registry.Filesystem.Collects.Planned.{IsTidy, ok_list}
use simple_registry.Garbage.Mark.{
  Decoders, kind_of, raw_kind, mark_kind, mark_referrers, mark_payload, on_read, mark_unseen,
  mark_manifest, mark_each,
}
use simple_registry.Oci.{ImageManifest, media_type_oci_image_manifest}
use simple_registry.Garbage.Sweep.{
  Report, garbage_collect, each, mark_roots, root_of_tag, roots_of_repo, collect_root_manifests,
  plan_sweep_manifests, delete_blob, delete_manifest, plan_blob, plan_manifest, plan_repo,
  plan_sweep_blobs, sweep,
}

abbrev repository : FilePath
repository = codes "repositories" ∷ codes "r" ∷ codes "_manifests" ∷ []

abbrev blobs : FilePath
blobs = codes "blobs" ∷ codes "sha256" ∷ []

abbrev attic : Disk
attic = record {
  nodes =
      (codes "repositories" ∷ [], dir)
      ∷ (codes "repositories" ∷ codes "r" ∷ [], dir)
      ∷ (repository, dir)
      ∷ (repository ++ codes "tags" ∷ [], dir)
      ∷ (repository ++ codes "tags" ∷ codes "v1" ∷ [], dir)
      ∷ (repository ++ codes "tags" ∷ codes "v1" ∷ codes "current" ∷ [], dir)
      ∷ (
        repository ++ codes "tags" ∷ codes "v1" ∷ codes "current" ∷ codes "link" ∷ [],
        file (codes "sha256:abc") 0,
      )
      ∷ (codes "blobs" ∷ [], dir)
      ∷ (blobs, dir)
      ∷ (blobs ++ codes "ab" ∷ [], dir)
      ∷ (blobs ++ codes "ab" ∷ codes "abc" ∷ [], file (codes "m") 0)
      ∷ (blobs ++ codes "bc" ∷ [], dir)
      ∷ (blobs ++ codes "bc" ∷ codes "bcd" ∷ [], file (codes "x") 0)
      ∷ [];
  now = 1;
  entropy = [];
}

abbrev no_library : Library
no_library = record {
  hash_as_string = λ a t. t;
  decode_image_manifest = λ t. none;
  decode_first_image = λ t. none;
  format_time = λ n. [];
}

abbrev empty_image : ImageManifest
empty_image = record {
  media_type = [];
  config = record { media_type = []; digest = []; size = 0 };
  layers = [];
  subject = none;
}

abbrev image_decoders : Decoders
image_decoders = record {
  decode_raw = λ t. some (record {
    has_signatures = false;
    has_history = false;
    media_type = media_type_oci_image_manifest;
  });
  decode_image = λ t. some empty_image;
  decode_index = λ t. none;
  decode_docker_v1 = λ t. none;
}

abbrev attic_report : Report
attic_report = record {
  blobs_to_delete = codes "sha256:bcd" ∷ [];
  manifests_to_delete = [];
  marks = record { manifests = codes "sha256:abc" ∷ []; blobs = [] };
}

listed : repositories_of [] attic ≡ ok (codes "r" ∷ [])
unfolding pair_beq list_beq any contains add add_one find stat is_blocked read_dir child_names
    sub_dirs sub_files join split_slash clean_from resolve push_head manifests_path blob_digests
    manifest_digests repositories_of walk_dir visit_each visit has_manifests deepest lookup keep
    sort_texts
listed = refl

blobs_listed : blob_digests [] attic ≡ codes "sha256:abc" ∷ codes "sha256:bcd" ∷ []
unfolding pair_beq list_beq any contains add add_one find stat is_blocked read_dir child_names
    sub_dirs sub_files join split_slash clean_from resolve push_head manifests_path blob_digests
    manifest_digests repositories_of walk_dir visit_each visit has_manifests deepest lookup keep
    sort_texts
blobs_listed = refl

manifests_listed : manifest_digests [] attic (codes "r") ≡ []
unfolding pair_beq list_beq any contains add add_one find stat is_blocked read_dir child_names
    sub_dirs sub_files join split_slash clean_from resolve push_head manifests_path blob_digests
    manifest_digests repositories_of walk_dir visit_each visit has_manifests deepest lookup keep
    sort_texts
manifests_listed = refl

collected :
    (garbage_collect (filesystem_storage no_library []) image_decoders 1 10 false 2 true attic).0
    ≡ ok attic_report
unfolding garbage_collect kind_of raw_kind mark_kind mark_referrers mark_payload on_read mark_unseen
    mark_manifest mark_each referrers_found is_digest each mark_roots root_of_tag roots_of_repo
    collect_root_manifests plan_sweep_manifests delete_blob delete_manifest plan_blob plan_manifest
    plan_repo plan_sweep_blobs sweep pair_beq list_beq any contains add add_one parse split_first
    check_parts find stat is_blocked read_file remove_all is_under read_dir child_names sub_dirs
    sub_files join split_slash clean_from resolve push_head match_string is_name is_tag blobs_delete
    blob_last_access open_blob doomed manifests_path blob_path blob_digests manifest_digests tags_of
    repositories_of walk_dir visit_each visit has_manifests deepest manifest_get
    manifest_last_access manifest_delete resolve_reference lookup keep sort_texts without put
collected = refl

abbrev cleaned : Disk
cleaned =
    (garbage_collect (filesystem_storage no_library []) image_decoders 1 10 false 2 true attic).1

abc_valid : is_digest (codes "sha256:abc") ≡ true
unfolding is_digest match_string any
abc_valid = refl

bcd_valid : is_digest (codes "sha256:bcd") ≡ true
unfolding is_digest match_string any
bcd_valid = refl

r_valid : is_name (codes "r") ≡ true
unfolding is_name match_string any
r_valid = refl

abc_parts : parse (codes "sha256:abc") ≡ ok (codes "sha256", codes "abc")
unfolding parse split_first check_parts
abc_parts = refl

in_blobs : (x : Text) → In x (codes "sha256:abc" ∷ codes "sha256:bcd" ∷ []) → is_digest x ≡ true
in_blobs x (inl e) = subst (λ z. is_digest z ≡ true) (sym e) abc_valid
in_blobs x (inr (inl e)) = subst (λ z. is_digest z ≡ true) (sym e) bcd_valid
in_blobs x (inr (inr z)) = absurd z

only_r :
    (repos : List Text)
    → repositories_of [] attic ≡ ok repos
    → (repo : Text) → In repo repos
    → repo ≡ codes "r"
only_r repos h repo i =
    let e : codes "r" ∷ [] ≡ repos = ok_list (sym listed ∙ h) in
    elim (subst (In repo) (sym e) i) [ inl same ↦ same | inr z ↦ absurd z ]

attic-IsTidy : IsTidy [] attic
attic-IsTidy = record {
  blobs = λ x i. in_blobs x (subst (In x) blobs_listed i);
  repositories =
      λ repos h repo i. subst (λ z. is_name z ≡ true) (sym (only_r repos h repo i)) r_valid;
  manifests = λ repos h repo i x j. absurd (
      subst (In x) manifests_listed
        (subst (λ z. In x (manifest_digests [] attic z)) (only_r repos h repo i) j));
}

garbage_collect-Keeps_example :
    file_at (blob_path [] (codes "sha256") (codes "abc")) cleaned
    ≡ file_at (blob_path [] (codes "sha256") (codes "abc")) attic
garbage_collect-Keeps_example =
    garbage_collect-Keeps no_library [] image_decoders attic attic-IsTidy false (codes "sha256:abc")
      (codes "sha256") (codes "abc") (λ x i. absurd i) abc_valid abc_parts 1 10 2 true cleaned
      attic_report (λ i. (collected i, cleaned)) (inr (inl refl))
