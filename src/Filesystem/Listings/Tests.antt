-- ===== src/Filesystem/Listings/Tests.antt =====
-- The listings of a disk with one repository, one tag and one blob, and of its storage.
use simple_registry.Base.{
  List, [], ◌∷◌, ◌++◌, ◌↔◌, ◌⊎◌, ◌≡◌, refl, nat_eq, list_eq, list_beq, Text, codes, ok, In, lookup,
  keep, sort_texts, contains,
}
use simple_registry.MapSet.{add_one}
use simple_registry.Disk.{Disk, file, dir, find, stat, is_blocked}
use simple_registry.Disk.Entries.{read_dir, child_names}
use simple_registry.Paths.{FilePath, join, split_slash, clean_from, resolve}
use simple_registry.Filesystem.Layout.{manifests_path}
use simple_registry.Filesystem.Listings.{blob_digests, manifest_digests, tags_of}
use simple_registry.Filesystem.Listings.Named.{
  Lies, IsRevision, IsReferrer, blob_digests_iff, manifest_digests_iff,
}
use simple_registry.Filesystem.Listings.Walk.{repositories_of}
use simple_registry.Filesystem.Listings.Walk.Complete.{Found, repositories_of_complete}

abbrev repository : FilePath
repository = codes "repositories" ∷ codes "r" ∷ codes "_manifests" ∷ []

abbrev shelf : Disk
shelf = record {
  nodes =
      (codes "repositories" ∷ [], dir)
      ∷ (codes "repositories" ∷ codes "r" ∷ [], dir)
      ∷ (repository, dir)
      ∷ (repository ++ codes "tags" ∷ [], dir)
      ∷ (repository ++ codes "tags" ∷ codes "v1" ∷ [], dir)
      ∷ (codes "blobs" ∷ [], dir)
      ∷ (codes "blobs" ∷ codes "sha256" ∷ [], dir)
      ∷ (codes "blobs" ∷ codes "sha256" ∷ codes "ab" ∷ [], dir)
      ∷ (codes "blobs" ∷ codes "sha256" ∷ codes "ab" ∷ codes "abc" ∷ [], file (codes "abc") 0)
      ∷ [];
  now = 1;
  entropy = [];
}

blob_digests_iff_example : In (codes "sha256:abc") (blob_digests [] shelf) ↔ (
    (algo : Text) × (prefix : Text) × (hash : Text) × Lies [] shelf
      (codes "sha256:abc")
      algo
      prefix
      hash)
blob_digests_iff_example = blob_digests_iff [] shelf (codes "sha256:abc")

tagged : tags_of [] shelf (codes "r") ≡ ok (codes "v1" ∷ [])
unfolding tags_of read_dir child_names stat find is_blocked lookup list_beq join split_slash
    clean_from resolve manifests_path keep sort_texts add_one contains
tagged = refl

manifest_digests_iff_example : In (codes "sha256:abc") (manifest_digests [] shelf (codes "r")) ↔ (
    IsRevision [] shelf (codes "r") (codes "sha256:abc")
    ⊎ IsReferrer [] shelf (codes "r") (codes "sha256:abc"))
manifest_digests_iff_example = manifest_digests_iff [] shelf (codes "r") (codes "sha256:abc")

has_repositories : stat (join [] (codes "repositories" ∷ [])) shelf ≡ ok dir
unfolding stat find is_blocked lookup list_beq join split_slash clean_from resolve
has_repositories = refl

repositories_of_complete_example :
    (out : List Text) × (repositories_of [] shelf ≡ ok out)
    × ((name : Text) → In name out ↔ Found shelf (join [] (codes "repositories" ∷ [])) [] name)
repositories_of_complete_example = repositories_of_complete [] shelf has_repositories
