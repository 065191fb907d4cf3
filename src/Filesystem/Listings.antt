-- ===== src/Filesystem/Listings.antt =====
-- The listings of internal/data/filesystem: `BlobsList`, `ManifestsList`, `TagsList`, `ReferrersGet`
-- and `RepositoriesList` (blobs.go, manifests.go, tags.go, referrers.go, repositories.go). Where the
-- source yields the elements of a set, the list has them in some order.
pub mod Walk
pub mod Named
mod Tests
use simple_registry.Base.{
  ℕ, Bool, Option, none, some, List, [], ◌∷◌, ◌++◌, ◌==◌, nat_eq, list_eq, Text, codes, Result, ok,
  err, Action, map, keep,
}
use simple_registry.Digest.{parse}
use simple_registry.Disk.{Disk}
use simple_registry.Disk.Entries.{read_dir, sub_dirs, sub_files, is_sub_dir}
use simple_registry.MapSet.{add}
use simple_registry.Paths.{FilePath, join}
use simple_registry.Validator.{is_digest}
use simple_registry.Filesystem.Layout.{manifests_path}

-- A loop that collects.
abbrev pub collect {ℓ} : {A : Type ℓ} → (A → List Text) → List A → List Text
collect f [] = []
collect f (a ∷ l) = f a ++ collect f l

module _ (base : FilePath) (d : Disk) where
  abbrev pub blobs_in_prefix : Text → Text → List Text
  blobs_in_prefix algo prefix =
      map (λ hash. algo ++ b':' ∷ hash)
        (sub_files (join base (codes "blobs" ∷ algo ∷ prefix ∷ [])) d)

  abbrev pub blobs_in_algo : Text → List Text
  blobs_in_algo algo =
      collect (blobs_in_prefix algo) (sub_dirs (join base (codes "blobs" ∷ algo ∷ [])) d)

  unfoldable pub blob_digests : List Text
  blob_digests = collect blobs_in_algo (sub_dirs (join base (codes "blobs" ∷ [])) d)

  abbrev pub revisions_in : Text → Text → List Text
  revisions_in repo algo =
      map (λ hash. algo ++ b':' ∷ hash)
        (sub_dirs (manifests_path base repo (codes "revisions" ∷ algo ∷ [])) d)

  abbrev pub referrers_of : Text → Text → Text → List Text
  referrers_of repo algo subject =
      sub_dirs (manifests_path base repo (codes "referrers" ∷ algo ∷ subject ∷ [])) d

  abbrev pub referrers_in : Text → Text → List Text
  referrers_in repo algo =
      collect (referrers_of repo algo)
        (sub_dirs (manifests_path base repo (codes "referrers" ∷ algo ∷ [])) d)

  -- A digest of a referrer is the name of its directory.
  unfoldable pub manifest_digests : Text → List Text
  manifest_digests repo =
      add
        (add [] (
          collect (revisions_in repo)
            (sub_dirs (manifests_path base repo (codes "revisions" ∷ [])) d)))
        (collect (referrers_in repo)
          (sub_dirs (manifests_path base repo (codes "referrers" ∷ [])) d))

  abbrev pub tags_path : Text → FilePath
  tags_path repo = manifests_path base repo (codes "tags" ∷ [])

  abbrev tag_names : Text → Result (List Text) → Result (List Text)
  tag_names repo (ok names) = ok (keep (is_sub_dir (tags_path repo) d) names)
  tag_names repo (err e) = err e

  unfoldable pub tags_of : Text → Result (List Text)
  tags_of repo = tag_names repo (read_dir (tags_path repo) d)

  abbrev only_digests : Result (List Text) → Result (List Text)
  only_digests (ok names) = ok (keep is_digest names)
  only_digests (err e) = err e

  abbrev referrers_named : Text → Result (Text × Text) → Result (List Text)
  referrers_named repo (ok (algo, hash)) =
      only_digests (read_dir (manifests_path base repo (codes "referrers" ∷ algo ∷ hash ∷ [])) d)
  referrers_named repo (err e) = err e

  unfoldable pub referrers_found : Text → Text → Result (List Text)
  referrers_found repo digest = referrers_named repo (parse digest)

module _ (base : FilePath) where
  abbrev pub blobs_list : Action Disk (List Text)
  blobs_list d = (ok (blob_digests base d), d)

  abbrev pub manifests_list : Text → Action Disk (List Text)
  manifests_list repo d = (ok (manifest_digests base d repo), d)

  abbrev pub tags_list : Text → Action Disk (List Text)
  tags_list repo d = (tags_of base d repo, d)

  abbrev pub referrers_get : Text → Text → Action Disk (List Text)
  referrers_get repo digest d = (referrers_found base d repo digest, d)
