-- ===== src/Filesystem/Layout.antt =====
-- Where the storage keeps what (the calls of `filepath.Join` in internal/data/filesystem), and the
-- parts of the standard library that the storage uses and this model leaves open.
pub mod Apart
use simple_registry.Base.{ℕ, Option, List, [], ◌∷◌, Text, codes, take}
use simple_registry.Digest.{Algo}
use simple_registry.Oci.{ImageManifest}
use simple_registry.Paths.{FilePath, join}

pub record Library : Type 0 where
  -- SHA-256 or SHA-512 of a text, in lower-case hexadecimal.
  pub hash_as_string : Algo → Text → Text
  -- `json.Unmarshal` into an `ImageManifest`; nothing where it returns an error.
  pub decode_image_manifest : Text → Option ImageManifest
  -- `json.Decoder.Decode` of the first value into an `ImageManifest`, whatever follows it.
  pub decode_first_image : Text → Option ImageManifest
  -- `Time.Format(time.RFC3339Nano)`.
  pub format_time : ℕ → Text

module _ (base : FilePath) where
  unfoldable pub upload_dir : Text → Text → FilePath
  upload_dir repo uuid = join base (codes "repositories" ∷ repo ∷ codes "_uploads" ∷ uuid ∷ [])

  unfoldable pub upload_file : Text → Text → Text → FilePath
  upload_file repo uuid name =
      join base (codes "repositories" ∷ repo ∷ codes "_uploads" ∷ uuid ∷ name ∷ [])

  -- `hash[0:2]` is safe where the caller has seen two bytes or more.
  unfoldable pub blob_path : Text → Text → FilePath
  blob_path algo hash = join base (codes "blobs" ∷ algo ∷ take 2 hash ∷ hash ∷ [])

  unfoldable pub layer_dir : Text → Text → Text → FilePath
  layer_dir repo algo hash =
      join base (codes "repositories" ∷ repo ∷ codes "_layers" ∷ algo ∷ hash ∷ [])

  unfoldable pub layer_link : Text → Text → Text → FilePath
  layer_link repo algo hash =
      join base (codes "repositories" ∷ repo ∷ codes "_layers" ∷ algo ∷ hash ∷ codes "link" ∷ [])

  -- repositories/<repo>/_manifests/<parts>
  unfoldable pub manifests_path : Text → List Text → FilePath
  manifests_path repo parts = join base (codes "repositories" ∷ repo ∷ codes "_manifests" ∷ parts)
