-- ===== src/Filesystem/Blobs.antt =====
-- internal/data/filesystem/blobs.go.
use simple_registry.Base.{
  ℕ, [], ◌∷◌, ◌==◌, nat_eq, list_eq, Text, Result, ok, Action, pure, raise, lift, ◌>>=◌, ◌>>◌,
  hash_short, digest_mismatch, link_mismatch, length, ltb, if◌then◌else◌,
}
use simple_registry.Digest.{parse}
use simple_registry.Disk.{Disk, Node, file, dir, stat, read_file, remove_all}
use simple_registry.Paths.{FilePath}
use simple_registry.Filesystem.Layout.{blob_path, layer_dir, layer_link}

-- `os.ReadFile` and friends as actions.
abbrev pub reads : FilePath → Action Disk Text
reads p d = (read_file p d, d)

abbrev pub stats : FilePath → Action Disk Node
stats p d = (stat p d, d)

module _ (base : FilePath) where
  -- The link of a repository to a blob must hold the digest that is asked for.
  unfoldable pub check_link : Text → Text → Text → Text → Action Disk (Unit {0})
  check_link [] digest algo hash = pure tt
  check_link (c ∷ repo) digest algo hash = do
    link ← reads (layer_link base (c ∷ repo) algo hash)
    if link == digest then pure tt else raise link_mismatch

  unfoldable pub open_blob : Text → Text → Action Disk (Text × ℕ)
  open_blob algo hash = do
    content ← reads (blob_path base algo hash)
    pure (content, length content)

  unfoldable pub blobs_get : Text → Text → Action Disk (Text × ℕ)
  blobs_get repo digest = do
    (algo, hash) ← lift (parse digest)
    if ltb (length hash) 2
        then raise hash_short
        else do check_link repo digest algo hash; open_blob algo hash

  -- With a repository only its link goes, else the blob.
  unfoldable pub doomed : Text → Text → Text → FilePath
  doomed [] algo hash = blob_path base algo hash
  doomed (c ∷ repo) algo hash = layer_dir base (c ∷ repo) algo hash

  unfoldable pub blobs_delete : Text → Text → Action Disk (Unit {0})
  blobs_delete repo digest = do
    (algo, hash) ← lift (parse digest)
    if ltb (length hash) 2
        then raise hash_short
        else do stats (doomed repo algo hash); remove_all (doomed repo algo hash)

  -- The model keeps no time for a directory, and no blob is one.
  abbrev pub atime_of : Node → Result ℕ
  atime_of (file c t) = ok t
  atime_of dir = ok 0

  unfoldable pub blob_last_access : Text → Action Disk ℕ
  blob_last_access digest = do
    (algo, hash) ← lift (parse digest)
    if ltb (length hash) 2
        then raise digest_mismatch
        else do node ← stats (blob_path base algo hash); lift (atime_of node)
