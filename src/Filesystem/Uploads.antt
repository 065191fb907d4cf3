-- ===== src/Filesystem/Uploads.antt =====
-- internal/data/filesystem/blobs_upload.go.
use simple_registry.Base.{
  ℕ, zero, suc, ◌+◌, ◌-◌, Bool, Option, none, some, [], ◌∷◌, ◌++◌, ◌==◌, nat_eq, list_eq, Text,
  codes, Error, ok, Action, pure, raise, lift, gets, ◌>>=◌, ◌>>◌, hash_short, digest_mismatch,
  repo_invalid, uuid_invalid, length, take, drop, ltb, if◌then◌else◌,
}
use simple_registry.Digest.{parse, new_hasher}
use simple_registry.Disk.{Disk, Node, file, dir, write_file, remove_all, remove, rename, mkdir_all}
use simple_registry.Paths.{FilePath, dir_of}
use simple_registry.Uuid
use simple_registry.Uuid.{to_string}
use simple_registry.Validator.{is_name, is_uuid}
use simple_registry.Filesystem.Blobs.{reads, stats}
use simple_registry.Filesystem.Layout.{Library, upload_dir, upload_file, blob_path, layer_link}

-- `if !ok { return err }`.
abbrev pub require : Bool → Error → Action Disk (Unit {0})
require b e = if b then pure tt else raise e

-- An error that the code drops.
abbrev pub ignore : Action Disk (Unit {0}) → Action Disk (Unit {0})
ignore m d = (ok tt, (m d).1)

-- Zero bytes, as a seek beyond the end of a file leaves them.
abbrev pub zeros : ℕ → Text
zeros zero = []
zeros (suc n) = 0 ∷ zeros n

-- `Seek` and `io.Copy`: the new bytes over the old ones from the start on; what the file holds
-- beyond them stays, and without new bytes nothing is written. Nothing for a start is the end of the
-- file.
unfoldable pub splice : Text → Text → Option ℕ → Text
splice old new none = old ++ new
splice old new (some start) =
    if new == []
    then old
    else take start old ++ zeros (start - length old) ++ new ++ drop (start + length new) old

module _ (lib : Library) (base : FilePath) where
  unfoldable pub blobs_upload_create : Text → Action Disk Text
  blobs_upload_create repo = do
    require (is_name repo) repo_invalid
    bytes ← Uuid.must_new
    let uuid = to_string bytes
    mkdir_all (upload_dir base repo uuid)
    now ← gets (λ d. d.now)
    write_file (upload_file base repo uuid (codes "startedat")) (lib.format_time now)
    write_file (upload_file base repo uuid (codes "data")) []
    pure uuid

  unfoldable pub blobs_upload_cancel : Text → Text → Action Disk (Unit {0})
  blobs_upload_cancel repo uuid = do
    require (is_name repo) repo_invalid
    require (is_uuid uuid) uuid_invalid
    stats (upload_dir base repo uuid)
    remove_all (upload_dir base repo uuid)

  unfoldable pub blobs_upload_write : Text → Text → Text → Option ℕ → Action Disk (Unit {0})
  blobs_upload_write repo uuid new start = do
    require (is_name repo) repo_invalid
    require (is_uuid uuid) uuid_invalid
    old ← reads (upload_file base repo uuid (codes "data"))
    write_file (upload_file base repo uuid (codes "data")) (splice old new start)

  -- The unexported `blobsUploadCommit`, in two parts: up to the comparison of the hashes, and from
  -- it on.
  unfoldable pub verify_upload : Text → Text → Text → Text → Action Disk (Unit {0})
  verify_upload repo uuid algo hash = do
    require (is_name repo) repo_invalid
    require (is_uuid uuid) uuid_invalid
    content ← reads (upload_file base repo uuid (codes "data"))
    hasher ← lift (new_hasher algo)
    require (lib.hash_as_string hasher content == hash) digest_mismatch

  unfoldable pub store_upload : Text → Text → Text → Text → Action Disk (Unit {0})
  store_upload repo uuid algo hash = do
    mkdir_all (dir_of (blob_path base algo hash))
    ignore (remove (blob_path base algo hash))
    rename (upload_file base repo uuid (codes "data")) (blob_path base algo hash)
    remove_all (dir_of (upload_file base repo uuid (codes "data")))

  unfoldable pub write_link : FilePath → Text → Action Disk (Unit {0})
  write_link p digest = do mkdir_all (dir_of p); write_file p digest

  unfoldable pub blobs_upload_commit : Text → Text → Text → Action Disk (Unit {0})
  blobs_upload_commit repo uuid digest = do
    (algo, hash) ← lift (parse digest)
    if ltb (length hash) 2 then raise hash_short else do
      verify_upload repo uuid algo hash
      store_upload repo uuid algo hash
      write_link (layer_link base repo algo hash) digest

  abbrev pub size_of : Node → ℕ
  size_of (file c t) = length c
  size_of dir = 0

  unfoldable pub blobs_upload_size : Text → Text → Action Disk ℕ
  blobs_upload_size repo uuid = do
    require (is_name repo) repo_invalid
    require (is_uuid uuid) uuid_invalid
    node ← stats (upload_file base repo uuid (codes "data"))
    pure (size_of node)
