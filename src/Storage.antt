-- ===== src/Storage.antt =====
-- internal/data/data.go: the interface `DataStorage`, as a record of actions on the state `S` of
-- an implementation. The filesystem storage and the pull-through proxy are such records; the
-- garbage collector and the HTTP handlers take one. Readers are the bytes that they will give. The
-- iterators of the interface are read to their end before anything else happens in every caller,
-- so they are lists.
use simple_registry.Base.{ℕ, Option, List, Text, Action}

pub record DataStorage (S : Type 0) : Type 0 where
  pub blobs_get : Text → Text → Action S (Text × ℕ)
  pub blobs_delete : Text → Text → Action S (Unit {0})
  pub blobs_list : Action S (List Text)
  pub blob_last_access : Text → Action S ℕ
  pub blobs_upload_create : Text → Action S Text
  pub blobs_upload_cancel : Text → Text → Action S (Unit {0})
  -- The start is nothing where the Go code passes a negative number.
  pub blobs_upload_write : Text → Text → Text → Option ℕ → Action S (Unit {0})
  pub blobs_upload_commit : Text → Text → Text → Action S (Unit {0})
  pub blobs_upload_size : Text → Text → Action S ℕ
  pub manifest_put : Text → Text → Text → Action S Text
  pub manifest_get : Text → Text → Action S (Text × ℕ × Text)
  pub manifest_delete : Text → Text → Action S (Unit {0})
  pub manifests_list : Text → Action S (List Text)
  pub manifest_last_access : Text → Action S ℕ
  pub tags_list : Text → Action S (List Text)
  pub repositories_list : Action S (List Text)
  pub referrers_get : Text → Text → Action S (List Text)
