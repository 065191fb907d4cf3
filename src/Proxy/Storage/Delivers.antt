-- ===== src/Proxy/Storage/Delivers.antt =====
-- A proxy over the file system storage: where the bytes of a blob come from, and what they are.
mod Tests
use simple_registry.Base.{
  ℕ, true, some, List, ◌∷◌, nat_eq, list_eq, Text, Error, ok, err, ◌≡◌, ◌⊎◌, length,
}
use simple_registry.Digest.{Algo, parse, new_hasher}
use simple_registry.Disk.{Disk}
use simple_registry.Garbage.Mark.{is_not_exist}
use simple_registry.Paths.{FilePath}
use simple_registry.Storage.{DataStorage}
use simple_registry.Filesystem.Layout.{Library}
use simple_registry.Filesystem.Sound.{IsSound}
use simple_registry.Filesystem.Storage.{filesystem_storage}
use simple_registry.Proxy.Upstream.{Proxy, Network, match_proxy, fetch_blob}
use simple_registry.Proxy.Storage.{blobs_get}

module _ (net : Network) (lib : Library) (base : FilePath) (proxies : List Proxy) where
  abbrev disk_storage : DataStorage Disk
  disk_storage = filesystem_storage lib base

  -- The storage has no such blob, and the proxy that the repository matches was sent these bytes.
  pub record Pulled (repo digest content : Text) (d : Disk) : Type 0 where
    pub failure : Error
    pub missing : (disk_storage.blobs_get repo digest d).0 ≡ err failure
    pub not_there : is_not_exist failure ≡ true
    pub proxy : Proxy
    pub chosen : match_proxy net repo proxies ≡ ok (some proxy)
    pub sent : fetch_blob net proxy repo digest ≡ ok content

  pub record Delivers (repo digest content : Text) (size : ℕ) (d t : Disk) : Type 0 where
    -- The bytes are those of the storage, which stays as it is, or those of an upstream.
    pub source :
        ((disk_storage.blobs_get repo digest d ≡ (ok (content, size), d)) × (t ≡ d))
        ⊎ Pulled repo digest content d
    -- The next read needs no upstream.
    pub kept : disk_storage.blobs_get repo digest t ≡ (ok (content, size), t)
    pub sound : IsSound lib base t
    -- They have the hash that the digest names, if its algorithm is known.
    pub authentic :
        (algo : Text) × (hash : Text) × (parse digest ≡ ok (algo, hash))
        × ((hasher : Algo) → new_hasher algo ≡ ok hasher → lib.hash_as_string hasher content ≡ hash)
