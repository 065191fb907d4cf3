-- ===== src/Proxy/Storage/Delivers/Tests.antt =====
-- A proxy in front of an empty disk, with an upstream that has the blob.
use simple_registry.Base.{true, none, some, List, [], ◌∷◌, nat_eq, list_eq, codes}
use simple_registry.Disk.{Disk}
use simple_registry.Uuid
use simple_registry.Filesystem.Blobs as Files
use simple_registry.Filesystem.Sound.Tests.{toy_hex, empty_disk}
use simple_registry.Proxy.Upstream.{Proxy, Network}
use simple_registry.Proxy.Storage.{blobs_get}
use simple_registry.Proxy.Storage.Delivers.{Delivers, disk_storage}

abbrev upstream : Network
upstream = record {
  send = λ r. some (record {
    status = 200;
    www_authenticate = [];
    docker_content_digest = [];
    body = codes "abc";
  });
  token_url = λ a b c. none;
  decode_token = λ t. none;
  decode_tags = λ t. none;
  decode_index = λ t. none;
  compile = λ t. some (λ repo. true);
}

abbrev proxies : List Proxy
proxies = record { url = codes "u"; username = []; password = []; scopes = codes "." ∷ [] } ∷ []

abbrev cached : Disk
cached =
    (blobs_get upstream (disk_storage upstream toy_hex [] proxies) proxies (codes "r")
      (codes "sha256:00123") empty_disk).1
