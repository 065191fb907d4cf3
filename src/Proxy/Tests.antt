-- ===== src/Proxy/Tests.antt =====
-- An upstream that answers every request, in front of the sample storage.
use simple_registry.Base.{
  true, none, some, List, [], ◌∷◌, nat_eq, list_eq, list_beq, any, contains, codes, ok, ◌≡◌, refl,
}
use simple_registry.Sample.{sample, image_text}
use simple_registry.Proxy.Upstream.{
  Proxy, Network, match_proxy, matches_any, do_upstream_request, authorize, fetch_blob,
  fetch_manifest,
}
use simple_registry.Proxy.Storage.{
  store_blob, blob_missing, blobs_get, manifest_from, read_manifest, manifest_get,
}

abbrev upstream : Network
upstream = record {
  send = λ r. some (record {
    status = 200;
    www_authenticate = [];
    docker_content_digest = [];
    body = image_text;
  });
  token_url = λ a b c. none;
  decode_token = λ t. none;
  decode_tags = λ t. none;
  decode_index = λ t. none;
  compile = λ t. some (λ repo. true);
}

abbrev proxies : List Proxy
proxies = record { url = codes "u"; username = []; password = []; scopes = codes "." ∷ [] } ∷ []

pulled_blob :
    blobs_get upstream sample proxies (codes "r") (codes "d") []
    ≡ (ok (codes "d", 1), codes "d" ∷ [])
unfolding blobs_get blob_missing store_blob match_proxy matches_any fetch_blob do_upstream_request
    authorize any contains list_beq
pulled_blob = refl

pulled_manifest :
    manifest_get upstream sample proxies (codes "r") (codes "z") []
    ≡ (ok (image_text, 5, codes "m"), [])
unfolding manifest_get read_manifest manifest_from match_proxy matches_any fetch_manifest
    do_upstream_request authorize any contains list_beq
pulled_manifest = refl
