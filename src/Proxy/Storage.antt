-- ===== src/Proxy/Storage.antt =====
-- internal/data/proxy/proxy.go and wrappers.go: the methods of `ProxyDataStorage`, over the
-- storage `next`.
pub mod Laws
pub mod Delivers
use simple_registry.Base.{
  ℕ, Bool, true, false, not, Option, none, some, List, [], ◌∷◌, ◌++◌, ◌&&◌, ◌||◌, ◌==◌, nat_eq,
  list_eq, Text, Error, Result, ok, err, Action, pure, raise, lift, ◌>>=◌, ◌>>◌, not_exist,
  storage_not_initialized, if◌then◌else◌,
}
use simple_registry.Garbage.Mark.{is_not_exist}
use simple_registry.Storage.{DataStorage}
use simple_registry.Validator.{is_digest, is_tag}
use simple_registry.Proxy.Upstream.{
  Proxy, Network, match_proxy, fetch_manifest, fetch_blob, fetch_tags, fetch_referrers,
  fetch_manifest_digest,
}

module _ {S : Type 0} (net : Network) (next : DataStorage S) (proxies : List Proxy) where
  unfoldable pub store_blob : Proxy → Text → Text → Action S (Text × ℕ)
  store_blob p repo digest = do
    content ← lift (fetch_blob net p repo digest)
    uuid ← next.blobs_upload_create repo
    next.blobs_upload_write repo uuid content none
    next.blobs_upload_commit repo uuid digest
    next.blobs_get repo digest

  abbrev pub blob_from : Text → Text → Option Proxy → Action S (Text × ℕ)
  blob_from repo digest none = raise not_exist
  blob_from repo digest (some p) = store_blob p repo digest

  -- What follows a blob that the storage does not have.
  unfoldable pub blob_missing : Text → Text → Action S (Text × ℕ)
  blob_missing repo digest = do p ← lift (match_proxy net repo proxies); blob_from repo digest p

  abbrev after_blob : Text → Text → Result (Text × ℕ) → Action S (Text × ℕ)
  after_blob repo digest (ok found) = pure found
  after_blob repo digest (err e) = if is_not_exist e then blob_missing repo digest else raise e

  unfoldable pub blobs_get : Text → Text → Action S (Text × ℕ)
  blobs_get repo digest s =
      let (r, s') = next.blobs_get repo digest s in after_blob repo digest r s'

  abbrev or_empty : Result Text → Text
  or_empty (ok t) = t
  or_empty (err e) = []

  -- The digest that a tag has upstream; empty where there is no proxy, for a digest, or where the
  -- upstream gives none.
  unfoldable pub upstream_digest : Option Proxy → Text → Text → Text
  upstream_digest none repo reference = []
  upstream_digest (some p) repo reference =
      if not (is_digest reference) && is_tag reference
      then or_empty (fetch_manifest_digest net p repo reference)
      else []

  unfoldable pub manifest_from : Option Proxy → Text → Text → Action S (Text × ℕ × Text)
  manifest_from none repo reference = raise not_exist
  manifest_from (some p) repo reference = do
    content ← lift (fetch_manifest net p repo reference)
    digest ← next.manifest_put repo reference content
    next.manifest_get repo digest

  -- A manifest of the storage serves unless the upstream has another one for its tag.
  abbrev pub after_manifest :
      Option Proxy → Text → Text → Result (Text × ℕ × Text) → Action S (Text × ℕ × Text)
  after_manifest p repo reference (ok (content, size, digest)) =
      if upstream_digest p repo reference == [] || upstream_digest p repo reference == digest
      then pure (content, size, digest)
      else manifest_from p repo reference
  after_manifest p repo reference (err e) =
      if is_not_exist e then manifest_from p repo reference else raise e

  unfoldable pub read_manifest : Option Proxy → Text → Text → Action S (Text × ℕ × Text)
  read_manifest p repo reference s =
      let (r, s') = next.manifest_get repo reference s in after_manifest p repo reference r s'

  unfoldable pub manifest_get : Text → Text → Action S (Text × ℕ × Text)
  manifest_get repo reference = do
    p ← lift (match_proxy net repo proxies)
    read_manifest p repo reference

  abbrev referrers_from : Text → Text → Option Proxy → Action S (List Text)
  referrers_from repo digest none = raise not_exist
  referrers_from repo digest (some p) = lift (fetch_referrers net p repo digest)

  abbrev after_referrers : Text → Text → Result (List Text) → Action S (List Text)
  after_referrers repo digest (ok l) = pure l
  after_referrers repo digest (err e) =
      if is_not_exist e
      then lift (match_proxy net repo proxies) >>= referrers_from repo digest
      else raise e

  unfoldable pub referrers_get : Text → Text → Action S (List Text)
  referrers_get repo digest s =
      let (r, s') = next.referrers_get repo digest s in after_referrers repo digest r s'

  -- The upstream's tags; the storage's own where it gives none.
  abbrev tags_or_local : Text → Result (List Text) → Action S (List Text)
  tags_or_local repo (ok tags) = pure tags
  tags_or_local repo (err e) = next.tags_list repo

  abbrev tags_from : Text → Option Proxy → Action S (List Text)
  tags_from repo none = next.tags_list repo
  tags_from repo (some p) = tags_or_local repo (fetch_tags net p repo)

  unfoldable pub tags_list : Text → Action S (List Text)
  tags_list repo = do p ← lift (match_proxy net repo proxies); tags_from repo p

  -- The proxy as a storage: what it does not change goes to `next`. A manifest's last access is
  -- that of its blob.
  abbrev pub proxy_storage : DataStorage S
  proxy_storage = record next {
    blobs_get = blobs_get;
    manifest_get = manifest_get;
    manifest_last_access = next.blob_last_access;
    referrers_get = referrers_get;
    tags_list = tags_list;
  }

-- A proxy made without a storage refuses every call.
abbrev uninitialized : {S A : Type 0} → Action S A
uninitialized = raise storage_not_initialized

abbrev no_storage : {S : Type 0} → DataStorage S
no_storage = record {
  blobs_get = λ r d. uninitialized;
  blobs_delete = λ r d. uninitialized;
  blobs_list = uninitialized;
  blob_last_access = λ d. uninitialized;
  blobs_upload_create = λ r. uninitialized;
  blobs_upload_cancel = λ r u. uninitialized;
  blobs_upload_write = λ r u c s. uninitialized;
  blobs_upload_commit = λ r u d. uninitialized;
  blobs_upload_size = λ r u. uninitialized;
  manifest_put = λ r f c. uninitialized;
  manifest_get = λ r f. uninitialized;
  manifest_delete = λ r f. uninitialized;
  manifests_list = λ r. uninitialized;
  manifest_last_access = λ d. uninitialized;
  tags_list = λ r. uninitialized;
  repositories_list = uninitialized;
  referrers_get = λ r d. uninitialized;
}

-- `NewProxyDataStorage`, whose storage may be missing.
unfoldable pub new_proxy_data_storage :
    {S : Type 0} → Network → Option (DataStorage S) → List Proxy → DataStorage S
new_proxy_data_storage net none proxies = no_storage
new_proxy_data_storage net (some next) proxies = proxy_storage net next proxies
