-- ===== src/Proxy/Storage/Laws.antt =====
-- Where what the proxy serves comes from.
use simple_registry.Base.{
  ℕ, Option, none, some, List, [], ◌||◌, ◌==◌, nat_eq, list_eq, Text, ok, lift, ◌>>=◌, ◌≡◌, ◌∙◌,
  inl, inr, bind_ok, Result-cases, Bool-cases,
}
use simple_registry.Garbage.Mark.{is_not_exist}
use simple_registry.Storage.{DataStorage}
use simple_registry.Proxy.Upstream.{Proxy, Network, match_proxy, fetch_manifest}
use simple_registry.Proxy.Storage.{upstream_digest, manifest_from, read_manifest, manifest_get}

module _ {S : Type 0} (net : Network) (next : DataStorage S) (proxies : List Proxy) where
  -- A read of the storage, in some state, that ends as the proxy's does.
  abbrev pub ServedManifest : Text → Text × ℕ × Text → S → Type 0
  ServedManifest repo found t = (r : Text) × (u : S) × (next.manifest_get repo r u ≡ (ok found, t))

  manifest_from-Served :
      (o : Option Proxy) (repo reference : Text) (found : Text × ℕ × Text) (s t : S)
      → manifest_from net next proxies o repo reference s ≡ (ok found, t)
      → ServedManifest repo found t
  unfolding manifest_from
  manifest_from-Served none repo reference found s t h = cc
  manifest_from-Served (some p) repo reference found s t h =
      let (content, s1, _, h1) =
        bind_ok (lift (fetch_manifest net p repo reference))
          (λ content.
            next.manifest_put repo reference content >>= λ digest. next.manifest_get repo digest)
          s h in
      let (digest, s2, _, h2) =
        bind_ok (next.manifest_put repo reference content) (λ digest. next.manifest_get repo digest)
          s1 h1 in
      (digest, s2, h2)

  read_manifest-Served :
      (o : Option Proxy) (repo reference : Text) (found : Text × ℕ × Text) (s t : S)
      → read_manifest net next proxies o repo reference s ≡ (ok found, t)
      → ServedManifest repo found t
  unfolding read_manifest
  read_manifest-Served o repo reference found s t h =
      elim (Result-cases (next.manifest_get repo reference s).0) [
        | inr ((content, size, digest), r) ↦
            elim (Bool-cases (
              upstream_digest net next proxies o repo reference == []
              || upstream_digest net next proxies o repo reference == digest)) [
                | inl y ↦ (
                  reference,
                  s,
                  (λ i. (r i, (next.manifest_get repo reference s).1))
                      ∙ (rw (r, y, read_manifest) at h),
                )
                | inr n ↦
                    manifest_from-Served o repo reference found _ t (rw (r, n, read_manifest) at h)
              ]
        | inl (e, r) ↦ elim (Bool-cases (is_not_exist e)) [
          | inl y ↦ manifest_from-Served o repo reference found _ t (rw (r, y, read_manifest) at h)
          | inr n ↦ absurd (cc (rw (r, n, read_manifest) at h))
        ]
      ]

  -- Every manifest that the proxy serves is read from the storage, in some state, and that read is
  -- the end of the call.
  pub manifest_get-Served :
      (repo reference : Text) (found : Text × ℕ × Text) (s t : S)
      → manifest_get net next proxies repo reference s ≡ (ok found, t)
      → ServedManifest repo found t
  unfolding manifest_get
  manifest_get-Served repo reference found s t h =
      let (o, s1, _, h1) =
        bind_ok (lift (match_proxy net repo proxies))
          (λ o. read_manifest net next proxies o repo reference) s h in
      read_manifest-Served o repo reference found s1 t h1
