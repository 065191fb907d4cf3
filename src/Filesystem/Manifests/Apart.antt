-- ===== src/Filesystem/Manifests/Apart.antt =====
-- The links of a manifest and its blob are different files.
use simple_registry.Base.{
  append_assoc, All, ℕ, true, [], ◌∷◌, ◌++◌, nat_eq, list_eq, Text, codes, ◌≡◌, ◌≢◌, sym, ◌∙◌, ap,
  arith, take,
}
use simple_registry.Digest.{sha256}
use simple_registry.Paths.{FilePath, join, split_slash}
use simple_registry.Paths.Plain.{IsPlain}
use simple_registry.Validator.{is_name}
use simple_registry.Filesystem.Layout.{Library, blob_path, manifests_path}
use simple_registry.Filesystem.Layout.Apart.{join_repo}
use simple_registry.Filesystem.Sound.{HexHashes}
use simple_registry.Filesystem.Sound.Paths.{
  hash-IsPlain, hash-IsCalm, calm-IsPlain, digest-IsCalm, join-two, last_two,
}
use simple_registry.Filesystem.Stored.{blob_at, repositories-ne_blobs}
use simple_registry.Filesystem.Manifests.{manifest_algo, revision_link, tag_link, referrer_link}

heads : (x y : ℕ) (p q : Text) → x ∷ p ≡ y ∷ q → x ≡ y
heads x y p q h = cc

own_ne_current : (hash : Text) → manifest_algo ++ b':' ∷ hash ≢ codes "current"
own_ne_current hash h =
    let e = heads b's' b'c' (codes "ha256" ++ b':' ∷ hash) (codes "urrent") h in omega (arith, e)

module _ (lib : Library) (base : FilePath) where
  -- The link of a referrer is no path with other last components, wherever its subject leads.
  referrer_link-apart :
      (repo algo hash referrer x y : Text) (p q : FilePath)
      → IsPlain referrer
      → q ≡ p ++ x ∷ y ∷ []
      → ¬ ((referrer ≡ x) × (codes "link" ≡ y))
      → referrer_link lib base repo algo hash referrer ≢ q
  unfolding manifests_path
  referrer_link-apart repo algo hash referrer x y p q plain e ne same =
      let parts =
        codes "repositories" ∷ repo ∷ codes "_manifests" ∷ codes "referrers" ∷ algo ∷ hash ∷ [] in
      ne (
        last_two (join base parts) p referrer (codes "link") x y
          (sym (join-two base parts referrer (codes "link") plain (ground arith)) ∙ same ∙ e))

  -- The path of a manifest's link, of a valid repository.
  manifest_at :
      (repo : Text) (parts : FilePath)
      → is_name repo ≡ true
      → All IsPlain parts
      → manifests_path base repo parts
        ≡ base ++ codes "repositories" ∷ (split_slash repo ++ codes "_manifests" ∷ parts)
  unfolding manifests_path
  manifest_at repo parts valid plain =
      join_repo base (codes "repositories") repo (codes "_manifests" ∷ parts) (ground arith) valid
        (ground arith, plain)

  -- The files that `ManifestPut` writes after the blob are not that of the blob.
  module _ (hex : HexHashes lib) (repo reference content : Text) where
    own-IsPlain : IsPlain (manifest_algo ++ b':' ∷ lib.hash_as_string sha256 content)
    own-IsPlain =
        calm-IsPlain (manifest_algo ++ b':' ∷ lib.hash_as_string sha256 content) (λ e. cc)
          (digest-IsCalm (lib.hash_as_string sha256 content) (hash-IsCalm lib hex sha256 content))

    blob_end :
        blob_path base manifest_algo (lib.hash_as_string sha256 content)
        ≡ (base ++ codes "blobs" ∷ manifest_algo ∷ [])
          ++ take 2 (lib.hash_as_string sha256 content) ∷ lib.hash_as_string sha256 content ∷ []
    blob_end =
        blob_at base manifest_algo (lib.hash_as_string sha256 content) (ground arith)
          (hash-IsPlain lib hex sha256 content)
        ∙ sym (append_assoc base (codes "blobs" ∷ manifest_algo ∷ []) _)

    tag_parts : FilePath
    tag_parts = codes "repositories" ∷ repo ∷ codes "_manifests" ∷ codes "tags" ∷ reference ∷ []

    tag_end :
        tag_link lib base repo reference
        ≡ join base tag_parts ++ codes "current" ∷ codes "link" ∷ []
    unfolding manifests_path tag_parts
    tag_end = join-two base tag_parts (codes "current") (codes "link") (ground arith) (ground arith)

    -- A hash "link" would have to lie in a directory "li".
    not_link : (k x : Text) → codes "link" ≡ k → x ≡ take 2 k → x ≢ codes "li" → ⊥
    not_link k x e f ne = ne (f ∙ ap (take 2) (sym e))

    pub tag_link-off_blob :
        tag_link lib base repo reference
        ≢ blob_path base manifest_algo (lib.hash_as_string sha256 content)
    tag_link-off_blob same =
        let (x, y) =
          last_two (join base tag_parts) (base ++ codes "blobs" ∷ manifest_algo ∷ [])
            (codes "current") (codes "link") (take 2 (lib.hash_as_string sha256 content))
            (lib.hash_as_string sha256 content) (sym tag_end ∙ same ∙ blob_end) in
        not_link (lib.hash_as_string sha256 content) (codes "current") y x (λ e. cc)

    pub referrer_link-off_blob :
        (a k : Text)
        → referrer_link lib base repo a k
            (manifest_algo ++ b':' ∷ lib.hash_as_string sha256 content)
          ≢ blob_path base manifest_algo (lib.hash_as_string sha256 content)
    referrer_link-off_blob a k =
        referrer_link-apart repo a k _ (take 2 (lib.hash_as_string sha256 content))
          (lib.hash_as_string sha256 content) (base ++ codes "blobs" ∷ manifest_algo ∷ []) _
          own-IsPlain blob_end
          (λ p. not_link (lib.hash_as_string sha256 content) _ p.1 p.0 (λ e. cc))

    pub referrer_link-off_tag :
        (a k : Text)
        → referrer_link lib base repo a k
            (manifest_algo ++ b':' ∷ lib.hash_as_string sha256 content)
          ≢ tag_link lib base repo reference
    referrer_link-off_tag a k =
        referrer_link-apart repo a k _ (codes "current") (codes "link") (join base tag_parts) _
          own-IsPlain tag_end (λ p. own_ne_current (lib.hash_as_string sha256 content) p.0)

    pub revision_link-off_blob :
        is_name repo ≡ true
        → revision_link lib base repo manifest_algo (lib.hash_as_string sha256 content)
          ≢ blob_path base manifest_algo (lib.hash_as_string sha256 content)
    revision_link-off_blob valid =
        let plain = hash-IsPlain lib hex sha256 content in
        repositories-ne_blobs base _ _ _ _
          (manifest_at repo _ valid (ground arith, (ground arith, (plain, (ground arith, tt)))))
          (blob_at base manifest_algo (lib.hash_as_string sha256 content) (ground arith) plain)
