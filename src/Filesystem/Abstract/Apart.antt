-- ===== src/Filesystem/Abstract/Apart.antt =====
-- The paths of different repositories, digests and uploads are apart.
use simple_registry.Base.{
  ℕ, true, false, List, [], ◌∷◌, ◌++◌, ◌==◌, nat_eq, list_eq, list_beq, Text, codes, ◌≡◌, ◌≢◌, refl,
  sym, ◌∙◌, ap, ap₂, inl, inr, All, ==-cases, ==_refl, Bool-cases, take, arith,
}
use simple_registry.Disk.{is_under}
use simple_registry.Paths.{FilePath, split_slash, push_head, dir_of}
use simple_registry.Paths.Plain.{IsPlain}
use simple_registry.Validator.{is_name}
use simple_registry.Validator.Names.{IsNamePart, IsNamePart-ne_underscore, is_name-IsNamePart}
use simple_registry.Filesystem.Layout.{layer_dir, layer_link, blob_path, upload_file}
use simple_registry.Filesystem.Layout.Apart.{
  join_repo, is_under_append, is_under_other, dir_of-append,
}
use simple_registry.Filesystem.Listings.Walk.{slashed}
use simple_registry.Filesystem.Stored.{blob_at, layer_at, upload_at}

under_cons :
    (x y : Text) (p q : FilePath)
    → is_under (x ∷ p) (y ∷ q) ≡ true
    → (x ≡ y) × (is_under p q ≡ true)
unfolding is_under
under_cons x y p q h = elim (==-cases x y) [
  | inl (t, e) ↦ (e, rw (t, is_under) at h)
  | inr (f, _) ↦ absurd (cc (rw (f, is_under) at h))
]

-- A directory that starts with an underscore is none of a repository's name, so it ends the name.
under_name :
    (s s' p p' : FilePath) (u v : Text)
    → All IsNamePart s
    → All IsNamePart s'
    → is_under (s ++ (b'_' ∷ u) ∷ p) (s' ++ (b'_' ∷ v) ∷ p') ≡ true
    → (s ≡ s') × (b'_' ∷ u ≡ b'_' ∷ v) × (is_under p p' ≡ true)
under_name [] [] p p' u v h k e =
    let (x, y) = under_cons (b'_' ∷ u) (b'_' ∷ v) p p' e in (refl, x, y)
under_name [] (y ∷ s') p p' u v h k e =
    absurd (
      IsNamePart-ne_underscore u y k.0
        (sym (under_cons (b'_' ∷ u) y p (s' ++ (b'_' ∷ v) ∷ p') e).0))
under_name (x ∷ s) [] p p' u v h k e =
    absurd (IsNamePart-ne_underscore v x h.0 (under_cons x (b'_' ∷ v) (s ++ (b'_' ∷ u) ∷ p) p' e).0)
under_name (x ∷ s) (y ∷ s') p p' u v h k e =
    let (same, rest) = under_cons x y (s ++ (b'_' ∷ u) ∷ p) (s' ++ (b'_' ∷ v) ∷ p') e in
    let (a, b, c) = under_name s s' p p' u v h.1 k.1 rest in
    (ap (λ z. z ∷ s) same ∙ ap (λ z. y ∷ z) a, b, c)

repositories_not_blobs : (codes "repositories" == codes "blobs") ≡ false
unfolding list_beq
repositories_not_blobs = refl

blobs_not_repositories : (codes "blobs" == codes "repositories") ≡ false
unfolding list_beq
blobs_not_repositories = refl

slashed-push_head :
    (c : ℕ) (p : Text) (ps : List Text) → slashed (push_head c (p ∷ ps)) ≡ c ∷ slashed (p ∷ ps)
unfolding push_head
slashed-push_head c p [] = refl
slashed-push_head c p (q ∷ ps) = refl

split_slash_cons : (s : Text) → (p : Text) × (ps : List Text) × (split_slash s ≡ p ∷ ps)
unfolding split_slash push_head
split_slash_cons [] = ([], [], refl)
split_slash_cons (c ∷ s) = elim (Bool-cases (c == b'/')) [
  | inl t ↦ ([], split_slash s, rw t refl)
  | inr f ↦ let (p, ps, e) = split_slash_cons s in (c ∷ p, ps, rw (f, e) refl)
]

slashed-split_slash : (s : Text) → slashed (split_slash s) ≡ s
unfolding split_slash
slashed-split_slash [] = refl
slashed-split_slash (c ∷ s) =
    let (p, ps, e) = split_slash_cons s in
    let back : slashed (p ∷ ps) ≡ s = sym (ap slashed e) ∙ slashed-split_slash s in
    elim (==-cases c b'/') [
      | inl (t, k) ↦ rw (t, e) (ap (λ l. b'/' ∷ l) back ∙ ap (λ z. z ∷ s) (sym k))
      | inr (f, _) ↦ rw (f, e) (slashed-push_head c p ps ∙ ap (λ l. c ∷ l) back)
    ]

pub split_slash_injective : (r s : Text) → split_slash r ≡ split_slash s → r ≡ s
split_slash_injective r s e = sym (slashed-split_slash r) ∙ ap slashed e ∙ slashed-split_slash s

pub is_under_refl : (p : FilePath) → is_under p p ≡ true
unfolding is_under
is_under_refl [] = refl
is_under_refl (x ∷ p) = rw (==_refl x) (is_under_refl p)

upload_dir_at :
    (base s : FilePath) (uuid : Text)
    → dir_of (base ++ codes "repositories" ∷ (s ++ codes "_uploads" ∷ uuid ∷ codes "data" ∷ []))
      ≡ base ++ codes "repositories" ∷ (s ++ codes "_uploads" ∷ uuid ∷ [])
unfolding dir_of
upload_dir_at base [] uuid = dir_of-append base _ _ _
upload_dir_at base (x ∷ s) uuid =
    dir_of-append base (s ++ codes "_uploads" ∷ uuid ∷ codes "data" ∷ []) (codes "repositories") x
    ∙ ap (λ l. base ++ codes "repositories" ∷ l)
        (dir_of-append (x ∷ s) (codes "data" ∷ []) (codes "_uploads") uuid)

module _ (base : FilePath) (repo : Text) (valid : is_name repo ≡ true) (algo hash : Text)
    (pa : IsPlain algo) (ph : IsPlain hash) where
  layer_dir_at :
      layer_dir base repo algo hash
      ≡ base ++ codes "repositories" ∷ (split_slash repo ++ codes "_layers" ∷ algo ∷ hash ∷ [])
  unfolding layer_dir
  layer_dir_at =
      join_repo base (codes "repositories") repo (codes "_layers" ∷ algo ∷ hash ∷ []) (ground arith)
        valid (ground arith, (pa, (ph, tt)))

  -- The link to a blob lies in its directory.
  pub layer_link-own :
      is_under (layer_dir base repo algo hash) (layer_link base repo algo hash) ≡ true
  unfolding is_under
  layer_link-own =
      ap₂ is_under layer_dir_at (layer_at base repo valid algo hash pa ph)
      ∙ is_under_append base _ _
      ∙ is_under_append (codes "repositories" ∷ split_slash repo)
          (codes "_layers" ∷ algo ∷ hash ∷ []) (codes "_layers" ∷ algo ∷ hash ∷ codes "link" ∷ [])
      ∙ is_under_append (codes "_layers" ∷ algo ∷ hash ∷ []) [] (codes "link" ∷ [])

  -- No blob lies in the directory of a link, and no link below a blob.
  pub layer_dir-off_blobs :
      (b l : Text)
      → IsPlain b
      → IsPlain l
      → is_under (layer_dir base repo algo hash) (blob_path base b l) ≡ false
  layer_dir-off_blobs b l pb pl =
      ap₂ is_under layer_dir_at (blob_at base b l pb pl)
      ∙ is_under_other base (split_slash repo ++ codes "_layers" ∷ algo ∷ hash ∷ [])
          (b ∷ take 2 l ∷ l ∷ []) (codes "repositories") (codes "blobs") repositories_not_blobs

  pub blob-off_links :
      (b l : Text)
      → IsPlain b
      → IsPlain l
      → is_under (blob_path base b l) (layer_link base repo algo hash) ≡ false
  blob-off_links b l pb pl =
      ap₂ is_under (blob_at base b l pb pl) (layer_at base repo valid algo hash pa ph)
      ∙ is_under_other base (b ∷ take 2 l ∷ l ∷ [])
          (split_slash repo ++ codes "_layers" ∷ algo ∷ hash ∷ codes "link" ∷ []) (codes "blobs")
          (codes "repositories") blobs_not_repositories

module _ (base : FilePath) (repo other : Text) (valid : is_name repo ≡ true)
    (fine : is_name other ≡ true) where
  -- What lies below a directory of a repository that starts with an underscore.
  under_repo :
      (p p' : FilePath) (u v : Text)
      → is_under
          (base ++ codes "repositories" ∷ (split_slash repo ++ (b'_' ∷ u) ∷ p))
          (base ++ codes "repositories" ∷ (split_slash other ++ (b'_' ∷ v) ∷ p'))
        ≡ true
      → (repo ≡ other) × (b'_' ∷ u ≡ b'_' ∷ v) × (is_under p p' ≡ true)
  under_repo p p' u v h =
      let k = sym (is_under_append base _ _) ∙ h in
      let (_, rest) =
        under_cons (codes "repositories") (codes "repositories")
          (split_slash repo ++ (b'_' ∷ u) ∷ p) (split_slash other ++ (b'_' ∷ v) ∷ p') k in
      let (a, b, c) =
        under_name (split_slash repo) (split_slash other) p p' u v (is_name-IsNamePart repo valid)
          (is_name-IsNamePart other fine) rest in
      (split_slash_injective repo other a, b, c)

  module _ (algo hash algo' hash' : Text) (pa : IsPlain algo) (ph : IsPlain hash)
      (pa' : IsPlain algo') (ph' : IsPlain hash') where
    pub layer_dir-apart :
        is_under (layer_dir base repo algo hash) (layer_link base other algo' hash') ≡ true
        → (repo ≡ other) × (algo ≡ algo') × (hash ≡ hash')
    layer_dir-apart h =
        let k =
          sym (
            ap₂ is_under (layer_dir_at base repo valid algo hash pa ph)
              (layer_at base other fine algo' hash' pa' ph'))
          ∙ h in
        let (a, _, c) =
          under_repo (algo ∷ hash ∷ []) (algo' ∷ hash' ∷ codes "link" ∷ []) (codes "layers")
            (codes "layers") k in
        let (x, y) = under_cons algo algo' (hash ∷ []) (hash' ∷ codes "link" ∷ []) c in
        (a, x, (under_cons hash hash' [] (codes "link" ∷ []) y).0)

    pub layer_link-apart :
        layer_link base repo algo hash ≡ layer_link base other algo' hash'
        → (repo ≡ other) × (algo ≡ algo') × (hash ≡ hash')
    layer_link-apart h =
        let e =
          sym (layer_at base repo valid algo hash pa ph)
          ∙ h
          ∙ layer_at base other fine algo' hash' pa' ph' in
        let (a, _, c) =
          under_repo (algo ∷ hash ∷ codes "link" ∷ []) (algo' ∷ hash' ∷ codes "link" ∷ [])
            (codes "layers") (codes "layers") (sym (ap (is_under _) e) ∙ is_under_refl _) in
        let (x, y) =
          under_cons algo algo' (hash ∷ codes "link" ∷ []) (hash' ∷ codes "link" ∷ []) c in
        (a, x, (under_cons hash hash' (codes "link" ∷ []) (codes "link" ∷ []) y).0)

  -- The links of a repository do not lie in an upload.
  pub upload-apart :
      (uuid algo hash : Text)
      → IsPlain uuid
      → IsPlain algo
      → IsPlain hash
      → is_under
          (dir_of (upload_file base repo uuid (codes "data")))
          (layer_link base other algo hash)
        ≡ false
  upload-apart uuid algo hash pu pa ph =
      elim (Bool-cases (
        is_under (dir_of (upload_file base repo uuid (codes "data")))
          (layer_link base other algo hash))) [
            | inr f ↦ f
            | inl t ↦
                let up : dir_of (upload_file base repo uuid (codes "data"))
                    ≡ base
                      ++ codes "repositories" ∷ (split_slash repo ++ codes "_uploads" ∷ uuid ∷ []) =
                  ap dir_of (upload_at base repo valid uuid pu)
                  ∙ upload_dir_at base (split_slash repo) uuid in
                let k = sym (ap₂ is_under up (layer_at base other fine algo hash pa ph)) ∙ t in
                let (_, b, _) =
                  under_repo (uuid ∷ []) (algo ∷ hash ∷ codes "link" ∷ []) (codes "uploads")
                    (codes "layers") k in
                absurd (cc)
          ]

-- Blobs of different digests do not lie below one another.
pub blob-apart :
    (base : FilePath) (algo hash algo' hash' : Text)
    → IsPlain algo
    → IsPlain hash
    → IsPlain algo'
    → IsPlain hash'
    → is_under (blob_path base algo hash) (blob_path base algo' hash') ≡ true
    → (algo ≡ algo') × (hash ≡ hash')
blob-apart base algo hash algo' hash' pa ph pa' ph' h =
    let k =
      sym (is_under_append base _ _)
      ∙ sym (ap₂ is_under (blob_at base algo hash pa ph) (blob_at base algo' hash' pa' ph'))
      ∙ h in
    let (_, k1) =
      under_cons (codes "blobs") (codes "blobs") (algo ∷ take 2 hash ∷ hash ∷ [])
        (algo' ∷ take 2 hash' ∷ hash' ∷ []) k in
    let (a, k2) = under_cons algo algo' (take 2 hash ∷ hash ∷ []) (take 2 hash' ∷ hash' ∷ []) k1 in
    let (_, k3) = under_cons (take 2 hash) (take 2 hash') (hash ∷ []) (hash' ∷ []) k2 in
    (a, (under_cons hash hash' [] [] k3).0)

module _ (base : FilePath) (repo : Text) (valid : is_name repo ≡ true) (uuid : Text)
    (pu : IsPlain uuid) where
  data_dir_at :
      dir_of (upload_file base repo uuid (codes "data"))
      ≡ base ++ codes "repositories" ∷ (split_slash repo ++ codes "_uploads" ∷ uuid ∷ [])
  data_dir_at =
      ap dir_of (upload_at base repo valid uuid pu) ∙ upload_dir_at base (split_slash repo) uuid

  -- No blob lies in an upload.
  pub upload-off_blobs :
      (algo hash : Text)
      → IsPlain algo
      → IsPlain hash
      → is_under (dir_of (upload_file base repo uuid (codes "data"))) (blob_path base algo hash)
        ≡ false
  upload-off_blobs algo hash pa ph =
      ap₂ is_under data_dir_at (blob_at base algo hash pa ph)
      ∙ is_under_other base (split_slash repo ++ codes "_uploads" ∷ uuid ∷ [])
          (algo ∷ take 2 hash ∷ hash ∷ []) (codes "repositories") (codes "blobs")
          repositories_not_blobs

  -- What does not lie in an upload is not its data.
  pub under_dir_of :
      (q : FilePath)
      → upload_file base repo uuid (codes "data") ≡ q
      → is_under (dir_of (upload_file base repo uuid (codes "data"))) q ≢ false
  unfolding is_under
  under_dir_of q e h =
      let inside =
        ap₂ is_under data_dir_at (sym e ∙ upload_at base repo valid uuid pu)
        ∙ is_under_append base _ _
        ∙ is_under_append (codes "repositories" ∷ split_slash repo) (codes "_uploads" ∷ uuid ∷ [])
            (codes "_uploads" ∷ uuid ∷ codes "data" ∷ [])
        ∙ is_under_append (codes "_uploads" ∷ uuid ∷ []) [] (codes "data" ∷ []) in
      let f : false ≡ true = sym h ∙ inside in cc
