-- ===== src/Filesystem/Manifests/Links.antt =====
-- What the steps of `ManifestPut` after the commit do to the other files.
use simple_registry.Base.{
  ℕ, true, some, ◌∷◌, ◌++◌, nat_eq, list_eq, Text, Result, ok, Action, pure, lift, ◌>>◌, ◌≡◌, ◌≢◌,
  refl, sym, ◌∙◌, ap, subst, inl, inr, bind_ok, kept_bind, Option-cases, Bool-cases,
}
use simple_registry.Digest.{sha256, parse}
use simple_registry.Disk.{Disk, mkdir_all, write_file}
use simple_registry.Disk.Laws.{file_at, mkdir_all-files, place-other}
use simple_registry.Paths.{FilePath}
use simple_registry.Validator.{is_tag}
use simple_registry.Filesystem.Layout.{Library}
use simple_registry.Filesystem.Stored.{write_link-files}
use simple_registry.Filesystem.Manifests.{
  manifest_algo, revision_link, tag_link, referrer_dir, referrer_link, index_subject,
  index_referrer, update_tag,
}
use simple_registry.Filesystem.Uploads.{ignore, write_link}

pub ok_text : {a b : Text} → ◌≡◌ {A = Result Text} (ok a) (ok b) → a ≡ b
ok_text h = cc

module _ (lib : Library) (base : FilePath) where
  index_subject-other :
      (repo referrer subject : Text) (q : FilePath) (d : Disk)
      → ((algo hash : Text) → referrer_link lib base repo algo hash referrer ≢ q)
      → file_at q (index_subject lib base repo referrer subject d).1 ≡ file_at q d
  unfolding index_subject write_file
  index_subject-other repo referrer subject q d ne =
      let P : Disk → Type 0 = λ t. file_at q t ≡ file_at q d in
      let link : Text × Text → FilePath = λ p. referrer_link lib base repo p.0 p.1 referrer in
      let dir : Text × Text → FilePath = λ p. referrer_dir lib base repo p.0 p.1 referrer in
      kept_bind P (lift (parse subject)) (λ p. mkdir_all (dir p) >> write_file (link p) subject) d
        refl
        (λ p _.
          kept_bind P (mkdir_all (dir p)) (λ _. write_file (link p) subject) d
            (mkdir_all-files (dir p) d q)
            (λ _ kept. place-other (link p) subject _ _ q (ne p.0 p.1) ∙ kept))

  -- Whatever the manifest's subject is, the other files stay.
  index_referrer-other :
      (repo referrer content : Text) (q : FilePath) (d : Disk)
      → ((algo hash : Text) → referrer_link lib base repo algo hash referrer ≢ q)
      → file_at q (index_referrer lib base repo referrer content d).1 ≡ file_at q d
  unfolding index_referrer
  index_referrer-other repo referrer content q d ne =
      elim (Option-cases (lib.decode_image_manifest content)) [
        | inl e ↦ rw (e, index_referrer) refl
        | inr (m, e) ↦ elim (Option-cases m.subject) [
          | inl f ↦ rw (e, f, index_referrer) refl
          | inr (s, f) ↦
              rw (e, f, index_referrer) (index_subject-other repo referrer s.digest q d ne)
        ]
      ]

  update_tag-files :
      (repo reference digest : Text) (d t : Disk)
      → update_tag lib base repo reference digest (is_tag reference) d ≡ (ok tt, t)
      → ((q : FilePath) → tag_link lib base repo reference ≢ q → file_at q t ≡ file_at q d)
        × (is_tag reference ≡ true
            → (y : ℕ) × (file_at (tag_link lib base repo reference) t ≡ some (digest, y)))
  update_tag-files repo reference digest d t h = elim (Bool-cases (is_tag reference)) [
    | inl tagged ↦
        let (there, others) =
          write_link-files lib base (tag_link lib base repo reference) digest d t
            (rw tagged at h) in
        (others, λ _. there)
    | inr other ↦
        let same : d ≡ t = ap (λ z. z.1) (rw other at h) in
        (λ q _. ap (file_at q) (sym same), λ tagged. absurd (cc))
  ]

  -- The steps of `ManifestPut` after the commit.
  abbrev pub links_put : Text → Text → Text → Action Disk Text
  links_put repo reference content =
      let hash = lib.hash_as_string sha256 content in
      let digest = manifest_algo ++ b':' ∷ hash in
      write_link lib base (revision_link lib base repo manifest_algo hash) digest
      >> (update_tag lib base repo reference digest (is_tag reference)
          >> (ignore (index_referrer lib base repo digest content) >> pure digest))

  pub links_put-files :
      (repo reference content digest : Text) (b : FilePath) (d t : Disk)
      → let hash = lib.hash_as_string sha256 content in
        let own = manifest_algo ++ b':' ∷ hash in
        revision_link lib base repo manifest_algo hash ≢ b
        → tag_link lib base repo reference ≢ b
        → ((a k : Text) → referrer_link lib base repo a k own ≢ b)
        → ((a k : Text) → referrer_link lib base repo a k own ≢ tag_link lib base repo reference)
        → links_put repo reference content d ≡ (ok digest, t)
        → (digest ≡ own)
          × (file_at b t ≡ file_at b d)
          × (is_tag reference ≡ true
              → (y : ℕ) × (file_at (tag_link lib base repo reference) t ≡ some (own, y)))
  links_put-files repo reference content digest b d t rev_b tag_b ref_b ref_tag h =
      let hash = lib.hash_as_string sha256 content in
      let own = manifest_algo ++ b':' ∷ hash in
      let rev = revision_link lib base repo manifest_algo hash in
      let tag = tag_link lib base repo reference in
      let index : Action Disk (Unit {0}) = ignore (index_referrer lib base repo own content) in
      let tagging : Action Disk (Unit {0}) =
        update_tag lib base repo reference own (is_tag reference) in
      let (_, d1, x1, y1) =
        bind_ok (write_link lib base rev own) (λ _. tagging >> (index >> pure own)) d h in
      let (_, d2, x2, y2) = bind_ok tagging (λ _. index >> pure own) d1 y1 in
      let (_, d3, x3, y3) = bind_ok index (λ _. pure own) d2 y2 in
      let (_, others1) = write_link-files lib base rev own d d1 x1 in
      let (others2, tagged) = update_tag-files repo reference own d1 d2 x2 in
      let after : (index_referrer lib base repo own content d2).1 ≡ t =
        ap (λ z. z.1) x3 ∙ ap (λ z. z.1) y3 in
      let kept = λ (q : FilePath) (ne : (a k : Text) → referrer_link lib base repo a k own ≢ q).
        subst (λ z. file_at q z ≡ file_at q d2) after
          (index_referrer-other repo own content q d2 ne) in
      (
        sym (ok_text (ap (λ z. z.0) y3)),
        kept b ref_b ∙ others2 b tag_b ∙ others1 b rev_b,
        λ is. let (y, there) = tagged is in (y, kept tag ref_tag ∙ there),
      )
