-- ===== src/Filesystem/Collects/Deletes.antt =====
-- What the deletions of a collection do to the file of another blob.
use simple_registry.Base.{
  ℕ, true, false, Option, none, some, [], ◌∷◌, ◌++◌, nat_eq, list_eq, list_beq, Text, codes, Result,
  ok, err, Action, lift, ◌>>◌, ◌≡◌, ◌≢◌, refl, sym, ◌∙◌, subst, inl, inr, In, In-append,
  In-append_right, kept_bind, bind_of_ok, panic, Bool-cases, ==-cases, length, ltb, arith, take,
}
use simple_registry.Digest.{parse}
use simple_registry.Digest.Laws.{parse_iff}
use simple_registry.Disk.{Disk, is_under, remove_all}
use simple_registry.Disk.Laws.{file_at, remove_all-files}
use simple_registry.Oci.{ImageManifest, DescriptorManifest}
use simple_registry.Paths.{FilePath, join, split_slash}
use simple_registry.Paths.Plain.{IsPlain}
use simple_registry.Validator.{is_name, is_tag, is_digest}
use simple_registry.Validator.Digests.{is_digest-parse_apart, is_digest-IsPlain, is_tag-IsPlain}
use simple_registry.Filesystem.Abstract.Apart.{blob-apart}
use simple_registry.Filesystem.Abstract.Refines.{digest_of_parts}
use simple_registry.Filesystem.Blobs.{stats, blobs_delete, doomed}
use simple_registry.Filesystem.Layout.{Library, blob_path, manifests_path}
use simple_registry.Filesystem.Layout.Apart.{In-take, is_under_other, join_repo}
use simple_registry.Filesystem.Reads.{reads-Keeps}
use simple_registry.Filesystem.Sound.Paths.{join-one}
use simple_registry.Filesystem.Stored.{blob_at}
use simple_registry.Filesystem.Manifests.{
  referrer_dir, revision_dir, drop_subject, drop_decoded, on_manifest, drop_referrer,
  parse_or_invalid, delete_revision, manifest_delete, manifest_get, parts_or_empty,
}

-- A path holds the components of those above it.
under_In : (p q : FilePath) → is_under p q ≡ true → (x : Text) → In x p → In x q
unfolding is_under
under_In [] q h x i = absurd i
under_In (a ∷ p) [] h x i = cc
under_In (a ∷ p) (b ∷ q) h x i = elim (==-cases a b) [
  | inr (f, _) ↦ absurd (cc (rw (f, is_under) at h))
  | inl (t, e) ↦ elim i [
    | inl same ↦ inl (same ∙ e)
    | inr j ↦ inr (under_In p q (rw (t, is_under) at h) x j)
  ]
]

-- No component of the path has a colon.
abbrev pub NoColons : FilePath → Type 0
NoColons p = (x : Text) → In x p → ¬ In b':' x

module _ (lib : Library) (base : FilePath) (clear : NoColons base) (algo hash : Text)
    (pa : IsPlain algo) (ph : IsPlain hash) (ca : ¬ In b':' algo) (ch : ¬ In b':' hash) where
  abbrev blob : FilePath
  blob = blob_path base algo hash

  blob-NoColons : NoColons blob
  blob-NoColons x i =
      let j : In x (base ++ codes "blobs" ∷ algo ∷ take 2 hash ∷ hash ∷ []) =
        subst (In x) (blob_at base algo hash pa ph) i in
      elim (In-append x base _ j) [
        | inl k ↦ clear x k
        | inr (inl e) ↦ subst (λ z. ¬ In b':' z) (sym e) (ground arith)
        | inr (inr (inl e)) ↦ subst (λ z. ¬ In b':' z) (sym e) ca
        | inr (inr (inr (inl e))) ↦
            subst (λ z. ¬ In b':' z) (sym e) (λ m. ch (In-take b':' 2 hash m))
        | inr (inr (inr (inr (inl e)))) ↦ subst (λ z. ¬ In b':' z) (sym e) ch
        | inr (inr (inr (inr (inr z)))) ↦ absurd z
      ]

  -- The directory of a referrer is not above the blob, wherever its subject leads.
  referrer_dir-off_blob :
      (repo a k reference : Text)
      → is_digest reference ≡ true
      → is_under (referrer_dir lib base repo a k reference) blob ≡ false
  unfolding manifests_path
  referrer_dir-off_blob repo a k reference valid =
      elim (Bool-cases (is_under (referrer_dir lib base repo a k reference) blob)) [
        | inr f ↦ f
        | inl t ↦
            let parts =
              codes "repositories" ∷ repo ∷ codes "_manifests" ∷ codes "referrers" ∷ a ∷ k ∷ [] in
            let at = join-one base parts reference (is_digest-IsPlain reference valid) in
            let last : In reference (referrer_dir lib base repo a k reference) =
              subst (In reference) (sym at)
                (In-append_right reference (join base parts) (reference ∷ []) (inl refl)) in
            let there = under_In (referrer_dir lib base repo a k reference) blob t reference last in
            let (x, y, p, _, _, _) = is_digest-parse_apart reference valid in
            let (e, _, _, _) = (parse_iff reference x y).0 p in
            absurd (
              blob-NoColons reference there
                (subst (In b':') (sym e) (In-append_right b':' x (b':' ∷ y) (inl refl))))
      ]

  revision_dir-off_blob :
      (repo a k : Text)
      → is_name repo ≡ true
      → IsPlain a
      → IsPlain k
      → is_under (revision_dir lib base repo a k) blob ≡ false
  unfolding manifests_path list_beq
  revision_dir-off_blob repo a k valid plain_a plain_k =
      let at =
        join_repo base (codes "repositories") repo
          (codes "_manifests" ∷ codes "revisions" ∷ a ∷ k ∷ []) (ground arith) valid
          (ground arith, (ground arith, (plain_a, (plain_k, tt)))) in
      rw (at, blob_at base algo hash pa ph)
        (is_under_other base
          (split_slash repo ++ codes "_manifests" ∷ codes "revisions" ∷ a ∷ k ∷ [])
          (algo ∷ take 2 hash ∷ hash ∷ []) (codes "repositories") (codes "blobs") refl)

  -- The file of the blob is this one.
  abbrev Has : Option (Text × ℕ) → Disk → Type 0
  Has f d = file_at blob d ≡ f

  remove_all-Has :
      (f : Option (Text × ℕ)) (p : FilePath) (d : Disk)
      → is_under p blob ≡ false
      → Has f d
      → Has f (remove_all p d).1
  remove_all-Has f p d off h = remove_all-files p d blob ∙ (rw off refl) ∙ h

  -- A deletion of another blob.
  pub blobs_delete-Has :
      (f : Option (Text × ℕ)) (digest other : Text) (d : Disk)
      → parse digest ≡ ok (algo, hash)
      → is_digest other ≡ true
      → other ≢ digest
      → Has f d
      → Has f (blobs_delete base [] other d).1
  unfolding blobs_delete doomed
  blobs_delete-Has f digest other d parts valid ne h =
      let (a, k, p, plain_a, plain_k, _) = is_digest-parse_apart other valid in
      let off : is_under (blob_path base a k) blob ≡ false =
        elim (Bool-cases (is_under (blob_path base a k) blob)) [
          | inr g ↦ g
          | inl t ↦
              let (ea, ek) = blob-apart base a k algo hash plain_a plain_k pa ph t in
              let p' : parse other ≡ ok (algo, hash) = p ∙ (λ i. ok (ea i, ek i)) in
              absurd (ne (digest_of_parts other digest algo hash p' parts))
        ] in
      elim (Bool-cases (ltb (length k) 2)) [
        | inl short ↦ rw (p, short) h
        | inr long ↦
            rw (p, long)
              (kept_bind (Has f) (stats (blob_path base a k)) (λ _. remove_all (blob_path base a k))
                d h (λ _ g. remove_all-Has f (blob_path base a k) d off g))
      ]

  drop_decoded-Has :
      (f : Option (Text × ℕ)) (repo reference : Text) (m : Option ImageManifest) (d : Disk)
      → is_digest reference ≡ true
      → Has f d
      → Has f (drop_decoded lib base repo reference m d).1
  drop_decoded-Has f repo reference none d valid h = h
  drop_decoded-Has f repo reference (some m) d valid h = dropped m.subject
    where
      dropped : (s : Option DescriptorManifest) → Has f (drop_subject lib base repo reference s d).1
      dropped none = h
      dropped (some s) =
          let (a, k) = parts_or_empty lib base (parse s.digest) in
          remove_all-Has f (referrer_dir lib base repo a k reference) d
            (referrer_dir-off_blob repo a k reference valid) h

  on_manifest-Has :
      (f : Option (Text × ℕ)) (repo reference : Text) (r : Result (Text × ℕ × Text)) (d : Disk)
      → is_digest reference ≡ true
      → Has f d
      → Has f (on_manifest lib base repo reference r d).1
  on_manifest-Has f repo reference (ok r) d valid h =
      drop_decoded-Has f repo reference (lib.decode_image_manifest r.0) d valid h
  on_manifest-Has f repo reference (err panic) d valid h = h
  on_manifest-Has f repo reference (err _) d valid h = h

  delete_revision-Has :
      (f : Option (Text × ℕ)) (repo reference a k : Text) (d : Disk)
      → is_name repo ≡ true
      → parse reference ≡ ok (a, k)
      → IsPlain a
      → IsPlain k
      → Has f d
      → Has f (delete_revision lib base repo reference d).1
  unfolding delete_revision
  delete_revision-Has f repo reference a k d name p plain_a plain_k h =
      let dir : Text × Text → FilePath = λ q. revision_dir lib base repo q.0 q.1 in
      let revise : Text × Text → Action Disk (Unit {0}) =
        λ q. stats (dir q) >> remove_all (dir q) in
      let parts : parse_or_invalid lib base reference ≡ ok (a, k) = rw (parse_or_invalid, p) refl in
      let same =
        bind_of_ok (lift (parse_or_invalid lib base reference)) revise d (λ i. (parts i, d)) in
      subst (λ z. Has f z.1) (sym same)
        (kept_bind (Has f) (stats (dir (a, k))) (λ _. remove_all (dir (a, k))) d h
          (λ _ g.
            remove_all-Has f (dir (a, k)) d (revision_dir-off_blob repo a k name plain_a plain_k)
              g))

  -- A deletion of a manifest by its digest.
  pub manifest_delete-Has :
      (f : Option (Text × ℕ)) (repo reference : Text) (d : Disk)
      → is_name repo ≡ true
      → is_digest reference ≡ true
      → Has f d
      → Has f (manifest_delete lib base repo reference d).1
  unfolding manifest_delete drop_referrer
  manifest_delete-Has f repo reference d name valid h =
      let (a, k, p, plain_a, plain_k, _) = is_digest-parse_apart reference valid in
      let (e, _, _, _) = (parse_iff reference a k).0 p in
      let colon : In b':' reference =
        subst (In b':') (sym e) (In-append_right b':' a (b':' ∷ k) (inl refl)) in
      let d' = (manifest_get lib base repo reference d).1 in
      let kept : Has f d' =
        subst (Has f) (sym ((reads-Keeps lib base repo [] [] reference).3 d)) h in
      elim (Bool-cases (is_tag reference)) [
        | inl tagged ↦ absurd ((is_tag-IsPlain reference tagged).1 colon)
        | inr other ↦
            rw (name, other)
              (kept_bind (Has f) (drop_referrer lib base repo reference)
                (λ _. delete_revision lib base repo reference) d
                (on_manifest-Has f repo reference (manifest_get lib base repo reference d).0 d'
                  valid kept)
                (λ _ g. delete_revision-Has f repo reference a k _ name p plain_a plain_k g))
      ]
