-- ===== src/Filesystem/Listings/Named.antt =====
-- What `BlobsList`, `TagsList` and `ManifestsList` name.
use simple_registry.Base.{
  ℕ, some, List, [], ◌∷◌, ◌++◌, nat_eq, list_eq, Text, codes, ok, map, ◌≡◌, ◌↔◌, ◌⊎◌, refl, ◌∙◌, ap,
  subst, inl, inr, In, In-append, In-append_left, In-append_right, Result-cases,
}
use simple_registry.Disk.{Disk, file, dir, find}
use simple_registry.Disk.Entries.{read_dir, sub_dirs}
use simple_registry.Disk.Entries.Laws.{In-sub_dirs_iff, In-sub_files_iff}
use simple_registry.MapSet.Laws.{In-add_iff}
use simple_registry.Paths.{FilePath, join}
use simple_registry.Filesystem.Layout.{manifests_path}
use simple_registry.Filesystem.Listings.{
  collect, blobs_in_prefix, blobs_in_algo, blob_digests, revisions_in, referrers_of, referrers_in,
  manifest_digests, tags_path, tags_of,
}

In-collect_iff :
    (f : Text → List Text) (y : Text) (l : List Text)
    → In y (collect f l) ↔ ((x : Text) × In x l × In y (f x))
In-collect_iff f y [] = (λ i. absurd i, λ (x, i, _). absurd i)
In-collect_iff f y (a ∷ l) = (
  λ i. elim (In-append y (f a) (collect f l) i) [
    | inl j ↦ (a, inl refl, j)
    | inr j ↦ let (x, m, k) = (In-collect_iff f y l).0 j in (x, inr m, k)
  ],
  λ (x, m, k). elim m [
    | inl e ↦ In-append_left y (f a) (collect f l) (subst (λ z. In y (f z)) e k)
    | inr n ↦ In-append_right y (f a) (collect f l) ((In-collect_iff f y l).1 (x, n, k))
  ],
)

In-map_iff :
    (f : Text → Text) (y : Text) (l : List Text)
    → In y (map f l) ↔ ((x : Text) × In x l × (y ≡ f x))
In-map_iff f y [] = (λ i. absurd i, λ (x, i, _). absurd i)
In-map_iff f y (a ∷ l) = (
  λ i. elim i [
    | inl e ↦ (a, inl refl, e)
    | inr j ↦ let (x, m, k) = (In-map_iff f y l).0 j in (x, inr m, k)
  ],
  λ (x, m, k). elim m [ inl e ↦ inl (k ∙ ap f e) | inr n ↦ inr ((In-map_iff f y l).1 (x, n, k)) ],
)

module _ (base : FilePath) (d : Disk) where
  abbrev pub HasDir : FilePath → Type 0
  HasDir p = find p d ≡ some dir

  abbrev pub HasFile : FilePath → Type 0
  HasFile p = (c : Text) × (t : ℕ) × (find p d ≡ some (file c t))

  -- The directories of a blob: of its algorithm and of a prefix.
  abbrev pub blobs_dir : List Text → FilePath
  blobs_dir parts = join base (codes "blobs" ∷ parts)

  -- A file below the directories of the blobs, of an algorithm and of a prefix.
  pub record Lies (digest algo prefix hash : Text) : Type 0 where
    pub named : digest ≡ algo ++ b':' ∷ hash
    pub blobs : HasDir (blobs_dir [])
    pub algo_dir : HasDir (blobs_dir [] ++ algo ∷ [])
    pub algo_read : HasDir (blobs_dir (algo ∷ []))
    pub prefix_dir : HasDir (blobs_dir (algo ∷ []) ++ prefix ∷ [])
    pub prefix_read : HasDir (blobs_dir (algo ∷ prefix ∷ []))
    pub content : HasFile (blobs_dir (algo ∷ prefix ∷ []) ++ hash ∷ [])

  -- `BlobsList` names exactly the files that lie two directories below that of the blobs, each by
  -- the name of the first of the two, a colon and its own name.
  pub blob_digests_iff :
      (digest : Text)
      → In digest (blob_digests base d)
        ↔ ((algo : Text) × (prefix : Text) × (hash : Text) × Lies digest algo prefix hash)
  unfolding blob_digests
  blob_digests_iff digest = (
    λ i.
        let (algo, i0, j) = (In-collect_iff (blobs_in_algo base d) digest _).0 i in
        let (prefix, i1, k) = (In-collect_iff (blobs_in_prefix base d algo) digest _).0 j in
        let (hash, i2, e) = (In-map_iff (λ h. algo ++ b':' ∷ h) digest _).0 k in
        let (a, b) = (In-sub_dirs_iff (blobs_dir []) algo d).0 i0 in
        let (a', b') = (In-sub_dirs_iff (blobs_dir (algo ∷ [])) prefix d).0 i1 in
        let (a'', c) = (In-sub_files_iff (blobs_dir (algo ∷ prefix ∷ [])) hash d).0 i2 in
        (
          algo,
          prefix,
          hash,
          record {
            named = e;
            blobs = a;
            algo_dir = b;
            algo_read = a';
            prefix_dir = b';
            prefix_read = a'';
            content = c;
          },
        ),
    λ (algo, prefix, hash, l). (In-collect_iff (blobs_in_algo base d) digest _).1 (
      algo,
      (In-sub_dirs_iff (blobs_dir []) algo d).1 (l.blobs, l.algo_dir),
      (In-collect_iff (blobs_in_prefix base d algo) digest _).1 (
        prefix,
        (In-sub_dirs_iff (blobs_dir (algo ∷ [])) prefix d).1 (l.algo_read, l.prefix_dir),
        (In-map_iff (λ h. algo ++ b':' ∷ h) digest _).1 (
          hash,
          (In-sub_files_iff (blobs_dir (algo ∷ prefix ∷ [])) hash d).1 (l.prefix_read, l.content),
          l.named,
        ),
      ),
    ),
  )

  -- `TagsList`, where it succeeds, names exactly the directories among the tags of the repository.
  pub tags_of_iff :
      (repo tag : Text) (out : List Text)
      → tags_of base d repo ≡ ok out
      → In tag out ↔ (HasDir (tags_path base d repo) × HasDir (tags_path base d repo ++ tag ∷ []))
  unfolding tags_of sub_dirs
  tags_of_iff repo tag out h = elim (Result-cases (read_dir (tags_path base d repo) d)) [
    | inl (e, r) ↦ absurd (cc (rw (r, tags_of) at h))
    | inr (names, r) ↦
        let e : sub_dirs (tags_path base d repo) d ≡ out =
          (let j = rw (r, tags_of) at h in rw (r, sub_dirs) cc) in
        subst
          (λ l.
            In tag l
            ↔ (HasDir (tags_path base d repo) × HasDir (tags_path base d repo ++ tag ∷ [])))
          e (In-sub_dirs_iff (tags_path base d repo) tag d)
  ]

  abbrev pub manifests_dir : Text → List Text → FilePath
  manifests_dir repo parts = manifests_path base repo parts

  -- The directory of a manifest's revision, of its algorithm and its hash.
  pub record IsRevision (repo digest : Text) : Type 0 where
    pub algo : Text
    pub hash : Text
    pub named : digest ≡ algo ++ b':' ∷ hash
    pub revisions : HasDir (manifests_dir repo (codes "revisions" ∷ []))
    pub algo_dir : HasDir (manifests_dir repo (codes "revisions" ∷ []) ++ algo ∷ [])
    pub algo_read : HasDir (manifests_dir repo (codes "revisions" ∷ algo ∷ []))
    pub hash_dir : HasDir (manifests_dir repo (codes "revisions" ∷ algo ∷ []) ++ hash ∷ [])

  -- The directory of a referrer, below the algorithm and the hash of its subject.
  pub record IsReferrer (repo digest : Text) : Type 0 where
    pub algo : Text
    pub subject : Text
    pub referrers : HasDir (manifests_dir repo (codes "referrers" ∷ []))
    pub algo_dir : HasDir (manifests_dir repo (codes "referrers" ∷ []) ++ algo ∷ [])
    pub algo_read : HasDir (manifests_dir repo (codes "referrers" ∷ algo ∷ []))
    pub subject_dir : HasDir (manifests_dir repo (codes "referrers" ∷ algo ∷ []) ++ subject ∷ [])
    pub subject_read : HasDir (manifests_dir repo (codes "referrers" ∷ algo ∷ subject ∷ []))
    pub referrer_dir :
        HasDir (manifests_dir repo (codes "referrers" ∷ algo ∷ subject ∷ []) ++ digest ∷ [])

  revisions_iff :
      (repo digest : Text)
      → In digest (
          collect
            (revisions_in base d repo)
            (sub_dirs (manifests_dir repo (codes "revisions" ∷ [])) d))
        ↔ IsRevision repo digest
  revisions_iff repo digest = (
    λ i.
        let (algo, i0, j) = (In-collect_iff (revisions_in base d repo) digest _).0 i in
        let (hash, i1, e) = (In-map_iff (λ h. algo ++ b':' ∷ h) digest _).0 j in
        let (a, b) = (In-sub_dirs_iff (manifests_dir repo (codes "revisions" ∷ [])) algo d).0 i0 in
        let (a', b') =
          (In-sub_dirs_iff (manifests_dir repo (codes "revisions" ∷ algo ∷ [])) hash d).0 i1 in
        record {
          algo = algo;
          hash = hash;
          named = e;
          revisions = a;
          algo_dir = b;
          algo_read = a';
          hash_dir = b';
        },
    λ r. (In-collect_iff (revisions_in base d repo) digest _).1 (
      r.algo,
      (In-sub_dirs_iff (manifests_dir repo (codes "revisions" ∷ [])) r.algo d).1
          (r.revisions, r.algo_dir),
      (In-map_iff (λ h. r.algo ++ b':' ∷ h) digest _).1 (
        r.hash,
        (In-sub_dirs_iff (manifests_dir repo (codes "revisions" ∷ r.algo ∷ [])) r.hash d).1
            (r.algo_read, r.hash_dir),
        r.named,
      ),
    ),
  )

  referrers_iff :
      (repo digest : Text)
      → In digest (
          collect
            (referrers_in base d repo)
            (sub_dirs (manifests_dir repo (codes "referrers" ∷ [])) d))
        ↔ IsReferrer repo digest
  referrers_iff repo digest = (
    λ i.
        let (algo, i0, j) = (In-collect_iff (referrers_in base d repo) digest _).0 i in
        let (subject, i1, i2) = (In-collect_iff (referrers_of base d repo algo) digest _).0 j in
        let (a, b) = (In-sub_dirs_iff (manifests_dir repo (codes "referrers" ∷ [])) algo d).0 i0 in
        let (a', b') =
          (In-sub_dirs_iff (manifests_dir repo (codes "referrers" ∷ algo ∷ [])) subject d).0 i1 in
        let (a'', c) =
          (In-sub_dirs_iff (manifests_dir repo (codes "referrers" ∷ algo ∷ subject ∷ [])) digest
              d).0
            i2 in
        record {
          algo = algo;
          subject = subject;
          referrers = a;
          algo_dir = b;
          algo_read = a';
          subject_dir = b';
          subject_read = a'';
          referrer_dir = c;
        },
    λ r. (In-collect_iff (referrers_in base d repo) digest _).1 (
      r.algo,
      (In-sub_dirs_iff (manifests_dir repo (codes "referrers" ∷ [])) r.algo d).1
          (r.referrers, r.algo_dir),
      (In-collect_iff (referrers_of base d repo r.algo) digest _).1 (
        r.subject,
        (In-sub_dirs_iff (manifests_dir repo (codes "referrers" ∷ r.algo ∷ [])) r.subject d).1
            (r.algo_read, r.subject_dir),
        (In-sub_dirs_iff (manifests_dir repo (codes "referrers" ∷ r.algo ∷ r.subject ∷ [])) digest
              d).1
            (r.subject_read, r.referrer_dir),
      ),
    ),
  )

  -- `ManifestsList` names exactly the digests of the revisions and of the referrers of the
  -- repository.
  pub manifest_digests_iff :
      (repo digest : Text)
      → In digest (manifest_digests base d repo) ↔ (IsRevision repo digest ⊎ IsReferrer repo digest)
  unfolding manifest_digests
  manifest_digests_iff repo digest = (
    λ i. elim ((In-add_iff digest _ _).0 i) [
      | inl j ↦ elim ((In-add_iff digest _ _).0 j) [
        | inl z ↦ absurd z
        | inr k ↦ inl ((revisions_iff repo digest).0 k)
      ]
      | inr j ↦ inr ((referrers_iff repo digest).0 j)
    ],
    λ s. (In-add_iff digest _ _).1 (elim s [
      | inl r ↦ inl ((In-add_iff digest _ _).1 (inr ((revisions_iff repo digest).1 r)))
      | inr r ↦ inr ((referrers_iff repo digest).1 r)
    ]),
  )
