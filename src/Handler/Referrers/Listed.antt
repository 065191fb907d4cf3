-- ===== src/Handler/Referrers/Listed.antt =====
-- What the list of referrers holds.
use simple_registry.Base.{
  ℕ, false, Option, none, some, List, [], ◌∷◌, ◌++◌, nat_eq, list_eq, Text, ok, ◌≡◌, refl, sym, ◌∙◌,
  ap, subst, ◌⊎◌, ◌↔◌, inl, inr, In, In-append, In-append_left, In-append_right, Bool-cases, Result,
  Result-cases, Option-cases, ==-cases, ==_refl,
}
use simple_registry.Oci.{DescriptorManifest, media_type_oci_image_manifest}
use simple_registry.Storage.{DataStorage}
use simple_registry.Handler.Access.{Server}
use simple_registry.Handler.Referrers.{
  GenericManifest, DecodeGeneric, is_skipable, described, describe_each,
}

-- The manifest has the artifact type that is asked for, if one is: its own type, or, for an image
-- manifest without one, the media type of its configuration.
abbrev pub Passes : Text → GenericManifest → Type 0
Passes filter g =
    (filter ≡ [])
    ⊎ ((g.artifact_type ≡ some filter)
        ⊎ ((g.artifact_type ≡ none)
            × (g.media_type ≡ media_type_oci_image_manifest)
            × (g.config ≡ some filter)))

is_skipable-Passes :
    (filter : Text) (g : GenericManifest) → is_skipable filter g ≡ false → Passes filter g
unfolding is_skipable
is_skipable-Passes filter g h = elim (==-cases filter []) [
  | inl (_, e) ↦ inl e
  | inr (f, _) ↦ elim (Option-cases g.artifact_type) [
    | inr (a, i) ↦ elim (==-cases a filter) [
      | inl (_, e) ↦ inr (inl (i ∙ ap some e))
      | inr (n, _) ↦ absurd (cc (rw (f, i, n, is_skipable) at h))
    ]
    | inl none_given ↦ elim (==-cases g.media_type media_type_oci_image_manifest) [
      | inr (n, _) ↦ absurd (cc (rw (f, none_given, n, is_skipable) at h))
      | inl (y, image) ↦ elim (Option-cases g.config) [
        | inl n ↦ absurd (cc (rw (f, none_given, y, n, is_skipable) at h))
        | inr (c, j) ↦ elim (==-cases c filter) [
          | inl (_, e) ↦ inr (inr (none_given, image, j ∙ ap some e))
          | inr (n, _) ↦ absurd (cc (rw (f, none_given, y, j, n, is_skipable) at h))
        ]
      ]
    ]
  ]
]

Passes-is_skipable :
    (filter : Text) (g : GenericManifest) → Passes filter g → is_skipable filter g ≡ false
unfolding is_skipable
Passes-is_skipable filter g p = elim (==-cases filter []) [
  | inl (t, _) ↦ rw (t, is_skipable) refl
  | inr (f, ne) ↦ elim p [
    | inl e ↦ absurd (ne e)
    | inr (inl i) ↦ rw (f, i, ==_refl filter, is_skipable) refl
    | inr (inr (n, image, c)) ↦
        rw (f, n, image, c, ==_refl media_type_oci_image_manifest, ==_refl filter, is_skipable) refl
  ]
]

module _ {S : Type 0} (m : Server) (decode : DecodeGeneric) (ds : DataStorage S)
    (repo filter : Text) where
  -- The state after the blobs have been read in order.
  abbrev pub after_reads : List Text → S → S
  after_reads [] s = s
  after_reads (ref ∷ refs) s = after_reads refs (ds.blobs_get repo ref s).1

  abbrev pub descriptor : Text → ℕ → GenericManifest → DescriptorManifest
  descriptor ref size g = record { media_type = g.media_type; digest = ref; size = size }

  -- A descriptor of one of the referrers: of the manifest that the storage serves for it after the
  -- referrers before it have been read, where the filter lets it pass.
  pub record Describes (refs : List Text) (s : S) (d : DescriptorManifest) : Type 0 where
    pub front : List Text
    pub back : List Text
    pub ref : Text
    pub content : Text
    pub size : ℕ
    pub manifest : GenericManifest
    pub place : refs ≡ front ++ ref ∷ back
    pub read : (ds.blobs_get repo ref (after_reads front s)).0 ≡ ok (content, size)
    pub decoded : decode content ≡ some manifest
    pub passes : Passes filter manifest
    pub same : d ≡ descriptor ref size manifest

  -- What one referrer adds.
  abbrev Adds : Text → Text → ℕ → DescriptorManifest → Type 0
  Adds ref content size d =
      (g : GenericManifest) × (decode content ≡ some g)
      × Passes filter g
      × (d ≡ descriptor ref size g)

  In-described_iff :
      (ref content : Text) (size : ℕ) (o : Option GenericManifest) (found : List DescriptorManifest)
      (d : DescriptorManifest)
      → decode content ≡ o
      → In d (described filter ref size o found) ↔ (In d found ⊎ Adds ref content size d)
  In-described_iff ref content size none found d e =
      (inl, elim [ inl i ↦ i | inr (g, k, _, _) ↦ absurd (cc) ])
  In-described_iff ref content size (some g) found d e = elim (Bool-cases (is_skipable filter g)) [
    | inl skip ↦ rw skip (
      inl,
      elim [
        | inl i ↦ i
        | inr (g', k, p, _) ↦
            let same : g ≡ g' = cc in
            let kept =
              subst (λ z. is_skipable filter z ≡ false) (sym same)
                (Passes-is_skipable filter g' p) in
            absurd (cc)
      ],
    )
    | inr pass ↦ rw pass (
      λ i. elim (In-append d found (descriptor ref size g ∷ []) i) [
        | inl old ↦ inl old
        | inr (inl new) ↦ inr (g, e, is_skipable-Passes filter g pass, new)
        | inr (inr z) ↦ absurd z
      ],
      elim [
        | inl i ↦ In-append_left d found (descriptor ref size g ∷ []) i
        | inr (g', k, _, new) ↦
            let same : g' ≡ g = cc in
            In-append_right d found (descriptor ref size g ∷ [])
              (inl (subst (λ z. d ≡ descriptor ref size z) same new))
      ],
    )
  ]

  Describes-cons :
      (r : Text) (refs : List Text) (s : S) (d : DescriptorManifest)
      → Describes refs (ds.blobs_get repo r s).1 d
      → Describes (r ∷ refs) s d
  Describes-cons r refs s d k = record {
    front = r ∷ k.front;
    back = k.back;
    ref = k.ref;
    content = k.content;
    size = k.size;
    manifest = k.manifest;
    place = ap (λ l. r ∷ l) k.place;
    read = k.read;
    decoded = k.decoded;
    passes = k.passes;
    same = k.same;
  }

  Adds-Describes :
      (r : Text) (refs : List Text) (s : S) (content : Text) (size : ℕ) (d : DescriptorManifest)
      → (ds.blobs_get repo r s).0 ≡ ok (content, size)
      → Adds r content size d
      → Describes (r ∷ refs) s d
  Adds-Describes r refs s content size d read (g, e, p, new) = record {
    front = [];
    back = refs;
    ref = r;
    content = content;
    size = size;
    manifest = g;
    place = refl;
    read = read;
    decoded = e;
    passes = p;
    same = new;
  }

  Describes-parts :
      (r : Text) (refs front back : List Text) (ref content bytes : Text) (size n : ℕ)
      (g : GenericManifest) (s : S) (d : DescriptorManifest)
      → (ds.blobs_get repo r s).0 ≡ ok (content, size)
      → r ∷ refs ≡ front ++ ref ∷ back
      → (ds.blobs_get repo ref (after_reads front s)).0 ≡ ok (bytes, n)
      → decode bytes ≡ some g
      → Passes filter g
      → d ≡ descriptor ref n g
      → Adds r content size d ⊎ Describes refs (ds.blobs_get repo r s).1 d
  Describes-parts r refs [] back ref content bytes size n g s d here place read e p new =
      let same : ref ≡ r = cc in
      let there : (ds.blobs_get repo r s).0 ≡ ok (bytes, n) =
        subst (λ z. (ds.blobs_get repo z s).0 ≡ ok (bytes, n)) same read in
      let pair : ◌≡◌ {A = Result (Text × ℕ)} (ok (bytes, n)) (ok (content, size)) =
        sym there ∙ here in
      let c : bytes ≡ content = cc in
      let q : n ≡ size = cc in inl (g, subst (λ z. decode z ≡ some g) c e, p, rw (← same, ← q) new)
  Describes-parts r refs (f ∷ front) back ref content bytes size n g s d here place read e p new =
      let first : f ≡ r = cc in
      let rest : refs ≡ front ++ ref ∷ back = cc in
      inr (record {
        front = front;
        back = back;
        ref = ref;
        content = bytes;
        size = n;
        manifest = g;
        place = rest;
        read =
            subst
              (λ z.
                (ds.blobs_get repo ref (after_reads front (ds.blobs_get repo z s).1)).0
                ≡ ok (bytes, n))
              first read;
        decoded = e;
        passes = p;
        same = new;
      })

  no_referrer : (s : S) (d : DescriptorManifest) → ¬ Describes [] s d
  no_referrer s d k = nowhere k.front k.place
    where
      nowhere : (front : List Text) → ¬ ([] ≡ front ++ k.ref ∷ k.back)
      nowhere [] e = cc
      nowhere (f ∷ front) e = cc

  -- Where every referrer can be read, the loop adds exactly the descriptors of the referrers whose
  -- manifest, as the storage serves it after the referrers before it, is decoded and has the
  -- artifact type that is asked for.
  pub describe_each-Describes_iff :
      (refs : List Text) (found out : List DescriptorManifest) (d : DescriptorManifest) (s t : S)
      → describe_each m decode ds repo filter refs found s ≡ (ok out, t)
      → In d out ↔ (In d found ⊎ Describes refs s d)
  unfolding describe_each
  describe_each-Describes_iff [] found out d s t h =
      let e : out ≡ found = cc in
      (
        λ i. inl (subst (In d) e i),
        elim [ inl i ↦ subst (In d) (sym e) i | inr k ↦ absurd (no_referrer s d k) ],
      )
  describe_each-Describes_iff (r ∷ refs) found out d s t h =
      elim (Result-cases (ds.blobs_get repo r s).0) [
        | inl (e, q) ↦ absurd (cc (rw (q, describe_each) at h))
        | inr ((content, size), q) ↦
            let (to, from) =
              describe_each-Describes_iff refs (described filter r size (decode content) found) out
                d (ds.blobs_get repo r s).1 t (rw (q, describe_each) at h) in
            let (step, back) = In-described_iff r content size (decode content) found d refl in
            (
              λ i. elim (to i) [
                | inr k ↦ inr (Describes-cons r refs s d k)
                | inl j ↦ elim (step j) [
                  | inl old ↦ inl old
                  | inr new ↦ inr (Adds-Describes r refs s content size d q new)
                ]
              ],
              elim [
                | inl old ↦ from (inl (back (inl old)))
                | inr k ↦
                    elim (Describes-parts r refs k.front k.back k.ref content k.content size k.size
                      k.manifest s d q k.place k.read k.decoded k.passes k.same) [
                        | inl new ↦ from (inl (back (inr new)))
                        | inr later ↦ from (inr later)
                      ]
              ],
            )
      ]
