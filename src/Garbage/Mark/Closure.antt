-- ===== src/Garbage/Mark/Closure.antt =====
-- Marking is closed: whatever a marked manifest refers to is marked too.
use simple_registry.Base.{
  ℕ, zero, suc, Option, none, some, List, [], ◌∷◌, nat_eq, list_eq, Text, ◌≡◌, refl, sym, ap, subst,
  ◌⊎◌, inl, inr, In, In-append, Result, ok, err, Action, pure, lift, ◌>>=◌, bind_ok, Bool-cases,
  contains, contains_iff,
}
use simple_registry.MapSet.{add_one}
use simple_registry.MapSet.Laws.{In-add_iff, In-add_one_iff}
use simple_registry.Storage.{DataStorage}
use simple_registry.Garbage.Mark.References.{
  index_children, blobs_of_image, blobs_of_docker_v1, children_by_kind, blobs_by_kind,
  children_of_raw, blobs_of_raw, payload_of, list_of, children_at, blobs_at, children, blobs,
  Included, Grows, Grows-refl, Grows-trans,
}
use simple_registry.Garbage.Mark.{
  is_not_exist, Decoders, Marks, Kind, image, index, docker_v1, unsupported, raw_kind, digests_of,
  image_blobs, docker_v1_blobs, add_blobs, or_json_error, mark_each, mark_kind, list_or_none,
  mark_referrers, mark_payload, on_read, mark_unseen, mark_manifest,
}

module _ {S : Type 0} (lib : Decoders) (ds : DataStorage S) (s : S) (repo : Text) where
  -- All that a manifest refers to is marked.
  pub record IsClosed (m : Marks) (x : Text) : Type 0 where
    pub manifests : Included (children lib ds s repo x) m.manifests
    pub blobs : Included (blobs lib ds s repo x) m.blobs

  pub IsClosed-Grows : {m n : Marks} (x : Text) → Grows m n → IsClosed m x → IsClosed n x
  IsClosed-Grows x g c = record {
    manifests = λ y h. g.manifests y (c.manifests y h);
    blobs = λ y h. g.blobs y (c.blobs y h);
  }

  -- The marks grow, and every manifest that is new among them is closed.
  pub record Extends (m n : Marks) : Type 0 where
    pub grows : Grows m n
    pub closed : (x : Text) → In x n.manifests → In x m.manifests ⊎ IsClosed n x

  Extends-refl : (m : Marks) → Extends m m
  Extends-refl m = record { grows = Grows-refl m; closed = λ x h. inl h }

  Extends-trans : {l m n : Marks} → Extends l m → Extends m n → Extends l n
  Extends-trans a b = record {
    grows = Grows-trans a.grows b.grows;
    closed = λ x h. elim (b.closed x h) [
      | inl k ↦ elim (a.closed x k) [ inl old ↦ inl old | inr c ↦ inr (IsClosed-Grows x b.grows c) ]
      | inr c ↦ inr c
    ];
  }

  Extends-add_blobs : (bs : List Text) (m : Marks) → Extends m (add_blobs bs m)
  Extends-add_blobs bs m = record {
    grows = record { manifests = λ y h. h; blobs = λ y h. (In-add_iff y m.blobs bs).1 (inl h) };
    closed = λ x h. inl h;
  }

  -- A visit that succeeds leaves the storage alone, extends the marks and marks its digest.
  pub record Visited (d : Text) (m n : Marks) (t : S) : Type 0 where
    pub same : t ≡ s
    pub extends : Extends m n
    pub marked : In d n.manifests

  module _ (visit : Text → Marks → Action S Marks)
      (visited : (d : Text) (m n : Marks) (t : S) → visit d m s ≡ (ok n, t) → Visited d m n t)
      (get_same : (r : Text) → (ds.manifest_get repo r s).1 ≡ s)
      (refs_same : (r : Text) → (ds.referrers_get repo r s).1 ≡ s) where
    mark_each-Extends :
        (l : List Text) (m n : Marks) (t : S)
        → mark_each lib ds visit l m s ≡ (ok n, t)
        → (t ≡ s) × Extends m n × Included l n.manifests
    unfolding mark_each
    mark_each-Extends [] m n t h =
        let e : n ≡ m = cc in
        let q : t ≡ s = cc in (q, subst (Extends m) (sym e) (Extends-refl m), λ y z. absurd z)
    mark_each-Extends (d ∷ l) m n t h =
        let (m', u, first, rest) = bind_ok (visit d m) (mark_each lib ds visit l) s h in
        let v = visited d m m' u first in
        let (q, e, all) =
          mark_each-Extends l m' n t
            (subst (λ x. mark_each lib ds visit l m' x ≡ (ok n, t)) v.same rest) in
        (
          q,
          Extends-trans v.extends e,
          λ y z. elim z [
            | inl same ↦ subst (λ x. In x n.manifests) (sym same) (e.grows.manifests d v.marked)
            | inr later ↦ all y later
          ],
        )

    or_json_error_ok : {A : Type 0} (o : Option A) {a : A} → or_json_error o ≡ ok a → o ≡ some a
    or_json_error_ok none h = cc
    or_json_error_ok (some b) h = cc

    -- A chain that begins by a decoder.
    lift_ok :
        {A B : Type 0} (r : Result A) (f : A → Action S B) {b : B} {t : S}
        → (lift r >>= f) s ≡ (ok b, t)
        → (a : A) × (r ≡ ok a) × (f a s ≡ (ok b, t))
    lift_ok (ok a) f h = (a, refl, h)
    lift_ok (err e) f h = cc

    pub record Handled (kids bs : List Text) (m n : Marks) (t : S) : Type 0 where
      pub same : t ≡ s
      pub extends : Extends m n
      pub kids_marked : Included kids n.manifests
      pub blobs_marked : Included bs n.blobs

    add_blobs-Handled :
        (bs bs' : List Text) (m n : Marks) (t : S)
        → bs' ≡ bs
        → ◌≡◌ {A = Result Marks × S} (ok (add_blobs bs m), s) (ok n, t)
        → Handled [] bs' m n t
    add_blobs-Handled bs bs' m n t e h =
        let q : n ≡ add_blobs bs m = cc in
        let z : t ≡ s = cc in
        subst (λ x. Handled [] bs' m x t) (sym q)
          (record {
            same = z;
            extends = Extends-add_blobs bs m;
            kids_marked = λ y k. absurd k;
            blobs_marked = λ y k. (In-add_iff y m.blobs bs).1 (inr (subst (In y) e k));
          })

    pub mark_kind-Handled :
        (k : Kind) (p : Text) (m n : Marks) (t : S)
        → mark_kind lib ds visit k p m s ≡ (ok n, t)
        → Handled (children_by_kind lib k p) (blobs_by_kind lib k p) m n t
    unfolding mark_kind
    mark_kind-Handled image p m n t h =
        let (i, e, z) =
          lift_ok (or_json_error (lib.decode_image p)) (λ x. pure (add_blobs (image_blobs x) m))
            h in
        add_blobs-Handled (image_blobs i) _ m n t (ap blobs_of_image (or_json_error_ok _ e)) z
    mark_kind-Handled index p m n t h =
        let (i, e, z) =
          lift_ok (or_json_error (lib.decode_index p))
            (λ x. mark_each lib ds visit (digests_of x.manifests) m) h in
        let (q, x, all) = mark_each-Extends (digests_of i.manifests) m n t z in
        record {
          same = q;
          extends = x;
          kids_marked = λ y k. all y (subst (In y) (ap index_children (or_json_error_ok _ e)) k);
          blobs_marked = λ y k. absurd k;
        }
    mark_kind-Handled docker_v1 p m n t h =
        let (i, e, z) =
          lift_ok (or_json_error (lib.decode_docker_v1 p))
            (λ x. pure (add_blobs (docker_v1_blobs x) m)) h in
        add_blobs-Handled (docker_v1_blobs i) _ m n t (ap blobs_of_docker_v1 (or_json_error_ok _ e))
          z
    mark_kind-Handled unsupported p m n t h = absurd (cc)

    list_or_none_ok :
        (r : Result (List Text)) {l : List Text} → list_or_none r ≡ ok l → list_of r ≡ l
    list_or_none_ok (ok l) h = cc
    list_or_none_ok (err e) {l} h = elim (Bool-cases (is_not_exist e)) [
      | inl y ↦ let z : ok [] ≡ ok l = rw y at h in cc
      | inr n ↦ absurd (cc (rw n at h))
    ]

    mark_referrers-Handled :
        (d : Text) (m n : Marks) (t : S)
        → mark_referrers lib ds visit repo d m s ≡ (ok n, t)
        → Handled (list_of (ds.referrers_get repo d s).0) [] m n t
    unfolding mark_referrers
    mark_referrers-Handled d m n t h =
        let r = (ds.referrers_get repo d s).0 in
        let h' =
          subst
            (λ x. (lift (list_or_none r) >>= (λ refs. mark_each lib ds visit refs m)) x ≡ (ok n, t))
            (refs_same d) h in
        let (l, e, z) = lift_ok (list_or_none r) (λ refs. mark_each lib ds visit refs m) h' in
        let (q, x, all) = mark_each-Extends l m n t z in
        record {
          same = q;
          extends = x;
          kids_marked = λ y k. all y (subst (In y) (list_or_none_ok r e) k);
          blobs_marked = λ y k. absurd k;
        }

    mark_payload-Handled :
        (d p : Text) (m n : Marks) (t : S)
        → mark_payload lib ds visit repo d p m s ≡ (ok n, t)
        → Handled (children_at lib ds s repo d (some p)) (blobs_at lib ds s (some p)) m n t
    unfolding mark_payload
    mark_payload-Handled d p m n t h =
        let (raw, e, z) =
          lift_ok (or_json_error (lib.decode_raw p))
            (λ raw.
              mark_kind lib ds visit (raw_kind raw) p m >>= mark_referrers lib ds visit repo d)
            h in
        let e' = or_json_error_ok (lib.decode_raw p) e in
        let (m', u, first, rest) =
          bind_ok (mark_kind lib ds visit (raw_kind raw) p m) (mark_referrers lib ds visit repo d) s
            z in
        let a = mark_kind-Handled (raw_kind raw) p m m' u first in
        let b =
          mark_referrers-Handled d m' n t
            (subst (λ x. mark_referrers lib ds visit repo d m' x ≡ (ok n, t)) a.same rest) in
        record {
          same = b.same;
          extends = Extends-trans a.extends b.extends;
          kids_marked = λ y k.
              elim (In-append y (children_of_raw lib (lib.decode_raw p) p)
                (list_of (ds.referrers_get repo d s).0) k) [
                  | inl i ↦
                      b.extends.grows.manifests y
                        (a.kids_marked y (subst (λ o. In y (children_of_raw lib o p)) e' i))
                  | inr i ↦ b.kids_marked y i
                ];
          blobs_marked = λ y k.
              b.extends.grows.blobs y
                (a.blobs_marked y (subst (λ o. In y (blobs_of_raw lib o p)) e' k));
        }

    on_read-Handled :
        (d : Text) (r : Result (Text × ℕ × Text)) (m n : Marks) (t : S)
        → on_read lib ds visit repo d m r s ≡ (ok n, t)
        → Handled
            (children_at lib ds s repo d (payload_of r))
            (blobs_at lib ds s (payload_of r))
            m
            n
            t
    unfolding on_read
    on_read-Handled d (ok (p, size, g)) m n t h = mark_payload-Handled d p m n t h
    on_read-Handled d (err e) m n t h = elim (Bool-cases (is_not_exist e)) [
      | inl y ↦
          let z : ◌≡◌ {A = Result Marks × S} (ok m, s) (ok n, t) = rw y at h in
          let q : n ≡ m = cc in
          let w : t ≡ s = cc in
          record {
            same = w;
            extends = subst (Extends m) (sym q) (Extends-refl m);
            kids_marked = λ y k. absurd k;
            blobs_marked = λ y k. absurd k;
          }
      | inr no_file ↦ absurd (cc (rw no_file at h))
    ]

    -- The digest itself is new: what it refers to has been handled.
    mark_unseen-Visited :
        (d : Text) (m n : Marks) (t : S)
        → mark_unseen lib ds visit repo d m s ≡ (ok n, t)
        → Visited d m n t
    unfolding mark_unseen
    mark_unseen-Visited d m n t h =
        let m1 : Marks = record m { manifests = add_one d m.manifests } in
        let r = (ds.manifest_get repo d s).0 in
        let h' = subst (λ x. on_read lib ds visit repo d m1 r x ≡ (ok n, t)) (get_same d) h in
        let a = on_read-Handled d r m1 n t h' in
        record {
          same = a.same;
          extends = record {
            grows =
                Grows-trans
                  (record {
                    manifests = λ y k. (In-add_one_iff y d m.manifests).1 (inl k);
                    blobs = λ y k. k;
                  })
                  a.extends.grows;
            closed = λ x k. elim (a.extends.closed x k) [
              | inr c ↦ inr c
              | inl i ↦ elim ((In-add_one_iff x d m.manifests).0 i) [
                | inl old ↦ inl old
                | inr same ↦ inr (
                    subst (IsClosed n) (sym same)
                      (record { manifests = a.kids_marked; blobs = a.blobs_marked }))
              ]
            ];
          };
          marked = a.extends.grows.manifests d ((In-add_one_iff d d m.manifests).1 (inr refl));
        }

  module _ (get_same : (r : Text) → (ds.manifest_get repo r s).1 ≡ s)
      (refs_same : (r : Text) → (ds.referrers_get repo r s).1 ≡ s) where
    -- A call of `markManifest` that succeeds marks its digest, and closes every manifest that it
    -- marks anew.
    pub mark_manifest-Visited :
        (fuel : ℕ) (d : Text) (m n : Marks) (t : S)
        → mark_manifest lib ds fuel repo d m s ≡ (ok n, t)
        → Visited d m n t
    unfolding mark_manifest
    mark_manifest-Visited zero d m n t h = absurd (cc)
    mark_manifest-Visited (suc fuel) d m n t h = elim (Bool-cases (contains m.manifests d)) [
      | inl seen ↦
          let z : ◌≡◌ {A = Result Marks × S} (ok m, s) (ok n, t) = rw seen at h in
          let q : n ≡ m = cc in
          let w : t ≡ s = cc in
          record {
            same = w;
            extends = subst (Extends m) (sym q) (Extends-refl m);
            marked = subst (λ x. In d x.manifests) (sym q) ((contains_iff m.manifests d).0 seen);
          }
      | inr unseen ↦
          mark_unseen-Visited (mark_manifest lib ds fuel repo) (mark_manifest-Visited fuel) get_same
            refs_same d m n t (rw unseen at h)
    ]
