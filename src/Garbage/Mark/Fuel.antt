-- ===== src/Garbage/Mark/Fuel.antt =====
-- Enough fuel for marking: one unit more than there are manifests that are not marked yet.
use simple_registry.Base.{
  ℕ, zero, suc, true, false, Option, none, some, List, [], ◌∷◌, nat_eq, list_eq, Text, ◌≡◌, ◌≢◌,
  refl, sym, ap, ◌∙◌, subst, inl, inr, In, In-append_left, In-append_right, Error, Result, ok, err,
  Action, pure, lift, ◌>>=◌, Result-cases, Bool-cases, contains, contains_iff, not_In_of_contains,
  contains_of_not_In, if◌then◌else◌, ◌≤◌, ◌<◌, arith, out_of_fuel,
}
use simple_registry.MapSet.{add_one}
use simple_registry.MapSet.Laws.{In-add_one_iff}
use simple_registry.Storage.{DataStorage}
use simple_registry.Garbage.Mark.{
  is_not_exist, Decoders, Marks, Kind, image, index, docker_v1, unsupported, raw_kind, digests_of,
  image_blobs, docker_v1_blobs, add_blobs, or_json_error, list_or_none, mark_each, mark_kind,
  mark_referrers, mark_payload, on_read, mark_unseen, mark_manifest,
}
use simple_registry.Garbage.Mark.References.{
  index_children, children_by_kind, children_of_raw, payload_of, list_of, children_at, children,
  Included, Grows, Grows-refl, Grows-trans,
}
use simple_registry.Garbage.Mark.Closure.{Visited, mark_kind-Handled, mark_manifest-Visited}

-- How many of some digests are not marked.
unfoldable pub unseen : List Text → List Text → ℕ
unseen [] m = 0
unseen (x ∷ all) m = let rest = unseen all m in if contains m x then rest else suc rest

contains_Included :
    (m n : List Text) (x : Text) → Included m n → contains n x ≡ false → contains m x ≡ false
contains_Included m n x inc h = contains_of_not_In m x (λ i. not_In_of_contains n x h (inc x i))

unseen_le : (all m n : List Text) → Included m n → unseen all n ≤ unseen all m
unfolding unseen
unseen_le [] m n inc = omega arith
unseen_le (x ∷ all) m n inc =
    let rest = unseen_le all m n inc in
    elim (Bool-cases (contains n x)) [
      | inr f ↦ rw (f, contains_Included m n x inc f) (omega (arith, rest))
      | inl t ↦ elim (Bool-cases (contains m x)) [
        | inl u ↦ rw (t, u) rest
        | inr u ↦ rw (t, u) (omega (arith, rest))
      ]
    ]

-- A digest that becomes marked is one less to mark.
unseen_lt :
    (all m n : List Text) (d : Text)
    → Included m n
    → In d all
    → In d n
    → contains m d ≡ false
    → unseen all n < unseen all m
unfolding unseen
unseen_lt [] m n d inc i j h = absurd i
unseen_lt (x ∷ all) m n d inc (inl e) j h =
    let rest = unseen_le all m n inc in
    let now : contains n x ≡ true = subst (λ z. contains n z ≡ true) e ((contains_iff n d).1 j) in
    let before : contains m x ≡ false = subst (λ z. contains m z ≡ false) e h in
    rw (now, before) (omega (arith, rest))
unseen_lt (x ∷ all) m n d inc (inr i) j h =
    let rest = unseen_lt all m n d inc i j h in
    elim (Bool-cases (contains n x)) [
      | inr f ↦ rw (f, contains_Included m n x inc f) (omega (arith, rest))
      | inl t ↦ elim (Bool-cases (contains m x)) [
        | inl u ↦ rw (t, u) rest
        | inr u ↦ rw (t, u) (omega (arith, rest))
      ]
    ]

abbrev pub NotOut {ℓ κ} : {S : Type ℓ} {A : Type κ} → Result A × S → Type κ
NotOut (r, s) = r ≢ err out_of_fuel

bind_NotOut :
    {S A B : Type 0} (m : Action S A) (f : A → Action S B) (s : S)
    → NotOut (m s)
    → ((a : A) (u : S) → m s ≡ (ok a, u) → NotOut (f a u))
    → NotOut ((m >>= f) s)
bind_NotOut m f s h k = elim (Result-cases (m s).0) [
  | inl (e, r) ↦ rw (r, ◌>>=◌) (λ z. h (r ∙ ap_err z))
  | inr (a, r) ↦ rw (r, ◌>>=◌) (k a (m s).1 (λ i. (r i, (m s).1)))
]
  where
    ap_err :
        {A B : Type 0} {e e' : Error}
        → ◌≡◌ {A = Result B} (err e) (err e')
        → ◌≡◌ {A = Result A} (err e) (err e')
    ap_err h = cc

or_json_error-some : {A : Type 0} (o : Option A) {a : A} → or_json_error o ≡ ok a → o ≡ some a
or_json_error-some none h = cc
or_json_error-some (some b) h = cc

-- A chain that begins by a decoder goes on with what it decodes, in the same state.
decode_NotOut :
    {S A B : Type 0} (o : Option A) (f : A → Action S B) (s : S)
    → ((a : A) → o ≡ some a → NotOut (f a s))
    → NotOut ((lift (or_json_error o) >>= f) s)
decode_NotOut none f s k = λ z. cc
decode_NotOut (some a) f s k = k a refl

list_or_none-some : (r : Result (List Text)) {l : List Text} → list_or_none r ≡ ok l → list_of r ≡ l
list_or_none-some (ok l) h = cc
list_or_none-some (err e) {l} h = elim (Bool-cases (is_not_exist e)) [
  | inl y ↦ let z : ok [] ≡ ok l = rw y at h in cc
  | inr n ↦ absurd (cc (rw n at h))
]

list_or_none-ne : (r : Result (List Text)) → r ≢ err out_of_fuel → list_or_none r ≢ err out_of_fuel
list_or_none-ne (ok l) h = λ z. cc
list_or_none-ne (err e) h = elim (Bool-cases (is_not_exist e)) [
  | inl y ↦ rw y (λ z. cc)
  | inr n ↦ rw n h
]

module _ {S : Type 0} (lib : Decoders) (ds : DataStorage S) (s : S) (repo : Text)
    (all : List Text) where
  -- Reads that leave the state as it is and do not fail for want of fuel, and a set of digests that
  -- holds all that its members refer to.
  pub record Bounded : Type 0 where
    pub get_same : (r : Text) → (ds.manifest_get repo r s).1 ≡ s
    pub refs_same : (r : Text) → (ds.referrers_get repo r s).1 ≡ s
    pub get_fine : (r : Text) → NotOut (ds.manifest_get repo r s)
    pub refs_fine : (r : Text) → NotOut (ds.referrers_get repo r s)
    pub complete : (d : Text) → In d all → Included (children lib ds s repo d) all

  module _ (bounded : Bounded) (visit : Text → Marks → Action S Marks) (m1 : Marks)
      (visited : (d : Text) (m n : Marks) (t : S)
        → visit d m s ≡ (ok n, t)
        → Visited lib ds s repo d m n t)
      (fine : (d : Text) (m : Marks) → In d all → Grows m1 m → NotOut (visit d m s)) where
    mark_each-NotOut :
        (l : List Text) (m : Marks)
        → Included l all
        → Grows m1 m
        → NotOut (mark_each lib ds visit l m s)
    unfolding mark_each
    mark_each-NotOut [] m inc g = λ z. cc
    mark_each-NotOut (d ∷ l) m inc g =
        bind_NotOut (visit d m) (mark_each lib ds visit l) s (fine d m (inc d (inl refl)) g)
          (λ m' u h.
            let v = visited d m m' u h in
            subst (λ x. NotOut (mark_each lib ds visit l m' x)) (sym v.same)
              (mark_each-NotOut l m' (λ y i. inc y (inr i)) (Grows-trans g v.extends.grows)))

    mark_kind-NotOut :
        (k : Kind) (p : Text) (m : Marks)
        → Included (children_by_kind lib k p) all
        → Grows m1 m
        → NotOut (mark_kind lib ds visit k p m s)
    unfolding mark_kind
    mark_kind-NotOut image p m inc g =
        decode_NotOut (lib.decode_image p) (λ x. pure (add_blobs (image_blobs x) m)) s (λ a e z. cc)
    mark_kind-NotOut docker_v1 p m inc g =
        decode_NotOut (lib.decode_docker_v1 p) (λ x. pure (add_blobs (docker_v1_blobs x) m)) s
          (λ a e z. cc)
    mark_kind-NotOut index p m inc g =
        decode_NotOut (lib.decode_index p) (λ x. mark_each lib ds visit (digests_of x.manifests) m)
          s
          (λ a e.
            mark_each-NotOut (digests_of a.manifests) m
              (λ y i. inc y (subst (In y) (sym (ap index_children e)) i)) g)
    mark_kind-NotOut unsupported p m inc g = λ z. cc

    mark_referrers-NotOut :
        (d : Text) (m : Marks)
        → Included (list_of (ds.referrers_get repo d s).0) all
        → Grows m1 m
        → NotOut (mark_referrers lib ds visit repo d m s)
    unfolding mark_referrers
    mark_referrers-NotOut d m inc g =
        let r = (ds.referrers_get repo d s).0 in
        let f : List Text → Action S Marks = λ refs. mark_each lib ds visit refs m in
        subst (λ x. NotOut ((lift (list_or_none r) >>= f) x)) (sym (bounded.refs_same d))
          (bind_NotOut (lift (list_or_none r)) f s (list_or_none-ne r (bounded.refs_fine d))
            (λ l u h.
              subst (λ x. NotOut (mark_each lib ds visit l m x)) (λ i. (h i).1)
                (mark_each-NotOut l m
                  (λ y i. inc y (subst (In y) (sym (list_or_none-some r (λ i. (h i).0))) i)) g)))

    mark_payload-NotOut :
        (d p : Text) (m : Marks)
        → Included (children_at lib ds s repo d (some p)) all
        → Grows m1 m
        → NotOut (mark_payload lib ds visit repo d p m s)
    unfolding mark_payload
    mark_payload-NotOut d p m inc g =
        decode_NotOut (lib.decode_raw p)
          (λ raw. mark_kind lib ds visit (raw_kind raw) p m >>= mark_referrers lib ds visit repo d)
          s
          (λ raw e.
            bind_NotOut (mark_kind lib ds visit (raw_kind raw) p m)
              (mark_referrers lib ds visit repo d) s
              (mark_kind-NotOut (raw_kind raw) p m
                (λ y i.
                  inc y
                    (In-append_left y _ _ (subst (λ o. In y (children_of_raw lib o p)) (sym e) i)))
                g)
              (λ m' u h.
                let k =
                  mark_kind-Handled lib ds s repo visit visited bounded.get_same bounded.refs_same
                    (raw_kind raw) p m m' u h in
                subst (λ x. NotOut (mark_referrers lib ds visit repo d m' x)) (sym k.same)
                  (mark_referrers-NotOut d m' (λ y i. inc y (In-append_right y _ _ i))
                    (Grows-trans g k.extends.grows))))

    on_read-NotOut :
        (d : Text) (r : Result (Text × ℕ × Text)) (m : Marks)
        → r ≢ err out_of_fuel
        → Included (children_at lib ds s repo d (payload_of r)) all
        → Grows m1 m
        → NotOut (on_read lib ds visit repo d m r s)
    unfolding on_read
    on_read-NotOut d (ok (p, size, g)) m h inc k = mark_payload-NotOut d p m inc k
    on_read-NotOut d (err e) m h inc k = elim (Bool-cases (is_not_exist e)) [
      | inl y ↦ rw y (λ z. cc)
      | inr n ↦ rw n (λ z. h (cc))
    ]

  -- Marking a digest of such a set ends without a want of fuel when there is more fuel than the set
  -- has digests that are not marked.
  pub mark_manifest-NotOut :
      (fuel : ℕ) (d : Text) (m : Marks)
      → Bounded
      → In d all
      → unseen all m.manifests < fuel
      → NotOut (mark_manifest lib ds fuel repo d m s)
  unfolding mark_manifest mark_unseen
  mark_manifest-NotOut zero d m bounded i lt = absurd (omega arith)
  mark_manifest-NotOut (suc fuel) d m bounded i lt = elim (Bool-cases (contains m.manifests d)) [
    | inl seen ↦ rw seen (λ z. cc)
    | inr new ↦
        let m1 : Marks = record m { manifests = add_one d m.manifests } in
        let grows : Included m.manifests m1.manifests =
          λ y k. (In-add_one_iff y d m.manifests).1 (inl k) in
        let less =
          unseen_lt all m.manifests m1.manifests d grows i
            ((In-add_one_iff d d m.manifests).1 (inr refl)) new in
        let r = (ds.manifest_get repo d s).0 in
        rw new (
          subst (λ x. NotOut (on_read lib ds (mark_manifest lib ds fuel repo) repo d m1 r x))
            (sym (bounded.get_same d))
            (on_read-NotOut bounded (mark_manifest lib ds fuel repo) m1
              (mark_manifest-Visited lib ds s repo bounded.get_same bounded.refs_same fuel)
              (λ e n j g.
                mark_manifest-NotOut fuel e n bounded j
                  (omega (arith, lt, less, unseen_le all m1.manifests n.manifests g.manifests)))
              d r m1 (bounded.get_fine d) (bounded.complete d i) (Grows-refl m1)))
  ]
