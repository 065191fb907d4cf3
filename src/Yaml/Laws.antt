-- ===== src/Yaml/Laws.antt =====
-- `DecodeAll` decodes all documents or none.
use simple_registry.Base.{
  some, List, [], ◌∷◌, nat_eq, list_eq, pair_eq, Text, Result, ok, err, ◌≡◌, ◌≢◌, ◌↔◌, refl, sym,
  ◌∙◌, ap, inl, inr, Option-cases, Result-cases, lookup, ==-cases,
}
use simple_registry.Yaml.{
  CommonManifest, Registry, new_object, decode_one, decode_all, decode_known, decode_header,
  prepend,
}

ok_injective : {A : Type 0} {a b : A} → ◌≡◌ {A = Result A} (ok a) (ok b) → a ≡ b
ok_injective h = cc

module _ {Raw A : Type 0} (registry : Registry Raw A) (header : Raw → Result CommonManifest) where
  -- The document is well-formed, says its version and its kind, and is decoded by the type that is
  -- registered for them.
  pub record IsObject (document : Result Raw) (a : A) : Type 0 where
    pub raw : Raw
    pub key : CommonManifest
    pub decode : Raw → Result A
    pub read : document ≡ ok raw
    pub said : header raw ≡ ok key
    pub has_version : key.0 ≢ []
    pub has_kind : key.1 ≢ []
    pub registered : lookup key registry ≡ some decode
    pub decoded : decode raw ≡ ok a

  new_object_iff :
      (key : CommonManifest) (raw : Raw) (a : A)
      → (new_object registry key raw ≡ ok a)
        ↔ ((decode : Raw → Result A) × (lookup key registry ≡ some decode) × (decode raw ≡ ok a))
  unfolding new_object
  new_object_iff key raw a = elim (Option-cases (lookup key registry)) [
    | inl n ↦ (λ h. absurd (cc (rw (n, new_object) at h)), λ (decode, e, _). absurd (cc))
    | inr (decode, e) ↦
        (λ h. (decode, e, rw (e, new_object) at h), λ (other, f, k). rw (f, new_object) k)
  ]

  decode_known_iff :
      (version kind : Text) (raw : Raw) (a : A)
      → (decode_known registry (version, kind) raw ≡ ok a)
        ↔ ((version ≢ []) × (kind ≢ []) × (new_object registry (version, kind) raw ≡ ok a))
  decode_known_iff version kind raw a = elim (==-cases version []) [
    | inl (t, e) ↦ (λ h. absurd (cc (rw t at h)), λ (n, _, _). absurd (n e))
    | inr (f, ne) ↦ elim (==-cases kind []) [
      | inl (t, e) ↦ (λ h. absurd (cc (rw (f, t) at h)), λ (_, n, _). absurd (n e))
      | inr (g, nk) ↦ (λ h. (ne, nk, rw (f, g) at h), λ (_, _, h). rw (f, g) h)
    ]
  ]

  decode_header_iff :
      (raw : Raw) (a : A)
      → (decode_header registry (header raw) raw ≡ ok a)
        ↔ ((key : CommonManifest) × (header raw ≡ ok key) × (decode_known registry key raw ≡ ok a))
  decode_header_iff raw a = elim (Result-cases (header raw)) [
    | inl (e, r) ↦ (λ h. absurd (cc (rw r at h)), λ (key, k, _). absurd (cc))
    | inr (key, r) ↦ (λ h. (key, r, rw r at h), λ (other, k, h). rw k h)
  ]

  decode_one_iff :
      (document : Result Raw) (a : A)
      → (decode_one registry header document ≡ ok a) ↔ IsObject document a
  unfolding decode_one
  decode_one_iff (err e) a = (λ h. absurd (cc), λ o. let z = o.read in absurd (cc))
  decode_one_iff (ok raw) a = (
    λ h.
        let (key, said, k) = (decode_header_iff raw a).0 h in
        let (nv, nk, k') = (decode_known_iff key.0 key.1 raw a).0 k in
        let (decode, e, d) = (new_object_iff key raw a).0 k' in
        record {
          raw = raw;
          key = key;
          decode = decode;
          read = refl;
          said = said;
          has_version = nv;
          has_kind = nk;
          registered = e;
          decoded = d;
        },
    λ o.
        let same = ok_injective o.read in
        (decode_header_iff raw a).1 (
          o.key,
          ap header same ∙ o.said,
          (decode_known_iff o.key.0 o.key.1 raw a).1 (
            o.has_version,
            o.has_kind,
            (new_object_iff o.key raw a).1 (o.decode, o.registered, ap o.decode same ∙ o.decoded),
          ),
        ),
  )

  -- Each document with its object, in order.
  abbrev pub Objects : List (Result Raw) → List A → Type 0
  Objects [] [] = Unit {0}
  Objects [] (a ∷ l) = ⊥
  Objects (document ∷ rest) [] = ⊥
  Objects (document ∷ rest) (a ∷ l) = IsObject document a × Objects rest l

  prepend_iff :
      (r : Result A) (k : Result (List A)) (out : List A)
      → (prepend r k ≡ ok out) ↔ ((a : A) × (l : List A) × (r ≡ ok a) × (k ≡ ok l) × (out ≡ a ∷ l))
  prepend_iff (err e) k out = (λ h. absurd (cc), λ (a, l, h, _, _). absurd (cc))
  prepend_iff (ok a) (err e) out = (λ h. absurd (cc), λ (b, l, _, h, _). absurd (cc))
  prepend_iff (ok a) (ok l) out = (
    λ h. (a, l, refl, refl, sym (ok_injective h)),
    λ (b, m, e, f, g). (λ i. ok (ok_injective e i ∷ ok_injective f i)) ∙ ap ok (sym g),
  )

  -- `DecodeAll` succeeds exactly where every document of the stream is an object of a registered
  -- type, and it yields these objects, in the order of their documents.
  pub decode_all_iff :
      (documents : List (Result Raw)) (out : List A)
      → (decode_all registry header documents ≡ ok out) ↔ Objects documents out
  unfolding decode_all
  decode_all_iff [] [] = (λ h. tt, λ o. refl)
  decode_all_iff [] (a ∷ l) = (λ h. absurd (cc), λ o. absurd o)
  decode_all_iff (document ∷ rest) [] = (
    λ h.
        let (a, l, _, _, e) =
          (prepend_iff (decode_one registry header document) (decode_all registry header rest) []).0
            h in
        absurd (cc),
    λ o. absurd o,
  )
  decode_all_iff (document ∷ rest) (a ∷ l) = (
    λ h.
        let (b, m, e, f, g) =
          (prepend_iff (decode_one registry header document) (decode_all registry header rest)
              (a ∷ l)).0
            h in
        let same : b ≡ a = cc in
        let tails : m ≡ l = cc in
        (
          (decode_one_iff document a).0 (e ∙ ap ok same),
          (decode_all_iff rest l).0 (f ∙ ap ok tails),
        ),
    λ (o, p).
        (prepend_iff (decode_one registry header document) (decode_all registry header rest)
            (a ∷ l)).1
          (a, l, (decode_one_iff document a).1 o, (decode_all_iff rest l).1 p, refl),
  )
