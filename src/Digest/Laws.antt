-- ===== src/Digest/Laws.antt =====
-- What `parse` accepts, and how it meets the expressions of the validator.
use simple_registry.Base.{
  ℕ, Option, none, some, [], ◌∷◌, ◌++◌, ◌≡◌, ◌≢◌, refl, sym, ap, ◌↔◌, Text, nat_eq, ok, In, inl,
  inr, Option-cases, ==-cases, ==_refl, ==_of_ne,
}
use simple_registry.Digest.{split_first, check_parts, parse}

pub split_first-some :
    (sep : ℕ) (s : Text) {a b : Text}
    → split_first sep s ≡ some (a, b)
    → (s ≡ a ++ sep ∷ b) × (¬ In sep a)
unfolding split_first
split_first-some sep [] h = cc
split_first-some sep (c ∷ s) {a} {b} h = elim (==-cases c sep) [
  | inl (t, e) ↦
      let q : some ([], s) ≡ some (a, b) = rw t at h in
      let p : a ≡ [] = cc in let r : b ≡ s = cc in rw (p, r, e) (refl, λ m. m)
  | inr (t, ne) ↦ elim (Option-cases (split_first sep s)) [
    | inl q ↦ absurd (cc (rw (t, q) at h))
    | inr ((a', b'), q) ↦
        let (e, out) = split_first-some sep s q in
        let r : some (c ∷ a', b') ≡ some (a, b) = rw (t, q) at h in
        let p : a ≡ c ∷ a' = cc in
        let p' : b ≡ b' = cc in
        rw (p, p') (ap (λ x. c ∷ x) e, λ m. elim m [ inl z ↦ ne (sym z) | inr z ↦ out z ])
  ]
]

pub split_first_of_parts :
    (sep : ℕ) (a b : Text) → ¬ In sep a → split_first sep (a ++ sep ∷ b) ≡ some (a, b)
unfolding split_first
split_first_of_parts sep [] b out = rw (==_refl sep) refl
split_first_of_parts sep (c ∷ a) b out =
    rw
      (
        ==_of_ne {a = c} {b = sep} (λ e. out (inl (sym e))),
        split_first_of_parts sep a b (λ m. out (inr m)),
      )
      refl

check_parts_ok :
    (o : Option (Text × Text)) {a h : Text}
    → check_parts o ≡ ok (a, h)
    → (o ≡ some (a, h)) × (a ≢ []) × (h ≢ [])
unfolding check_parts
check_parts_ok none e = cc
check_parts_ok (some ([], hex)) e = cc
check_parts_ok (some (c ∷ algo, [])) e = cc
check_parts_ok (some (c ∷ algo, d ∷ hex)) {a} {h} e =
    let p : a ≡ c ∷ algo = cc in let q : h ≡ d ∷ hex = cc in rw (p, q) (refl, λ z. cc, λ z. cc)

check_parts_of : (a h : Text) → a ≢ [] → h ≢ [] → check_parts (some (a, h)) ≡ ok (a, h)
unfolding check_parts
check_parts_of [] h p q = absurd (p refl)
check_parts_of (c ∷ a) [] p q = absurd (q refl)
check_parts_of (c ∷ a) (d ∷ h) p q = refl

-- `parse` yields an algorithm and a hash exactly when the text is the two joined by a colon,
-- neither is empty and the algorithm holds no colon.
pub parse_iff :
    (digest a h : Text)
    → (parse digest ≡ ok (a, h)) ↔ ((digest ≡ a ++ b':' ∷ h) × (¬ In b':' a) × (a ≢ []) × (h ≢ []))
unfolding parse
parse_iff digest a h = (
  λ e.
      let (found, na, nh) = check_parts_ok (split_first b':' digest) e in
      let (eq, out) = split_first-some b':' digest found in (eq, out, na, nh),
  λ (eq, out, na, nh). rw (eq, split_first_of_parts b':' a h out) (check_parts_of a h na nh),
)
