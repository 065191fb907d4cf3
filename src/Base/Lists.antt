-- ===== src/Base/Lists.antt =====
-- Lists searched by Boolean tests, and measured by native numbers.
use Prim.Native.Nat.{ℕ, zero, suc, ◌+◌}
use mathlib.Core.Path.{◌≡◌, refl, sym, ◌∙◌, subst}
use mathlib.Core.Logic.{◌↔◌, ◌⊎◌, inl, inr}
use mathlib.Core.Bool.{Bool, true, false, ◌||◌, false≢true}
use mathlib.Core.Option.{Option, none, some}
use mathlib.Core.List.{List, [], ◌∷◌, ◌++◌}
use native.Mathlib.Omega.{arith}
use simple_registry.Base.Tests.{if◌then◌else◌, Bool-cases}
use simple_registry.Base.Equality.{HasEq, ◌==◌, ==_eq, ==_refl}

module _ {ℓ} {A : Type ℓ} where
  abbrev pub length : List A → ℕ
  length [] = 0
  length (x ∷ xs) = suc (length xs)

  abbrev pub take : ℕ → List A → List A
  take zero xs = []
  take (suc n) [] = []
  take (suc n) (x ∷ xs) = x ∷ take n xs

  abbrev pub drop : ℕ → List A → List A
  drop zero xs = xs
  drop (suc n) [] = []
  drop (suc n) (x ∷ xs) = drop n xs

  unfoldable pub any : (A → Bool) → List A → Bool
  any p [] = false
  any p (x ∷ xs) = p x || any p xs

  unfoldable pub keep : (A → Bool) → List A → List A
  keep p [] = []
  keep p (x ∷ xs) = let rest = keep p xs in if p x then x ∷ rest else rest

  -- The first element that passes the test.
  unfoldable pub first : (A → Bool) → List A → Option A
  first p [] = none
  first p (x ∷ xs) = if p x then some x else first p xs

  pub length-append : (xs ys : List A) → length (xs ++ ys) ≡ length xs + length ys
  length-append [] ys = omega arith
  length-append (x ∷ xs) ys = omega (arith, length-append xs ys)

-- Membership with the place kept: a sum for each place of the list.
abbrev pub In : {A : Type 0} → A → List A → Type 0
In a [] = ⊥
In a (x ∷ xs) = (a ≡ x) ⊎ In a xs

abbrev pub All {κ} : {A : Type 0} → (A → Type κ) → List A → Type κ
All P [] = Unit
All P (x ∷ xs) = P x × All P xs

module _ {A : Type 0} where
  pub In-append_left : (a : A) (xs ys : List A) → In a xs → In a (xs ++ ys)
  In-append_left a [] ys h = absurd h
  In-append_left a (x ∷ xs) ys (inl e) = inl e
  In-append_left a (x ∷ xs) ys (inr h) = inr (In-append_left a xs ys h)

  pub In-append_right : (a : A) (xs ys : List A) → In a ys → In a (xs ++ ys)
  In-append_right a [] ys h = h
  In-append_right a (x ∷ xs) ys h = inr (In-append_right a xs ys h)

  pub In-append : (a : A) (xs ys : List A) → In a (xs ++ ys) → In a xs ⊎ In a ys
  In-append a [] ys h = inr h
  In-append a (x ∷ xs) ys (inl e) = inl (inl e)
  In-append a (x ∷ xs) ys (inr h) = elim (In-append a xs ys h) [
    | inl m ↦ inl (inr m)
    | inr m ↦ inr m
  ]

  -- `any` finds a witness, and every witness makes it true.
  pub any_witness :
      (p : A → Bool) (xs : List A) → any p xs ≡ true → (a : A) × In a xs × (p a ≡ true)
  unfolding any
  any_witness p [] h = cc
  any_witness p (x ∷ xs) h = elim (Bool-cases (p x)) [
    | inl e ↦ (x, inl refl, e)
    | inr e ↦ let (a, m, q) = any_witness p xs (ground arith) in (a, inr m, q)
  ]

  pub any_of_In : (p : A → Bool) (a : A) (xs : List A) → In a xs → p a ≡ true → any p xs ≡ true
  unfolding any
  any_of_In p a [] m h = absurd m
  any_of_In p a (x ∷ xs) (inl e) h = rw (← e, h)
  any_of_In p a (x ∷ xs) (inr m) h = ground (arith, any_of_In p a xs m h)

  pub In-keep_iff :
      (p : A → Bool) (a : A) (xs : List A) → In a (keep p xs) ↔ (In a xs × (p a ≡ true))
  unfolding keep
  In-keep_iff p a [] = (λ h. absurd h, λ h. absurd h.0)
  In-keep_iff p a (x ∷ xs) = elim (Bool-cases (p x)) [
    | inl e ↦ rw e (
      elim [
        | inl q ↦ (inl q, rw q e)
        | inr m ↦ let (n, h) = (In-keep_iff p a xs).0 m in (inr n, h)
      ],
      λ h. elim h.0 [ inl q ↦ inl q | inr m ↦ inr ((In-keep_iff p a xs).1 (m, h.1)) ],
    )
    | inr e ↦ rw e (
      λ m. let (n, h) = (In-keep_iff p a xs).0 m in (inr n, h),
      λ h. elim h.0 [
        | inl q ↦ absurd (false≢true (ground arith))
        | inr m ↦ (In-keep_iff p a xs).1 (m, h.1)
      ],
    )
  ]

  pub All_In : (P : A → Type 0) (xs : List A) → All P xs → (a : A) → In a xs → P a
  All_In P [] h a m = absurd m
  All_In P (x ∷ xs) h a (inl e) = subst P (sym e) h.0
  All_In P (x ∷ xs) h a (inr m) = All_In P xs h.1 a m

  pub All-append : (P : A → Type 0) (xs ys : List A) → All P xs → All P ys → All P (xs ++ ys)
  All-append P [] ys h k = k
  All-append P (x ∷ xs) ys h k = (h.0, All-append P xs ys h.1 k)

  pub first-some :
      (p : A → Bool) (xs : List A) {a : A} → first p xs ≡ some a → In a xs × (p a ≡ true)
  unfolding first
  first-some p [] h = cc
  first-some p (x ∷ xs) {a} h = elim (Bool-cases (p x)) [
    | inl e ↦ let q : x ≡ a = ground arith in (inl (sym q), rw (← q) e)
    | inr e ↦ let (m, t) = first-some p xs (rw e at h) in (inr m, t)
  ]

module _ {A : Type 0} ⦃e : HasEq A⦄ where
  -- `slices.Contains`.
  unfoldable pub contains : List A → A → Bool
  unfolding any
  contains xs a = any (λ x. x == a) xs

  pub contains_iff : (xs : List A) (a : A) → (contains xs a ≡ true) ↔ In a xs
  unfolding contains
  contains_iff xs a = (
    λ h. let (x, m, q) = any_witness (λ x. x == a) xs h in subst (λ y. In y xs) (==_eq q) m,
    λ m. any_of_In (λ x. x == a) a xs m (==_refl a),
  )

  pub contains_of_not_In : (xs : List A) (a : A) → ¬ In a xs → contains xs a ≡ false
  contains_of_not_In xs a h = elim (Bool-cases (contains xs a)) [
    | inl t ↦ absurd (h ((contains_iff xs a).0 t))
    | inr f ↦ f
  ]

  pub not_In_of_contains : (xs : List A) (a : A) → contains xs a ≡ false → ¬ In a xs
  not_In_of_contains xs a h m = false≢true (sym h ∙ (contains_iff xs a).1 m)
