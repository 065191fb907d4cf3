-- ===== src/Base/Assoc.antt =====
-- Association lists, for Go maps and for the nodes of a file system.
use mathlib.Core.Path.{◌≡◌, refl, sym, ap, ◌∙◌}
use mathlib.Core.Logic.{◌≢◌, inl, inr}
use mathlib.Core.Bool.{Bool}
use mathlib.Core.Option.{Option, none, some}
use mathlib.Core.List.{List, [], ◌∷◌}
use native.Mathlib.Omega.{arith}
use simple_registry.Base.Tests.{if◌then◌else◌, Bool-cases}
use simple_registry.Base.Equality.{HasEq, ◌==◌, ==-cases, ==_refl, ==_of_ne}

module _ {ℓ} {K : Type 0} {V : Type ℓ} ⦃e : HasEq K⦄ where
  unfoldable pub lookup : K → List (K × V) → Option V
  lookup k [] = none
  lookup k ((j, v) ∷ m) = if j == k then some v else lookup k m

  -- `m[k] = v`.
  unfoldable pub put : K → V → List (K × V) → List (K × V)
  put k v [] = (k, v) ∷ []
  put k v ((j, w) ∷ m) = let rest = put k v m in if j == k then (k, v) ∷ m else (j, w) ∷ rest

  -- `delete` of every key that passes the test.
  unfoldable pub without : (K → Bool) → List (K × V) → List (K × V)
  without p [] = []
  without p ((j, w) ∷ m) = let rest = without p m in if p j then rest else (j, w) ∷ rest

  pub lookup-put_self : (k : K) (v : V) (m : List (K × V)) → lookup k (put k v m) ≡ some v
  unfolding lookup put
  lookup-put_self k v [] = rw (==_refl k) refl
  lookup-put_self k v ((j, w) ∷ m) = elim (Bool-cases (j == k)) [
    | inl t ↦ rw (t, ==_refl k) refl
    | inr f ↦ rw (f, f) (lookup-put_self k v m)
  ]

  pub lookup-put_ne :
      (k j : K) (v : V) (m : List (K × V)) → k ≢ j → lookup j (put k v m) ≡ lookup j m
  unfolding lookup put
  lookup-put_ne k j v [] ne = rw (==_of_ne ne) refl
  lookup-put_ne k j v ((i, w) ∷ m) ne = elim (==-cases i k) [
    | inl (t, q) ↦ rw (t, ==_of_ne ne, ==_of_ne {a = i} {b = j} (λ z. ne (sym q ∙ z))) refl
    | inr (f, _) ↦ elim (Bool-cases (i == j)) [
      | inl t ↦ rw (f, t) refl
      | inr g ↦ rw (f, g) (lookup-put_ne k j v m ne)
    ]
  ]

  pub lookup-without :
      (p : K → Bool) (k : K) (m : List (K × V))
      → lookup k (without p m) ≡ (if p k then none else lookup k m)
  unfolding lookup without
  lookup-without p k [] = elim (Bool-cases (p k)) [ inl t ↦ rw t refl | inr f ↦ rw f refl ]
  lookup-without p k ((j, w) ∷ m) = elim (==-cases j k) [
    | inl (t, q) ↦ let same : p j ≡ p k = ap p q in ground (arith, lookup-without p k m)
    | inr (f, _) ↦ ground (arith, lookup-without p k m)
  ]
