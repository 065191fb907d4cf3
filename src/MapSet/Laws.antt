-- ===== src/MapSet/Laws.antt =====
-- The elements of a set, and when two sets are equal.
use simple_registry.Base.{
  true, List, [], ◌∷◌, HasEq, nat_eq, ◌≡◌, refl, sym, ◌↔◌, ◌⊎◌, inl, inr, In, In-append,
  In-append_left, In-append_right, contains, contains_iff, Bool-cases, arith, and_true, subst,
}
use simple_registry.MapSet.{add_one, add, subset}

module _ {A : Type 0} ⦃e : HasEq A⦄ where
  pub In-add_one_iff : (x a : A) (s : List A) → In x (add_one a s) ↔ (In x s ⊎ (x ≡ a))
  unfolding add_one
  In-add_one_iff x a s = elim (Bool-cases (contains s a)) [
    | inl h ↦ rw h (
      inl,
      λ m. elim m [ inl n ↦ n | inr q ↦ subst (λ y. In y s) (sym q) ((contains_iff s a).0 h) ],
    )
    | inr h ↦ rw h (
      λ m. elim (In-append x s (a ∷ []) m) [
        | inl n ↦ inl n
        | inr n ↦ inr (elim n [ inl q ↦ q | inr z ↦ absurd z ])
      ],
      λ m. elim m [
        | inl n ↦ In-append_left x s (a ∷ []) n
        | inr q ↦ In-append_right x s (a ∷ []) (inl q)
      ],
    )
  ]

  -- Adding elements adds these and no others.
  pub In-add_iff : (x : A) (s more : List A) → In x (add s more) ↔ (In x s ⊎ In x more)
  unfolding add
  In-add_iff x s [] = (inl, elim [ inl m ↦ m | inr z ↦ absurd z ])
  In-add_iff x s (a ∷ more) = (
    λ m. elim ((In-add_iff x (add_one a s) more).0 m) [
      | inl n ↦ elim ((In-add_one_iff x a s).0 n) [ inl k ↦ inl k | inr q ↦ inr (inl q) ]
      | inr n ↦ inr (inr n)
    ],
    λ m. (In-add_iff x (add_one a s) more).1 (elim m [
      | inl n ↦ inl ((In-add_one_iff x a s).1 (inl n))
      | inr n ↦ elim n [ inl q ↦ inl ((In-add_one_iff x a s).1 (inr q)) | inr k ↦ inr k ]
    ]),
  )

  pub subset_iff : (s t : List A) → (subset s t ≡ true) ↔ ((x : A) → In x s → In x t)
  unfolding subset
  subset_iff [] t = (λ _ x m. absurd m, λ _. refl)
  subset_iff (a ∷ s) t = (
    λ h x m.
        let (here, later) = and_true h in
        elim m [
          | inl q ↦ subst (λ y. In y t) (sym q) ((contains_iff t a).0 here)
          | inr n ↦ (subset_iff s t).0 later x n
        ],
    λ h.
        let here = (contains_iff t a).1 (h a (inl refl)) in
        let later = (subset_iff s t).1 (λ x m. h x (inr m)) in ground arith,
  )
