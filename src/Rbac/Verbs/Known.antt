-- ===== src/Rbac/Verbs/Known.antt =====
-- What verbs a role can have.
use simple_registry.Base.{
  List, [], ◌∷◌, ◌==◌, nat_eq, list_eq, Text, codes, ◌≡◌, sym, ◌⊎◌, inl, inr, subst, In,
  In-append_left, contains, contains_iff, Bool-cases, Result-cases, Result, ok, sort_texts,
  In-sort_texts_iff, IsSorted, sort_texts-IsSorted,
}
use simple_registry.MapSet.{add_one, add}
use simple_registry.MapSet.Laws.{In-add_iff, In-add_one_iff}
use simple_registry.Rbac.Verbs.{
  allowed_verbs, all_verbs, normalize_verb, collect_verbs, parse_verbs,
}

collect_verbs-Known :
    (m verbs out : List Text) (x : Text)
    → collect_verbs m verbs ≡ ok out
    → In x out
    → In x m ⊎ In x all_verbs
unfolding collect_verbs
collect_verbs-Known m [] out x h i = let e : out ≡ m = cc in inl (subst (In x) e i)
collect_verbs-Known m (s ∷ verbs) out x h i = elim (Bool-cases (normalize_verb s == codes "*")) [
  | inl t ↦
      let z : ◌≡◌ {A = Result (List Text)} (ok (add m all_verbs)) (ok out) =
        rw (t, collect_verbs) at h in
      let e : out ≡ add m all_verbs = cc in (In-add_iff x m all_verbs).0 (subst (In x) e i)
  | inr f ↦ elim (Bool-cases (contains allowed_verbs (normalize_verb s))) [
    | inr bad ↦ absurd (cc (rw (f, bad, collect_verbs) at h))
    | inl good ↦
        elim (collect_verbs-Known (add_one (normalize_verb s) m) verbs out x
          (rw (f, good, collect_verbs) at h) i) [
            | inr k ↦ inr k
            | inl k ↦ elim ((In-add_one_iff x (normalize_verb s) m).0 k) [
              | inl old ↦ inl old
              | inr same ↦ inr (
                  In-append_left x allowed_verbs
                    (codes "CONNECT" ∷ codes "OPTIONS" ∷ codes "TRACE" ∷ [])
                    (subst (λ z. In z allowed_verbs) (sym same)
                      ((contains_iff allowed_verbs (normalize_verb s)).0 good)))
            ]
          ]
  ]
]

-- The verbs that `ParseVerbs` yields are methods that the registry knows, in the order of their
-- bytes.
pub parse_verbs-Known :
    (verbs out : List Text)
    → parse_verbs verbs ≡ ok out
    → IsSorted out × ((x : Text) → In x out → In x all_verbs)
unfolding parse_verbs
parse_verbs-Known verbs out h = elim (Result-cases (collect_verbs [] verbs)) [
  | inl (e, r) ↦ absurd (cc (rw r at h))
  | inr (m, r) ↦
      let z : ◌≡◌ {A = Result (List Text)} (ok (sort_texts m)) (ok out) = rw r at h in
      let e : out ≡ sort_texts m = cc in
      (
        subst IsSorted (sym e) (sort_texts-IsSorted m),
        λ x i.
            elim (collect_verbs-Known [] verbs m x r
              ((In-sort_texts_iff x m).0 (subst (In x) e i))) [
                | inl none_yet ↦ absurd none_yet
                | inr k ↦ k
              ],
      )
]
