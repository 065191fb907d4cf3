-- ===== src/Filesystem/Listings/Walk/Complete.antt =====
-- What the walk over the repositories finds, and that its fuel is enough.
use simple_registry.Base.{
  ℕ, zero, suc, ◌+◌, ◌≤◌, true, false, some, List, [], ◌∷◌, ◌++◌, nat_eq, list_eq, Text, codes,
  Result, ok, ◌≡◌, ◌↔◌, refl, sym, ◌∙◌, ap, subst, inl, inr, In, In-append, In-append_left,
  In-append_right, contains, length, lookup, Bool-cases, Option-cases, append_assoc, append-nil,
  arith, ==-cases, length-append,
}
use simple_registry.Disk.{Disk, Node, dir, find, stat, is_blocked}
use simple_registry.Disk.Entries.{sub_dirs}
use simple_registry.Disk.Entries.Laws.{In-sub_dirs_iff}
use simple_registry.Paths.{FilePath, join}
use simple_registry.Filesystem.Listings.Walk.{
  internal_names, slashed, has_manifests, max, deepest, both, Walker, visit, visit_each, walk_dir,
  repositories_of,
}

length-le-deepest :
    (q : FilePath) (nodes : List (FilePath × Node)) {n : Node}
    → lookup q nodes ≡ some n
    → length q ≤ deepest nodes
unfolding lookup deepest
length-le-deepest q [] h = cc
length-le-deepest q ((p, m) ∷ nodes) h = elim (==-cases p q) [
  | inl (t, e) ↦ subst (λ z. length z ≤ max (length p) (deepest nodes)) e (ground arith)
  | inr (f, _) ↦ let rest = length-le-deepest q nodes (rw f at h) in ground (arith, rest)
]

find-le-deepest :
    (q : FilePath) (d : Disk) {n : Node} → find q d ≡ some n → length q ≤ deepest d.nodes
unfolding find
find-le-deepest [] d h = ground arith
find-le-deepest (x ∷ q) d h = length-le-deepest (x ∷ q) d.nodes h

both_ok :
    (r k : Result (List Text)) {l m : List Text} → r ≡ ok l → k ≡ ok m → both r k ≡ ok (l ++ m)
both_ok r k h j = rw (h, j) refl

In-one : (t u : Text) → In t (u ∷ []) → t ≡ u
In-one t u (inl e) = e
In-one t u (inr z) = absurd z

module _ (d : Disk) (root : FilePath) where
  abbrev pub IsDir : List Text → Type 0
  IsDir rel = find (root ++ rel) d ≡ some dir

  -- The path `rest` leads from the directory `rel` to a repository: through directories of which
  -- none is internal, the last one is the first to have manifests.
  abbrev pub Leads : List Text → List Text → Type 0
  Leads rel [] = ⊥
  Leads rel (x ∷ []) =
      IsDir (rel ++ x ∷ [])
      × (contains internal_names x ≡ false)
      × (has_manifests (root ++ (rel ++ x ∷ [])) d ≡ true)
  Leads rel (x ∷ y ∷ rest) =
      IsDir (rel ++ x ∷ [])
      × (contains internal_names x ≡ false)
      × (has_manifests (root ++ (rel ++ x ∷ [])) d ≡ false)
      × Leads (rel ++ x ∷ []) (y ∷ rest)

  abbrev pub Found : List Text → Text → Type 0
  Found rel t = (rest : List Text) × Leads rel rest × (t ≡ slashed (rel ++ rest))

  -- A walk that succeeds and finds the repositories below a directory.
  abbrev pub Finds : List Text → Result (List Text) → Type 0
  Finds rel r = (out : List Text) × (r ≡ ok out) × ((t : Text) → In t out ↔ Found rel t)

  -- The same for those that are reached through some name.
  abbrev FoundBy : List Text → Text → Text → Type 0
  FoundBy rel x t = (rest : List Text) × Leads rel (x ∷ rest) × (t ≡ slashed (rel ++ x ∷ rest))

  Leads-cons :
      (rel rest : List Text) (x : Text)
      → IsDir (rel ++ x ∷ [])
      → contains internal_names x ≡ false
      → has_manifests (root ++ (rel ++ x ∷ [])) d ≡ false
      → Leads (rel ++ x ∷ []) rest
      → Leads rel (x ∷ rest)
  Leads-cons rel [] x h i m l = absurd l
  Leads-cons rel (y ∷ rest) x h i m l = (h, i, m, l)

  Leads-head :
      (rel rest : List Text) (x : Text) → Leads rel (x ∷ rest) → contains internal_names x ≡ false
  Leads-head rel [] x l = l.1
  Leads-head rel (y ∷ rest) x l = l.1

  Leads-IsDir : (rel rest : List Text) (x : Text) → Leads rel (x ∷ rest) → IsDir (rel ++ x ∷ [])
  Leads-IsDir rel [] x l = l.0
  Leads-IsDir rel (y ∷ rest) x l = l.0

  Leads-last :
      (rel rest : List Text) (x : Text)
      → has_manifests (root ++ (rel ++ x ∷ [])) d ≡ true
      → Leads rel (x ∷ rest)
      → rest ≡ []
  Leads-last rel [] x m l = refl
  Leads-last rel (y ∷ rest) x m l = absurd (cc (l.2))

  Leads-tail :
      (rel rest : List Text) (x : Text)
      → has_manifests (root ++ (rel ++ x ∷ [])) d ≡ false
      → Leads rel (x ∷ rest)
      → Leads (rel ++ x ∷ []) rest
  Leads-tail rel [] x m l = absurd (cc (l.2))
  Leads-tail rel (y ∷ rest) x m l = l.3

  visit-Finds :
      (walk : Walker) (rel : List Text) (x : Text)
      → IsDir (rel ++ x ∷ [])
      → Finds (rel ++ x ∷ []) (walk (rel ++ x ∷ []))
      → (out : List Text) × (visit d root walk rel x ≡ ok out)
        × ((t : Text) → In t out ↔ FoundBy rel x t)
  unfolding visit
  visit-Finds walk rel x here (out, e, iff) = elim (Bool-cases (contains internal_names x)) [
    | inl i ↦ (
      [],
      rw i refl,
      λ t. (λ j. absurd j, λ (rest, l, _). let z = Leads-head rel rest x l in absurd (cc)),
    )
    | inr i ↦ elim (Bool-cases (has_manifests (root ++ (rel ++ x ∷ [])) d)) [
      | inl m ↦ (
        slashed (rel ++ x ∷ []) ∷ [],
        rw (i, m) refl,
        λ t. (
          λ j. ([], (here, i, m), In-one t (slashed (rel ++ x ∷ [])) j),
          λ (rest, l, k). inl (k ∙ ap (λ r. slashed (rel ++ x ∷ r)) (Leads-last rel rest x m l)),
        ),
      )
      | inr m ↦ (
        out,
        rw (i, m) e,
        λ t. (
          λ j.
              let (rest, l, k) = (iff t).0 j in
              (
                rest,
                Leads-cons rel rest x here i m l,
                k ∙ ap slashed (append_assoc rel (x ∷ []) rest),
              ),
          λ (rest, l, k). (iff t).1 (
            rest,
            Leads-tail rel rest x m l,
            k ∙ ap slashed (sym (append_assoc rel (x ∷ []) rest)),
          ),
        ),
      )
    ]
  ]

  -- What is reached through one of some names.
  abbrev FoundAmong : List Text → List Text → Text → Type 0
  FoundAmong rel names t = (x : Text) × In x names × FoundBy rel x t

  visit_each-Finds :
      (walk : Walker) (rel names : List Text)
      → ((x : Text) → In x names → IsDir (rel ++ x ∷ []))
      → ((x : Text) → In x names → Finds (rel ++ x ∷ []) (walk (rel ++ x ∷ [])))
      → (out : List Text) × (visit_each d root walk rel names ≡ ok out)
        × ((t : Text) → In t out ↔ FoundAmong rel names t)
  unfolding visit_each
  visit_each-Finds walk rel [] dirs finds = ([], refl, λ t. (λ j. absurd j, λ (x, i, _). absurd i))
  visit_each-Finds walk rel (x ∷ names) dirs finds =
      let (here, e, first) = visit-Finds walk rel x (dirs x (inl refl)) (finds x (inl refl)) in
      let (rest, k, others) =
        visit_each-Finds walk rel names (λ y i. dirs y (inr i)) (λ y i. finds y (inr i)) in
      (
        here ++ rest,
        both_ok (visit d root walk rel x) (visit_each d root walk rel names) e k,
        λ t. (
          λ i. elim (In-append t here rest i) [
            | inl j ↦ (x, inl refl, (first t).0 j)
            | inr j ↦ let (y, m, f) = (others t).0 j in (y, inr m, f)
          ],
          λ (y, m, f). elim m [
            | inl q ↦ In-append_left t here rest ((first t).1 (subst (λ z. FoundBy rel z t) q f))
            | inr n ↦ In-append_right t here rest ((others t).1 (y, n, f))
          ],
        ),
      )

  below-IsDir :
      (rel : List Text) (x : Text)
      → IsDir rel
      → In x (sub_dirs (root ++ rel) d) ↔ IsDir (rel ++ x ∷ [])
  below-IsDir rel x here =
      let e = append_assoc root rel (x ∷ []) in
      let (there, back) = In-sub_dirs_iff (root ++ rel) x d in
      (
        λ i. subst (λ p. find p d ≡ some dir) e (there i).1,
        λ h. back (here, subst (λ p. find p d ≡ some dir) (sym e) h),
      )

  Found-first :
      (rel rest : List Text) (t : Text)
      → IsDir rel
      → Leads rel rest
      → t ≡ slashed (rel ++ rest)
      → FoundAmong rel (sub_dirs (root ++ rel) d) t
  Found-first rel [] t here l k = absurd l
  Found-first rel (x ∷ rest) t here l k =
      (x, (below-IsDir rel x here).1 (Leads-IsDir rel rest x l), (rest, l, k))

  longer :
      (fuel : ℕ) (rel : List Text) (x : Text)
      → suc (deepest d.nodes) ≤ suc fuel + length (root ++ rel)
      → suc (deepest d.nodes) ≤ fuel + length (root ++ (rel ++ x ∷ []))
  longer fuel rel x enough =
      rw (← append_assoc root rel (x ∷ []), length-append (root ++ rel) (x ∷ []))
        (omega (arith, enough))

  -- No path of the disk is longer than the deepest one, so the fuel lasts.
  walk_dir-Finds :
      (fuel : ℕ) (rel : List Text)
      → IsDir rel
      → suc (deepest d.nodes) ≤ fuel + length (root ++ rel)
      → Finds rel (walk_dir d root fuel rel)
  unfolding walk_dir
  walk_dir-Finds zero rel here enough =
      absurd (let deep = find-le-deepest (root ++ rel) d here in ground (arith, deep, enough))
  walk_dir-Finds (suc fuel) rel here enough =
      let names = sub_dirs (root ++ rel) d in
      let (out, e, iff) =
        visit_each-Finds (walk_dir d root fuel) rel names (λ x i. (below-IsDir rel x here).0 i)
          (λ x i.
            walk_dir-Finds fuel (rel ++ x ∷ []) ((below-IsDir rel x here).0 i)
              (longer fuel rel x enough)) in
      (
        out,
        e,
        λ t. (
          λ i. let (x, _, (rest, l, k)) = (iff t).0 i in (x ∷ rest, l, k),
          λ (rest, l, k). (iff t).1 (Found-first rel rest t here l k),
        ),
      )

stat-find : (p : FilePath) (d : Disk) {n : Node} → stat p d ≡ ok n → find p d ≡ some n
unfolding stat
stat-find p d h = elim (Option-cases (find p d)) [
  | inl n ↦ elim (Bool-cases (is_blocked [] p d)) [
    | inl b ↦ absurd (cc (rw (n, b, stat) at h))
    | inr b ↦ absurd (cc (rw (n, b, stat) at h))
  ]
  | inr (m, e) ↦ let j = rw (e, stat) at h in rw e cc
]

-- The listing of the repositories of a disk that has their directory succeeds, and it names exactly
-- the repositories: the paths below that directory which lead through directories none of which is
-- internal, and of which the last one, and no earlier one, has manifests.
pub repositories_of_complete :
    (base : FilePath) (d : Disk)
    → stat (join base (codes "repositories" ∷ [])) d ≡ ok dir
    → (out : List Text) × (repositories_of base d ≡ ok out)
      × ((name : Text) → In name out ↔ Found d (join base (codes "repositories" ∷ [])) [] name)
unfolding repositories_of
repositories_of_complete base d there =
    let root = join base (codes "repositories" ∷ []) in
    rw there (
      walk_dir-Finds d root (suc (deepest d.nodes)) []
        (rw (append-nil root) (stat-find root d there)) (ground arith))
