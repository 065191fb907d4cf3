-- ===== src/Disk/Room.antt =====
-- Where a file can be put: no file stands where one of its directories has to be, and no directory
-- stands in its place.
pub mod Writes
use simple_registry.Base.{
  ℕ, Bool, true, false, ◌&&◌, Option, none, some, List, [], ◌∷◌, ◌++◌, ◌==◌, nat_eq, list_eq, Text,
  Result, ok, err, ◌≡◌, ◌≢◌, ◌⊎◌, refl, sym, ◌∙◌, ap, subst, inl, inr, lookup, put, without,
  lookup-put_self, lookup-put_ne, lookup-without, ==-cases, ==_refl, ==_of_ne, Bool-cases,
  Option-cases, Result-cases, append_assoc, any, if◌then◌else◌,
}
use simple_registry.Paths.{FilePath, dir_of}
use simple_registry.Disk.{
  Node, file, dir, Disk, find, set_node, is_under, stat, place, write_file, mkdir_from, mkdir_all,
  remove_all, remove, rename, is_strictly_under,
}
use simple_registry.Disk.Laws.{file_at, place-cases}
use simple_registry.Disk.Changes.{Changes}

-- No file is at the path or above it.
abbrev pub IsOpen : FilePath → Disk → Type 0
IsOpen p d = (q : FilePath) (c : Text) (x : ℕ) → is_under q p ≡ true → file_at q d ≢ some (c, x)

-- There is room for a file at the path.
pub record HasRoom (p : FilePath) (d : Disk) : Type 0 where
  pub above : IsOpen (dir_of p) d
  pub here : find p d ≢ some dir

-- The second disk has no directory that the first one has not, but for those that `W` allows.
abbrev pub NewDirs : (FilePath → Type 0) → Disk → Disk → Type 0
NewDirs W d t = (q : FilePath) → find q t ≡ some dir → (find q d ≡ some dir) ⊎ W q

-- What an operation brings about leaves the room where it is.
pub HasRoom-kept :
    {W : FilePath → Text → Type 0} {V : FilePath → Type 0} (p : FilePath) (d t : Disk)
    → Changes W d t
    → NewDirs V d t
    → ((q : FilePath) (c : Text) → W q c → is_under q (dir_of p) ≡ false)
    → ¬ V p
    → HasRoom p d
    → HasRoom p t
HasRoom-kept p d t files dirs away not_here r = record {
  above = λ q c x under at. elim (files q c x at) [
    | inl old ↦ r.above q c x under old
    | inr w ↦ let other = away q c w in cc
  ];
  here = λ at. elim (dirs p at) [ inl old ↦ r.here old | inr v ↦ not_here v ];
}

pub find-set_node_self :
    (p : FilePath) (x : Text) (n : Node) (d : Disk)
    → find (p ++ x ∷ []) (set_node (p ++ x ∷ []) n d) ≡ some n
unfolding find
find-set_node_self [] x n d = lookup-put_self (x ∷ []) n d.nodes
find-set_node_self (y ∷ p) x n d = lookup-put_self (y ∷ (p ++ x ∷ [])) n d.nodes

pub find-set_node_ne :
    (p q : FilePath) (n : Node) (d : Disk) → p ≢ q → find q (set_node p n d) ≡ find q d
unfolding find
find-set_node_ne p [] n d ne = refl
find-set_node_ne p (x ∷ q) n d ne = lookup-put_ne p (x ∷ q) n d.nodes ne

find-without :
    (doomed : FilePath → Bool) (q : FilePath) (d : Disk)
    → (find q (record d { nodes = without doomed d.nodes }) ≡ find q d)
      ⊎ (find q (record d { nodes = without doomed d.nodes }) ≡ none)
unfolding find
find-without doomed [] d = inl refl
find-without doomed (x ∷ q) d = elim (Bool-cases (doomed (x ∷ q))) [
  | inl h ↦ inr (lookup-without doomed (x ∷ q) d.nodes ∙ (rw h refl))
  | inr h ↦ inl (lookup-without doomed (x ∷ q) d.nodes ∙ (rw h refl))
]

set_file-dirs :
    (p : FilePath) (c : Text) (t : ℕ) (d : Disk)
    → p ≢ []
    → (q : FilePath) → find q (set_node p (file c t) d) ≡ some dir
    → find q d ≡ some dir
unfolding find
set_file-dirs [] c t d ne q h = absurd (ne refl)
set_file-dirs (x ∷ p) c t d ne q h = elim (==-cases (x ∷ p) q) [
  | inl (_, e) ↦
      let at_p = lookup-put_self (x ∷ p) (file c t) d.nodes in
      let other : find (x ∷ p) (set_node (x ∷ p) (file c t) d) ≡ some dir =
        subst (λ z. find z (set_node (x ∷ p) (file c t) d) ≡ some dir) (sym e) h in
      absurd (cc)
  | inr (_, n) ↦ sym (find-set_node_ne (x ∷ p) q (file c t) d n) ∙ h
]

module _ (X : FilePath → Type 0) where
  without-NewDirs :
      (doomed : FilePath → Bool) (d : Disk)
      → NewDirs X d (record d { nodes = without doomed d.nodes })
  without-NewDirs doomed d q h = elim (find-without doomed q d) [
    | inl same ↦ inl (sym same ∙ h)
    | inr gone ↦ absurd (cc)
  ]

  pub place-NewDirs : (p : FilePath) (c : Text) (t : ℕ) (d : Disk) → NewDirs X d (place p c t d).1
  place-NewDirs p c t d = elim (place-cases p c t d) [
    | inl (e, h) ↦ rw h (λ q k. inl k)
    | inr (h, ne) ↦ rw h (λ q k. inl (set_file-dirs p c t d ne q k))
  ]

  pub remove_all-NewDirs : (p : FilePath) (d : Disk) → NewDirs X d (remove_all p d).1
  unfolding remove_all
  remove_all-NewDirs p d = without-NewDirs (is_under p) d

  pub remove-NewDirs : (p : FilePath) (d : Disk) → NewDirs X d (remove p d).1
  unfolding remove
  remove-NewDirs p d = elim (Result-cases (stat p d)) [
    | inl (e, h) ↦ rw (h, remove) (λ q k. inl k)
    | inr (n, h) ↦ elim (Bool-cases (any (is_strictly_under p) d.nodes)) [
      | inl t ↦ rw (h, t, remove) (λ q k. inl k)
      | inr f ↦ rw (h, f, remove) (without-NewDirs (λ q. q == p) d)
    ]
  ]

  pub rename-NewDirs : (p q : FilePath) (d : Disk) → NewDirs X d (rename p q d).1
  unfolding rename
  rename-NewDirs p q d = elim (Result-cases (stat p d)) [
    | inl (e, h) ↦ rw (h, rename) (λ q k. inl k)
    | inr (dir, h) ↦ rw (h, rename) (λ q k. inl k)
    | inr (file c t, h) ↦ elim (Result-cases (place q c t d).0) [
      | inl (e, g) ↦ rw (h, g, rename) (λ q k. inl k)
      | inr (u, g) ↦
          rw (h, g, rename)
            (λ r k. elim (without-NewDirs (λ y. y == p) (place q c t d).1 r k) [
              | inl old ↦ place-NewDirs q c t d r old
              | inr x ↦ inr x
            ])
    ]
  ]

-- The directories that `mkdir_all` makes are the path and those above it.
mkdir_from-NewDirs :
    (done rest : FilePath) (d : Disk)
    → NewDirs
        (λ q. (r : FilePath) × (q ≡ done ++ r) × (is_under r rest ≡ true))
        d
        (mkdir_from done rest d).1
unfolding mkdir_from is_under
mkdir_from-NewDirs done [] d = λ q h. inl h
mkdir_from-NewDirs done (x ∷ rest) d = elim (Option-cases (find (done ++ x ∷ []) d)) [
  | inl e ↦
      rw (e, mkdir_from)
        (λ q h.
          elim (mkdir_from-NewDirs (done ++ x ∷ []) rest (set_node (done ++ x ∷ []) dir d) q h) [
            | inr (r, at, under) ↦ inr (longer q r at under)
            | inl old ↦ elim (==-cases (done ++ x ∷ []) q) [
              | inl (_, same) ↦ inr (x ∷ [], sym same, rw (==_refl x) refl)
              | inr (_, ne) ↦ inl (sym (find-set_node_ne (done ++ x ∷ []) q dir d ne) ∙ old)
            ]
          ])
  | inr (file c t, e) ↦ rw (e, mkdir_from) (λ q h. inl h)
  | inr (dir, e) ↦
      rw (e, mkdir_from)
        (λ q h. elim (mkdir_from-NewDirs (done ++ x ∷ []) rest d q h) [
          | inr (r, at, under) ↦ inr (longer q r at under)
          | inl old ↦ inl old
        ])
]
  where
    longer :
        (q r : FilePath)
        → q ≡ (done ++ x ∷ []) ++ r
        → is_under r rest ≡ true
        → (s : FilePath) × (q ≡ done ++ s) × (is_under s (x ∷ rest) ≡ true)
    longer q r at under = (x ∷ r, at ∙ append_assoc done (x ∷ []) r, rw (==_refl x) under)

pub mkdir_all-NewDirs :
    (p : FilePath) (d : Disk) → NewDirs (λ q. is_under q p ≡ true) d (mkdir_all p d).1
unfolding mkdir_all
mkdir_all-NewDirs p d q h = elim (mkdir_from-NewDirs [] p d q h) [
  | inl old ↦ inl old
  | inr (r, at, under) ↦ inr (subst (λ z. is_under z p ≡ true) (sym at) under)
]
