-- ===== src/Disk/Entries/Laws.antt =====
-- Which names a directory holds.
use simple_registry.Base.{
  ℕ, Bool, true, false, Option, none, some, List, [], ◌∷◌, ◌++◌, nat_eq, list_eq, Text, ◌≡◌, ◌≢◌,
  ◌↔◌, refl, sym, ◌∙◌, ap, inl, inr, In, In-keep_iff, In-sort_texts_iff, lookup, not, Option-cases,
  Bool-cases, ==-cases, ==_refl, arith,
}
use simple_registry.Disk.{Disk, Node, file, dir, find, stat, is_blocked}
use simple_registry.MapSet.Laws.{In-add_one_iff}
use simple_registry.Paths.{FilePath}
use simple_registry.Disk.Entries.{
  child_name, child_names, is_directory, read_dir, is_sub_dir, or_nothing, sub_dirs, sub_files,
}

child_name-append : (p : FilePath) (x : Text) → child_name p (p ++ x ∷ []) ≡ some x
child_name-append [] x = refl
child_name-append (a ∷ p) x = rw (==_refl a) (child_name-append p x)

child_name-some : (p q : FilePath) (x : Text) → child_name p q ≡ some x → q ≡ p ++ x ∷ []
child_name-some [] [] x h = cc
child_name-some [] (y ∷ []) x h = let e : y ≡ x = cc in rw e refl
child_name-some [] (y ∷ z ∷ q) x h = cc
child_name-some (a ∷ p) [] x h = cc
child_name-some (a ∷ p) (b ∷ q) x h = elim (==-cases a b) [
  | inl (t, e) ↦ rw (← e) (ap (λ l. a ∷ l) (child_name-some p q x (rw t at h)))
  | inr (f, _) ↦ absurd (cc (rw f at h))
]

-- The names below a path are those with a node.
pub In-child_names_iff :
    (p : FilePath) (x : Text) (nodes : List (FilePath × Node))
    → In x (child_names p nodes) ↔ ((n : Node) × (lookup (p ++ x ∷ []) nodes ≡ some n))
unfolding child_names lookup
In-child_names_iff p x [] = (λ i. absurd i, λ (n, h). cc)
In-child_names_iff p x ((q, m) ∷ nodes) = elim (==-cases q (p ++ x ∷ [])) [
  | inl (t, e) ↦
      let here : child_name p q ≡ some x = rw e (child_name-append p x) in
      rw (t, here) (λ _. (m, refl), λ _. (In-add_one_iff x x (child_names p nodes)).1 (inr refl))
  | inr (f, ne) ↦ elim (Option-cases (child_name p q)) [
    | inl none_here ↦ rw (f, none_here) (In-child_names_iff p x nodes)
    | inr (y, at_y) ↦
        let other : x ≢ y = λ e. ne (child_name-some p q y at_y ∙ ap (λ z. p ++ z ∷ []) (sym e)) in
        rw (f, at_y)
          (
            λ i. elim ((In-add_one_iff x y (child_names p nodes)).0 i) [
              | inl j ↦ (In-child_names_iff p x nodes).0 j
              | inr e ↦ absurd (other e)
            ],
            λ h.
                (In-add_one_iff x y (child_names p nodes)).1
                  (inl ((In-child_names_iff p x nodes).1 h)),
          )
  ]
]

find_child :
    (p : FilePath) (x : Text) (d : Disk) → find (p ++ x ∷ []) d ≡ lookup (p ++ x ∷ []) d.nodes
unfolding find
find_child [] x d = refl
find_child (a ∷ p) x d = refl

pub is_directory-dir : (o : Option Node) → is_directory o ≡ true → o ≡ some dir
is_directory-dir none h = cc
is_directory-dir (some (file c t)) h = cc
is_directory-dir (some dir) h = refl

-- A directory is read exactly where there is one.
In-read_dir_iff :
    (p : FilePath) (x : Text) (d : Disk)
    → In x (or_nothing (read_dir p d)) ↔ ((find p d ≡ some dir) × In x (child_names p d.nodes))
unfolding read_dir stat
In-read_dir_iff p x d = elim (Option-cases (find p d)) [
  | inl n ↦ elim (Bool-cases (is_blocked [] p d)) [
    | inl b ↦ rw (n, b, read_dir, stat) (λ i. absurd i, λ (e, _). absurd (cc))
    | inr b ↦ rw (n, b, read_dir, stat) (λ i. absurd i, λ (e, _). absurd (cc))
  ]
  | inr (file c t, e) ↦ rw (e, read_dir, stat) (λ i. absurd i, λ (k, _). absurd (cc))
  | inr (dir, e) ↦
      rw (e, read_dir, stat)
        (
          λ i. (refl, (In-sort_texts_iff x (child_names p d.nodes)).0 i),
          λ (_, i). (In-sort_texts_iff x (child_names p d.nodes)).1 i,
        )
]

-- The directories below a path are those that the disk has there.
pub In-sub_dirs_iff :
    (p : FilePath) (x : Text) (d : Disk)
    → In x (sub_dirs p d) ↔ ((find p d ≡ some dir) × (find (p ++ x ∷ []) d ≡ some dir))
unfolding sub_dirs
In-sub_dirs_iff p x d = (
  λ i.
      let (j, k) = (In-keep_iff (is_sub_dir p d) x (or_nothing (read_dir p d))).0 i in
      (((In-read_dir_iff p x d).0 j).0, is_directory-dir (find (p ++ x ∷ []) d) k),
  λ (h, k). (In-keep_iff (is_sub_dir p d) x (or_nothing (read_dir p d))).1 (
    (In-read_dir_iff p x d).1
        (h, (In-child_names_iff p x d.nodes).1 (dir, sym (find_child p x d) ∙ k)),
    ap is_directory k,
  ),
)

is_directory-file :
    (o : Option Node) {n : Node}
    → o ≡ some n
    → is_directory o ≡ false
    → (c : Text) × (t : ℕ) × (o ≡ some (file c t))
is_directory-file none e h = cc
is_directory-file (some (file c t)) e h = (c, t, refl)
is_directory-file (some dir) e h = cc

not-false : {b : Bool} → not b ≡ true → b ≡ false
not-false {b} h = ground arith

pub In-sub_files_iff :
    (p : FilePath) (x : Text) (d : Disk)
    → In x (sub_files p d)
      ↔ ((find p d ≡ some dir) × ((c : Text) × (t : ℕ) × (find (p ++ x ∷ []) d ≡ some (file c t))))
unfolding sub_files
In-sub_files_iff p x d = (
  λ i.
      let (j, k) = (In-keep_iff (λ y. not (is_sub_dir p d y)) x (or_nothing (read_dir p d))).0 i in
      let (h, l) = (In-read_dir_iff p x d).0 j in
      let (n, e) = (In-child_names_iff p x d.nodes).0 l in
      (h, is_directory-file (find (p ++ x ∷ []) d) (find_child p x d ∙ e) (not-false k)),
  λ (h, (c, t, k)). (In-keep_iff (λ y. not (is_sub_dir p d y)) x (or_nothing (read_dir p d))).1 (
    (In-read_dir_iff p x d).1
        (h, (In-child_names_iff p x d.nodes).1 (file c t, sym (find_child p x d) ∙ k)),
    ap (λ o. not (is_directory o)) k,
  ),
)
