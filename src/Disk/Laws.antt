-- ===== src/Disk/Laws.antt =====
-- What each call does to the files: a disk seen as a function from paths to files.
use simple_registry.Base.{
  ℕ, Option, none, some, [], ◌∷◌, ◌++◌, ◌==◌, nat_eq, list_eq, ◌≡◌, ◌≢◌, refl, sym, ap, ◌∙◌, subst,
  inl, inr, Text, Error, ok, err, lookup, without, lookup-put_self, lookup-put_ne, lookup-without,
  arith, if◌then◌else◌, ==-cases, Bool-cases, Option-cases, ==_of_ne, Result-cases, any, ◌⊎◌, ◌↔◌,
  not_dir, is_dir,
}
use simple_registry.Paths.{FilePath, dir_of}
use simple_registry.Disk.{
  Node, file, dir, Disk, find, set_node, is_under, is_blocked, stat, read_file, place, mkdir_from,
  mkdir_all, remove_all, remove, rename, is_strictly_under,
}

abbrev pub file_of : Option Node → Option (Text × ℕ)
file_of (some (file c t)) = some (c, t)
file_of (some dir) = none
file_of none = none

-- The file at a path, with its access time.
unfoldable pub file_at : FilePath → Disk → Option (Text × ℕ)
unfolding find
file_at p d = file_of (find p d)

-- A node put at a path changes no other path.
file_at-set_node_ne :
    (p q : FilePath) (n : Node) (d : Disk) → p ≢ q → file_at q (set_node p n d) ≡ file_at q d
unfolding file_at
file_at-set_node_ne p [] n d ne = refl
file_at-set_node_ne p (x ∷ q) n d ne = ap file_of (lookup-put_ne p (x ∷ q) n d.nodes ne)

file_at-set_node_self :
    (x : Text) (p : FilePath) (n : Node) (d : Disk)
    → file_at (x ∷ p) (set_node (x ∷ p) n d) ≡ file_of (some n)
unfolding file_at
file_at-set_node_self x p n d = ap file_of (lookup-put_self (x ∷ p) n d.nodes)

-- A directory put where nothing is adds no file.
pub file_at-new_dir :
    (p q : FilePath) (d : Disk) → find p d ≡ none → file_at q (set_node p dir d) ≡ file_at q d
unfolding file_at
file_at-new_dir [] q d e = cc
file_at-new_dir (x ∷ p) q d e = elim (==-cases (x ∷ p) q) [
  | inr (_, ne) ↦ file_at-set_node_ne (x ∷ p) q dir d ne
  | inl (_, same) ↦
      subst (λ r. file_at r (set_node (x ∷ p) dir d) ≡ file_at r d) same
        (file_at-set_node_self x p dir d ∙ ap file_of (sym e))
]

mkdir_from-files :
    (done rest : FilePath) (d : Disk) (q : FilePath)
    → file_at q (mkdir_from done rest d).1 ≡ file_at q d
unfolding mkdir_from
mkdir_from-files done [] d q = refl
mkdir_from-files done (x ∷ rest) d q = elim (Option-cases (find (done ++ x ∷ []) d)) [
  | inl e ↦
      rw (e, mkdir_from)
        (mkdir_from-files (done ++ x ∷ []) rest (set_node (done ++ x ∷ []) dir d) q
          ∙ file_at-new_dir (done ++ x ∷ []) q d e)
  | inr (file c t, e) ↦ rw (e, mkdir_from) refl
  | inr (dir, e) ↦ rw (e, mkdir_from) (mkdir_from-files (done ++ x ∷ []) rest d q)
]

-- `mkdir_all` makes directories only: every file stays, and none appears.
pub mkdir_all-files :
    (p : FilePath) (d : Disk) (q : FilePath) → file_at q (mkdir_all p d).1 ≡ file_at q d
unfolding mkdir_all
mkdir_all-files p d q = mkdir_from-files [] p d q

-- What `place` can do: fail and change nothing, or set the node at its path.
pub place-cases :
    (p : FilePath) (c : Text) (t : ℕ) (d : Disk)
    → ((e : Error) × (place p c t d ≡ (err e, d)))
      ⊎ ((place p c t d ≡ (ok tt, set_node p (file c t) d)) × (p ≢ []))
unfolding place find
place-cases [] c t d = elim (Result-cases (stat (dir_of []) d)) [
  | inl (e, h) ↦ inl (e, rw (h, place) refl)
  | inr (file _ _, h) ↦ inl (not_dir, rw (h, place) refl)
  | inr (dir, h) ↦ inl (is_dir, rw (h, place) refl)
]
place-cases (x ∷ p) c t d = elim (Result-cases (stat (dir_of (x ∷ p)) d)) [
  | inl (e, h) ↦ inl (e, rw (h, place) refl)
  | inr (file _ _, h) ↦ inl (not_dir, rw (h, place) refl)
  | inr (dir, h) ↦ elim (Option-cases (lookup (x ∷ p) d.nodes)) [
    | inl g ↦ inr (rw (h, g, place) refl, λ z. cc)
    | inr (file _ _, g) ↦ inr (rw (h, g, place) refl, λ z. cc)
    | inr (dir, g) ↦ inl (is_dir, rw (h, g, place) refl)
  ]
]

pub place-other :
    (p : FilePath) (c : Text) (t : ℕ) (d : Disk) (q : FilePath)
    → p ≢ q
    → file_at q (place p c t d).1 ≡ file_at q d
place-other p c t d q ne = elim (place-cases p c t d) [
  | inl (e, h) ↦ rw h refl
  | inr (h, _) ↦ rw h (file_at-set_node_ne p q (file c t) d ne)
]

pub place_self :
    (p : FilePath) (c : Text) (t : ℕ) (d : Disk)
    → (place p c t d).0 ≡ ok tt
    → file_at p (place p c t d).1 ≡ some (c, t)
place_self [] c t d h = elim (place-cases [] c t d) [
  | inl (e, g) ↦ absurd (cc)
  | inr (g, ne) ↦ absurd (ne refl)
]
place_self (x ∷ p) c t d h = elim (place-cases (x ∷ p) c t d) [
  | inl (e, g) ↦ absurd (cc)
  | inr (g, _) ↦ rw g (file_at-set_node_self x p (file c t) d)
]

-- `remove_all` takes away what is at the path or below, and nothing else.
pub remove_all-files :
    (p : FilePath) (d : Disk) (q : FilePath)
    → file_at q (remove_all p d).1 ≡ (if is_under p q then none else file_at q d)
unfolding remove_all file_at find
remove_all-files p d [] = elim (Bool-cases (is_under p [])) [
  | inl h ↦ rw h refl
  | inr h ↦ rw h refl
]
remove_all-files p d (x ∷ q) = elim (Bool-cases (is_under p (x ∷ q))) [
  | inl h ↦ rw (lookup-without (is_under p) (x ∷ q) d.nodes, h) refl
  | inr h ↦ rw (lookup-without (is_under p) (x ∷ q) d.nodes, h) refl
]

-- The node at one path taken away.
without_path-files :
    (p : FilePath) (d : Disk) (q : FilePath)
    → p ≢ q
    → file_at q (record d { nodes = without (λ x. x == p) d.nodes }) ≡ file_at q d
unfolding file_at find
without_path-files p d [] ne = refl
without_path-files p d (x ∷ q) ne =
    rw
      (lookup-without (λ y. y == p) (x ∷ q) d.nodes, ==_of_ne {a = x ∷ q} {b = p} (λ z. ne (sym z)))
      refl

pub remove-other :
    (p : FilePath) (d : Disk) (q : FilePath) → p ≢ q → file_at q (remove p d).1 ≡ file_at q d
unfolding remove
remove-other p d q ne = elim (Result-cases (stat p d)) [
  | inl (e, h) ↦ rw (h, remove) refl
  | inr (n, h) ↦ elim (Bool-cases (any (is_strictly_under p) d.nodes)) [
    | inl t ↦ rw (h, t, remove) refl
    | inr f ↦ rw (h, f, remove) (without_path-files p d q ne)
  ]
]

-- `rename` changes no path but the two.
pub rename-other :
    (p q : FilePath) (d : Disk) (r : FilePath)
    → p ≢ r
    → q ≢ r
    → file_at r (rename p q d).1 ≡ file_at r d
unfolding rename
rename-other p q d r np nq = elim (Result-cases (stat p d)) [
  | inl (e, h) ↦ rw (h, rename) refl
  | inr (dir, h) ↦ rw (h, rename) refl
  | inr (file c t, h) ↦ elim (Result-cases (place q c t d).0) [
    | inl (e, g) ↦ rw (h, g, rename) refl
    | inr (u, g) ↦
        rw (h, g, rename) (without_path-files p (place q c t d).1 r np ∙ place-other q c t d r nq)
  ]
]

-- A rename that succeeds leaves the file, as it was, at the new path.
pub rename_self :
    (p q : FilePath) (d : Disk)
    → p ≢ q
    → (rename p q d).0 ≡ ok tt
    → (c : Text) × (t : ℕ) × (read_file p d ≡ ok c) × (file_at q (rename p q d).1 ≡ some (c, t))
unfolding rename read_file
rename_self p q d ne r = elim (Result-cases (stat p d)) [
  | inl (e, h) ↦ absurd (cc (rw (h, rename) at r))
  | inr (dir, h) ↦ absurd (cc (rw (h, rename) at r))
  | inr (file c t, h) ↦ elim (Result-cases (place q c t d).0) [
    | inl (e, g) ↦ absurd (cc (rw (h, g, rename) at r))
    | inr (u, g) ↦ (
      c,
      t,
      rw (h, read_file) refl,
      rw (h, g, rename) (without_path-files p (place q c t d).1 q ne ∙ place_self q c t d g),
    )
  ]
]

-- A file is read exactly where there is one.
pub read_file_iff :
    (p : FilePath) (d : Disk) (c : Text)
    → (read_file p d ≡ ok c) ↔ ((t : ℕ) × (file_at p d ≡ some (c, t)))
unfolding read_file file_at stat
read_file_iff p d c = elim (Option-cases (find p d)) [
  | inl h ↦ elim (Bool-cases (is_blocked [] p d)) [
    | inl g ↦ rw (h, g, read_file, stat) (λ e. cc, λ (t, e). cc)
    | inr g ↦ rw (h, g, read_file, stat) (λ e. cc, λ (t, e). cc)
  ]
  | inr (file c' t', h) ↦ rw (h, read_file, stat) (λ e. (t', ground arith), λ (t, e). ground arith)
  | inr (dir, h) ↦ rw (h, read_file, stat) (λ e. cc, λ (t, e). cc)
]
