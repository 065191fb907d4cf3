-- ===== src/Filesystem/Listings/Walk.antt =====
-- internal/data/filesystem/repositories.go: `RepositoriesList`, with `filepath.WalkDir` as the
-- recursion over directories. The recursion takes fuel; the deepest path of the disk is enough.
pub mod Complete
use simple_registry.Base.{
  ℕ, zero, suc, Bool, true, false, Option, none, some, List, [], ◌∷◌, ◌++◌, ◌==◌, nat_eq, list_eq,
  Text, codes, Error, Result, ok, err, Action, contains, length, ltb, if◌then◌else◌, out_of_fuel,
}
use simple_registry.Disk.{Disk, Node, file, dir, find, stat}
use simple_registry.Disk.Entries.{sub_dirs}
use simple_registry.Paths.{FilePath, join}

-- The directories that the registry keeps inside a repository.
abbrev pub internal_names : List Text
internal_names = codes "_manifests" ∷ codes "_layers" ∷ codes "_uploads" ∷ codes "_links" ∷ []

-- A relative path as a text.
abbrev pub slashed : List Text → Text
slashed [] = []
slashed (x ∷ []) = x
slashed (x ∷ y ∷ p) = x ++ b'/' ∷ slashed (y ∷ p)

abbrev pub is_ok {ℓ} : {A : Type ℓ} → Result A → Bool
is_ok (ok a) = true
is_ok (err e) = false

-- `os.Stat(filepath.Join(path, "_manifests"))` is no error.
unfoldable pub has_manifests : FilePath → Disk → Bool
has_manifests p d = is_ok (stat (p ++ codes "_manifests" ∷ []) d)

abbrev pub max : ℕ → ℕ → ℕ
max a b = if ltb a b then b else a

unfoldable pub deepest : List (FilePath × Node) → ℕ
deepest [] = 0
deepest ((q, n) ∷ nodes) = max (length q) (deepest nodes)

abbrev pub both : Result (List Text) → Result (List Text) → Result (List Text)
both (err e) r = err e
both (ok l) (err e) = err e
both (ok l) (ok k) = ok (l ++ k)

-- The recursion into one directory, a path below the root.
abbrev pub Walker : Type 0
Walker = List Text → Result (List Text)

module _ (d : Disk) (root : FilePath) where
  -- The function that `WalkDir` calls for a directory other than the root.
  unfoldable pub visit : Walker → List Text → Text → Result (List Text)
  visit walk rel x =
      if contains internal_names x
      then ok []
      else if has_manifests (root ++ (rel ++ x ∷ [])) d
      then ok (slashed (rel ++ x ∷ []) ∷ [])
      else walk (rel ++ x ∷ [])

  unfoldable pub visit_each : Walker → List Text → List Text → Result (List Text)
  visit_each walk rel [] = ok []
  visit_each walk rel (x ∷ names) = both (visit walk rel x) (visit_each walk rel names)

  -- The directories below `rel`; files change nothing.
  unfoldable pub walk_dir : ℕ → Walker
  walk_dir zero rel = err out_of_fuel
  walk_dir (suc fuel) rel = visit_each (walk_dir fuel) rel (sub_dirs (root ++ rel) d)

  -- The root itself must be there; a file in its place has no repositories.
  abbrev pub walk_root : ℕ → Result Node → Result (List Text)
  walk_root fuel (err e) = err e
  walk_root fuel (ok n) = elim n [ file c t ↦ ok [] | dir ↦ walk_dir fuel [] ]

unfoldable pub repositories_of : FilePath → Disk → Result (List Text)
repositories_of base d =
    let root = join base (codes "repositories" ∷ []) in
    walk_root d root (suc (deepest d.nodes)) (stat root d)

abbrev pub repositories_list : FilePath → Action Disk (List Text)
repositories_list base d = (repositories_of base d, d)
