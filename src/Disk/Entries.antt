-- ===== src/Disk/Entries.antt =====
-- `os.ReadDir`: the names in a directory, in the order of their bytes.
pub mod Laws
use simple_registry.Base.{
  ℕ, suc, Bool, true, false, Option, none, some, List, [], ◌∷◌, ◌++◌, ◌==◌, nat_eq, list_eq, Text,
  Result, ok, err, not_dir, length, keep, sort_texts, if◌then◌else◌, leb, map, not,
}
use simple_registry.Disk.{Disk, Node, file, dir, find, stat}
use simple_registry.MapSet.{add_one}
use simple_registry.Paths.{FilePath}

-- The name of a path that lies right below another one.
abbrev pub child_name : FilePath → FilePath → Option Text
child_name [] [] = none
child_name [] (x ∷ []) = some x
child_name [] (x ∷ y ∷ q) = none
child_name (a ∷ p) [] = none
child_name (a ∷ p) (b ∷ q) = if a == b then child_name p q else none

abbrev add_name : Option Text → List Text → List Text
add_name none names = names
add_name (some x) names = add_one x names

unfoldable pub child_names : FilePath → List (FilePath × Node) → List Text
child_names p [] = []
child_names p ((q, n) ∷ nodes) = add_name (child_name p q) (child_names p nodes)

abbrev pub is_directory : Option Node → Bool
is_directory (some dir) = true
is_directory _ = false

unfoldable pub read_dir : FilePath → Disk → Result (List Text)
read_dir p d = elim (stat p d) [
  | err e ↦ err e
  | ok n ↦ elim n [ file c t ↦ err not_dir | dir ↦ ok (sort_texts (child_names p d.nodes)) ]
]

-- `DirEntry.IsDir` of a name.
abbrev pub is_sub_dir : FilePath → Disk → Text → Bool
is_sub_dir p d x = is_directory (find (p ++ x ∷ []) d)

abbrev pub or_nothing : Result (List Text) → List Text
or_nothing (ok names) = names
or_nothing (err e) = []

-- The directories, or the other entries, of a directory; none where it cannot be read.
unfoldable pub sub_dirs : FilePath → Disk → List Text
sub_dirs p d = keep (is_sub_dir p d) (or_nothing (read_dir p d))

unfoldable pub sub_files : FilePath → Disk → List Text
sub_files p d = keep (λ x. not (is_sub_dir p d x)) (or_nothing (read_dir p d))
