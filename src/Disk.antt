-- ===== src/Disk.antt =====
-- The part of Go's packages `os` and `time` that the filesystem storage uses, over a tree of
-- files and directories. A call fails for the reasons that the tree gives (a missing path, a file
-- where a directory is needed); that the device itself fails is not modelled. A file keeps the
-- time of its last write as its access time. `entropy` is what `crypto/rand` will return.
pub mod Laws
pub mod Entries
pub mod Changes
pub mod Room
use mathlib.Core.Bool.{false≢true}
use simple_registry.Base.{
  ℕ, Bool, true, false, ◌&&◌, ◌||◌, not, Option, none, some, List, [], ◌∷◌, ◌++◌, ◌==◌, HasEq,
  nat_eq, list_eq, Text, Error, Result, ok, err, Action, not_exist, not_dir, is_dir, not_empty,
  lookup, put, without, any, if◌then◌else◌, leb, ltb,
}
use simple_registry.Paths.{FilePath, dir_of}

pub data Node : Type 0 where
  file : Text → ℕ → Node
  dir : Node

pub record Disk : Type 0 where
  pub nodes : List (FilePath × Node)
  pub now : ℕ
  pub entropy : List Text

-- The root is always there.
unfoldable pub find : FilePath → Disk → Option Node
find [] d = some dir
find (x ∷ p) d = lookup (x ∷ p) d.nodes

abbrev pub set_node : FilePath → Node → Disk → Disk
set_node p n d = record d { nodes = put p n d.nodes }

-- Is the first path the second one or above it?
unfoldable pub is_under : FilePath → FilePath → Bool
is_under [] q = true
is_under (x ∷ p) [] = false
is_under (x ∷ p) (y ∷ q) = (x == y) && is_under p q

abbrev pub is_file : Option Node → Bool
is_file (some (file c t)) = true
is_file _ = false

-- Is there a file at the path `done` extended by some of `rest`, the last component left out?
unfoldable pub is_blocked : FilePath → FilePath → Disk → Bool
is_blocked done [] d = false
is_blocked done (x ∷ []) d = false
is_blocked done (x ∷ y ∷ rest) d =
    is_file (find (done ++ x ∷ []) d) || is_blocked (done ++ x ∷ []) (y ∷ rest) d

abbrev pub or_missing : Option Node → Bool → Result Node
or_missing (some n) blocked = ok n
or_missing none true = err not_dir
or_missing none false = err not_exist

-- `os.Stat`.
unfoldable pub stat : FilePath → Disk → Result Node
stat p d = or_missing (find p d) (is_blocked [] p d)

-- `os.Open` and `os.ReadFile`, of a file. (Go opens a directory too, and fails when it is read.)
unfoldable pub read_file : FilePath → Disk → Result Text
read_file p d = elim (stat p d) [
  | ok n ↦ elim n [ file c t ↦ ok c | dir ↦ err is_dir ]
  | err e ↦ err e
]

-- A file put at a path: its directory must be there, and the path must not be a directory.
unfoldable pub place : FilePath → Text → ℕ → Action Disk (Unit {0})
place p c t d = elim (stat (dir_of p) d) [
  | err e ↦ (err e, d)
  | ok n ↦ elim n [
    | file _ _ ↦ (err not_dir, d)
    | dir ↦ elim (find p d) [
      | none ↦ (ok tt, set_node p (file c t) d)
      | some m ↦ elim m [ file _ _ ↦ (ok tt, set_node p (file c t) d) | dir ↦ (err is_dir, d) ]
    ]
  ]
]

-- `os.WriteFile`: what the file held before is replaced.
unfoldable pub write_file : FilePath → Text → Action Disk (Unit {0})
write_file p c d = place p c d.now d

-- `os.MkdirAll`, from a directory that is there.
unfoldable pub mkdir_from : FilePath → FilePath → Action Disk (Unit {0})
mkdir_from done [] d = (ok tt, d)
mkdir_from done (x ∷ rest) d =
    let here = done ++ x ∷ [] in
    let made = mkdir_from here rest (set_node here dir d) in
    let there = mkdir_from here rest d in
    elim (find here d) [
      | none ↦ made
      | some n ↦ elim n [ file _ _ ↦ (err not_dir, d) | dir ↦ there ]
    ]

unfoldable pub mkdir_all : FilePath → Action Disk (Unit {0})
mkdir_all p d = mkdir_from [] p d

-- `os.RemoveAll`: everything at the path and below. A missing path is no error.
unfoldable pub remove_all : FilePath → Action Disk (Unit {0})
remove_all p d = (ok tt, record d { nodes = without (is_under p) d.nodes })

abbrev pub is_strictly_under : FilePath → FilePath × Node → Bool
is_strictly_under p (q, _) = is_under p q && not (q == p)

-- `os.Remove`: a file, or a directory that holds nothing.
unfoldable pub remove : FilePath → Action Disk (Unit {0})
remove p d = elim (stat p d) [
  | err e ↦ (err e, d)
  | ok n ↦
      if any (is_strictly_under p) d.nodes
      then (err not_empty, d)
      else (ok tt, record d { nodes = without (λ q. q == p) d.nodes })
]

-- `os.Rename` of a file.
unfoldable pub rename : FilePath → FilePath → Action Disk (Unit {0})
rename p q d = elim (stat p d) [
  | err e ↦ (err e, d)
  | ok n ↦ elim n [
    | dir ↦ (err is_dir, d)
    | file c t ↦
        let (r, d') = place q c t d in
        elim r [
          | err e ↦ (err e, d)
          | ok _ ↦ (ok tt, record d' { nodes = without (λ x. x == p) d'.nodes })
        ]
  ]
]
