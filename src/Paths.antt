-- ===== src/Paths.antt =====
-- Go's `filepath.Join` over texts of bytes: the parts are split at slashes and cleaned, so a part
-- ".." climbs and may leave the directory that it is joined to.
pub mod Plain
use simple_registry.Base.{
  ℕ, Bool, List, [], ◌∷◌, ◌++◌, ◌==◌, ◌||◌, nat_eq, list_eq, Text, codes, if◌then◌else◌,
}
use mathlib.Core.List.{reverse, tail}

-- The components of a rooted path, outermost first.
abbrev pub FilePath : Type 0
FilePath = List Text

unfoldable pub push_head : ℕ → List Text → List Text
push_head c [] = (c ∷ []) ∷ []
push_head c (p ∷ ps) = (c ∷ p) ∷ ps

unfoldable pub split_slash : Text → List Text
unfolding push_head
split_slash [] = [] ∷ []
split_slash (c ∷ s) = let rest = split_slash s in if c == b'/' then [] ∷ rest else push_head c rest

-- One component met by `Clean`; the stack has its top at the head.
unfoldable pub resolve : List Text → Text → List Text
resolve stack part =
    if part == [] || part == codes "."
    then stack
    else if part == codes ".."
    then tail stack
    else part ∷ stack

unfoldable pub clean_from : List Text → List Text → List Text
unfolding resolve
clean_from stack [] = reverse stack
clean_from stack (part ∷ parts) = clean_from (resolve stack part) parts

abbrev pub split_all : List Text → List Text
split_all [] = []
split_all (part ∷ parts) = split_slash part ++ split_all parts

-- `filepath.Join(base, parts...)`, for a base that is clean.
unfoldable pub join : FilePath → List Text → FilePath
unfolding clean_from split_slash
join base parts = clean_from (reverse base) (split_all parts)

-- `filepath.Dir` of a path with a component.
unfoldable pub dir_of : FilePath → FilePath
dir_of [] = []
dir_of (x ∷ []) = []
dir_of (x ∷ y ∷ p) = x ∷ dir_of (y ∷ p)
