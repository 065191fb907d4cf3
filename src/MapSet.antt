-- ===== src/MapSet.antt =====
-- pkg/mapset/mapset.go: a set as the keys of a map. Its elements are kept in the order of their
-- first addition; Go iterates over them in an order of its own.
pub mod Laws
use simple_registry.Base.{
  ℕ, Bool, true, false, List, [], ◌∷◌, ◌++◌, ◌&&◌, ◌==◌, HasEq, nat_eq, list_eq, Text, codes,
  contains, if◌then◌else◌, length, sort_texts, any, not,
}

module _ {A : Type 0} ⦃e : HasEq A⦄ where
  -- `s[e] = struct{}{}`.
  unfoldable pub add_one : A → List A → List A
  add_one a s = if contains s a then s else s ++ a ∷ []

  unfoldable pub add : List A → List A → List A
  add s [] = s
  add s (a ∷ more) = add (add_one a s) more

  unfoldable pub subset : List A → List A → Bool
  subset [] t = true
  subset (a ∷ s) t = contains t a && subset s t

  -- `Equal`.
  unfoldable pub equal : List A → List A → Bool
  equal s t = if length s == length t then subset s t else false

abbrev join_rest : List Text → Text
join_rest [] = []
join_rest (s ∷ ts) = codes ", " ++ s ++ join_rest ts

-- `strings.Join(items, ", ")`.
abbrev pub join_comma : List Text → Text
join_comma [] = []
join_comma (s ∷ ts) = s ++ join_rest ts

-- `String`, of a set of strings.
unfoldable pub to_string : List Text → Text
to_string s = codes "{" ++ join_comma (sort_texts s) ++ codes "}"
