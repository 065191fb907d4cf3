-- ===== src/Rbac/Verbs.antt =====
-- pkg/rbac/verb.go. `TrimSpace` and `ToUpper` are those of ASCII texts.
pub mod Known
mod Tests
use simple_registry.Base.{
  ℕ, ◌-◌, Bool, List, [], ◌∷◌, ◌++◌, ◌==◌, ◌&&◌, ◌||◌, nat_eq, list_eq, Text, codes, map, contains,
  if◌then◌else◌, leb, Result, ok, err, invalid_verb, sort_texts,
}
use simple_registry.MapSet.{add_one, add}
use mathlib.Core.List.{reverse}

abbrev pub is_space : ℕ → Bool
is_space c = c == b' ' || (leb 9 c && leb c 13)

abbrev pub trim_left : Text → Text
trim_left [] = []
trim_left (c ∷ s) = if is_space c then trim_left s else c ∷ s

-- `strings.TrimSpace`.
unfoldable pub trim_space : Text → Text
trim_space s = reverse (trim_left (reverse (trim_left s)))

abbrev pub to_upper : ℕ → ℕ
to_upper c = if leb b'a' c && leb c b'z' then c - 32 else c

abbrev pub allowed_verbs : List Text
allowed_verbs =
    codes "HEAD" ∷ codes "GET" ∷ codes "POST" ∷ codes "PUT" ∷ codes "PATCH" ∷ codes "DELETE" ∷ []

-- What `*` stands for.
abbrev pub all_verbs : List Text
all_verbs = allowed_verbs ++ codes "CONNECT" ∷ codes "OPTIONS" ∷ codes "TRACE" ∷ []

unfoldable pub normalize_verb : Text → Text
unfolding trim_space
normalize_verb s = map to_upper (trim_space s)

-- The loop over the verbs; `m` is the set so far, and `*` ends the loop.
unfoldable pub collect_verbs : List Text → List Text → Result (List Text)
collect_verbs m [] = ok m
collect_verbs m (s ∷ verbs) =
    let v = normalize_verb s in
    let rest = collect_verbs (add_one v m) verbs in
    if v == codes "*"
    then ok (add m all_verbs)
    else if contains allowed_verbs v
    then rest
    else err invalid_verb

abbrev pub sorted_ok : Result (List Text) → Result (List Text)
sorted_ok (ok m) = ok (sort_texts m)
sorted_ok (err e) = err e

unfoldable pub parse_verbs : List Text → Result (List Text)
unfolding collect_verbs
parse_verbs verbs = sorted_ok (collect_verbs [] verbs)
