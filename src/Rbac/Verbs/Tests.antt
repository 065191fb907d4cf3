-- ===== src/Rbac/Verbs/Tests.antt =====
-- Verbs as a role's manifest lists them.
use simple_registry.Base.{
  [], ◌∷◌, Text, codes, ◌≡◌, refl, ok, In, IsSorted, nat_eq, list_eq, list_beq, any, contains,
  sort_texts,
}
use simple_registry.MapSet.{add_one}
use simple_registry.Rbac.Verbs.{trim_space, normalize_verb, collect_verbs, parse_verbs, all_verbs}
use simple_registry.Rbac.Verbs.Known.{parse_verbs-Known}

two_verbs : parse_verbs (codes " put" ∷ codes "GET" ∷ []) ≡ ok (codes "GET" ∷ codes "PUT" ∷ [])
unfolding parse_verbs collect_verbs normalize_verb trim_space add_one any contains list_beq
    sort_texts
two_verbs = refl

parse_verbs-Known_example :
    IsSorted (codes "GET" ∷ codes "PUT" ∷ [])
    × ((x : Text) → In x (codes "GET" ∷ codes "PUT" ∷ []) → In x all_verbs)
parse_verbs-Known_example =
    parse_verbs-Known (codes " put" ∷ codes "GET" ∷ []) (codes "GET" ∷ codes "PUT" ∷ []) two_verbs
