-- ===== src/Digest/Tests.antt =====
-- Digests that parse, and one that does not.
use simple_registry.Base.{
  [], ◌∷◌, ◌++◌, In, codes, ok, err, empty_hash, ◌≡◌, ◌≢◌, ◌↔◌, refl, nat_eq,
}
use simple_registry.Digest.{split_first, check_parts, parse}
use simple_registry.Digest.Laws.{parse_iff}

empty_hash_fails : parse (codes "sha256:") ≡ err empty_hash
unfolding parse split_first check_parts
empty_hash_fails = refl

parse_iff_example : (parse (codes "a:b:c") ≡ ok (codes "a", codes "b:c")) ↔ (
    (codes "a:b:c" ≡ codes "a" ++ b':' ∷ codes "b:c")
    × (¬ In b':' (codes "a"))
    × (codes "a" ≢ [])
    × (codes "b:c" ≢ []))
parse_iff_example = parse_iff (codes "a:b:c") (codes "a") (codes "b:c")
