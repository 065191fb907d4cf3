-- ===== src/Digest.antt =====
-- pkg/digest/digest.go: the parts of a digest `algorithm:hash`, and the choice of a hasher.
pub mod Laws
mod Tests
use simple_registry.Base.{
  ℕ, Bool, true, false, Option, none, some, List, [], ◌∷◌, ◌==◌, Text, codes, nat_eq, list_eq,
  Error, Result, ok, err, if◌then◌else◌, invalid_digest_format, empty_algorithm, empty_hash,
  unsupported_algorithm,
}

-- `strings.SplitN(s, sep, 2)` at a separator of one byte: the parts around its first place, or
-- nothing if it does not occur.
unfoldable pub split_first : ℕ → Text → Option (Text × Text)
split_first sep [] = none
split_first sep (c ∷ s) =
    let later = split_first sep s in
    if c == sep then some ([], s) else elim later [ none ↦ none | some (a, b) ↦ some (c ∷ a, b) ]

unfoldable pub check_parts : Option (Text × Text) → Result (Text × Text)
check_parts none = err invalid_digest_format
check_parts (some ([], hex)) = err empty_algorithm
check_parts (some (c ∷ algo, [])) = err empty_hash
check_parts (some (c ∷ algo, d ∷ hex)) = ok (c ∷ algo, d ∷ hex)

-- `Parse`.
unfoldable pub parse : Text → Result (Text × Text)
unfolding split_first check_parts
parse digest = check_parts (split_first b':' digest)

-- The two hashers that `NewHasher` knows.
pub data Algo : Type 0 where
  sha256 sha512 : Algo

unfoldable pub new_hasher : Text → Result Algo
new_hasher algo =
    if algo == codes "sha256"
    then ok sha256
    else if algo == codes "sha512"
    then ok sha512
    else err unsupported_algorithm
