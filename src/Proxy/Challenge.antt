-- ===== src/Proxy/Challenge.antt =====
-- internal/data/proxy/auth.go: the challenge of an upstream, and the functions of Go's strings package
-- that read it.
use simple_registry.Base.{
  ℕ, Option, none, some, List, [], ◌∷◌, ◌==◌, nat_eq, list_eq, Text, codes, Result, ok, err,
  wrapped, if◌then◌else◌,
}
use simple_registry.Digest.{split_first}
use simple_registry.Rbac.Verbs.{trim_space}
use mathlib.Core.List.{reverse}

-- `strings.Split(s, sep)` for a separator of one byte.
unfoldable pub split_on : ℕ → Text → List Text
split_on sep [] = [] ∷ []
split_on sep (c ∷ s) =
    let rest = split_on sep s in
    if c == sep then [] ∷ rest else elim rest [ [] ↦ (c ∷ []) ∷ [] | p ∷ ps ↦ (c ∷ p) ∷ ps ]

-- `strings.CutPrefix`.
unfoldable pub cut_prefix : Text → Text → Option Text
cut_prefix [] s = some s
cut_prefix (c ∷ p) [] = none
cut_prefix (c ∷ p) (d ∷ s) = if c == d then cut_prefix p s else none

abbrev pub trim_left_of : ℕ → Text → Text
trim_left_of c [] = []
trim_left_of c (d ∷ s) = if d == c then trim_left_of c s else d ∷ s

unfoldable pub trim_right_of : ℕ → Text → Text
trim_right_of c s = reverse (trim_left_of c (reverse s))

-- `strings.Trim(s, "\"")`.
abbrev pub unquote : Text → Text
unquote s = trim_right_of b'"' (trim_left_of b'"' s)

pub record BearerChallenge : Type 0 where
  pub realm : Text
  pub service : Text
  pub scope : Text

unfoldable pub set_parameter : Text → Text → BearerChallenge → BearerChallenge
set_parameter key v ch =
    if key == codes "realm"
    then record ch { realm = v }
    else if key == codes "service"
    then record ch { service = v }
    else if key == codes "scope"
    then record ch { scope = v }
    else ch

abbrev pub set_pair : Option (Text × Text) → BearerChallenge → BearerChallenge
set_pair none ch = ch
set_pair (some (key, v)) ch = set_parameter key (unquote v) ch

unfoldable pub set_parameters : List Text → BearerChallenge → BearerChallenge
set_parameters [] ch = ch
set_parameters (p ∷ parts) ch = set_parameters parts (set_pair (split_first b'=' (trim_space p)) ch)

abbrev pub with_realm : BearerChallenge → Result BearerChallenge
with_realm ch = if ch.realm == [] then err wrapped else ok ch

-- `ParseBearerChallenge`.
unfoldable pub parse_bearer_challenge : Text → Result BearerChallenge
parse_bearer_challenge h = elim (cut_prefix (codes "Bearer ") h) [
  | none ↦ err wrapped
  | some rest ↦
      with_realm
        (set_parameters (split_on b',' rest) (record { realm = []; service = []; scope = [] }))
]
