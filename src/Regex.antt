-- ===== src/Regex.antt =====
-- The part of Go's package `regexp` that the fixed expressions of pkg/registry/validator.go use:
-- classes of bytes, sequences, alternatives, options and repetitions, matched against a whole text
-- (each expression is anchored by `^` and `$`). The matcher goes by derivatives, which is no claim
-- about how Go's engine works; the child `Laws` proves that it decides the language.
pub mod Laws
use simple_registry.Base.{
  ℕ, zero, suc, Bool, true, false, List, [], ◌∷◌, ◌&&◌, ◌||◌, leb, any, Text, if◌then◌else◌,
}

pub data Regex : Type 0 where
  nothing : Regex
  empty : Regex
  class : List (ℕ × ℕ) → Regex
  seq : Regex → Regex → Regex
  either : Regex → Regex → Regex
  many : Regex → Regex

-- A class is a list of ranges with both ends included.
abbrev pub in_class : List (ℕ × ℕ) → ℕ → Bool
in_class [] c = false
in_class ((lo, hi) ∷ rs) c = (leb lo c && leb c hi) || in_class rs c

-- `r+`, `r?`, `r{n}` and `r{0,n}`.
abbrev pub some_of : Regex → Regex
some_of r = seq r (many r)

abbrev pub opt : Regex → Regex
opt r = either empty r

abbrev pub times : ℕ → Regex → Regex
times zero r = empty
times (suc n) r = seq r (times n r)

abbrev pub up_to : ℕ → Regex → Regex
up_to zero r = empty
up_to (suc n) r = opt (seq r (up_to n r))

-- A literal text.
abbrev pub lit : Text → Regex
lit [] = empty
lit (c ∷ s) = seq (class ((c, c) ∷ [])) (lit s)

-- Does the expression match the empty text?
pub nullable : Regex → Bool
nullable nothing = false
nullable empty = true
nullable (class cs) = false
nullable (seq r s) = nullable r && nullable s
nullable (either r s) = nullable r || nullable s
nullable (many r) = true

-- Sequences and alternatives that drop what can never match, so that derivatives stay small.
pub seq' : Regex → Regex → Regex
seq' nothing s = nothing
seq' empty s = s
seq' r s = seq r s

pub either' : Regex → Regex → Regex
either' nothing s = s
either' r nothing = r
either' r s = either r s

-- What is left to match after the byte `c`.
pub deriv : ℕ → Regex → Regex
unfolding nullable seq' either'
deriv c nothing = nothing
deriv c empty = nothing
deriv c (class cs) = if in_class cs c then empty else nothing
deriv c (seq r s) =
    if nullable r then either' (seq' (deriv c r) s) (deriv c s) else seq' (deriv c r) s
deriv c (either r s) = either' (deriv c r) (deriv c s)
deriv c (many r) = seq' (deriv c r) (many r)

-- `MatchString` of an expression anchored at both ends.
unfoldable pub match_string : Regex → Text → Bool
unfolding deriv nullable
match_string r [] = nullable r
match_string r (c ∷ s) = match_string (deriv c r) s
