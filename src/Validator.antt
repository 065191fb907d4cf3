-- ===== src/Validator.antt =====
-- pkg/registry/validator.go: the four expressions that names, tags, digests and upload ids must
-- match, and the compiled matchers.
pub mod Names
pub mod Digests
mod Tests
use simple_registry.Base.{ℕ, Bool, List, [], ◌∷◌, ◌++◌, Text, codes}
use simple_registry.Regex.{
  Regex, class, seq, either, many, some_of, opt, times, up_to, lit, match_string,
}

-- A set of single bytes, written out.
abbrev pub one_of : Text → List (ℕ × ℕ)
one_of [] = []
one_of (c ∷ s) = (c, c) ∷ one_of s

abbrev pub lower_digit : List (ℕ × ℕ)
lower_digit = (b'a', b'z') ∷ (b'0', b'9') ∷ []

abbrev pub letter_digit : List (ℕ × ℕ)
letter_digit = (b'a', b'z') ∷ (b'A', b'Z') ∷ (b'0', b'9') ∷ []

abbrev pub hex_digit : List (ℕ × ℕ)
hex_digit = (b'a', b'f') ∷ (b'A', b'F') ∷ (b'0', b'9') ∷ []

-- `\.|_|__|-+`.
abbrev pub separator : Regex
separator =
    either (lit (codes "."))
      (either (lit (codes "_")) (either (lit (codes "__")) (some_of (lit (codes "-")))))

-- One component of a repository name: `[a-z0-9]+(?:(?:\.|_|__|-+)[a-z0-9]+)*`.
abbrev pub name_component : Regex
name_component =
    seq (some_of (class lower_digit)) (many (seq separator (some_of (class lower_digit))))

abbrev pub expr_name : Regex
expr_name = seq name_component (many (seq (lit (codes "/")) name_component))

abbrev pub expr_tag : Regex
expr_tag =
    seq (class (letter_digit ++ one_of (codes "_")))
      (up_to 127 (class (letter_digit ++ one_of (codes "._-"))))

abbrev pub expr_digest : Regex
expr_digest = seq (some_of (class lower_digit)) (
    seq (opt (seq (class (one_of (codes "+._-"))) (some_of (class lower_digit))))
      (seq (lit (codes ":")) (some_of (class (letter_digit ++ one_of (codes "=_-"))))))

abbrev pub expr_uuid : Regex
expr_uuid = seq (times 8 (class hex_digit)) (
    seq (lit (codes "-")) (
      seq (times 4 (class hex_digit)) (
        seq (lit (codes "-")) (
          seq (times 4 (class hex_digit)) (
            seq (lit (codes "-")) (
              seq (times 4 (class hex_digit))
                (seq (lit (codes "-")) (times 12 (class hex_digit)))))))))

unfoldable pub is_name : Text → Bool
is_name s = match_string expr_name s

unfoldable pub is_tag : Text → Bool
is_tag s = match_string expr_tag s

unfoldable pub is_digest : Text → Bool
is_digest s = match_string expr_digest s

unfoldable pub is_uuid : Text → Bool
is_uuid s = match_string expr_uuid s
