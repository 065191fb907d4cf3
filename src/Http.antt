-- ===== src/Http.antt =====
-- pkg/http/http.go: the Content-Range of an upload and the pages of a listing. Header and query
-- values are the texts that `Get` returns, empty where they are missing.
pub mod Laws
mod Tests
use simple_registry.Base.{
  ℕ, zero, suc, ◌+◌, ◌-◌, ◌*◌, ◌^◌, Bool, true, false, ◌&&◌, ◌||◌, Option, none, some, List, [],
  ◌∷◌, ◌==◌, nat_eq, list_eq, Text, leb, ltb, length, take, if◌then◌else◌,
}
use simple_registry.Digest.{split_first}

abbrev pub is_digit : ℕ → Bool
is_digit c = leb b'0' c && leb c b'9'

unfoldable pub all_digits : Text → Bool
all_digits [] = true
all_digits (c ∷ s) = is_digit c && all_digits s

-- `[0-9]+`.
abbrev pub is_number : Text → Bool
is_number [] = false
is_number (c ∷ s) = all_digits (c ∷ s)

unfoldable pub value_from : ℕ → Text → ℕ
value_from acc [] = acc
value_from acc (c ∷ s) = value_from (acc * 10 + (c - b'0')) s

abbrev pub max_int64 : ℕ
max_int64 = 9223372036854775807

-- `strconv.ParseInt(s, 10, 64)` of digits, with its error ignored: beyond the range it returns the
-- largest number.
unfoldable pub parse_digits : Text → ℕ
unfolding value_from
parse_digits s = let n = value_from 0 s in if ltb max_int64 n then max_int64 else n

abbrev pub range_of : Option (Text × Text) → Option (ℕ × ℕ)
range_of none = none
range_of (some (a, b)) =
    if is_number a && is_number b then some (parse_digits a, parse_digits b) else none

-- `ParseRequestContentRange`: start and end, or nothing for its error.
unfoldable pub parse_request_content_range : Text → Option (ℕ × ℕ)
unfolding parse_digits
parse_request_content_range raw = range_of (split_first b'-' raw)

-- The part of the items behind the first one that equals `last`.
unfoldable pub after_item : Text → List Text → Option (List Text)
after_item last [] = none
after_item last (v ∷ items) = if v == last then some items else after_item last items

abbrev pub or_all : Option (List Text) → List Text → List Text
or_all none items = items
or_all (some rest) items = rest

unfoldable pub start_after : Text → List Text → List Text
start_after last items = if last == [] then items else or_all (after_item last items) items

-- `strconv.ParseInt(n, 10, 64)` where it gives no error and no negative number; in both other
-- cases the caller limits nothing.
abbrev pub unsigned : Text → Option ℕ
unsigned s =
    if is_number s
    then (if ltb max_int64 (value_from 0 s) then none else some (value_from 0 s))
    else none

abbrev pub zero_only : Option ℕ → Option ℕ
zero_only (some zero) = some 0
zero_only _ = none

unfoldable pub parse_count : Text → Option ℕ
parse_count [] = none
parse_count (c ∷ s) =
    if c == b'+' then unsigned s else if c == b'-' then zero_only (unsigned s) else unsigned (c ∷ s)

abbrev pub limit_to : Option ℕ → List Text → List Text
limit_to none items = items
limit_to (some n) items = if ltb (length items) n then items else take n items

-- `PaginateString`, with the values of the query parameters `last` and `n`.
unfoldable pub paginate_string : List Text → Text → Text → List Text
paginate_string items last n =
    let rest = start_after last items in if n == [] then rest else limit_to (parse_count n) rest
