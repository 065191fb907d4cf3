-- ===== src/Http/Tests.antt =====
-- Pages of a listing.
use simple_registry.Base.{
  [], ◌∷◌, List, Text, codes, some, ◌≡◌, ◌≤◌, refl, length, nat_eq, list_eq, list_beq,
}
use simple_registry.Http.{
  paginate_string, parse_count, after_item, start_after, parse_digits, all_digits,
}
use simple_registry.Http.Laws.{length-paginate_string_le}

abbrev abc : List Text
abc = codes "a" ∷ codes "b" ∷ codes "c" ∷ []

second_page : paginate_string abc (codes "a") (codes "1") ≡ codes "b" ∷ []
unfolding paginate_string parse_count after_item start_after parse_digits all_digits list_beq
second_page = refl

count_1 : parse_count (codes "1") ≡ some 1
unfolding parse_count parse_digits all_digits
count_1 = refl

length-paginate_string_le_example : length (paginate_string abc (codes "a") (codes "1")) ≤ 1
length-paginate_string_le_example =
    length-paginate_string_le abc (codes "a") (codes "1") 1 count_1 (λ h. cc)
