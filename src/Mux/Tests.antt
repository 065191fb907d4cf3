-- ===== src/Mux/Tests.antt =====
-- A table of two routes.
use simple_registry.Base.{
  ℕ, ==_ne, refl, false, inl, inr, Option, none, some, [], ◌∷◌, List, Text, codes, All, ◌≡◌, ◌↔◌,
  ◌==◌, nat_eq, list_eq, list_beq, if◌then◌else◌,
}
use simple_registry.Mux.{Route, run, serve}
use simple_registry.Mux.Laws.{Misses, Selects, Refuses, serve-run_iff, serve-Refuses}

abbrev at : Text → Text → Option Text
at p path = if path == p then some p else none

abbrev get_a : Route Text ℕ
get_a = record { method = codes "GET"; pattern = at (codes "/a"); next = 1 }

abbrev put_a : Route Text ℕ
put_a = record { method = codes "PUT"; pattern = at (codes "/a"); next = 2 }

abbrev table : List (Route Text ℕ)
table = get_a ∷ put_a ∷ []

serve-run_iff_example :
    (serve table (codes "PUT") (codes "/a") ≡ run false (codes "/a") 2)
    ↔ Selects (codes "PUT") (codes "/a") table false (codes "/a") 2
serve-run_iff_example = serve-run_iff (codes "PUT") (codes "/a") table false (codes "/a") 2

not_head : (codes "POST" == codes "HEAD") ≡ false
unfolding list_beq
not_head = refl

not_get : (codes "POST" == codes "GET") ≡ false
unfolding list_beq
not_get = refl

not_put : (codes "POST" == codes "PUT") ≡ false
unfolding list_beq
not_put = refl

get_a-Misses : Misses (codes "POST") (codes "/a") get_a
get_a-Misses head params (_, inl (_, is_head, _)) = ==_ne not_head is_head
get_a-Misses head params (_, inr (_, is_get)) = ==_ne not_get is_get

put_a-Misses : Misses (codes "POST") (codes "/a") put_a
put_a-Misses head params (_, inl (_, is_head, _)) = ==_ne not_head is_head
put_a-Misses head params (_, inr (_, is_put)) = ==_ne not_put is_put

table-Misses : All (Misses (codes "POST") (codes "/a")) table
table-Misses = (get_a-Misses, (put_a-Misses, tt))

serve-Refuses_example :
    Refuses (codes "POST") (codes "/a") table (serve table (codes "POST") (codes "/a"))
serve-Refuses_example = serve-Refuses (codes "POST") (codes "/a") table table-Misses
