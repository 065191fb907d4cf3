-- ===== src/Mux.antt =====
-- pkg/http/route/route.go and the dispatch in internal/http/handler/handler.go. A route's pattern
-- is a function from the path of a request to the path parameters of its match, since a user of
-- the table wants no more of `FindStringSubmatch`; `H` is the type of what the routes run.
pub mod Laws
mod Tests
use simple_registry.Base.{
  ℕ, Bool, true, false, Option, none, some, List, [], ◌∷◌, ◌++◌, ◌&&◌, ◌==◌, nat_eq, list_eq, Text,
  codes, if◌then◌else◌, sort_texts,
}
use simple_registry.MapSet.{add_one, add, join_comma}

pub record Route (P H : Type 0) : Type 0 where
  pub method : Text
  pub pattern : Text → Option P
  pub next : H

-- What `Route.Handler` does with a request: `IsMatchUrl` and `IsMatchMethod`, and for a match the
-- parameters and whether the body of the answer is discarded.
pub data Verdict (P : Type 0) : Type 0 where
  other_url : Verdict P
  other_method : Verdict P
  matched : Bool → P → Verdict P

-- A HEAD request runs the GET route, without a body.
abbrev pub is_head_for_get : Text → Text → Bool
is_head_for_get method route_method = method == codes "HEAD" && route_method == codes "GET"

abbrev pub verdict_at : {P : Type 0} → Text → Text → Option P → Verdict P
verdict_at method route_method none = other_url
verdict_at method route_method (some params) =
    if is_head_for_get method route_method
    then matched true params
    else if method == route_method
    then matched false params
    else other_method

pub data Outcome (P H : Type 0) : Type 0 where
  run : Bool → P → H → Outcome P H
  -- 405 with the header `Allow`.
  method_not_allowed : Text → Outcome P H
  not_found : Outcome P H

-- A route for another method is noted for the header; a GET route serves HEAD too.
unfoldable pub note_method : Text → List Text → List Text
note_method method allowed =
    let noted = add_one method allowed in
    if method == codes "GET" then add_one (codes "HEAD") noted else noted

module _ {P H : Type 0} where
  unfoldable pub route_handler : Route P H → Text → Text → Verdict P
  route_handler route method path = verdict_at method route.method (route.pattern path)

  unfoldable pub refuse : List Text → Outcome P H
  refuse [] = not_found
  refuse (m ∷ allowed) = method_not_allowed (join_comma (sort_texts (m ∷ allowed)))

  -- The function that the mux runs for every request: the loop over the routes and what follows.
  unfoldable pub dispatch : List (Route P H) → List Text → Text → Text → Outcome P H
  dispatch [] allowed method path = refuse allowed
  dispatch (route ∷ routes) allowed method path =
      let later = dispatch routes allowed method path in
      let noted = dispatch routes (note_method route.method allowed) method path in
      elim (route_handler route method path) [
        | other_url ↦ later
        | other_method ↦ noted
        | matched head params ↦ run head params route.next
      ]

  unfoldable pub serve : List (Route P H) → Text → Text → Outcome P H
  serve routes method path = dispatch routes [] method path
