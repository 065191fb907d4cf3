-- ===== src/Handler/Routes.antt =====
-- `registerRoutes` of internal/http/handler/handler.go: the table of routes. A pattern is the list of
-- what it asks of the path from left to right; a group is named as in the source. No path fits a
-- pattern in two ways, so it does not matter which one a search finds first.
pub mod Valid
mod Tests
use simple_registry.Base.{
  ℕ, Bool, true, false, not, Option, none, some, List, [], ◌∷◌, ◌++◌, map, ◌==◌, nat_eq, list_eq,
  Text, codes, if◌then◌else◌, contains,
}
use simple_registry.Mux.{Route, Outcome, serve}
use simple_registry.Proxy.Challenge.{cut_prefix}
use simple_registry.Regex.{Regex, either, match_string}
use simple_registry.Validator.{expr_name, expr_tag, expr_digest, expr_uuid}

-- The names of the groups.
pub data Parameter : Type 0 where
  name digest uuid reference : Parameter

abbrev pub expr_of : Parameter → Regex
expr_of name = expr_name
expr_of digest = expr_digest
expr_of uuid = expr_uuid
expr_of reference = either expr_tag expr_digest

pub data Item : Type 0 where
  literal : Text → Item
  group : Parameter → Item
  -- `/?`
  slash : Item
  -- `(?:/.*)?`
  below : Item

abbrev pub Values : Type 0
Values = List (Parameter × Text)

abbrev pub or_else : Option Values → Option Values → Option Values
or_else none o = o
or_else (some v) o = some v

abbrev pub with_value : Parameter → Text → Option Values → Option Values
with_value p u none = none
with_value p u (some v) = some ((p, u) ∷ v)

abbrev pub Matcher : Type 0
Matcher = Text → Option Values

-- A group that ends here.
unfoldable pub group_here : Matcher → Parameter → Text → Text → Option Values
group_here k p u rest = if match_string (expr_of p) u then with_value p u (k rest) else none

-- The longest text of the group first.
unfoldable pub match_group : Matcher → Parameter → Text → Text → Option Values
match_group k p u [] = group_here k p u []
match_group k p u (c ∷ s) = or_else (match_group k p (u ++ c ∷ []) s) (group_here k p u (c ∷ s))

abbrev pub match_cut : Matcher → Option Text → Option Values
match_cut k none = none
match_cut k (some rest) = k rest

abbrev pub match_slash : Matcher → Matcher
match_slash k [] = k []
match_slash k (c ∷ s) = or_else (if c == b'/' then k s else none) (k (c ∷ s))

-- Nothing, or a slash and what has no line feed, up to the end.
abbrev pub is_below : Text → Bool
is_below [] = true
is_below (c ∷ s) = if c == b'/' then not (contains s 10) else false

unfoldable pub match_items : List Item → Matcher
match_items [] [] = some []
match_items [] (c ∷ s) = none
match_items (literal t ∷ items) s = match_cut (match_items items) (cut_prefix t s)
match_items (group p ∷ items) s = match_group (match_items items) p [] s
match_items (slash ∷ items) s = match_slash (match_items items) s
match_items (below ∷ items) s = if is_below s then match_items items [] else none

-- The handlers by their names.
pub data Endpoint : Type 0 where
  index catalog_list referrers_get tags_list blobs_get blobs_delete blobs_uploads_post
        blobs_uploads_get :
      Endpoint
  blobs_uploads_patch blobs_uploads_put blobs_uploads_delete manifests_get manifests_put
        manifests_delete :
      Endpoint
  token ui redirect_to_ui : Endpoint

pub record Entry : Type 0 where
  pub method : Text
  pub items : List Item
  pub endpoint : Endpoint

abbrev pub entry : Text → List Item → Endpoint → Entry
entry method items endpoint = record { method = method; items = items; endpoint = endpoint }

-- A path below a repository.
abbrev pub in_repository : List Item → List Item
in_repository items = literal (codes "/v2/") ∷ group name ∷ items

abbrev pub blob_items : List Item
blob_items = in_repository (literal (codes "/blobs/") ∷ group digest ∷ slash ∷ [])

abbrev pub upload_items : List Item
upload_items = in_repository (literal (codes "/blobs/uploads/") ∷ group uuid ∷ slash ∷ [])

abbrev pub manifest_items : List Item
manifest_items = in_repository (literal (codes "/manifests/") ∷ group reference ∷ slash ∷ [])

abbrev pub fixed_entries : List Entry
fixed_entries =
    entry (codes "GET") (literal (codes "/v2") ∷ slash ∷ []) index
    ∷ entry (codes "GET") (literal (codes "/v2/_catalog") ∷ slash ∷ []) catalog_list
    ∷ entry (codes "GET")
        (in_repository (literal (codes "/referrers/") ∷ group digest ∷ slash ∷ [])) referrers_get
    ∷ entry (codes "GET") (in_repository (literal (codes "/tags/list") ∷ slash ∷ [])) tags_list
    ∷ entry (codes "GET") blob_items blobs_get
    ∷ entry (codes "DELETE") blob_items blobs_delete
    ∷ entry (codes "POST") (in_repository (literal (codes "/blobs/uploads") ∷ slash ∷ []))
        blobs_uploads_post
    ∷ entry (codes "GET") upload_items blobs_uploads_get
    ∷ entry (codes "PATCH") upload_items blobs_uploads_patch
    ∷ entry (codes "PUT") upload_items blobs_uploads_put
    ∷ entry (codes "DELETE") upload_items blobs_uploads_delete
    ∷ entry (codes "GET") manifest_items manifests_get
    ∷ entry (codes "PUT") manifest_items manifests_put
    ∷ entry (codes "DELETE") manifest_items manifests_delete
    ∷ entry (codes "GET") (literal (codes "/token") ∷ slash ∷ []) token
    ∷ []

-- The routes of the web pages, if they are enabled.
abbrev pub ui_entries : Bool → List Entry
ui_entries enabled =
    if enabled
    then entry (codes "GET") (literal (codes "/ui") ∷ below ∷ []) ui
      ∷ entry (codes "GET") (slash ∷ []) redirect_to_ui
      ∷ []
    else []

abbrev pub to_route : Entry → Route Values Endpoint
to_route e = record { method = e.method; pattern = match_items e.items; next = e.endpoint }

unfoldable pub routes : Bool → List (Route Values Endpoint)
routes ui_enabled = map to_route (fixed_entries ++ ui_entries ui_enabled)
