-- ===== src/Handler/Routes/Tests.antt =====
-- Requests of the table of routes.
use simple_registry.Base.{
  true, false, [], ◌∷◌, All, ◌≡◌, refl, nat_eq, list_eq, list_beq, codes, any, contains,
}
use simple_registry.MapSet.{add_one}
use simple_registry.Mux.{serve, dispatch, route_handler, run, not_found, refuse, note_method}
use simple_registry.Proxy.Challenge.{cut_prefix}
use simple_registry.Regex.{match_string}
use simple_registry.Handler.Routes.{
  Values, name, digest, routes, match_items, match_group, group_here, blobs_get, blobs_uploads_post,
}
use simple_registry.Handler.Routes.Valid.{FitsExpr, serve-FitsExpr}

abbrev found : Values
found = (name, codes "a/b") ∷ (digest, codes "sha256:ab") ∷ []

blob_route :
    serve (routes false) (codes "GET") (codes "/v2/a/b/blobs/sha256:ab") ≡ run false found blobs_get
unfolding serve dispatch route_handler routes match_items match_group group_here match_string
    cut_prefix list_beq note_method add_one contains any
blob_route = refl

serve-FitsExpr_example : All FitsExpr found
serve-FitsExpr_example =
    serve-FitsExpr false (codes "GET") (codes "/v2/a/b/blobs/sha256:ab") false found blobs_get
      blob_route

upload_route :
    serve (routes false) (codes "POST") (codes "/v2/a/blobs/uploads/")
    ≡ run false ((name, codes "a") ∷ []) blobs_uploads_post
unfolding serve dispatch route_handler routes match_items match_group group_here match_string
    cut_prefix list_beq note_method add_one contains any
upload_route = refl

bad_name : serve (routes true) (codes "GET") (codes "/v2/A/tags/list") ≡ not_found
unfolding serve dispatch route_handler routes match_items match_group group_here match_string
    cut_prefix list_beq note_method add_one contains any refuse
bad_name = refl
