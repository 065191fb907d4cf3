-- ===== src/Handler/Listings.antt =====
-- internal/http/handler/catalog.go and tags.go.
use simple_registry.Base.{
  Bool, not, List, [], ◌∷◌, ◌++◌, Text, codes, Result, ok, err, Action, pure, keep, sort_texts,
  if◌then◌else◌,
}
use simple_registry.Garbage.Mark.{is_not_exist}
use simple_registry.Handler.Access.{Server, is_valid_auth}
use simple_registry.Handler.Blobs.{not_found_or_500}
use simple_registry.Handler.Reply.{
  Request, Response, Handler, answer, challenge_request, settle, allowed, listing,
}
use simple_registry.Http.{paginate_string}
use simple_registry.Storage.{DataStorage}
use simple_registry.Validator.{is_name}

abbrev pub list_answer : List Text → Response
list_answer l = record (answer 200) { content = listing l }

module _ {S : Type 0} (m : Server) (ds : DataStorage S) where
  -- `Index`.
  unfoldable pub index : Handler S
  index r s =
      if not (is_valid_auth m r.now r.authorization)
      then (ok (challenge_request r), s)
      else (ok (answer 200), s)

  abbrev send_catalog : Request → Result (List Text) → Action S Response
  send_catalog r (ok repos) =
      pure (list_answer (paginate_string (sort_texts repos) r.query_last r.query_n))
  send_catalog r (err e) = pure (if is_not_exist e then list_answer [] else answer 500)

  unfoldable pub catalog_list : Handler S
  catalog_list r s =
      if not (allowed m r (codes "catalog") [] (codes "GET"))
      then (ok (challenge_request r), s)
      else settle (send_catalog r) (ds.repositories_list s)

  -- Of the tags those that the user may see.
  abbrev pub visible : Request → Text → Bool
  visible r tag = allowed m r (codes "tags") (r.name ++ b':' ∷ tag) (codes "GET")

  abbrev pub tags_page : Request → List Text → List Text
  tags_page r tags = paginate_string (sort_texts (keep (visible r) tags)) r.query_last r.query_n

  abbrev send_tags : Request → Result (List Text) → Action S Response
  send_tags r (ok tags) = pure (list_answer (tags_page r tags))
  send_tags r (err e) = pure (not_found_or_500 e)

  unfoldable pub tags_list : Handler S
  tags_list r s =
      if not (is_name r.name)
      then (ok (answer 400), s)
      else if not (allowed m r (codes "tags") r.name (codes "GET"))
      then (ok (challenge_request r), s)
      else settle (send_tags r) (ds.tags_list r.name s)
