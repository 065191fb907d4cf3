-- ===== src/Handler/Blobs.antt =====
-- internal/http/handler/blobs.go.
use simple_registry.Base.{ℕ, not, Text, codes, Error, Result, ok, err, Action, pure, if◌then◌else◌}
use simple_registry.Garbage.Mark.{is_not_exist}
use simple_registry.Handler.Access.{Server}
use simple_registry.Handler.Reply.{
  Response, Handler, answer, challenge_request, settle, allowed, bytes,
}
use simple_registry.Storage.{DataStorage}
use simple_registry.Validator.{is_name, is_digest}

-- 404 for what is missing, 500 for any other error.
abbrev pub not_found_or_500 : Error → Response
not_found_or_500 e = if is_not_exist e then answer 404 else answer 500

module _ {S : Type 0} (m : Server) (ds : DataStorage S) where
  abbrev send_blob : Text → Result (Text × ℕ) → Action S Response
  send_blob digest (ok (content, size)) =
      pure (record (answer 200) { docker_content_digest = digest; content = bytes content })
  send_blob digest (err e) = pure (not_found_or_500 e)

  unfoldable pub blobs_get : Handler S
  blobs_get r s =
      if not (is_name r.name)
      then (ok (answer 400), s)
      else if not (is_digest r.digest)
      then (ok (answer 400), s)
      else if not (allowed m r (codes "blobs") r.name (codes "GET"))
      then (ok (challenge_request r), s)
      else settle (send_blob r.digest) (ds.blobs_get r.name r.digest s)

  abbrev pub accepted : Result (Unit {0}) → Action S Response
  accepted (ok u) = pure (answer 202)
  accepted (err e) = pure (not_found_or_500 e)

  unfoldable pub blobs_delete : Handler S
  blobs_delete r s =
      if not (is_name r.name)
      then (ok (answer 400), s)
      else if not (is_digest r.digest)
      then (ok (answer 400), s)
      else if not (allowed m r (codes "blobs") r.name (codes "DELETE"))
      then (ok (challenge_request r), s)
      else settle accepted (ds.blobs_delete r.name r.digest s)
