-- ===== src/Handler/Posts.antt =====
-- internal/http/handler/blobs_upload.go: the handler of POST and its three cases.
use simple_registry.Base.{
  ℕ, not, Option, none, some, [], ◌∷◌, ◌++◌, ◌&&◌, nat_eq, list_eq, Text, codes, Result, ok, err,
  Action, pure, if◌then◌else◌,
}
use simple_registry.Garbage.Mark.{is_not_exist}
use simple_registry.Handler.Access.{Server}
use simple_registry.Handler.Reply.{
  Request, Response, Handler, answer, refusal, challenge_request, settle, allowed, name_invalid,
  digest_wrong, unauthorized,
}
use simple_registry.Storage.{DataStorage}
use simple_registry.Validator.{is_name, is_digest}
use simple_registry.Handler.Uploads.{blobs_location, is_mismatch, or_500, is_set}

module _ {S : Type 0} (m : Server) (ds : DataStorage S) where
  abbrev session_started : Text → Text → Action S Response
  session_started repo uuid = pure (record (answer 202) {
    location = blobs_location repo (codes "uploads/" ++ uuid);
    range_size = some 0;
  })

  -- `blobsUploadsPostThenPut`.
  unfoldable pub post_then_put : Text → Action S Response
  post_then_put repo s = settle (or_500 (session_started repo)) (ds.blobs_upload_create repo s)

  abbrev mounted : Text → Text → Unit {0} → Action S Response
  mounted repo mount u =
      pure (record (answer 201) {
        location = blobs_location repo mount;
        docker_content_digest = mount;
      })

  abbrev mount_write : Text → Text → Text → Text → Action S Response
  mount_write repo mount content uuid s =
      settle
        (or_500
          (λ u t. settle (or_500 (mounted repo mount)) (ds.blobs_upload_commit repo uuid mount t)))
        (ds.blobs_upload_write repo uuid content none s)

  abbrev after_mount_source : Text → Text → Result (Text × ℕ) → Action S Response
  after_mount_source repo mount (ok (content, size)) s =
      settle (or_500 (mount_write repo mount content)) (ds.blobs_upload_create repo s)
  after_mount_source repo mount (err e) s =
      if is_not_exist e then post_then_put repo s else (ok (answer 500), s)

  -- `blobsUploadsPostMount`: a blob that is not there begins an upload session instead.
  unfoldable pub post_mount : Text → Text → Text → Action S Response
  post_mount repo source mount s =
      settle (after_mount_source repo mount) (ds.blobs_get source mount s)

  abbrev pub after_single_commit : Text → Text → Text → Result (Unit {0}) → Action S Response
  after_single_commit repo uuid digest (ok u) s =
      (ok (record (answer 201) { location = blobs_location repo digest }), s)
  after_single_commit repo uuid digest (err e) s =
      settle (λ dropped t. (ok (if is_mismatch e then refusal 400 digest_wrong else answer 500), t))
        (ds.blobs_upload_cancel repo uuid s)

  abbrev pub single_write : Text → Text → Text → Text → Action S Response
  single_write repo digest body uuid s =
      settle
        (or_500 (λ u t.
          settle (after_single_commit repo uuid digest)
            (ds.blobs_upload_commit repo uuid digest t)))
        (ds.blobs_upload_write repo uuid body (some 0) s)

  -- `blobsUploadsPostSingle`: a commit that fails cancels the session.
  unfoldable pub post_single : Text → Text → Text → Action S Response
  post_single repo digest body s =
      settle (or_500 (single_write repo digest body)) (ds.blobs_upload_create repo s)

  -- The cases behind the checks of `BlobsUploadsPost`.
  unfoldable pub post_case : Request → Text → Text → Option Text → Action S Response
  post_case r (c ∷ mount) source query s =
      if not (allowed m r (codes "blobs") source (codes "GET"))
      then (ok (refusal 401 unauthorized), s)
      else post_mount r.name source (c ∷ mount) s
  post_case r [] source (some digest) s =
      if not (is_digest digest)
      then (ok (refusal 400 digest_wrong), s)
      else post_single r.name digest r.body s
  post_case r [] source none s = post_then_put r.name s

  unfoldable pub blobs_uploads_post : Handler S
  blobs_uploads_post r s =
      if not (is_name r.name)
      then (ok (refusal 400 name_invalid), s)
      else if not (allowed m r (codes "blobs") r.name (codes "POST"))
      then (ok (challenge_request r), s)
      else if is_set r.query_mount && not (is_digest r.query_mount)
      then (ok (refusal 400 digest_wrong), s)
      else if is_set r.query_from && not (is_name r.query_from)
      then (ok (refusal 400 name_invalid), s)
      else post_case r r.query_mount r.query_from r.query_digest s
