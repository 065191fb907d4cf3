-- ===== src/Handler/Uploads.antt =====
-- internal/http/handler/blobs_upload.go, without the handler of POST.
use simple_registry.Base.{
  ℕ, Bool, true, false, not, Option, none, some, [], ◌++◌, ◌&&◌, ◌==◌, nat_eq, list_eq, Text, codes,
  Error, Result, ok, err, Action, pure, digest_mismatch, if◌then◌else◌,
}
use simple_registry.Garbage.Mark.{is_not_exist}
use simple_registry.Handler.Access.{Server}
use simple_registry.Handler.Reply.{
  Request, Response, Handler, answer, refusal, challenge_request, settle, allowed, name_invalid,
  blob_upload_invalid, blob_upload_unknown, digest_wrong, size_invalid,
}
use simple_registry.Http.{parse_request_content_range}
use simple_registry.Storage.{DataStorage}
use simple_registry.Validator.{is_name, is_digest, is_uuid}

abbrev pub octet_stream : Text
octet_stream = codes "application/octet-stream"

-- "/v2/<repo>/blobs/<rest>".
abbrev pub blobs_location : Text → Text → Text
blobs_location repo rest = codes "/v2/" ++ (repo ++ (codes "/blobs/" ++ rest))

abbrev pub is_mismatch : Error → Bool
is_mismatch digest_mismatch = true
is_mismatch _ = false

-- `errors.Is(err, fs.ErrNotExist)`, `errors.Is(err, data.ErrDigestMismatch)`, any other error.
abbrev pub unknown_or_500 : Error → Response
unknown_or_500 e = if is_not_exist e then refusal 404 blob_upload_unknown else answer 500

abbrev pub commit_failed : Error → Response
commit_failed e =
    if is_not_exist e
    then refusal 404 blob_upload_unknown
    else if is_mismatch e
    then refusal 400 digest_wrong
    else answer 500

abbrev pub or_500 : {A S : Type 0} → (A → Action S Response) → Result A → Action S Response
or_500 k (ok a) = k a
or_500 k (err e) = pure (answer 500)

abbrev pub is_set : Text → Bool
is_set t = not (t == [])

module _ {S : Type 0} (m : Server) (ds : DataStorage S) where
  -- The checks that the handlers of an upload session share: name, id, permission.
  abbrev pub session_checks : Text → Request → Action S Response → Action S Response
  session_checks verb r k s =
      if not (is_name r.name)
      then (ok (refusal 400 name_invalid), s)
      else if not (is_uuid r.uuid)
      then (ok (refusal 400 blob_upload_invalid), s)
      else if not (allowed m r (codes "blobs") r.name verb)
      then (ok (challenge_request r), s)
      else k s

  abbrev pub session_state : ℕ → Request → ℕ → Action S Response
  session_state status r size = pure (record (answer status) {
    location = blobs_location r.name (codes "uploads/" ++ r.uuid);
    range_size = some size;
  })

  unfoldable pub blobs_uploads_get : Handler S
  blobs_uploads_get r =
      session_checks (codes "POST") r
        (λ s. settle (or_500 (session_state 204 r)) (ds.blobs_upload_size r.name r.uuid s))

  -- A range that does not parse is no range.
  abbrev pub range_start : Option (ℕ × ℕ) → Option ℕ
  range_start none = none
  range_start (some (start, end)) = some start

  abbrev pub out_of_range : Option ℕ → ℕ → Bool
  out_of_range none size = false
  out_of_range (some start) size = not (start == size)

  abbrev pub patch_write : Request → Option ℕ → Action S Response
  patch_write r start s =
      settle
        (or_500
          (λ u t. settle (or_500 (session_state 202 r)) (ds.blobs_upload_size r.name r.uuid t)))
        (ds.blobs_upload_write r.name r.uuid r.body start s)

  abbrev pub patch_sized : Request → Option ℕ → Result ℕ → Action S Response
  patch_sized r start (ok size) s =
      if out_of_range start size then (ok (refusal 416 size_invalid), s) else patch_write r start s
  patch_sized r start (err e) s = (ok (unknown_or_500 e), s)

  unfoldable pub blobs_uploads_patch : Handler S
  blobs_uploads_patch r s =
      if not (r.content_type == octet_stream)
      then (ok (refusal 400 blob_upload_invalid), s)
      else session_checks (codes "PATCH") r
          (λ t.
            settle (patch_sized r (range_start (parse_request_content_range r.content_range)))
              (ds.blobs_upload_size r.name r.uuid t))
          s

  abbrev pub put_committed : Request → Text → Result (Unit {0}) → Action S Response
  put_committed r digest (ok u) = pure (record (answer 201) {
    location = blobs_location r.name digest;
    docker_content_digest = digest;
  })
  put_committed r digest (err e) = pure (commit_failed e)

  unfoldable pub put_commit : Request → Text → Action S Response
  put_commit r digest s =
      settle (put_committed r digest) (ds.blobs_upload_commit r.name r.uuid digest s)

  abbrev pub put_written : Request → Text → Result (Unit {0}) → Action S Response
  put_written r digest (ok u) = put_commit r digest
  put_written r digest (err e) = pure (unknown_or_500 e)

  -- A PUT may carry the last bytes of the blob.
  unfoldable pub put_session : Request → Text → Action S Response
  put_session r digest s =
      if r.content_type == octet_stream && is_set r.content_length
      then settle (put_written r digest) (
          ds.blobs_upload_write r.name r.uuid r.body
            (range_start (parse_request_content_range r.content_range)) s)
      else put_commit r digest s

  abbrev pub get_or_empty : Option Text → Text
  get_or_empty none = []
  get_or_empty (some t) = t

  unfoldable pub blobs_uploads_put : Handler S
  blobs_uploads_put r s =
      if not (is_name r.name)
      then (ok (refusal 400 name_invalid), s)
      else if not (is_uuid r.uuid)
      then (ok (refusal 400 blob_upload_invalid), s)
      else if not (is_digest (get_or_empty r.query_digest))
      then (ok (refusal 400 digest_wrong), s)
      else if not (allowed m r (codes "blobs") r.name (codes "PUT"))
      then (ok (challenge_request r), s)
      else put_session r (get_or_empty r.query_digest) s

  abbrev cancelled : Result (Unit {0}) → Action S Response
  cancelled (ok u) = pure (answer 204)
  cancelled (err e) = pure (unknown_or_500 e)

  unfoldable pub blobs_uploads_delete : Handler S
  blobs_uploads_delete r =
      session_checks (codes "DELETE") r
        (λ s. settle cancelled (ds.blobs_upload_cancel r.name r.uuid s))
