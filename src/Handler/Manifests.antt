-- ===== src/Handler/Manifests.antt =====
-- internal/http/handler/manifests.go.
use simple_registry.Base.{
  ℕ, Bool, true, false, not, Option, none, some, [], ◌∷◌, ◌++◌, nat_eq, list_eq, Text, codes, Error,
  Result, ok, err, Action, pure, repo_invalid, digest_invalid, if◌then◌else◌,
}
use simple_registry.Filesystem.Layout.{Library}
use simple_registry.Handler.Access.{Server}
use simple_registry.Handler.Blobs.{not_found_or_500}
use simple_registry.Handler.Reply.{
  Request, Response, Handler, answer, challenge_request, settle, allowed, bytes,
}
use simple_registry.Oci.{ImageManifest, DescriptorManifest}
use simple_registry.Storage.{DataStorage}
use simple_registry.Validator.{is_name, is_digest, is_tag}

-- The scope that the access rules see: the repository for a digest, `repo:tag` for a tag, and
-- nothing for a reference that is neither.
unfoldable pub rbac_repo : Text → Text → Option Text
rbac_repo repo reference =
    if is_digest reference
    then some repo
    else if is_tag reference
    then some (repo ++ b':' ∷ reference)
    else none

abbrev pub is_bad_request : Error → Bool
is_bad_request repo_invalid = true
is_bad_request (digest_invalid e) = true
is_bad_request _ = false

module _ {S : Type 0} (m : Server) (lib : Library) (ds : DataStorage S) where
  abbrev pub permitted : Request → Text → Option Text → Action S Response → Action S Response
  permitted r verb none k s = (ok (answer 400), s)
  permitted r verb (some scope) k s =
      if not (allowed m r (codes "manifests") scope verb)
      then (ok (challenge_request r), s)
      else k s

  -- The checks that the three handlers share: name, reference, permission.
  unfoldable pub manifest_checks : Text → Request → Action S Response → Action S Response
  manifest_checks verb r k s =
      if not (is_name r.name)
      then (ok (answer 400), s)
      else permitted r verb (rbac_repo r.name r.reference) k s

  abbrev send_manifest : Result (Text × ℕ × Text) → Action S Response
  send_manifest (ok (content, size, digest)) =
      pure (record (answer 200) { docker_content_digest = digest; content = bytes content })
  send_manifest (err e) = pure (not_found_or_500 e)

  unfoldable pub manifests_get : Handler S
  manifests_get r =
      manifest_checks (codes "GET") r
        (λ s. settle send_manifest (ds.manifest_get r.name r.reference s))

  abbrev subject_digest : Option DescriptorManifest → Text
  subject_digest none = []
  subject_digest (some d) = d.digest

  abbrev pub put_answer : Text → Text → Option ImageManifest → Response
  put_answer repo digest none = answer 500
  put_answer repo digest (some manifest) = record (answer 201) {
    location = codes "/v2/" ++ (repo ++ (codes "/manifests/" ++ digest));
    docker_content_digest = digest;
    oci_subject = subject_digest manifest.subject;
  }

  abbrev pub reread : Text → Text → Result (Text × ℕ × Text) → Action S Response
  reread repo digest (ok (content, size, d)) =
      pure (put_answer repo digest (lib.decode_first_image content))
  reread repo digest (err e) = pure (not_found_or_500 e)

  abbrev pub stored : Request → Result Text → Action S Response
  stored r (ok digest) s = settle (reread r.name digest) (ds.manifest_get r.name r.reference s)
  stored r (err e) s = (ok (if is_bad_request e then answer 400 else answer 500), s)

  -- The manifest that has been put is read again, by the reference of the request.
  unfoldable pub manifests_put : Handler S
  manifests_put r =
      manifest_checks (codes "PUT") r
        (λ s. settle (stored r) (ds.manifest_put r.name r.reference r.body s))

  abbrev deleted : Result (Unit {0}) → Action S Response
  deleted (ok u) = pure (answer 202)
  deleted (err e) = pure (if is_bad_request e then answer 400 else not_found_or_500 e)

  unfoldable pub manifests_delete : Handler S
  manifests_delete r =
      manifest_checks (codes "DELETE") r
        (λ s. settle deleted (ds.manifest_delete r.name r.reference s))
