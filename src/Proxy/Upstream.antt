-- ===== src/Proxy/Upstream.antt =====
-- internal/data/proxy/internals.go and auth.go: requests to an upstream registry. The network is
-- the function `send`, from a request to the answer or nothing where the client reports an error.
use simple_registry.Base.{
  ℕ, Bool, true, false, Option, none, some, List, [], ◌∷◌, ◌++◌, map, ◌||◌, ◌==◌, nat_eq, list_eq,
  Text, codes, Result, ok, err, not_exist, upstream_error, wrapped, panic, if◌then◌else◌,
}
use simple_registry.MapSet.{join_comma}
use simple_registry.Oci.{
  ImageIndexManifest, media_type_oci_image_manifest, media_type_docker_image_manifest,
  media_type_oci_image_index, media_type_docker_manifest_list,
}
use simple_registry.Proxy.Challenge.{trim_right_of, BearerChallenge, parse_bearer_challenge}

pub record Proxy : Type 0 where
  pub url : Text
  pub username : Text
  pub password : Text
  pub scopes : List Text

pub record UpstreamRequest : Type 0 where
  pub method : Text
  pub url : Text
  pub accept : Text
  pub basic_auth : Option (Text × Text)
  pub bearer : Option Text

pub record UpstreamResponse : Type 0 where
  pub status : ℕ
  pub www_authenticate : Text
  pub docker_content_digest : Text
  pub body : Text

pub record Network : Type 0 where
  pub send : UpstreamRequest → Option UpstreamResponse
  -- The realm's URL with the query values `service` and `scope` set, where they are not empty;
  -- nothing for a realm that is no URL.
  pub token_url : Text → Text → Text → Option Text
  -- The fields `token` and `access_token` of a JSON object.
  pub decode_token : Text → Option (Text × Text)
  pub decode_tags : Text → Option (List Text)
  pub decode_index : Text → Option ImageIndexManifest
  -- `regexp.MustCompile`: nothing for an expression that does not compile.
  pub compile : Text → Option (Text → Bool)

abbrev pub credentials : Proxy → Option (Text × Text)
credentials p = if p.username == [] then none else some (p.username, p.password)

module _ (net : Network) where
  abbrev pub scope_matches : Text → Option (Text → Bool) → Result Bool
  scope_matches repo none = err panic
  scope_matches repo (some re) = ok (re repo)

  unfoldable pub matches_any : Text → List Text → Result Bool
  matches_any repo [] = ok false
  matches_any repo (scope ∷ scopes) =
      let later = matches_any repo scopes in
      elim (scope_matches repo (net.compile scope)) [
        | ok b ↦ if b then ok true else later
        | err e ↦ err e
      ]

  -- `MatchProxy`: the first proxy with a scope that matches the repository.
  unfoldable pub match_proxy : Text → List Proxy → Result (Option Proxy)
  match_proxy repo [] = ok none
  match_proxy repo (p ∷ proxies) =
      let later = match_proxy repo proxies in
      elim (matches_any repo p.scopes) [ ok b ↦ if b then ok (some p) else later | err e ↦ err e ]

  -- `NewUpstreamRequest`.
  abbrev pub new_upstream_request : Proxy → Text → Text → List Text → UpstreamRequest
  new_upstream_request p method url accept = record {
    method = method;
    url = url;
    accept = join_comma accept;
    basic_auth = credentials p;
    bearer = none;
  }

  abbrev pub or_wrapped {ℓ} : {A : Type ℓ} → Option A → Result A
  or_wrapped none = err wrapped
  or_wrapped (some a) = ok a

  infixl 5 ◌>>=ᵣ◌
  abbrev pub ◌>>=ᵣ◌ {ℓ κ} : {A : Type ℓ} {B : Type κ} → Result A → (A → Result B) → Result B
  ok a >>=ᵣ f = f a
  err e >>=ᵣ f = err e

  abbrev pick_token : Text × Text → Text
  pick_token (token, access_token) = if token == [] then access_token else token

  abbrev pub token_of : UpstreamResponse → Result Text
  token_of resp =
      if resp.status == 200
      then or_wrapped (net.decode_token resp.body) >>=ᵣ (λ t. ok (pick_token t))
      else err wrapped

  -- `FetchBearerToken`.
  unfoldable pub fetch_bearer_token : Proxy → BearerChallenge → Result Text
  fetch_bearer_token p ch = or_wrapped (net.token_url ch.realm ch.service ch.scope) >>=ᵣ (λ url.
      or_wrapped (net.send (new_upstream_request p (codes "GET") url [])) >>=ᵣ token_of)

  -- `DoUpstreamRequest`: an answer 401 is followed by one more try, with a bearer token.
  unfoldable pub authorize : Proxy → UpstreamRequest → UpstreamResponse → Result UpstreamResponse
  authorize p req resp =
      if resp.status == 401
      then parse_bearer_challenge resp.www_authenticate >>=ᵣ (λ ch.
        fetch_bearer_token p ch
        >>=ᵣ (λ token. or_wrapped (net.send (record req { bearer = some token }))))
      else ok resp

  unfoldable pub do_upstream_request : Proxy → UpstreamRequest → Result UpstreamResponse
  do_upstream_request p req = or_wrapped (net.send req) >>=ᵣ authorize p req

  abbrev manifest_accept : List Text
  manifest_accept =
      media_type_oci_image_manifest ∷ media_type_oci_image_index ∷ media_type_docker_image_manifest
      ∷ media_type_docker_manifest_list ∷ []

  -- `%s/v2/%s/<kind>/%s`, without the slashes at the end of the registry's URL.
  abbrev resource_url : Proxy → Text → Text → Text → Text
  resource_url p repo kind name =
      trim_right_of b'/' p.url
      ++ (codes "/v2/" ++ (repo ++ (codes "/" ++ (kind ++ (codes "/" ++ name)))))

  abbrev body_of : UpstreamResponse → Result Text
  body_of resp =
      if resp.status == 404 || resp.status == 401
      then err not_exist
      else if resp.status == 200
      then ok resp.body
      else err upstream_error

  unfoldable pub fetch_manifest : Proxy → Text → Text → Result Text
  fetch_manifest p repo reference =
      do_upstream_request p (
        new_upstream_request p (codes "GET") (resource_url p repo (codes "manifests") reference)
          manifest_accept)
      >>=ᵣ body_of

  unfoldable pub fetch_blob : Proxy → Text → Text → Result Text
  fetch_blob p repo digest =
      do_upstream_request p
        (new_upstream_request p (codes "GET") (resource_url p repo (codes "blobs") digest) [])
      >>=ᵣ body_of

  abbrev decoded {ℓ} : {A : Type ℓ} → (Text → Option A) → UpstreamResponse → Result A
  decoded decode resp =
      if resp.status == 404
      then err not_exist
      else if resp.status == 200
      then or_wrapped (decode resp.body)
      else err upstream_error

  unfoldable pub fetch_tags : Proxy → Text → Result (List Text)
  fetch_tags p repo =
      do_upstream_request p (
        new_upstream_request p (codes "GET") (resource_url p repo (codes "tags") (codes "list")) [])
      >>=ᵣ decoded net.decode_tags

  -- The URL of the referrers keeps the slashes at the end of the registry's URL.
  unfoldable pub fetch_referrers : Proxy → Text → Text → Result (List Text)
  fetch_referrers p repo digest =
      do_upstream_request p (
        new_upstream_request p (codes "GET")
          (p.url ++ (codes "/v2/" ++ (repo ++ (codes "/referrers/" ++ digest))))
          (media_type_oci_image_index ∷ []))
      >>=ᵣ decoded net.decode_index
      >>=ᵣ (λ m. ok (map (λ d. d.digest) m.manifests))

  abbrev digest_header : UpstreamResponse → Result Text
  digest_header resp =
      if resp.status == 200
      then (if resp.docker_content_digest == [] then err wrapped else ok resp.docker_content_digest)
      else err upstream_error

  unfoldable pub fetch_manifest_digest : Proxy → Text → Text → Result Text
  fetch_manifest_digest p repo reference =
      do_upstream_request p (
        new_upstream_request p (codes "HEAD") (resource_url p repo (codes "manifests") reference)
          manifest_accept)
      >>=ᵣ digest_header
