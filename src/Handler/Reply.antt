-- ===== src/Handler/Reply.antt =====
-- Requests and answers. A request carries the path parameters of its route and the query values and
-- headers that some handler reads, empty where they are missing. An answer is its status and what
-- the registry puts into it; the status line is written once, before the body.
use simple_registry.Base.{
  ℕ, Bool, Option, none, List, [], ◌==◌, nat_eq, list_eq, Text, Result, ok, err, Action, panic,
  if◌then◌else◌,
}
use simple_registry.Handler.Access.{Server, is_request_allowed}

pub record Request : Type 0 where
  pub authorization : Text
  pub now : ℕ
  pub name : Text
  pub digest : Text
  pub uuid : Text
  pub reference : Text
  pub query_mount : Text
  pub query_from : Text
  -- The value of `digest` in the query, if it has one.
  pub query_digest : Option Text
  pub query_last : Text
  pub query_n : Text
  pub content_type : Text
  pub content_length : Text
  pub content_range : Text
  pub body : Text

pub data Code : Type 0 where
  blob_upload_invalid blob_upload_unknown digest_wrong name_invalid size_invalid unauthorized : Code
  denied : Code

pub data Body : Type 0 where
  no_body : Body
  bytes : Text → Body
  problem : Code → Body
  listing : List Text → Body

pub record Response : Type 0 where
  pub status : ℕ
  pub location : Text
  pub docker_content_digest : Text
  -- The header `Range` of an upload: the size that the registry has.
  pub range_size : Option ℕ
  pub oci_subject : Text
  pub content : Body

abbrev pub answer : ℕ → Response
answer n = record {
  status = n;
  location = [];
  docker_content_digest = [];
  range_size = none;
  oci_subject = [];
  content = no_body;
}

abbrev pub refusal : ℕ → Code → Response
refusal n code = record (answer n) { content = problem code }

-- `ChallengeRequest`: 401 with a challenge for a request without credentials, else 403.
unfoldable pub challenge_request : Request → Response
challenge_request r = if r.authorization == [] then answer 401 else refusal 403 denied

-- A handler answers; only a panic leaves it without an answer, and the server's recovery closes
-- the connection.
abbrev pub Handler : Type 0 → Type 0
Handler S = Request → Action S Response

-- What follows a call of the storage: a panic goes on, any other end is handed to the handler.
abbrev pub settle :
    {S A : Type 0} → (Result A → Action S Response) → Result A × S → Result Response × S
settle k (ok a, s) = k (ok a) s
settle k (err panic, s) = (err panic, s)
settle k (err e, s) = k (err e) s

abbrev pub allowed : Server → Request → Text → Text → Text → Bool
allowed m r resource scope verb = is_request_allowed m r.now r.authorization resource scope verb
