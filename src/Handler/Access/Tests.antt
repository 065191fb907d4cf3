-- ===== src/Handler/Access/Tests.antt =====
-- A signed token of a user of the sample engine.
use simple_registry.Base.{
  true, false, none, some, nat_eq, list_eq, list_beq, any, contains, first, Text, codes, ◌≡◌, refl,
}
use simple_registry.Regex.{match_string}
use simple_registry.Proxy.Challenge.{split_on}
use simple_registry.Rbac.{is_allowed, user_allowed, binding_matches, role_matches, subject_matches}
use simple_registry.Sample.{sample_engine}
use simple_registry.Handler.Access.{
  Claims, Crypto, Server, is_basic, is_bearer, bearer_token, claims_of_parts, get_claim_from_token,
  is_bearer_allowed, is_request_allowed,
}
use simple_registry.Handler.Access.Laws.{Signed, bearer-Signed}

abbrev token_crypto : Crypto
token_crypto = record {
  basic_auth = λ a. none;
  sign = λ t. codes "s";
  decode_claims = λ p. some (record { sub = some (codes "ann"); iat = some 5 });
  encode_payload = λ u s n. codes "p";
  compare_password = λ h p. false;
}

abbrev token_server : Server
token_server = record { rbac = sample_engine; crypto = token_crypto; token_timeout = 100 }

abbrev token_header : Text
token_header = codes "Bearer h.p.s"

is_basic_token : is_basic token_header ≡ false
unfolding is_basic match_string any
is_basic_token = refl

is_bearer_token : is_bearer token_header ≡ true
unfolding is_bearer match_string any
is_bearer_token = refl

token_allowed :
    is_request_allowed token_server 7 token_header (codes "blobs") (codes "library") (codes "GET")
    ≡ true
unfolding is_request_allowed is_basic is_bearer match_string any is_bearer_allowed
    get_claim_from_token bearer_token split_on claims_of_parts is_allowed user_allowed
    binding_matches role_matches subject_matches first contains list_beq
token_allowed = refl

bearer-Signed_example :
    (token : Text) × (claims : Claims) × (user : Text) × (bearer_token token_header ≡ some token)
    × Signed token_server 7 token claims
    × (claims.sub ≡ some user)
    × (is_allowed sample_engine user (codes "blobs") (codes "library") (codes "GET") ≡ true)
bearer-Signed_example =
    bearer-Signed token_server 7 token_header (codes "blobs") (codes "library") (codes "GET")
      is_basic_token is_bearer_token token_allowed
