-- ===== src/Handler/Tokens/Tests.antt =====
-- A token that the server hands out, and a request that bears it.
use simple_registry.Base.{
  true, some, [], ◌∷◌, ◌++◌, ◌≡◌, refl, nat_eq, list_eq, list_beq, codes, any,
}
use simple_registry.Rbac.{Engine, is_allowed, has_user}
use simple_registry.Handler.Access.{Crypto, Server, is_request_allowed, generate_token}
use simple_registry.Handler.Tokens.{Encodes, token, issued, is_request_allowed-token}

-- Encodings that are good for one payload.
abbrev one_payload : Crypto
one_payload = record {
  basic_auth = λ t. some (codes "u", codes "p");
  sign = λ t. codes "c2ln";
  decode_claims = λ t. some (record { sub = some (codes "u"); iat = some 5 });
  encode_payload = λ user scope t. codes "cGF5";
  compare_password = λ hash pwd. true;
}

abbrev rules : Engine
rules = record {
  tokens = [];
  users = record { name = codes "u"; password_hash = []; groups = [] } ∷ [];
  roles = [];
  role_bindings = [];
}

abbrev server : Server
server = record { rbac = rules; crypto = one_payload; token_timeout = 30000000000 }

one_payload-Encodes : Encodes one_payload (codes "u") (codes "s") 5
one_payload-Encodes = record {
  payload_safe = (refl, (refl, (refl, (refl, tt))));
  sign_safe = λ text. (refl, (refl, (refl, (refl, tt))));
  decoded = refl;
}

is_request_allowed-token_example :
    is_request_allowed server 6000000000
      (codes "Bearer " ++ generate_token one_payload 5 (codes "u") (codes "s"))
      (codes "blobs")
      (codes "r")
      (codes "GET")
    ≡ is_allowed rules (codes "u") (codes "blobs") (codes "r") (codes "GET")
is_request_allowed-token_example =
    is_request_allowed-token server (codes "u") (codes "s") 5 one_payload-Encodes 6000000000
      (codes "blobs") (codes "r") (codes "GET") refl

handed_out :
    token server 5 (codes "Basic dTpw") (codes "s" ∷ [])
    ≡ issued (generate_token one_payload 5 (codes "u") (codes "s"))
unfolding token has_user any list_beq
handed_out = refl
