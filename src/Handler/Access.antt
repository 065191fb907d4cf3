-- ===== src/Handler/Access.antt =====
-- internal/http/handler/token.go and `IsValidAuth`: basic and bearer authentication, and the
-- decision whether a request is allowed.
pub mod Laws
mod Tests
use simple_registry.Base.{
  ℕ, ◌+◌, ◌-◌, ◌*◌, Bool, true, false, not, Option, none, some, List, [], ◌∷◌, ◌++◌, ◌&&◌, ◌||◌,
  ◌==◌, nat_eq, list_eq, Text, codes, if◌then◌else◌, ltb, drop, leb,
}
use simple_registry.Regex.{Regex, class, seq, many, some_of, opt, up_to, lit, match_string}
use simple_registry.Validator.{letter_digit, one_of}
use simple_registry.Proxy.Challenge.{split_on, cut_prefix}
use simple_registry.Rbac.{
  Engine, ComparePassword, has_user, is_anonymous_user_enabled, is_allowed, anonymous_username,
}

-- The claims of a token that the registry reads: the subject, if it is a string, and the time of
-- issue in seconds, if it is a number.
pub record Claims : Type 0 where
  pub sub : Option Text
  pub iat : Option ℕ

-- The standard library's decoders and its keyed hash, with the registry's secret put in.
pub record Crypto : Type 0 where
  -- `Request.BasicAuth` of an `Authorization` header.
  pub basic_auth : Text → Option (Text × Text)
  -- HMAC-SHA512 under the secret, in unpadded base64url.
  pub sign : Text → Text
  -- Unpadded base64url decoding, and `json.Unmarshal` into a map.
  pub decode_claims : Text → Option Claims
  -- The payload that `GenerateToken` signs, for a subject, a scope and a time, in base64url.
  pub encode_payload : Text → Text → ℕ → Text
  pub compare_password : ComparePassword

pub record Server : Type 0 where
  pub rbac : Engine
  pub crypto : Crypto
  -- In nanoseconds.
  pub token_timeout : ℕ

abbrev white_space : List (ℕ × ℕ)
white_space = one_of (9 ∷ 10 ∷ 12 ∷ 13 ∷ 32 ∷ [])

-- `^Basic\s+([a-zA-Z0-9+/]+={0,2})$` and `^Bearer\s+([a-zA-Z0-9._+/=-]+)$`.
abbrev pub expr_basic : Regex
expr_basic = seq (lit (codes "Basic")) (
    seq (some_of (class white_space))
      (seq (some_of (class (letter_digit ++ one_of (codes "+/")))) (up_to 2 (lit (codes "=")))))

abbrev pub expr_bearer : Regex
expr_bearer =
    seq (lit (codes "Bearer")) (
      seq (some_of (class white_space)) (some_of (class (letter_digit ++ one_of (codes "._+/=-")))))

unfoldable pub is_basic : Text → Bool
is_basic auth = match_string expr_basic auth

unfoldable pub is_bearer : Text → Bool
is_bearer auth = match_string expr_bearer auth

abbrev is_white : ℕ → Bool
is_white c = leb 9 c && leb c 10 || leb 12 c && leb c 13 || c == 32

abbrev skip_white : Text → Text
skip_white [] = []
skip_white (c ∷ s) = if is_white c then skip_white s else c ∷ s

-- The group of the bearer expression: what follows the scheme and the white space.
unfoldable pub bearer_token : Text → Option Text
bearer_token auth = if is_bearer auth then some (skip_white (drop 6 auth)) else none

abbrev pub header_text : Text
header_text = codes "eyJhbGciOiJIUzUxMiIsInR5cCI6IkpXVCJ9"

-- `GenerateToken` at the time `now` in seconds; the encoded header is a constant.
unfoldable pub generate_token : Crypto → ℕ → Text → Text → Text
generate_token c now user scope =
    let input = header_text ++ b'.' ∷ c.encode_payload user scope now in
    input ++ b'.' ∷ c.sign input

abbrev nanoseconds : ℕ
nanoseconds = 1000000000

-- A token expires when it is older than the timeout; one issued in the future is none too old.
abbrev pub is_fresh : ℕ → ℕ → Option ℕ → Bool
is_fresh timeout now none = false
is_fresh timeout now (some iat) = not (ltb timeout (now - iat * nanoseconds))

abbrev pub fresh_claims : ℕ → ℕ → Option Claims → Option Claims
fresh_claims timeout now none = none
fresh_claims timeout now (some claims) =
    if is_fresh timeout now claims.iat then some claims else none

-- The three parts of a token, the signature checked.
unfoldable pub claims_of_parts : Server → ℕ → List Text → Option Claims
claims_of_parts m now (header ∷ payload ∷ signature ∷ []) =
    if signature == m.crypto.sign (header ++ b'.' ∷ payload)
    then fresh_claims m.token_timeout now (m.crypto.decode_claims payload)
    else none
claims_of_parts m now _ = none

abbrev claims_of_token : Server → ℕ → Option Text → Option Claims
claims_of_token m now none = none
claims_of_token m now (some token) = claims_of_parts m now (split_on b'.' token)

-- `GetClaimFromToken` at the time `now` in nanoseconds.
unfoldable pub get_claim_from_token : Server → ℕ → Text → Option Claims
get_claim_from_token m now auth = claims_of_token m now (bearer_token auth)

abbrev is_some {ℓ} : {A : Type ℓ} → Option A → Bool
is_some none = false
is_some (some a) = true

abbrev valid_user : Server → Option (Text × Text) → Bool
valid_user m none = false
valid_user m (some (usr, pwd)) = has_user m.crypto.compare_password m.rbac usr pwd

-- `IsValidAuth`.
unfoldable pub is_valid_auth : Server → ℕ → Text → Bool
is_valid_auth m now auth =
    if is_some (cut_prefix (codes "Bearer ") auth)
    then is_some (get_claim_from_token m now auth)
    else if is_some (cut_prefix (codes "Basic ") auth)
    then valid_user m (m.crypto.basic_auth auth)
    else false

abbrev allowed_basic : Server → Option (Text × Text) → Text → Text → Text → Bool
allowed_basic m none resource scope verb = false
allowed_basic m (some (usr, pwd)) resource scope verb =
    if has_user m.crypto.compare_password m.rbac usr pwd
    then is_allowed m.rbac usr resource scope verb
    else false

-- `isBasicAuthAllowed`.
unfoldable pub is_basic_auth_allowed : Server → Text → Text → Text → Text → Bool
is_basic_auth_allowed m auth resource scope verb =
    allowed_basic m (m.crypto.basic_auth auth) resource scope verb

abbrev allowed_subject : Server → Option Text → Text → Text → Text → Bool
allowed_subject m none resource scope verb = false
allowed_subject m (some username) resource scope verb =
    is_allowed m.rbac username resource scope verb

abbrev allowed_claims : Server → Option Claims → Text → Text → Text → Bool
allowed_claims m none resource scope verb = false
allowed_claims m (some claims) resource scope verb =
    allowed_subject m claims.sub resource scope verb

-- `isBearerAllowed`.
unfoldable pub is_bearer_allowed : Server → ℕ → Text → Text → Text → Text → Bool
is_bearer_allowed m now auth resource scope verb =
    allowed_claims m (get_claim_from_token m now auth) resource scope verb

-- `IsRequestAllowed` of a request with the header `auth`.
unfoldable pub is_request_allowed : Server → ℕ → Text → Text → Text → Text → Bool
is_request_allowed m now auth resource scope verb =
    if is_basic auth
    then is_basic_auth_allowed m auth resource scope verb
    else if is_bearer auth
    then is_bearer_allowed m now auth resource scope verb
    else if is_anonymous_user_enabled m.rbac
    then is_allowed m.rbac anonymous_username resource scope verb
    else false
