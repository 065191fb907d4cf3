-- ===== src/Handler/Tokens.antt =====
-- internal/http/handler/token.go: the handler that hands out tokens, and what they are good for.
mod Tests
use simple_registry.Base.{
  ℕ, ◌-◌, ◌*◌, Bool, true, false, not, ◌&&◌, ◌||◌, Option, none, some, List, [], ◌∷◌, ◌++◌, ◌==◌,
  nat_eq, list_eq, Text, codes, ◌≡◌, ◌≢◌, refl, sym, ◌∙◌, ap, subst, inl, inr, In, All, All-append,
  Bool-cases, Option-cases, if◌then◌else◌, ltb, leb, drop, ==_of_ne, ==_refl, ==-cases, arith,
  append_assoc,
}
use simple_registry.Proxy.Challenge.{split_on, cut_prefix}
use simple_registry.Regex.{Regex, nothing, class, seq, many, some_of, lit, in_class, match_string}
use simple_registry.Regex.Laws.{
  Matches, m_class, m_seq, m_none, m_more, m_empty, match_string_iff, seq_inv, class_inv,
}
use simple_registry.Validator.{letter_digit, one_of}
use simple_registry.Rbac.{is_allowed, has_user}
use simple_registry.Handler.Access.{
  Claims, Crypto, Server, is_fresh, fresh_claims, claims_of_parts, get_claim_from_token,
  is_bearer_allowed, is_basic, is_bearer, is_request_allowed, generate_token, header_text,
  bearer_token, expr_basic, expr_bearer,
}

-- What the handler answers.
pub data TokenReply : Type 0 where
  unauthorized forbidden : TokenReply
  issued : Text → TokenReply

abbrev pub join_spaces : List Text → Text
join_spaces [] = []
join_spaces (s ∷ []) = s
join_spaces (s ∷ t ∷ scopes) = s ++ b' ' ∷ join_spaces (t ∷ scopes)

abbrev reply_to : Server → ℕ → Option (Text × Text) → List Text → TokenReply
reply_to m now none scopes = unauthorized
reply_to m now (some (usr, pwd)) scopes =
    if has_user m.crypto.compare_password m.rbac usr pwd
    then issued (generate_token m.crypto now usr (join_spaces scopes))
    else forbidden

-- `Token`, of the `Authorization` header and the scopes of the query, at the time `now` in seconds.
-- That `GenerateToken` fails, where JSON cannot encode two texts and a number, is left out.
unfoldable pub token : Server → ℕ → Text → List Text → TokenReply
token m now auth scopes = reply_to m now (m.crypto.basic_auth auth) scopes

-- A digit of unpadded base64url.
abbrev pub url_safe : List (ℕ × ℕ)
url_safe = letter_digit ++ one_of (codes "_-")

abbrev pub IsUrlSafe : Text → Type 0
IsUrlSafe = All (λ c. in_class url_safe c ≡ true)

-- What is documented of the encodings, for one payload: their alphabet, and that decoding undoes
-- encoding.
pub record Encodes (c : Crypto) (user scope : Text) (t : ℕ) : Type 0 where
  pub payload_safe : IsUrlSafe (c.encode_payload user scope t)
  pub sign_safe : (text : Text) → IsUrlSafe (c.sign text)
  pub decoded :
      c.decode_claims (c.encode_payload user scope t)
      ≡ some (record { sub = some user; iat = some t })

safe_no_dot : (c : ℕ) → in_class url_safe c ≡ true → c ≢ b'.'
safe_no_dot c h e = ground (arith, h, e)

safe_bearer :
    (c : ℕ)
    → in_class url_safe c ≡ true
    → in_class (letter_digit ++ one_of (codes "._+/=-")) c ≡ true
safe_bearer c h = ground (arith, h)

-- A dot ends the first part of a split.
split_on-dot :
    (p rest : Text) → IsUrlSafe p → split_on b'.' (p ++ b'.' ∷ rest) ≡ p ∷ split_on b'.' rest
unfolding split_on
split_on-dot [] rest h = refl
split_on-dot (c ∷ p) rest h =
    rw (==_of_ne {a = c} {b = b'.'} (safe_no_dot c h.0), split_on-dot p rest h.1) refl

split_on-last : (p : Text) → IsUrlSafe p → split_on b'.' p ≡ p ∷ []
unfolding split_on
split_on-last [] h = refl
split_on-last (c ∷ p) h =
    rw (==_of_ne {a = c} {b = b'.'} (safe_no_dot c h.0), split_on-last p h.1) refl

-- The texts of the bearer expression.
abbrev bearer_class : List (ℕ × ℕ)
bearer_class = letter_digit ++ one_of (codes "._+/=-")

many-class :
    (s : Text) → All (λ c. in_class bearer_class c ≡ true) s → Matches (many (class bearer_class)) s
many-class [] h = m_none refl
many-class (c ∷ s) h = m_more (c ∷ []) s refl (m_class c refl h.0) (many-class s h.1)

bearer_word : match_string (lit (codes "Bearer")) (codes "Bearer") ≡ true
unfolding match_string
bearer_word = refl

-- A header "Bearer " before a text of that class, which is not empty.
bearer_header :
    (c : ℕ) (s : Text)
    → All (λ x. in_class bearer_class x ≡ true) (c ∷ s)
    → is_bearer (codes "Bearer " ++ c ∷ s) ≡ true
unfolding is_bearer
bearer_header c s h = (match_string_iff expr_bearer _).1 (
    m_seq (codes "Bearer") (b' ' ∷ c ∷ s) refl
      ((match_string_iff (lit (codes "Bearer")) (codes "Bearer")).0 bearer_word)
      (m_seq (b' ' ∷ []) (c ∷ s) refl
        (m_seq (b' ' ∷ []) [] refl (m_class b' ' refl refl) (m_none refl))
        (m_seq (c ∷ []) s refl (m_class c refl h.0) (many-class s h.1))))

match_nothing : (s : Text) → match_string nothing s ≡ false
unfolding match_string
match_nothing [] = refl
match_nothing (c ∷ s) = match_nothing s

not_basic_header : (s : Text) → is_basic (codes "Bearer " ++ s) ≡ false
unfolding is_basic match_string
not_basic_header s = match_nothing (codes "arer " ++ s)

abbrev all_in : List (ℕ × ℕ) → Text → Bool
all_in cs [] = true
all_in cs (c ∷ s) = in_class cs c && all_in cs s

all_in_sound :
    (cs : List (ℕ × ℕ)) (s : Text) → all_in cs s ≡ true → All (λ c. in_class cs c ≡ true) s
all_in_sound cs [] h = tt
all_in_sound cs (c ∷ s) h = (ground (arith, h), all_in_sound cs s (ground (arith, h)))

safe-bearer : (s : Text) → IsUrlSafe s → All (λ c. in_class bearer_class c ≡ true) s
safe-bearer [] h = tt
safe-bearer (c ∷ s) h = (safe_bearer c h.0, safe-bearer s h.1)

header-IsUrlSafe : IsUrlSafe header_text
header-IsUrlSafe = all_in_sound url_safe header_text refl

module _ (m : Server) (user scope : Text) (t : ℕ) (encodes : Encodes m.crypto user scope t) where
  abbrev payload : Text
  payload = m.crypto.encode_payload user scope t

  abbrev signature : Text
  signature = m.crypto.sign (header_text ++ b'.' ∷ payload)

  whole : generate_token m.crypto t user scope ≡ header_text ++ b'.' ∷ (payload ++ b'.' ∷ signature)
  unfolding generate_token
  whole = append_assoc header_text (b'.' ∷ payload) (b'.' ∷ signature)

  whole-bearer :
      All
        (λ c. in_class bearer_class c ≡ true)
        (header_text ++ b'.' ∷ (payload ++ b'.' ∷ signature))
  whole-bearer =
      let P : ℕ → Type 0 = λ c. in_class bearer_class c ≡ true in
      All-append P header_text (b'.' ∷ (payload ++ b'.' ∷ signature))
        (safe-bearer header_text header-IsUrlSafe)
        (
          refl,
          All-append P payload (b'.' ∷ signature) (safe-bearer payload encodes.payload_safe)
              (refl, safe-bearer signature (encodes.sign_safe (header_text ++ b'.' ∷ payload))),
        )

  whole-parts :
      split_on b'.' (header_text ++ b'.' ∷ (payload ++ b'.' ∷ signature))
      ≡ header_text ∷ payload ∷ signature ∷ []
  whole-parts =
      split_on-dot header_text (payload ++ b'.' ∷ signature) header-IsUrlSafe
      ∙ ap (λ l. header_text ∷ l) (split_on-dot payload signature encodes.payload_safe)
      ∙ ap (λ l. header_text ∷ payload ∷ l)
          (split_on-last signature (encodes.sign_safe (header_text ++ b'.' ∷ payload)))

  is_bearer-whole :
      is_bearer (codes "Bearer " ++ (header_text ++ b'.' ∷ (payload ++ b'.' ∷ signature))) ≡ true
  is_bearer-whole = bearer_header b'e' _ whole-bearer

  bearer_token-whole :
      bearer_token (codes "Bearer " ++ (header_text ++ b'.' ∷ (payload ++ b'.' ∷ signature)))
      ≡ some (header_text ++ b'.' ∷ (payload ++ b'.' ∷ signature))
  unfolding bearer_token
  bearer_token-whole = rw is_bearer-whole refl

  -- While a token that the server has issued is not too old, a request that bears it is allowed
  -- exactly what the access rules allow its user.
  pub is_request_allowed-token :
      (now : ℕ) (resource space verb : Text)
      → is_fresh m.token_timeout now (some t) ≡ true
      → is_request_allowed m now
          (codes "Bearer " ++ generate_token m.crypto t user scope)
          resource
          space
          verb
        ≡ is_allowed m.rbac user resource space verb
  unfolding is_request_allowed is_bearer_allowed get_claim_from_token claims_of_parts
  is_request_allowed-token now resource space verb fresh =
      rw
        (
          whole,
          not_basic_header (header_text ++ b'.' ∷ (payload ++ b'.' ∷ signature)),
          is_bearer-whole,
          bearer_token-whole,
          whole-parts,
          ==_refl signature,
          encodes.decoded,
          fresh,
        )
        refl
