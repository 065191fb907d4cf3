-- ===== src/Handler/Access/Laws.antt =====
-- What a bearer token must be for a request to be allowed.
use simple_registry.Base.{
  ℕ, Bool, true, false, Option, none, some, List, [], ◌∷◌, ◌++◌, ◌==◌, nat_eq, list_eq, Text, ◌≡◌,
  refl, sym, ◌∙◌, ap, subst, inl, inr, Bool-cases, Option-cases, ◌≢◌, if◌then◌else◌, ==-cases,
}
use simple_registry.Proxy.Challenge.{split_on}
use simple_registry.Rbac.{is_allowed}
use simple_registry.Handler.Access.{
  Claims, Server, bearer_token, is_fresh, fresh_claims, claims_of_parts, get_claim_from_token,
  is_bearer_allowed, is_basic, is_bearer, is_request_allowed,
}

-- The parts of a split, joined again.
abbrev joined : ℕ → List Text → Text
joined c [] = []
joined c (t ∷ []) = t
joined c (t ∷ u ∷ ts) = t ++ c ∷ joined c (u ∷ ts)

-- A token that the server has signed: the text of a header and a payload with their signature.
pub record Signed (m : Server) (now : ℕ) (token : Text) (claims : Claims) : Type 0 where
  pub header : Text
  pub payload : Text
  pub whole : token ≡ header ++ b'.' ∷ (payload ++ b'.' ∷ m.crypto.sign (header ++ b'.' ∷ payload))
  pub decoded : m.crypto.decode_claims payload ≡ some claims
  pub fresh : is_fresh m.token_timeout now claims.iat ≡ true

fresh_claims-some :
    (timeout now : ℕ) (o : Option Claims) {claims : Claims}
    → fresh_claims timeout now o ≡ some claims
    → (o ≡ some claims) × (is_fresh timeout now claims.iat ≡ true)
fresh_claims-some timeout now none h = cc
fresh_claims-some timeout now (some c) {claims} h = elim (Bool-cases (is_fresh timeout now c.iat)) [
  | inl t ↦
      let e : some c ≡ some claims = rw t at h in
      let q : c ≡ claims = cc in (e, subst (λ z. is_fresh timeout now z.iat ≡ true) q t)
  | inr f ↦ absurd (cc (rw f at h))
]

claims_of_parts-Signed :
    (m : Server) (now : ℕ) (parts : List Text) {claims : Claims}
    → claims_of_parts m now parts ≡ some claims
    → Signed m now (joined b'.' parts) claims
unfolding claims_of_parts
claims_of_parts-Signed m now (header ∷ payload ∷ signature ∷ []) h =
    elim (==-cases signature (m.crypto.sign (header ++ b'.' ∷ payload))) [
      | inl (t, e) ↦
          let (d, f) =
            fresh_claims-some m.token_timeout now (m.crypto.decode_claims payload) (rw t at h) in
          record {
            header = header;
            payload = payload;
            whole = ap (λ z. header ++ b'.' ∷ (payload ++ b'.' ∷ z)) e;
            decoded = d;
            fresh = f;
          }
      | inr (f, _) ↦ absurd (cc (rw f at h))
    ]
claims_of_parts-Signed m now [] h = cc
claims_of_parts-Signed m now (a ∷ []) h = cc
claims_of_parts-Signed m now (a ∷ b ∷ []) h = cc
claims_of_parts-Signed m now (a ∷ b ∷ c ∷ d ∷ l) h = cc

-- A byte in front of the first part.
abbrev extended : ℕ → List Text → List Text
extended x [] = (x ∷ []) ∷ []
extended x (p ∷ ps) = (x ∷ p) ∷ ps

step_of :
    (b : Bool) (x : ℕ) (l : List Text)
    → (if b then [] ∷ l else elim l [ [] ↦ (x ∷ []) ∷ [] | p ∷ ps ↦ (x ∷ p) ∷ ps ])
      ≡ (if b then [] ∷ l else extended x l)
step_of b x [] = refl
step_of b x (p ∷ ps) = refl

split_on_step :
    (c x : ℕ) (t : Text)
    → split_on c (x ∷ t) ≡ (if x == c then [] ∷ split_on c t else extended x (split_on c t))
unfolding split_on
split_on_step c x t = step_of (x == c) x (split_on c t)

extended-ne_nil : (x : ℕ) (l : List Text) → extended x l ≢ []
extended-ne_nil x [] h = cc
extended-ne_nil x (p ∷ ps) h = cc

split_on-ne_nil : (c : ℕ) (t : Text) → split_on c t ≢ []
unfolding split_on
split_on-ne_nil c [] h = cc
split_on-ne_nil c (x ∷ t) h = elim (Bool-cases (x == c)) [
  | inl y ↦ absurd (cc (rw y at (sym (split_on_step c x t) ∙ h)))
  | inr n ↦ extended-ne_nil x (split_on c t) (rw n at (sym (split_on_step c x t) ∙ h))
]

joined-skip : (c x : ℕ) (l : List Text) → x ≡ c → l ≢ [] → joined c ([] ∷ l) ≡ x ∷ joined c l
joined-skip c x [] e ne = absurd (ne refl)
joined-skip c x (t ∷ l) e ne = rw e refl

joined-extended : (c x : ℕ) (l : List Text) → joined c (extended x l) ≡ x ∷ joined c l
joined-extended c x [] = refl
joined-extended c x (t ∷ []) = refl
joined-extended c x (t ∷ u ∷ l) = refl

joined-split_on : (c : ℕ) (t : Text) → joined c (split_on c t) ≡ t
unfolding split_on
joined-split_on c [] = refl
joined-split_on c (x ∷ t) = ap (joined c) (split_on_step c x t) ∙ elim (==-cases x c) [
  | inl (h, e) ↦ rw h (
      joined-skip c x (split_on c t) e (split_on-ne_nil c t)
      ∙ ap (λ z. x ∷ z) (joined-split_on c t))
  | inr (h, _) ↦ rw h (joined-extended c x (split_on c t) ∙ ap (λ z. x ∷ z) (joined-split_on c t))
]

-- `GetClaimFromToken` yields claims only for a token of three parts that carries the server's own
-- signature over the first two, whose payload decodes to those claims, and that is not too old.
pub get_claim_from_token-Signed :
    (m : Server) (now : ℕ) (auth : Text) (claims : Claims)
    → get_claim_from_token m now auth ≡ some claims
    → (token : Text) × (bearer_token auth ≡ some token) × Signed m now token claims
unfolding get_claim_from_token
get_claim_from_token-Signed m now auth claims h = elim (Option-cases (bearer_token auth)) [
  | inl n ↦ absurd (cc)
  | inr (token, e) ↦ (
    token,
    e,
    subst (λ z. Signed m now z claims) (joined-split_on b'.' token)
        (claims_of_parts-Signed m now (split_on b'.' token) (rw e at h)),
  )
]

-- A request with a bearer token, and no basic credentials, is allowed only if the token is signed
-- by the server, not too old, and names a subject whom the access rules allow the access.
pub bearer-Signed :
    (m : Server) (now : ℕ) (auth resource scope verb : Text)
    → is_basic auth ≡ false
    → is_bearer auth ≡ true
    → is_request_allowed m now auth resource scope verb ≡ true
    → (token : Text) × (claims : Claims) × (user : Text) × (bearer_token auth ≡ some token)
      × Signed m now token claims
      × (claims.sub ≡ some user)
      × (is_allowed m.rbac user resource scope verb ≡ true)
unfolding is_request_allowed is_bearer_allowed
bearer-Signed m now auth resource scope verb not_basic bearer h =
    let h' : is_bearer_allowed m now auth resource scope verb ≡ true =
      rw (not_basic, bearer) at h in
    elim (Option-cases (get_claim_from_token m now auth)) [
      | inl n ↦ absurd (cc)
      | inr (claims, e) ↦ elim (Option-cases claims.sub) [
        | inl n ↦ absurd (cc)
        | inr (user, u) ↦
            let (token, b, g) = get_claim_from_token-Signed m now auth claims e in
            (token, claims, user, b, g, u, (rw (e, u) at h'))
      ]
    ]
