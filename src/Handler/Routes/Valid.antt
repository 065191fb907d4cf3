-- ===== src/Handler/Routes/Valid.antt =====
-- The handlers see only parameters that fit their expressions.
use simple_registry.Base.{
  Bool, true, Option, none, some, List, [], ◌∷◌, ◌++◌, map, ◌==◌, nat_eq, list_eq, Text, ◌≡◌, ◌⊎◌,
  refl, sym, ◌∙◌, ap, subst, inl, inr, All, Bool-cases,
}
use simple_registry.Mux.{Route, run, serve}
use simple_registry.Mux.Laws.{serve-run_iff}
use simple_registry.Proxy.Challenge.{cut_prefix}
use simple_registry.Regex.{Regex, either, match_string}
use simple_registry.Regex.Laws.{either_inv, match_string_iff}
use simple_registry.Validator.{is_name, is_digest, is_uuid, is_tag, expr_tag, expr_digest}
use simple_registry.Handler.Routes.{
  Parameter, name, digest, uuid, reference, expr_of, Item, literal, group, slash, below, Values,
  or_else, with_value, Matcher, group_here, match_group, match_cut, match_slash, is_below,
  match_items, Endpoint, Entry, fixed_entries, ui_entries, to_route, routes,
}

-- A value of a group is valid: a name, a digest, an upload id, or a tag or a digest.
abbrev pub FitsExpr : Parameter × Text → Type 0
FitsExpr (name, u) = is_name u ≡ true
FitsExpr (digest, u) = is_digest u ≡ true
FitsExpr (uuid, u) = is_uuid u ≡ true
FitsExpr (reference, u) = (is_tag u ≡ true) ⊎ (is_digest u ≡ true)

match_either :
    (a b : Regex) (u : Text)
    → match_string (either a b) u ≡ true
    → (match_string a u ≡ true) ⊎ (match_string b u ≡ true)
match_either a b u h = elim (either_inv ((match_string_iff (either a b) u).0 h)) [
  | inl m ↦ inl ((match_string_iff a u).1 m)
  | inr m ↦ inr ((match_string_iff b u).1 m)
]

expr_of-FitsExpr : (p : Parameter) (u : Text) → match_string (expr_of p) u ≡ true → FitsExpr (p, u)
unfolding is_name is_digest is_uuid is_tag
expr_of-FitsExpr name u h = h
expr_of-FitsExpr digest u h = h
expr_of-FitsExpr uuid u h = h
expr_of-FitsExpr reference u h = match_either expr_tag expr_digest u h

-- What a matcher finds fits.
abbrev Sound : Matcher → Type 0
Sound k = (s : Text) (v : Values) → k s ≡ some v → All FitsExpr v

or_else-some :
    (a b : Option Values) {v : Values} → or_else a b ≡ some v → (a ≡ some v) ⊎ (b ≡ some v)
or_else-some none b h = inr h
or_else-some (some w) b h = inl h

with_value-some :
    (p : Parameter) (u : Text) (o : Option Values) {v : Values}
    → with_value p u o ≡ some v
    → (w : Values) × (o ≡ some w) × (v ≡ (p, u) ∷ w)
with_value-some p u none h = cc
with_value-some p u (some w) h = (w, refl, cc)

group_here-Sound :
    (k : Matcher) (p : Parameter) (u rest : Text) (v : Values)
    → Sound k
    → group_here k p u rest ≡ some v
    → All FitsExpr v
unfolding group_here
group_here-Sound k p u rest v sound h = elim (Bool-cases (match_string (expr_of p) u)) [
  | inr f ↦ absurd (cc (rw f at h))
  | inl t ↦
      let (w, e, same) = with_value-some p u (k rest) (rw t at h) in
      subst (All FitsExpr) (sym same) (expr_of-FitsExpr p u t, sound rest w e)
]

match_group-Sound :
    (k : Matcher) (p : Parameter) (u s : Text) (v : Values)
    → Sound k
    → match_group k p u s ≡ some v
    → All FitsExpr v
unfolding match_group
match_group-Sound k p u [] v sound h = group_here-Sound k p u [] v sound h
match_group-Sound k p u (c ∷ s) v sound h =
    elim (or_else-some (match_group k p (u ++ c ∷ []) s) (group_here k p u (c ∷ s)) h) [
      | inl e ↦ match_group-Sound k p (u ++ c ∷ []) s v sound e
      | inr e ↦ group_here-Sound k p u (c ∷ s) v sound e
    ]

match_cut-Sound :
    (k : Matcher) (o : Option Text) (v : Values) → Sound k → match_cut k o ≡ some v → All FitsExpr v
match_cut-Sound k none v sound h = absurd (cc)
match_cut-Sound k (some rest) v sound h = sound rest v h

match_slash-Sound : (k : Matcher) → Sound k → Sound (match_slash k)
match_slash-Sound k sound [] v h = sound [] v h
match_slash-Sound k sound (c ∷ s) v h = elim (Bool-cases (c == b'/')) [
  | inl t ↦ elim (or_else-some (k s) (k (c ∷ s)) (rw t at h)) [
    | inl e ↦ sound s v e
    | inr e ↦ sound (c ∷ s) v e
  ]
  | inr f ↦ sound (c ∷ s) v (rw f at h)
]

match_items-Sound : (items : List Item) → Sound (match_items items)
unfolding match_items
match_items-Sound [] [] v h = let e : v ≡ [] = cc in subst (All FitsExpr) (sym e) tt
match_items-Sound [] (c ∷ s) v h = absurd (cc)
match_items-Sound (literal t ∷ items) s v h =
    match_cut-Sound (match_items items) (cut_prefix t s) v (match_items-Sound items) h
match_items-Sound (group p ∷ items) s v h =
    match_group-Sound (match_items items) p [] s v (match_items-Sound items) h
match_items-Sound (slash ∷ items) s v h =
    match_slash-Sound (match_items items) (match_items-Sound items) s v h
match_items-Sound (below ∷ items) s v h = elim (Bool-cases (is_below s)) [
  | inl t ↦ match_items-Sound items [] v (rw t at h)
  | inr f ↦ absurd (cc (rw f at h))
]

-- A route of a table that is made of entries is that of one of them.
route_of_entry :
    (entries : List Entry) (before after : List (Route Values Endpoint)) (r : Route Values Endpoint)
    → map to_route entries ≡ before ++ r ∷ after
    → (e : Entry) × (r ≡ to_route e)
route_of_entry [] [] after r h = absurd (cc)
route_of_entry [] (b ∷ before) after r h = absurd (cc)
route_of_entry (e ∷ entries) [] after r h = (e, cc)
route_of_entry (e ∷ entries) (b ∷ before) after r h = route_of_entry entries before after r (cc)

-- Every handler that the mux runs for a request of the registry's table gets parameters that fit
-- the expressions of their groups: valid names, digests, upload ids and references.
pub serve-FitsExpr :
    (ui_enabled : Bool) (method path : Text) (head : Bool) (params : Values) (next : Endpoint)
    → serve (routes ui_enabled) method path ≡ run head params next
    → All FitsExpr params
unfolding routes
serve-FitsExpr ui_enabled method path head params next h =
    let (before, after, r, e, _, m, _) =
      (serve-run_iff method path (routes ui_enabled) head params next).0 h in
    let (entry, same) = route_of_entry (fixed_entries ++ ui_entries ui_enabled) before after r e in
    match_items-Sound entry.items path params (sym (ap (λ z. z.pattern path) same) ∙ m.0)
