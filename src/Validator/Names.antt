-- ===== src/Validator/Names.antt =====
-- What a valid repository name looks like below the data directory: every component is plain, and
-- none starts with an underscore, so none can be taken for a directory of the registry's own.
use mathlib.Core.Bool.{false≢true}
use simple_registry.Base.{
  ℕ, Bool, true, List, [], ◌∷◌, ◌++◌, ◌&&◌, not, ◌≡◌, ◌≢◌, refl, sym, subst, Text, codes, In, All,
  In-append, append-nil, inl, inr, arith, and_true,
}
use simple_registry.Regex.{Regex, nothing, empty, class, seq, either, many, in_class, lit}
use simple_registry.Regex.Laws.{
  Matches, m_empty, m_class, m_seq, m_left, m_right, m_none, m_more, seq_inv, class_inv, empty_inv,
  match_string_iff, Rounds, no_round, a_round, many_inv,
}
use simple_registry.Validator.{lower_digit, name_component, expr_name, is_name}
use simple_registry.Paths.{split_slash}
use simple_registry.Paths.Plain.{IsPlain, split_slash_part, split_slash_last}

-- No class of the expression holds the byte, so no text of its language does.
abbrev pub avoids : ℕ → Regex → Bool
avoids b nothing = true
avoids b empty = true
avoids b (class cs) = not (in_class cs b)
avoids b (seq r s) = avoids b r && avoids b s
avoids b (either r s) = avoids b r && avoids b s
avoids b (many r) = avoids b r

pub avoids_sound : {r : Regex} {w : Text} → Matches r w → (b : ℕ) → avoids b r ≡ true → ¬ In b w
avoids_sound (m_empty e) b h m = subst (In b) e m
avoids_sound (m_class {cs} c e p) b h m = elim (subst (In b) e m) [
  | inl q ↦ let x : in_class cs b ≡ true = rw q p in cc
  | inr z ↦ absurd z
]
avoids_sound (m_seq u v e x y) b h m = elim (In-append b u v (subst (In b) e m)) [
  | inl z ↦ avoids_sound x b (and_true h).0 z
  | inr z ↦ avoids_sound y b (and_true h).1 z
]
avoids_sound (m_left x) b h m = avoids_sound x b (and_true h).0 m
avoids_sound (m_right x) b h m = avoids_sound x b (and_true h).1 m
avoids_sound (m_none e) b h m = subst (In b) e m
avoids_sound (m_more u v e x y) b h m = elim (In-append b u v (subst (In b) e m)) [
  | inl z ↦ avoids_sound x b h z
  | inr z ↦ avoids_sound y b h z
]

-- A component that starts with a lower-case letter or a digit and holds no slash.
abbrev pub IsNamePart : Text → Type 0
IsNamePart [] = ⊥
IsNamePart (c ∷ s) = (in_class lower_digit c ≡ true) × (¬ In b'/' (c ∷ s))

pub IsNamePart-IsPlain : (p : Text) → IsNamePart p → IsPlain p
IsNamePart-IsPlain [] h = h
IsNamePart-IsPlain (c ∷ s) h =
    (λ e. false≢true (subst (λ x. in_class lower_digit x ≡ true) e h.0), h.1)

pub IsNamePart-ne_underscore : (s p : Text) → IsNamePart p → p ≢ b'_' ∷ s
IsNamePart-ne_underscore s [] h e = h
IsNamePart-ne_underscore s (c ∷ p) h e =
    let q : c ≡ b'_' = cc in false≢true (subst (λ x. in_class lower_digit x ≡ true) q h.0)

component_IsNamePart : (u : Text) → Matches name_component u → IsNamePart u
component_IsNamePart u m =
    let (a, b, e, x, _) = seq_inv m in
    let (p, q, e', y, _) = seq_inv x in
    let (c, e'', h) = class_inv y in
    let whole : u ≡ c ∷ (q ++ b) = rw (e, e', e'') refl in
    subst IsNamePart (sym whole) (h, subst (λ t. ¬ In b'/' t) whole (avoids_sound m b'/' refl))

IsNamePart-no_slash : (u : Text) → IsNamePart u → ¬ In b'/' u
IsNamePart-no_slash [] h = absurd h
IsNamePart-no_slash (c ∷ u) h = h.1

-- The repetition `(?:\/component)*`, after a first component.
tail_parts :
    {v : Text}
    → Rounds (seq (lit (codes "/")) name_component) v
    → (u : Text) → IsNamePart u
    → All IsNamePart (split_slash (u ++ v))
tail_parts (no_round e) u h =
    rw (e, append-nil, split_slash_last u (IsNamePart-no_slash u h)) (h, tt)
tail_parts (a_round x v e m more) u h =
    let (slash, part, e', a, b) = seq_inv m in
    let (c, z, ec, k, n) = seq_inv a in
    let (d, ed, hd) = class_inv k in
    let is_slash : d ≡ b'/' = ground arith in
    let start : x ++ v ≡ b'/' ∷ (part ++ v) = rw (e', ec, ed, empty_inv n, is_slash) refl in
    rw (e, start, split_slash_part u (part ++ v) (IsNamePart-no_slash u h))
      (h, tail_parts more part (component_IsNamePart part b))

-- Every component of a valid name is a name part.
pub is_name-IsNamePart : (s : Text) → is_name s ≡ true → All IsNamePart (split_slash s)
unfolding is_name
is_name-IsNamePart s h =
    let (u, v, e, a, b) = seq_inv ((match_string_iff expr_name s).0 h) in
    rw e (tail_parts (many_inv b) u (component_IsNamePart u a))

pub All-IsPlain : (ps : List Text) → All IsNamePart ps → All IsPlain ps
All-IsPlain [] h = tt
All-IsPlain (p ∷ ps) h = (IsNamePart-IsPlain p h.0, All-IsPlain ps h.1)

-- The components of a valid name are taken by `join` as they stand.
pub is_name-IsPlain : (s : Text) → is_name s ≡ true → All IsPlain (split_slash s)
is_name-IsPlain s h = All-IsPlain (split_slash s) (is_name-IsNamePart s h)
