-- ===== src/Regex/Laws.antt =====
-- The language of an expression, as an inductive relation, and the proof that the matcher decides
-- it.
use simple_registry.Base.{
  ℕ, true, List, [], ◌∷◌, ◌++◌, ◌≡◌, refl, ◌↔◌, ◌⊎◌, inl, inr, Text, arith, sym, ap, ◌∙◌, subst,
  Bool-cases, and_true, or_true,
}
use simple_registry.Regex.{
  Regex, nothing, empty, class, seq, either, many, in_class, nullable, seq', either', deriv,
  match_string,
}

pub data Matches : Regex → Text → Type 0 where
  m_empty : {w : Text} → w ≡ [] → Matches empty w
  m_class :
      {cs : List (ℕ × ℕ)} {w : Text} (c : ℕ)
      → w ≡ c ∷ []
      → in_class cs c ≡ true
      → Matches (class cs) w
  m_seq :
      {r s : Regex} {w : Text} (u v : Text)
      → w ≡ u ++ v
      → Matches r u
      → Matches s v
      → Matches (seq r s) w
  m_left : {r s : Regex} {w : Text} → Matches r w → Matches (either r s) w
  m_right : {r s : Regex} {w : Text} → Matches s w → Matches (either r s) w
  m_none : {r : Regex} {w : Text} → w ≡ [] → Matches (many r) w
  m_more :
      {r : Regex} {w : Text} (u v : Text)
      → w ≡ u ++ v
      → Matches r u
      → Matches (many r) v
      → Matches (many r) w

-- Inversions.
pub nothing_inv : {w : Text} → Matches nothing w → ⊥
nothing_inv m = elim m [ ]

pub empty_inv : {w : Text} → Matches empty w → w ≡ []
empty_inv (m_empty e) = e

pub class_inv :
    {cs : List (ℕ × ℕ)} {w : Text}
    → Matches (class cs) w
    → (c : ℕ) × (w ≡ c ∷ []) × (in_class cs c ≡ true)
class_inv (m_class c e h) = (c, e, h)

pub seq_inv :
    {r s : Regex} {w : Text}
    → Matches (seq r s) w
    → (u : Text) × (v : Text) × (w ≡ u ++ v) × Matches r u × Matches s v
seq_inv (m_seq u v e a b) = (u, v, e, a, b)

pub either_inv : {r s : Regex} {w : Text} → Matches (either r s) w → Matches r w ⊎ Matches s w
either_inv (m_left m) = inl m
either_inv (m_right m) = inr m

append_nil_inv : (u v : Text) → ◌≡◌ {A = Text} [] (u ++ v) → (u ≡ []) × (v ≡ [])
append_nil_inv [] v e = (refl, sym e)
append_nil_inv (c ∷ u) v e = cc

nullable_sound : (r : Regex) → nullable r ≡ true → Matches r []
unfolding nullable
nullable_sound nothing h = cc
nullable_sound empty h = m_empty refl
nullable_sound (class cs) h = cc
nullable_sound (seq r s) h =
    let (p, q) = and_true h in m_seq [] [] refl (nullable_sound r p) (nullable_sound s q)
nullable_sound (either r s) h = elim (or_true h) [
  | inl p ↦ m_left (nullable_sound r p)
  | inr q ↦ m_right (nullable_sound s q)
]
nullable_sound (many r) h = m_none refl

nullable_complete : {r : Regex} {w : Text} → Matches r w → w ≡ [] → nullable r ≡ true
unfolding nullable
nullable_complete (m_empty e) h = refl
nullable_complete (m_class c e p) h = cc
nullable_complete (m_seq u v e a b) h =
    let (p, q) = append_nil_inv u v (sym h ∙ e) in
    ground (arith, nullable_complete a p, nullable_complete b q)
nullable_complete (m_left m) h = ground (arith, nullable_complete m h)
nullable_complete (m_right m) h = ground (arith, nullable_complete m h)
nullable_complete (m_none e) h = refl
nullable_complete (m_more u v e a b) h = refl

seq'-to : (r s : Regex) {w : Text} → Matches (seq r s) w → Matches (seq' r s) w
unfolding seq'
seq'-to nothing s m = let (u, v, e, a, b) = seq_inv m in absurd (nothing_inv a)
seq'-to empty s m =
    let (u, v, e, a, b) = seq_inv m in
    subst (Matches s) (sym (e ∙ ap (λ t. t ++ v) (empty_inv a))) b
seq'-to (class cs) s m = m
seq'-to (seq a b) s m = m
seq'-to (either a b) s m = m
seq'-to (many a) s m = m

seq'-from : (r s : Regex) {w : Text} → Matches (seq' r s) w → Matches (seq r s) w
unfolding seq'
seq'-from nothing s m = absurd (nothing_inv m)
seq'-from empty s {w} m = m_seq [] w refl (m_empty refl) m
seq'-from (class cs) s m = m
seq'-from (seq a b) s m = m
seq'-from (either a b) s m = m
seq'-from (many a) s m = m

left_or_right : {r s : Regex} {w : Text} → Matches r w ⊎ Matches s w → Matches (either r s) w
left_or_right (inl m) = m_left m
left_or_right (inr m) = m_right m

either'-iff : (r s : Regex) {w : Text} → Matches (either' r s) w ↔ (Matches r w ⊎ Matches s w)
unfolding either'
either'-iff nothing s = (inr, elim [ inl m ↦ absurd (nothing_inv m) | inr m ↦ m ])
either'-iff empty nothing = (inl, elim [ inl m ↦ m | inr m ↦ absurd (nothing_inv m) ])
either'-iff (class _) nothing = (inl, elim [ inl m ↦ m | inr m ↦ absurd (nothing_inv m) ])
either'-iff (seq _ _) nothing = (inl, elim [ inl m ↦ m | inr m ↦ absurd (nothing_inv m) ])
either'-iff (either _ _) nothing = (inl, elim [ inl m ↦ m | inr m ↦ absurd (nothing_inv m) ])
either'-iff (many _) nothing = (inl, elim [ inl m ↦ m | inr m ↦ absurd (nothing_inv m) ])
either'-iff _ _ = (either_inv, left_or_right)

-- One byte: the derivative matches what is left.
deriv_sound : (c : ℕ) (r : Regex) {w : Text} → Matches (deriv c r) w → Matches r (c ∷ w)
unfolding deriv
deriv_sound c nothing m = absurd (nothing_inv m)
deriv_sound c empty m = absurd (nothing_inv m)
deriv_sound c (class cs) {w} m = elim (Bool-cases (in_class cs c)) [
  | inl h ↦ m_class c (ap (λ t. c ∷ t) (empty_inv (rw h at m))) h
  | inr h ↦ absurd (nothing_inv (rw h at m))
]
deriv_sound c (seq r s) {w} m = elim (Bool-cases (nullable r)) [
  | inl h ↦ elim ((either'-iff (seq' (deriv c r) s) (deriv c s)).0 (rw h at m)) [
    | inl p ↦
        let (u, v, e, a, b) = seq_inv (seq'-from (deriv c r) s p) in
        m_seq (c ∷ u) v (ap (λ t. c ∷ t) e) (deriv_sound c r a) b
    | inr p ↦ m_seq [] (c ∷ w) refl (nullable_sound r h) (deriv_sound c s p)
  ]
  | inr h ↦
      let (u, v, e, a, b) = seq_inv (seq'-from (deriv c r) s (rw h at m)) in
      m_seq (c ∷ u) v (ap (λ t. c ∷ t) e) (deriv_sound c r a) b
]
deriv_sound c (either r s) m = elim ((either'-iff (deriv c r) (deriv c s)).0 m) [
  | inl p ↦ m_left (deriv_sound c r p)
  | inr p ↦ m_right (deriv_sound c s p)
]
deriv_sound c (many r) m =
    let (u, v, e, a, b) = seq_inv (seq'-from (deriv c r) (many r) m) in
    m_more (c ∷ u) v (ap (λ t. c ∷ t) e) (deriv_sound c r a) b

seq_or_more :
    (r s : Regex) (c : ℕ) {w : Text}
    → Matches (seq' (deriv c r) s) w
    → Matches (deriv c (seq r s)) w
unfolding deriv
seq_or_more r s c m = elim (Bool-cases (nullable r)) [
  | inl h ↦ rw h ((either'-iff (seq' (deriv c r) s) (deriv c s)).1 (inl m))
  | inr h ↦ rw h m
]

deriv_complete :
    {r : Regex} {w' : Text} → Matches r w' → (c : ℕ) (w : Text) → w' ≡ c ∷ w → Matches (deriv c r) w
unfolding deriv
deriv_complete (m_empty e) c w h = absurd (cc)
deriv_complete (m_class {cs} d e p) c w h =
    let same : d ≡ c = cc in let done : w ≡ [] = cc in rw (← same, p) (m_empty done)
deriv_complete (m_seq {r} {s} [] v e a b) c w h =
    rw (nullable_complete a refl)
      ((either'-iff (seq' (deriv c r) s) (deriv c s)).1 (inr (deriv_complete b c w (sym e ∙ h))))
deriv_complete (m_seq {r} {s} (d ∷ u) v e a b) c w h =
    let same : d ≡ c = cc in
    let rest : w ≡ u ++ v = cc in
    seq_or_more r s c
      (seq'-to (deriv c r) s (m_seq u v rest (deriv_complete a c u (ap (λ x. x ∷ u) same)) b))
deriv_complete (m_left {r} {s} m) c w h =
    (either'-iff (deriv c r) (deriv c s)).1 (inl (deriv_complete m c w h))
deriv_complete (m_right {r} {s} m) c w h =
    (either'-iff (deriv c r) (deriv c s)).1 (inr (deriv_complete m c w h))
deriv_complete (m_none e) c w h = absurd (cc)
deriv_complete (m_more [] v e a b) c w h = deriv_complete b c w (sym e ∙ h)
deriv_complete (m_more {r} (d ∷ u) v e a b) c w h =
    let same : d ≡ c = cc in
    let rest : w ≡ u ++ v = cc in
    seq'-to (deriv c r) (many r) (m_seq u v rest (deriv_complete a c u (ap (λ x. x ∷ u) same)) b)

-- The matcher decides the language of the expression.
pub match_string_iff : (r : Regex) (w : Text) → (match_string r w ≡ true) ↔ Matches r w
unfolding match_string
match_string_iff r [] = (nullable_sound r, λ m. nullable_complete m refl)
match_string_iff r (c ∷ w) = (
  λ h. deriv_sound c r ((match_string_iff (deriv c r) w).0 h),
  λ m. (match_string_iff (deriv c r) w).1 (deriv_complete m c w refl),
)

-- A repetition as the list of its rounds.
pub data Rounds (r : Regex) : Text → Type 0 where
  no_round : {w : Text} → w ≡ [] → Rounds r w
  a_round : {w : Text} (u v : Text) → w ≡ u ++ v → Matches r u → Rounds r v → Rounds r w

Rounds-of : {q : Regex} {w : Text} → Matches q w → (r : Regex) → q ≡ many r → Rounds r w
Rounds-of (m_empty e) r h = absurd (cc)
Rounds-of (m_class c e p) r h = absurd (cc)
Rounds-of (m_seq u v e a b) r h = absurd (cc)
Rounds-of (m_left m) r h = absurd (cc)
Rounds-of (m_right m) r h = absurd (cc)
Rounds-of (m_none e) r h = no_round e
Rounds-of (m_more {r = q} u v e a b) r h =
    let same : q ≡ r = cc in a_round u v e (subst (λ x. Matches x u) same a) (Rounds-of b r h)

pub many_inv : {r : Regex} {w : Text} → Matches (many r) w → Rounds r w
many_inv {r} m = Rounds-of m r refl
