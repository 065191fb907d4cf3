-- ===== src/Rbac/Laws.antt =====
-- What pkg/rbac/engine.go grants, said without its loops.
use simple_registry.Base.{
  Bool, true, some, [], ◌==◌, nat_eq, list_eq, Text, codes, ◌≡◌, refl, sym, ◌↔◌, ◌⊎◌, inl, inr, In,
  contains_iff, any_witness, any_of_In, first, HasEq, ==_eq, ==_refl, Bool-cases, and_true, or_true,
  Option-cases, arith, subst, ◌&&◌, ◌||◌,
}
use simple_registry.Rbac.{
  User, Role, Subject, RoleBinding, Engine, anonymous_username, role_matches, subject_matches,
  binding_matches, user_allowed, is_allowed,
}

-- The role that a binding names, with the verb and the resource.
abbrev pub GrantsRole : RoleBinding → Text → Text → Role → Type 0
GrantsRole rb resource verb r =
    (r.name ≡ rb.role_name)
    × In verb r.verbs
    × (In resource r.resources ⊎ In (codes "*") r.resources)

-- A subject that names the user or one of the user's groups.
abbrev pub NamesUser : User → Subject → Type 0
NamesUser u s =
    ((s.kind ≡ codes "User") × (s.name ≡ u.name)) ⊎ ((s.kind ≡ codes "Group") × In s.name u.groups)

pub record Grants (e : Engine) (u : User) (resource scope verb : Text) (rb : RoleBinding)
    : Type 0 where
  pub role : (r : Role) × In r e.roles × GrantsRole rb resource verb r
  pub subject : (s : Subject) × In s rb.subjects × NamesUser u s
  pub in_scope : (f : Text → Bool) × In f rb.scopes × (f scope ≡ true)

-- The access that the anonymous user has without any binding.
abbrev pub IsAnonymousIndex : User → Text → Text → Type 0
IsAnonymousIndex u resource scope = (u.name ≡ anonymous_username) × (resource ≡ []) × (scope ≡ [])

and_of : {a b : Bool} → a ≡ true → b ≡ true → (a && b) ≡ true
and_of {a} {b} p q = ground arith

or_left : {a : Bool} (b : Bool) → a ≡ true → (a || b) ≡ true
or_left {a} b p = ground arith

or_right : (a : Bool) {b : Bool} → b ≡ true → (a || b) ≡ true
or_right a {b} p = ground arith

eq_test : {A : Type 0} ⦃e : HasEq A⦄ {a b : A} → a ≡ b → (a == b) ≡ true
eq_test {a = a} h = rw (← h) (==_refl a)

role_matches_iff :
    (rb : RoleBinding) (resource verb : Text) (r : Role)
    → (role_matches rb resource verb r ≡ true) ↔ GrantsRole rb resource verb r
unfolding role_matches
role_matches_iff rb resource verb r = (
  λ h.
      let (a, c) = and_true h in
      let (n, v) = and_true a in
      (
        ==_eq n,
        (contains_iff r.verbs verb).0 v,
        elim (or_true c) [
          | inl x ↦ inl ((contains_iff r.resources resource).0 x)
          | inr x ↦ inr ((contains_iff r.resources (codes "*")).0 x)
        ],
      ),
  λ (n, v, c). and_of (and_of (eq_test n) ((contains_iff r.verbs verb).1 v)) (elim c [
    | inl x ↦ or_left _ ((contains_iff r.resources resource).1 x)
    | inr x ↦ or_right _ ((contains_iff r.resources (codes "*")).1 x)
  ]),
)

subject_matches_iff : (u : User) (s : Subject) → (subject_matches u s ≡ true) ↔ NamesUser u s
unfolding subject_matches
subject_matches_iff u s = (
  λ h. elim (or_true h) [
    | inl x ↦ let (k, n) = and_true x in inl (==_eq k, ==_eq n)
    | inr x ↦ let (k, n) = and_true x in inr (==_eq k, (contains_iff u.groups s.name).0 n)
  ],
  elim [
    | inl (k, n) ↦ or_left _ (and_of (eq_test k) (eq_test n))
    | inr (k, n) ↦ or_right _ (and_of (eq_test k) ((contains_iff u.groups s.name).1 n))
  ],
)

binding_matches_iff :
    (e : Engine) (u : User) (resource scope verb : Text) (rb : RoleBinding)
    → (binding_matches e u resource scope verb rb ≡ true) ↔ Grants e u resource scope verb rb
unfolding binding_matches
binding_matches_iff e u resource scope verb rb = (
  λ h.
      let (a, c) = and_true h in
      let (x, y) = and_true a in
      let (r, mr, hr) = any_witness (role_matches rb resource verb) e.roles x in
      let (s, ms, hs) = any_witness (subject_matches u) rb.subjects y in
      let (f, mf, hf) = any_witness (λ re. re scope) rb.scopes c in
      record {
        role = (r, mr, (role_matches_iff rb resource verb r).0 hr);
        subject = (s, ms, (subject_matches_iff u s).0 hs);
        in_scope = (f, mf, hf);
      },
  λ g.
      let (r, mr, hr) = g.role in
      let (s, ms, hs) = g.subject in
      let (f, mf, hf) = g.in_scope in
      and_of
        (and_of
          (any_of_In (role_matches rb resource verb) r e.roles mr
            ((role_matches_iff rb resource verb r).1 hr))
          (any_of_In (subject_matches u) s rb.subjects ms ((subject_matches_iff u s).1 hs)))
        (any_of_In (λ re. re scope) f rb.scopes mf hf),
)

-- Why a user is allowed: the anonymous index, or a binding.
abbrev pub IsGranted : Engine → User → Text → Text → Text → Type 0
IsGranted e u resource scope verb =
    IsAnonymousIndex u resource scope
    ⊎ ((rb : RoleBinding) × In rb e.role_bindings × Grants e u resource scope verb rb)

user_allowed_iff :
    (e : Engine) (u : User) (resource scope verb : Text)
    → (user_allowed e (some u) resource scope verb ≡ true) ↔ IsGranted e u resource scope verb
unfolding user_allowed
user_allowed_iff e u resource scope verb =
    elim (Bool-cases (u.name == anonymous_username && resource == [] && scope == [])) [
      | inl t ↦
          let (x, y) = and_true t in
          let (n, r) = and_true x in rw t (λ _. inl (==_eq n, ==_eq r, ==_eq y), λ _. refl)
      | inr f ↦ rw f (
        λ h.
            let (rb, m, k) =
              any_witness (binding_matches e u resource scope verb) e.role_bindings h in
            inr (rb, m, (binding_matches_iff e u resource scope verb rb).0 k),
        elim [
          | inl (n, r, y) ↦ absurd (cc (and_of (and_of (eq_test n) (eq_test r)) (eq_test y)))
          | inr (rb, m, g) ↦
              any_of_In (binding_matches e u resource scope verb) rb e.role_bindings m
                ((binding_matches_iff e u resource scope verb rb).1 g)
        ],
      )
    ]

-- A request is allowed exactly when its user is one of the engine's, the first of that name, and
-- either asks as the anonymous user for the index or is granted it by a binding: one whose role
-- exists and has the verb and the resource (or `*`), with a subject that names the user or a group
-- of the user and a scope that matches.
pub is_allowed_iff :
    (e : Engine) (name resource scope verb : Text)
    → (is_allowed e name resource scope verb ≡ true) ↔ (
        (u : User) × (first (λ v. v.name == name) e.users ≡ some u)
        × IsGranted e u resource scope verb)
unfolding is_allowed user_allowed
is_allowed_iff e name resource scope verb =
    elim (Option-cases (first (λ v. v.name == name) e.users)) [
      | inl n ↦ rw n (λ h. absurd (cc), λ (u, h, g). absurd (cc))
      | inr (u, q) ↦ rw q (
        λ h. (u, refl, (user_allowed_iff e u resource scope verb).0 h),
        λ (v, h, g).
            let same : u ≡ v = cc in
            (user_allowed_iff e u resource scope verb).1
              (subst (λ w. IsGranted e w resource scope verb) (sym same) g),
      )
    ]
