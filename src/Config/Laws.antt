-- ===== src/Config/Laws.antt =====
-- What a configuration holds: the rules of the administrator, and the settings that are always there.
use simple_registry.Base.{
  or_true, ◌⊎◌, ◌↔◌, In, sym, subst, contains_iff, contains_of_not_In, not_In_of_contains, and_true,
  ==_eq, ==_refl, Bool, true, false, ◌&&◌, ◌||◌, [], ◌∷◌, ◌==◌, nat_eq, list_eq, list_beq, Text,
  codes, ◌≡◌, refl, ◌∙◌, inl, inr, Bool-cases, contains, any, first, if◌then◌else◌, arith,
}
use simple_registry.Rbac.{
  anonymous_username, is_allowed, user_allowed, binding_matches, role_matches, subject_matches,
}
use simple_registry.Config.{
  admin_engine, admin_user, admin_binding, write_role, read_role, write_verbs, every_scope,
}

or_false : (b : Bool) → (b || false) ≡ b
or_false true = refl
or_false false = refl

absorbs : (v r : Bool) → (v && (r || (true || false))) ≡ v
absorbs true true = refl
absorbs true false = refl
absorbs false r = refl

role_matches-write :
    (resource verb : Text)
    → role_matches admin_binding resource verb write_role ≡ contains write_verbs verb
unfolding role_matches contains any list_beq
role_matches-write resource verb =
    absorbs (contains write_verbs verb) (contains (codes "*" ∷ []) resource)

role_matches-read :
    (resource verb : Text) → role_matches admin_binding resource verb read_role ≡ false
unfolding role_matches list_beq
role_matches-read resource verb = refl

subject_matches-admin :
    (name hash : Text) → any (subject_matches (admin_user name hash)) admin_binding.subjects ≡ true
unfolding any subject_matches contains list_beq
subject_matches-admin name hash = refl

-- What the binding of the administrators grants.
binding_matches-admin :
    (name hash resource scope verb : Text)
    → binding_matches
        (admin_engine name hash)
        (admin_user name hash)
        resource
        scope
        verb
        admin_binding
      ≡ (contains write_verbs verb && every_scope scope)
unfolding binding_matches admin_engine any
binding_matches-admin name hash resource scope verb =
    rw
      (
        role_matches-write resource verb,
        role_matches-read resource verb,
        subject_matches-admin name hash,
      )
      (ground arith)

choice : (a b c : Bool) → b ≡ c → (if a then true else (b || false)) ≡ (a || c)
choice true b c h = refl
choice false b c h = or_false b ∙ h

-- The same in Boolean tests: the methods that write or read, in every scope on one line; and the index if the
-- administrator has the name of the anonymous user.
is_allowed-admin_engine :
    (name hash user resource scope verb : Text)
    → is_allowed (admin_engine name hash) user resource scope verb ≡ (
        (name == user)
        && ((name == anonymous_username && resource == [] && scope == [])
            || (contains write_verbs verb && every_scope scope)))
unfolding is_allowed user_allowed admin_engine first any
is_allowed-admin_engine name hash user resource scope verb =
    let granted = binding_matches-admin name hash resource scope verb in
    elim (Bool-cases (name == user)) [
      | inr n ↦ rw n refl
      | inl y ↦ rw y (
          choice (name == anonymous_username && resource == [] && scope == [])
            (binding_matches (admin_engine name hash) (admin_user name hash) resource scope verb
              admin_binding)
            (contains write_verbs verb && every_scope scope) granted)
    ]

-- The methods that an administrator may use.
abbrev pub IsMethod : Text → Type 0
IsMethod verb =
    (verb ≡ codes "HEAD")
    ⊎ ((verb ≡ codes "GET")
        ⊎ ((verb ≡ codes "POST")
            ⊎ ((verb ≡ codes "PUT") ⊎ ((verb ≡ codes "PATCH") ⊎ (verb ≡ codes "DELETE")))))

eq_true : {a b : Text} → a ≡ b → (a == b) ≡ true
eq_true {a} {b} e = subst (λ z. (a == z) ≡ true) e (==_refl a)

-- What the rules grant to the user of this name.
abbrev pub IsGrantedAll : Text → Text → Text → Text → Type 0
IsGrantedAll user resource scope verb =
    ((user ≡ anonymous_username) × (resource ≡ []) × (scope ≡ []))
    ⊎ (IsMethod verb × (¬ In 10 scope))

contains-IsMethod_iff : (verb : Text) → (contains write_verbs verb ≡ true) ↔ IsMethod verb
contains-IsMethod_iff verb =
    let (to, from) = contains_iff write_verbs verb in
    (
      λ h. elim (to h) [
        | inl e ↦ inl e
        | inr (inl e) ↦ inr (inl e)
        | inr (inr (inl e)) ↦ inr (inr (inl e))
        | inr (inr (inr (inl e))) ↦ inr (inr (inr (inl e)))
        | inr (inr (inr (inr (inl e)))) ↦ inr (inr (inr (inr (inl e))))
        | inr (inr (inr (inr (inr (inl e))))) ↦ inr (inr (inr (inr (inr e))))
        | inr (inr (inr (inr (inr (inr z))))) ↦ absurd z
      ],
      λ m. from (elim m [
        | inl e ↦ inl e
        | inr (inl e) ↦ inr (inl e)
        | inr (inr (inl e)) ↦ inr (inr (inl e))
        | inr (inr (inr (inl e))) ↦ inr (inr (inr (inl e)))
        | inr (inr (inr (inr (inl e)))) ↦ inr (inr (inr (inr (inl e))))
        | inr (inr (inr (inr (inr e)))) ↦ inr (inr (inr (inr (inr (inl e)))))
      ]),
    )

every_scope_iff : (scope : Text) → (every_scope scope ≡ true) ↔ (¬ In 10 scope)
every_scope_iff scope = (
  λ h. not_In_of_contains scope 10 (ground arith),
  λ n. let f = contains_of_not_In scope 10 n in ground arith,
)

-- With the rules that `New` makes for an administrator's password, exactly the administrator is
-- allowed anything: HEAD, GET, POST, PUT, PATCH and DELETE of every resource, in every scope without
-- a line feed; and the index if the administrator has the name of the anonymous user.
pub is_allowed-admin_engine_iff :
    (name hash user resource scope verb : Text)
    → (is_allowed (admin_engine name hash) user resource scope verb ≡ true)
      ↔ ((name ≡ user) × IsGrantedAll name resource scope verb)
is_allowed-admin_engine_iff name hash user resource scope verb =
    let formula = is_allowed-admin_engine name hash user resource scope verb in
    let (verb_to, verb_from) = contains-IsMethod_iff verb in
    let (scope_to, scope_from) = every_scope_iff scope in
    (
      λ h.
          let (same, granted) = and_true (sym formula ∙ h) in
          (
            ==_eq same,
            elim (or_true granted) [
              | inl index ↦
                  let (rest, no_scope) = and_true index in
                  let (anonymous, no_resource) = and_true rest in
                  inl (==_eq anonymous, ==_eq no_resource, ==_eq no_scope)
              | inr access ↦ let (v, s) = and_true access in inr (verb_to v, scope_to s)
            ],
          ),
      λ (same, granted). formula ∙ (elim granted [
        | inl (a, r, s) ↦
            let x = eq_true same in
            let y = eq_true a in let z = eq_true r in let w = eq_true s in ground arith
        | inr (v, s) ↦
            let x = eq_true same in let y = verb_from v in let z = scope_from s in ground arith
      ]),
    )
