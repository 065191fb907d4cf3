-- ===== src/Config/Settled.antt =====
-- What every configuration that `New` yields has.
use simple_registry.Base.{
  ℕ, Option, some, List, [], ◌∷◌, ◌==◌, nat_eq, list_eq, Text, codes, Result, ok, err, ◌≡◌, ◌≢◌,
  refl, ◌∙◌, ap, subst, inl, inr, In, In-append, In-append_left, Bool-cases, Result-cases,
  Option-cases, if◌then◌else◌, ==-cases, arith,
}
use simple_registry.Proxy.Upstream.{Proxy}
use simple_registry.Rbac.{Role, Engine}
use simple_registry.Rbac.Verbs.{all_verbs, parse_verbs}
use simple_registry.Rbac.Verbs.Known.{parse_verbs-Known}
use simple_registry.Config.{
  System, Options, no_options, Setting, Config, Source, proxied, directory, or_panic, and_then,
  parse_dirs, with_web, with_data_dir, with_manifests, apply, apply_all, admin_engine,
  engine_or_admin, source_or_panic, web_settings, new, admin_name, admin_pwd, admin_pwd_file,
  token_secret, token_secret_file, data_dir, addr, cert_file, key_file, token_timeout, ui, cfg_dirs,
  write_verbs,
}
use simple_registry.Config.Manifests.{
  Manifest, token_manifest, user_manifest, role_manifest, binding_manifest, pull_through_manifest,
  configuration_manifest, add_manifest, add_manifests, engine_of, no_rules, proxies_of, data_dir_of,
  web_of, compile_all, add_role, role_with,
}

pub ok_inj : {A : Type 0} {a b : A} → ◌≡◌ {A = Result A} (ok a) (ok b) → a ≡ b
ok_inj h = cc

-- Inversion of a step that may fail.
pub and_then_ok :
    {A B : Type 0} (r : Result A) (f : A → Result B) {b : B}
    → and_then r f ≡ ok b
    → (a : A) × (r ≡ ok a) × (f a ≡ ok b)
and_then_ok (ok a) f h = (a, refl, h)
and_then_ok (err e) f h = absurd (cc)

some_inj : {A : Type 0} {a b : A} → ◌≡◌ {A = Option A} (some a) (some b) → a ≡ b
some_inj h = cc

or_panic_ok : {A : Type 0} (r : Result A) {a : A} → or_panic r ≡ ok a → r ≡ ok a
or_panic_ok (ok a) h = h
or_panic_ok (err e) h = absurd (cc)

-- All verbs of the roles are methods that the registry knows.
abbrev pub IsKnown : Engine → Type 0
IsKnown engine = (r : Role) (x : Text) → In r engine.roles → In x r.verbs → In x all_verbs

add_role-IsKnown :
    (r : Role) (engine engine' : Engine)
    → IsKnown engine
    → add_role (role_with r (parse_verbs r.verbs)) engine ≡ ok engine'
    → IsKnown engine'
add_role-IsKnown r engine engine' known h = elim (Result-cases (parse_verbs r.verbs)) [
  | inl (e, q) ↦ absurd (cc (rw q at h))
  | inr (verbs, q) ↦
      let same = ok_inj (rw q at h) in
      subst IsKnown same (λ s x i j.
        elim (In-append s engine.roles (record r { verbs = verbs } ∷ []) i) [
          | inl old ↦ known s x old j
          | inr (inl e) ↦ (parse_verbs-Known r.verbs verbs q).1 x (subst (λ z. In x z.verbs) e j)
          | inr (inr z) ↦ absurd z
        ])
]

module _ (sys : System) where
  add_manifest-IsKnown :
      (m : Manifest) (engine engine' : Engine)
      → IsKnown engine
      → add_manifest sys.compile m engine ≡ ok engine'
      → IsKnown engine'
  unfolding add_manifest
  add_manifest-IsKnown (token_manifest t) engine engine' known h = subst IsKnown (ok_inj h) known
  add_manifest-IsKnown (user_manifest u) engine engine' known h = subst IsKnown (ok_inj h) known
  add_manifest-IsKnown (role_manifest r) engine engine' known h =
      add_role-IsKnown r engine engine' known h
  add_manifest-IsKnown (binding_manifest n s r scopes) engine engine' known h =
      elim (Result-cases (compile_all sys.compile scopes)) [
        | inl (e, q) ↦ absurd (cc (rw q at h))
        | inr (l, q) ↦ subst IsKnown (ok_inj (rw q at h)) known
      ]
  add_manifest-IsKnown (pull_through_manifest p) engine engine' known h =
      subst IsKnown (ok_inj h) known
  add_manifest-IsKnown (configuration_manifest c) engine engine' known h =
      subst IsKnown (ok_inj h) known

  add_manifests-IsKnown :
      (manifests : List Manifest) (engine engine' : Engine)
      → IsKnown engine
      → add_manifests sys.compile manifests engine ≡ ok engine'
      → IsKnown engine'
  unfolding add_manifests
  add_manifests-IsKnown [] engine engine' known h = subst IsKnown (ok_inj h) known
  add_manifests-IsKnown (m ∷ manifests) engine engine' known h =
      elim (Result-cases (add_manifest sys.compile m engine)) [
        | inl (e, q) ↦ absurd (cc (rw (q, add_manifests) at h))
        | inr (next, q) ↦
            add_manifests-IsKnown manifests next engine'
              (add_manifest-IsKnown m engine next known q) (rw (q, add_manifests) at h)
      ]

  -- The rules of the options, if there are any, have known verbs.
  abbrev HasKnown : Options → Type 0
  HasKnown o = (engine : Engine) → o.rbac_engine ≡ some engine → IsKnown engine

  kept : (o o' : Options) → o.rbac_engine ≡ o'.rbac_engine → HasKnown o → HasKnown o'
  kept o o' e known engine h = known engine (e ∙ h)

  kept_ok :
      (a o o' : Options)
      → ◌≡◌ {A = Result Options} (ok a) (ok o')
      → o.rbac_engine ≡ a.rbac_engine
      → HasKnown o
      → HasKnown o'
  kept_ok a o o' h e = kept o o' (e ∙ ap (λ z. z.rbac_engine) (ok_inj h))

  with_data_dir-engine :
      (dir : Text) (proxies : List Proxy) (o o' : Options)
      → with_data_dir sys dir proxies o ≡ ok o'
      → o.rbac_engine ≡ o'.rbac_engine
  unfolding with_data_dir
  with_data_dir-engine [] proxies o o' h = ap (λ z. z.rbac_engine) (ok_inj h)
  with_data_dir-engine (c ∷ dir) proxies o o' h =
      let (_, _, k) =
        and_then_ok (or_panic (sys.make_dir (c ∷ dir)))
          (λ _. ok (record o { source = some (proxied (c ∷ dir) proxies) })) h in
      ap (λ z. z.rbac_engine) (ok_inj k)

  with_manifests-HasKnown :
      (manifests : List Manifest) (o o' : Options)
      → with_manifests sys manifests o ≡ ok o'
      → HasKnown o'
  unfolding with_manifests with_web
  with_manifests-HasKnown manifests o o' h =
      let last : Options → Result Options = λ p. ok (with_web (web_of manifests) p) in
      let dirs : Engine → List Proxy → Result Options = λ engine proxies.
        and_then
          (with_data_dir sys (data_dir_of manifests) proxies
            (record o { rbac_engine = some engine }))
          last in
      let (engine, x, h1) =
        and_then_ok (or_panic (engine_of sys.compile manifests))
          (λ engine. and_then (or_panic (proxies_of sys.read_file manifests)) (dirs engine)) h in
      let (proxies, _, h2) =
        and_then_ok (or_panic (proxies_of sys.read_file manifests)) (dirs engine) h1 in
      let (p, y, h3) =
        and_then_ok
          (with_data_dir sys (data_dir_of manifests) proxies
            (record o { rbac_engine = some engine }))
          last h2 in
      let known =
        add_manifests-IsKnown manifests no_rules engine (λ r x i. absurd i)
          (or_panic_ok (engine_of sys.compile manifests) x) in
      let there : ◌≡◌ {A = Option Engine} (some engine) o'.rbac_engine =
        with_data_dir-engine (data_dir_of manifests) proxies
          (record o { rbac_engine = some engine }) p y
        ∙ ap (λ z. z.rbac_engine) (ok_inj h3) in
      λ other e. subst IsKnown (some_inj (there ∙ e)) known

  apply-HasKnown : (s : Setting) (o o' : Options) → apply sys s o ≡ ok o' → HasKnown o → HasKnown o'
  unfolding apply
  apply-HasKnown (admin_name name) o o' h = kept_ok _ o o' h refl
  apply-HasKnown (admin_pwd pwd) o o' h = kept_ok _ o o' h refl
  apply-HasKnown (admin_pwd_file file) o o' h =
      let (b, _, k) =
        and_then_ok (or_panic (sys.read_file file)) (λ b. ok (record o { admin_pwd = b })) h in
      kept_ok _ o o' k refl
  apply-HasKnown (token_secret secret) o o' h = kept_ok _ o o' h refl
  apply-HasKnown (token_secret_file file) o o' h =
      let (b, _, k) =
        and_then_ok (or_panic (sys.read_file file)) (λ b. ok (record o { token_secret = b })) h in
      kept_ok _ o o' k refl
  apply-HasKnown (token_timeout t) o o' h = kept_ok _ o o' h refl
  apply-HasKnown (data_dir dir) o o' h =
      let (_, _, k) =
        and_then_ok (or_panic (sys.make_dir dir))
          (λ _. ok (record o { source = some (directory dir) })) h in
      kept_ok _ o o' k refl
  apply-HasKnown (addr a) o o' h = kept_ok _ o o' h refl
  apply-HasKnown (ui enable) o o' h = kept_ok _ o o' h refl
  apply-HasKnown (cert_file file) o o' h = kept_ok _ o o' h refl
  apply-HasKnown (key_file file) o o' h = kept_ok _ o o' h refl
  apply-HasKnown (cfg_dirs dirs) o o' h =
      let (manifests, _, k) =
        and_then_ok (parse_dirs sys dirs) (λ manifests. with_manifests sys manifests o) h in
      λ known. with_manifests-HasKnown manifests o o' k

  apply_all-HasKnown :
      (settings : List Setting) (o o' : Options)
      → apply_all sys settings o ≡ ok o'
      → HasKnown o
      → HasKnown o'
  unfolding apply_all
  apply_all-HasKnown [] o o' h known = kept_ok o o o' h refl known
  apply_all-HasKnown (s ∷ settings) o o' h known =
      let (p, x, k) = and_then_ok (apply sys s o) (apply_all sys settings) h in
      apply_all-HasKnown settings p o' k (apply-HasKnown s o p x known)

  admin_engine-IsKnown : (name hash : Text) → IsKnown (admin_engine name hash)
  unfolding admin_engine
  admin_engine-IsKnown name hash r x (inl e) i =
      In-append_left x write_verbs (codes "CONNECT" ∷ codes "OPTIONS" ∷ codes "TRACE" ∷ [])
        (subst (λ z. In x z.verbs) e i)
  admin_engine-IsKnown name hash r x (inr (inl e)) i = elim (subst (λ z. In x z.verbs) e i) [
    | inl head ↦ inl head
    | inr (inl get) ↦ inr (inl get)
    | inr (inr z) ↦ absurd z
  ]
  admin_engine-IsKnown name hash r x (inr (inr z)) i = absurd z

  engine_or_admin-IsKnown :
      (o : Options) (engine : Engine)
      → HasKnown o
      → engine_or_admin sys o ≡ ok engine
      → IsKnown engine
  unfolding engine_or_admin
  engine_or_admin-IsKnown o engine known h = elim (Option-cases o.rbac_engine) [
    | inr (e, q) ↦ subst IsKnown (ok_inj (rw (q, engine_or_admin) at h)) (known e q)
    | inl n ↦ elim (Bool-cases (o.admin_pwd == [])) [
      | inl t ↦ absurd (cc (rw (n, t, engine_or_admin) at h))
      | inr f ↦
          let (hash, _, k) =
            and_then_ok (sys.hash_password o.admin_pwd)
              (λ hash. ok (admin_engine o.admin_name hash)) (rw (n, f, engine_or_admin) at h) in
          subst IsKnown (ok_inj k) (admin_engine-IsKnown o.admin_name hash)
    ]
  ]

  -- What every configuration has.
  pub record IsSettled (c : Config) : Type 0 where
    pub has_addr : c.web.addr ≢ []
    pub has_secret : c.web.token_secret ≢ []
    pub has_timeout : c.web.token_timeout ≢ 0
    pub known_verbs : IsKnown c.rbac

  or_default-ne : (t default : Text) → default ≢ [] → (if t == [] then default else t) ≢ []
  or_default-ne t default h = elim (==-cases t []) [ inl (y, _) ↦ rw y h | inr (n, ne) ↦ rw n ne ]

  or_thirty-ne : (t : ℕ) → (if t == 0 then 30000000000 else t) ≢ 0
  or_thirty-ne t = elim (==-cases t 0) [
    | inl (y, _) ↦ rw y (λ e. omega (arith, e))
    | inr (n, ne) ↦ rw n ne
  ]

  -- Every configuration that `New` yields, whatever its settings are, has an address, a token secret
  -- and a timeout for tokens, if the random text has a byte; and the verbs of its roles are methods
  -- that the registry knows.
  pub new-IsSettled :
      (settings : List Setting) (c : Config)
      → sys.random_text ≢ []
      → new sys settings ≡ ok c
      → IsSettled c
  unfolding new web_settings
  new-IsSettled settings c random h =
      let finish : Options → Source → Engine → Result Config = λ o source engine.
        ok (record { web = web_settings sys o; rbac = engine; data_source = source }) in
      let ruled : Options → Source → Result Config =
        λ o source. and_then (engine_or_admin sys o) (finish o source) in
      let (o, x, h1) =
        and_then_ok (apply_all sys settings no_options)
          (λ o. and_then (source_or_panic o.source) (ruled o)) h in
      let (source, _, h2) = and_then_ok (source_or_panic o.source) (ruled o) h1 in
      let (engine, y, h3) = and_then_ok (engine_or_admin sys o) (finish o source) h2 in
      let known = apply_all-HasKnown settings no_options o x (λ e z. absurd (cc)) in
      subst IsSettled (ok_inj h3) (record {
        has_addr = or_default-ne o.addr (codes "0.0.0.0:5000") (λ e. cc);
        has_secret = or_default-ne o.token_secret sys.random_text random;
        has_timeout = or_thirty-ne o.token_timeout;
        known_verbs = engine_or_admin-IsKnown o engine known y;
      })
