-- ===== src/Collector/Password.antt =====
-- The administrator's password of the collector, which it needs only for a registry without rules.
use simple_registry.Base.{
  Bool, true, false, Option, none, some, List, [], ◌∷◌, ◌++◌, nat_eq, list_eq, list_beq, Text,
  codes, Result, ok, ◌≡◌, refl, sym, ◌∙◌, ap, subst, append-nil,
}
use simple_registry.Config.{
  System, Options, no_options, Setting, proxied, directory, or_panic, and_then, parse_dirs,
  with_data_dir, with_manifests, with_web, apply, apply_all, data_dir, cfg_dirs, engine_or_admin,
  admin_engine,
}
use simple_registry.Config.Manifests.{Manifest, engine_of, proxies_of, data_dir_of, web_of}
use simple_registry.Config.Settled.{ok_inj, and_then_ok}
use simple_registry.Rbac.{Engine}
use simple_registry.Proxy.Upstream.{Proxy}
use simple_registry.Serve.{when, is_set, has_dirs}
use simple_registry.Collector.{CollectorFlags, collector_options}

-- A step that leaves the password.
Keeps : (Options → Result Options) → Type 0
Keeps f = (o o' : Options) → f o ≡ ok o' → o'.admin_pwd ≡ o.admin_pwd

module _ (sys : System) where
  with_data_dir-Keeps : (dir : Text) (proxies : List Proxy) → Keeps (with_data_dir sys dir proxies)
  unfolding with_data_dir Keeps
  with_data_dir-Keeps [] proxies = λ o o' h. ap (λ z. z.admin_pwd) (sym (ok_inj h))
  with_data_dir-Keeps (c ∷ dir) proxies = λ o o' h.
      let (_, _, k) =
        and_then_ok (or_panic (sys.make_dir (c ∷ dir)))
          (λ _. ok (record o { source = some (proxied (c ∷ dir) proxies) })) h in
      ap (λ z. z.admin_pwd) (sym (ok_inj k))

  with_manifests-Keeps : (manifests : List Manifest) → Keeps (with_manifests sys manifests)
  unfolding with_manifests with_web Keeps
  with_manifests-Keeps manifests o o' h =
      let last : Options → Result Options = λ p. ok (with_web (web_of manifests) p) in
      let dirs : Engine → List Proxy → Result Options = λ engine proxies.
        and_then
          (with_data_dir sys (data_dir_of manifests) proxies
            (record o { rbac_engine = some engine }))
          last in
      let (engine, _, h1) =
        and_then_ok (or_panic (engine_of sys.compile manifests))
          (λ engine. and_then (or_panic (proxies_of sys.read_file manifests)) (dirs engine)) h in
      let (proxies, _, h2) =
        and_then_ok (or_panic (proxies_of sys.read_file manifests)) (dirs engine) h1 in
      let (p, y, h3) =
        and_then_ok
          (with_data_dir sys (data_dir_of manifests) proxies
            (record o { rbac_engine = some engine }))
          last h2 in
      ap (λ z. z.admin_pwd) (sym (ok_inj h3))
      ∙ with_data_dir-Keeps (data_dir_of manifests) proxies (record o { rbac_engine = some engine })
          p y

  data_dir-Keeps : (dir : Text) → Keeps (apply sys (data_dir dir))
  unfolding apply Keeps
  data_dir-Keeps dir o o' h =
      let (_, _, k) =
        and_then_ok (or_panic (sys.make_dir dir))
          (λ _. ok (record o { source = some (directory dir) })) h in
      ap (λ z. z.admin_pwd) (sym (ok_inj k))

  cfg_dirs-Keeps : (dirs : List Text) → Keeps (apply sys (cfg_dirs dirs))
  unfolding apply Keeps
  cfg_dirs-Keeps dirs o o' h =
      let (manifests, _, k) =
        and_then_ok (parse_dirs sys dirs) (λ manifests. with_manifests sys manifests o) h in
      with_manifests-Keeps manifests o o' k

  when-Keeps :
      (b : Bool) (s : Setting) (rest : List Setting)
      → Keeps (apply sys s)
      → Keeps (apply_all sys rest)
      → Keeps (apply_all sys (when b s ++ rest))
  unfolding apply_all Keeps
  when-Keeps true s rest one more o o' h =
      let (p, x, k) = and_then_ok (apply sys s o) (apply_all sys rest) h in more p o' k ∙ one o p x
  when-Keeps false s rest one more o o' h = more o o' h

  nothing-Keeps : Keeps (apply_all sys [])
  unfolding apply_all Keeps
  nothing-Keeps o o' h = ap (λ z. z.admin_pwd) (sym (ok_inj h))

  collector_options-password :
      (g : CollectorFlags) (o : Options)
      → apply_all sys (collector_options g) no_options ≡ ok o
      → o.admin_pwd ≡ codes "-"
  unfolding collector_options apply_all apply Keeps
  collector_options-password g o h =
      let last = when (has_dirs g.cfg_dir) (cfg_dirs g.cfg_dir) in
      when-Keeps (is_set g.data_dir) (data_dir g.data_dir) last (data_dir-Keeps g.data_dir)
        (subst (λ l. Keeps (apply_all sys l)) (append-nil last)
          (when-Keeps (has_dirs g.cfg_dir) (cfg_dirs g.cfg_dir) [] (cfg_dirs-Keeps g.cfg_dir)
            nothing-Keeps))
        (record no_options { admin_pwd = codes "-" }) o h

  engine_or_admin-ruled :
      (e : Option Engine) (o : Options) (hash : Text)
      → o.rbac_engine ≡ e
      → o.admin_pwd ≡ codes "-"
      → sys.hash_password (codes "-") ≡ ok hash
      → (engine : Engine) × (engine_or_admin sys o ≡ ok engine)
  unfolding engine_or_admin list_beq
  engine_or_admin-ruled (some engine) o hash e pwd hashed = (engine, rw e refl)
  engine_or_admin-ruled none o hash e pwd hashed =
      (admin_engine o.admin_name hash, rw (e, pwd, hashed) refl)

  -- The collector has rules: those of the manifests, or the administrator's.
  pub engine_or_admin-collector :
      (g : CollectorFlags) (o : Options) (hash : Text)
      → apply_all sys (collector_options g) no_options ≡ ok o
      → sys.hash_password (codes "-") ≡ ok hash
      → (engine : Engine) × (engine_or_admin sys o ≡ ok engine)
  engine_or_admin-collector g o hash h hashed =
      engine_or_admin-ruled o.rbac_engine o hash refl (collector_options-password g o h) hashed
