-- ===== src/Collector/Laws.antt =====
-- The collector works on the storage that the server serves.
use simple_registry.Base.{
  inl, inr, ◌⊎◌, not, ◌==◌, nat_eq, list_eq, if◌then◌else◌, ℕ, Bool, true, false, Option, none,
  some, List, [], ◌∷◌, ◌++◌, Text, codes, Result, ok, err, Action, lift, ◌>>=◌, ◌≡◌, refl, sym, ◌∙◌,
  ap, subst, append-nil,
}
use simple_registry.Config.{
  System, Options, no_options, Setting, Config, Source, directory, proxied, or_panic, and_then,
  parse_dirs, with_data_dir, with_manifests, with_web, apply, apply_all, new, source_or_panic,
  engine_or_admin, web_settings, admin_name, admin_pwd, admin_pwd_file, token_secret,
  token_secret_file, data_dir, addr, cert_file, key_file, token_timeout, ui, cfg_dirs,
}
use simple_registry.Config.Manifests.{Manifest, engine_of, proxies_of, data_dir_of, web_of}
use simple_registry.Config.Settled.{ok_inj, and_then_ok}
use simple_registry.Rbac.{Engine}
use simple_registry.Proxy.Upstream.{Proxy}
use simple_registry.Serve.{
  Flags, when, is_set, has_dirs, early_options, late_options, build_options, build_config,
}
use simple_registry.Storage.{DataStorage}
use simple_registry.Garbage.Mark.{Decoders}
use simple_registry.Garbage.Sweep.{Report, garbage_collect}
use simple_registry.Collector.Accepts.{collector_options-IsOk}
use simple_registry.Collector.Password.{engine_or_admin-collector}
use simple_registry.Collector.{CollectorFlags, without_proxy, collector_options, run_collector}

lift_ok :
    {S A B : Type 0} (a : A) (f : A → Action S B) → ◌≡◌ {A = Action S B} (lift (ok a) >>= f) (f a)
lift_ok a f = refl

-- The storage is in the directory, behind proxies or not.
pub IsIn : Text → Source → Type 0
IsIn dir source =
    (source ≡ directory dir) ⊎ ((proxies : List Proxy) × (source ≡ proxied dir proxies))

without_proxy-IsIn : (s : Source) → (dir : Text) × IsIn dir s × (without_proxy s ≡ directory dir)
unfolding without_proxy IsIn
without_proxy-IsIn (directory dir) = (dir, inl refl, refl)
without_proxy-IsIn (proxied dir proxies) = (dir, inr (proxies, refl), refl)

-- The storage after the directories' manifests.
proxied_or : Text → List Proxy → Option Source → Option Source
proxied_or [] proxies source = source
proxied_or (c ∷ dir) proxies source = some (proxied (c ∷ dir) proxies)

or_else : {A : Type 0} → (A → Option Source) → Option Source → Result A → Option Source
or_else f source (ok a) = f a
or_else f source (err e) = source

or_else_ok :
    {A : Type 0} (f : A → Option Source) (source : Option Source) (r : Result A) {a : A}
    → r ≡ ok a
    → or_else f source r ≡ f a
unfolding or_else
or_else_ok f source r h = rw h refl

-- What a setting does to the storage, the other options aside.
module _ (sys : System) where
  from_manifests : Option Source → List Manifest → Option Source
  from_manifests source manifests =
      or_else (λ proxies. proxied_or (data_dir_of manifests) proxies source) source
        (or_panic (proxies_of sys.read_file manifests))

  effect : Setting → Option Source → Option Source
  effect (admin_name name) source = source
  effect (admin_pwd pwd) source = source
  effect (admin_pwd_file file) source = source
  effect (token_secret secret) source = source
  effect (token_secret_file file) source = source
  effect (token_timeout t) source = source
  effect (data_dir dir) source = some (directory dir)
  effect (addr a) source = source
  effect (ui enable) source = source
  effect (cert_file file) source = source
  effect (key_file file) source = source
  effect (cfg_dirs dirs) source = or_else (from_manifests source) source (parse_dirs sys dirs)

  effects : List Setting → Option Source → Option Source
  effects [] source = source
  effects (s ∷ settings) source = effects settings (effect s source)

  with_data_dir-source :
      (dir : Text) (proxies : List Proxy) (o o' : Options)
      → with_data_dir sys dir proxies o ≡ ok o'
      → o'.source ≡ proxied_or dir proxies o.source
  unfolding with_data_dir proxied_or
  with_data_dir-source [] proxies o o' h = ap (λ z. z.source) (sym (ok_inj h))
  with_data_dir-source (c ∷ dir) proxies o o' h =
      let (_, _, k) =
        and_then_ok (or_panic (sys.make_dir (c ∷ dir)))
          (λ _. ok (record o { source = some (proxied (c ∷ dir) proxies) })) h in
      ap (λ z. z.source) (sym (ok_inj k))

  with_manifests-source :
      (manifests : List Manifest) (o o' : Options)
      → with_manifests sys manifests o ≡ ok o'
      → o'.source ≡ from_manifests o.source manifests
  unfolding with_manifests with_web from_manifests
  with_manifests-source manifests o o' h =
      let last : Options → Result Options = λ p. ok (with_web (web_of manifests) p) in
      let dirs : Engine → List Proxy → Result Options = λ engine proxies.
        and_then
          (with_data_dir sys (data_dir_of manifests) proxies
            (record o { rbac_engine = some engine }))
          last in
      let (engine, _, h1) =
        and_then_ok (or_panic (engine_of sys.compile manifests))
          (λ engine. and_then (or_panic (proxies_of sys.read_file manifests)) (dirs engine)) h in
      let (proxies, x, h2) =
        and_then_ok (or_panic (proxies_of sys.read_file manifests)) (dirs engine) h1 in
      let (p, y, h3) =
        and_then_ok
          (with_data_dir sys (data_dir_of manifests) proxies
            (record o { rbac_engine = some engine }))
          last h2 in
      ap (λ z. z.source) (sym (ok_inj h3))
      ∙ with_data_dir-source (data_dir_of manifests) proxies
          (record o { rbac_engine = some engine }) p y
      ∙ sym (
          or_else_ok (λ proxies. proxied_or (data_dir_of manifests) proxies o.source) o.source
            (or_panic (proxies_of sys.read_file manifests)) x)

  apply-source :
      (s : Setting) (o o' : Options) → apply sys s o ≡ ok o' → o'.source ≡ effect s o.source
  unfolding apply effect
  apply-source (admin_name name) o o' h = ap (λ z. z.source) (sym (ok_inj h))
  apply-source (admin_pwd pwd) o o' h = ap (λ z. z.source) (sym (ok_inj h))
  apply-source (admin_pwd_file file) o o' h =
      let (_, _, k) =
        and_then_ok (or_panic (sys.read_file file)) (λ b. ok (record o { admin_pwd = b })) h in
      ap (λ z. z.source) (sym (ok_inj k))
  apply-source (token_secret secret) o o' h = ap (λ z. z.source) (sym (ok_inj h))
  apply-source (token_secret_file file) o o' h =
      let (_, _, k) =
        and_then_ok (or_panic (sys.read_file file)) (λ b. ok (record o { token_secret = b })) h in
      ap (λ z. z.source) (sym (ok_inj k))
  apply-source (token_timeout t) o o' h = ap (λ z. z.source) (sym (ok_inj h))
  apply-source (data_dir dir) o o' h =
      let (_, _, k) =
        and_then_ok (or_panic (sys.make_dir dir))
          (λ _. ok (record o { source = some (directory dir) })) h in
      ap (λ z. z.source) (sym (ok_inj k))
  apply-source (addr a) o o' h = ap (λ z. z.source) (sym (ok_inj h))
  apply-source (ui enable) o o' h = ap (λ z. z.source) (sym (ok_inj h))
  apply-source (cert_file file) o o' h = ap (λ z. z.source) (sym (ok_inj h))
  apply-source (key_file file) o o' h = ap (λ z. z.source) (sym (ok_inj h))
  apply-source (cfg_dirs dirs) o o' h =
      let (manifests, x, k) =
        and_then_ok (parse_dirs sys dirs) (λ manifests. with_manifests sys manifests o) h in
      with_manifests-source manifests o o' k
      ∙ sym (or_else_ok (from_manifests o.source) o.source (parse_dirs sys dirs) x)

  apply_all-source :
      (l : List Setting) (o o' : Options)
      → apply_all sys l o ≡ ok o'
      → o'.source ≡ effects l o.source
  unfolding apply_all effects
  apply_all-source [] o o' h = ap (λ z. z.source) (sym (ok_inj h))
  apply_all-source (s ∷ l) o o' h =
      let (p, x, k) = and_then_ok (apply sys s o) (apply_all sys l) h in
      apply_all-source l p o' k ∙ ap (effects l) (apply-source s o p x)

  effects-append :
      (a b : List Setting) (source : Option Source)
      → effects (a ++ b) source ≡ effects b (effects a source)
  unfolding effects
  effects-append [] b source = refl
  effects-append (s ∷ a) b source = effects-append a b (effect s source)

  -- An option that does not touch the storage, whether it is there or not.
  effects-when :
      (b : Bool) (s : Setting) (rest : List Setting) (source : Option Source)
      → effect s source ≡ source
      → effects (when b s ++ rest) source ≡ effects rest source
  unfolding effects
  effects-when true s rest source h = ap (effects rest) h
  effects-when false s rest source h = refl

  effects-quiet :
      (l : List Setting) (source : Option Source)
      → effects (l ++ []) source ≡ source
      → effects l source ≡ source
  effects-quiet l source h = subst (λ m. effects m source ≡ source) (append-nil l) h

  effects-late : (f : Flags) (source : Option Source) → effects (late_options f) source ≡ source
  unfolding late_options effects effect
  effects-late f source =
      effects-when (is_set f.addr) (addr f.addr) _ source refl
      ∙ effects-when f.ui (ui f.ui) _ source refl
      ∙ effects-when (is_set f.cert_file) (cert_file f.cert_file) _ source refl
      ∙ effects-quiet (when (is_set f.key_file) (key_file f.key_file)) source
          (effects-when (is_set f.key_file) (key_file f.key_file) [] source refl)

  -- An option from a file or, without one, from a flag.
  effects-choice :
      (file : Bool) (s : Setting) (b : Bool) (s' : Setting) (rest : List Setting)
      (source : Option Source)
      → effect s source ≡ source
      → effect s' source ≡ source
      → effects ((if file then s ∷ [] else when b s') ++ rest) source ≡ effects rest source
  unfolding effects
  effects-choice true s b s' rest source h h' = ap (effects rest) h
  effects-choice false s b s' rest source h h' = effects-when b s' rest source h'

  -- The two options that both commands take.
  shared : Text → List Text → Option Source
  shared dir dirs =
      effects (when (has_dirs dirs) (cfg_dirs dirs))
        (effects (when (is_set dir) (data_dir dir)) none)

  effects-server : (f : Flags) → effects (build_options f) none ≡ shared f.data_dir f.cfg_dir
  unfolding build_options early_options shared effect
  effects-server f =
      let s = effects (when (is_set f.data_dir) (data_dir f.data_dir)) none in
      effects-append (early_options f) (late_options f) none
      ∙ effects-late f (effects (early_options f) none)
      ∙ effects-append (when (is_set f.data_dir) (data_dir f.data_dir)) _ none
      ∙ effects-when (is_set f.admin_name) (admin_name f.admin_name) _ s refl
      ∙ effects-choice (is_set f.admin_pwd_file) (admin_pwd_file f.admin_pwd_file)
          (is_set f.admin_pwd) (admin_pwd f.admin_pwd) _ s refl refl
      ∙ effects-choice (is_set f.token_secret_file) (token_secret_file f.token_secret_file)
          (is_set f.token_secret) (token_secret f.token_secret) _ s refl refl
      ∙ effects-when (not (f.token_timeout == 0)) (token_timeout f.token_timeout) _ s refl

  effects-collector :
      (f : CollectorFlags) → effects (collector_options f) none ≡ shared f.data_dir f.cfg_dir
  unfolding collector_options shared effects effect
  effects-collector f =
      effects-append (when (is_set f.data_dir) (data_dir f.data_dir))
        (when (has_dirs f.cfg_dir) (cfg_dirs f.cfg_dir)) none

  source_or_panic_ok : (o : Option Source) {s : Source} → source_or_panic o ≡ ok s → o ≡ some s
  source_or_panic_ok none h = absurd (cc)
  source_or_panic_ok (some s) h = ap some (ok_inj h)

  server-source :
      (f : Flags) (c : Config)
      → build_config sys f ≡ ok c
      → (o : Options) × (apply_all sys (build_options f) no_options ≡ ok o)
        × (shared f.data_dir f.cfg_dir ≡ some c.data_source)
  unfolding new
  server-source f c h =
      let finish : Options → Source → Engine → Result Config = λ o source engine.
        ok (record { web = web_settings sys o; rbac = engine; data_source = source }) in
      let ruled : Options → Source → Result Config =
        λ o source. and_then (engine_or_admin sys o) (finish o source) in
      let (o, x, h1) =
        and_then_ok (apply_all sys (build_options f) no_options)
          (λ o. and_then (source_or_panic o.source) (ruled o)) h in
      let (source, y, h2) = and_then_ok (source_or_panic o.source) (ruled o) h1 in
      let (engine, _, h3) = and_then_ok (engine_or_admin sys o) (finish o source) h2 in
      (
        o,
        x,
        sym (effects-server f)
            ∙ sym (apply_all-source (build_options f) no_options o x)
            ∙ source_or_panic_ok o.source y
            ∙ ap (λ z. some z.data_source) (ok_inj h3),
      )

  -- The collector's configuration.
  new-collector :
      (f : Flags) (g : CollectorFlags) (c : Config) (hash : Text)
      → g.data_dir ≡ f.data_dir
      → g.cfg_dir ≡ f.cfg_dir
      → sys.hash_password (codes "-") ≡ ok hash
      → build_config sys f ≡ ok c
      → (c' : Config) × (new sys (collector_options g) ≡ ok c') × (c'.data_source ≡ c.data_source)
  unfolding new
  new-collector f g c hash same_dir same_dirs hashed h =
      let (o, x, at) = server-source f c h in
      let (o', x') = collector_options-IsOk sys f g o same_dir same_dirs x in
      let (engine, y) = engine_or_admin-collector sys g o' hash x' hashed in
      let at' : o'.source ≡ some c.data_source =
        apply_all-source (collector_options g) no_options o' x'
        ∙ effects-collector g
        ∙ ap (λ d. shared d g.cfg_dir) same_dir
        ∙ ap (shared f.data_dir) same_dirs
        ∙ at in
      (
        record { web = web_settings sys o'; rbac = engine; data_source = c.data_source },
        rw (x', at', y) refl,
        refl,
      )

  -- Where the server has a configuration, the collector with the same directories in its flags runs
  -- a collection on the directory that the server's storage is in, without the server's proxies, as
  -- long as a password can be hashed.
  pub run_collector-Serves :
      {S : Type 0} (storage : Source → DataStorage S) (decoders : Decoders) (fuel now : ℕ)
      (f : Flags) (g : CollectorFlags) (c : Config) (hash : Text)
      → g.data_dir ≡ f.data_dir
      → g.cfg_dir ≡ f.cfg_dir
      → sys.hash_password (codes "-") ≡ ok hash
      → build_config sys f ≡ ok c
      → (dir : Text) × IsIn dir c.data_source
        × (run_collector storage decoders sys fuel now g
            ≡ garbage_collect
                (storage (directory dir))
                decoders
                fuel
                now
                g.dry_run
                g.last_access
                g.delete_untagged)
  unfolding run_collector
  run_collector-Serves {S} storage decoders fuel now f g c hash same_dir same_dirs hashed h =
      let (c', x, at) = new-collector f g c hash same_dir same_dirs hashed h in
      let (dir, place, below) = without_proxy-IsIn c.data_source in
      let collect : Source → Action S Report = λ source.
        garbage_collect (storage source) decoders fuel now g.dry_run g.last_access
          g.delete_untagged in
      let step : Config → Action S Report = λ z. collect (without_proxy z.data_source) in
      (
        dir,
        place,
        ap (λ r. lift r >>= step) x
            ∙ lift_ok c' step
            ∙ ap (λ z. collect (without_proxy z)) at
            ∙ ap collect below,
      )
