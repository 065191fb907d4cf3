-- ===== src/Collector/Accepts.antt =====
-- A configuration that the server gets, the collector gets too.
use simple_registry.Base.{
  In, In-append, In-append_left, In-append_right, inl, inr, not, some, List, [], ◌∷◌, ◌++◌, ◌==◌,
  nat_eq, list_eq, Text, Result, ok, err, ◌≡◌, refl, sym, subst, if◌then◌else◌,
}
use simple_registry.Config.{
  System, Options, no_options, Setting, or_panic, and_then, parse_dirs, with_data_dir,
  with_manifests, with_web, apply, apply_all, admin_name, admin_pwd, admin_pwd_file, token_secret,
  token_secret_file, data_dir, addr, cert_file, key_file, token_timeout, ui, cfg_dirs,
}
use simple_registry.Config.Manifests.{Manifest, engine_of, proxies_of, data_dir_of, web_of}
use simple_registry.Config.Settled.{and_then_ok}
use simple_registry.Proxy.Upstream.{Proxy}
use simple_registry.Serve.{
  early_options, late_options, Flags, when, is_set, has_dirs, build_options,
}
use simple_registry.Collector.{CollectorFlags, collector_options}

IsOk : {A : Type 0} → Result A → Type 0
IsOk {A} r = (a : A) × (r ≡ ok a)

then_IsOk :
    {A B : Type 0} (r : Result A) (f g : A → Result B)
    → IsOk (and_then r f)
    → ((a : A) → IsOk (f a) → IsOk (g a))
    → IsOk (and_then r g)
unfolding IsOk
then_IsOk (ok a) f g h next = next a h
then_IsOk (err e) f g (b, h) next = absurd (cc)

module _ (sys : System) where
  with_data_dir-IsOk :
      (dir : Text) (proxies : List Proxy) (o p : Options)
      → IsOk (with_data_dir sys dir proxies o)
      → IsOk (with_data_dir sys dir proxies p)
  unfolding with_data_dir IsOk
  with_data_dir-IsOk [] proxies o p h = (p, refl)
  with_data_dir-IsOk (c ∷ dir) proxies o p h =
      then_IsOk (or_panic (sys.make_dir (c ∷ dir))) _ _ h (λ _ k. (_, refl))

  with_manifests-IsOk :
      (manifests : List Manifest) (o p : Options)
      → IsOk (with_manifests sys manifests o)
      → IsOk (with_manifests sys manifests p)
  unfolding with_manifests IsOk
  with_manifests-IsOk manifests o p h =
      then_IsOk (or_panic (engine_of sys.compile manifests)) _ _ h (λ engine k.
        then_IsOk (or_panic (proxies_of sys.read_file manifests)) _ _ k (λ proxies l.
          let (_, l1) = l in
          let (q, e, _) =
            and_then_ok
              (with_data_dir sys (data_dir_of manifests) proxies
                (record o { rbac_engine = some engine }))
              (λ o'. ok (with_web (web_of manifests) o')) l1 in
          let (q', e') =
            with_data_dir-IsOk (data_dir_of manifests) proxies
              (record o { rbac_engine = some engine }) (record p { rbac_engine = some engine })
              (q, e) in
          (with_web (web_of manifests) q', rw e' refl)))

  -- Whether a setting is accepted does not depend on the options before it.
  apply-IsOk : (s : Setting) (o p : Options) → IsOk (apply sys s o) → IsOk (apply sys s p)
  unfolding apply IsOk
  apply-IsOk (admin_name name) o p h = (_, refl)
  apply-IsOk (admin_pwd pwd) o p h = (_, refl)
  apply-IsOk (admin_pwd_file file) o p h =
      then_IsOk (or_panic (sys.read_file file)) _ _ h (λ _ k. (_, refl))
  apply-IsOk (token_secret secret) o p h = (_, refl)
  apply-IsOk (token_secret_file file) o p h =
      then_IsOk (or_panic (sys.read_file file)) _ _ h (λ _ k. (_, refl))
  apply-IsOk (token_timeout t) o p h = (_, refl)
  apply-IsOk (data_dir dir) o p h = then_IsOk (or_panic (sys.make_dir dir)) _ _ h (λ _ k. (_, refl))
  apply-IsOk (addr a) o p h = (_, refl)
  apply-IsOk (ui enable) o p h = (_, refl)
  apply-IsOk (cert_file file) o p h = (_, refl)
  apply-IsOk (key_file file) o p h = (_, refl)
  apply-IsOk (cfg_dirs dirs) o p h =
      then_IsOk (parse_dirs sys dirs) _ _ h (λ manifests k. with_manifests-IsOk manifests o p k)

  Accepted : Setting → Type 0
  Accepted s = (o : Options) → IsOk (apply sys s o)

  apply_all-Accepted :
      (l : List Setting) (o : Options)
      → IsOk (apply_all sys l o)
      → (s : Setting) → In s l
      → Accepted s
  unfolding apply_all IsOk Accepted
  apply_all-Accepted [] o h s i = absurd i
  apply_all-Accepted (x ∷ l) o (o', h) s i =
      let (p, x_ok, k) = and_then_ok (apply sys x o) (apply_all sys l) h in
      elim i [
        | inl e ↦ subst Accepted (sym e) (λ q. apply-IsOk x o q (p, x_ok))
        | inr j ↦ apply_all-Accepted l p (o', k) s j
      ]

  Accepted-apply_all :
      (l : List Setting)
      → ((s : Setting) → In s l → Accepted s)
      → (o : Options) → IsOk (apply_all sys l o)
  unfolding apply_all IsOk Accepted
  Accepted-apply_all [] each o = (o, refl)
  Accepted-apply_all (x ∷ l) each o =
      let (p, h) = each x (inl refl) o in rw h (Accepted-apply_all l (λ s i. each s (inr i)) p)

  collector_options-In :
      (f : Flags) (g : CollectorFlags) (s : Setting)
      → g.data_dir ≡ f.data_dir
      → g.cfg_dir ≡ f.cfg_dir
      → In s (
          when (is_set g.data_dir) (data_dir g.data_dir)
          ++ when (has_dirs g.cfg_dir) (cfg_dirs g.cfg_dir))
      → In s (build_options f)
  unfolding build_options early_options
  collector_options-In f g s same_dir same_dirs i =
      In-append_left s (early_options f) (late_options f)
        (elim (In-append s (when (is_set g.data_dir) (data_dir g.data_dir))
          (when (has_dirs g.cfg_dir) (cfg_dirs g.cfg_dir)) i) [
            | inl j ↦
                In-append_left s (when (is_set f.data_dir) (data_dir f.data_dir)) _
                  (subst (λ d. In s (when (is_set d) (data_dir d))) same_dir j)
            | inr j ↦ In-append_right s (when (is_set f.data_dir) (data_dir f.data_dir)) _ (
                In-append_right s (when (is_set f.admin_name) (admin_name f.admin_name)) _ (
                  In-append_right s
                    (if is_set f.admin_pwd_file
                      then admin_pwd_file f.admin_pwd_file ∷ []
                      else when (is_set f.admin_pwd) (admin_pwd f.admin_pwd))
                    _
                    (In-append_right s
                      (if is_set f.token_secret_file
                        then token_secret_file f.token_secret_file ∷ []
                        else when (is_set f.token_secret) (token_secret f.token_secret))
                      _
                      (In-append_right s
                        (when (not (f.token_timeout == 0)) (token_timeout f.token_timeout)) _
                        (subst (λ d. In s (when (has_dirs d) (cfg_dirs d))) same_dirs j)))))
          ])

  -- The collector's options are accepted where the server's are.
  pub collector_options-IsOk :
      (f : Flags) (g : CollectorFlags) (o : Options)
      → g.data_dir ≡ f.data_dir
      → g.cfg_dir ≡ f.cfg_dir
      → apply_all sys (build_options f) no_options ≡ ok o
      → (o' : Options) × (apply_all sys (collector_options g) no_options ≡ ok o')
  unfolding collector_options IsOk Accepted apply
  collector_options-IsOk f g o same_dir same_dirs h =
      Accepted-apply_all (collector_options g)
        (λ s i. elim i [
          | inl e ↦ subst Accepted (sym e) (λ q. (_, refl))
          | inr j ↦
              apply_all-Accepted (build_options f) no_options (o, h) s
                (collector_options-In f g s same_dir same_dirs j)
        ])
        no_options
