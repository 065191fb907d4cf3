-- ===== src/Serve/Laws.antt =====
-- Which of the flags the manifests cannot replace.
use simple_registry.Base.{
  Bool, true, false, List, [], ◌∷◌, ◌++◌, ◌==◌, nat_eq, list_eq, Text, Result, ok, ◌≡◌, ◌⊎◌, refl,
  sym, ◌∙◌, ap, subst, inl, inr, if◌then◌else◌, ==_of_ne, ==-cases, append-nil,
}
use simple_registry.Config.{
  System, Options, no_options, Setting, Config, Source, and_then, source_or_panic, engine_or_admin,
  web_settings, apply, apply_all, new, addr, ui, cert_file, key_file,
}
use simple_registry.Rbac.{Engine}
use simple_registry.Config.Settled.{ok_inj, and_then_ok}
use simple_registry.Serve.{
  Flags, when, is_set, early_options, late_options, build_options, build_config,
}

if_get :
    {A : Type 0} (get : Options → A) (b : Bool) (x y : Options)
    → get x ≡ get y
    → get (if b then x else y) ≡ get y
if_get get true x y h = h
if_get get false x y h = refl

-- A flag that is set is what its option sets.
set_or_empty :
    (get : Options → Text) (t : Text) (x y : Options)
    → get x ≡ t
    → (t ≡ []) ⊎ (get (if is_set t then x else y) ≡ t)
set_or_empty get [] x y h = inl refl
set_or_empty get (c ∷ t) x y h = inr (rw (==_of_ne {a = c ∷ t} {b = []} (λ e. cc)) h)

module _ (sys : System) where
  apply_all-append :
      (a b : List Setting) (o o' : Options)
      → apply_all sys (a ++ b) o ≡ ok o'
      → (p : Options) × (apply_all sys b p ≡ ok o')
  unfolding apply_all
  apply_all-append [] b o o' h = (o, h)
  apply_all-append (s ∷ a) b o o' h =
      let (p, _, k) = and_then_ok (apply sys s o) (apply_all sys (a ++ b)) h in
      apply_all-append a b p o' k

  -- What an option that may be there does to what all later ones leave as it was.
  apply_all-when :
      (b : Bool) (s : Setting) (rest : List Setting) (set : Options → Options) (o o' : Options)
      → ((p : Options) → apply sys s p ≡ ok (set p))
      → apply_all sys (when b s ++ rest) o ≡ ok o'
      → (p : Options) × (p ≡ (if b then set o else o)) × (apply_all sys rest p ≡ ok o')
  unfolding apply_all
  apply_all-when true s rest set o o' same h =
      let (p, x, k) = and_then_ok (apply sys s o) (apply_all sys rest) h in
      (p, ok_inj (sym x ∙ same o), k)
  apply_all-when false s rest set o o' same h = (o, refl, h)

  -- The options from the address on, one after the other.
  record Late (f : Flags) (o : Options) : Type 0 where
    p : Options
    p1 : Options
    p2 : Options
    p3 : Options
    at_addr : p1 ≡ (if is_set f.addr then record p { addr = f.addr } else p)
    at_ui : p2 ≡ (if f.ui then record p1 { ui = f.ui } else p1)
    at_cert : p3 ≡ (if is_set f.cert_file then record p2 { cert_file = f.cert_file } else p2)
    at_key : o ≡ (if is_set f.key_file then record p3 { key_file = f.key_file } else p3)

  build_options-Late :
      (f : Flags) (o : Options) → apply_all sys (build_options f) no_options ≡ ok o → Late f o
  unfolding build_options late_options apply apply_all
  build_options-Late f o h =
      let (p, k) = apply_all-append (early_options f) (late_options f) no_options o h in
      let (p1, e1, k1) =
        apply_all-when (is_set f.addr) (addr f.addr) _ (λ z. record z { addr = f.addr }) p o
          (λ z. refl) k in
      let (p2, e2, k2) =
        apply_all-when f.ui (ui f.ui) _ (λ z. record z { ui = f.ui }) p1 o (λ z. refl) k1 in
      let (p3, e3, k3) =
        apply_all-when (is_set f.cert_file) (cert_file f.cert_file) _
          (λ z. record z { cert_file = f.cert_file }) p2 o (λ z. refl) k2 in
      let last =
        subst (λ l. apply_all sys l p3 ≡ ok o)
          (sym (append-nil (when (is_set f.key_file) (key_file f.key_file)))) k3 in
      let (p4, e4, k4) =
        apply_all-when (is_set f.key_file) (key_file f.key_file) []
          (λ z. record z { key_file = f.key_file }) p3 o (λ z. refl) last in
      record {
        p = p;
        p1 = p1;
        p2 = p2;
        p3 = p3;
        at_addr = e1;
        at_ui = e2;
        at_cert = e3;
        at_key = sym (ok_inj k4) ∙ e4;
      }

  Late-addr : (f : Flags) (o : Options) → Late f o → (f.addr ≡ []) ⊎ (o.addr ≡ f.addr)
  Late-addr f o l =
      let kept : o.addr ≡ l.p1.addr =
        ap (λ z. z.addr) l.at_key
        ∙ if_get (λ z. z.addr) (is_set f.key_file) _ l.p3 refl
        ∙ ap (λ z. z.addr) l.at_cert
        ∙ if_get (λ z. z.addr) (is_set f.cert_file) _ l.p2 refl
        ∙ ap (λ z. z.addr) l.at_ui
        ∙ if_get (λ z. z.addr) f.ui _ l.p1 refl in
      elim (set_or_empty (λ z. z.addr) f.addr (record l.p { addr = f.addr }) l.p refl) [
        | inl e ↦ inl e
        | inr e ↦ inr (kept ∙ ap (λ z. z.addr) l.at_addr ∙ e)
      ]

  Late-key : (f : Flags) (o : Options) → Late f o → (f.key_file ≡ []) ⊎ (o.key_file ≡ f.key_file)
  Late-key f o l =
      elim (set_or_empty (λ z. z.key_file) f.key_file (record l.p3 { key_file = f.key_file }) l.p3
        refl) [ inl e ↦ inl e | inr e ↦ inr (ap (λ z. z.key_file) l.at_key ∙ e) ]

  Late-cert :
      (f : Flags) (o : Options) → Late f o → (f.cert_file ≡ []) ⊎ (o.cert_file ≡ f.cert_file)
  Late-cert f o l =
      let kept : o.cert_file ≡ l.p3.cert_file =
        ap (λ z. z.cert_file) l.at_key
        ∙ if_get (λ z. z.cert_file) (is_set f.key_file) _ l.p3 refl in
      elim (set_or_empty (λ z. z.cert_file) f.cert_file (record l.p2 { cert_file = f.cert_file })
        l.p2 refl) [ inl e ↦ inl e | inr e ↦ inr (kept ∙ ap (λ z. z.cert_file) l.at_cert ∙ e) ]

  -- The address, the certificate and the key of the configuration are those of the flags where these
  -- are set, whatever the manifests of the directories say.
  pub build_config-flags :
      (f : Flags) (c : Config)
      → build_config sys f ≡ ok c
      → ((f.addr ≡ []) ⊎ (c.web.addr ≡ f.addr))
        × ((f.cert_file ≡ []) ⊎ (c.web.cert_file ≡ f.cert_file))
        × ((f.key_file ≡ []) ⊎ (c.web.key_file ≡ f.key_file))
  unfolding new web_settings
  build_config-flags f c h =
      let finish : Options → Source → Engine → Result Config = λ o source engine.
        ok (record { web = web_settings sys o; rbac = engine; data_source = source }) in
      let ruled : Options → Source → Result Config =
        λ o source. and_then (engine_or_admin sys o) (finish o source) in
      let (o, x, h1) =
        and_then_ok (apply_all sys (build_options f) no_options)
          (λ o. and_then (source_or_panic o.source) (ruled o)) h in
      let (source, _, h2) = and_then_ok (source_or_panic o.source) (ruled o) h1 in
      let (engine, _, h3) = and_then_ok (engine_or_admin sys o) (finish o source) h2 in
      let l = build_options-Late f o x in
      let web = ap (λ z. z.web) (ok_inj h3) in
      (
        elim (Late-addr f o l) [
          | inl e ↦ inl e
          | inr e ↦ elim (==-cases f.addr []) [
            | inl (_, n) ↦ inl n
            | inr (_, ne) ↦
                let set : (o.addr == []) ≡ false = ==_of_ne (λ z. ne (sym e ∙ z)) in
                inr (sym (ap (λ w. w.addr) web) ∙ (rw set e))
          ]
        ],
        elim (Late-cert f o l) [
          | inl e ↦ inl e
          | inr e ↦ inr (sym (ap (λ w. w.cert_file) web) ∙ e)
        ],
        elim (Late-key f o l) [ inl e ↦ inl e | inr e ↦ inr (sym (ap (λ w. w.key_file) web) ∙ e) ],
      )
