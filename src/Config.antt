-- ===== src/Config.antt =====
-- internal/config: the configuration that the command line and the YAML manifests give. `Manifests`
-- is manifests.go, `Directory` is yaml.go, this file is config.go.
pub mod Manifests
pub mod Directory
pub mod Laws
pub mod Settled
mod Tests
use simple_registry.Base.{
  ℕ, ◌^◌, Bool, true, false, not, ◌&&◌, ◌||◌, Option, none, some, List, [], ◌∷◌, ◌++◌, ◌==◌, nat_eq,
  list_eq, Text, codes, Error, Result, ok, err, panic, contains, if◌then◌else◌, ltb,
}
use simple_registry.Proxy.Upstream.{Proxy}
use simple_registry.Rbac.{User, Role, Subject, RoleBinding, Engine}
use simple_registry.Config.Manifests.{
  Manifest, Web, engine_of, proxies_of, data_dir_of, web_of, no_web,
}

-- Where the storage is: a directory, or the same behind proxies.
pub data Source : Type 0 where
  directory : Text → Source
  proxied : Text → List Proxy → Source

-- What the code asks of the system and of the libraries.
pub record System : Type 0 where
  -- `os.ReadFile`.
  pub read_file : Text → Result Text
  -- `os.MkdirAll`.
  pub make_dir : Text → Result (Unit {0})
  -- `regexp.Compile`, as the test that `MatchString` makes.
  pub compile : Text → Result (Text → Bool)
  -- `bcrypt.GenerateFromPassword` with the default cost.
  pub hash_password : Text → Result Text
  -- `rand.Text`.
  pub random_text : Text
  -- `parseYamlDir`.
  pub parse_yaml_dir : Text → Result (List Manifest)

pub record Options : Type 0 where
  pub admin_name : Text
  pub admin_pwd : Text
  pub token_secret : Text
  -- A duration in nanoseconds, in two's complement on 64 bits.
  pub token_timeout : ℕ
  pub addr : Text
  pub ui : Bool
  pub cert_file : Text
  pub key_file : Text
  pub rbac_engine : Option Engine
  pub source : Option Source

abbrev pub no_options : Options
no_options = record {
  admin_name = [];
  admin_pwd = [];
  token_secret = [];
  token_timeout = 0;
  addr = [];
  ui = false;
  cert_file = [];
  key_file = [];
  rbac_engine = none;
  source = none;
}

-- The functions `With...`; each takes the options to the next ones, or panics.
pub data Setting : Type 0 where
  admin_name admin_pwd admin_pwd_file token_secret token_secret_file data_dir addr cert_file
        key_file :
      Text → Setting
  token_timeout : ℕ → Setting
  ui : Bool → Setting
  cfg_dirs : List Text → Setting

pub record Config : Type 0 where
  pub web : Web
  pub rbac : Engine
  pub data_source : Source

-- `if err != nil { panic(err) }`.
abbrev pub or_panic : {A : Type 0} → Result A → Result A
or_panic (ok a) = ok a
or_panic (err e) = err panic

abbrev pub and_then {ℓ κ} : {A : Type ℓ} {B : Type κ} → Result A → (A → Result B) → Result B
and_then (ok a) f = f a
and_then (err e) f = err e

-- A duration that is greater than zero.
abbrev pub is_positive : ℕ → Bool
is_positive t = not (t == 0) && ltb t (2 ^ 63)

-- "^.*$": a dot matches all but a line feed.
abbrev pub every_scope : Text → Bool
every_scope s = not (contains s 10)

abbrev pub write_verbs : List Text
write_verbs =
    codes "HEAD" ∷ codes "GET" ∷ codes "POST" ∷ codes "PUT" ∷ codes "PATCH" ∷ codes "DELETE" ∷ []

-- The rules of a registry that is given no manifests.
abbrev pub admin_user : Text → Text → User
admin_user name hash = record {
  name = name;
  password_hash = hash;
  groups = codes "admins" ∷ codes "public" ∷ [];
}

abbrev pub write_role : Role
write_role = record { name = codes "write"; resources = codes "*" ∷ []; verbs = write_verbs }

abbrev pub read_role : Role
read_role = record {
  name = codes "readonly";
  resources = codes "*" ∷ [];
  verbs = codes "HEAD" ∷ codes "GET" ∷ [];
}

abbrev pub admin_binding : RoleBinding
admin_binding = record {
  name = codes "admins";
  subjects = record { kind = codes "Group"; name = codes "admins" } ∷ [];
  role_name = codes "write";
  scopes = every_scope ∷ [];
}

unfoldable pub admin_engine : Text → Text → Engine
admin_engine name hash = record {
  tokens = [];
  users = admin_user name hash ∷ [];
  roles = write_role ∷ read_role ∷ [];
  role_bindings = admin_binding ∷ [];
}

-- The settings of the manifests that are set replace those of the options.
unfoldable pub with_web : Web → Options → Options
with_web web o = record o {
  addr = if web.addr == [] then o.addr else web.addr;
  token_secret = if web.token_secret == [] then o.token_secret else web.token_secret;
  token_timeout = if is_positive web.token_timeout then web.token_timeout else o.token_timeout;
  ui = web.ui || o.ui;
  cert_file = if web.cert_file == [] then o.cert_file else web.cert_file;
  key_file = if web.key_file == [] then o.key_file else web.key_file;
}

abbrev pub source_or_panic : Option Source → Result Source
source_or_panic none = err panic
source_or_panic (some s) = ok s

module _ (sys : System) where
  -- The manifests of all directories, in their order.
  unfoldable pub parse_dirs : List Text → Result (List Manifest)
  parse_dirs [] = ok []
  parse_dirs (dir ∷ dirs) =
      let rest = parse_dirs dirs in
      and_then (or_panic (sys.parse_yaml_dir dir)) (λ ms. and_then rest (λ more. ok (ms ++ more)))

  unfoldable pub with_data_dir : Text → List Proxy → Options → Result Options
  with_data_dir [] proxies o = ok o
  with_data_dir (c ∷ dir) proxies o =
      and_then (or_panic (sys.make_dir (c ∷ dir)))
        (λ _. ok (record o { source = some (proxied (c ∷ dir) proxies) }))

  -- `WithCfgDirs`, once the directories have been read.
  unfoldable pub with_manifests : List Manifest → Options → Result Options
  with_manifests manifests o = and_then (or_panic (engine_of sys.compile manifests)) (λ engine.
      and_then (or_panic (proxies_of sys.read_file manifests)) (λ proxies.
        and_then
          (with_data_dir (data_dir_of manifests) proxies (record o { rbac_engine = some engine }))
          (λ o'. ok (with_web (web_of manifests) o'))))

  unfoldable pub apply : Setting → Options → Result Options
  apply (admin_name name) o = ok (record o { admin_name = name })
  apply (admin_pwd pwd) o = ok (record o { admin_pwd = pwd })
  apply (admin_pwd_file file) o =
      and_then (or_panic (sys.read_file file)) (λ b. ok (record o { admin_pwd = b }))
  apply (token_secret secret) o = ok (record o { token_secret = secret })
  apply (token_secret_file file) o =
      and_then (or_panic (sys.read_file file)) (λ b. ok (record o { token_secret = b }))
  apply (token_timeout t) o = ok (record o { token_timeout = t })
  apply (data_dir dir) o =
      and_then (or_panic (sys.make_dir dir)) (λ _. ok (record o { source = some (directory dir) }))
  apply (addr a) o = ok (record o { addr = a })
  apply (ui enable) o = ok (record o { ui = enable })
  apply (cert_file file) o = ok (record o { cert_file = file })
  apply (key_file file) o = ok (record o { key_file = file })
  apply (cfg_dirs dirs) o = and_then (parse_dirs dirs) (λ manifests. with_manifests manifests o)

  unfoldable pub apply_all : List Setting → Options → Result Options
  apply_all [] o = ok o
  apply_all (s ∷ settings) o = and_then (apply s o) (apply_all settings)

  unfoldable pub engine_or_admin : Options → Result Engine
  engine_or_admin o = elim o.rbac_engine [
    | some engine ↦ ok engine
    | none ↦
        if o.admin_pwd == []
        then err panic
        else and_then (sys.hash_password o.admin_pwd) (λ hash. ok (admin_engine o.admin_name hash))
  ]

  -- The settings of the server, with the defaults: thirty seconds is in nanoseconds.
  unfoldable pub web_settings : Options → Web
  web_settings o = record {
    addr = if o.addr == [] then codes "0.0.0.0:5000" else o.addr;
    token_secret = if o.token_secret == [] then sys.random_text else o.token_secret;
    token_timeout = if o.token_timeout == 0 then 30000000000 else o.token_timeout;
    ui = o.ui;
    cert_file = o.cert_file;
    key_file = o.key_file;
  }

  -- `New`.
  unfoldable pub new : List Setting → Result Config
  new settings = and_then (apply_all settings no_options) (λ o.
      and_then (source_or_panic o.source) (λ source.
        and_then (engine_or_admin o)
          (λ engine. ok (record { web = web_settings o; rbac = engine; data_source = source }))))
