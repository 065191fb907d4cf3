-- ===== src/Config/Manifests.antt =====
-- internal/config/manifests.go: what the manifests of a configuration add up to.
use simple_registry.Base.{
  ℕ, ◌*◌, ◌%◌, ◌^◌, Bool, false, ◌||◌, List, [], ◌∷◌, ◌++◌, ◌==◌, nat_eq, list_eq, Text, Result, ok,
  err, if◌then◌else◌,
}
use simple_registry.Proxy.Upstream.{Proxy}
use simple_registry.Rbac.{Token, User, Role, Subject, RoleBinding, Engine}
use simple_registry.Rbac.Verbs.{parse_verbs}

-- `pullThroughCacheManifest`; the timeout goes to the HTTP client and is left out, as in `Proxy`.
pub record PullThrough : Type 0 where
  pub url : Text
  pub username : Text
  pub password : Text
  pub password_file : Text
  pub scopes : List Text

pub record Web : Type 0 where
  pub addr : Text
  pub token_secret : Text
  -- In nanoseconds, in two's complement on 64 bits.
  pub token_timeout : ℕ
  pub ui : Bool
  pub cert_file : Text
  pub key_file : Text

abbrev pub no_web : Web
no_web = record {
  addr = [];
  token_secret = [];
  token_timeout = 0;
  ui = false;
  cert_file = [];
  key_file = [];
}

-- `configurationManifest`: the directory, and the settings with the timeout in seconds.
pub record Configuration : Type 0 where
  pub data_dir : Text
  pub web : Web

-- The types that `init` registers, with the fields that the code reads. The expressions of the
-- scopes are still texts.
pub data Manifest : Type 0 where
  token_manifest : Token → Manifest
  user_manifest : User → Manifest
  role_manifest : Role → Manifest
  binding_manifest : Text → List Subject → Text → List Text → Manifest
  pull_through_manifest : PullThrough → Manifest
  configuration_manifest : Configuration → Manifest

-- `time.Duration(n) * time.Second`.
abbrev pub seconds : ℕ → ℕ
seconds n = (n * 1000000000) % 2 ^ 64

abbrev pub no_rules : Engine
no_rules = record { tokens = []; users = []; roles = []; role_bindings = [] }

abbrev pub role_with : Role → Result (List Text) → Result Role
role_with r (err e) = err e
role_with r (ok verbs) = ok (record r { verbs = verbs })

abbrev pub binding_with :
    Text → List Subject → Text → Result (List (Text → Bool)) → Result RoleBinding
binding_with name subjects role (err e) = err e
binding_with name subjects role (ok scopes) =
    ok (record { name = name; subjects = subjects; role_name = role; scopes = scopes })

abbrev pub add_role : Result Role → Engine → Result Engine
add_role (err e) engine = err e
add_role (ok r) engine = ok (record engine { roles = engine.roles ++ r ∷ [] })

abbrev pub add_binding : Result RoleBinding → Engine → Result Engine
add_binding (err e) engine = err e
add_binding (ok b) engine = ok (record engine { role_bindings = engine.role_bindings ++ b ∷ [] })

abbrev pub with_compiled :
    Result (Text → Bool) → Result (List (Text → Bool)) → Result (List (Text → Bool))
with_compiled (err e) r = err e
with_compiled (ok re) (err e) = err e
with_compiled (ok re) (ok l) = ok (re ∷ l)

module _ (compile : Text → Result (Text → Bool)) where
  -- The loop over the scopes of a binding.
  unfoldable pub compile_all : List Text → Result (List (Text → Bool))
  compile_all [] = ok []
  compile_all (s ∷ scopes) = with_compiled (compile s) (compile_all scopes)

  -- The body of the loop of `getTokensUsersRolesRoleBindingsFromManifests`.
  unfoldable pub add_manifest : Manifest → Engine → Result Engine
  add_manifest (token_manifest t) engine = ok (record engine { tokens = engine.tokens ++ t ∷ [] })
  add_manifest (user_manifest u) engine = ok (record engine { users = engine.users ++ u ∷ [] })
  add_manifest (role_manifest r) engine = add_role (role_with r (parse_verbs r.verbs)) engine
  add_manifest (binding_manifest name subjects role scopes) engine =
      add_binding (binding_with name subjects role (compile_all scopes)) engine
  add_manifest (pull_through_manifest p) engine = ok engine
  add_manifest (configuration_manifest c) engine = ok engine

  unfoldable pub add_manifests : List Manifest → Engine → Result Engine
  add_manifests [] engine = ok engine
  add_manifests (m ∷ manifests) engine = elim (add_manifest m engine) [
    | err e ↦ err e
    | ok engine' ↦ add_manifests manifests engine'
  ]

  -- `getTokensUsersRolesRoleBindingsFromManifests`.
  abbrev pub engine_of : List Manifest → Result Engine
  engine_of manifests = add_manifests manifests no_rules

module _ (read_file : Text → Result Text) where
  -- A password file, if it is named, takes the place of the password.
  abbrev pub password_of : PullThrough → Result Text
  password_of p = if p.password_file == [] then ok p.password else read_file p.password_file

  abbrev proxy_with : PullThrough → Result Text → Result (List Proxy) → Result (List Proxy)
  proxy_with p (err e) r = err e
  proxy_with p (ok password) (err e) = err e
  proxy_with p (ok password) (ok l) =
      ok (record { url = p.url; username = p.username; password = password; scopes = p.scopes } ∷ l)

  -- `getProxiesFromManifests`.
  unfoldable pub proxies_of : List Manifest → Result (List Proxy)
  proxies_of [] = ok []
  proxies_of (m ∷ manifests) =
      let rest = proxies_of manifests in
      elim m [
        | pull_through_manifest p ↦ proxy_with p (password_of p) rest
        | token_manifest t ↦ rest
        | user_manifest u ↦ rest
        | role_manifest r ↦ rest
        | binding_manifest n s r c ↦ rest
        | configuration_manifest c ↦ rest
      ]

abbrev pub later : Text → Text → Text
later new old = if new == [] then old else new

-- `getDataDirFromManifests`: the loop, from the directory found so far.
unfoldable pub data_dir_from : Text → List Manifest → Text
data_dir_from dir [] = dir
data_dir_from dir (configuration_manifest c ∷ manifests) =
    data_dir_from (later c.data_dir dir) manifests
data_dir_from dir (token_manifest t ∷ manifests) = data_dir_from dir manifests
data_dir_from dir (user_manifest u ∷ manifests) = data_dir_from dir manifests
data_dir_from dir (role_manifest r ∷ manifests) = data_dir_from dir manifests
data_dir_from dir (binding_manifest n s r c ∷ manifests) = data_dir_from dir manifests
data_dir_from dir (pull_through_manifest p ∷ manifests) = data_dir_from dir manifests

abbrev pub data_dir_of : List Manifest → Text
data_dir_of = data_dir_from []

-- The settings of one manifest over those found so far.
unfoldable pub over_web : Web → Web → Web
over_web new old = record {
  addr = later new.addr old.addr;
  token_secret = later new.token_secret old.token_secret;
  token_timeout = if new.token_timeout == 0 then old.token_timeout else seconds new.token_timeout;
  ui = new.ui || old.ui;
  cert_file = later new.cert_file old.cert_file;
  key_file = later new.key_file old.key_file;
}

-- `getWebFromManifests`.
unfoldable pub web_from : Web → List Manifest → Web
web_from web [] = web
web_from web (configuration_manifest c ∷ manifests) = web_from (over_web c.web web) manifests
web_from web (token_manifest t ∷ manifests) = web_from web manifests
web_from web (user_manifest u ∷ manifests) = web_from web manifests
web_from web (role_manifest r ∷ manifests) = web_from web manifests
web_from web (binding_manifest n s r c ∷ manifests) = web_from web manifests
web_from web (pull_through_manifest p ∷ manifests) = web_from web manifests

abbrev pub web_of : List Manifest → Web
web_of = web_from no_web
