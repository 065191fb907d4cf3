-- ===== src/Config/Tests.antt =====
-- A configuration from the command line, and the registrations of the types of manifests.
use simple_registry.Base.{
  true, false, ◌↔◌, List, [], ◌∷◌, ◌≡◌, refl, nat_eq, list_eq, pair_beq, list_beq, Text, codes, ok,
  err, wrapped, lookup,
}
use simple_registry.Rbac.{is_allowed}
use simple_registry.Yaml.{register}
use simple_registry.Config.{
  System, Setting, data_dir, admin_name, admin_pwd, Config, new, apply, apply_all, engine_or_admin,
  admin_engine, web_settings, directory,
}
use simple_registry.Config.Directory.{
  ManifestDecoders, registrations, register_all, is_yaml, extension,
}
use simple_registry.Config.Laws.{IsGrantedAll, is_allowed-admin_engine_iff}
use simple_registry.Config.Settled.{IsSettled, new-IsSettled}

abbrev toy_system : System
toy_system = record {
  read_file = λ f. err wrapped;
  make_dir = λ d. ok tt;
  compile = λ s. ok (λ t. true);
  hash_password = λ p. ok p;
  random_text = codes "secret";
  parse_yaml_dir = λ d. ok [];
}

abbrev settings : List Setting
settings = data_dir (codes "data") ∷ admin_name (codes "admin") ∷ admin_pwd (codes "pwd") ∷ []

abbrev toy_config : Config
toy_config = record {
  web = record {
    addr = codes "0.0.0.0:5000";
    token_secret = codes "secret";
    token_timeout = 30000000000;
    ui = false;
    cert_file = [];
    key_file = [];
  };
  rbac = admin_engine (codes "admin") (codes "pwd");
  data_source = directory (codes "data");
}

configured : new toy_system settings ≡ ok toy_config
unfolding new apply_all apply engine_or_admin web_settings list_beq
configured = refl

new-IsSettled_example : IsSettled toy_system toy_config
new-IsSettled_example = new-IsSettled toy_system settings toy_config (λ e. cc) configured

is_allowed-admin_engine_iff_example :
    (is_allowed
        (admin_engine (codes "admin") (codes "pwd"))
        (codes "admin")
        (codes "blobs")
        (codes "library/a")
        (codes "PUT")
      ≡ true)
    ↔ ((codes "admin" ≡ codes "admin")
        × IsGrantedAll (codes "admin") (codes "blobs") (codes "library/a") (codes "PUT"))
is_allowed-admin_engine_iff_example =
    is_allowed-admin_engine_iff (codes "admin") (codes "pwd") (codes "admin") (codes "blobs")
      (codes "library/a") (codes "PUT")

abbrev no_decoders : ManifestDecoders Text
no_decoders = record {
  token = λ t. err wrapped;
  user = λ t. err wrapped;
  role = λ t. err wrapped;
  binding = λ t. err wrapped;
  pull_through = λ t. err wrapped;
  configuration = λ t. err wrapped;
}

-- No two of the registrations are for one version and kind.
registered : register_all (registrations no_decoders) [] ≡ ok (registrations no_decoders)
unfolding register lookup pair_beq list_beq
registered = refl

yaml_name : is_yaml (codes "users.YML") ≡ true
unfolding is_yaml extension list_beq
yaml_name = refl
