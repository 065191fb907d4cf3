-- ===== src/Serve/Tests.antt =====
-- The flags' default address wins over that of a manifest.
use simple_registry.Base.{
  true, false, some, [], ◌∷◌, ◌≡◌, ◌⊎◌, refl, nat_eq, list_eq, list_beq, codes, ok, err, wrapped,
}
use simple_registry.Rbac.Verbs.{trim_space}
use simple_registry.Config.{
  System, Config, proxied, new, apply, apply_all, engine_or_admin, web_settings, parse_dirs,
  with_manifests, with_data_dir, with_web,
}
use simple_registry.Config.Manifests.{
  Manifest, configuration_manifest, no_rules, add_manifest, add_manifests, proxies_of,
  data_dir_from, web_from, over_web,
}
use simple_registry.Serve.{
  Flags, build_options, early_options, late_options, build_config, split_comma, cfg_dirs_of,
}
use simple_registry.Serve.Laws.{build_config-flags}

abbrev manifest : Manifest
manifest = configuration_manifest (record {
  data_dir = codes "data";
  web = record {
    addr = codes "127.0.0.1:80";
    token_secret = codes "s";
    token_timeout = 5;
    ui = true;
    cert_file = codes "c";
    key_file = [];
  };
})

abbrev host : System
host = record {
  read_file = λ f. err wrapped;
  make_dir = λ d. ok tt;
  compile = λ s. ok (λ t. true);
  hash_password = λ p. ok p;
  random_text = codes "secret";
  parse_yaml_dir = λ d. ok (manifest ∷ []);
}

abbrev flags : Flags
flags = record {
  addr = codes "0.0.0.0:5000";
  data_dir = codes "./data";
  cfg_dir = codes "cfg" ∷ [];
  admin_name = codes "admin";
  admin_pwd = [];
  admin_pwd_file = [];
  cert_file = [];
  key_file = [];
  token_secret = [];
  token_secret_file = [];
  token_timeout = 30000000000;
  ui = false;
}

abbrev config : Config
config = record {
  web = record {
    addr = codes "0.0.0.0:5000";
    token_secret = codes "s";
    token_timeout = 5000000000;
    ui = true;
    cert_file = codes "c";
    key_file = [];
  };
  rbac = no_rules;
  data_source = proxied (codes "data") [];
}

built : build_config host flags ≡ ok config
unfolding build_options early_options late_options new apply_all apply engine_or_admin web_settings
    parse_dirs with_manifests with_data_dir with_web add_manifest add_manifests proxies_of
    data_dir_from web_from over_web list_beq
built = refl

build_config-flags_example :
    ((flags.addr ≡ []) ⊎ (config.web.addr ≡ flags.addr))
    × ((flags.cert_file ≡ []) ⊎ (config.web.cert_file ≡ flags.cert_file))
    × ((flags.key_file ≡ []) ⊎ (config.web.key_file ≡ flags.key_file))
build_config-flags_example = build_config-flags host flags config built

listed : cfg_dirs_of [] (some (codes "a, b")) ≡ codes "a" ∷ codes "b" ∷ []
unfolding cfg_dirs_of split_comma trim_space list_beq
listed = refl
