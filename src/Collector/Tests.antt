-- ===== src/Collector/Tests.antt =====
-- A collection from the command line.
use simple_registry.Base.{
  true, false, [], ◌∷◌, ◌≡◌, refl, nat_eq, list_eq, list_beq, Text, codes, ok, err, wrapped,
}
use simple_registry.Config.{
  System, Config, proxied, directory, new, apply, apply_all, engine_or_admin, web_settings,
  parse_dirs, with_manifests, with_data_dir, with_web,
}
use simple_registry.Config.Manifests.{
  configuration_manifest, no_rules, add_manifest, add_manifests, proxies_of, data_dir_from,
  web_from, over_web, no_web,
}
use simple_registry.Serve.{Flags, build_options, early_options, late_options, build_config}
use simple_registry.Sample.{sample, sample_decoders}
use simple_registry.Garbage.Sweep.{garbage_collect}
use simple_registry.Collector.{CollectorFlags, run_collector, without_proxy}
use simple_registry.Collector.Laws.{IsIn, run_collector-Serves}

abbrev machine : System
machine = record {
  read_file = λ f. err wrapped;
  make_dir = λ d. ok tt;
  compile = λ s. ok (λ t. true);
  hash_password = λ p. ok p;
  random_text = codes "secret";
  parse_yaml_dir =
      λ d. ok (configuration_manifest (record { data_dir = codes "data"; web = no_web }) ∷ []);
}

abbrev server_flags : Flags
server_flags = record {
  addr = codes "0.0.0.0:5000";
  data_dir = codes "./data";
  cfg_dir = codes "cfg" ∷ [];
  admin_name = codes "admin";
  admin_pwd = [];
  admin_pwd_file = [];
  cert_file = [];
  key_file = [];
  token_secret = [];
  token_secret_file = [];
  token_timeout = 30000000000;
  ui = false;
}

abbrev collector_flags : CollectorFlags
collector_flags = record {
  data_dir = codes "./data";
  cfg_dir = codes "cfg" ∷ [];
  dry_run = false;
  delete_untagged = true;
  last_access = 2;
}

abbrev served : Config
served = record {
  web = record {
    addr = codes "0.0.0.0:5000";
    token_secret = codes "secret";
    token_timeout = 30000000000;
    ui = false;
    cert_file = [];
    key_file = [];
  };
  rbac = no_rules;
  data_source = proxied (codes "data") [];
}

serves : build_config machine server_flags ≡ ok served
unfolding build_options early_options late_options new apply_all apply engine_or_admin web_settings
    parse_dirs with_manifests with_data_dir with_web add_manifest add_manifests proxies_of
    data_dir_from web_from over_web list_beq
serves = refl

run_collector-Serves_example :
    (dir : Text) × IsIn dir served.data_source
    × (run_collector (λ source. sample) sample_decoders machine 2 10 collector_flags
        ≡ garbage_collect sample sample_decoders 2 10 false 2 true)
run_collector-Serves_example =
    run_collector-Serves machine (λ source. sample) sample_decoders 2 10 server_flags
      collector_flags served (codes "-") refl refl refl serves

below_proxies : without_proxy served.data_source ≡ directory (codes "data")
unfolding without_proxy
below_proxies = refl
