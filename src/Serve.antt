-- ===== src/Serve.antt =====
-- internal/cmd/serve: from the flags of the command to the configuration of the server. The flags
-- have been parsed by Go's flag package; `web.ListenAndServe` is left out.
pub mod Laws
mod Tests
use simple_registry.Base.{
  ℕ, Bool, true, false, not, Option, none, some, List, [], ◌∷◌, ◌++◌, map, ◌==◌, nat_eq, list_eq,
  Text, Result, ok, err, if◌then◌else◌,
}
use simple_registry.Rbac.Verbs.{trim_space}
use simple_registry.Config.{
  System, Setting, Config, new, admin_name, admin_pwd, admin_pwd_file, token_secret,
  token_secret_file, data_dir, addr, cert_file, key_file, token_timeout, ui, cfg_dirs,
}

pub record Flags : Type 0 where
  pub addr : Text
  pub data_dir : Text
  pub cfg_dir : List Text
  pub admin_name : Text
  pub admin_pwd : Text
  pub admin_pwd_file : Text
  pub cert_file : Text
  pub key_file : Text
  pub token_secret : Text
  pub token_secret_file : Text
  pub token_timeout : ℕ
  pub ui : Bool

abbrev push_comma : ℕ → List Text → List Text
push_comma c [] = (c ∷ []) ∷ []
push_comma c (p ∷ ps) = (c ∷ p) ∷ ps

-- `strings.SplitSeq` at commas.
unfoldable pub split_comma : Text → List Text
split_comma [] = [] ∷ []
split_comma (c ∷ s) = let rest = split_comma s in if c == b',' then [] ∷ rest else push_comma c rest

-- The directories of the flags, else those of the environment's CFGDIR.
unfoldable pub cfg_dirs_of : List Text → Option Text → List Text
cfg_dirs_of [] none = []
cfg_dirs_of [] (some value) = map trim_space (split_comma value)
cfg_dirs_of (dir ∷ dirs) env = dir ∷ dirs

-- `if ... { opts = append(opts, ...) }`.
abbrev pub when : Bool → Setting → List Setting
when b s = if b then s ∷ [] else []

abbrev pub is_set : Text → Bool
is_set t = not (t == [])

abbrev pub has_dirs : List Text → Bool
has_dirs [] = false
has_dirs (dir ∷ dirs) = true

-- `buildOptions`, up to the directories of YAML files.
unfoldable pub early_options : Flags → List Setting
early_options f =
    when (is_set f.data_dir) (data_dir f.data_dir)
    ++ (when (is_set f.admin_name) (admin_name f.admin_name)
        ++ ((if is_set f.admin_pwd_file
              then admin_pwd_file f.admin_pwd_file ∷ []
              else when (is_set f.admin_pwd) (admin_pwd f.admin_pwd))
            ++ ((if is_set f.token_secret_file
                  then token_secret_file f.token_secret_file ∷ []
                  else when (is_set f.token_secret) (token_secret f.token_secret))
                ++ (when (not (f.token_timeout == 0)) (token_timeout f.token_timeout)
                    ++ when (has_dirs f.cfg_dir) (cfg_dirs f.cfg_dir)))))

-- From the address on.
unfoldable pub late_options : Flags → List Setting
late_options f =
    when (is_set f.addr) (addr f.addr)
    ++ (when f.ui (ui f.ui)
        ++ (when (is_set f.cert_file) (cert_file f.cert_file)
            ++ when (is_set f.key_file) (key_file f.key_file)))

unfoldable pub build_options : Flags → List Setting
build_options f = early_options f ++ late_options f

-- `buildConfig`; the pointer that `New` returns without an error is never nil.
abbrev pub build_config : System → Flags → Result Config
build_config sys f = new sys (build_options f)
