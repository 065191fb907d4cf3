-- ===== src/Collector.antt =====
-- internal/cmd/garbage_collect/cmd.go, and withoutProxy of garbage_collect.go: from the flags of the
-- command to the collection of the garbage. The flags have been parsed by Go's flag package; the
-- lines that the command logs are left out.
pub mod Accepts
pub mod Password
pub mod Laws
mod Tests
use simple_registry.Base.{
  ℕ, Bool, List, [], ◌∷◌, ◌++◌, Text, codes, Result, ok, err, Action, lift, ◌>>=◌,
}
use simple_registry.Storage.{DataStorage}
use simple_registry.Config.{
  System, Setting, Config, Source, directory, proxied, new, admin_pwd, data_dir, cfg_dirs,
}
use simple_registry.Serve.{when, is_set, has_dirs}
use simple_registry.Garbage.Mark.{Decoders}
use simple_registry.Garbage.Sweep.{Report, garbage_collect}

-- `Flags`.
pub record CollectorFlags : Type 0 where
  pub data_dir : Text
  pub cfg_dir : List Text
  pub dry_run : Bool
  pub delete_untagged : Bool
  pub last_access : ℕ

-- `withoutProxy`: the storage below the proxies.
unfoldable pub without_proxy : Source → Source
without_proxy (directory dir) = directory dir
without_proxy (proxied dir proxies) = directory dir

-- The options of `CmdFn`; the administrator's password is never used.
unfoldable pub collector_options : CollectorFlags → List Setting
collector_options f =
    admin_pwd (codes "-")
    ∷ (when (is_set f.data_dir) (data_dir f.data_dir)
        ++ when (has_dirs f.cfg_dir) (cfg_dirs f.cfg_dir))

-- `CmdFn`, with the storages of the sources; the pointer that `New` returns without an error is never
-- nil.
module _ {S : Type 0} (storage : Source → DataStorage S) (decoders : Decoders) (sys : System) where
  unfoldable pub run_collector : ℕ → ℕ → CollectorFlags → Action S Report
  run_collector fuel now f = do
    c ← lift (new sys (collector_options f))
    garbage_collect (storage (without_proxy c.data_source)) decoders fuel now f.dry_run
        f.last_access f.delete_untagged
