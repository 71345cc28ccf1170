-- ===== src/Config/Reload.antt =====
-- AppOptR/src/config.rs: `config_reload`, the inotify functions and `config_loader`. The calls of inotify are a
-- parameter.
pub mod Inotify
use app_opt_r_plus.Prelude.{ℕ, Bool, true, false, Option, none, some, if◌then◌else◌}
use app_opt_r_plus.Prelude.Int.{ℤ, negsuc}
use app_opt_r_plus.Config.Load.{AppConfig, Loaded, load_config}
use app_opt_r_plus.Daemon.{Globals, DaemonSys}
use app_opt_r_plus.Tuning.Store.{app_package_names, thread_rule_packages}

-- `last_mtime`, and the rest.
abbrev pub Loader : Type 0 → Type 0
Loader W = ℤ × (Globals × W)

abbrev pub put_config : Option AppConfig → Globals → Globals
put_config none g = g
put_config (some c) g = record g { current_config = some c; config_updated = true }

module _ {W : Type 0} (sys : DaemonSys W) where
  abbrev pub loaded : Globals → AppConfig → ℤ → W → Loaded W
  unfolding load_config app_package_names thread_rule_packages
  loaded g cfg last w =
      load_config sys.cpusets g.base cfg.topo (sys.modified g.config_file w)
        (sys.files.read g.config_file w) (app_package_names g.tuning_config)
        (thread_rule_packages g.tuning_config) last g.parse_fails w

  abbrev pub installed : Globals → Loaded W → Loader W
  installed g l =
      (l.last_mtime, (put_config l.config (record g { parse_fails = l.parse_fails }), l.world))

  abbrev pub reload_with : Option AppConfig → Loader W → Loader W
  unfolding loaded
  reload_with none s = s
  reload_with (some cfg) (last, (g, w)) = installed g (loaded g cfg last w)

  unfoldable pub config_reload : Loader W → Loader W
  unfolding reload_with
  config_reload (last, (g, w)) = reload_with g.current_config (last, (g, w))

  unfoldable pub config_reload_now : Globals × W → Globals × W
  unfolding config_reload
  config_reload_now s = (config_reload (negsuc 0, s)).1
