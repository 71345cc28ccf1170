-- ===== src/Main/Start.antt =====
-- AppOptR/src/main.rs: the start of the daemon, up to the loop, and AppOptR/src/web.rs, `web_start`.
use app_opt_r_plus.Prelude.{Bool, true, false, not, ◌||◌, Option, none, some, List, if◌then◌else◌}
use app_opt_r_plus.Prelude.Int.{negsuc}
use app_opt_r_plus.Prelude.Text.{Text}
use app_opt_r_plus.Cpuset.Topology.{CpuTopology, PolicyEntry, set_base_cpuset, init_cpu_topo}
use app_opt_r_plus.Config.Load.{Loaded, load_config}
use app_opt_r_plus.Config.Reload.{put_config}
use app_opt_r_plus.Config.Reload.Inotify.{InotifySys, init_inotify}
use app_opt_r_plus.Tuning.Store.{load_file, tuning_file, app_package_names, thread_rule_packages}
use app_opt_r_plus.Daemon.{Globals, DaemonSys}
use app_opt_r_plus.Web.Settings.{Settings, settings_load, settings_file, settings_save, or_default}
use app_opt_r_plus.Web.Configure.{initial_content}
use app_opt_r_plus.Main.{Args}

-- The files that `init_cpu_topo` reads, and whether the port of the web server can be had.
pub record StartSys (W : Type 0) : Type 0 where
  pub present : W → Option Text
  pub policies : W → List PolicyEntry
  pub cpuset_there : W → Bool
  pub mems : W → Option Text
  pub bind : W → Bool × W

module _ {W : Type 0} (sys : DaemonSys W) (isys : InotifySys W) (ssys : StartSys W) where
  -- The options come before the settings.
  unfoldable pub with_args : Args → Settings → Globals → Globals
  unfolding set_base_cpuset
  with_args a st g = record g {
    config_file = or_default a.cfg st.config_file;
    check_interval = or_default a.interval st.check_interval;
    base = set_base_cpuset (or_default a.cpuset st.cpuset_name) g.base;
    mode_force = st.mode;
  }

  abbrev topo_of : Globals → W → CpuTopology × W
  unfolding init_cpu_topo
  topo_of g w =
      init_cpu_topo sys.cpusets g.base (ssys.present w) (ssys.policies w) (ssys.cpuset_there w)
        (ssys.mems w) w

  abbrev with_file : Text → W → W
  with_file file w =
      if not (sys.exists file w) then (sys.files.write file initial_content w).1 else w

  abbrev first_config : Globals → CpuTopology × W → Loaded W
  unfolding load_config app_package_names thread_rule_packages
  first_config g (topo, w) =
      let w' = with_file g.config_file w in
      load_config sys.cpusets g.base topo (sys.modified g.config_file w')
        (sys.files.read g.config_file w') (app_package_names g.tuning_config)
        (thread_rule_packages g.tuning_config) (negsuc 0) g.parse_fails w'

  abbrev pub web_started : Globals → Bool × W → Globals × W
  web_started g (true, w) = (record g { web_enabled = true }, w)
  web_started g (false, w) = (g, w)

  abbrev saved : Globals × W → Globals × W
  unfolding settings_save
  saved (g, w) = (g, settings_save sys g w)

  abbrev with_web : Bool → Globals × W → Globals × W
  unfolding saved
  with_web enable (g, w) = if enable then saved (web_started g (ssys.bind w)) else (g, w)

  -- `none`: the exit with code 1.
  abbrev pub with_config : Bool → Globals → Loaded W → Option (Globals × W)
  unfolding with_web init_inotify
  with_config enable g l = elim l.config [
    | none ↦ none
    | some c ↦
        let g' = put_config (some c) (record g { parse_fails = l.parse_fails }) in
        some (with_web enable (init_inotify sys isys g'.config_file (g', l.world)))
  ]

  abbrev pub with_tuning : Args → Settings → Globals × W → Option (Globals × W)
  unfolding with_config first_config topo_of with_args
  with_tuning a st (g, w) =
      let g₁ = with_args a st g in
      with_config (a.web || st.web_enable) g₁ (first_config g₁ (topo_of g₁ w))

  unfoldable pub start : Args → Globals × W → Option (Globals × W)
  unfolding with_tuning load_file tuning_file settings_load settings_file
  start a (g, w) =
      let (st, w₁) = settings_load sys (settings_file sys) w in
      with_tuning a st (load_file sys (tuning_file sys) (g, w₁))
