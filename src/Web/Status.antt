-- ===== src/Web/Status.antt =====
-- AppOptR/src/web.rs: `status_json`, `tuning_json`, `cache_stats`, and the API as `dispatch` takes it.
use app_opt_r_plus.Prelude.{
  ℕ, Bool, true, false, Option, none, some, List, [], ◌∷◌, length, map, max, any,
}
use app_opt_r_plus.Prelude.Int.{pos}
use app_opt_r_plus.Prelude.Text.{Text, codes, insert_all}
use app_opt_r_plus.Cpuset.{count}
use app_opt_r_plus.Cpuset.Ranges.{to_range_string}
use app_opt_r_plus.Cpuset.Topology.{CpuTopology}
use app_opt_r_plus.Config.Load.{AppConfig}
use app_opt_r_plus.Cache.{ProcCache}
use app_opt_r_plus.Proc.{ProcSys}
use app_opt_r_plus.Json.{Value, bool, int, str, array, object, Items, nil, cons, Fields, end, field}
use app_opt_r_plus.Tuning.Memory.{CgroupSys, cgroup_roots}
use app_opt_r_plus.Tuning.Print.{config_value}
use app_opt_r_plus.Tuning.Store.{app_count, thread_rule_count}
use app_opt_r_plus.Daemon.{Globals, DaemonSys, WebStats, join_path}
use app_opt_r_plus.Web.Dispatch.{Api}
use app_opt_r_plus.Web.Configure.{cpuset_on, mode_name, config_json, config_set_api}
use app_opt_r_plus.Web.Rules.{rules_json, rule_api, rule_del_api, rule_rename_api, tuning_set_api}
use app_opt_r_plus.Web.Cloning.{rule_clone_api}
use app_opt_r_plus.Web.Suggest.{suggest_api}

-- The threads, and the packages among them.
unfoldable pub cache_stats : ProcCache → ℕ × ℕ
cache_stats cache = (length cache.tasks, length (insert_all (map (λ e. e.1.pkg) cache.tasks) []))

abbrev no_stats : WebStats
no_stats = record { rules = 0; pkgs = 0; hit_pkgs = 0; threads = 0; ebpf = false; uptime = 0 }

abbrev stats_of : Option WebStats → WebStats
stats_of none = no_stats
stats_of (some s) = s

abbrev of_topo : {A : Type 0} → A → (CpuTopology → A) → Option AppConfig → A
of_topo d f none = d
of_topo d f (some c) = f c.topo

abbrev nat : ℕ → Value
nat n = int (pos n)

-- `version` is that of the package, `procs` what `sysinfo` answers, or 0.
unfoldable pub status_json : Text → ℕ → Globals → Value
unfolding to_range_string count
status_json version procs g =
    let s = stats_of g.web_stats in
    object (
      field (codes "version") (str version) (
        field (codes "mode") (str (mode_name s.ebpf)) (
          field (codes "uptime") (nat s.uptime) (
            field (codes "rules") (nat s.rules) (
              field (codes "pkgs") (nat s.pkgs) (
                field (codes "parse_fail") (nat g.parse_fails) (
                  field (codes "hit_pkgs") (nat s.hit_pkgs) (
                    field (codes "threads") (nat s.threads) (
                      field (codes "total_procs") (nat procs) (
                        field (codes "interval") (nat (max g.check_interval 1)) (
                          field (codes "e_core")
                            (str (of_topo [] (λ t. to_range_string t.e_core) g.current_config))
                            (field (codes "p_core")
                              (str (of_topo [] (λ t. to_range_string t.p_core) g.current_config))
                              (field (codes "hp_core")
                                (str (of_topo [] (λ t. to_range_string t.hp_core) g.current_config))
                                (field (codes "all_core")
                                  (str (of_topo [] (λ t. t.present_str) g.current_config))
                                  (field (codes "cores")
                                    (nat (of_topo 0 (λ t. count t.present_cpus) g.current_config))
                                    (field (codes "cpuset_enabled")
                                      (bool (cpuset_on g.current_config))
                                      (field (codes "tuning_apps") (nat (app_count g.tuning_config))
                                        (field (codes "tuning_threads")
                                          (nat (thread_rule_count g.tuning_config))
                                          end))))))))))))))))))

abbrev pub texts : List Text → Items
texts [] = nil
texts (t ∷ ts) = cons (str t) (texts ts)

abbrev pub put_fields : Fields → Value → Value
put_fields end v = v
put_fields (field k x fs) (object gs) = put_fields fs (object (field k x gs))
put_fields (field k x fs) v = v

module _ {W : Type 0} (sys : DaemonSys W) (csys : CgroupSys W) (psys : ProcSys W) where
  -- `uclamp`: whether the processor is one whose system calls are known.
  unfoldable pub cgroup_capabilities : Bool → W → Value
  unfolding cgroup_roots
  cgroup_capabilities uclamp w =
      let roots = cgroup_roots csys w in
      object (
        field (codes "memory_roots") (array (texts roots)) (
          field (codes "cgroup_v2")
            (bool (any (λ r. csys.exists (join_path r (codes "cgroup.controllers")) w) roots))
            (field (codes "v1_swappiness")
              (bool (any (λ r. csys.exists (join_path r (codes "memory.swappiness")) w) roots))
              (field (codes "uclamp") (bool uclamp) end))))

  -- `web_value`.
  unfoldable pub tuning_json : Bool → Globals × W → Value
  unfolding config_value cgroup_capabilities
  tuning_json uclamp (g, w) =
      put_fields
        (field (codes "ok") (bool true) (
          field (codes "capabilities") (cgroup_capabilities uclamp w)
            (field (codes "warnings") (array (texts g.warn.warnings)) end)))
        (config_value g.tuning_config)

  -- The functions of the API; `fuel` is for the loop of `rule_rename`.
  unfoldable pub daemon_api : Text → (W → ℕ) → (W → Bool) → Bool → ℕ → Api (Globals × W)
  unfolding status_json tuning_json rules_json config_json rule_api rule_del_api rule_rename_api
      rule_clone_api config_set_api tuning_set_api suggest_api
  daemon_api version procs probe uclamp fuel = record {
    status_json = λ s. status_json version (procs s.1) s.0;
    rules_json = λ s. rules_json s.0;
    config_json = λ s. config_json (probe s.1) s.0;
    tuning_json = tuning_json uclamp;
    rule_api = rule_api sys;
    rule_del_api = rule_del_api sys;
    rule_rename_api = rule_rename_api sys fuel;
    rule_clone_api = rule_clone_api sys;
    config_set_api = config_set_api sys;
    tuning_set_api = tuning_set_api sys;
    suggest_api = suggest_api sys psys;
  }
