-- ===== src/Daemon.antt =====
-- What the parts of the daemon share: the statics of AppOptR/src/main.rs, config.rs, web.rs and tuning.rs as
-- one record, and the calls that they make of the system and of serde_json.
pub mod Replace
use app_opt_r_plus.Prelude.{
  ℕ, ◌≡◌, Bool, true, false, not, ◌||◌, Option, none, some, List, [], ◌∷◌, ◌++◌, ltb, if◌then◌else◌,
  is_empty, any,
}
use app_opt_r_plus.Prelude.Int.{ℤ}
use app_opt_r_plus.Prelude.Text.{Text, codes, ends_with}
use app_opt_r_plus.Cpuset.Topology.{CpusetSys}
use app_opt_r_plus.Config.Load.{AppConfig}
use app_opt_r_plus.RuleEdit.Ops.{FileSys}
use app_opt_r_plus.Json.{Value}
use app_opt_r_plus.Tuning.{TuningConfig}
use app_opt_r_plus.Tuning.Apply.{WarnState}

pub record WebStats : Type 0 where
  pub rules : ℕ
  pub pkgs : ℕ
  pub hit_pkgs : ℕ
  pub threads : ℕ
  pub ebpf : Bool
  pub uptime : ℕ

-- The statics. A lock is held for one step at a time, and a poisoned one is taken all the same.
pub record Globals : Type 0 where
  pub web_enabled : Bool
  pub mode_force : ℕ
  pub ebpf_gave_up : Bool
  pub check_interval : ℕ
  pub force_reload : Bool
  pub config_file : Text
  pub base : Option Text
  pub current_config : Option AppConfig
  pub config_updated : Bool
  pub parse_fails : ℕ
  pub inotify_supported : Bool
  pub inotify_fd : ℤ
  pub inotify_wd : ℤ
  pub tuning_config : TuningConfig
  pub warn : WarnState
  pub web_stats : Option WebStats

-- Files and cpusets; `not_found`: a read fails with that kind; `exists`: `metadata` answers; `modified`: the time
-- of the last change in nanoseconds as an `i64`; `state_dir`: the variable APPOPT_STATE_DIR. `parse` and
-- `print` are `from_str` (or `from_slice`) and `to_string_pretty` of serde_json.
pub record DaemonSys (W : Type 0) : Type 0 where
  pub files : FileSys W
  pub cpusets : CpusetSys W
  pub not_found : Text → W → Bool
  pub exists : Text → W → Bool
  pub modified : Text → W → Option ℤ
  pub state_dir : Option Text
  pub parse : Text → Option Value
  pub print : Value → Text

-- What is relied on of serde_json: the value that is printed, with a line feed after it, is read back.
abbrev pub IsJsonAt : {W : Type 0} → DaemonSys W → Value → Type 0
IsJsonAt sys v = sys.parse (sys.print v ++ codes "\n") ≡ some v

-- `PathBuf::from(dir).join(name)` for a relative name.
abbrev pub join_path : Text → Text → Text
join_path dir name = if ends_with dir (codes "/") then dir ++ name else dir ++ (b'/' ∷ name)

abbrev usable_dir : Text → Bool
usable_dir dir = not (is_empty dir || any (λ byte. ltb byte 0x20) dir)

unfoldable pub state_file : Option Text → Text → Text
state_file none name = codes "./" ++ name
state_file (some dir) name = if usable_dir dir then join_path dir name else codes "./" ++ name

-- A file is written beside its place and then moved there; whether that succeeded.
unfoldable pub replace_file : {W : Type 0} → FileSys W → Text → Text → W → Bool × W
replace_file sys path text w =
    let tmp = path ++ codes ".tmp" in
    let (wrote, w₁) = sys.write tmp text w in
    if not wrote then (false, w₁) else sys.rename tmp path w₁
