-- ===== src/Web/Settings.antt =====
-- AppOptR/src/web.rs: `Settings`, with `from_json`, `to_value`, `save`, `settings_load` and `settings_save`.
pub mod RoundTrip
use app_opt_r_plus.Prelude.{
  ℕ, ◌%◌, ◌≤◌, ◌≡◌, Bool, true, false, Option, none, some, List, [], ◌∷◌, ◌++◌, ltb, if◌then◌else◌,
  min, max,
}
use app_opt_r_plus.Prelude.Int.{pos}
use app_opt_r_plus.Prelude.Text.{Text, codes, last_part}
use app_opt_r_plus.Cpuset.Topology.{base_cpuset}
use app_opt_r_plus.Json.{
  Value, bool, int, str, object, Fields, end, field, get, as_str, as_bool, as_u64,
}
use app_opt_r_plus.Daemon.{Globals, DaemonSys, state_file, replace_file}
use app_opt_r_plus.Web.{valid_name, valid_path}

pub record Settings : Type 0 where
  pub web_enable : Bool
  pub mode : ℕ
  pub check_interval : ℕ
  pub cpuset_name : Text
  pub config_file : Text

unfoldable pub settings_default : Option Text → Settings
unfolding state_file
settings_default dir = record {
  web_enable = false;
  mode = 0;
  check_interval = 2;
  cpuset_name = codes "AppOpt";
  config_file = state_file dir (codes "applist.conf");
}

-- `v[name].as_…()`: an index that is not there gives `null`, and `null` is none of these.
abbrev pub bool_at : Value → Text → Option Bool
bool_at v name = elim (get name v) [ none ↦ none | some x ↦ as_bool x ]

abbrev pub u64_at : Value → Text → Option ℕ
u64_at v name = elim (get name v) [ none ↦ none | some x ↦ as_u64 x ]

abbrev pub str_at : Value → Text → Option Text
str_at v name = elim (get name v) [ none ↦ none | some x ↦ as_str x ]

abbrev pub or_default {ℓ} : {A : Type ℓ} → Option A → A → A
or_default none d = d
or_default (some a) d = a

-- `filter` and `unwrap_or`.
abbrev pub checked_or : (Text → Bool) → Option Text → Text → Text
checked_or test none d = d
checked_or test (some s) d = if test s then s else d

abbrev pub clamp : ℕ → ℕ → ℕ → ℕ
clamp n lo hi = min (max n lo) hi

unfoldable pub from_json : Option Text → Value → Settings
unfolding settings_default valid_name valid_path
from_json dir v =
    let d = settings_default dir in
    record {
      web_enable = or_default (bool_at v (codes "web_enable")) d.web_enable;
      mode = min (or_default (u64_at v (codes "mode")) d.mode) 2 % 256;
      check_interval =
          clamp (or_default (u64_at v (codes "check_interval")) d.check_interval) 1 3600;
      cpuset_name = checked_or valid_name (str_at v (codes "cpuset_name")) d.cpuset_name;
      config_file = checked_or valid_path (str_at v (codes "config_file")) d.config_file;
    }

unfoldable pub to_value : Settings → Value
to_value s = object (
    field (codes "web_enable") (bool s.web_enable) (
      field (codes "mode") (int (pos s.mode)) (
        field (codes "check_interval") (int (pos s.check_interval)) (
          field (codes "cpuset_name") (str s.cpuset_name)
            (field (codes "config_file") (str s.config_file) end)))))

module _ {W : Type 0} (sys : DaemonSys W) where
  -- An error is only reported.
  unfoldable pub save : Settings → Text → W → W
  unfolding replace_file to_value
  save s path w = (replace_file sys.files path (sys.print (to_value s) ++ codes "\n") w).1

  abbrev pub parsed : Option Value → Settings
  unfolding from_json settings_default
  parsed none = settings_default sys.state_dir
  parsed (some v) = from_json sys.state_dir v

  abbrev pub load_text : Text → W → Option Text → Settings × W
  unfolding save settings_default
  load_text path w (some text) = (parsed (sys.parse text), w)
  load_text path w none =
      let d = settings_default sys.state_dir in
      (d, if sys.not_found path w then save d path w else w)

  unfoldable pub settings_load : Text → W → Settings × W
  unfolding load_text
  settings_load path w = load_text path w (sys.files.read path w)

  unfoldable pub settings_file : Text
  unfolding state_file
  settings_file = state_file sys.state_dir (codes "AppOpt.json")

  -- The settings in force.
  unfoldable pub settings_of : Globals → Settings
  unfolding last_part base_cpuset
  settings_of g = record {
    web_enable = g.web_enabled;
    mode = g.mode_force;
    check_interval = max g.check_interval 1;
    cpuset_name = last_part b'/' (base_cpuset g.base);
    config_file = g.config_file;
  }

  unfoldable pub settings_save : Globals → W → W
  unfolding save settings_of settings_file
  settings_save g w = save (settings_of g) settings_file w
