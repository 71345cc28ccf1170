-- ===== src/Web/Settings/RoundTrip.antt =====
-- AppOptR/src/web.rs: `Settings::save` and then `settings_load`.
use app_opt_r_plus.Prelude.{
  ◌≤◌, ◌≡◌, refl, ap, ◌∙◌, ◌⊎◌, inl, inr, Bool, true, false, Option, none, some, ◌++◌, arith,
}
use app_opt_r_plus.Prelude.Text.{Text, codes, text_eq, byte_len, contains}
use app_opt_r_plus.Json.{Value}
use app_opt_r_plus.RuleEdit.Files.{IsFileSys}
use app_opt_r_plus.Daemon.{IsJsonAt, DaemonSys, replace_file, state_file}
use app_opt_r_plus.Daemon.Replace.{replace_file-Replaced}
use app_opt_r_plus.Web.{valid_name, valid_path}
use app_opt_r_plus.Web.Settings.{
  Settings, settings_default, from_json, to_value, save, settings_load, checked_or, str_at, parsed,
  load_text,
}

-- What the settings satisfy once they have been checked.
pub record IsSettings (s : Settings) : Type 0 where
  pub mode_le : s.mode ≤ 2
  pub interval_ge : 1 ≤ s.check_interval
  pub interval_le : s.check_interval ≤ 3600
  pub name_ok : valid_name s.cpuset_name ≡ true
  pub path_ok : valid_path s.config_file ≡ true

from_json-to_value :
    (dir : Option Text) (s : Settings) → IsSettings s → from_json dir (to_value s) ≡ s
unfolding from_json to_value text_eq valid_name valid_path
from_json-to_value dir s v = ground arith

checked_or-lem :
    (test : Text → Bool) (o : Option Text) (d : Text)
    → test d ≡ true
    → test (checked_or test o d) ≡ true
checked_or-lem test none d h = h
checked_or-lem test (some s) d h = ground (arith, h)

-- Whatever a file of settings holds, the settings read from it are in range, if the path of the default rule
-- file is.
pub from_json-IsSettings :
    (dir : Option Text) (v : Value)
    → valid_path (state_file dir (codes "applist.conf")) ≡ true
    → IsSettings (from_json dir v)
unfolding from_json settings_default valid_name byte_len contains
from_json-IsSettings dir v h = record {
  mode_le = omega arith;
  interval_ge = omega arith;
  interval_le = omega arith;
  name_ok = checked_or-lem valid_name (str_at v (codes "cpuset_name")) (codes "AppOpt") refl;
  path_ok =
      checked_or-lem valid_path (str_at v (codes "config_file"))
        (state_file dir (codes "applist.conf")) h;
}

-- On files and with serde_json as relied on: once `Settings::save` has replaced the file, `settings_load` gives the
-- settings that were saved, if they are in range; where the replacement failed, the file is as it was.
pub settings_load-save :
    {W : Type 0} (sys : DaemonSys W) (lawful : IsFileSys sys.files) (s : Settings)
    (json : IsJsonAt sys (to_value s)) (path : Text) (w : W)
    → IsSettings s
    → (((replace_file sys.files path (sys.print (to_value s) ++ codes "\n") w).0 ≡ true)
        × (settings_load sys path (save sys s path w) ≡ (s, save sys s path w)))
      ⊎ (((replace_file sys.files path (sys.print (to_value s) ++ codes "\n") w).0 ≡ false)
          × (sys.files.read path (save sys s path w) ≡ sys.files.read path w))
unfolding save settings_load load_text parsed
settings_load-save sys lawful s json path w v =
    elim (replace_file-Replaced sys.files lawful path (sys.print (to_value s) ++ codes "\n") w) [
      | inr (e, r) ↦ inr (e, r)
      | inl (e, r) ↦ inl (
        e,
        ap (load_text sys path (save sys s path w)) r
            ∙ ap (λ o. (parsed sys o, save sys s path w)) json
            ∙ ap (λ (x : Settings). (x, save sys s path w)) (from_json-to_value sys.state_dir s v),
      )
    ]
