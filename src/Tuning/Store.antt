-- ===== src/Tuning/Store.antt =====
-- AppOptR/src/tuning.rs: the profile in force and its file: `load_file`, `replace_and_save`, `clone_app`,
-- `clone_app_check`, and the counts.
pub mod Saved
use app_opt_r_plus.Prelude.{
  ℕ, ◌+◌, Bool, not, Option, none, some, List, [], ◌∷◌, ◌++◌, if◌then◌else◌, is_empty, map, keep,
  length,
}
use app_opt_r_plus.Prelude.Text.{Text, codes, insert_all}
use app_opt_r_plus.Json.{Value}
use app_opt_r_plus.Daemon.{Globals, DaemonSys, replace_file, state_file}
use app_opt_r_plus.Tuning.{AppTuneRule, TuningConfig, Outcome, ok, err, and_then, not_saved}
use app_opt_r_plus.Tuning.Parse.{config_from_value}
use app_opt_r_plus.Tuning.Clone.{clone_app_config}
use app_opt_r_plus.Tuning.Apply.{warn_once, warn_clear}
use app_opt_r_plus.Tuning.Describe.{describe}
use app_opt_r_plus.Tuning.Print.{config_value}

abbrev pub no_tuning : TuningConfig
no_tuning = record { memory_groups = []; apps = [] }

-- A hash set of names.
unfoldable pub app_package_names : TuningConfig → List Text
app_package_names c = insert_all (map (λ a. a.pkg) c.apps) []

unfoldable pub thread_rule_packages : TuningConfig → List Text
thread_rule_packages c =
    insert_all (map (λ a. a.pkg) (keep (λ a. not (is_empty a.threads)) c.apps)) []

abbrev pub app_count : TuningConfig → ℕ
app_count c = length c.apps

abbrev rules_in : List AppTuneRule → ℕ
rules_in [] = 0
rules_in (a ∷ as₁) = length a.threads + rules_in as₁

abbrev pub thread_rule_count : TuningConfig → ℕ
thread_rule_count c = rules_in c.apps

unfoldable pub replace_config : TuningConfig → Globals → Globals
unfolding warn_clear
replace_config c g = record g { tuning_config = c; warn = warn_clear g.warn }

abbrev pub warned : Text → Text → Globals → Globals
unfolding warn_once
warned key message g = record g { warn = warn_once key message g.warn }

module _ {W : Type 0} (sys : DaemonSys W) where
  unfoldable pub tuning_file : Text
  unfolding state_file
  tuning_file = state_file sys.state_dir (codes "AppOpt.tuning.json")

  unfoldable pub write_config : Text → TuningConfig → W → Outcome (Unit {0}) × W
  unfolding replace_file config_value
  write_config path c w =
      let (done, w') = replace_file sys.files path (sys.print (config_value c) ++ codes "\n") w in
      (if done then ok tt else err (not_saved path), w')

  abbrev invalid : Text → Text → Globals → Globals
  unfolding warned replace_config
  invalid path error g =
      warned (codes "tuning-config-invalid") (path ++ (codes " 无效，已忽略：" ++ error))
        (replace_config no_tuning g)

  abbrev pub load_config_of : Text → Globals → Outcome TuningConfig → Globals
  unfolding invalid describe replace_config
  load_config_of path g (ok c) = replace_config c g
  load_config_of path g (err e) = invalid path (describe e) g

  -- The text of the parser's error is left out.
  abbrev pub load_value : Text → Globals → Option Value → Globals
  unfolding invalid load_config_of config_from_value
  load_value path g none = invalid path (codes "JSON 格式错误: ") g
  load_value path g (some v) = load_config_of path g (config_from_value v)

  abbrev created : Outcome (Unit {0}) → Globals → Globals
  unfolding warned describe
  created (ok u) g = g
  created (err e) g = warned (codes "tuning-config-create") (describe e) g

  abbrev pub load_text : Text → Globals × W → Option Text → Globals × W
  unfolding load_value write_config replace_config created warned
  load_text path (g, w) (some text) = (load_value path g (sys.parse text), w)
  load_text path (g, w) none =
      if sys.not_found path w
      then (let (r, w') = write_config path no_tuning w in
          (created r (replace_config no_tuning g), w'))
      else (
        warned (codes "tuning-config-read") (codes "读取 " ++ (path ++ codes " 失败，已忽略调优规则："))
            (replace_config no_tuning g),
        w,
      )

  unfoldable pub load_file : Text → Globals × W → Globals × W
  unfolding load_text
  load_file path (g, w) = load_text path (g, w) (sys.files.read path w)

  abbrev pub saved :
      TuningConfig → Globals → Outcome (Unit {0}) × W → Outcome (Unit {0}) × (Globals × W)
  unfolding replace_config
  saved c g (ok u, w) = (ok u, (replace_config c g, w))
  saved c g (err e, w) = (err e, (g, w))

  unfoldable pub replace_and_save :
      Text → TuningConfig → Globals × W → Outcome (Unit {0}) × (Globals × W)
  unfolding saved write_config
  replace_and_save path c (g, w) = saved c g (write_config path c w)

  unfoldable pub clone_app_check : Text → Text → Bool → Bool → Globals → Outcome (Unit {0})
  unfolding clone_app_config
  clone_app_check source target copy_memory copy_threads g =
      and_then (clone_app_config g.tuning_config source target copy_memory copy_threads)
        (λ c. ok tt)

  abbrev pub clone_next : Outcome TuningConfig → Globals × W → Outcome (Unit {0}) × (Globals × W)
  unfolding saved write_config tuning_file
  clone_next (err e) s = (err e, s)
  clone_next (ok c) (g, w) = saved c g (write_config tuning_file c w)

  unfoldable pub clone_app :
      Text → Text → Bool → Bool → Globals × W → Outcome (Unit {0}) × (Globals × W)
  unfolding clone_app_config clone_next
  clone_app source target copy_memory copy_threads (g, w) =
      clone_next (clone_app_config g.tuning_config source target copy_memory copy_threads) (g, w)
