-- ===== src/Tests/Profile.antt =====
-- The theorems on the tuning profiles, at concrete inputs.
use app_opt_r_plus.Prelude.{
  ◌≡◌, refl, true, false, none, some, List, [], ◌∷◌, if◌then◌else◌, any, arith,
}
use app_opt_r_plus.Prelude.Int.{negsuc}
use app_opt_r_plus.Prelude.Text.{
  Text, codes, text_eq, member, byte_len, trim, contains, contains_text, trim_end, trim_start,
  is_whitespace, starts_with,
}
use app_opt_r_plus.Json.{Value, str, array, object, nil, cons, end, field}
use app_opt_r_plus.Tuning.{
  ThreadTuneRule, AppTuneRule, TuningConfig, package_name_ok, thread_pattern_ok, plain_token_ok,
}
use app_opt_r_plus.Tuning.Limits.{Ok}
use app_opt_r_plus.Tuning.Parse.{config_from_value}
use app_opt_r_plus.Tuning.Valid.{IsTuning, IsThread}
use app_opt_r_plus.Tuning.Unique.{config_from_value-IsTuning}
use app_opt_r_plus.Tuning.Clone.{clone_app_config}
use app_opt_r_plus.Tuning.Clone.Keeps.{IsClone, clone_app_config-IsClone}
use app_opt_r_plus.Tuning.Apply.{effective_thread_tune, WarnState, warn_once}
use app_opt_r_plus.Tuning.Apply.Effective.{tunes, last_given, effective_thread_tune-last}
use app_opt_r_plus.Tuning.Apply.Warnings.{IsWarnState, warn_all, warn_all-IsWarnState}
use app_opt_r_plus.Tuning.{ok}
use app_opt_r_plus.Tuning.Parse.{
  config_fields, distinct_groups, checked_apps, app_from_value, app_fields, required,
  thread_rule_from_value, thread_rule_fields,
}
use app_opt_r_plus.Tuning.Limits.{optional_u64, optional_i64, present}
use app_opt_r_plus.Json.{int}
use app_opt_r_plus.Tuning.Print.{config_value}
use app_opt_r_plus.Tuning.Store.{replace_and_save}
use app_opt_r_plus.Tuning.Store.Saved.{Saved, replace_and_save-Saved}
use app_opt_r_plus.Daemon.{DaemonSys}
use app_opt_r_plus.Tests.Store.{Store, memory-IsFileSys, path, store}
use app_opt_r_plus.Tests.Web.{daemon_with, globals}

-- A profile of one application in one group.
abbrev profile : Value
profile = object (
    field (codes "memory_groups")
      (array (
        cons
          (object (
            field (codes "name") (str (codes "game")) (
              field (codes "path") (str (codes "mimd/uid_{uid}"))
                (field (codes "memory_max") (str (codes "2G")) end))))
          nil))
      (field (codes "apps")
        (array (
          cons
            (object (
              field (codes "pkg") (str (codes "com.a"))
                (field (codes "memory_group") (str (codes "game")) end)))
            nil))
        end))

config_from_value-IsTuning_example : Ok IsTuning (config_from_value profile)
config_from_value-IsTuning_example = config_from_value-IsTuning profile

abbrev rule : ThreadTuneRule
rule = record {
  pattern = codes "main";
  uclamp_min = some 512;
  uclamp_max = none;
  nice = some (negsuc 9);
}

abbrev app : AppTuneRule
app = record { pkg = codes "com.a"; memory_group = none; threads = rule ∷ [] }

abbrev config : TuningConfig
config = record { memory_groups = []; apps = app ∷ [] }

rule-IsThread : IsThread rule
unfolding thread_pattern_ok plain_token_ok trim trim_end trim_start is_whitespace byte_len contains
    contains_text starts_with
rule-IsThread = record {
  pattern = refl;
  uclamp_min = omega arith;
  uclamp_max = tt;
  in_order = refl;
  nice = refl;
  some_setting = refl;
}

com_a_ok : package_name_ok (codes "com.a") ≡ true
unfolding package_name_ok plain_token_ok trim trim_end trim_start is_whitespace byte_len contains
    contains_text starts_with
com_a_ok = refl

com_b_ok : package_name_ok (codes "com.b") ≡ true
unfolding package_name_ok plain_token_ok trim trim_end trim_start is_whitespace byte_len contains
    contains_text starts_with
com_b_ok = refl

config-IsTuning : IsTuning config
unfolding member
config-IsTuning = record {
  groups = tt;
  group_once = refl;
  apps = (
    record { pkg = com_a_ok; memory_group = tt; threads = (rule-IsThread, tt); some_part = refl },
    tt,
  );
  app_once = refl;
  known = (refl, tt);
}

clone_app_config-IsClone_example :
    Ok
      (IsClone config (codes "com.a") (codes "com.b") false true config-IsTuning com_b_ok refl)
      (clone_app_config config (codes "com.a") (codes "com.b") false true)
clone_app_config-IsClone_example =
    clone_app_config-IsClone config (codes "com.a") (codes "com.b") false true config-IsTuning
      com_b_ok refl

effective_thread_tune-last_example : effective_thread_tune text_eq app (codes "main") ≡ (
    if any (tunes text_eq (codes "main")) app.threads
    then some (record {
      uclamp_min = last_given (tunes text_eq (codes "main")) (λ r. r.uclamp_min) app.threads;
      uclamp_max = last_given (tunes text_eq (codes "main")) (λ r. r.uclamp_max) app.threads;
      nice = last_given (tunes text_eq (codes "main")) (λ r. r.nice) app.threads;
    })
    else none)
effective_thread_tune-last_example = effective_thread_tune-last text_eq (codes "main") app

abbrev messages : List (Text × Text)
messages =
    (codes "a", codes "first") ∷ (codes "b", codes "second") ∷ (codes "a", codes "third") ∷ []

abbrev no_warnings : WarnState
no_warnings = record { seen = []; warnings = [] }

warn_all-IsWarnState_example :
    IsWarnState (warn_all messages no_warnings)
    × ((key message again : Text)
        → warn_once key again (warn_once key message (warn_all messages no_warnings))
          ≡ warn_once key message (warn_all messages no_warnings))
warn_all-IsWarnState_example =
    warn_all-IsWarnState messages no_warnings
      (record { few = omega arith; per_key = omega arith; once = refl })

-- A profile of one thread rule.
abbrev one_rule : Value
one_rule = object (
    field (codes "apps")
      (array (
        cons
          (object (
            field (codes "pkg") (str (codes "com.a")) (
              field (codes "threads")
                (array (
                  cons
                    (object (
                      field (codes "pattern") (str (codes "main"))
                        (field (codes "nice") (int (negsuc 4)) end)))
                    nil))
                end)))
          nil))
      end)

abbrev one_rule_config : TuningConfig
one_rule_config = record {
  memory_groups = [];
  apps =
      record {
        pkg = codes "com.a";
        memory_group = none;
        threads =
            record {
              pattern = codes "main";
              uclamp_min = none;
              uclamp_max = none;
              nice = some (negsuc 4);
            }
            ∷ [];
      }
      ∷ [];
}

abbrev daemon : DaemonSys Store
unfolding config_value
daemon =
    daemon_with
      (λ text.
        if text_eq text (codes "{\"version\":1}\n")
        then some (config_value one_rule_config)
        else none)
      (codes "{\"version\":1}")

one_rule-ok : config_from_value one_rule ≡ ok one_rule_config
unfolding config_from_value config_fields text_eq distinct_groups checked_apps member app_from_value
    app_fields required package_name_ok plain_token_ok trim trim_end trim_start is_whitespace
    byte_len contains contains_text starts_with thread_rule_from_value thread_rule_fields
    thread_pattern_ok optional_u64 optional_i64 present
one_rule-ok = refl

replace_and_save-Saved_example :
    Saved daemon path one_rule_config
      (globals, store)
      (replace_and_save daemon path one_rule_config (globals, store))
unfolding daemon text_eq
replace_and_save-Saved_example =
    replace_and_save-Saved daemon memory-IsFileSys path one_rule one_rule_config refl globals store
      one_rule-ok
