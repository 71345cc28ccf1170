-- ===== src/Web/Cloning.antt =====
-- AppOptR/src/web.rs: `rule_clone_api`, which clones CPU rules and tuning in one request.
pub mod Unchanged
use app_opt_r_plus.Prelude.{
  ℕ, Bool, true, false, not, ◌&&◌, ◌||◌, Option, none, some, List, [], ◌∷◌, ◌++◌, if◌then◌else◌,
}
use app_opt_r_plus.Prelude.Text.{Text, codes, text_eq, contains_text}
use app_opt_r_plus.Config.Load.{max_pkg_len}
use app_opt_r_plus.Config.Reload.{config_reload_now}
use app_opt_r_plus.RuleEdit.{RuleEdit, ok, not_found, conflict, malformed, io_err}
use app_opt_r_plus.RuleEdit.Clone.{rule_clone_check, rule_clone}
use app_opt_r_plus.Json.{Value}
use app_opt_r_plus.Tuning.{TuneError, Outcome, ok, err, package_name_ok}
use app_opt_r_plus.Tuning.Describe.{describe}
use app_opt_r_plus.Tuning.Store.{clone_app, clone_app_check}
use app_opt_r_plus.Daemon.{Globals, DaemonSys}
use app_opt_r_plus.Web.{token_ok}
use app_opt_r_plus.Web.Settings.{bool_at, or_default}
use app_opt_r_plus.Web.Request.{Request}
use app_opt_r_plus.Web.Dispatch.{Answer, err_json, ok_json}
use app_opt_r_plus.Web.Configure.{body_value, bad_body}
use app_opt_r_plus.Web.Rules.{State, trimmed_at, malformed_answer, is_ok}

abbrev check_error : RuleEdit → Answer
unfolding malformed_answer err_json
check_error ok = ok_json
check_error not_found = err_json 404 (codes "来源应用没有所选 CPU 规则")
check_error conflict = err_json 409 (codes "目标应用已有 CPU 规则，不能覆盖克隆")
check_error malformed = malformed_answer
check_error io_err = err_json 500 (codes "读取 CPU 规则文件失败")

abbrev clone_error : RuleEdit → Answer
unfolding malformed_answer err_json check_error
clone_error io_err = err_json 500 (codes "写入 CPU 规则文件失败")
clone_error e = check_error e

-- What is to be cloned.
pub record Parts : Type 0 where
  pub cpu_package : Bool
  pub cpu_threads : Bool
  pub tuning_memory : Bool
  pub tuning_threads : Bool

abbrev pub parts : Value → Parts
parts v = record {
  cpu_package = or_default (bool_at v (codes "cpu_package")) false;
  cpu_threads = or_default (bool_at v (codes "cpu_threads")) false;
  tuning_memory = or_default (bool_at v (codes "tuning_memory")) false;
  tuning_threads = or_default (bool_at v (codes "tuning_threads")) false;
}

abbrev pub copy_cpu : Parts → Bool
copy_cpu p = p.cpu_package || p.cpu_threads

abbrev pub copy_tuning : Parts → Bool
copy_tuning p = p.tuning_memory || p.tuning_threads

unfoldable pub clone_refusal : Text → Text → Parts → Option Answer
unfolding err_json token_ok package_name_ok
clone_refusal source target p =
    if not (copy_cpu p || copy_tuning p)
    then some (err_json 400 (codes "请至少选择一类要克隆的规则"))
    else if text_eq source target
    then some (err_json 400 (codes "源包名与目标包名不能相同"))
    else if not (token_ok source max_pkg_len) || not (package_name_ok target)
    then some (err_json 400 (codes "包名含有非法字符"))
    else none

unfoldable pub tuning_error : TuneError → Answer
unfolding err_json describe contains_text
tuning_error e =
    err_json (if contains_text (describe e) (codes "目标应用") then 409 else 404) (describe e)

module _ {W : Type 0} (sys : DaemonSys W) where
  abbrev cpu_refusal : RuleEdit → Option Answer
  unfolding check_error
  cpu_refusal e = if is_ok e then none else some (check_error e)

  -- The checks on both files, as the answer of the first that fails.
  unfoldable pub check_cpu : Text → Text → Parts → Globals × W → Option Answer
  unfolding cpu_refusal rule_clone_check
  check_cpu source target p (g, w) =
      if copy_cpu p
      then cpu_refusal
          (rule_clone_check sys.files g.config_file source target p.cpu_package p.cpu_threads w)
      else none

  abbrev tuning_refusal : Outcome (Unit {0}) → Option Answer
  unfolding tuning_error
  tuning_refusal (ok u) = none
  tuning_refusal (err e) = some (tuning_error e)

  unfoldable pub check_tuning : Text → Text → Parts → Globals × W → Option Answer
  unfolding tuning_refusal clone_app_check
  check_tuning source target p (g, w) =
      if copy_tuning p
      then tuning_refusal (clone_app_check sys source target p.tuning_memory p.tuning_threads g)
      else none

  -- The clone of the tuning, and the reload.
  abbrev pub finished : Outcome (Unit {0}) × (Globals × W) → Answer × (Globals × W)
  unfolding config_reload_now describe err_json
  finished (ok u, s) = (ok_json, config_reload_now sys s)
  finished (err e, s) = (err_json 500 (codes "写入调优规则失败: " ++ describe e), s)

  abbrev pub clone_tuning : Text → Text → Parts → Globals × W → Answer × (Globals × W)
  unfolding finished clone_app config_reload_now
  clone_tuning source target p s =
      if copy_tuning p
      then finished (clone_app sys source target p.tuning_memory p.tuning_threads s)
      else (ok_json, config_reload_now sys s)

  abbrev pub after_cpu : Text → Text → Parts → Globals → RuleEdit × W → Answer × (Globals × W)
  unfolding clone_error clone_tuning
  after_cpu source target p g (e, w) =
      if is_ok e then clone_tuning source target p (g, w) else (clone_error e, (g, w))

  unfoldable pub clone_both : Text → Text → Parts → Globals × W → Answer × (Globals × W)
  unfolding after_cpu clone_tuning rule_clone
  clone_both source target p (g, w) =
      if copy_cpu p
      then after_cpu source target p g
          (rule_clone sys.files g.config_file source target p.cpu_package p.cpu_threads w)
      else clone_tuning source target p (g, w)

  abbrev pub or_else : {A : Type 0} → Option A → Option A → Option A
  or_else none b = b
  or_else (some a) b = some a

  abbrev pub unless_refused :
      Option Answer → Globals × W → Answer × (Globals × W) → Answer × (Globals × W)
  unless_refused none s r = r
  unless_refused (some a) s r = (a, s)

  unfoldable pub clone_named : Text → Text → Parts → Globals × W → Answer × (Globals × W)
  unfolding clone_refusal check_cpu check_tuning clone_both
  clone_named source target p s =
      unless_refused
        (or_else (clone_refusal source target p)
          (or_else (check_cpu source target p s) (check_tuning source target p s)))
        s (clone_both source target p s)

  abbrev clone_names : Value → Globals × W → Option Text → Option Text → Answer × (Globals × W)
  unfolding clone_named err_json
  clone_names v s (some source) (some target) = clone_named source target (parts v) s
  clone_names v s _ _ = (err_json 400 (codes "缺少 source 或 target 包名"), s)

  abbrev clone_value : Globals × W → Option Value → Answer × (Globals × W)
  unfolding clone_names bad_body
  clone_value s none = (bad_body sys, s)
  clone_value s (some v) =
      clone_names v s (trimmed_at v (codes "source")) (trimmed_at v (codes "target"))

  unfoldable pub rule_clone_api : Request → Globals × W → Answer × (Globals × W)
  unfolding clone_value body_value
  rule_clone_api req s = clone_value s (body_value sys req)
