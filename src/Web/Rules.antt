-- ===== src/Web/Rules.antt =====
-- AppOptR/src/web.rs: `rules_json`, `rule_api`, `rule_del_api`, `rule_rename_api` and `tuning_set_api`.
use app_opt_r_plus.Prelude.{
  ℕ, Bool, true, false, not, ◌&&◌, ◌||◌, Option, none, some, List, [], ◌∷◌, ◌++◌, ltb, leb, ◌==◌,
  if◌then◌else◌, is_empty,
}
use app_opt_r_plus.Prelude.Text.{Text, codes, text_eq, trim, byte_len}
use app_opt_r_plus.Cpuset.{CpuSet, count, cpus_eq}
use app_opt_r_plus.Cpuset.Ranges.{to_range_string}
use app_opt_r_plus.Cpuset.Spec.{parse_cpu_spec}
use app_opt_r_plus.Cpuset.Topology.{CpuTopology}
use app_opt_r_plus.Config.{spec_like}
use app_opt_r_plus.Config.Load.{AffinityRule, AppConfig, max_pkg_len, max_thread_len}
use app_opt_r_plus.Config.Reload.{config_reload_now}
use app_opt_r_plus.RuleEdit.{RuleEdit, ok, not_found, conflict, malformed, io_err}
use app_opt_r_plus.RuleEdit.Ops.{rule_upsert, rule_delete, rule_delete_pkg, rule_rename}
use app_opt_r_plus.Json.{Value, str, array, object, Items, nil, cons, end, field}
use app_opt_r_plus.Tuning.{Outcome, ok, err, TuningConfig}
use app_opt_r_plus.Tuning.Parse.{config_from_value}
use app_opt_r_plus.Tuning.Describe.{describe}
use app_opt_r_plus.Tuning.Store.{tuning_file, replace_and_save}
use app_opt_r_plus.Daemon.{Globals, DaemonSys}
use app_opt_r_plus.Web.{token_ok, pkg_shape_ok}
use app_opt_r_plus.Web.Settings.{str_at, bool_at, or_default}
use app_opt_r_plus.Web.Request.{Request}
use app_opt_r_plus.Web.Dispatch.{Answer, err_json, ok_json}
use app_opt_r_plus.Web.Configure.{body_value, bad_body}

unfoldable pub spec_name : CpuSet → CpuTopology → Text
spec_name cpus topo =
    if ltb 0 (count cpus) && cpus_eq cpus topo.e_core
    then codes "e-core"
    else if ltb 0 (count cpus) && cpus_eq cpus topo.p_core
    then codes "p-core"
    else if ltb 0 (count cpus) && cpus_eq cpus topo.hp_core
    then codes "hp-core"
    else if ltb 0 (count cpus) && cpus_eq cpus topo.present_cpus
    then codes "all-core"
    else to_range_string cpus

-- A package with the thread and the CPUs of each of its rules.
abbrev pub RuleGroup : Type 0
RuleGroup = Text × List (Text × Text)

unfoldable pub push_item : Text → Text × Text → List RuleGroup → List RuleGroup
push_item pkg item [] = (pkg, item ∷ []) ∷ []
push_item pkg item ((p, items) ∷ gs) =
    if text_eq p pkg then (p, items ++ (item ∷ [])) ∷ gs else (p, items) ∷ push_item pkg item gs

unfoldable pub rule_groups : CpuTopology → List AffinityRule → List RuleGroup → List RuleGroup
unfolding push_item spec_name
rule_groups topo [] gs = gs
rule_groups topo (r ∷ rs) gs =
    rule_groups topo rs (push_item r.pkg (r.thread, spec_name r.cpus topo) gs)

abbrev item_values : List (Text × Text) → Items
item_values [] = nil
item_values ((thread, spec) ∷ is) =
    cons (object (field (codes "thread") (str thread) (field (codes "spec") (str spec) end)))
      (item_values is)

abbrev group_values : List RuleGroup → Items
group_values [] = nil
group_values ((pkg, is) ∷ gs) =
    cons
      (object (field (codes "pkg") (str pkg) (field (codes "items") (array (item_values is)) end)))
      (group_values gs)

abbrev groups_of : Option AppConfig → List RuleGroup
unfolding rule_groups
groups_of none = []
groups_of (some c) = rule_groups c.topo c.rules []

unfoldable pub rules_json : Globals → Value
unfolding groups_of
rules_json g =
    object (field (codes "rules") (array (group_values (groups_of g.current_config))) end)

-- A string field, trimmed.
abbrev pub trimmed_at : Value → Text → Option Text
trimmed_at v name = elim (str_at v name) [ none ↦ none | some s ↦ some (trim s) ]

unfoldable pub malformed_answer : Answer
unfolding err_json
malformed_answer = err_json 409 (codes "配置文件存在未闭合块，请修复后重试")

abbrev not_written : Answer
unfolding err_json
not_written = err_json 500 (codes "配置文件写入失败")

-- The answers of the handlers for each outcome of the editor but `ok`.
abbrev upsert_error : RuleEdit → Answer
unfolding malformed_answer not_written
upsert_error malformed = malformed_answer
upsert_error _ = not_written

abbrev delete_error : RuleEdit → Answer
unfolding malformed_answer not_written err_json
delete_error ok = ok_json
delete_error not_found = err_json 404 (codes "规则不存在")
delete_error conflict = err_json 409 (codes "状态冲突")
delete_error malformed = malformed_answer
delete_error io_err = not_written

abbrev rename_error : RuleEdit → Answer
unfolding malformed_answer not_written err_json
rename_error ok = ok_json
rename_error not_found = err_json 404 (codes "原包名不存在")
rename_error conflict = err_json 409 (codes "目标包名已存在规则")
rename_error malformed = malformed_answer
rename_error io_err = not_written

abbrev pub is_ok : RuleEdit → Bool
is_ok ok = true
is_ok _ = false

-- The names and the CPUs of a rule that is to be set, or the refusal.
unfoldable pub rule_refusal : Text → Text → Text → CpuTopology → Option Answer
unfolding err_json token_ok pkg_shape_ok
rule_refusal pkg thread cpus topo =
    if not (token_ok pkg max_pkg_len)
      || (not (is_empty thread) && not (token_ok thread max_thread_len))
    then some (err_json 400 (codes "名称含有非法字符"))
    else if is_empty thread && not (pkg_shape_ok pkg)
    then some (err_json 400 (codes "包名含 { 且以 } 结尾时不支持包级规则，可改用线程规则"))
    else if is_empty cpus
        || leb 64 (byte_len cpus)
        || not (spec_like cpus)
        || count (parse_cpu_spec cpus topo) == 0
    then some (err_json 400 (codes "无效的 CPU 规格"))
    else none

module _ {W : Type 0} (sys : DaemonSys W) where
  abbrev pub State : Type 0
  State = Globals × W

  -- After an edit: reload the rules, or answer the error.
  abbrev pub edited : (RuleEdit → Answer) → Globals → RuleEdit × W → Answer × State
  unfolding config_reload_now
  edited error g (e, w) =
      if is_ok e then (ok_json, config_reload_now sys (g, w)) else (error e, (g, w))

  abbrev pub set_checked : Text → Text → Text → State → Option Answer → Answer × State
  unfolding edited rule_upsert upsert_error
  set_checked pkg thread cpus s (some a) = (a, s)
  set_checked pkg thread cpus (g, w) none =
      edited upsert_error g (rule_upsert sys.files g.config_file pkg thread cpus w)

  abbrev pub set_named : Text → Text → Text → State → Option AppConfig → Answer × State
  unfolding set_checked rule_refusal err_json
  set_named pkg thread cpus s none = (err_json 500 (codes "配置未就绪"), s)
  set_named pkg thread cpus s (some c) =
      set_checked pkg thread cpus s (rule_refusal pkg thread cpus c.topo)

  abbrev set_fields : Value → State → Option Text → Option Text → Answer × State
  unfolding set_named err_json
  set_fields v (g, w) (some pkg) (some cpus) =
      set_named pkg (or_default (trimmed_at v (codes "thread")) []) cpus (g, w) g.current_config
  set_fields v s _ _ = (err_json 400 (codes "缺少 pkg 或 cpus 字段"), s)

  abbrev set_value : State → Option Value → Answer × State
  unfolding set_fields bad_body
  set_value s none = (bad_body sys, s)
  set_value s (some v) = set_fields v s (trimmed_at v (codes "pkg")) (trimmed_at v (codes "cpus"))

  unfoldable pub rule_api : Request → State → Answer × State
  unfolding set_value body_value
  rule_api req s = set_value s (body_value sys req)

  abbrev edited? : (RuleEdit → Answer) → Globals → Option (RuleEdit × W) → Option (Answer × State)
  unfolding edited
  edited? error g none = none
  edited? error g (some r) = some (edited error g r)

  abbrev del_pkg : Value → State → Option Text → Option (Answer × State)
  unfolding edited? edited delete_error rule_delete rule_delete_pkg err_json
  del_pkg v s none = some (err_json 400 (codes "缺少 pkg 字段"), s)
  del_pkg v (g, w) (some pkg) =
      if or_default (bool_at v (codes "all")) false
      then edited? delete_error g (rule_delete_pkg sys.files g.config_file pkg w)
      else some (
          edited delete_error g (
            rule_delete sys.files g.config_file pkg (or_default (trimmed_at v (codes "thread")) [])
              w))

  abbrev del_value : State → Option Value → Option (Answer × State)
  unfolding del_pkg bad_body
  del_value s none = some (bad_body sys, s)
  del_value s (some v) = del_pkg v s (trimmed_at v (codes "pkg"))

  -- `none`: the fuel of a loop ran out.
  unfoldable pub rule_del_api : Request → State → Option (Answer × State)
  unfolding del_value body_value
  rule_del_api req s = del_value s (body_value sys req)

  abbrev rename_names : ℕ → State → Option Text → Option Text → Option (Answer × State)
  unfolding edited? rename_error rule_rename err_json token_ok pkg_shape_ok
  rename_names fuel (g, w) (some old) (some new) =
      if not (token_ok old max_pkg_len) || not (token_ok new max_pkg_len)
      then some (err_json 400 (codes "名称含有非法字符"), (g, w))
      else if not (pkg_shape_ok new)
      then some (err_json 400 (codes "包名含 { 且以 } 结尾时不可作为重命名目标"), (g, w))
      else if text_eq old new
      then some (ok_json, (g, w))
      else edited? rename_error g (rule_rename sys.files fuel g.config_file old new w)
  rename_names fuel s _ _ = some (err_json 400 (codes "缺少 old 或 new 字段"), s)

  abbrev rename_value : ℕ → State → Option Value → Option (Answer × State)
  unfolding rename_names bad_body
  rename_value fuel s none = some (bad_body sys, s)
  rename_value fuel s (some v) =
      rename_names fuel s (trimmed_at v (codes "old")) (trimmed_at v (codes "new"))

  unfoldable pub rule_rename_api : ℕ → Request → State → Option (Answer × State)
  unfolding rename_value body_value
  rule_rename_api fuel req s = rename_value fuel s (body_value sys req)

  abbrev pub tuning_saved : Outcome (Unit {0}) × State → Answer × State
  unfolding config_reload_now err_json describe
  tuning_saved (ok u, s) = (ok_json, config_reload_now sys s)
  tuning_saved (err e, s) = (err_json 500 (describe e), s)

  abbrev tuning_parsed : State → Outcome TuningConfig → Answer × State
  unfolding tuning_saved err_json describe replace_and_save tuning_file
  tuning_parsed s (err e) = (err_json 400 (describe e), s)
  tuning_parsed s (ok c) = tuning_saved (replace_and_save sys (tuning_file sys) c s)

  abbrev tuning_value : State → Option Value → Answer × State
  unfolding tuning_parsed bad_body config_from_value
  tuning_value s none = (bad_body sys, s)
  tuning_value s (some v) = tuning_parsed s (config_from_value v)

  unfoldable pub tuning_set_api : Request → State → Answer × State
  unfolding tuning_value body_value
  tuning_set_api req s = tuning_value s (body_value sys req)
