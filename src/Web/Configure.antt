-- ===== src/Web/Configure.antt =====
-- AppOptR/src/web.rs: `config_json` and `config_set_api`.
pub mod Accepted
use app_opt_r_plus.Prelude.{
  ℕ, ◌%◌, Bool, true, false, not, ◌&&◌, ◌||◌, Option, none, some, List, [], ◌∷◌, ◌++◌, ltb, leb,
  ◌==◌, if◌then◌else◌, max,
}
use app_opt_r_plus.Prelude.Int.{pos}
use app_opt_r_plus.Prelude.Text.{Text, codes, last_part}
use app_opt_r_plus.Prelude.Text.Utf8.{from_utf8}
use app_opt_r_plus.Cpuset.Topology.{set_base_cpuset, base_cpuset, create_cpuset_dir}
use app_opt_r_plus.Config.Load.{AppConfig}
use app_opt_r_plus.Json.{Value, bool, int, str, object, Fields, end, field}
use app_opt_r_plus.Daemon.{Globals, DaemonSys, WebStats}
use app_opt_r_plus.Web.{valid_name, valid_path}
use app_opt_r_plus.Web.Settings.{u64_at, str_at, settings_save}
use app_opt_r_plus.Web.Request.{Request}
use app_opt_r_plus.Web.Dispatch.{Answer, err_json, ok_json}

abbrev pub initial_content : Text
initial_content = codes "# 规则编写与使用说明请参考 http://AppOpt.suto.top\n\n"

abbrev stats_ebpf : Option WebStats → Bool
stats_ebpf none = false
stats_ebpf (some s) = s.ebpf

abbrev pub cpuset_on : Option AppConfig → Bool
cpuset_on none = false
cpuset_on (some c) = c.topo.cpuset_enabled

abbrev pub mode_name : Bool → Text
mode_name true = codes "ebpf"
mode_name false = codes "proc"

-- `probe` is what `ebpf_probe` answers.
unfoldable pub config_json : Bool → Globals → Value
unfolding last_part base_cpuset
config_json probe g = object (
    field (codes "mode") (int (pos g.mode_force)) (
      field (codes "mode_active") (str (mode_name (stats_ebpf g.web_stats))) (
        field (codes "ebpf_available") (bool probe) (
          field (codes "interval") (int (pos (max g.check_interval 1))) (
            field (codes "cpuset_name") (str (last_part b'/' (base_cpuset g.base))) (
              field (codes "config_file") (str g.config_file)
                (field (codes "cpuset_enabled") (bool (cpuset_on g.current_config)) end)))))))

-- `is_some_and`.
abbrev pub some_and : {A : Type 0} → (A → Bool) → Option A → Bool
some_and test none = false
some_and test (some a) = test a

-- The fields that are asked for.
pub record Wanted : Type 0 where
  pub mode : Option ℕ
  pub interval : Option ℕ
  pub name : Option Text
  pub path : Option Text

abbrev pub wanted : Value → Wanted
wanted v = record {
  mode = u64_at v (codes "mode");
  interval = u64_at v (codes "interval");
  name = str_at v (codes "cpuset_name");
  path = str_at v (codes "config_file");
}

-- The first check that fails, as its answer.
unfoldable pub refusal : Wanted → Option Answer
unfolding err_json valid_name valid_path
refusal q =
    if some_and (λ m. ltb 2 m) q.mode
    then some (err_json 400 (codes "无效的工作模式"))
    else if some_and (λ n. not (leb 1 n && leb n 3600)) q.interval
    then some (err_json 400 (codes "间隔需在 1-3600 秒之间"))
    else if some_and (λ n. not (valid_name n)) q.name
    then some (err_json 400 (codes "无效的 cpuset 目录名"))
    else if some_and (λ p. not (valid_path p)) q.path
    then some (err_json 400 (codes "无效的配置文件路径"))
    else none

abbrev pub put_mode : Option ℕ → Globals → Globals
put_mode none g = g
put_mode (some m) g = record g {
  mode_force = m % 256;
  ebpf_gave_up = if not (m == 2) then false else g.ebpf_gave_up;
}

abbrev pub put_interval : Option ℕ → Globals → Globals
put_interval none g = g
put_interval (some n) g = record g { check_interval = n }

module _ {W : Type 0} (sys : DaemonSys W) where
  abbrev make_base : Globals → Option AppConfig → W → W
  unfolding base_cpuset create_cpuset_dir
  make_base g none w = w
  make_base g (some c) w =
      if c.topo.cpuset_enabled
      then (create_cpuset_dir sys.cpusets (base_cpuset g.base) c.topo.present_str c.topo.mems_str
          w).1
      else w

  abbrev pub put_name : Option Text → Globals × W → Globals × W
  unfolding make_base set_base_cpuset
  put_name none s = s
  put_name (some n) (g, w) =
      let g₁ = record g { base = set_base_cpuset n g.base } in
      (record g₁ { force_reload = true }, make_base g₁ g.current_config w)

  abbrev pub put_path : Option Text → Globals × W → Globals × W
  put_path none s = s
  put_path (some p) (g, w) = (
    record g { config_file = p; force_reload = true },
    (if not (sys.exists p w) then (sys.files.write p initial_content w).1 else w),
  )

  unfoldable pub configured : Wanted → Globals × W → Globals × W
  unfolding put_name
  configured q (g, w) =
      put_path q.path (put_name q.name (put_interval q.interval (put_mode q.mode g), w))

  abbrev pub applied : Wanted → Globals × W → Option Answer → Answer × (Globals × W)
  unfolding configured settings_save
  applied q s (some a) = (a, s)
  applied q s none = let (g, w) = configured q s in (ok_json, (g, settings_save sys g w))

  -- `serde_json::from_slice`.
  unfoldable pub body_value : Request → Option Value
  unfolding from_utf8
  body_value req = elim (from_utf8 req.body) [ none ↦ none | some text ↦ sys.parse text ]

  unfoldable pub bad_body : Answer
  unfolding err_json
  bad_body = err_json 400 (codes "请求体不是合法 JSON")

  abbrev pub set_config : Option Value → Globals × W → Answer × (Globals × W)
  unfolding applied bad_body refusal
  set_config none s = (bad_body, s)
  set_config (some v) s = applied (wanted v) s (refusal (wanted v))

  unfoldable pub config_set_api : Request → Globals × W → Answer × (Globals × W)
  unfolding set_config body_value
  config_set_api req s = set_config (body_value req) s
