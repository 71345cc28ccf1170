-- ===== src/Tests/Web.antt =====
-- The theorems on the web server, on files in memory.
use app_opt_r_plus.Prelude.{
  ℕ, ◌≡◌, refl, ◌⊎◌, true, false, Option, none, some, List, [], ◌∷◌, ◌++◌, if◌then◌else◌, arith,
  take, map, keep, length, suc,
}
use mathlib.Core.List.{Perm}
use app_opt_r_plus.Prelude.Int.{pos, negsuc}
use app_opt_r_plus.Prelude.Text.{Text, codes, text_eq, byte_len, contains, rsplit_once, last_part}
use app_opt_r_plus.Cpuset.Topology.{base_cpuset}
use app_opt_r_plus.Json.{Value, bool, str, int, object, end, field}
use app_opt_r_plus.Daemon.{Globals, DaemonSys, replace_file}
use app_opt_r_plus.Web.{valid_name, valid_path}
use app_opt_r_plus.Web.Settings.{Settings, to_value, save, settings_load}
use app_opt_r_plus.Web.Settings.RoundTrip.{IsSettings, settings_load-save}
use app_opt_r_plus.Web.Request.{Request, read_head, request_read}
use app_opt_r_plus.Web.Request.Limits.{Given, IsRead, request_read-IsRead}
use app_opt_r_plus.Web.Dispatch.{Api, dispatch}
use app_opt_r_plus.Web.Dispatch.{conn_handle}
use app_opt_r_plus.Web.Dispatch.Connection.{Handled, conn_handle-Handled}
use app_opt_r_plus.Web.Dispatch.Guard.{Guarded, dispatch-Guarded}
use app_opt_r_plus.Web.Configure.{config_set_api}
use app_opt_r_plus.Web.Configure.Accepted.{InForce, Accepted, config_set_api-Accepted}
use app_opt_r_plus.Web.Cloning.{rule_clone_api}
use app_opt_r_plus.Web.Cloning.Unchanged.{Kept, rule_clone_api-Kept}
use app_opt_r_plus.Web.Suggest.{Counts, Ranked, rank_top}
use app_opt_r_plus.Web.Suggest.Top.{IsInOrder, entry_for, holds, rank_top-IsTop}
use app_opt_r_plus.Web.Status.{daemon_api}
use app_opt_r_plus.Tuning.Memory.{CgroupSys}
use app_opt_r_plus.Proc.{ProcSys}
use app_opt_r_plus.Tests.Store.{Store, memory, memory-IsFileSys, path, store}
use app_opt_r_plus.Tests.Data.{config}

-- Calls that all succeed, with a parser and one text that is printed.
abbrev pub daemon_with : (Text → Option Value) → Text → DaemonSys Store
daemon_with parse text = record {
  files = memory;
  cpusets = record {
    mkdir = λ p w. (none, w);
    chmod = λ p w. (true, w);
    chown = λ p w. (true, w);
    write = λ p t w. (true, w);
  };
  not_found = λ p w. true;
  exists = λ p w. true;
  modified = λ p w. some (pos 7);
  state_dir = none;
  parse = parse;
  print = λ v. text;
}

abbrev settings : Settings
settings = record {
  web_enable = true;
  mode = 1;
  check_interval = 5;
  cpuset_name = codes "AppOpt";
  config_file = codes "/data/applist.conf";
}

settings-IsSettings : IsSettings settings
unfolding valid_name valid_path byte_len contains
settings-IsSettings = record {
  mode_le = omega arith;
  interval_ge = omega arith;
  interval_le = omega arith;
  name_ok = refl;
  path_ok = refl;
}

abbrev settings_text : Text
settings_text =
    codes
      "{\"web_enable\":true,\"mode\":1,\"check_interval\":5,\"cpuset_name\":\"AppOpt\",\"config_file\":\"/data/applist.conf\"}"

-- The bodies of the requests below.
abbrev interval_body : Text
interval_body = codes "{\"interval\":9000}"

abbrev clone_body : Text
clone_body = codes "{\"source\":\"com.a\",\"target\":\"com.b\",\"cpu_package\":true}"

abbrev value_of : Text → Option Value
unfolding to_value
value_of text =
    if text_eq text (settings_text ++ codes "\n")
    then some (to_value settings)
    else if text_eq text interval_body
    then some (object (field (codes "interval") (int (pos 9000)) end))
    else if text_eq text clone_body
    then some (
        object (
          field (codes "source") (str (codes "com.a")) (
            field (codes "target") (str (codes "com.b"))
              (field (codes "cpu_package") (bool true) end))))
    else none

abbrev daemon : DaemonSys Store
unfolding value_of
daemon = daemon_with value_of settings_text

settings_load-save_example :
    (((replace_file daemon.files path (daemon.print (to_value settings) ++ codes "\n") store).0
        ≡ true)
      × (settings_load daemon path (save daemon settings path store)
          ≡ (settings, save daemon settings path store)))
    ⊎ (((replace_file daemon.files path (daemon.print (to_value settings) ++ codes "\n") store).0
          ≡ false)
        × (daemon.files.read path (save daemon settings path store) ≡ daemon.files.read path store))
unfolding daemon value_of text_eq
settings_load-save_example =
    settings_load-save daemon memory-IsFileSys settings refl path store settings-IsSettings

abbrev pub globals : Globals
globals = record {
  web_enabled = true;
  mode_force = 0;
  ebpf_gave_up = false;
  check_interval = 2;
  force_reload = false;
  config_file = path;
  base = some (codes "/dev/cpuset/AppOpt");
  current_config = some config;
  config_updated = false;
  parse_fails = 0;
  inotify_supported = false;
  inotify_fd = negsuc 0;
  inotify_wd = negsuc 0;
  tuning_config = record { memory_groups = []; apps = [] };
  warn = record { seen = []; warnings = [] };
  web_stats = none;
}

globals-InForce : InForce globals
unfolding base_cpuset last_part rsplit_once valid_name valid_path byte_len contains
globals-InForce = record {
  mode_le = omega arith;
  interval_le = omega arith;
  name_ok = refl;
  path_ok = refl;
}

-- A POST of the page of the server to a path of the API.
abbrev post : Text → Text → Request
post target body = record {
  method = codes "POST";
  path = target;
  host = codes "localhost:8080";
  origin = codes "http://localhost:8080";
  fetch_site = codes "same-origin";
  content_type = codes "application/json";
  body = body;
  keep_alive = true;
}

config_set_api-Accepted_example :
    Accepted
      (globals, store)
      (config_set_api daemon (post (codes "/api/config") interval_body) (globals, store))
config_set_api-Accepted_example =
    config_set_api-Accepted daemon (post (codes "/api/config") interval_body) (globals, store)
      globals-InForce

rule_clone_api-Kept_example :
    Kept
      (globals, store)
      (rule_clone_api daemon (post (codes "/api/rule/clone") clone_body) (globals, store))
rule_clone_api-Kept_example =
    rule_clone_api-Kept daemon (post (codes "/api/rule/clone") clone_body) (globals, store)

-- No cgroup and no process.
abbrev no_cgroups : CgroupSys Store
no_cgroups = record {
  is_dir = λ p w. false;
  exists = λ p w. false;
  canonical = λ p w. none;
  read_text = λ p w. none;
  open_control = λ p w. some (codes "No such file");
  write_control = λ p text w. (none, w);
}

abbrev no_procs : ProcSys Store
no_procs = record {
  read_file = λ p w. none;
  read_dir = λ p w. none;
  get_affinity = λ tid w. none;
  set_affinity = λ tid cpus w. (none, w);
  kill_zero = λ tid w. none;
  append_line = λ p text w. w;
}

abbrev api : Api (Globals × Store)
api = daemon_api daemon no_cgroups no_procs (codes "3.0") (λ w. 120) (λ w. false) true 100

dispatch-Guarded_example :
    Guarded
      (post (codes "/api/config") interval_body)
      (globals, store)
      (dispatch api (post (codes "/api/config") interval_body) (globals, store))
dispatch-Guarded_example =
    dispatch-Guarded api (post (codes "/api/config") interval_body) (globals, store)

abbrev request_bytes : List ℕ
request_bytes =
    codes
      "POST /api/config HTTP/1.1\r\nHost: localhost\r\nContent-Length: 17\r\n\r\n{\"interval\":9000}GET"

request_read-IsRead_example :
    (read_head 200 [] request_bytes ≡ read_head (suc (length request_bytes)) [] request_bytes)
    × Given (IsRead request_bytes) (request_read (λ bytes. bytes) request_bytes)
request_read-IsRead_example = request_read-IsRead (λ bytes. bytes) request_bytes 200 (omega arith)

abbrev counts : Counts
counts = (codes "com.game", 2) ∷ (codes "game", 1) ∷ (codes "org.other", 9) ∷ []

rank_top-IsTop_example :
    (full : List Ranked) × ((rank_top counts (codes "game")
        ≡ map (λ r. (r.name, r.count)) (take 20 full))
      × IsInOrder full
      × Perm full (map (entry_for (codes "game")) (keep (holds (codes "game")) counts)))
rank_top-IsTop_example = rank_top-IsTop counts (codes "game")

abbrev two_requests : List ℕ
two_requests =
    codes
      "GET /api/status HTTP/1.1\r\nHost: localhost\r\n\r\nPOST /api/rule/del HTTP/1.1\r\nHost: localhost\r\nContent-Type: application/json\r\n\r\n"

conn_handle-Handled_example :
    Handled api
      (λ bytes. bytes)
      two_requests
      (globals, store)
      (conn_handle api (λ bytes. bytes) 200 two_requests (globals, store))
conn_handle-Handled_example =
    conn_handle-Handled api (λ bytes. bytes) 200 two_requests (globals, store) (omega arith)
