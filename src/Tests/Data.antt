-- ===== src/Tests/Data.antt =====
-- The inputs of the tests: a topology of eight CPUs, a file of rules, and a file system that holds
-- one file in memory.
use app_opt_r_plus.Prelude.{ℕ, true, Option, none, some, List, [], ◌∷◌, if◌then◌else◌, All, refl}
use app_opt_r_plus.Prelude.Text.{Text, codes, text_eq, ends_with}
use app_opt_r_plus.Cpuset.{CpuSet, new, set, IsCpuSet}
use app_opt_r_plus.Cpuset.Whole.{set-IsCpuSet, new-IsCpuSet}
use app_opt_r_plus.Cpuset.Topology.{CpuTopology, CpusetSys}
use app_opt_r_plus.Cpuset.Spec.{IsTopology}
use app_opt_r_plus.Config.Load.{AffinityRule, AppConfig, load_config}
use app_opt_r_plus.Prelude.Int.{pos, negsuc}
use app_opt_r_plus.Config.Load.Rules.{IsRule, load_config-IsRule}
use app_opt_r_plus.Proc.{ProcSys}

abbrev pub two_cpus : CpuSet
two_cpus = set 65 (set 3 new)

pub two_cpus-IsCpuSet : IsCpuSet two_cpus
two_cpus-IsCpuSet = set-IsCpuSet 65 (set-IsCpuSet 3 new-IsCpuSet)

-- The CPUs 0 and 1 are slow, 2 is fast.
abbrev pub topo : CpuTopology
topo = record {
  present_cpus = set 2 (set 1 (set 0 new));
  present_str = codes "0-2";
  mems_str = codes "0";
  cpuset_enabled = true;
  e_core = set 1 (set 0 new);
  p_core = set 2 new;
  hp_core = new;
}

pub topo-IsTopology : IsTopology topo
topo-IsTopology = record {
  present = set-IsCpuSet 2 (set-IsCpuSet 1 (set-IsCpuSet 0 new-IsCpuSet));
  e = set-IsCpuSet 1 (set-IsCpuSet 0 new-IsCpuSet);
  p = set-IsCpuSet 2 new-IsCpuSet;
  hp = new-IsCpuSet;
}

-- Calls that all succeed.
abbrev pub quiet : CpusetSys ℕ
quiet = record {
  mkdir = λ path w. (none, w);
  chmod = λ path w. (true, w);
  chown = λ path w. (true, w);
  write = λ path text w. (true, w);
}

abbrev pub rules_text : Text
rules_text = codes "# rules\ncom.a=e-core\ncom.b {\nmain=2\n}\n"

abbrev pub rules_lines : List Text
rules_lines =
    codes "com.a=e-core"
    ∷ codes "com.b {"
    ∷ codes "main=2"
    ∷ codes "}"
    ∷ codes "com.c"
    ∷ codes "{"
    ∷ []

abbrev pub loaded : Option AppConfig
unfolding load_config
loaded = (load_config quiet none topo (some (pos 7)) (some rules_text) [] [] (negsuc 0) 0 0).config

abbrev pub rules_of : Option AppConfig → List AffinityRule
rules_of none = []
rules_of (some c) = c.rules

-- The rules of the file.
abbrev pub config : AppConfig
config = record {
  rules = rules_of loaded;
  pkgs = codes "com.a" ∷ codes "com.b" ∷ [];
  has_thread_rules = codes "com.b" ∷ [];
  topo = topo;
}

pub config-IsRule : All (IsRule topo) config.rules
unfolding load_config
config-IsRule =
    load_config-IsRule quiet none topo (some (pos 7)) (some rules_text) [] [] (negsuc 0) 0 0 refl

-- One process, 7, whose command line is `com.b`, with two threads, 7 and 8.
abbrev pub live : ProcSys ℕ
live = record {
  read_file = λ path w.
      if ends_with path (codes "cmdline") then some (codes "com.b") else some (codes "main");
  read_dir = λ path w.
      if text_eq path (codes "/proc")
      then some (codes "7" ∷ codes "self" ∷ [])
      else some (codes "7" ∷ codes "8" ∷ []);
  get_affinity = λ tid w. none;
  set_affinity = λ tid cpus w. (none, w);
  kill_zero = λ tid w. none;
  append_line = λ path text w. w;
}
