-- ===== src/RuleMatch.antt =====
-- AppOptR/src/rule_match.rs: which CPUs the rules give a thread. `fnmatch` of libc is a parameter: it
-- takes the pattern and the text.
pub mod Affinity
use app_opt_r_plus.Prelude.{
  ℕ, Bool, true, false, not, ◌&&◌, ◌||◌, Option, none, some, List, [], ◌∷◌, leb, ◌==◌,
  if◌then◌else◌, is_empty, any,
}
use app_opt_r_plus.Prelude.Int.{ℤ}
use app_opt_r_plus.Prelude.Text.{Text, text_eq, member, byte_len, starts_with, ends_with}
use app_opt_r_plus.Cpuset.{CpuSet, new, or, count}
use app_opt_r_plus.Cpuset.Topology.{CpuTopology, CpusetSys, ensure_cpuset_dir}
use app_opt_r_plus.Config.Load.{AffinityRule, AppConfig, max_thread_len}
use app_opt_r_plus.Proc.{ProcSys, read_cmdline}

pub record AffinityResult : Type 0 where
  pub cpus : CpuSet
  pub cpuset_dir : Text
  pub is_thread_rule : Bool

-- The C string that starts at a text: it ends in front of the first NUL.
abbrev pub c_text : Text → Text
c_text [] = []
c_text (c ∷ s) = if c == 0 then [] else c ∷ c_text s

unfoldable pub fnmatch_c : (Text → Text → Bool) → Text → Text → Bool
fnmatch_c fnmatch pattern string =
    if leb max_thread_len (byte_len string) then false else fnmatch pattern (c_text string)

-- The test of the loop over the thread rules, and that of the loop over the package rules.
unfoldable pub thread_rule_matches : (Text → Text → Bool) → Text → Text → AffinityRule → Bool
unfolding fnmatch_c
thread_rule_matches fnmatch pkg thread r =
    if not (text_eq r.pkg pkg) || is_empty r.thread
    then false
    else fnmatch_c fnmatch r.thread_pattern thread

unfoldable pub package_rule_matches : Text → AffinityRule → Bool
package_rule_matches pkg r = not (not (text_eq r.pkg pkg) || not (is_empty r.thread))

unfoldable pub thread_loop :
    (Text → Text → Bool) → Text → Text → List AffinityRule → CpuSet × Bool → CpuSet × Bool
thread_loop fnmatch pkg thread [] s = s
thread_loop fnmatch pkg thread (r ∷ rs) (cpus, matched) =
    thread_loop fnmatch pkg thread rs
      (if thread_rule_matches fnmatch pkg thread r then (or cpus r.cpus, true) else (cpus, matched))

-- The locals of the loop over the package rules.
pub record Fallback : Type 0 where
  pub cpus : CpuSet
  pub cpuset_dir : Text
  pub fallback_seen : Bool

abbrev pub add_fallback : AffinityRule → Fallback → Fallback
add_fallback r f = record {
  cpus = or f.cpus r.cpus;
  cpuset_dir = if not f.fallback_seen then r.cpuset_dir else [];
  fallback_seen = true;
}

unfoldable pub fallback_loop : Text → List AffinityRule → Fallback → Fallback
fallback_loop pkg [] f = f
fallback_loop pkg (r ∷ rs) f =
    fallback_loop pkg rs (if package_rule_matches pkg r then add_fallback r f else f)

-- The end of the function, from the locals `cpus`, `cpuset_dir` and `matched`.
abbrev pub affinity_result : AppConfig → Text → CpuSet → Text → Bool → Option AffinityResult
affinity_result cfg pkg cpus dir matched =
    if count cpus == 0
    then (if member pkg cfg.has_thread_rules
        then some (record { cpus = cfg.topo.present_cpus; cpuset_dir = []; is_thread_rule = false })
        else none)
    else some (record { cpus = cpus; cpuset_dir = dir; is_thread_rule = matched })

abbrev pub matched_by : (Text → Text → Bool) → Text → Text → AppConfig → CpuSet × Bool
matched_by fnmatch pkg thread cfg =
    if not (is_empty thread)
    then thread_loop fnmatch pkg thread cfg.rules (new, false)
    else (new, false)

-- What follows the loop over the thread rules.
abbrev pub affinity_from :
    {W : Type 0}
    → CpusetSys W
    → Option Text
    → Text
    → AppConfig
    → W
    → CpuSet × Bool
    → Option AffinityResult × W
affinity_from sys base pkg cfg w (cpus, true) =
    let (dir, w') = ensure_cpuset_dir sys base cpus cfg.topo w in
    (affinity_result cfg pkg cpus dir true, w')
affinity_from sys base pkg cfg w (cpus, false) =
    let f =
      fallback_loop pkg cfg.rules
        (record { cpus = cpus; cpuset_dir = []; fallback_seen = false }) in
    (affinity_result cfg pkg f.cpus f.cpuset_dir false, w)

unfoldable pub thread_affinity :
    {W : Type 0}
    → (Text → Text → Bool)
    → CpusetSys W
    → Option Text
    → Text
    → Text
    → AppConfig
    → W
    → Option AffinityResult × W
thread_affinity fnmatch sys base pkg thread cfg w =
    affinity_from sys base pkg cfg w (matched_by fnmatch pkg thread cfg)

-- The filter on what `read_cmdline` answers.
abbrev pub known : AppConfig → Option Text → Option Text
known cfg none = none
known cfg (some name) = if member name cfg.pkgs then some name else none

unfoldable pub comm_to_pkg : {W : Type 0} → ProcSys W → ℤ → Text → AppConfig → W → Option Text
unfolding read_cmdline
comm_to_pkg sys pid comm cfg w =
    if member comm cfg.pkgs
    then some comm
    else if leb 15 (byte_len comm) && any (λ p. starts_with p comm || ends_with p comm) cfg.pkgs
    then known cfg (read_cmdline sys pid w)
    else none
