-- ===== src/Tests/Live.antt =====
-- The theorems on rule matching, the cache and the scan, at concrete inputs.
use app_opt_r_plus.Prelude.{
  ℕ, ◌≡◌, refl, Bool, true, false, not, ◌&&◌, ◌||◌, Option, none, some, [], ◌∷◌, is_some,
  if◌then◌else◌, arith, ◌∙◌,
}
use app_opt_r_plus.Prelude.Int.{ℤ, pos}
use app_opt_r_plus.Prelude.Assoc.{lookup, mem_ℤ}
use app_opt_r_plus.Prelude.Text.{Text, codes, text_eq, member}
use app_opt_r_plus.Cpuset.{CpuSet, new, set}
use app_opt_r_plus.RuleMatch.{AffinityResult, thread_affinity}
use app_opt_r_plus.RuleMatch.Affinity.{thread_affinity-is_some}
use app_opt_r_plus.Cache.{ProcCache, affinity_sync, thread_name}
use app_opt_r_plus.Cache.Sticky.{
  IsCache, IsEntryOf, next_cpus, next_is_thread_rule, answer, applied, task_apply-entry,
  task_apply-other, task_apply-alive, task_apply-IsCache,
}
use app_opt_r_plus.Cache.Sync.{affinity_sync-lookup}
use app_opt_r_plus.ProcMode.{scan_new, cache_sync, reload_needed}
use app_opt_r_plus.ProcMode.Tracked.{IsScanState, scan_new-IsScanState, cache_sync-IsScanState}
use app_opt_r_plus.Tests.Data.{topo, topo-IsTopology, quiet, config, config-IsRule, live}

abbrev get_some : Option AffinityResult → AffinityResult
get_some none = record { cpus = new; cpuset_dir = []; is_thread_rule = false }
get_some (some r) = r

-- The package and the thread of the example.
abbrev pkg : Text
pkg = codes "com.b"

abbrev thread : Text
thread = codes "main"

abbrev found : AffinityResult
found = get_some (thread_affinity text_eq quiet none pkg thread config 0).0

has_threads : member pkg config.has_thread_rules ≡ true
unfolding member text_eq
has_threads = refl

-- No tuning, and threads that never are gone.
abbrev no_tuning : ℤ → ℤ → Text → Text → ℕ → Bool × ℕ
no_tuning tid pid p name w = (false, w)

abbrev no_reapply : ℤ → Text → Text → ℕ → ℕ
no_reapply tid p comm w = w

abbrev alive : ℤ → CpuSet → Text → ℕ → Bool × ℕ
alive tid cpus dir w = (false, w)

-- A cache in which thread 8 of process 7 has a thread rule.
abbrev cache : ProcCache
cache = record {
  tasks =
      (
        pos 8,
        record {
          pid = pos 7;
          pkg = pkg;
          comm = thread;
          cpus = some (set 2 new);
          cpuset_dir = [];
          is_thread_rule = true;
        },
      )
      ∷ [];
}

cache-IsCache : IsCache cache
cache-IsCache = record { is_map = (refl, tt); entries = (refl, tt) }

abbrev result : Bool × (ProcCache × ℕ)
result =
    applied text_eq quiet live none no_tuning no_reapply alive (pos 8) (pos 7) pkg thread config
      cache 0

abbrev now : Option AffinityResult
now =
    answer text_eq quiet live none no_tuning no_reapply alive (pos 8) (pos 7) pkg thread config
      cache 0

now-is_some : is_some now ≡ true
unfolding member text_eq
now-is_some =
    thread_affinity-is_some text_eq quiet none pkg (thread_name config pkg thread) config 0
      topo-IsTopology config-IsRule
    ∙ ground (arith, has_threads)

result-applies : result.0 ≡ true
result-applies =
    task_apply-alive text_eq quiet live none no_tuning no_reapply alive (pos 8) (pos 7) pkg thread
      config cache 0 (λ t cpus dir v. refl)
    ∙ ground (arith, now-is_some)

task_apply-entry_example :
    IsEntryOf
      (pos 7)
      pkg
      (thread_name config pkg thread)
      (next_cpus now (lookup (pos 8) cache.tasks))
      (next_is_thread_rule now (lookup (pos 8) cache.tasks))
      (lookup (pos 8) result.1.0.tasks)
task_apply-entry_example =
    task_apply-entry text_eq quiet live none no_tuning no_reapply alive (pos 8) (pos 7) pkg thread
      config cache 0 result-applies

task_apply-other_example : lookup (pos 9) result.1.0.tasks ≡ lookup (pos 9) cache.tasks
task_apply-other_example =
    task_apply-other text_eq quiet live none no_tuning no_reapply alive (pos 8) (pos 7) pkg thread
      config cache 0 (pos 9) refl

task_apply-IsCache_example : IsCache result.1.0
task_apply-IsCache_example =
    task_apply-IsCache text_eq quiet live none no_tuning no_reapply alive (pos 8) (pos 7) pkg thread
      config cache 0 cache-IsCache

affinity_sync-lookup_example :
    (let r = affinity_sync text_eq quiet live none no_tuning no_reapply topo cache 0 in
      (lookup (pos 8) r.1.0.tasks
        ≡ (if mem_ℤ (pos 8) r.0 then none else lookup (pos 8) cache.tasks))
      × IsCache r.1.0
      × ((mem_ℤ (pos 8) r.0 && not (is_some (lookup (pos 8) cache.tasks))) ≡ false))
affinity_sync-lookup_example =
    affinity_sync-lookup text_eq quiet live none no_tuning no_reapply topo cache 0 (pos 8)
      cache-IsCache

abbrev procs : ℕ → Option ℕ
procs w = some 120

cache_sync-IsScanState_example :
    IsScanState (cache_sync text_eq quiet live none no_tuning no_reapply procs scan_new config 0).0
    × ((cache_sync text_eq quiet live none no_tuning no_reapply procs scan_new config
          0).0.force_affinity
        ≡ (scan_new.force_affinity
            || reload_needed text_eq quiet live none no_tuning no_reapply procs scan_new 0))
cache_sync-IsScanState_example =
    cache_sync-IsScanState text_eq quiet live none no_tuning no_reapply procs config scan_new 0
      scan_new-IsScanState
