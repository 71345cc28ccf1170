-- ===== src/ProcMode/Tracked.antt =====
-- AppOptR/src/proc_mode.rs, `cache_sync`: lemmas on the cache and the tracked processes.
use app_opt_r_plus.Prelude.{
  ℕ, ◌≡◌, refl, Bool, ◌||◌, Option, none, some, List, [], ◌∷◌, arith, if_cases, if_both,
}
use app_opt_r_plus.Prelude.Int.{ℤ}
use app_opt_r_plus.Prelude.Assoc.{mem_ℤ}
use app_opt_r_plus.Prelude.Text.{Text, codes, member}
use app_opt_r_plus.Cpuset.Topology.{CpusetSys}
use app_opt_r_plus.Config.Load.{AppConfig}
use app_opt_r_plus.Proc.{
  ProcSys, task_tids, walk_pkg, walk_loop, proc_walk, numbers, call, walk_names,
}
use app_opt_r_plus.Cache.{ProcCache, new, clear}
use app_opt_r_plus.Cache.Sticky.{IsCache, task_apply-IsCache}
use app_opt_r_plus.ProcMode.{
  ProcScanState, scan_new, entry_pids, tids_loop, proc_tasks, proc_scan, cache_sync, no_apply,
  thread_name_of, reload_needed, counted, on_tids,
}

-- The cache is well-formed, and a process is tracked exactly if some entry is of it.
pub record IsScanState (st : ProcScanState) : Type 0 where
  pub cache : IsCache st.cache
  pub tracks : st.tracked_pids ≡ entry_pids st.cache.tasks

pub scan_new-IsScanState : IsScanState scan_new
unfolding scan_new new
scan_new-IsScanState = record { cache = record { is_map = tt; entries = tt }; tracks = refl }

module _ {W : Type 0} (fnmatch : Text → Text → Bool) (csys : CpusetSys W) (sys : ProcSys W)
    (base : Option Text) (apply_task : ℤ → ℤ → Text → Text → W → Bool × W)
    (reapply_thread : ℤ → Text → Text → W → W) (sysinfo_procs : W → Option ℕ)
    (cfg : AppConfig) where
  tids_loop-IsCache :
      (tids : List ℤ) (pid : ℤ) (pkg : Text) (h : Bool) (s : ProcCache × W)
      → IsCache s.0
      → IsCache
          (tids_loop fnmatch csys sys base apply_task reapply_thread sysinfo_procs tids pid pkg h
            cfg s).1.0
  unfolding tids_loop
  tids_loop-IsCache [] pid pkg h s v = v
  tids_loop-IsCache (tid ∷ tids) pid pkg h (c, w) v = tids_loop-IsCache tids pid pkg h _ (
      task_apply-IsCache fnmatch csys sys base apply_task reapply_thread
        (no_apply fnmatch csys sys base apply_task reapply_thread sysinfo_procs) tid pid pkg
        (thread_name_of fnmatch csys sys base apply_task reapply_thread sysinfo_procs h tid w) cfg c
        w v)

  on_tids-IsCache :
      (pid : ℤ) (pkg : Text) (h : Bool) (s : ProcCache × W) (o : Option (List ℤ))
      → IsCache s.0
      → IsCache
          (on_tids fnmatch csys sys base apply_task reapply_thread sysinfo_procs pid pkg h cfg s
            o).1.0
  on_tids-IsCache pid pkg h s none v = v
  on_tids-IsCache pid pkg h s (some tids) v = tids_loop-IsCache tids pid pkg h s v

  proc_tasks-IsCache :
      (pid : ℤ) (pkg : Text) (h : Bool) (s : ProcCache × W)
      → IsCache s.0
      → IsCache
          (proc_tasks fnmatch csys sys base apply_task reapply_thread sysinfo_procs pid pkg h cfg
            s).1.0
  unfolding proc_tasks
  proc_tasks-IsCache pid pkg h (c, w) v = on_tids-IsCache pid pkg h (c, w) (task_tids sys pid w) v

  abbrev each : ℤ → Text → Bool → ProcCache × W → ProcCache × W
  each pid pkg h s =
      (proc_tasks fnmatch csys sys base apply_task reapply_thread sysinfo_procs pid pkg h cfg s).1

  call-IsCache :
      (pid : ℤ) (o : Option Text) (s : ProcCache × W)
      → IsCache s.0
      → IsCache (call sys each cfg pid o s).1.0
  call-IsCache pid none s v = v
  call-IsCache pid (some pkg) s v = proc_tasks-IsCache pid pkg (member pkg cfg.has_thread_rules) s v

  walk_loop-IsCache :
      (filter : ℤ → Bool) (pids : List ℤ) (s : ProcCache × W)
      → IsCache s.0
      → IsCache (walk_loop sys cfg filter each pids s).1.0
  unfolding walk_loop
  walk_loop-IsCache filter [] s v = v
  walk_loop-IsCache filter (pid ∷ pids) s v = walk_loop-IsCache filter pids _ (
      if_both (λ (x : ℕ × (ProcCache × W)). IsCache x.1.0) (filter pid)
        (call-IsCache pid (walk_pkg sys cfg pid s.1) s v) v)

  walk_names-IsCache :
      (filter : ℤ → Bool) (o : Option (List Text)) (s : ProcCache × W)
      → IsCache s.0
      → IsCache (walk_names sys cfg filter each s o).1.0
  walk_names-IsCache filter none s v = v
  walk_names-IsCache filter (some names) s v = walk_loop-IsCache filter (numbers names) s v

  pub proc_scan-IsCache :
      (st : ProcScanState) (w : W)
      → IsCache
          (proc_scan fnmatch csys sys base apply_task reapply_thread sysinfo_procs cfg st
            w).1.0.cache
  unfolding proc_scan proc_walk clear
  proc_scan-IsCache st w =
      walk_names-IsCache (λ pid. st.scan_all_proc || mem_ℤ pid st.tracked_pids)
        (sys.read_dir (codes "/proc") w) (record { tasks = [] }, w)
        (record { is_map = tt; entries = tt })

  abbrev Counted : ProcScanState → ProcScanState → Type 0
  Counted st st' =
      (st'.cache ≡ st.cache)
      × (st'.tracked_pids ≡ st.tracked_pids)
      × (st'.force_affinity ≡ st.force_affinity)

  counted-keeps :
      (st : ProcScanState) (o : Option ℕ)
      → Counted st (counted fnmatch csys sys base apply_task reapply_thread sysinfo_procs st o)
  counted-keeps st none = (refl, refl, refl)
  counted-keeps st (some n) = (refl, refl, refl)

  -- `cache_sync` keeps the cache a well-formed map and the tracked processes those of its entries,
  -- whether it scans /proc or not. It asks for the affinity to be applied again exactly if it scans or
  -- that was asked for already.
  pub cache_sync-IsScanState :
      (st : ProcScanState) (w : W)
      → IsScanState st
      → IsScanState
          (cache_sync fnmatch csys sys base apply_task reapply_thread sysinfo_procs st cfg w).0
        × ((cache_sync fnmatch csys sys base apply_task reapply_thread sysinfo_procs st cfg
              w).0.force_affinity
            ≡ (st.force_affinity
                || reload_needed fnmatch csys sys base apply_task reapply_thread sysinfo_procs st
                    w))
  unfolding cache_sync
  cache_sync-IsScanState st w v =
      let reload =
        reload_needed fnmatch csys sys base apply_task reapply_thread sysinfo_procs st w in
      let (c, t, f) = counted-keeps st (sysinfo_procs w) in
      if_cases
        (λ (x : ProcScanState × W).
          IsScanState x.0 × (x.0.force_affinity ≡ (st.force_affinity || reload)))
        reload (λ e. (record { cache = proc_scan-IsCache _ w; tracks = refl }, ground (arith, e)))
        (λ e. (record { cache = rw c v.cache; tracks = rw (c, t) v.tracks }, ground (arith, e, f)))

  pub cache_sync-IsCache :
      (st : ProcScanState) (w : W)
      → IsCache st.cache
      → IsCache
          (cache_sync fnmatch csys sys base apply_task reapply_thread sysinfo_procs st cfg
            w).0.cache
  unfolding cache_sync
  cache_sync-IsCache st w v =
      let reload =
        reload_needed fnmatch csys sys base apply_task reapply_thread sysinfo_procs st w in
      let (c, t, f) = counted-keeps st (sysinfo_procs w) in
      if_cases (λ (x : ProcScanState × W). IsCache x.0.cache) reload (λ e. proc_scan-IsCache _ w)
        (λ e. rw c v)
