-- ===== src/Ebpf/Scan.antt =====
-- AppOptR/src/ebpf_mode.rs: lemmas on `full_scan` and `affinity_check`.
use app_opt_r_plus.Prelude.{ℕ, Bool, true, Option, none, some, List, [], ◌∷◌, if_both}
use app_opt_r_plus.Prelude.Int.{ℤ, pos}
use app_opt_r_plus.Prelude.Text.{Text, codes, member}
use app_opt_r_plus.Cpuset.Topology.{CpusetSys}
use app_opt_r_plus.Config.Load.{AppConfig}
use app_opt_r_plus.Proc.{
  ProcSys, task_tids, walk_pkg, walk_loop, proc_walk, numbers, call, walk_names,
}
use app_opt_r_plus.Cache.{ProcCache, clear}
use app_opt_r_plus.Cache.Sticky.{IsCache, task_apply-IsCache}
use app_opt_r_plus.Cache.Sync.{affinity_sync-lookup}
use app_opt_r_plus.Ebpf.{
  AppliedMap, affinity_apply, tracked_apply, scan_tids, scan_process, full_scan, affinity_check,
}

-- A property of the cache that the closure keeps is kept by the walk.
module _ {W : Type 0} (sys : ProcSys W) (cfg : AppConfig) (filter : ℤ → Bool)
    (f : ℤ → Text → Bool → ProcCache × W → ProcCache × W)
    (keeps : (pid : ℤ) (pkg : Text) (h : Bool) (s : ProcCache × W)
      → IsCache s.0
      → IsCache (f pid pkg h s).0) where
  call-IsCache :
      (pid : ℤ) (o : Option Text) (s : ProcCache × W)
      → IsCache s.0
      → IsCache (call sys f cfg pid o s).1.0
  call-IsCache pid none s v = v
  call-IsCache pid (some pkg) s v = keeps pid pkg (member pkg cfg.has_thread_rules) s v

  walk_loop-IsCache :
      (pids : List ℤ) (s : ProcCache × W)
      → IsCache s.0
      → IsCache (walk_loop sys cfg filter f pids s).1.0
  unfolding walk_loop
  walk_loop-IsCache [] s v = v
  walk_loop-IsCache (pid ∷ pids) s v = walk_loop-IsCache pids _ (
      if_both (λ (x : ℕ × (ProcCache × W)). IsCache x.1.0) (filter pid)
        (call-IsCache pid (walk_pkg sys cfg pid s.1) s v) v)

  walk_names-IsCache :
      (o : Option (List Text)) (s : ProcCache × W)
      → IsCache s.0
      → IsCache (walk_names sys cfg filter f s o).1.0
  walk_names-IsCache none s v = v
  walk_names-IsCache (some names) s v = walk_loop-IsCache (numbers names) s v

module _ {W : Type 0} (fnmatch : Text → Text → Bool) (csys : CpusetSys W) (sys : ProcSys W)
    (base : Option Text) (apply_task : ℤ → ℤ → Text → Text → W → Bool × W)
    (reapply_thread : ℤ → Text → Text → W → W) (bpf : AppliedMap W) (cfg : AppConfig) where
  scan_tids-IsCache :
      (pid : ℤ) (pkg : Text) (h : Bool) (tids : List ℤ) (s : ProcCache × W)
      → IsCache s.0
      → IsCache
          (scan_tids fnmatch csys sys base apply_task reapply_thread bpf pid pkg h cfg tids s).0
  unfolding tracked_apply
  scan_tids-IsCache pid pkg h [] s v = v
  scan_tids-IsCache pid pkg h (tid ∷ tids) (c, w) v = scan_tids-IsCache pid pkg h tids _ (
      task_apply-IsCache fnmatch csys sys base apply_task reapply_thread
        (affinity_apply fnmatch csys sys base apply_task reapply_thread bpf cfg) tid pid pkg _ cfg c
        w v)

  scanned-IsCache :
      (pid : ℤ) (pkg : Text) (h : Bool) (s : ProcCache × W) (o : Option (List ℤ))
      → IsCache s.0
      → IsCache
          (elim o as (λ o. ProcCache × W) [
            | none ↦ s
            | some tids ↦
                scan_tids fnmatch csys sys base apply_task reapply_thread bpf pid pkg h cfg tids s
          ]).0
  scanned-IsCache pid pkg h s none v = v
  scanned-IsCache pid pkg h s (some tids) v = scan_tids-IsCache pid pkg h tids s v

  pub full_scan-IsCache :
      (s : ProcCache × W)
      → IsCache (full_scan fnmatch csys sys base apply_task reapply_thread bpf cfg s).0
  unfolding full_scan proc_walk clear
  full_scan-IsCache (c, w) =
      walk_names-IsCache sys cfg (λ pid. true)
        (scan_process fnmatch csys sys base apply_task reapply_thread bpf cfg)
        (λ pid pkg h s. scanned-IsCache pid pkg h s (task_tids sys pid s.1))
        (sys.read_dir (codes "/proc") (bpf.remove_all w)) (record { tasks = [] }, bpf.remove_all w)
        (record { is_map = tt; entries = tt })

  pub affinity_check-IsCache :
      (s : ProcCache × W)
      → IsCache s.0
      → IsCache (affinity_check fnmatch csys sys base apply_task reapply_thread bpf cfg s).0
  unfolding affinity_check
  affinity_check-IsCache (c, w) v =
      (affinity_sync-lookup fnmatch csys sys base apply_task reapply_thread cfg.topo c w (pos 0)
        v).1
