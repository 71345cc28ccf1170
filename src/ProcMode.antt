-- ===== src/ProcMode.antt =====
-- AppOptR/src/proc_mode.rs: the mode that scans /proc. The closures are functions on the cache.
pub mod Tracked
use app_opt_r_plus.Prelude.{
  ℕ, Bool, true, false, not, ◌&&◌, ◌||◌, Option, none, some, List, [], ◌∷◌, ltb, if◌then◌else◌, any,
  is_some,
}
use app_opt_r_plus.Prelude.Int.{ℤ}
use app_opt_r_plus.Prelude.Assoc.{mem_ℤ}
use app_opt_r_plus.Prelude.Text.{Text}
use app_opt_r_plus.Cpuset.{CpuSet}
use app_opt_r_plus.Cpuset.Topology.{CpusetSys}
use app_opt_r_plus.Config.Load.{AppConfig}
use app_opt_r_plus.Proc.{ProcSys, task_tids, tid_comm, proc_walk}
use app_opt_r_plus.Cache.{TaskEntry, ProcCache, new, clear, task_apply}

-- `tracked_pids` is a hash set, of which only the members count. The two counts never are negative.
pub record ProcScanState : Type 0 where
  pub cache : ProcCache
  pub last_proc_count : ℕ
  pub scan_all_proc : Bool
  pub tracked_pids : List ℤ
  pub last_proc_total : ℕ
  pub force_affinity : Bool

unfoldable pub scan_new : ProcScanState
scan_new = record {
  cache = new;
  last_proc_count = 0;
  scan_all_proc = true;
  tracked_pids = [];
  last_proc_total = 0;
  force_affinity = false;
}

abbrev pub entry_pids : List (ℤ × TaskEntry) → List ℤ
entry_pids [] = []
entry_pids ((tid, e) ∷ es) = e.pid ∷ entry_pids es

-- `unwrap_or_default`.
abbrev or_empty : Option Text → Text
or_empty none = []
or_empty (some s) = s

module _ {W : Type 0} (fnmatch : Text → Text → Bool) (csys : CpusetSys W) (sys : ProcSys W)
    (base : Option Text) (apply_task : ℤ → ℤ → Text → Text → W → Bool × W)
    (reapply_thread : ℤ → Text → Text → W → W) (sysinfo_procs : W → Option ℕ) where
  -- The closure that applies nothing and finds no thread dead.
  abbrev pub no_apply : ℤ → CpuSet → Text → W → Bool × W
  no_apply tid cpus dir w = (false, w)

  abbrev pub thread_name_of : Bool → ℤ → W → Text
  thread_name_of has_thread_rules tid w =
      if has_thread_rules then or_empty (tid_comm sys tid w) else []

  unfoldable pub tids_loop :
      List ℤ → ℤ → Text → Bool → AppConfig → ProcCache × W → Bool × (ProcCache × W)
  tids_loop [] pid pkg has_thread_rules cfg s = (false, s)
  tids_loop (tid ∷ tids) pid pkg has_thread_rules cfg (c, w) =
      let (inserted, s₁) =
        task_apply fnmatch csys sys base apply_task reapply_thread no_apply tid pid pkg
          (thread_name_of has_thread_rules tid w) cfg c w in
      let (others, s₂) = tids_loop tids pid pkg has_thread_rules cfg s₁ in (inserted || others, s₂)

  abbrev pub on_tids :
      ℤ → Text → Bool → AppConfig → ProcCache × W → Option (List ℤ) → Bool × (ProcCache × W)
  on_tids pid pkg has_thread_rules cfg s none = (false, s)
  on_tids pid pkg has_thread_rules cfg s (some tids) = tids_loop tids pid pkg has_thread_rules cfg s

  unfoldable pub proc_tasks : ℤ → Text → Bool → AppConfig → ProcCache × W → Bool × (ProcCache × W)
  proc_tasks pid pkg has_thread_rules cfg (c, w) =
      on_tids pid pkg has_thread_rules cfg (c, w) (task_tids sys pid w)

  abbrev pub scanned : ProcScanState → Bool → ProcCache → ℕ → ProcScanState
  scanned st more c total = record st { cache = c; scan_all_proc = more; last_proc_total = total }

  unfoldable pub proc_scan : AppConfig → ProcScanState → W → ℕ × (ProcScanState × W)
  proc_scan cfg st w =
      let (counts, s) =
        proc_walk sys cfg (λ pid. st.scan_all_proc || mem_ℤ pid st.tracked_pids)
          (λ pid pkg has_thread_rules s. (proc_tasks pid pkg has_thread_rules cfg s).1)
          (clear st.cache, w) in
      (counts.0, (scanned st (ltb st.last_proc_total counts.1) s.0 counts.1, s.1))

  -- The tests for a reload, without the last: whether `sysinfo` fails or counts more processes.
  abbrev pub more_procs : ProcScanState → Option ℕ → Bool
  more_procs st none = true
  more_procs st (some procs) = ltb st.last_proc_count procs

  abbrev pub counted : ProcScanState → Option ℕ → ProcScanState
  counted st none = st
  counted st (some procs) = record st { last_proc_count = procs }

  abbrev pub some_gone : ProcScanState → W → Bool
  some_gone st w = any (λ pid. is_some (sys.kill_zero pid w)) st.tracked_pids

  abbrev pub reload_needed : ProcScanState → W → Bool
  reload_needed st w = st.scan_all_proc || more_procs st (sysinfo_procs w) || some_gone st w

  abbrev pub tracked : ProcScanState → ProcScanState
  tracked st = record st { tracked_pids = entry_pids st.cache.tasks; force_affinity = true }

  unfoldable pub cache_sync : ProcScanState → AppConfig → W → ProcScanState × W
  cache_sync st cfg w =
      let st₁ = counted st (sysinfo_procs w) in
      if reload_needed st w
      then (let (n, s) = proc_scan cfg st₁ w in (tracked s.0, s.1))
      else (st₁, w)
