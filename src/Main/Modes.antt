-- ===== src/Main/Modes.antt =====
-- AppOptR/src/main.rs: the functions of the two modes that the main loop calls, as they stand in ebpf_mode.rs,
-- proc_mode.rs and cache.rs. The base of the cpusets and the tuning are those of the round.
use app_opt_r_plus.Prelude.{ℕ, Bool, Option}
use app_opt_r_plus.Prelude.Int.{ℤ}
use app_opt_r_plus.Prelude.Text.{Text}
use app_opt_r_plus.Cpuset.Topology.{CpusetSys}
use app_opt_r_plus.Proc.{ProcSys}
use app_opt_r_plus.Cache.{affinity_sync}
use app_opt_r_plus.ProcMode.{cache_sync}
use app_opt_r_plus.Ebpf.{AppliedMap, event_dispatch, affinity_check, full_scan}
use app_opt_r_plus.Ebpf.Init.{BpfSys, ebpf_init, comm_map_init}
use app_opt_r_plus.Main.State.{Modes, Received}

-- The rest of the loop's calls: the program is dropped, the channel, the clock, and the loader's thread.
pub record LoopSys (W : Type 0) : Type 0 where
  pub sysinfo_procs : W → Option ℕ
  pub ebpf_drop : W → W
  pub recv : W → Received × W
  pub now : W → ℕ
  pub sleep : ℕ → W → W
  pub loader_finished : W → Bool
  pub spawn_loader : W → W

module _ {W : Type 0} (fnmatch : Text → Text → Bool) (csys : CpusetSys W) (sys : ProcSys W)
    (base : Option Text) (apply_task : ℤ → ℤ → Text → Text → W → Bool × W)
    (reapply_thread : ℤ → Text → Text → W → W) where
  unfoldable pub daemon_modes : AppliedMap W → BpfSys W → LoopSys W → Modes W
  unfolding ebpf_init comm_map_init full_scan event_dispatch affinity_check cache_sync affinity_sync
  daemon_modes bpf bsys lsys = record {
    ebpf_init = ebpf_init bsys;
    ebpf_drop = lsys.ebpf_drop;
    comm_map_init = comm_map_init bsys.comm;
    full_scan = full_scan fnmatch csys sys base apply_task reapply_thread bpf;
    event_dispatch = event_dispatch fnmatch csys sys base apply_task reapply_thread bpf;
    affinity_check = affinity_check fnmatch csys sys base apply_task reapply_thread bpf;
    cache_sync = cache_sync fnmatch csys sys base apply_task reapply_thread lsys.sysinfo_procs;
    affinity_sync =
        λ topo c w. (affinity_sync fnmatch csys sys base apply_task reapply_thread topo c w).1;
    recv = lsys.recv;
    now = lsys.now;
    sleep = lsys.sleep;
    loader_finished = lsys.loader_finished;
    spawn_loader = lsys.spawn_loader;
  }
