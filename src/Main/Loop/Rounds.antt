-- ===== src/Main/Loop/Rounds.antt =====
-- AppOptR/src/main.rs: the rounds of the main loop from the start of the loop on, between which the other threads change
-- the statics.
use app_opt_r_plus.Prelude.{ℕ, Bool, false, Option, none, some}
use app_opt_r_plus.Prelude.Int.{ℤ, pos}
use app_opt_r_plus.Prelude.Text.{Text}
use app_opt_r_plus.Cpuset.Topology.{CpusetSys}
use app_opt_r_plus.Config.Load.{AppConfig}
use app_opt_r_plus.Proc.{ProcSys}
use app_opt_r_plus.Cache.Sync.{affinity_sync-lookup}
use app_opt_r_plus.ProcMode.Tracked.{cache_sync-IsCache}
use app_opt_r_plus.Ebpf.{AppliedMap}
use app_opt_r_plus.Ebpf.Dispatch.{dispatch-Keeps}
use app_opt_r_plus.Ebpf.Scan.{full_scan-IsCache, affinity_check-IsCache}
use app_opt_r_plus.Ebpf.Init.{BpfSys}
use app_opt_r_plus.Daemon.{Globals}
use app_opt_r_plus.Main.State.{Modes, LoopState, Round}
use app_opt_r_plus.Main.Modes.{LoopSys, daemon_modes}
use app_opt_r_plus.Main.Loop.{main_round, round_for}
use app_opt_r_plus.Main.Loop.First.{loop_start, first_locals}
use app_opt_r_plus.Main.Loop.Caches.{KeepsCaches, IsLoop, Sound, new-IsCache, config_round-Sound}

main_round-Sound :
    {W : Type 0} (m : Modes W) → KeepsCaches m → (r : Round W) → Sound r → Sound (main_round m r)
unfolding main_round round_for
main_round-Sound m k (l, (g, w)) v = at_config g.current_config
  where
    at_config :
        (o : Option AppConfig)
        → Sound (round_for m g.config_updated o (l, (record g { config_updated = false }, w)))
    at_config none = v
    at_config (some cfg) =
        config_round-Sound m k cfg g.config_updated (l, (record g { config_updated = false }, w)) v

first_locals-IsLoop : (now : ℕ) (o : Option ℕ) → IsLoop (first_locals now o)
first_locals-IsLoop now none = record { program = tt; scan = tt }
first_locals-IsLoop now (some n) = record { program = new-IsCache; scan = tt }

module _ {W : Type 0} (fnmatch : Text → Text → Bool) (csys : CpusetSys W) (sys : ProcSys W)
    (bpf : AppliedMap W) (bsys : BpfSys W) (lsys : LoopSys W) where
  daemon_modes-KeepsCaches :
      (base : Option Text) (apply_task : ℤ → ℤ → Text → Text → W → Bool × W)
      (reapply_thread : ℤ → Text → Text → W → W)
      → KeepsCaches (daemon_modes fnmatch csys sys base apply_task reapply_thread bpf bsys lsys)
  unfolding daemon_modes
  daemon_modes-KeepsCaches base apply_task reapply_thread = record {
    full_scan =
        λ cfg s. full_scan-IsCache fnmatch csys sys base apply_task reapply_thread bpf cfg s;
    event_dispatch = λ e cfg s.
        (dispatch-Keeps fnmatch csys sys base apply_task reapply_thread bpf cfg e s).cache;
    affinity_check =
        λ cfg s. affinity_check-IsCache fnmatch csys sys base apply_task reapply_thread bpf cfg s;
    cache_sync = λ st cfg w.
        cache_sync-IsCache fnmatch csys sys base apply_task reapply_thread lsys.sysinfo_procs cfg st
          w;
    affinity_sync = λ topo c w v.
        (affinity_sync-lookup fnmatch csys sys base apply_task reapply_thread topo c w (pos 0) v).1;
  }

  -- The states at the start of a round. A round runs with the base of the cpusets and the tuning that are then in force;
  -- between two rounds the other threads may change the statics and the system in any way.
  pub data Reach : Round W → Type 0 where
    begun :
        (base : Option Text) (apply_task : ℤ → ℤ → Text → Text → W → Bool × W)
        (reapply_thread : ℤ → Text → Text → W → W) (g : Globals) (w : W)
        → Reach (
            loop_start
              (daemon_modes fnmatch csys sys base apply_task reapply_thread bpf bsys lsys)
              (g, w))
    round :
        (base : Option Text) (apply_task : ℤ → ℤ → Text → Text → W → Bool × W)
        (reapply_thread : ℤ → Text → Text → W → W) (r : Round W)
        → Reach r
        → Reach (
            main_round
              (daemon_modes fnmatch csys sys base apply_task reapply_thread bpf bsys lsys)
              r)
    meanwhile :
        (l : LoopState) (g g' : Globals) (w w' : W) → Reach (l, (g, w)) → Reach (l, (g', w'))

  -- In every state that the main loop reaches, whatever the modes are switched to, the kernel program does, the rules
  -- are changed to and the system answers: the cache of the kernel program, if one is loaded, and the cache of the
  -- mode that polls, if it was in use, have no two entries of one thread, and every entry without CPUs has no cpuset
  -- directory and was made by no thread rule.
  pub main_round-IsLoop : (r : Round W) → Reach r → IsLoop r.0
  unfolding loop_start
  main_round-IsLoop _ (begun base apply_task reapply_thread g w) = first_locals-IsLoop _ _
  main_round-IsLoop _ (round base apply_task reapply_thread r h) =
      main_round-Sound _ (daemon_modes-KeepsCaches base apply_task reapply_thread) r
        (main_round-IsLoop r h)
  main_round-IsLoop _ (meanwhile l g g' w w' h) = main_round-IsLoop (l, (g, w)) h
