-- ===== src/Main/State.antt =====
-- AppOptR/src/main.rs: the locals of the main loop and what it calls. The two modes, the channel of events, the clock
-- and the loader thread are an interface; `daemon_modes` of Main/Modes.antt fills it.
use app_opt_r_plus.Prelude.{ℕ, Bool, true, Option, none, some, List}
use app_opt_r_plus.Prelude.Text.{Text}
use app_opt_r_plus.Cpuset.Topology.{CpuTopology}
use app_opt_r_plus.Config.Load.{AppConfig}
use app_opt_r_plus.Cache.{ProcCache}
use app_opt_r_plus.ProcMode.{ProcScanState, scan_new}
use app_opt_r_plus.Ebpf.{EbpfProcEvent}
use app_opt_r_plus.Daemon.{Globals}

-- What `recv_timeout` and the `try_recv` behind it take from the channel.
pub data Received : Type 0 where
  events : EbpfProcEvent → List EbpfProcEvent → Received
  timeout : Received
  disconnected : Received

pub record Modes (W : Type 0) : Type 0 where
  pub ebpf_init : Option AppConfig → W → Option ℕ × W
  pub ebpf_drop : W → W
  pub comm_map_init : List Text → ℕ → W → Bool × W
  pub full_scan : AppConfig → ProcCache × W → ProcCache × W
  pub event_dispatch : EbpfProcEvent → AppConfig → ProcCache × W → ProcCache × W
  pub affinity_check : AppConfig → ProcCache × W → ProcCache × W
  pub cache_sync : ProcScanState → AppConfig → W → ProcScanState × W
  pub affinity_sync : CpuTopology → ProcCache → W → ProcCache × W
  pub recv : W → Received × W
  pub now : W → ℕ
  pub sleep : ℕ → W → W
  pub loader_finished : W → Bool
  pub spawn_loader : W → W

-- Of the kernel program: its cache and the capacity of its whitelist.
pub record EbpfState : Type 0 where
  pub cache : ProcCache
  pub comm_capacity : ℕ

-- The locals of the loop; the times are in milliseconds.
pub record LoopState : Type 0 where
  pub ebpf_state : Option EbpfState
  pub proc_state : Option ProcScanState
  pub affinity_deadline : ℕ
  pub ebpf_retry_at : ℕ
  pub web_stats_deadline : ℕ
  pub prog_start : ℕ

unfoldable pub proc_or_new : Option ProcScanState → ProcScanState
unfolding scan_new
proc_or_new none = scan_new
proc_or_new (some st) = st

-- The scan of all processes is asked for.
abbrev pub rescan : ProcScanState → ProcScanState
rescan st = record st { scan_all_proc = true; last_proc_count = 0 }

unfoldable pub fallback : ℕ → LoopState → LoopState
unfolding proc_or_new
fallback now l = record l {
  ebpf_state = none;
  proc_state = some (record (rescan (proc_or_new l.proc_state)) { force_affinity = true });
  affinity_deadline = now;
}

abbrev pub Round : Type 0 → Type 0
Round W = LoopState × (Globals × W)
