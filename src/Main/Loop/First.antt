-- ===== src/Main/Loop/First.antt =====
-- AppOptR/src/main.rs: the locals that the main loop begins with, and whether the kernel program is given up at once.
use app_opt_r_plus.Prelude.{
  ℕ, ◌-◌, true, ◌&&◌, Option, none, some, leb, ◌==◌, if◌then◌else◌, is_none,
}
use app_opt_r_plus.Cache.{new}
use app_opt_r_plus.Daemon.{Globals}
use app_opt_r_plus.Main.State.{Modes, EbpfState, LoopState, Round}

abbrev pub program_of : Option ℕ → Option EbpfState
program_of none = none
program_of (some capacity) = some (record { cache = new; comm_capacity = capacity })

-- A minute before, if the clock has run for that long.
abbrev minute_before : ℕ → ℕ
minute_before now = if leb 60000 now then now - 60000 else now

abbrev gave_up_at_once : Option ℕ → Globals → Globals
gave_up_at_once o g = if is_none o && g.mode_force == 0 then record g { ebpf_gave_up = true } else g

abbrev pub first_locals : ℕ → Option ℕ → LoopState
first_locals now o = record {
  ebpf_state = program_of o;
  proc_state = none;
  affinity_deadline = now;
  ebpf_retry_at = minute_before now;
  web_stats_deadline = now;
  prog_start = now;
}

-- The loader's thread is started, and then the program is loaded unless /proc is forced.
unfoldable pub loop_start : {W : Type 0} → Modes W → Globals × W → Round W
loop_start m (g, w) =
    let w₁ = m.spawn_loader w in
    let (o, w₂) = if g.mode_force == 2 then (none, w₁) else m.ebpf_init g.current_config w₁ in
    (first_locals (m.now w₁) o, (gave_up_at_once o g, w₂))
