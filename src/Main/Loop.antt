-- ===== src/Main/Loop.antt =====
-- AppOptR/src/main.rs: one round of the main loop.
pub mod First
pub mod Forced
pub mod Caches
pub mod Rounds
use app_opt_r_plus.Prelude.{
  ℕ, ◌+◌, ◌*◌, ◌-◌, ◌/◌, ◌%◌, ◌^◌, Bool, true, false, not, ◌&&◌, ◌||◌, Option, none, some, List, [],
  ◌∷◌, ltb, leb, ◌==◌, if◌then◌else◌, is_some, is_none, length, max,
}
use app_opt_r_plus.Prelude.Int.{ℤ}
use app_opt_r_plus.Prelude.Text.{Text}
use app_opt_r_plus.Cpuset.Topology.{CpuTopology, CpusetSys}
use app_opt_r_plus.Config.Load.{AppConfig}
use app_opt_r_plus.Proc.{ProcSys}
use app_opt_r_plus.Cache.{ProcCache, new, affinity_sync}
use app_opt_r_plus.ProcMode.{ProcScanState, scan_new, cache_sync}
use app_opt_r_plus.Ebpf.{EbpfProcEvent, AppliedMap, event_dispatch, affinity_check, full_scan}
use app_opt_r_plus.Ebpf.Init.{BpfSys, ebpf_init, comm_map_init}
use app_opt_r_plus.Daemon.{Globals, WebStats}
use app_opt_r_plus.Web.Status.{cache_stats}
use app_opt_r_plus.Main.State.{
  Received, events, timeout, disconnected, Modes, EbpfState, LoopState, proc_or_new, rescan,
  fallback, Round,
}

module _ {W : Type 0} (m : Modes W) where
  abbrev pub elapsed : ℕ → W → ℕ
  elapsed at w = m.now w - at

  -- Forced to /proc: the kernel program is dropped.
  unfoldable pub leave_ebpf : Round W → Round W
  unfolding fallback
  leave_ebpf (l, (g, w)) =
      if g.mode_force == 2 && is_some l.ebpf_state
      then (let w' = m.ebpf_drop w in (fallback (m.now w') l, (g, w')))
      else (l, (g, w))

  abbrev pub give_up : Globals → Globals
  give_up g = if g.mode_force == 0 then record g { ebpf_gave_up = true } else g

  abbrev pub enter : AppConfig → LoopState → Globals → ℕ → Bool × W → Round W
  enter cfg l g capacity (true, w) = (l, (give_up g, m.ebpf_drop w))
  enter cfg l g capacity (false, w) =
      let (cache, w') = m.full_scan cfg (new, w) in
      (
        record l {
          ebpf_state = some (record { cache = cache; comm_capacity = capacity });
          affinity_deadline = m.now w';
        },
        (g, w'),
      )

  abbrev pub started : AppConfig → LoopState → Globals → Option ℕ × W → Round W
  started cfg l g (none, w) = (l, (give_up g, w))
  started cfg l g (some capacity, w) = enter cfg l g capacity (m.comm_map_init cfg.pkgs capacity w)

  abbrev pub due : LoopState → Globals → W → Bool
  due l g w =
      not (g.mode_force == 2)
      && is_none l.ebpf_state
      && (g.mode_force == 1 || not g.ebpf_gave_up)
      && leb 30000 (elapsed l.ebpf_retry_at w)

  unfoldable pub retry_ebpf : AppConfig → Round W → Round W
  retry_ebpf cfg (l, (g, w)) =
      if due l g w
      then started cfg (record l { ebpf_retry_at = m.now w }) g (m.ebpf_init g.current_config w)
      else (l, (g, w))

  abbrev pub rescanned : AppConfig → LoopState → Globals → EbpfState → Bool × W → Bool × Round W
  rescanned cfg l g es (true, w) = (true, (l, (g, w)))
  rescanned cfg l g es (false, w) =
      let (cache, w') = m.full_scan cfg (es.cache, w) in
      (false, (record l { ebpf_state = some (record es { cache = cache }) }, (g, w')))

  abbrev pub refill : AppConfig → Option EbpfState → Round W → Bool × Round W
  refill cfg none r = (false, r)
  refill cfg (some es) (l, (g, w)) =
      rescanned cfg l g es (m.comm_map_init cfg.pkgs es.comm_capacity w)

  -- Whether the kernel program has to be loaded again for the new rules.
  unfoldable pub need_reload : Bool → AppConfig → Round W → Bool × Round W
  need_reload config_changed cfg (l, s) =
      if config_changed then refill cfg l.ebpf_state (l, s) else (false, (l, s))

  abbrev pub reenter : AppConfig → LoopState → Globals → ℕ → Bool × W → Round W
  reenter cfg l g capacity (true, w) = (l, (g, m.ebpf_drop w))
  reenter cfg l g capacity (false, w) =
      let (cache, w') = m.full_scan cfg (new, w) in
      (record l { ebpf_state = some (record { cache = cache; comm_capacity = capacity }) }, (g, w'))

  abbrev pub restarted : AppConfig → LoopState → Globals → Option ℕ × W → Round W
  restarted cfg l g (none, w) = (l, (g, w))
  restarted cfg l g (some capacity, w) =
      reenter cfg l g capacity (m.comm_map_init cfg.pkgs capacity w)

  unfoldable pub reload_ebpf : AppConfig → Round W → Round W
  reload_ebpf cfg (l, (g, w)) =
      restarted cfg (record l { ebpf_state = none }) g
        (m.ebpf_init g.current_config (m.ebpf_drop w))

  abbrev pub dispatch_all : AppConfig → List EbpfProcEvent → ProcCache × W → ProcCache × W
  dispatch_all cfg [] s = s
  dispatch_all cfg (e ∷ es) s = dispatch_all cfg es (m.event_dispatch e cfg s)

  -- Whether the channel is closed.
  abbrev pub take_events : AppConfig → ProcCache → Received × W → Bool × (ProcCache × W)
  take_events cfg cache (events e es, w) = (false, dispatch_all cfg (e ∷ es) (cache, w))
  take_events cfg cache (timeout, w) = (false, (cache, w))
  take_events cfg cache (disconnected, w) = (true, (cache, w))

  -- Times are in milliseconds; the seconds of an interval are a `u64`.
  unfoldable pub ebpf_round : AppConfig → EbpfState → Round W → Bool × Round W
  ebpf_round cfg es (l, (g, w)) =
      let (dead, s) = take_events cfg es.cache (m.recv w) in
      let late =
        leb (1000 * ((3 * max g.check_interval 1) % 2 ^ 64)) (elapsed l.affinity_deadline s.1) in
      let (cache, w') = if late then m.affinity_check cfg s else s in
      (
        dead,
        (
          record l {
            ebpf_state = some (record es { cache = cache });
            affinity_deadline = if late then m.now w' else l.affinity_deadline;
          },
          (g, w'),
        ),
      )

  unfoldable pub proc_round : AppConfig → Bool → Round W → Round W
  unfolding proc_or_new
  proc_round cfg config_changed (l, (g, w)) =
      let interval = max g.check_interval 1 in
      let st = proc_or_new l.proc_state in
      let (st₁, w₁) = m.cache_sync (if config_changed then rescan st else st) cfg w in
      let late =
        leb (1000 * ((5 * interval) % 2 ^ 64)) (elapsed l.affinity_deadline w₁)
        || st₁.force_affinity in
      let (cache, w₂) = if late then m.affinity_sync cfg.topo st₁.cache w₁ else (st₁.cache, w₁) in
      (
        record l {
          proc_state = some (record st₁ {
            cache = cache;
            force_affinity = if late then false else st₁.force_affinity;
          });
          affinity_deadline = if late then m.now w₂ else l.affinity_deadline;
        },
        (g, m.sleep (1000 * interval) w₂),
      )

  abbrev pub dead_fallback : Bool × Round W → Round W
  unfolding fallback
  dead_fallback (false, r) = r
  dead_fallback (true, (l, (g, w))) = let w' = m.ebpf_drop w in (fallback (m.now w') l, (g, w'))

  abbrev pub mode_of : AppConfig → Bool → Option EbpfState → Round W → Round W
  unfolding dead_fallback ebpf_round proc_round
  mode_of cfg config_changed (some es) r = dead_fallback (ebpf_round cfg es r)
  mode_of cfg config_changed none r = proc_round cfg config_changed r

  unfoldable pub mode_round : AppConfig → Bool → Round W → Round W
  unfolding mode_of
  mode_round cfg config_changed (l, s) = mode_of cfg config_changed l.ebpf_state (l, s)

  abbrev stats_in : Option EbpfState → Option ProcScanState → ℕ × ℕ
  unfolding cache_stats
  stats_in (some es) ps = cache_stats es.cache
  stats_in none (some ps) = cache_stats ps.cache
  stats_in none none = (0, 0)

  abbrev stats_now : AppConfig → LoopState → W → WebStats
  unfolding stats_in
  stats_now cfg l w =
      let counts = stats_in l.ebpf_state l.proc_state in
      record {
        rules = length cfg.rules;
        pkgs = length cfg.pkgs;
        hit_pkgs = counts.1;
        threads = counts.0;
        ebpf = is_some l.ebpf_state;
        uptime = elapsed l.prog_start w / 1000;
      }

  unfoldable pub put_stats : AppConfig → Round W → Round W
  unfolding stats_now
  put_stats cfg (l, (g, w)) =
      if g.web_enabled && leb 2000 (elapsed l.web_stats_deadline w)
      then (
        record l { web_stats_deadline = m.now w },
        (record g { web_stats = some (stats_now cfg l w) }, w),
      )
      else (l, (g, w))

  -- The rest of a round, once it is known whether the program has to be loaded again.
  unfoldable pub after_refill : AppConfig → Bool → Bool × Round W → Round W
  unfolding reload_ebpf mode_round put_stats
  after_refill cfg config_changed (again, r) =
      if again then reload_ebpf cfg r else put_stats cfg (mode_round cfg config_changed r)

  abbrev pub watch_loader : W → W
  watch_loader w = if m.loader_finished w then m.spawn_loader w else w

  unfoldable pub config_round : Bool → AppConfig → Round W → Round W
  unfolding after_refill need_reload retry_ebpf leave_ebpf
  config_round config_changed cfg (l, (g, w)) =
      after_refill cfg config_changed
        (need_reload config_changed cfg (retry_ebpf cfg (leave_ebpf (l, (g, watch_loader w)))))

  abbrev pub round_for : Bool → Option AppConfig → Round W → Round W
  unfolding config_round
  round_for config_changed none (l, (g, w)) = (l, (g, m.sleep 100 w))
  round_for config_changed (some cfg) r = config_round config_changed cfg r

  -- The statics are read at the start of the round.
  unfoldable pub main_round : Round W → Round W
  unfolding round_for
  main_round (l, (g, w)) =
      round_for g.config_updated g.current_config (l, (record g { config_updated = false }, w))
