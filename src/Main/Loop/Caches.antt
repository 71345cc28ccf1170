-- ===== src/Main/Loop/Caches.antt =====
-- AppOptR/src/main.rs: the caches of both modes over the rounds of the main loop, between which other threads change the
-- statics.
use app_opt_r_plus.Prelude.{
  ℕ, ◌==◌, ◌&&◌, Bool, true, false, Option, none, some, List, [], ◌∷◌, if_both, if◌then◌else◌,
  is_some,
}
use app_opt_r_plus.Cpuset.Topology.{CpuTopology}
use app_opt_r_plus.Config.Load.{AppConfig}
use app_opt_r_plus.Cache.{ProcCache, new}
use app_opt_r_plus.Cache.Sticky.{IsCache}
use app_opt_r_plus.ProcMode.{ProcScanState, scan_new}
use app_opt_r_plus.Ebpf.{EbpfProcEvent}
use app_opt_r_plus.Daemon.{Globals}
use app_opt_r_plus.Main.State.{
  Received, events, timeout, disconnected, Modes, EbpfState, LoopState, proc_or_new, fallback,
  Round, rescan,
}
use app_opt_r_plus.Main.Loop.{
  leave_ebpf, retry_ebpf, need_reload, reload_ebpf, after_refill, config_round, mode_round, mode_of,
  proc_round, ebpf_round, put_stats, refill, rescanned, due, watch_loader, enter, started, reenter,
  restarted, dispatch_all, take_events, dead_fallback,
}

-- What the loop relies on of the modes: their functions keep a cache well-formed.
pub record KeepsCaches {W : Type 0} (m : Modes W) : Type 0 where
  pub full_scan : (cfg : AppConfig) (s : ProcCache × W) → IsCache (m.full_scan cfg s).0
  pub event_dispatch :
      (e : EbpfProcEvent) (cfg : AppConfig) (s : ProcCache × W)
      → IsCache s.0
      → IsCache (m.event_dispatch e cfg s).0
  pub affinity_check :
      (cfg : AppConfig) (s : ProcCache × W) → IsCache s.0 → IsCache (m.affinity_check cfg s).0
  pub cache_sync :
      (st : ProcScanState) (cfg : AppConfig) (w : W)
      → IsCache st.cache
      → IsCache (m.cache_sync st cfg w).0.cache
  pub affinity_sync :
      (topo : CpuTopology) (c : ProcCache) (w : W)
      → IsCache c
      → IsCache (m.affinity_sync topo c w).0

abbrev pub ProgramOk : Option EbpfState → Type 0
ProgramOk none = Unit
ProgramOk (some es) = IsCache es.cache

abbrev pub ScanOk : Option ProcScanState → Type 0
ScanOk none = Unit
ScanOk (some st) = IsCache st.cache

-- The cache of the kernel program, if it is loaded, and that of the mode that polls, if it was in use.
pub record IsLoop (l : LoopState) : Type 0 where
  pub program : ProgramOk l.ebpf_state
  pub scan : ScanOk l.proc_state

abbrev pub Sound : {W : Type 0} → Round W → Type 0
Sound (l, s) = IsLoop l

pub new-IsCache : IsCache new
unfolding new
new-IsCache = record { is_map = tt; entries = tt }

proc_or_new-IsCache : (o : Option ProcScanState) → ScanOk o → IsCache (proc_or_new o).cache
unfolding proc_or_new scan_new
proc_or_new-IsCache none v = new-IsCache
proc_or_new-IsCache (some st) v = v

fallback-IsLoop : (now : ℕ) (l : LoopState) → IsLoop l → IsLoop (fallback now l)
unfolding fallback
fallback-IsLoop now l v = record { program = tt; scan = proc_or_new-IsCache l.proc_state v.scan }

module _ {W : Type 0} (m : Modes W) (k : KeepsCaches m) (cfg : AppConfig) where
  leave_ebpf-Sound : (r : Round W) → Sound r → Sound (leave_ebpf m r)
  unfolding leave_ebpf
  leave_ebpf-Sound (l, (g, w)) v =
      if_both (λ (r : Round W). Sound r) (g.mode_force == 2 && is_some l.ebpf_state)
        (fallback-IsLoop (m.now (m.ebpf_drop w)) l v) v

  enter-Sound :
      (l : LoopState) (g : Globals) (n : ℕ) (r : Bool × W) → IsLoop l → Sound (enter m cfg l g n r)
  enter-Sound l g n (true, w) v = v
  enter-Sound l g n (false, w) v = record { program = k.full_scan cfg (new, w); scan = v.scan }

  started-Sound :
      (l : LoopState) (g : Globals) (r : Option ℕ × W) → IsLoop l → Sound (started m cfg l g r)
  started-Sound l g (none, w) v = v
  started-Sound l g (some n, w) v = enter-Sound l g n (m.comm_map_init cfg.pkgs n w) v

  retry_ebpf-Sound : (r : Round W) → Sound r → Sound (retry_ebpf m cfg r)
  unfolding retry_ebpf
  retry_ebpf-Sound (l, (g, w)) v =
      if_both (λ (r : Round W). Sound r) (due m l g w)
        (started-Sound (record l { ebpf_retry_at = m.now w }) g (m.ebpf_init g.current_config w)
          (record { program = v.program; scan = v.scan }))
        v

  rescanned-Sound :
      (l : LoopState) (g : Globals) (es : EbpfState) (r : Bool × W)
      → IsLoop l
      → Sound (rescanned m cfg l g es r).1
  rescanned-Sound l g es (true, w) v = v
  rescanned-Sound l g es (false, w) v = record {
    program = k.full_scan cfg (es.cache, w);
    scan = v.scan;
  }

  refill-Sound : (o : Option EbpfState) (r : Round W) → Sound r → Sound (refill m cfg o r).1
  refill-Sound none (l, (g, w)) v = v
  refill-Sound (some es) (l, (g, w)) v =
      rescanned-Sound l g es (m.comm_map_init cfg.pkgs es.comm_capacity w) v

  need_reload-Sound :
      (changed : Bool) (r : Round W) → Sound r → Sound (need_reload m changed cfg r).1
  unfolding need_reload
  need_reload-Sound true (l, s) v = refill-Sound l.ebpf_state (l, s) v
  need_reload-Sound false (l, s) v = v

  reenter-Sound :
      (l : LoopState) (g : Globals) (n : ℕ) (r : Bool × W)
      → IsLoop l
      → Sound (reenter m cfg l g n r)
  reenter-Sound l g n (true, w) v = v
  reenter-Sound l g n (false, w) v = record { program = k.full_scan cfg (new, w); scan = v.scan }

  restarted-Sound :
      (l : LoopState) (g : Globals) (r : Option ℕ × W) → IsLoop l → Sound (restarted m cfg l g r)
  restarted-Sound l g (none, w) v = v
  restarted-Sound l g (some n, w) v = reenter-Sound l g n (m.comm_map_init cfg.pkgs n w) v

  reload_ebpf-Sound : (r : Round W) → Sound r → Sound (reload_ebpf m cfg r)
  unfolding reload_ebpf
  reload_ebpf-Sound (l, (g, w)) v =
      restarted-Sound (record l { ebpf_state = none }) g
        (m.ebpf_init g.current_config (m.ebpf_drop w)) (record { program = tt; scan = v.scan })

  dispatch_all-IsCache :
      (es : List EbpfProcEvent) (s : ProcCache × W)
      → IsCache s.0
      → IsCache (dispatch_all m cfg es s).0
  dispatch_all-IsCache [] s v = v
  dispatch_all-IsCache (e ∷ es) s v = dispatch_all-IsCache es _ (k.event_dispatch e cfg s v)

  take_events-IsCache :
      (c : ProcCache) (r : Received × W) → IsCache c → IsCache (take_events m cfg c r).1.0
  take_events-IsCache c (events e es, w) v = dispatch_all-IsCache (e ∷ es) (c, w) v
  take_events-IsCache c (timeout, w) v = v
  take_events-IsCache c (disconnected, w) v = v

  ebpf_round-Sound :
      (es : EbpfState) (r : Round W) → Sound r → IsCache es.cache → Sound (ebpf_round m cfg es r).1
  unfolding ebpf_round
  ebpf_round-Sound es (l, (g, w)) v c =
      let s = (take_events m cfg es.cache (m.recv w)).1 in
      let taken = take_events-IsCache es.cache (m.recv w) c in
      record {
        program =
            if_both (λ (x : ProcCache × W). IsCache x.0) _ (k.affinity_check cfg s taken) taken;
        scan = v.scan;
      }

  synced-IsCache :
      (changed : Bool) (st : ProcScanState) (w : W)
      → IsCache st.cache
      → IsCache (m.cache_sync (if changed then rescan st else st) cfg w).0.cache
  synced-IsCache true st w v = k.cache_sync (rescan st) cfg w v
  synced-IsCache false st w v = k.cache_sync st cfg w v

  proc_round-Sound : (changed : Bool) (r : Round W) → Sound r → Sound (proc_round m cfg changed r)
  unfolding proc_round
  proc_round-Sound changed (l, (g, w)) v =
      let st = proc_or_new l.proc_state in
      let synced = synced-IsCache changed st w (proc_or_new-IsCache l.proc_state v.scan) in
      record {
        program = v.program;
        scan =
            if_both (λ (x : ProcCache × W). IsCache x.0) _ (k.affinity_sync cfg.topo _ _ synced)
              synced;
      }

  dead_fallback-Sound : (r : Bool × Round W) → Sound r.1 → Sound (dead_fallback m r)
  unfolding dead_fallback
  dead_fallback-Sound (false, r) v = v
  dead_fallback-Sound (true, (l, (g, w))) v = fallback-IsLoop (m.now (m.ebpf_drop w)) l v

  mode_of-Sound :
      (changed : Bool) (o : Option EbpfState) (r : Round W)
      → ProgramOk o
      → Sound r
      → Sound (mode_of m cfg changed o r)
  unfolding mode_of
  mode_of-Sound changed none r c v = proc_round-Sound changed r v
  mode_of-Sound changed (some es) r c v =
      dead_fallback-Sound (ebpf_round m cfg es r) (ebpf_round-Sound es r v c)

  put_stats-Sound : (r : Round W) → Sound r → Sound (put_stats m cfg r)
  unfolding put_stats
  put_stats-Sound (l, (g, w)) v =
      if_both (λ (r : Round W). Sound r) _ (record { program = v.program; scan = v.scan }) v

  after_refill-Sound :
      (changed : Bool) (r : Bool × Round W) → Sound r.1 → Sound (after_refill m cfg changed r)
  unfolding after_refill mode_round
  after_refill-Sound changed (true, r) v = reload_ebpf-Sound r v
  after_refill-Sound changed (false, (l, s)) v =
      put_stats-Sound _ (mode_of-Sound changed l.ebpf_state (l, s) v.program v)

  pub config_round-Sound :
      (changed : Bool) (r : Round W) → Sound r → Sound (config_round m changed cfg r)
  unfolding config_round
  config_round-Sound changed (l, (g, w)) v = after_refill-Sound changed _ (
      need_reload-Sound changed _
        (retry_ebpf-Sound _ (leave_ebpf-Sound (l, (g, watch_loader m w)) v)))
