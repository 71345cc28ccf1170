-- ===== src/Ebpf/Dispatch.antt =====
-- AppOptR/src/ebpf_mode.rs: lemmas on `event_dispatch` and sequences of events.
use app_opt_r_plus.Prelude.{
  ◌≡◌, refl, ◌∙◌, Bool, false, not, Option, none, some, List, [], ◌∷◌, arith, any, if_both, ◌==◌,
}
use app_opt_r_plus.Prelude.Int.{ℤ, eq_ℤ}
use app_opt_r_plus.Prelude.Assoc.{lookup, lookup-del}
use app_opt_r_plus.Prelude.Text.{Text}
use app_opt_r_plus.Cpuset.Topology.{CpusetSys}
use app_opt_r_plus.Config.Load.{AppConfig}
use app_opt_r_plus.Proc.{ProcSys}
use app_opt_r_plus.Cache.{ProcCache, task_del, pkg_lookup_comm}
use app_opt_r_plus.Cache.Sticky.{IsCache, task_del-IsCache, task_apply-IsCache, task_apply-other}
use app_opt_r_plus.Ebpf.{
  EbpfProcEvent, AppliedMap, comm_str, affinity_apply, tracked_apply, apply_pkg, event_apply,
  forget, exec_event, event_dispatch, ebpf_event_exit, ebpf_event_exec, ebpf_event_fork,
  ebpf_event_rename,
}

module _ {W : Type 0} (fnmatch : Text → Text → Bool) (csys : CpusetSys W) (sys : ProcSys W)
    (base : Option Text) (apply_task : ℤ → ℤ → Text → Text → W → Bool × W)
    (reapply_thread : ℤ → Text → Text → W → W) (bpf : AppliedMap W) (cfg : AppConfig) where
  -- What an event on thread `tid` leaves as it was: a well-formed cache, and the entry of any other
  -- thread.
  pub record Keeps (tid : ℤ) (s t : ProcCache × W) : Type 0 where
    pub cache : IsCache s.0 → IsCache t.0
    pub others : (j : ℤ) → eq_ℤ tid j ≡ false → lookup j t.0.tasks ≡ lookup j s.0.tasks

  abbrev Same : ℤ → ProcCache × W → Type 0
  Same tid s = Keeps tid s s

  same-Keeps : (tid : ℤ) (s : ProcCache × W) → Keeps tid s s
  same-Keeps tid s = record { cache = λ v. v; others = λ j n. refl }

  tracked_apply-Keeps :
      (tid pid : ℤ) (pkg comm : Text) (s : ProcCache × W)
      → Keeps tid s
          (tracked_apply fnmatch csys sys base apply_task reapply_thread bpf tid pid pkg comm cfg
            s).1
  unfolding tracked_apply
  tracked_apply-Keeps tid pid pkg comm (c, w) = record {
    cache =
        task_apply-IsCache fnmatch csys sys base apply_task reapply_thread
          (affinity_apply fnmatch csys sys base apply_task reapply_thread bpf cfg) tid pid pkg comm
          cfg c w;
    others =
        task_apply-other fnmatch csys sys base apply_task reapply_thread
          (affinity_apply fnmatch csys sys base apply_task reapply_thread bpf cfg) tid pid pkg comm
          cfg c w;
  }

  apply_pkg-Keeps :
      (tid pid : ℤ) (comm : Text) (s : ProcCache × W) (o : Option Text)
      → Keeps tid s
          (apply_pkg fnmatch csys sys base apply_task reapply_thread bpf tid pid comm cfg s o).1
  apply_pkg-Keeps tid pid comm s none = same-Keeps tid s
  apply_pkg-Keeps tid pid comm s (some pkg) = tracked_apply-Keeps tid pid pkg comm s

  event_apply-Keeps :
      (tid pid : ℤ) (comm : Text) (s : ProcCache × W)
      → Keeps tid s
          (event_apply fnmatch csys sys base apply_task reapply_thread bpf tid pid comm cfg s).1
  unfolding event_apply
  event_apply-Keeps tid pid comm (c, w) =
      apply_pkg-Keeps tid pid comm (c, w) (pkg_lookup_comm sys pid comm cfg c w)

  forget-Keeps :
      (tid : ℤ) (s t : ProcCache × W)
      → Keeps tid s t
      → Keeps tid s (forget fnmatch csys sys base apply_task reapply_thread bpf tid t)
  unfolding forget task_del
  forget-Keeps tid s t k = record {
    cache = λ v. task_del-IsCache tid t.0 (k.cache v);
    others = λ j n. lookup-del j tid t.0.tasks ∙ ground (arith, n, k.others j n);
  }

  exec_event-Keeps :
      (tid : ℤ) (s : ProcCache × W) (r : Bool × (ProcCache × W))
      → Keeps tid s r.1
      → Keeps tid s (exec_event fnmatch csys sys base apply_task reapply_thread bpf tid r)
  exec_event-Keeps tid s (ok, t) k = if_both (Keeps tid s) (not ok) (forget-Keeps tid s t k) k

  pub dispatch-Keeps :
      (event : EbpfProcEvent) (s : ProcCache × W)
      → Keeps event.tid s
          (event_dispatch fnmatch csys sys base apply_task reapply_thread bpf event cfg s)
  unfolding event_dispatch
  dispatch-Keeps event s =
      let applied = event_apply-Keeps event.tid event.pid (comm_str event.comm) s in
      if_both (Keeps event.tid s) (event.event_type == ebpf_event_exit)
        (forget-Keeps event.tid s s (same-Keeps event.tid s))
        (if_both (Keeps event.tid s) (event.event_type == ebpf_event_exec)
          (exec_event-Keeps event.tid s _ applied)
          (if_both (Keeps event.tid s) (event.event_type == ebpf_event_fork)
            (same-Keeps event.tid s)
            (if_both (Keeps event.tid s) (event.event_type == ebpf_event_rename) applied
              (same-Keeps event.tid s))))

  -- The events in the order of their arrival.
  abbrev pub run_events : List EbpfProcEvent → ProcCache × W → ProcCache × W
  run_events [] s = s
  run_events (e ∷ es) s =
      run_events es (event_dispatch fnmatch csys sys base apply_task reapply_thread bpf e cfg s)

  -- Whether some event is about a thread.
  abbrev pub about : ℤ → List EbpfProcEvent → Bool
  about j es = any (λ e. eq_ℤ e.tid j) es

  -- Any sequence of events keeps the cache well-formed, and the entry of every thread that no event of
  -- the sequence is about.
  pub run_events-IsCache :
      (es : List EbpfProcEvent) (s : ProcCache × W) (j : ℤ)
      → IsCache s.0
      → about j es ≡ false
      → IsCache (run_events es s).0 × (lookup j (run_events es s).0.tasks ≡ lookup j s.0.tasks)
  run_events-IsCache [] s j v n = (v, refl)
  run_events-IsCache (e ∷ es) s j v n =
      let k = dispatch-Keeps e s in
      let (i, q) = run_events-IsCache es _ j (k.cache v) (ground (arith, n)) in
      (i, q ∙ k.others j (ground (arith, n)))
