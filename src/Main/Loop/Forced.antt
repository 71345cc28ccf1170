-- ===== src/Main/Loop/Forced.antt =====
-- AppOptR/src/main.rs: a round of the main loop with /proc forced.
use app_opt_r_plus.Prelude.{
  ◌≡◌, refl, ap, ◌∙◌, Bool, true, false, ◌&&◌, Option, none, some, ◌==◌, is_some, is_none, arith,
  if_cases,
}
use app_opt_r_plus.Config.Load.{AppConfig}
use app_opt_r_plus.Daemon.{Globals}
use app_opt_r_plus.Main.State.{Modes, LoopState, fallback, Round}
use app_opt_r_plus.Main.Loop.{
  leave_ebpf, retry_ebpf, need_reload, after_refill, config_round, main_round, mode_round, mode_of,
  proc_round, put_stats, refill, due, watch_loader, round_for,
}

-- No kernel program, and a state of the other mode.
abbrev pub on_proc : {W : Type 0} → Round W → Bool
on_proc (l, s) = is_none l.ebpf_state && is_some l.proc_state

none_of : {A : Type 0} (o : Option A) → is_some o ≡ false → o ≡ none
none_of none h = refl
none_of (some a) h = absurd (cc h)

module _ {W : Type 0} (m : Modes W) (cfg : AppConfig) where
  record Detached (r : Round W) : Type 0 where
    no_program : r.0.ebpf_state ≡ none
    forced : r.1.0.mode_force ≡ 2

  leave_ebpf-Detached :
      (l : LoopState) (g : Globals) (w : W) → g.mode_force ≡ 2 → Detached (leave_ebpf m (l, (g, w)))
  unfolding leave_ebpf fallback
  leave_ebpf-Detached l g w h =
      if_cases Detached (g.mode_force == 2 && is_some l.ebpf_state)
        (λ e. record { no_program = refl; forced = h })
        (λ e. record { no_program = none_of l.ebpf_state (ground (arith, h, e)); forced = h })

  retry_ebpf-Detached : (r : Round W) → Detached r → Detached (retry_ebpf m cfg r)
  unfolding retry_ebpf
  retry_ebpf-Detached (l, (g, w)) d =
      if_cases Detached (due m l g w) (λ e. absurd (ground (arith, e, d.forced))) (λ e. d)

  need_reload-Detached :
      (changed : Bool) (r : Round W) → Detached r → need_reload m changed cfg r ≡ (false, r)
  unfolding need_reload
  need_reload-Detached true (l, s) d = ap (λ o. refill m cfg o (l, s)) d.no_program
  need_reload-Detached false (l, s) d = refl

  put_stats-on_proc : (r : Round W) → on_proc r ≡ true → on_proc (put_stats m cfg r) ≡ true
  unfolding put_stats
  put_stats-on_proc (l, (g, w)) h = if_cases (λ (r : Round W). on_proc r ≡ true) _ (λ e. h) (λ e. h)

  proc_round-on_proc :
      (changed : Bool) (r : Round W) → Detached r → on_proc (proc_round m cfg changed r) ≡ true
  unfolding proc_round
  proc_round-on_proc changed (l, (g, w)) d = rw d.no_program refl

  after_refill-on_proc :
      (changed : Bool) (r : Round W)
      → Detached r
      → on_proc (after_refill m cfg changed (false, r)) ≡ true
  unfolding after_refill mode_round
  after_refill-on_proc changed (l, s) d = put_stats-on_proc _ (
      ap (λ o. on_proc (mode_of m cfg changed o (l, s))) d.no_program
      ∙ proc_round-on_proc changed (l, s) d)

  config_round-on_proc :
      (changed : Bool) (l : LoopState) (g : Globals) (w : W)
      → g.mode_force ≡ 2
      → on_proc (config_round m changed cfg (l, (g, w))) ≡ true
  unfolding config_round
  config_round-on_proc changed l g w h =
      let d = retry_ebpf-Detached _ (leave_ebpf-Detached l g (watch_loader m w) h) in
      ap (λ x. on_proc (after_refill m cfg changed x)) (need_reload-Detached changed _ d)
      ∙ after_refill-on_proc changed _ d

-- With /proc forced, a round that has rules ends without the kernel program, whatever state it began in, and with a
-- state of the mode that polls.
pub main_round-on_proc :
    {W : Type 0} (m : Modes W) (l : LoopState) (g : Globals) (w : W) (cfg : AppConfig)
    → g.current_config ≡ some cfg
    → g.mode_force ≡ 2
    → on_proc (main_round m (l, (g, w))) ≡ true
unfolding main_round
main_round-on_proc m l g w cfg c h =
    ap (λ o. on_proc (round_for m g.config_updated o (l, (record g { config_updated = false }, w))))
      c
    ∙ config_round-on_proc m cfg g.config_updated l (record g { config_updated = false }) w h
