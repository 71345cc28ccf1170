-- ===== src/Tests/Loop.antt =====
-- The theorems on the main loop and the start of the kernel program, at concrete inputs.
use app_opt_r_plus.Prelude.{
  ℕ, ◌+◌, ◌≡◌, refl, sym, ◌∙◌, Bool, true, false, not, ◌&&◌, ◌||◌, none, some, List, [], ◌∷◌,
  if◌then◌else◌, ltb, length, any, arith, Bool-cases, if_cases, keep, inl, inr,
}
use app_opt_r_plus.Prelude.Text.{Text, codes, text_eq, member}
use app_opt_r_plus.Prelude.Text.Split.{text_eq_iff, text_eq_refl}
use app_opt_r_plus.Prelude.Text.Utf8.{as_bytes}
use mathlib.Core.Path.{subst}
use app_opt_r_plus.Ebpf.{pkg_keys, AppliedMap, dedup, sort_keys, all_keys, insert_key}
use app_opt_r_plus.Ebpf.Keys.{has_key}
use app_opt_r_plus.Ebpf.Init.{CommMap, BpfSys, comm_map_init, comm_capacity}
use app_opt_r_plus.Ebpf.Init.Whitelist.{IsCommMap, comm_map_init-has}
use app_opt_r_plus.Ebpf.Init.Whitelist.Fits.{IsRoomy, comm_map_init-comm_capacity}
use app_opt_r_plus.Cache.{new}
use app_opt_r_plus.ProcMode.{scan_new}
use app_opt_r_plus.Daemon.{Globals}
use app_opt_r_plus.Main.State.{Modes, LoopState, EbpfState, timeout}
use app_opt_r_plus.Main.Loop.{main_round}
use app_opt_r_plus.Main.Modes.{LoopSys, daemon_modes}
use app_opt_r_plus.Main.Loop.First.{loop_start}
use app_opt_r_plus.Main.Loop.Caches.{IsLoop}
use app_opt_r_plus.Main.Loop.Rounds.{begun, round, meanwhile, main_round-IsLoop}
use app_opt_r_plus.Prelude.Int.{ℤ}
use app_opt_r_plus.Main.Loop.Forced.{on_proc, main_round-on_proc}
use app_opt_r_plus.Tests.Data.{quiet, config, live}
use app_opt_r_plus.Tests.Web.{globals}

-- A map of `capacity` keys in memory.
abbrev bounded : ℕ → CommMap (List (List ℕ))
bounded capacity = record {
  found = λ w. true;
  keys = λ w. w;
  insert = λ k w. if ltb (length w) capacity then (true, k ∷ w) else (false, w);
  remove = λ k w. keep (λ j. not (text_eq j k)) w;
}

member-keep :
    (j k : List ℕ) (w : List (List ℕ))
    → member j (keep (λ i. not (text_eq i k)) w) ≡ (not (text_eq j k) && member j w)
unfolding member
member-keep j k [] = ground arith
member-keep j k (i ∷ w) = elim (Bool-cases (text_eq j i)) [
  | inl e ↦
      let q : j ≡ i = (text_eq_iff j i).0 e in
      subst
        (λ (x : List ℕ).
          member x (
            if not (text_eq i k)
            then i ∷ keep (λ y. not (text_eq y k)) w
            else keep (λ y. not (text_eq y k)) w)
          ≡ (not (text_eq x k) && (text_eq x i || member x w)))
        (sym q)
        (if_cases
          (λ (l : List (List ℕ)). member i l ≡ (not (text_eq i k) && (text_eq i i || member i w)))
          (not (text_eq i k)) (λ f. ground (arith, f, text_eq_refl i))
          (λ f. member-keep i k w ∙ ground (arith, f)))
  | inr e ↦
      if_cases
        (λ (l : List (List ℕ)). member j l ≡ (not (text_eq j k) && (text_eq j i || member j w)))
        (not (text_eq i k)) (λ f. ground (arith, e, member-keep j k w))
        (λ f. ground (arith, e, member-keep j k w))
]

bounded-IsCommMap : (capacity : ℕ) → IsCommMap (bounded capacity) member
unfolding member
bounded-IsCommMap capacity = record {
  insert_has = λ k j w. ground arith;
  remove_has = λ k j w. member-keep j k w;
  keys_has = λ j w. refl;
}

empty_of_member : (w : List (List ℕ)) → ((j : List ℕ) → member j w ≡ false) → length w ≡ 0
unfolding member
empty_of_member [] h = refl
empty_of_member (k ∷ w) h = absurd (ground (arith, h k, text_eq_refl k))

bounded-IsRoomy : (capacity : ℕ) → IsRoomy (bounded capacity) member length capacity
bounded-IsRoomy capacity = record {
  insert_room = λ k w h. ground (arith, h);
  insert_size = λ k w. ground arith;
  empty_size = empty_of_member;
}

abbrev names : List Text
names = codes "com.a" ∷ codes "com.game.of.many.letters" ∷ []

comm_map_init-has_example :
    member (codes "com.a") (comm_map_init (bounded 512) names 512 []).1
    ≡ any (λ p. has_key (codes "com.a") (pkg_keys (as_bytes p))) names
unfolding comm_map_init dedup sort_keys all_keys pkg_keys as_bytes insert_key text_eq
comm_map_init-has_example =
    comm_map_init-has (bounded 512) member (bounded-IsCommMap 512) names 512 [] (codes "com.a") refl
      refl

comm_map_init-comm_capacity_example :
    (comm_map_init
      (bounded (comm_capacity (some config)))
      config.pkgs
      (comm_capacity (some config))
      []).0
    ≡ false
comm_map_init-comm_capacity_example =
    comm_map_init-comm_capacity (bounded (comm_capacity (some config))) member
      (bounded-IsCommMap (comm_capacity (some config))) length config
      (bounded-IsRoomy (comm_capacity (some config))) [] (omega arith)

-- A system without BTF, on which no program can be loaded and the whitelist is full.
abbrev no_bpf : BpfSys ℕ
no_bpf = record {
  comm = record {
    found = λ w. true;
    keys = λ w. [];
    insert = λ k w. (false, w);
    remove = λ k w. w;
  };
  exists = λ p w. false;
  read_text = λ p w. none;
  program = λ w. none;
  load = λ bytes capacity w. (false, w);
  attach = λ group event w. (false, w);
  set_offsets = λ o w. (false, w);
  take_events = λ w. (false, w);
  eventfd = λ w. (false, w);
  spawn_reader = λ w. w;
}

abbrev no_applied : AppliedMap ℕ
no_applied = record { insert = λ tid cpus w. w; remove = λ tid w. w; remove_all = λ w. w }

-- The world is the time in milliseconds.
abbrev no_task : ℤ → ℤ → Text → Text → ℕ → Bool × ℕ
no_task tid pid pkg comm w = (false, w)

abbrev no_thread : ℤ → Text → Text → ℕ → ℕ
no_thread tid pkg comm w = w

abbrev calls : LoopSys ℕ
calls = record {
  sysinfo_procs = λ w. some 120;
  ebpf_drop = λ w. w;
  recv = λ w. (timeout, w + 1000);
  now = λ w. w;
  sleep = λ ms w. w + ms;
  loader_finished = λ w. false;
  spawn_loader = λ w. w;
}

abbrev modes : Modes ℕ
unfolding daemon_modes
modes = daemon_modes text_eq quiet live none no_task no_thread no_applied no_bpf calls

-- The kernel program is in use, with a whitelist of no room, and the other mode was in use before.
abbrev program : EbpfState
program = record { cache = new; comm_capacity = 0 }

abbrev locals : LoopState
locals = record {
  ebpf_state = some program;
  proc_state = some (record scan_new { scan_all_proc = false; last_proc_count = 120 });
  affinity_deadline = 0;
  ebpf_retry_at = 0;
  web_stats_deadline = 0;
  prog_start = 0;
}

abbrev forced : Globals
forced = record globals { mode_force = 2 }

main_round-on_proc_example : on_proc (main_round modes (locals, (forced, 60000))) ≡ true
main_round-on_proc_example = main_round-on_proc modes locals forced 60000 config refl refl

abbrev locals_at_start : LoopState
unfolding modes loop_start
locals_at_start = (loop_start modes (globals, 0)).0

-- The start, a change of the settings, and two rounds.
main_round-IsLoop_example :
    IsLoop (main_round modes (main_round modes (locals_at_start, (forced, 60000)))).0
unfolding modes loop_start
main_round-IsLoop_example =
    main_round-IsLoop text_eq quiet live no_applied no_bpf calls
      (main_round modes (main_round modes (locals_at_start, (forced, 60000))))
      (round none no_task no_thread (main_round modes (locals_at_start, (forced, 60000))) (
        round none no_task no_thread (locals_at_start, (forced, 60000))
          (meanwhile locals_at_start (loop_start modes (globals, 0)).1.0 forced 0 60000
            (begun none no_task no_thread globals 0))))
