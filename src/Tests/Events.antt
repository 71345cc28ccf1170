-- ===== src/Tests/Events.antt =====
-- The theorems on the kernel program and the event mode, at concrete inputs.
use app_opt_r_plus.Prelude.{ℕ, ◌≡◌, refl, Bool, true, false, none, some, List, [], ◌∷◌, arith}
use app_opt_r_plus.Prelude.Int.{ℤ, pos}
use app_opt_r_plus.Prelude.Assoc.{lookup}
use app_opt_r_plus.Prelude.Text.{Text, codes, text_eq, member, byte_len}
use app_opt_r_plus.Prelude.Text.Utf8.{as_bytes}
use app_opt_r_plus.Cpuset.{new, set}
use app_opt_r_plus.RuleMatch.{comm_to_pkg}
use app_opt_r_plus.Cache.{ProcCache}
use app_opt_r_plus.Cache.Sticky.{IsCache}
use app_opt_r_plus.Ebpf.{EbpfProcEvent, AppliedMap, padded, comm_keys_build}
use app_opt_r_plus.Ebpf.Keys.{has_key}
use app_opt_r_plus.Ebpf.Dispatch.{run_events, run_events-IsCache}
use app_opt_r_plus.Kernel.{Bpf, whitelist_matched}
use app_opt_r_plus.Kernel.Whitelist.{whitelist_matched-comm_to_pkg}
use app_opt_r_plus.Tests.Data.{quiet, config, live}

-- A kernel whose whitelist has the keys of the configuration.
abbrev kernel : Bpf ℕ
kernel = record {
  target_get = λ key w. has_key key (comm_keys_build config.pkgs);
  applied_get = λ tid w. false;
  applied_insert = λ tid mask w. w;
  applied_remove = λ tid w. w;
  offsets_get = λ w. none;
  submit = λ event w. w;
  pid_tgid = λ w. 0;
  current_comm = λ w. none;
  read_i32 = λ at w. none;
  read_comm = λ at w. none;
}

whitelist_matched-comm_to_pkg_example :
    whitelist_matched kernel (padded 16 (as_bytes (codes "com.b"))) 0 ≡ true
unfolding comm_to_pkg member text_eq byte_len
whitelist_matched-comm_to_pkg_example =
    whitelist_matched-comm_to_pkg kernel live (pos 7) (codes "com.b") config 0 0 refl (omega arith)
      (λ key h. h) refl

abbrev applied_map : AppliedMap ℕ
applied_map = record { insert = λ tid mask w. w; remove = λ tid w. w; remove_all = λ w. w }

abbrev no_tuning : ℤ → ℤ → Text → Text → ℕ → Bool × ℕ
no_tuning tid pid pkg name w = (false, w)

abbrev no_reapply : ℤ → Text → Text → ℕ → ℕ
no_reapply tid pkg comm w = w

abbrev cache : ProcCache
cache = record {
  tasks =
      (
        pos 8,
        record {
          pid = pos 7;
          pkg = codes "com.b";
          comm = codes "main";
          cpus = some (set 2 new);
          cpuset_dir = [];
          is_thread_rule = true;
        },
      )
      ∷ [];
}

-- Thread 9 is renamed and ends.
abbrev events : List EbpfProcEvent
events =
    record { pid = pos 7; tid = pos 9; comm = padded 16 (codes "main"); event_type = 3 }
    ∷ record { pid = pos 7; tid = pos 9; comm = padded 16 []; event_type = 4 }
    ∷ []

run_events-IsCache_example :
    IsCache
      (run_events text_eq quiet live none no_tuning no_reapply applied_map config events
        (cache, 0)).0
    × (lookup
          (pos 8)
          (run_events text_eq quiet live none no_tuning no_reapply applied_map config events
            (cache, 0)).0.tasks
        ≡ lookup (pos 8) cache.tasks)
run_events-IsCache_example =
    run_events-IsCache text_eq quiet live none no_tuning no_reapply applied_map config events
      (cache, 0) (pos 8) (record { is_map = (refl, tt); entries = (refl, tt) }) refl
