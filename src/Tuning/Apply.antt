-- ===== src/Tuning/Apply.antt =====
-- AppOptR/src/tuning.rs: what applies a profile to a thread: `warn_once`, `effective_thread_tune`,
-- `set_uclamp` and `apply_thread_tune`. `fnmatch` and the system calls are parameters.
pub mod Effective
pub mod Warnings
use app_opt_r_plus.Prelude.{
  ℕ, suc, ◌+◌, Bool, true, false, not, ◌&&◌, ◌||◌, Option, none, some, List, [], ◌∷◌, ◌++◌, ltb,
  leb, if◌then◌else◌, is_empty, is_some, length, drop, ◌⊎◌, inl, inr,
}
use Prim.Native.Nat.{bit_or}
use app_opt_r_plus.Prelude.Int.{ℤ, pos, negsuc}
use app_opt_r_plus.Prelude.Text.{Text, codes, contains, byte_len, member}
use app_opt_r_plus.Config.Load.{max_thread_len}
use app_opt_r_plus.Proc.{show_i32}
use app_opt_r_plus.Tuning.{ThreadTuneRule, AppTuneRule}
use app_opt_r_plus.Tuning.Parse.{out_of_order}
use app_opt_r_plus.Tuning.Clone.{find_app}

-- WARNING_KEYS and WARNINGS.
pub record WarnState : Type 0 where
  pub seen : List Text
  pub warnings : List Text

-- `push`, and `remove(0)` if there are more than twenty.
abbrev pub push_warning : Text → List Text → List Text
push_warning message ws =
    let next = ws ++ (message ∷ []) in if ltb 20 (length next) then drop 1 next else next

unfoldable pub warn_once : Text → Text → WarnState → WarnState
warn_once key message st =
    if member key st.seen
    then st
    else record { seen = key ∷ st.seen; warnings = push_warning message st.warnings }

-- What `replace_config` does to both.
unfoldable pub warn_clear : WarnState → WarnState
warn_clear st = record { seen = []; warnings = [] }

unfoldable pub pattern_matches : (Text → Text → Bool) → Text → Text → Bool
pattern_matches fnmatch pattern comm =
    if is_empty comm || leb max_thread_len (byte_len comm)
    then false
    else if contains pattern 0
    then false
    else if contains comm 0
    then false
    else fnmatch pattern comm

pub record EffectiveThreadTune : Type 0 where
  pub uclamp_min : Option ℕ
  pub uclamp_max : Option ℕ
  pub nice : Option ℤ

-- A field that is given replaces the one before.
abbrev pub replace_given : {A : Type 0} → Option A → Option A → Option A
replace_given none old = old
replace_given (some a) old = some a

abbrev pub override : ThreadTuneRule → EffectiveThreadTune → EffectiveThreadTune
override r t = record {
  uclamp_min = replace_given r.uclamp_min t.uclamp_min;
  uclamp_max = replace_given r.uclamp_max t.uclamp_max;
  nice = replace_given r.nice t.nice;
}

unfoldable pub tune_loop :
    (Text → Text → Bool)
    → Text
    → List ThreadTuneRule
    → EffectiveThreadTune × Bool
    → EffectiveThreadTune × Bool
tune_loop fnmatch comm [] s = s
tune_loop fnmatch comm (r ∷ rs) (t, matched) =
    tune_loop fnmatch comm rs
      (if pattern_matches fnmatch r.pattern comm then (override r t, true) else (t, matched))

abbrev pub no_tune : EffectiveThreadTune
no_tune = record { uclamp_min = none; uclamp_max = none; nice = none }

unfoldable pub effective_thread_tune :
    (Text → Text → Bool) → AppTuneRule → Text → Option EffectiveThreadTune
effective_thread_tune fnmatch app comm =
    let (t, matched) = tune_loop fnmatch comm app.threads (no_tune, false) in
    if matched then some t else none

-- The fields of SchedAttr that are read or written here; the kernel fills them all.
pub record SchedAttr : Type 0 where
  pub size : ℕ
  pub sched_flags : ℕ
  pub sched_util_min : ℕ
  pub sched_util_max : ℕ

abbrev pub sched_attr_size : ℕ
sched_attr_size = 56

-- `sched_getattr`, `sched_setattr` and `setpriority`, which answer an error's text if they fail.
pub record SchedSys (W : Type 0) : Type 0 where
  pub getattr : ℤ → W → SchedAttr ⊎ Text
  pub setattr : ℤ → SchedAttr → W → Option Text × W
  pub setpriority : ℤ → ℤ → W → Option Text × W

abbrev pub clamp_min : Option ℕ → SchedAttr → SchedAttr
clamp_min none a = a
clamp_min (some min) a = record a { sched_flags = bit_or a.sched_flags 0x20; sched_util_min = min }

abbrev pub clamp_max : Option ℕ → SchedAttr → SchedAttr
clamp_max none a = a
clamp_max (some max) a = record a { sched_flags = bit_or a.sched_flags 0x40; sched_util_max = max }

abbrev on_error : Text → Option Text → Option Text
on_error call none = none
on_error call (some e) = some (call ++ (codes ": " ++ e))

module _ {W : Type 0} (sys : SchedSys W) where
  -- An error's text, if there is one.
  unfoldable pub set_uclamp : ℤ → Option ℕ → Option ℕ → W → Option Text × W
  set_uclamp tid min max w = elim (sys.getattr tid w) [
    | inr e ↦ (some (codes "sched_getattr: " ++ e), w)
    | inl attr ↦
        let (r, w') =
          sys.setattr tid (clamp_max max (clamp_min min (record attr { size = sched_attr_size })))
            w in
        (on_error (codes "sched_setattr") r, w')
  ]

  abbrev warn_error : (Text → Text) → (Text → Text) → Option Text → WarnState → WarnState
  warn_error key message none st = st
  warn_error key message (some e) st = warn_once (key e) (message e) st

  -- The UCLAMP part.
  unfoldable pub apply_uclamp :
      ℤ → Text → Text → EffectiveThreadTune → WarnState × W → WarnState × W
  apply_uclamp tid pkg comm tune (st, w) =
      if out_of_order tune.uclamp_min tune.uclamp_max
      then (
        warn_once (codes "uclamp-order-" ++ (pkg ++ (b'-' ∷ comm)))
            (pkg ++ (codes " / " ++ (comm ++ codes " 的合并 UCLAMP min 大于 max，已跳过 UCLAMP"))) st,
        w,
      )
      else if is_some tune.uclamp_min || is_some tune.uclamp_max
      then (let (r, w') = set_uclamp tid tune.uclamp_min tune.uclamp_max w in
          (
            warn_error (λ e. codes "uclamp-" ++ (pkg ++ (b'-' ∷ e)))
                (λ e. pkg ++ (codes " / " ++ (comm ++ (codes " 设置 UCLAMP 失败：" ++ e)))) r st,
            w',
          ))
      else (st, w)

  abbrev apply_nice : ℤ → Text → Text → Option ℤ → WarnState × W → WarnState × W
  apply_nice tid pkg comm none s = s
  apply_nice tid pkg comm (some nice) (st, w) =
      let (r, w') = sys.setpriority tid nice w in
      (
        warn_error (λ e. codes "nice-" ++ (pkg ++ (b'-' ∷ e)))
            (λ e.
              pkg
              ++ (codes " / "
                  ++ (comm ++ (codes " 设置 nice=" ++ (show_i32 nice ++ (codes " 失败：" ++ e))))))
            r st,
        w',
      )

  unfoldable pub apply_thread_tune :
      ℤ → Text → Text → EffectiveThreadTune → WarnState × W → WarnState × W
  unfolding apply_uclamp
  apply_thread_tune tid pkg comm tune s =
      apply_nice tid pkg comm tune.nice (apply_uclamp tid pkg comm tune s)

  abbrev pub tune_thread :
      ℤ → Text → Text → Option EffectiveThreadTune → WarnState × W → WarnState × W
  tune_thread tid pkg comm none s = s
  tune_thread tid pkg comm (some t) s = apply_thread_tune tid pkg comm t s

  unfoldable pub reapply_thread :
      (Text → Text → Bool) → List AppTuneRule → ℤ → Text → Text → WarnState × W → WarnState × W
  reapply_thread fnmatch apps tid pkg comm s = elim (find_app pkg apps) [
    | none ↦ s
    | some app ↦ tune_thread tid pkg comm (effective_thread_tune fnmatch app comm) s
  ]
