-- ===== src/Tuning/Memory/Write.antt =====
-- AppOptR/src/tuning.rs: the files of a memory cgroup: `write_control`, `write_first_available`,
-- `move_process_to_group`, `apply_memory_group` and `apply_task`.
pub mod Keeps
use app_opt_r_plus.Prelude.{
  ℕ, ◌^◌, Bool, true, false, not, ◌&&◌, Option, none, some, List, [], ◌∷◌, ◌++◌, if◌then◌else◌,
  is_empty, keep,
}
use app_opt_r_plus.Prelude.Int.{ℤ, eq_ℤ}
use app_opt_r_plus.Prelude.Text.{
  Text, codes, text_eq, insert_text, lines, split, split_whitespace, strip_prefix, starts_with,
  contains_text, parse_uint, decimal,
}
use app_opt_r_plus.Proc.{ProcSys, task_tids, show_i32}
use app_opt_r_plus.Daemon.{join_path}
use app_opt_r_plus.Tuning.{MemoryGroup, TuningConfig, cgroup_template_ok, replace_text}
use app_opt_r_plus.Tuning.Clone.{find_app}
use app_opt_r_plus.Tuning.Apply.{WarnState, warn_once, SchedSys, effective_thread_tune, tune_thread}
use app_opt_r_plus.Tuning.Memory.{CgroupSys, resolve_group_path}

abbrev pub flag : Bool → Text
flag true = codes "1"
flag false = codes "0"

module _ {W : Type 0} (sys : CgroupSys W) where
  abbrev pub opened : Text → W → Option Text → Option Text × W → Option Text × W
  opened path w (some e) r = (some (codes "打开 " ++ (path ++ (codes " 失败: " ++ e))), w)
  opened path w none (none, w') = (none, w')
  opened path w none (some e, w') = (some (codes "写入 " ++ (path ++ (codes " 失败: " ++ e))), w')

  -- An error's text, if there is one.
  unfoldable pub write_file : Text → Text → Text → W → Option Text × W
  write_file dir name value w =
      let path = join_path dir name in
      opened path w (sys.open_control path w) (sys.write_control path value w)

  abbrev pub warn_error :
      (Text → Text) → (Text → Text) → WarnState → Option Text × W → WarnState × W
  unfolding warn_once
  warn_error key message st (none, w) = (st, w)
  warn_error key message st (some e, w) = (warn_once (key e) (message e) st, w)

  abbrev join_names : Text → List Text → Text
  join_names sep [] = []
  join_names sep (n ∷ []) = n
  join_names sep (n ∷ m ∷ ns) = n ++ (sep ++ join_names sep (m ∷ ns))

  abbrev first_existing : Text → List Text → W → Option Text
  first_existing dir [] w = none
  first_existing dir (n ∷ ns) w =
      if sys.exists (join_path dir n) w then some n else first_existing dir ns w

  abbrev pub write_name :
      Text → Text → List Text → Text → Option Text → WarnState × W → WarnState × W
  unfolding write_file warn_error warn_once
  write_name dir group names value none (st, w) = (
    warn_once (codes "unsupported-" ++ (group ++ (b'-' ∷ join_names (codes "|") names)))
        (codes "内存组 "
          ++ (group
              ++ (codes " 不支持 " ++ (join_names (codes " / ") names ++ codes "（可能是 cgroup 版本不匹配）"))))
        st,
    w,
  )
  write_name dir group names value (some name) (st, w) =
      warn_error (λ e. codes "write-" ++ (group ++ (b'-' ∷ (name ++ (b'-' ∷ e)))))
        (λ e. codes "内存组 " ++ (group ++ (codes " 的 " ++ (name ++ (codes " 设置失败：" ++ e))))) st
        (write_file dir name value w)

  unfoldable pub write_first_available :
      Text → Text → List Text → Text → WarnState × W → WarnState × W
  unfolding write_name
  write_first_available dir group names value (st, w) =
      write_name dir group names value (first_existing dir names w) (st, w)

  unfoldable pub move_tids : Text → Text → List ℤ → WarnState × W → WarnState × W
  unfolding write_file warn_error
  move_tids dir group [] s = s
  move_tids dir group (tid ∷ tids) (st, w) = move_tids dir group tids (
      warn_error (λ e. codes "move-task-" ++ (group ++ (b'-' ∷ e)))
        (λ e.
          codes "迁移 tid " ++ (show_i32 tid ++ (codes " 到内存组 " ++ (group ++ (codes " 失败：" ++ e)))))
        st (write_file dir (codes "tasks") (show_i32 tid) w))

  abbrev pub tids_or_none : Option (List ℤ) → List ℤ
  tids_or_none none = []
  tids_or_none (some tids) = tids

  unfoldable pub move_process_to_group : ProcSys W → ℤ → Text → Text → WarnState × W → WarnState × W
  unfolding write_file warn_error warn_once move_tids
  move_process_to_group psys pid dir group (st, w) =
      if sys.exists (join_path dir (codes "cgroup.procs")) w
      then warn_error (λ e. codes "move-procs-" ++ (group ++ (b'-' ∷ e)))
          (λ e.
            codes "迁移 pid " ++ (show_i32 pid ++ (codes " 到内存组 " ++ (group ++ (codes " 失败：" ++ e)))))
          st (write_file dir (codes "cgroup.procs") (show_i32 pid) w)
      else if not (sys.exists (join_path dir (codes "tasks")) w)
      then (
        warn_once (codes "move-no-control-" ++ group)
            (codes "内存组 " ++ (group ++ codes " 不提供 cgroup.procs 或 tasks，无法迁移应用")) st,
        w,
      )
      else move_tids dir group (tids_or_none (task_tids psys pid w)) (st, w)

  abbrev pub write_given :
      {A : Type 0} → Text → Text → List Text → (A → Text) → Option A → WarnState × W → WarnState × W
  unfolding write_first_available
  write_given dir group names text none s = s
  write_given dir group names text (some a) s = write_first_available dir group names (text a) s

  abbrev pub write_group : ProcSys W → ℤ → MemoryGroup → Text → WarnState × W → WarnState × W
  unfolding write_given move_process_to_group
  write_group psys pid g dir s =
      let s₁ = write_given dir g.name (codes "memory.swappiness" ∷ []) decimal g.swappiness s in
      let s₂ = write_given dir g.name (codes "memory.min" ∷ []) (λ (x : Text). x) g.memory_min s₁ in
      let s₃ =
        write_given dir g.name (codes "memory.low" ∷ codes "memory.soft_limit_in_bytes" ∷ [])
          (λ (x : Text). x) g.memory_low s₂ in
      let s₄ =
        write_given dir g.name (codes "memory.high" ∷ []) (λ (x : Text). x) g.memory_high s₃ in
      let s₅ =
        write_given dir g.name (codes "memory.max" ∷ codes "memory.limit_in_bytes" ∷ [])
          (λ (x : Text). x) g.memory_max s₄ in
      let s₆ = write_given dir g.name (codes "memory.oom.group" ∷ []) flag g.oom_group s₅ in
      move_process_to_group psys pid dir g.name s₆

  abbrev pub write_resolved :
      ProcSys W → ℤ → MemoryGroup → W → Option Text × WarnState → WarnState × W
  unfolding write_group
  write_resolved psys pid g w (none, st) = (st, w)
  write_resolved psys pid g w (some dir, st) = write_group psys pid g dir (st, w)

  unfoldable pub apply_memory_group :
      ProcSys W → ℤ → Text → MemoryGroup → WarnState × W → WarnState × W
  unfolding write_resolved resolve_group_path
  apply_memory_group psys pid pkg g (st, w) =
      write_resolved psys pid g w (resolve_group_path sys g pid pkg (st, w))

  abbrev pub find_group : Text → List MemoryGroup → Option MemoryGroup
  find_group name [] = none
  find_group name (g ∷ gs) = if text_eq g.name name then some g else find_group name gs

  abbrev pub apply_group :
      ProcSys W → ℤ → Text → Text → Option MemoryGroup → WarnState × W → WarnState × W
  unfolding apply_memory_group warn_once
  apply_group psys pid pkg name (some g) s = apply_memory_group psys pid pkg g s
  apply_group psys pid pkg name none (st, w) = (
    warn_once (codes "missing-group-" ++ name)
        (codes "应用 " ++ (pkg ++ (codes " 引用了不存在的内存组 " ++ name))) st,
    w,
  )

  abbrev pub apply_app_group :
      ProcSys W → TuningConfig → ℤ → Text → Option Text → WarnState × W → WarnState × W
  unfolding apply_group
  apply_app_group psys config pid pkg none s = s
  apply_app_group psys config pid pkg (some name) s =
      apply_group psys pid pkg name (find_group name config.memory_groups) s

  -- Whether the application has a profile.
  unfoldable pub apply_task :
      (Text → Text → Bool)
      → SchedSys W
      → ProcSys W
      → TuningConfig
      → ℤ
      → ℤ
      → Text
      → Text
      → WarnState × W
      → Bool × (WarnState × W)
  unfolding apply_app_group effective_thread_tune
  apply_task fnmatch sched psys config tid pid pkg comm s = elim (find_app pkg config.apps) [
    | none ↦ (false, s)
    | some app ↦
        let s₁ =
          if eq_ℤ tid pid then apply_app_group psys config pid pkg app.memory_group s else s in
        (true, tune_thread sched tid pkg comm (effective_thread_tune fnmatch app comm) s₁)
  ]
