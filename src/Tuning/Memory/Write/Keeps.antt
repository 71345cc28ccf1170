-- ===== src/Tuning/Memory/Write/Keeps.antt =====
-- AppOptR/src/tuning.rs: the writes of `apply_memory_group`.
use app_opt_r_plus.Prelude.{not, Option, none, some, List, [], ◌∷◌, if_both}
use app_opt_r_plus.Prelude.Int.{ℤ}
use app_opt_r_plus.Prelude.Text.{Text, codes, decimal}
use app_opt_r_plus.Daemon.{join_path}
use app_opt_r_plus.Proc.{ProcSys, task_tids}
use app_opt_r_plus.Tuning.{MemoryGroup}
use app_opt_r_plus.Tuning.Limits.{Some}
use app_opt_r_plus.Tuning.Apply.{WarnState}
use app_opt_r_plus.Tuning.Memory.{CgroupSys, resolve_group_path}
use app_opt_r_plus.Tuning.Memory.Write.{
  flag, tids_or_none, opened, write_file, warn_error, write_name, write_first_available, move_tids,
  move_process_to_group, write_given, write_group, write_resolved, apply_memory_group,
}
use app_opt_r_plus.Tuning.Memory.Inside.{Inside, resolve_group_path-Inside}

-- What is kept by every write to a file of one directory.
module _ {W : Type 0} (sys : CgroupSys W) (P : W → Type 0) (dir : Text)
    (keeps : (name value : Text) (v : W)
      → P v
      → P (sys.write_control (join_path dir name) value v).1) where
  write_file-keeps : (name value : Text) (v : W) → P v → P (write_file sys dir name value v).1
  unfolding write_file
  write_file-keeps name value v p =
      of_opened (sys.open_control (join_path dir name) v)
        (sys.write_control (join_path dir name) value v) (keeps name value v p)
    where
      of_opened :
          (o : Option Text) (r : Option Text × W)
          → P r.1
          → P (opened sys (join_path dir name) v o r).1
      of_opened (some e) r q = p
      of_opened none (none, v') q = q
      of_opened none (some e, v') q = q

  warn_error-keeps :
      (key message : Text → Text) (st : WarnState) (r : Option Text × W)
      → P r.1
      → P (warn_error sys key message st r).1
  unfolding warn_error
  warn_error-keeps key message st (none, v) p = p
  warn_error-keeps key message st (some e, v) p = p

  write_name-keeps :
      (group : Text) (names : List Text) (value : Text) (o : Option Text) (st : WarnState) (v : W)
      → P v
      → P (write_name sys dir group names value o (st, v)).1
  unfolding write_name
  write_name-keeps group names value none st v p = p
  write_name-keeps group names value (some name) st v p =
      warn_error-keeps _ _ st (write_file sys dir name value v) (write_file-keeps name value v p)

  write_given-keeps :
      {A : Type 0} (group : Text) (names : List Text) (text : A → Text) (o : Option A)
      (s : WarnState × W)
      → P s.1
      → P (write_given sys dir group names text o s).1
  unfolding write_given write_first_available
  write_given-keeps group names text none s p = p
  write_given-keeps group names text (some a) (st, v) p =
      write_name-keeps group names (text a) _ st v p

  move_tids-keeps :
      (group : Text) (tids : List ℤ) (s : WarnState × W)
      → P s.1
      → P (move_tids sys dir group tids s).1
  unfolding move_tids
  move_tids-keeps group [] s p = p
  move_tids-keeps group (tid ∷ tids) (st, v) p =
      move_tids-keeps group tids _ (warn_error-keeps _ _ st _ (write_file-keeps _ _ v p))

  move_process_to_group-keeps :
      (psys : ProcSys W) (pid : ℤ) (group : Text) (s : WarnState × W)
      → P s.1
      → P (move_process_to_group sys psys pid dir group s).1
  unfolding move_process_to_group
  move_process_to_group-keeps psys pid group (st, v) p =
      if_both (λ (r : WarnState × W). P r.1) (sys.exists (join_path dir (codes "cgroup.procs")) v)
        (warn_error-keeps _ _ st _ (write_file-keeps _ _ v p))
        (if_both (λ (r : WarnState × W). P r.1) (not (sys.exists (join_path dir (codes "tasks")) v))
          p (move_tids-keeps group (tids_or_none sys (task_tids psys pid v)) (st, v) p))

  write_group-keeps :
      (psys : ProcSys W) (pid : ℤ) (g : MemoryGroup) (s : WarnState × W)
      → P s.1
      → P (write_group sys psys pid g dir s).1
  unfolding write_group
  write_group-keeps psys pid g s p =
      let low = codes "memory.low" ∷ codes "memory.soft_limit_in_bytes" ∷ [] in
      let max = codes "memory.max" ∷ codes "memory.limit_in_bytes" ∷ [] in
      let s₁ = write_given sys dir g.name (codes "memory.swappiness" ∷ []) decimal g.swappiness s in
      let s₂ =
        write_given sys dir g.name (codes "memory.min" ∷ []) (λ (x : Text). x) g.memory_min s₁ in
      let s₃ = write_given sys dir g.name low (λ (x : Text). x) g.memory_low s₂ in
      let s₄ =
        write_given sys dir g.name (codes "memory.high" ∷ []) (λ (x : Text). x) g.memory_high s₃ in
      let s₅ = write_given sys dir g.name max (λ (x : Text). x) g.memory_max s₄ in
      let s₆ = write_given sys dir g.name (codes "memory.oom.group" ∷ []) flag g.oom_group s₅ in
      let p₁ = write_given-keeps g.name (codes "memory.swappiness" ∷ []) decimal g.swappiness s p in
      let p₂ =
        write_given-keeps g.name (codes "memory.min" ∷ []) (λ (x : Text). x) g.memory_min s₁ p₁ in
      let p₃ = write_given-keeps g.name low (λ (x : Text). x) g.memory_low s₂ p₂ in
      let p₄ =
        write_given-keeps g.name (codes "memory.high" ∷ []) (λ (x : Text). x) g.memory_high s₃ p₃ in
      let p₅ = write_given-keeps g.name max (λ (x : Text). x) g.memory_max s₄ p₄ in
      let p₆ = write_given-keeps g.name (codes "memory.oom.group" ∷ []) flag g.oom_group s₅ p₅ in
      move_process_to_group-keeps psys pid g.name s₆ p₆

-- Applying a memory group writes only to files of directories whose canonical path lies in a cgroup root of the system:
-- what every write to such a file keeps is kept by the whole, whatever the path of the group, the name of the
-- package and the answers of the system are.
pub apply_memory_group-keeps :
    {W : Type 0} (sys : CgroupSys W) (psys : ProcSys W) (pid : ℤ) (pkg : Text) (g : MemoryGroup)
    (st : WarnState) (w : W) (P : W → Type 0)
    (keeps : (dir name value : Text) (v : W)
      → Inside sys w dir
      → P v
      → P (sys.write_control (join_path dir name) value v).1)
    → P w
    → P (apply_memory_group sys psys pid pkg g (st, w)).1
unfolding apply_memory_group
apply_memory_group-keeps sys psys pid pkg g st w P keeps p =
    of_resolved (resolve_group_path sys g pid pkg (st, w))
      (resolve_group_path-Inside sys w g pid pkg st)
  where
    of_resolved :
        (r : Option Text × WarnState)
        → Some (Inside sys w) r.0
        → P (write_resolved sys psys pid g w r).1
    of_resolved (none, st') q = p
    of_resolved (some dir, st') q =
        write_group-keeps sys P dir (λ name value v h. keeps dir name value v q h) psys pid g
          (st', w) p
