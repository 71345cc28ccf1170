-- ===== src/Proc.antt =====
-- AppOptR/src/apply_affinity.rs: what the daemon reads of /proc, and the affinity of one thread.
-- The files and the system calls are a parameter over a state `W`.
use app_opt_r_plus.Prelude.{
  ℕ, suc, ◌+◌, Bool, false, ◌||◌, Option, none, some, List, [], ◌∷◌, ◌++◌, ltb, ◌==◌, if◌then◌else◌,
  is_empty, take, length,
}
use app_opt_r_plus.Prelude.Int.{ℤ, pos, negsuc}
use app_opt_r_plus.Prelude.Text.{Text, codes, trim, last_part, decimal, member, byte_len, parse_i32}
use app_opt_r_plus.Prelude.Text.Utf8.{from_utf8}
use app_opt_r_plus.Config.Load.{AppConfig, max_pkg_len, max_thread_len}
use app_opt_r_plus.Cpuset.{CpuSet, cpus_eq}
use app_opt_r_plus.Cpuset.Topology.{CpuTopology, base_cpuset}

-- `File::open` with `read_at(buf, 0)`, as all the bytes of the file; `read_dir` with the names that are
-- read without an error; `sched_getaffinity`, `sched_setaffinity` and `kill(tid, 0)`, which answer an
-- error number if they fail; a line appended to a file.
pub record ProcSys (W : Type 0) : Type 0 where
  pub read_file : Text → W → Option (List ℕ)
  pub read_dir : Text → W → Option (List Text)
  pub get_affinity : ℤ → W → Option CpuSet
  pub set_affinity : ℤ → CpuSet → W → Option ℕ × W
  pub kill_zero : ℤ → W → Option ℕ
  pub append_line : Text → Text → W → W

-- `ESRCH` and `EPERM`.
abbrev pub esrch : ℕ
esrch = 3

abbrev pub eperm : ℕ
eperm = 1

abbrev pub show_i32 : ℤ → Text
show_i32 (pos n) = decimal n
show_i32 (negsuc n) = b'-' ∷ decimal (suc n)

-- `/proc/{pid}/{suffix}`.
abbrev pub proc_path : ℤ → Text → Text
proc_path pid suffix = codes "/proc/" ++ (show_i32 pid ++ (b'/' ∷ suffix))

-- The bytes in front of the first at which the test holds.
abbrev pub bytes_before : (ℕ → Bool) → List ℕ → List ℕ
bytes_before p [] = []
bytes_before p (b ∷ bs) = if p b then [] else b ∷ bytes_before p bs

abbrev non_empty : Option (List ℕ) → Option (List ℕ)
non_empty none = none
non_empty (some []) = none
non_empty (some (b ∷ bs)) = some (b ∷ bs)

abbrev prefix_of : ℕ → Option (List ℕ) → Option (List ℕ)
prefix_of n none = none
prefix_of n (some bs) = some (take n bs)

abbrev name_of : Option Text → Option Text
name_of none = none
name_of (some cmdline) =
    let trimmed = trim (last_part b'/' cmdline) in if is_empty trimmed then none else some trimmed

abbrev trimmed_of : Option Text → Option Text
trimmed_of none = none
trimmed_of (some name) = some (trim name)

abbrev decode_before : (ℕ → Bool) → Option (List ℕ) → Option Text
decode_before p none = none
decode_before p (some bs) = from_utf8 (bytes_before p bs)

-- The file names that are a thread or process number.
abbrev pub numbers : List Text → List ℤ
numbers [] = []
numbers (n ∷ ns) = elim (parse_i32 n) [ none ↦ numbers ns | some i ↦ i ∷ numbers ns ]

abbrev numbers_of : Option (List Text) → Option (List ℤ)
numbers_of none = none
numbers_of (some ns) = some (numbers ns)

module _ {W : Type 0} (sys : ProcSys W) where
  -- `len` is the length of the buffer; the path is built in one of 32 bytes.
  unfoldable pub read_proc_file : ℤ → Text → ℕ → W → Option (List ℕ)
  read_proc_file pid suffix len w =
      if ltb 32 (byte_len (proc_path pid suffix))
      then none
      else non_empty (prefix_of len (sys.read_file (proc_path pid suffix) w))

  unfoldable pub read_cmdline : ℤ → W → Option Text
  unfolding read_proc_file
  read_cmdline pid w =
      name_of (decode_before (λ b. b == 0) (read_proc_file pid (codes "cmdline") max_pkg_len w))

  unfoldable pub tid_comm : ℤ → W → Option Text
  unfolding read_proc_file
  tid_comm tid w = trimmed_of (
      decode_before (λ b. b == 0 || b == b'\n')
        (read_proc_file tid (codes "comm") max_thread_len w))

  unfoldable pub task_tids : ℤ → W → Option (List ℤ)
  task_tids pid w =
      if ltb 32 (byte_len (proc_path pid (codes "task")))
      then none
      else numbers_of (sys.read_dir (proc_path pid (codes "task")) w)

  abbrev tasks_path : Option Text → Text → Text
  tasks_path base dir =
      if is_empty dir
      then base_cpuset base ++ codes "/tasks"
      else base_cpuset base ++ (b'/' ∷ (dir ++ codes "/tasks"))

  abbrev pub is_gone : Option ℕ → Bool
  is_gone none = false
  is_gone (some errno) = errno == esrch

  abbrev has_affinity : Option CpuSet → CpuSet → Bool
  has_affinity none cpus = false
  has_affinity (some curr) cpus = cpus_eq curr cpus

  -- `true`: the thread is gone.
  unfoldable pub affinity_set : Option Text → CpuTopology → ℤ → CpuSet → Text → W → Bool × W
  affinity_set base topo tid cpus dir w =
      let matches = has_affinity (sys.get_affinity tid w) cpus in
      let w₁ =
        if topo.cpuset_enabled then sys.append_line (tasks_path base dir) (show_i32 tid) w else w in
      if matches then (false, w₁) else let (r, w₂) = sys.set_affinity tid cpus w₁ in (is_gone r, w₂)

  abbrev pub first_some : Option Text → Option Text → Option Text
  first_some none b = b
  first_some (some a) b = some a

  -- The package name of a process that `proc_walk` passes on.
  unfoldable pub walk_pkg : AppConfig → ℤ → W → Option Text
  unfolding read_cmdline tid_comm
  walk_pkg cfg pid w = elim (first_some (read_cmdline pid w) (tid_comm pid w)) [
    | none ↦ none
    | some pkg ↦ if member pkg cfg.pkgs then some pkg else none
  ]

  abbrev pub call :
      {S : Type 0}
      → (ℤ → Text → Bool → S × W → S × W)
      → AppConfig
      → ℤ
      → Option Text
      → S × W
      → ℕ × (S × W)
  call f cfg pid none s = (0, s)
  call f cfg pid (some pkg) s = (1, f pid pkg (member pkg cfg.has_thread_rules) s)

  -- The loop over the process numbers: the closure `f` runs on a state `S` of its own.
  unfoldable pub walk_loop :
      {S : Type 0}
      → AppConfig
      → (ℤ → Bool)
      → (ℤ → Text → Bool → S × W → S × W)
      → List ℤ
      → S × W
      → ℕ × (S × W)
  unfolding walk_pkg
  walk_loop cfg filter f [] s = (0, s)
  walk_loop cfg filter f (pid ∷ pids) s =
      let (n, s₁) = if filter pid then call f cfg pid (walk_pkg cfg pid s.1) s else (0, s) in
      let (m, s₂) = walk_loop cfg filter f pids s₁ in (n + m, s₂)

  abbrev pub walk_names :
      {S : Type 0}
      → AppConfig
      → (ℤ → Bool)
      → (ℤ → Text → Bool → S × W → S × W)
      → S × W
      → Option (List Text)
      → (ℕ × ℕ) × (S × W)
  walk_names cfg filter f s none = ((0, 0), s)
  walk_names cfg filter f s (some names) =
      let (n, r) = walk_loop cfg filter f (numbers names) s in ((n, length (numbers names)), r)

  -- The number of matches and the number of processes.
  unfoldable pub proc_walk :
      {S : Type 0}
      → AppConfig
      → (ℤ → Bool)
      → (ℤ → Text → Bool → S × W → S × W)
      → S × W
      → (ℕ × ℕ) × (S × W)
  proc_walk cfg filter f (s, w) = walk_names cfg filter f (s, w) (sys.read_dir (codes "/proc") w)
