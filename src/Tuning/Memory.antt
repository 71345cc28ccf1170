-- ===== src/Tuning/Memory.antt =====
-- AppOptR/src/tuning.rs: the memory cgroups: `cgroup_roots`, `expand_group_path`, `canonical_cgroup_dir` and
-- `resolve_group_path`.
pub mod Write
pub mod Inside
use app_opt_r_plus.Prelude.{
  ℕ, ◌^◌, Bool, true, false, not, ◌&&◌, Option, none, some, List, [], ◌∷◌, ◌++◌, if◌then◌else◌,
  is_empty, keep,
}
use app_opt_r_plus.Prelude.Int.{ℤ, eq_ℤ}
use app_opt_r_plus.Prelude.Text.{
  Text, codes, text_eq, insert_text, lines, split, split_whitespace, strip_prefix, starts_with,
  contains_text, parse_uint, decimal,
}
use app_opt_r_plus.Proc.{ProcSys, task_tids, show_i32}
use app_opt_r_plus.Daemon.{join_path}
use app_opt_r_plus.Tuning.{MemoryGroup, TuningConfig, cgroup_template_ok, replace_text}
use app_opt_r_plus.Tuning.Clone.{find_app}
use app_opt_r_plus.Tuning.Apply.{WarnState, warn_once, SchedSys, effective_thread_tune, tune_thread}

-- `is_dir`, `exists` and `canonicalize`; a file opened for writing, and written from its start, with the text
-- of the error if it fails; `read_to_string`.
pub record CgroupSys (W : Type 0) : Type 0 where
  pub is_dir : Text → W → Bool
  pub exists : Text → W → Bool
  pub canonical : Text → W → Option Text
  pub read_text : Text → W → Option Text
  pub open_control : Text → W → Option Text
  pub write_control : Text → Text → W → Option Text × W

-- The components of a path.
unfoldable pub components : Text → List Text
components p = keep (λ part. not (is_empty part) && not (text_eq part (codes "."))) (split b'/' p)

abbrev parts_start : List Text → List Text → Bool
parts_start ps [] = true
parts_start [] (q ∷ qs) = false
parts_start (p ∷ ps) (q ∷ qs) = text_eq p q && parts_start ps qs

abbrev same_bool : Bool → Bool → Bool
same_bool true b = b
same_bool false b = not b

abbrev pub is_absolute : Text → Bool
unfolding starts_with
is_absolute p = starts_with p (codes "/")

-- `Path::starts_with`, by components; a path starts with itself.
unfoldable pub path_starts_with : Text → Text → Bool
unfolding components
path_starts_with p q =
    same_bool (is_absolute p) (is_absolute q) && parts_start (components p) (components q)

abbrev head_word : List Text → Option ℕ
head_word [] = none
head_word (w ∷ ws) = parse_uint (2 ^ 32) w

abbrev uid_line : List Text → Option ℕ
uid_line [] = none
uid_line (l ∷ ls) = elim (strip_prefix l (codes "Uid:")) [
  | none ↦ uid_line ls
  | some rest ↦ head_word (split_whitespace rest)
]

abbrev pub first_given : {A : Type 0} → Option A → Option A → Option A
first_given none b = b
first_given (some a) b = some a

module _ {W : Type 0} (sys : CgroupSys W) where
  unfoldable pub roots_from : List Text → W → List Text → List Text
  roots_from [] w found = found
  roots_from (r ∷ rs) w found =
      roots_from rs w (if sys.is_dir r w then insert_text r found else found)

  unfoldable pub cgroup_roots : W → List Text
  unfolding roots_from
  cgroup_roots w =
      roots_from (codes "/dev/memcg" ∷ codes "/sys/fs/cgroup/memory" ∷ codes "/sys/fs/cgroup" ∷ [])
        w []

  unfoldable pub process_uid : ℤ → W → Option ℕ
  process_uid pid w = elim (sys.read_text (codes "/proc/" ++ (show_i32 pid ++ codes "/status")) w) [
    | none ↦ none
    | some text ↦ uid_line (lines text)
  ]

  abbrev expanded : Text → ℤ → Text → Text → Text
  expanded path pid pkg uid =
      replace_text
        (replace_text (replace_text path (codes "{uid}") uid) (codes "{pid}") (show_i32 pid))
        (codes "{pkg}") pkg

  abbrev pub with_uid : Text → ℤ → Text → Option ℕ → WarnState → Option Text × WarnState
  unfolding warn_once
  with_uid path pid pkg none st = (
    none,
    warn_once (codes "uid-" ++ show_i32 pid)
        (codes "无法读取 pid " ++ (show_i32 pid ++ codes " 的 UID，跳过内存组迁移")) st,
  )
  with_uid path pid pkg (some uid) st = (some (expanded path pid pkg (decimal uid)), st)

  unfoldable pub expand_group_path : Text → ℤ → Text → WarnState × W → Option Text × WarnState
  unfolding with_uid process_uid
  expand_group_path path pid pkg (st, w) =
      if contains_text path (codes "{uid}")
      then with_uid path pid pkg (process_uid pid w) st
      else (some (expanded path pid pkg []), st)

  abbrev pub within : Text → Option Text → Option Text → Option Text
  unfolding path_starts_with
  within candidate none more = more
  within candidate (some root) more =
      if path_starts_with candidate root then some candidate else more

  -- The canonical path, if it lies in a root.
  abbrev pub in_roots : Text → List Text → W → Option Text
  unfolding within
  in_roots candidate [] w = none
  in_roots candidate (r ∷ rs) w = within candidate (sys.canonical r w) (in_roots candidate rs w)

  abbrev pub dir_in_roots : List Text → W → Option Text → Option Text
  unfolding in_roots
  dir_in_roots roots w none = none
  dir_in_roots roots w (some candidate) =
      if not (sys.is_dir candidate w) then none else in_roots candidate roots w

  unfoldable pub canonical_cgroup_dir : Text → List Text → W → Option Text
  unfolding dir_in_roots
  canonical_cgroup_dir path roots w = dir_in_roots roots w (sys.canonical path w)

  abbrev pub first_dir : List Text → List Text → W → Option Text
  unfolding canonical_cgroup_dir
  first_dir [] roots w = none
  first_dir (c ∷ cs) roots w = first_given (canonical_cgroup_dir c roots w) (first_dir cs roots w)

  abbrev joined : List Text → Text → List Text
  joined [] path = []
  joined (r ∷ rs) path = join_path r path ∷ joined rs path

  abbrev candidates : Text → List Text → List Text
  candidates path roots = if is_absolute path then path ∷ [] else joined roots path

  abbrev pub missing : MemoryGroup → Text → Option Text → WarnState → Option Text × WarnState
  unfolding warn_once
  missing group path (some dir) st = (some dir, st)
  missing group path none st = (
    none,
    warn_once (codes "group-missing-" ++ (group.name ++ (b'-' ∷ path)))
        (codes "内存组 " ++ (group.name ++ (codes " 不存在或不在允许的 cgroup 根目录内: " ++ path))) st,
  )

  abbrev pub resolve_path : MemoryGroup → W → Option Text × WarnState → Option Text × WarnState
  unfolding missing first_dir warn_once cgroup_roots
  resolve_path group w (none, st) = (none, st)
  resolve_path group w (some path, st) =
      if not (cgroup_template_ok path)
      then (
        none,
        warn_once (codes "group-template-" ++ group.name)
            (codes "内存组 " ++ (group.name ++ codes " 展开后的路径无效")) st,
      )
      else let roots = cgroup_roots w in
        if is_empty roots
        then (
          none,
          warn_once (codes "no-memory-cgroup") (codes "未发现可用的 memory cgroup 根目录，内存组调优已跳过") st,
        )
        else missing group path (first_dir (candidates path roots) roots w) st

  unfoldable pub resolve_group_path :
      MemoryGroup → ℤ → Text → WarnState × W → Option Text × WarnState
  unfolding resolve_path expand_group_path
  resolve_group_path group pid pkg (st, w) =
      resolve_path group w (expand_group_path group.path pid pkg (st, w))
