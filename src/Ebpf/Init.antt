-- ===== src/Ebpf/Init.antt =====
-- AppOptR/src/ebpf_mode.rs: `comm_map_init`, `tracefs_root`, `offsets_inject`, `ebpf_probe` and `ebpf_init`. The aya crate, which
-- loads the program and reaches its maps, is a parameter.
pub mod Whitelist
use app_opt_r_plus.Prelude.{
  ℕ, zero, suc, ◌+◌, ◌*◌, ◌%◌, ◌^◌, Bool, true, false, not, ◌&&◌, ◌||◌, Option, none, some, List,
  [], ◌∷◌, ◌++◌, ltb, leb, ◌==◌, if◌then◌else◌, length, is_empty, any, max,
}
use app_opt_r_plus.Prelude.Text.{Text, codes}
use app_opt_r_plus.Config.Load.{AppConfig}
use app_opt_r_plus.Kernel.{TracepointOffsets}
use app_opt_r_plus.Ebpf.{comm_keys_build, tracepoint_parse}

-- TARGET_COMM_MAP, if it can be had: the keys that can be read, and the insertion and removal of one.
pub record CommMap (W : Type 0) : Type 0 where
  pub found : W → Bool
  pub keys : W → List (List ℕ)
  pub insert : List ℕ → W → Bool × W
  pub remove : List ℕ → W → W

-- The loader of the program with the capacity of its whitelist; the tracepoints; OFFSETS_MAP, which is found and set,
-- or not; the map EVENTS, and a descriptor.
pub record BpfSys (W : Type 0) : Type 0 where
  pub comm : CommMap W
  pub exists : Text → W → Bool
  pub read_text : Text → W → Option Text
  pub program : W → Option (List ℕ)
  pub load : List ℕ → ℕ → W → Bool × W
  pub attach : Text → Text → W → Bool × W
  pub set_offsets : TracepointOffsets → W → Bool × W
  pub take_events : W → Bool × W
  pub eventfd : W → Bool × W
  pub spawn_reader : W → W

-- `2 ^ k` for the least `k` at which that is not less than `n`; `fuel` bounds the doublings.
unfoldable pub doubled : ℕ → ℕ → ℕ → ℕ
doubled zero n p = p
doubled (suc fuel) n p = let more = doubled fuel n (p * 2) in if leb n p then p else more

abbrev pub next_power_of_two : ℕ → ℕ
unfolding doubled
next_power_of_two n = doubled 64 n 1

abbrev pub pkgs_len : Option AppConfig → ℕ
pkgs_len none = 0
pkgs_len (some c) = length c.pkgs

-- A `u32`.
unfoldable pub comm_capacity : Option AppConfig → ℕ
unfolding next_power_of_two
comm_capacity cfg = next_power_of_two (max (pkgs_len cfg * 2) 512) % 2 ^ 32

module _ {W : Type 0} (m : CommMap W) where
  abbrev pub remove_keys : List (List ℕ) → W → W
  remove_keys [] w = w
  remove_keys (k ∷ ks) w = remove_keys ks (m.remove k w)

  -- How many keys were inserted.
  abbrev pub insert_keys : List (List ℕ) → W → ℕ × W
  insert_keys [] w = (0, w)
  insert_keys (k ∷ ks) w =
      let (done, w₁) = m.insert k w in
      let (n, w₂) = insert_keys ks w₁ in ((if done then suc n else n), w₂)

  -- `true`: the program has to be loaded again.
  unfoldable pub comm_map_init : List Text → ℕ → W → Bool × W
  unfolding comm_keys_build
  comm_map_init pkgs capacity w =
      let entries = comm_keys_build pkgs in
      if ltb capacity (length entries)
      then (true, w)
      else if not (m.found w)
      then (false, w)
      else let (count, w') = insert_keys entries (remove_keys (m.keys w) w) in
        (ltb count (length entries), w')

module _ {W : Type 0} (sys : BpfSys W) where
  unfoldable pub tracefs_root : W → Option Text
  tracefs_root w =
      if sys.exists (codes "/sys/kernel/tracing") w
      then some (codes "/sys/kernel/tracing")
      else if sys.exists (codes "/sys/kernel/debug/tracing") w
      then some (codes "/sys/kernel/debug/tracing")
      else none

  abbrev format_of : Text → Text → W → Option Text
  format_of root event w =
      sys.read_text (root ++ (codes "/events/" ++ (event ++ codes "/format"))) w

  abbrev pub offsets_of : Option ℕ → Option ℕ → Option ℕ → Option TracepointOffsets
  offsets_of (some pid) (some comm) (some newcomm) =
      some (record { fork_child_pid = pid; fork_child_comm = comm; rename_newcomm = newcomm })
  offsets_of _ _ _ = none

  abbrev pub offsets_at : Text → W → Option TracepointOffsets
  unfolding tracepoint_parse
  offsets_at root w =
      let fork = format_of root (codes "sched/sched_process_fork") w in
      let rename = format_of root (codes "task/task_rename") w in
      offsets_of (tracepoint_parse fork (codes "child_pid"))
        (tracepoint_parse fork (codes "child_comm")) (tracepoint_parse rename (codes "newcomm"))

  abbrev put_offsets : Option TracepointOffsets → W → Bool × W
  put_offsets none w = (false, w)
  put_offsets (some o) w = sys.set_offsets o w

  unfoldable pub offsets_inject : W → Bool × W
  unfolding tracefs_root offsets_at
  offsets_inject w = elim (tracefs_root w) [
    | none ↦ (false, w)
    | some root ↦ put_offsets (offsets_at root w) w
  ]

  -- One step after another, up to the first that fails.
  abbrev pub and_so : (W → Bool × W) → Bool × W → Bool × W
  and_so f (false, w) = (false, w)
  and_so f (true, w) = f w

  abbrev pub attach_all : W → Bool × W
  attach_all w = and_so (sys.attach (codes "task") (codes "task_rename")) (
      and_so (sys.attach (codes "sched") (codes "sched_process_exit")) (
        and_so (sys.attach (codes "sched") (codes "sched_process_exec"))
          (sys.attach (codes "sched") (codes "sched_process_fork") w)))

  unfoldable pub ebpf_probe : W → Bool
  ebpf_probe w = sys.exists (codes "/sys/kernel/btf/vmlinux") w

  abbrev init_loaded : List ℕ → ℕ → W → Bool × W
  unfolding offsets_inject
  init_loaded bytes capacity w = and_so sys.eventfd (
      and_so sys.take_events
        (and_so attach_all (and_so offsets_inject (sys.load bytes capacity w))))

  abbrev init_program : Option AppConfig → Option (List ℕ) → W → Option ℕ × W
  unfolding init_loaded comm_capacity
  init_program cfg none w = (none, w)
  init_program cfg (some bytes) w =
      if is_empty bytes
      then (none, w)
      else let capacity = comm_capacity cfg in
        let (done, w') = init_loaded bytes capacity w in
        if done then (some capacity, sys.spawn_reader w') else (none, w')

  -- The capacity of the whitelist, if all went well.
  unfoldable pub ebpf_init : Option AppConfig → W → Option ℕ × W
  unfolding init_program ebpf_probe
  ebpf_init cfg w = if not (ebpf_probe w) then (none, w) else init_program cfg (sys.program w) w
