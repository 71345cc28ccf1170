-- ===== src/Ebpf.antt =====
-- AppOptR/src/ebpf_mode.rs: the mode that is fed by kernel events. The maps of the kernel program,
-- which the aya crate reaches, are a parameter over the state `W`.
pub mod Keys
pub mod Dispatch
pub mod Scan
pub mod Init
use app_opt_r_plus.Prelude.{
  ℕ, zero, suc, ◌-◌, ◌%◌, ◌^◌, ◌+◌, Bool, true, false, not, ◌&&◌, ◌||◌, Option, none, some, List,
  [], ◌∷◌, ltb, ◌==◌, if◌then◌else◌, any, length, drop, is_empty, is_some, get_or,
}
use app_opt_r_plus.Prelude.Int.{ℤ, pos, negsuc}
use app_opt_r_plus.Prelude.Text.{
  Text, codes, text_eq, trim, lines, strip_prefix, split, split_whitespace, parse_uint,
}
use app_opt_r_plus.Prelude.Text.Utf8.{as_bytes, from_utf8}
use app_opt_r_plus.Cpuset.{CpuSet}
use app_opt_r_plus.Cpuset.Topology.{CpuTopology, CpusetSys}
use app_opt_r_plus.Config.Load.{AppConfig}
use app_opt_r_plus.Proc.{ProcSys, affinity_set, bytes_before, task_tids, tid_comm, proc_walk}
use app_opt_r_plus.Cache.{ProcCache, clear, task_del, task_apply, pkg_lookup_comm, affinity_sync}

-- The event, with the four numbers of its type.
pub record EbpfProcEvent : Type 0 where
  pub pid : ℤ
  pub tid : ℤ
  pub comm : List ℕ
  pub event_type : ℕ

abbrev pub ebpf_event_fork : ℕ
ebpf_event_fork = 1

abbrev pub ebpf_event_exec : ℕ
ebpf_event_exec = 2

abbrev pub ebpf_event_rename : ℕ
ebpf_event_rename = 3

abbrev pub ebpf_event_exit : ℕ
ebpf_event_exit = 4

abbrev trim_or_empty : Option Text → Text
trim_or_empty none = []
trim_or_empty (some s) = trim s

unfoldable pub comm_str : List ℕ → Text
comm_str comm = trim_or_empty (from_utf8 (bytes_before (λ b. b == 0) comm))

-- An array of `n` bytes, zero behind the bytes that are copied to its start.
abbrev pub padded : ℕ → List ℕ → List ℕ
padded zero bs = []
padded (suc n) [] = 0 ∷ padded n []
padded (suc n) (b ∷ bs) = b ∷ padded n bs

abbrev pub comm_key_len : ℕ
comm_key_len = 15

-- The keys of one package.
unfoldable pub pkg_keys : List ℕ → List (List ℕ)
pkg_keys bytes =
    if is_empty bytes
    then []
    else if ltb comm_key_len (length bytes)
    then padded comm_key_len bytes ∷ drop (length bytes - comm_key_len) bytes ∷ []
    else padded comm_key_len bytes ∷ []

abbrev append_keys : List (List ℕ) → List (List ℕ) → List (List ℕ)
append_keys [] ks = ks
append_keys (k ∷ js) ks = k ∷ append_keys js ks

unfoldable pub all_keys : List Text → List (List ℕ)
all_keys [] = []
all_keys (p ∷ ps) = append_keys (pkg_keys (as_bytes p)) (all_keys ps)

-- The order of arrays: the first byte that differs decides.
abbrev pub bytes_lt : List ℕ → List ℕ → Bool
bytes_lt [] [] = false
bytes_lt [] (b ∷ bs) = true
bytes_lt (a ∷ as₁) [] = false
bytes_lt (a ∷ as₁) (b ∷ bs) = ltb a b || (a == b && bytes_lt as₁ bs)

unfoldable pub insert_key : List ℕ → List (List ℕ) → List (List ℕ)
insert_key k [] = k ∷ []
insert_key k (j ∷ ks) = if bytes_lt j k then j ∷ insert_key k ks else k ∷ j ∷ ks

unfoldable pub sort_keys : List (List ℕ) → List (List ℕ)
sort_keys [] = []
sort_keys (k ∷ ks) = insert_key k (sort_keys ks)

abbrev cons_new : List ℕ → List (List ℕ) → List (List ℕ)
cons_new k [] = k ∷ []
cons_new k (j ∷ ks) = if text_eq k j then j ∷ ks else k ∷ j ∷ ks

-- Of neighbours that are equal one stays.
unfoldable pub dedup : List (List ℕ) → List (List ℕ)
dedup [] = []
dedup (k ∷ ks) = cons_new k (dedup ks)

unfoldable pub comm_keys_build : List Text → List (List ℕ)
comm_keys_build pkgs = dedup (sort_keys (all_keys pkgs))

-- `tid as u32`.
abbrev pub as_u32 : ℤ → ℕ
as_u32 (pos n) = n % 2 ^ 32
as_u32 (negsuc n) = 2 ^ 32 - 1 - n % 2 ^ 32

-- APPLIED_MAP: a write may fail, and without the map nothing is done.
pub record AppliedMap (W : Type 0) : Type 0 where
  pub insert : ℕ → ℕ → W → W
  pub remove : ℕ → W → W
  pub remove_all : W → W

module _ {W : Type 0} (fnmatch : Text → Text → Bool) (csys : CpusetSys W) (sys : ProcSys W)
    (base : Option Text) (apply_task : ℤ → ℤ → Text → Text → W → Bool × W)
    (reapply_thread : ℤ → Text → Text → W → W) (bpf : AppliedMap W) where
  unfoldable pub applied_set : ℤ → CpuSet → W → W
  applied_set tid cpus w = bpf.insert (as_u32 tid) (get_or cpus.bits 0 0) w

  unfoldable pub applied_del : ℤ → W → W
  applied_del tid w = bpf.remove (as_u32 tid) w

  unfoldable pub affinity_apply : AppConfig → ℤ → CpuSet → Text → W → Bool × W
  affinity_apply cfg tid cpus dir w =
      let (dead, w') = affinity_set sys base cfg.topo tid cpus dir w in
      (dead, if not dead then applied_set tid cpus w' else w')

  -- A call of `task_apply` with the mark for a tracked thread.
  unfoldable pub tracked_apply :
      ℤ → ℤ → Text → Text → AppConfig → ProcCache × W → Bool × (ProcCache × W)
  tracked_apply tid pid pkg comm cfg (c, w) =
      let (tracked, s) =
        task_apply fnmatch csys sys base apply_task reapply_thread (affinity_apply cfg) tid pid pkg
          comm cfg c w in
      (tracked, (s.0, if tracked then applied_set tid cfg.topo.present_cpus s.1 else s.1))

  abbrev pub apply_pkg :
      ℤ → ℤ → Text → AppConfig → ProcCache × W → Option Text → Bool × (ProcCache × W)
  apply_pkg tid pid comm cfg s none = (false, s)
  apply_pkg tid pid comm cfg s (some pkg) = tracked_apply tid pid pkg comm cfg s

  unfoldable pub event_apply : ℤ → ℤ → Text → AppConfig → ProcCache × W → Bool × (ProcCache × W)
  event_apply tid pid comm cfg (c, w) =
      apply_pkg tid pid comm cfg (c, w) (pkg_lookup_comm sys pid comm cfg c w)

  unfoldable pub forget : ℤ → ProcCache × W → ProcCache × W
  forget tid (c, w) = (task_del tid c, applied_del tid w)

  abbrev pub exec_event : ℤ → Bool × (ProcCache × W) → ProcCache × W
  exec_event tid (ok, s) = if not ok then forget tid s else s

  unfoldable pub event_dispatch : EbpfProcEvent → AppConfig → ProcCache × W → ProcCache × W
  event_dispatch event cfg s =
      let comm = comm_str event.comm in
      if event.event_type == ebpf_event_exit
      then forget event.tid s
      else if event.event_type == ebpf_event_exec
      then exec_event event.tid (event_apply event.tid event.pid comm cfg s)
      else if event.event_type == ebpf_event_fork
      then s
      else if event.event_type == ebpf_event_rename
      then (event_apply event.tid event.pid comm cfg s).1
      else s

  abbrev pub del_applied : List ℤ → W → W
  del_applied [] w = w
  del_applied (tid ∷ tids) w = del_applied tids (applied_del tid w)

  unfoldable pub affinity_check : AppConfig → ProcCache × W → ProcCache × W
  affinity_check cfg (c, w) =
      let (dead_tids, s) =
        affinity_sync fnmatch csys sys base apply_task reapply_thread cfg.topo c w in
      (s.0, del_applied dead_tids s.1)

  abbrev or_default : Option Text → Text
  or_default none = []
  or_default (some s) = s

  abbrev pub scan_tids : ℤ → Text → Bool → AppConfig → List ℤ → ProcCache × W → ProcCache × W
  scan_tids pid pkg has_thread_rules cfg [] s = s
  scan_tids pid pkg has_thread_rules cfg (tid ∷ tids) s =
      let name = if has_thread_rules then or_default (tid_comm sys tid s.1) else [] in
      scan_tids pid pkg has_thread_rules cfg tids (tracked_apply tid pid pkg name cfg s).1

  abbrev pub scan_process : AppConfig → ℤ → Text → Bool → ProcCache × W → ProcCache × W
  scan_process cfg pid pkg has_thread_rules s = elim (task_tids sys pid s.1) [
    | none ↦ s
    | some tids ↦ scan_tids pid pkg has_thread_rules cfg tids s
  ]

  unfoldable pub full_scan : AppConfig → ProcCache × W → ProcCache × W
  full_scan cfg (c, w) =
      (proc_walk sys cfg (λ pid. true) (scan_process cfg) (clear c, bpf.remove_all w)).1

-- `tracepoint_parse` on the text of the format file: the offset of each field, the last line of a name
-- counts. A field is found by name.
abbrev last_word : List Text → Text
last_word [] = []
last_word (w ∷ []) = w
last_word (w ∷ v ∷ ws) = last_word (v ∷ ws)

abbrev first_part : List Text → Text
first_part [] = []
first_part (p ∷ ps) = p

unfoldable pub field_name : Text → Text
field_name part = first_part (split b'[' (last_word (split_whitespace part)))

abbrev offset_value : Option Text → Option ℕ
offset_value none = none
offset_value (some s) = parse_uint (2 ^ 32) (trim s)

abbrev or_next : Option ℕ → Option ℕ → Option ℕ
or_next none b = b
or_next (some a) b = some a

-- The first part behind the name that is an offset.
unfoldable pub field_offset : List Text → Option ℕ
field_offset [] = none
field_offset (p ∷ ps) =
    or_next (offset_value (strip_prefix (trim p) (codes "offset:"))) (field_offset ps)

abbrev named : Text → Option ℕ → Option (Text × ℕ)
named name none = none
named name (some off) = if is_empty name then none else some (name, off)

abbrev parts_entry : List Text → Option (Text × ℕ)
parts_entry [] = none
parts_entry (p ∷ []) = none
parts_entry (p ∷ q ∷ ps) = named (field_name (trim p)) (field_offset (q ∷ ps))

abbrev rest_entry : Option Text → Option (Text × ℕ)
rest_entry none = none
rest_entry (some rest) = parts_entry (split b';' rest)

unfoldable pub format_line : Text → Option (Text × ℕ)
format_line line = rest_entry (strip_prefix (trim line) (codes "field:"))

abbrev later : Text → Option (Text × ℕ) → Option ℕ → Option ℕ
later name none found = found
later name (some (field, off)) found = if text_eq field name then some off else found

unfoldable pub format_offset : List Text → Text → Option ℕ → Option ℕ
format_offset [] name found = found
format_offset (l ∷ ls) name found = format_offset ls name (later name (format_line l) found)

-- `offsets.get(name)` of the map that is parsed.
unfoldable pub tracepoint_parse : Option Text → Text → Option ℕ
tracepoint_parse none name = none
tracepoint_parse (some content) name = format_offset (lines content) name none
