-- ===== src/Kernel.antt =====
-- appopt-ebpf/src/main.rs: the kernel program. The maps, the helpers and the context of a tracepoint,
-- which the aya crate and the kernel give, are a parameter over the state `W`.
pub mod Whitelist
use app_opt_r_plus.Prelude.{
  ℕ, ◌/◌, ◌%◌, ◌^◌, ◌-◌, Bool, true, false, not, ◌&&◌, ◌||◌, Option, none, some, List, [], ◌∷◌,
  ◌==◌, ltb, if◌then◌else◌, take, drop, is_some, replicate,
}
use app_opt_r_plus.Prelude.Int.{ℤ, pos, negsuc}
use app_opt_r_plus.Ebpf.{as_u32}

abbrev pub event_fork : ℕ
event_fork = 1

abbrev pub event_exec : ℕ
event_exec = 2

abbrev pub event_rename : ℕ
event_rename = 3

abbrev pub event_exit : ℕ
event_exit = 4

pub record TracepointOffsets : Type 0 where
  pub fork_child_pid : ℕ
  pub fork_child_comm : ℕ
  pub rename_newcomm : ℕ

pub record ProcEvent : Type 0 where
  pub pid : ℤ
  pub tid : ℤ
  pub comm : List ℕ
  pub event_type : ℕ

-- `get` of TARGET_COMM_MAP, APPLIED_MAP and OFFSETS_MAP; a write of APPLIED_MAP, which may fail;
-- `submit` on the ring buffer, which may be full; `bpf_get_current_pid_tgid` and
-- `bpf_get_current_comm`; `read_at` of the context.
pub record Bpf (W : Type 0) : Type 0 where
  pub target_get : List ℕ → W → Bool
  pub applied_get : ℕ → W → Bool
  pub applied_insert : ℕ → ℕ → W → W
  pub applied_remove : ℕ → W → W
  pub offsets_get : W → Option TracepointOffsets
  pub submit : ProcEvent → W → W
  pub pid_tgid : W → ℕ
  pub current_comm : W → Option (List ℕ)
  pub read_i32 : ℕ → W → Option ℤ
  pub read_comm : ℕ → W → Option (List ℕ)

pub record EventMeta : Type 0 where
  pub pid : ℤ
  pub tid : ℤ
  pub comm : List ℕ
  pub parent_tid : ℕ
  pub parent_tgid : ℕ

-- A `u32` as an `i32`.
abbrev pub as_i32 : ℕ → ℤ
as_i32 n = if ltb n (2 ^ 31) then pos n else negsuc (2 ^ 32 - 1 - n)

abbrev pub no_comm : List ℕ
no_comm = replicate 16 0

abbrev or_zero : Option ℤ → ℤ
or_zero none = pos 0
or_zero (some i) = i

abbrev or_no_comm : Option (List ℕ) → List ℕ
or_no_comm none = no_comm
or_no_comm (some c) = c

-- The two windows of fifteen bytes.
abbrev pub window : ℕ → List ℕ → List ℕ
window at comm = take 15 (drop at comm)

abbrev pub low_half : ℕ → ℕ
low_half n = n % 2 ^ 32

abbrev pub high_half : ℕ → ℕ
high_half n = n / 2 ^ 32 % 2 ^ 32

module _ {W : Type 0} (bpf : Bpf W) where
  abbrev injected : Option TracepointOffsets → Option TracepointOffsets
  injected none = none
  injected (some o) = if not (o.fork_child_pid == 0) then some o else none

  unfoldable pub offsets_load : W → Option TracepointOffsets
  offsets_load w = injected (bpf.offsets_get w)

  unfoldable pub whitelist_matched : List ℕ → W → Bool
  whitelist_matched comm w = bpf.target_get (window 0 comm) w || bpf.target_get (window 1 comm) w

  unfoldable pub fork_parse : TracepointOffsets → W → EventMeta
  fork_parse o w = record {
    pid = as_i32 (high_half (bpf.pid_tgid w));
    tid = or_zero (bpf.read_i32 o.fork_child_pid w);
    comm = or_no_comm (bpf.read_comm o.fork_child_comm w);
    parent_tid = low_half (bpf.pid_tgid w);
    parent_tgid = high_half (bpf.pid_tgid w);
  }

  unfoldable pub exec_parse : W → EventMeta
  exec_parse w = record {
    pid = as_i32 (high_half (bpf.pid_tgid w));
    tid = as_i32 (low_half (bpf.pid_tgid w));
    comm = or_no_comm (bpf.current_comm w);
    parent_tid = 0;
    parent_tgid = 0;
  }

  -- What follows once the event is parsed.
  unfoldable pub report_meta : ℕ → EventMeta → W → W
  report_meta event_type meta w =
      let is_fork = event_type == event_fork in
      let is_tracked = bpf.applied_get (if is_fork then meta.parent_tid else as_u32 meta.tid) w in
      if not is_tracked && not (whitelist_matched meta.comm w)
      then w
      else bpf.submit
          (record { pid = meta.pid; tid = meta.tid; comm = meta.comm; event_type = event_type })
          (if is_fork && is_tracked then bpf.applied_insert (as_u32 meta.tid) 0 w else w)

  abbrev fork_report : Option TracepointOffsets → W → W
  fork_report none w = w
  fork_report (some o) w = report_meta event_fork (fork_parse o w) w

  unfoldable pub report_named_event : ℕ → W → W
  report_named_event event_type w =
      if event_type == event_fork
      then fork_report (offsets_load w) w
      else report_meta event_type (exec_parse w) w

  abbrev pub rename_event : ℕ → List ℕ → ProcEvent
  rename_event pid_tgid comm = record {
    pid = as_i32 (high_half pid_tgid);
    tid = as_i32 (low_half pid_tgid);
    comm = comm;
    event_type = event_rename;
  }

  abbrev pub rename_report : Option TracepointOffsets → W → W
  rename_report none w = w
  rename_report (some o) w =
      let new_comm = or_no_comm (bpf.read_comm o.rename_newcomm w) in
      if not (bpf.applied_get (low_half (bpf.pid_tgid w)) w) && not (whitelist_matched new_comm w)
      then w
      else bpf.submit (rename_event (bpf.pid_tgid w) new_comm) w

  unfoldable pub task_rename : W → W
  task_rename w = if low_half (bpf.pid_tgid w) == 0 then w else rename_report (offsets_load w) w

  unfoldable pub sched_process_exit : W → W
  sched_process_exit w =
      let tid = low_half (bpf.pid_tgid w) in
      if not (bpf.applied_get tid w)
      then w
      else bpf.submit
          (record {
            pid = as_i32 (high_half (bpf.pid_tgid w));
            tid = as_i32 tid;
            comm = no_comm;
            event_type = event_exit;
          })
          (bpf.applied_remove tid w)
