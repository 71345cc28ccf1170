-- ===== src/Lib.antt =====
-- AppOptR-Plus gives the threads of the configured applications of an Android device their CPUs, and
-- tunes their memory and scheduling. The daemon loads a file of rules, finds the processes of the
-- applications, by a scan of /proc or by the events of a kernel program, and applies to every thread the
-- CPUs that the rules give it. A web page edits the rules. This library models the daemon and the
-- kernel program and proves what makes their parts correct.
--
-- The parts, with the files that model them:
--
-- AppOptR/src/cpuset.rs. Cpuset has CpuSet, sixteen words of 64 bits, with set, is_set, count, or and
-- the derived equality; Cpuset/Members and Cpuset/Whole have what the operations do to the members.
-- Cpuset/Ranges has to_range_string and parse_cpu_ranges (children Parse, Print, RoundTrip), Cpuset/Spec
-- has parse_cpu_spec, and Cpuset/Topology the topology: detect_core_types (Topology/Policies
-- for its entries, Topology/Groups for the groups, Topology/Places and Topology/Layers for the layers),
-- init_cpu_topo, create_cpuset_dir and ensure_cpuset_dir. A word is a native number, and a set is
-- well-formed (IsCpuSet) if it has sixteen words below 2^64.
--
-- AppOptR/src/config.rs. Config has the grammar of a line (comment_at, spec_like, split_rule_line,
-- parse_outer); Config/Load has add_rule and load_config, the loop over the lines as a function on a
-- record of its locals; Config/Load/Rules has what every loaded rule
-- satisfies, and Config/Load/Names the sets of package names. Config/Lines has what the
-- grammar makes of the lines that the editor writes. Config/Reload has config_reload, and
-- Config/Reload/Inotify the watch on the file and one round of the loader thread (config_loader).
--
-- AppOptR/src/rule_edit.rs. RuleEdit has target_scan, the editor's own reading of the file, with its
-- locals as a record; RuleEdit/Lines the edits of lines, RuleEdit/Ops upsert, delete, delete of a package,
-- rename and file_write, RuleEdit/Clone the cloning of rules. RuleEdit/Scan compares the scan with the
-- loader, RuleEdit/Clone/Append loads the lines of a clone, RuleEdit/Files relates the editor's functions
-- to the file, and RuleEdit/Join reads the file back.
--
-- AppOptR/src/apply_affinity.rs is Proc: what is read of /proc and the affinity of one thread.
-- AppOptR/src/rule_match.rs is RuleMatch: the CPUs that the rules give a thread (RuleMatch/Affinity).
-- AppOptR/src/cache.rs is Cache: the threads that the daemon keeps watch on (Cache/Sticky for task_apply,
-- Cache/Sync for affinity_sync). AppOptR/src/proc_mode.rs is ProcMode: the scan of /proc, with
-- ProcMode/Tracked for its state. AppOptR/src/ebpf_mode.rs is Ebpf: the keys of the whitelist (Ebpf/Keys),
-- the events (Ebpf/Dispatch), the scan (Ebpf/Scan) and the start of the kernel program (Ebpf/Init), with Ebpf/Init/Whitelist for
-- what comm_map_init leaves in the whitelist and whether it fits. appopt-ebpf/src/main.rs is Kernel: the kernel program, with
-- Kernel/Whitelist for its filter against comm_to_pkg of the daemon.
--
-- AppOptR/src/tuning.rs. Tuning has the types of a profile and the tests on names; Tuning/Limits and
-- Tuning/Parse read a profile from JSON (Json has the values of serde_json), Tuning/Valid and Tuning/Unique
-- say what an accepted profile satisfies, Tuning/Clone clones the tuning of an application, and
-- Tuning/Apply has warn_once, effective_thread_tune and what applies them to a thread. Tuning/Print has
-- config_value (children Limit, Fields, Parts and RoundTrip for what is read back), Tuning/Describe the texts
-- of the errors, Tuning/Store the file of the profile and its replacement (Store/Saved), and Tuning/Memory the
-- memory cgroups (Memory/Write for their files and apply_task, with Memory/Inside
-- and Write/Keeps for where is written).
--
-- AppOptR/src/web.rs. Daemon has what the parts share: the statics of all files as the record Globals, the
-- calls of files and of serde_json as DaemonSys, and the replacement of a file (Daemon/Replace). Web has the
-- checks of names, Web/Request reads a request from bytes (Request/Limits), Web/Dispatch has the check of its
-- origin, the table of paths over an interface Api, and the loop of a connection (Dispatch/Guard and
-- Dispatch/Connection), Web/Rules and Web/Cloning the
-- handlers that edit rules (Cloning/Unchanged), Web/Configure the one that changes the settings
-- (Configure/Accepted), Web/Suggest the suggestions (Suggest/Top), and Web/Settings the file of settings
-- (Settings/RoundTrip). Web/Status has the answers to GET and daemon_api, which fills Api with the handlers.
--
-- AppOptR/src/main.rs. Main has the arguments, Main/Start the start up to the loop, Main/State the locals of
-- the loop and the interface Modes, and Main/Loop one round over it; Main/Modes fills it with the functions
-- of both modes. Main/Loop/First has the locals that the loop begins with, Main/Loop/Forced is
-- about a round with /proc forced, and Main/Loop/Caches and Main/Loop/Rounds about the caches over the rounds.
--
-- How the code is modelled. Text is the list of its Unicode scalar values (Prelude/Text), and a cut at
-- a byte position that a search returned is a cut of the list; byte_len counts the bytes of UTF-8, and
-- Prelude/Text/Utf8 has the bytes themselves. State is passed from function to function: the locals of a
-- loop are a record, a loop is a recursion on its list. A hash map whose keys are thread numbers is a list of
-- pairs (Prelude/Assoc) without a repeated key, a hash set a list of which only the members count.
-- Files, system calls, fnmatch of libc, the maps and helpers of the aya crate and the clock are not
-- part of the repository: they are records of functions over a state W (CpusetSys, FileSys, ProcSys,
-- AppliedMap, CommMap, BpfSys, Bpf, SchedSys, CgroupSys, InotifySys, StartSys, LoopSys), and the theorems hold
-- for any such functions, with the hypotheses that they name. `apply_task` and `reapply_thread` of tuning.rs
-- are such parameters of Cache as well.
--
-- Fuel. delete_pkg_loop runs on the number of lines and one, since each of its rounds removes a line.
-- rename_loop runs on fuel that the caller chooses: the source has no bound for its loop, and so do
-- rule_rename_api and daemon_api. In these, none means that the fuel ran out. read_head runs on the number of
-- bytes and one, conn_handle on fuel above the number of bytes, since a request takes at least one (it has no answer only where
-- a handler it reaches has none), and the
-- doublings of next_power_of_two on 64. All other loops are structural.
--
-- Not modelled: the thread that reads the ring buffer (ebpf_reader), the drop of the state of the kernel
-- program, what aya does to load it and to attach one tracepoint, the bytes of a response (resp_send), sockets
-- and their timeouts, and the texts of the errors of the system and of serde_json. The mutexes are modelled by
-- functions that run one at a time. Output to the terminal is left out.
pub mod Prelude
pub mod Cpuset
pub mod Config
pub mod RuleEdit
pub mod Proc
pub mod RuleMatch
pub mod Cache
pub mod ProcMode
pub mod Ebpf
pub mod Kernel
pub mod Json
pub mod Tuning
pub mod Daemon
pub mod Web
pub mod Main
mod Tests
