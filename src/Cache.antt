-- ===== src/Cache.antt =====
-- AppOptR/src/cache.rs: `ProcCache`, the threads that the daemon keeps watch on. The map is a list
-- without two entries of one thread. `apply_task` and `reapply_thread` of tuning.rs are parameters
-- over the state `W`, and so are the system calls.
pub mod Sticky
pub mod Sync
use app_opt_r_plus.Prelude.{
  ℕ, Bool, true, false, not, ◌&&◌, ◌||◌, Option, none, some, List, [], ◌∷◌, ◌==◌, if◌then◌else◌,
  is_none, is_some,
}
use app_opt_r_plus.Prelude.Int.{ℤ}
use app_opt_r_plus.Prelude.Assoc.{lookup, del, put}
use app_opt_r_plus.Prelude.Text.{Text, member}
use app_opt_r_plus.Cpuset.{CpuSet}
use app_opt_r_plus.Cpuset.Topology.{CpuTopology, CpusetSys}
use app_opt_r_plus.Config.Load.{AppConfig}
use app_opt_r_plus.Proc.{ProcSys, affinity_set, eperm}
use app_opt_r_plus.RuleMatch.{AffinityResult, thread_affinity, comm_to_pkg}

pub record TaskEntry : Type 0 where
  pub pid : ℤ
  pub pkg : Text
  pub comm : Text
  pub cpus : Option CpuSet
  pub cpuset_dir : Text
  pub is_thread_rule : Bool

pub record ProcCache : Type 0 where
  pub tasks : List (ℤ × TaskEntry)

unfoldable pub new : ProcCache
new = record { tasks = [] }

unfoldable pub clear : ProcCache → ProcCache
clear c = record { tasks = [] }

unfoldable pub task_del : ℤ → ProcCache → ProcCache
task_del tid c = record { tasks = del tid c.tasks }

unfoldable pub del_all : List ℤ → ProcCache → ProcCache
del_all [] c = c
del_all (tid ∷ tids) c = del_all tids (task_del tid c)

abbrev or_else : Option Text → Option Text → Option Text
or_else none b = b
or_else (some a) b = some a

abbrev pkg_of : Option TaskEntry → Option Text
pkg_of none = none
pkg_of (some e) = some e.pkg

unfoldable pub pkg_lookup_comm :
    {W : Type 0} → ProcSys W → ℤ → Text → AppConfig → ProcCache → W → Option Text
pkg_lookup_comm sys pid comm cfg c w =
    or_else (comm_to_pkg sys pid comm cfg w) (pkg_of (lookup pid c.tasks))

-- The thread name that counts: none for a package without thread rules.
abbrev pub thread_name : AppConfig → Text → Text → Text
thread_name cfg pkg comm = if member pkg cfg.has_thread_rules then comm else []

abbrev pub is_thread_entry : Option TaskEntry → Bool
is_thread_entry none = false
is_thread_entry (some e) = e.is_thread_rule

-- `task_apply` from what `thread_affinity` and `tuning::apply_task` answer on.
module _ {W : Type 0} (apply_fn : ℤ → CpuSet → Text → W → Bool × W) (tid pid : ℤ)
    (pkg name : Text) where
  abbrev pub entry_of : Option CpuSet → Text → Bool → TaskEntry
  entry_of cpus dir thread_rule = record {
    pid = pid;
    pkg = pkg;
    comm = name;
    cpus = cpus;
    cpuset_dir = dir;
    is_thread_rule = thread_rule;
  }

  abbrev pub insert_entry : Option CpuSet → Text → Bool → ProcCache → ProcCache
  insert_entry cpus dir thread_rule c = record {
    tasks = put tid (entry_of cpus dir thread_rule) c.tasks;
  }

  -- The branch in which the closure is called.
  abbrev pub apply_result : AffinityResult → ProcCache → W → Bool × (ProcCache × W)
  apply_result r c w =
      let (dead, w') = apply_fn tid r.cpus r.cpuset_dir w in
      if dead
      then (false, (task_del tid c, w'))
      else (true, (insert_entry (some r.cpus) r.cpuset_dir r.is_thread_rule c, w'))

  abbrev pub keep_or_apply :
      AffinityResult → Option TaskEntry → ProcCache → W → Bool × (ProcCache × W)
  keep_or_apply r none c w = apply_result r c w
  keep_or_apply r (some old) c w =
      if not r.is_thread_rule && old.is_thread_rule
      then (true, (insert_entry old.cpus old.cpuset_dir old.is_thread_rule c, w))
      else apply_result r c w

  unfoldable pub task_apply_from :
      Option AffinityResult → Bool → ProcCache → W → Bool × (ProcCache × W)
  unfolding task_del
  task_apply_from none tuned c w =
      if not tuned then (false, (c, w)) else (true, (insert_entry none [] false c, w))
  task_apply_from (some r) tuned c w = keep_or_apply r (lookup tid c.tasks) c w

module _ {W : Type 0} (fnmatch : Text → Text → Bool) (csys : CpusetSys W) (sys : ProcSys W)
    (base : Option Text) (apply_task : ℤ → ℤ → Text → Text → W → Bool × W)
    (reapply_thread : ℤ → Text → Text → W → W) where
  unfoldable pub task_apply :
      (ℤ → CpuSet → Text → W → Bool × W)
      → ℤ
      → ℤ
      → Text
      → Text
      → AppConfig
      → ProcCache
      → W
      → Bool × (ProcCache × W)
  task_apply apply_fn tid pid pkg comm cfg c w =
      let name = thread_name cfg pkg comm in
      let (affinity, w₁) = thread_affinity fnmatch csys base pkg name cfg w in
      let (tuned, w₂) = apply_task tid pid pkg name w₁ in
      task_apply_from apply_fn tid pid pkg name affinity tuned c w₂

  abbrev pub is_alive : Option ℕ → Bool
  is_alive none = true
  is_alive (some errno) = errno == eperm

  -- Whether the entry is found dead.
  unfoldable pub sync_entry : CpuTopology → ℤ → TaskEntry → W → Bool × W
  sync_entry topo tid e w =
      let w' = reapply_thread tid e.pkg e.comm w in
      elim e.cpus [
        | some cpus ↦ affinity_set sys base topo tid cpus e.cpuset_dir w'
        | none ↦ (not (is_alive (sys.kill_zero tid w')), w')
      ]

  -- `filter_map` over the map.
  unfoldable pub sync_loop : CpuTopology → List (ℤ × TaskEntry) → W → List ℤ × W
  sync_loop topo [] w = ([], w)
  sync_loop topo ((tid, e) ∷ es) w =
      let (dead, w₁) = sync_entry topo tid e w in
      let (tids, w₂) = sync_loop topo es w₁ in (if dead then tid ∷ tids else tids, w₂)

  unfoldable pub affinity_sync : CpuTopology → ProcCache → W → List ℤ × (ProcCache × W)
  affinity_sync topo c w =
      let (dead_tids, w') = sync_loop topo c.tasks w in (dead_tids, (del_all dead_tids c, w'))
