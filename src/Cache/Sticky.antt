-- ===== src/Cache/Sticky.antt =====
-- AppOptR/src/cache.rs, `task_apply`: lemmas on the entry of its thread and on the others.
use app_opt_r_plus.Prelude.{
  ◌≡◌, refl, Bool, true, false, not, ◌&&◌, ◌||◌, Option, none, some, List, [], ◌∷◌, if◌then◌else◌,
  arith, All, is_some, is_empty, Bool-cases, Option-cases, inl, inr, if_both,
}
use app_opt_r_plus.Prelude.Int.{ℤ, eq_ℤ, eq_ℤ_refl}
use app_opt_r_plus.Prelude.Assoc.{lookup, del, lookup-del, IsMap, put-IsMap, del-IsMap}
use app_opt_r_plus.Prelude.Text.{Text}
use app_opt_r_plus.Cpuset.{CpuSet}
use app_opt_r_plus.Cpuset.Topology.{CpusetSys}
use app_opt_r_plus.Config.Load.{AppConfig}
use app_opt_r_plus.Proc.{ProcSys}
use app_opt_r_plus.RuleMatch.{AffinityResult, thread_affinity}
use app_opt_r_plus.Cache.{
  TaskEntry, ProcCache, task_del, task_apply_from, task_apply, thread_name, entry_of, insert_entry,
  apply_result, keep_or_apply,
}

-- An entry without CPUs has no cpuset directory and is no thread rule's.
abbrev pub entry_ok : TaskEntry → Bool
entry_ok e = is_some e.cpus || (is_empty e.cpuset_dir && not e.is_thread_rule)

-- No thread has two entries, and every entry is as above.
pub record IsCache (c : ProcCache) : Type 0 where
  pub is_map : IsMap c.tasks
  pub entries : All (λ e. entry_ok e.1 ≡ true) c.tasks

lookup-entry_ok :
    (tid : ℤ) (m : List (ℤ × TaskEntry)) {e : TaskEntry}
    → All (λ e. entry_ok e.1 ≡ true) m
    → lookup tid m ≡ some e
    → entry_ok e ≡ true
lookup-entry_ok tid [] h q = absurd (cc q)
lookup-entry_ok tid ((j, a) ∷ m) {e} h q = elim (Bool-cases (eq_ℤ j tid)) [
  | inl t ↦ let i : a ≡ e = ground (arith, q, t) in rw (← i, h.0) refl
  | inr t ↦ lookup-entry_ok tid m {e = e} h.1 (ground (arith, q, t))
]

del-entry_ok :
    (tid : ℤ) (m : List (ℤ × TaskEntry))
    → All (λ e. entry_ok e.1 ≡ true) m
    → All (λ e. entry_ok e.1 ≡ true) (del tid m)
del-entry_ok tid [] h = tt
del-entry_ok tid ((j, a) ∷ m) h =
    if_both (λ (l : List (ℤ × TaskEntry)). All (λ e. entry_ok e.1 ≡ true) l) (eq_ℤ j tid)
      (del-entry_ok tid m h.1) (h.0, del-entry_ok tid m h.1)

pub task_del-IsCache : (tid : ℤ) (c : ProcCache) → IsCache c → IsCache (task_del tid c)
unfolding task_del
task_del-IsCache tid c v = record {
  is_map = del-IsMap tid c.tasks v.is_map;
  entries = del-entry_ok tid c.tasks v.entries;
}

-- The CPUs of the new entry, and whether it is a thread rule's.
abbrev pub next_cpus : Option AffinityResult → Option TaskEntry → Option CpuSet
next_cpus none old = none
next_cpus (some r) none = some r.cpus
next_cpus (some r) (some old) =
    if not r.is_thread_rule && old.is_thread_rule then old.cpus else some r.cpus

abbrev pub next_is_thread_rule : Option AffinityResult → Option TaskEntry → Bool
next_is_thread_rule none old = false
next_is_thread_rule (some r) none = r.is_thread_rule
next_is_thread_rule (some r) (some old) = r.is_thread_rule || old.is_thread_rule

-- The entry of the thread is of this process, package and name, with those CPUs and that mark.
pub record IsEntryOf (pid : ℤ) (pkg name : Text) (cpus : Option CpuSet) (thread_rule : Bool)
    (o : Option TaskEntry) : Type 0 where
  pub entry : TaskEntry
  pub found : o ≡ some entry
  pub of_pid : entry.pid ≡ pid
  pub of_pkg : entry.pkg ≡ pkg
  pub of_comm : entry.comm ≡ name
  pub of_cpus : entry.cpus ≡ cpus
  pub of_rule : entry.is_thread_rule ≡ thread_rule

module _ {W : Type 0} (apply_fn : ℤ → CpuSet → Text → W → Bool × W) (tid pid : ℤ)
    (pkg name : Text) where
  abbrev Made : Option CpuSet → Bool → Bool × (ProcCache × W) → Type 0
  Made cpus rule (ok, (c, w)) = ok ≡ true → IsEntryOf pid pkg name cpus rule (lookup tid c.tasks)

  inserted :
      (cpus : Option CpuSet) (dir : Text) (rule : Bool) (c : ProcCache)
      → IsEntryOf pid pkg name cpus rule
          (lookup tid (insert_entry apply_fn tid pid pkg name cpus dir rule c).tasks)
  inserted cpus dir rule c = record {
    entry = entry_of apply_fn tid pid pkg name cpus dir rule;
    found = rw (eq_ℤ_refl tid) refl;
    of_pid = refl;
    of_pkg = refl;
    of_comm = refl;
    of_cpus = refl;
    of_rule = refl;
  }

  apply_result-Made :
      (r : AffinityResult) (c : ProcCache) (w : W)
      → Made (some r.cpus) r.is_thread_rule (apply_result apply_fn tid pid pkg name r c w)
  apply_result-Made r c w =
      if_both (Made (some r.cpus) r.is_thread_rule) (apply_fn tid r.cpus r.cpuset_dir w).0
        (λ h. absurd (cc h)) (λ h. inserted (some r.cpus) r.cpuset_dir r.is_thread_rule c)

  keep_or_apply-Made :
      (r : AffinityResult) (old : Option TaskEntry) (c : ProcCache) (w : W)
      → Made
          (next_cpus (some r) old)
          (next_is_thread_rule (some r) old)
          (keep_or_apply apply_fn tid pid pkg name r old c w)
  keep_or_apply-Made r none c w = apply_result-Made r c w
  keep_or_apply-Made r (some old) c w =
      elim (Bool-cases (not r.is_thread_rule && old.is_thread_rule)) [
        | inl q ↦
            let e : (r.is_thread_rule || old.is_thread_rule) ≡ old.is_thread_rule =
              ground (arith, q) in
            rw (q, e, if◌then◌else◌) (λ h. inserted old.cpus old.cpuset_dir old.is_thread_rule c)
        | inr q ↦
            let e : (r.is_thread_rule || old.is_thread_rule) ≡ r.is_thread_rule =
              ground (arith, q) in
            rw (q, e, if◌then◌else◌) (apply_result-Made r c w)
      ]

  from-entry :
      (a : Option AffinityResult) (tuned : Bool) (c : ProcCache) (w : W)
      → (task_apply_from apply_fn tid pid pkg name a tuned c w).0 ≡ true
      → IsEntryOf pid pkg name
          (next_cpus a (lookup tid c.tasks))
          (next_is_thread_rule a (lookup tid c.tasks))
          (lookup tid (task_apply_from apply_fn tid pid pkg name a tuned c w).1.0.tasks)
  unfolding task_apply_from
  from-entry none false c w h = absurd (cc h)
  from-entry none true c w h = inserted none [] false c
  from-entry (some r) tuned c w h = keep_or_apply-Made r (lookup tid c.tasks) c w h

  insert-IsCache :
      (cpus : Option CpuSet) (dir : Text) (rule : Bool) (c : ProcCache)
      → IsCache c
      → entry_ok (entry_of apply_fn tid pid pkg name cpus dir rule) ≡ true
      → IsCache (insert_entry apply_fn tid pid pkg name cpus dir rule c)
  insert-IsCache cpus dir rule c v ok = record {
    is_map = put-IsMap tid (entry_of apply_fn tid pid pkg name cpus dir rule) c.tasks v.is_map;
    entries = (ok, del-entry_ok tid c.tasks v.entries);
  }

  apply_result-IsCache :
      (r : AffinityResult) (c : ProcCache) (w : W)
      → IsCache c
      → IsCache (apply_result apply_fn tid pid pkg name r c w).1.0
  apply_result-IsCache r c w v =
      if_both (λ (x : Bool × (ProcCache × W)). IsCache x.1.0) (apply_fn tid r.cpus r.cpuset_dir w).0
        (task_del-IsCache tid c v)
        (insert-IsCache (some r.cpus) r.cpuset_dir r.is_thread_rule c v refl)

  keep_or_apply-IsCache :
      (r : AffinityResult) (o : Option TaskEntry) (c : ProcCache) (w : W)
      → lookup tid c.tasks ≡ o
      → IsCache c
      → IsCache (keep_or_apply apply_fn tid pid pkg name r o c w).1.0
  keep_or_apply-IsCache r none c w q v = apply_result-IsCache r c w v
  keep_or_apply-IsCache r (some old) c w q v =
      if_both (λ (x : Bool × (ProcCache × W)). IsCache x.1.0)
        (not r.is_thread_rule && old.is_thread_rule)
        (insert-IsCache old.cpus old.cpuset_dir old.is_thread_rule c v
          (lookup-entry_ok tid c.tasks v.entries q))
        (apply_result-IsCache r c w v)

  from-IsCache :
      (a : Option AffinityResult) (tuned : Bool) (c : ProcCache) (w : W)
      → IsCache c
      → IsCache (task_apply_from apply_fn tid pid pkg name a tuned c w).1.0
  unfolding task_apply_from
  from-IsCache none false c w v = v
  from-IsCache none true c w v = insert-IsCache none [] false c v refl
  from-IsCache (some r) tuned c w v = keep_or_apply-IsCache r (lookup tid c.tasks) c w refl v

  -- No thread is found dead.
  abbrev Alive : Type 0
  Alive = (t : ℤ) (cpus : CpuSet) (dir : Text) (w : W) → (apply_fn t cpus dir w).0 ≡ false

  keep_or_apply-alive :
      (r : AffinityResult) (o : Option TaskEntry) (c : ProcCache) (w : W)
      → Alive
      → (keep_or_apply apply_fn tid pid pkg name r o c w).0 ≡ true
  keep_or_apply-alive r none c w h = ground (arith, h tid r.cpus r.cpuset_dir w)
  keep_or_apply-alive r (some old) c w h = ground (arith, h tid r.cpus r.cpuset_dir w)

  from-alive :
      (a : Option AffinityResult) (tuned : Bool) (c : ProcCache) (w : W)
      → Alive
      → (task_apply_from apply_fn tid pid pkg name a tuned c w).0 ≡ (is_some a || tuned)
  unfolding task_apply_from
  from-alive none tuned c w h = ground arith
  from-alive (some r) tuned c w h = keep_or_apply-alive r (lookup tid c.tasks) c w h

  from-other :
      (a : Option AffinityResult) (tuned : Bool) (c : ProcCache) (w : W) (j : ℤ)
      → eq_ℤ tid j ≡ false
      → lookup j (task_apply_from apply_fn tid pid pkg name a tuned c w).1.0.tasks
        ≡ lookup j c.tasks
  unfolding task_apply_from
  from-other none tuned c w j n = ground (arith, n, lookup-del j tid c.tasks)
  from-other (some r) tuned c w j n = elim (Option-cases (lookup tid c.tasks)) [
    | inl q ↦ ground (arith, q, n, lookup-del j tid c.tasks)
    | inr (old, q) ↦ ground (arith, q, n, lookup-del j tid c.tasks)
  ]

module _ {W : Type 0} (fnmatch : Text → Text → Bool) (csys : CpusetSys W) (sys : ProcSys W)
    (base : Option Text) (apply_task : ℤ → ℤ → Text → Text → W → Bool × W)
    (reapply_thread : ℤ → Text → Text → W → W) (apply_fn : ℤ → CpuSet → Text → W → Bool × W)
    (tid pid : ℤ) (pkg comm : Text) (cfg : AppConfig) (c : ProcCache) (w : W) where
  abbrev pub answer : Option AffinityResult
  answer = (thread_affinity fnmatch csys base pkg (thread_name cfg pkg comm) cfg w).0

  abbrev pub applied : Bool × (ProcCache × W)
  applied =
      task_apply fnmatch csys sys base apply_task reapply_thread apply_fn tid pid pkg comm cfg c w

  -- When `task_apply` answers true, the entry of the thread is of this process, package and thread
  -- name. Its CPUs are those of the rules that apply now, except where these are only the package's
  -- and the entry was a thread rule's: then the entry keeps its CPUs and stays a thread rule's.
  pub task_apply-entry :
      applied.0 ≡ true
      → IsEntryOf pid pkg
          (thread_name cfg pkg comm)
          (next_cpus answer (lookup tid c.tasks))
          (next_is_thread_rule answer (lookup tid c.tasks))
          (lookup tid applied.1.0.tasks)
  unfolding task_apply
  task_apply-entry h = from-entry apply_fn tid pid pkg (thread_name cfg pkg comm) answer _ c _ h

  abbrev pub is_tuned : Bool
  is_tuned =
      let name = thread_name cfg pkg comm in
      (apply_task tid pid pkg name (thread_affinity fnmatch csys base pkg name cfg w).1).0

  -- If the closure finds no thread dead, `task_apply` answers true exactly when a rule gives the thread
  -- CPUs or a tuning profile is about it.
  pub task_apply-alive :
      ((t : ℤ) (cpus : CpuSet) (dir : Text) (v : W) → (apply_fn t cpus dir v).0 ≡ false)
      → applied.0 ≡ (is_some answer || is_tuned)
  unfolding task_apply
  task_apply-alive h =
      from-alive apply_fn tid pid pkg (thread_name cfg pkg comm) answer is_tuned c _ h

  -- `task_apply` changes the entry of no other thread.
  pub task_apply-other :
      (j : ℤ) → eq_ℤ tid j ≡ false → lookup j applied.1.0.tasks ≡ lookup j c.tasks
  unfolding task_apply
  task_apply-other j n = from-other apply_fn tid pid pkg (thread_name cfg pkg comm) answer _ c _ j n

  -- `task_apply` keeps the map a map, and every entry without CPUs one without a cpuset directory
  -- that no thread rule made.
  pub task_apply-IsCache : IsCache c → IsCache applied.1.0
  unfolding task_apply
  task_apply-IsCache v = from-IsCache apply_fn tid pid pkg (thread_name cfg pkg comm) answer _ c _ v
