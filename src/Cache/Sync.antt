-- ===== src/Cache/Sync.antt =====
-- AppOptR/src/cache.rs: lemmas on `affinity_sync`.
use app_opt_r_plus.Prelude.{
  ◌≡◌, refl, ◌∙◌, Bool, true, false, not, ◌&&◌, Option, none, List, [], ◌∷◌, if◌then◌else◌, arith,
  is_some, Bool-cases, inl, inr,
}
use app_opt_r_plus.Prelude.Int.{ℤ, eq_ℤ}
use app_opt_r_plus.Prelude.Assoc.{lookup, del, lookup-del, mem_ℤ}
use app_opt_r_plus.Prelude.Text.{Text}
use app_opt_r_plus.Cpuset.Topology.{CpuTopology, CpusetSys}
use app_opt_r_plus.Proc.{ProcSys}
use app_opt_r_plus.Cache.{
  TaskEntry, ProcCache, task_del, sync_entry, sync_loop, del_all, affinity_sync,
}
use app_opt_r_plus.Cache.Sticky.{IsCache, task_del-IsCache}

lookup-del_all :
    (tids : List ℤ) (c : ProcCache) (j : ℤ)
    → lookup j (del_all tids c).tasks ≡ (if mem_ℤ j tids then none else lookup j c.tasks)
unfolding del_all task_del
lookup-del_all [] c j = refl
lookup-del_all (t ∷ tids) c j =
    lookup-del_all tids (record { tasks = del t c.tasks }) j
    ∙ ground (arith, lookup-del j t c.tasks)

del_all-IsCache : (tids : List ℤ) (c : ProcCache) → IsCache c → IsCache (del_all tids c)
unfolding del_all
del_all-IsCache [] c v = v
del_all-IsCache (t ∷ tids) c v = del_all-IsCache tids (task_del t c) (task_del-IsCache t c v)

module _ {W : Type 0} (fnmatch : Text → Text → Bool) (csys : CpusetSys W) (sys : ProcSys W)
    (base : Option Text) (apply_task : ℤ → ℤ → Text → Text → W → Bool × W)
    (reapply_thread : ℤ → Text → Text → W → W) (topo : CpuTopology) where
  -- Only threads of the map are found dead.
  sync_loop-keys :
      (es : List (ℤ × TaskEntry)) (w : W) (j : ℤ)
      → mem_ℤ j (sync_loop fnmatch csys sys base apply_task reapply_thread topo es w).0 ≡ true
      → is_some (lookup j es) ≡ true
  unfolding sync_loop
  sync_loop-keys [] w j h = h
  sync_loop-keys ((tid, e) ∷ es) w j h = elim (Bool-cases (eq_ℤ tid j)) [
    | inl q ↦ rw (q, if◌then◌else◌) refl
    | inr q ↦
        rw (q, if◌then◌else◌)
          (sync_loop-keys es
            (sync_entry fnmatch csys sys base apply_task reapply_thread topo tid e w).1 j
            (ground (arith, h, q)))
  ]

  -- `affinity_sync` drops the entries of exactly the threads that it returns, keeps every other
  -- entry as it was, and keeps the cache well-formed. The threads it returns had an entry.
  pub affinity_sync-lookup :
      (c : ProcCache) (w : W) (j : ℤ)
      → IsCache c
      → (let r = affinity_sync fnmatch csys sys base apply_task reapply_thread topo c w in
          (lookup j r.1.0.tasks ≡ (if mem_ℤ j r.0 then none else lookup j c.tasks))
          × IsCache r.1.0
          × ((mem_ℤ j r.0 && not (is_some (lookup j c.tasks))) ≡ false))
  unfolding affinity_sync
  affinity_sync-lookup c w j v =
      let (tids, w') = sync_loop fnmatch csys sys base apply_task reapply_thread topo c.tasks w in
      (
        lookup-del_all tids c j,
        del_all-IsCache tids c v,
        ground (arith, sync_loop-keys c.tasks w j),
      )
