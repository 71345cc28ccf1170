-- ===== src/RuleMatch/Affinity.antt =====
-- AppOptR/src/rule_match.rs: `thread_affinity` against the rules that match.
use app_opt_r_plus.Prelude.{
  ℕ, ◌≡◌, ◌≢◌, refl, sym, ◌∙◌, Bool, true, false, not, ◌&&◌, ◌||◌, Option, none, some, List, [],
  ◌∷◌, ◌==◌, if◌then◌else◌, is_empty, is_some, any, arith, All, Bool-cases, inl, inr, ==_iff,
  if_cases, if_both,
}
use app_opt_r_plus.Prelude.Text.{Text, member}
use app_opt_r_plus.Cpuset.{CpuSet, new, or, count, is_set, IsCpuSet}
use app_opt_r_plus.Cpuset.Members.{is_set-or, is_set-new}
use app_opt_r_plus.Cpuset.Whole.{or-IsCpuSet, new-IsCpuSet, is_set_of_count-zero, count-zero}
use app_opt_r_plus.Cpuset.Topology.{CpuTopology, CpusetSys, ensure_cpuset_dir}
use app_opt_r_plus.Cpuset.Spec.{IsTopology, parse_cpu_spec-IsCpuSet}
use app_opt_r_plus.Config.Load.{AffinityRule, AppConfig}
use app_opt_r_plus.Config.Load.Rules.{IsRule}
use app_opt_r_plus.RuleMatch.{
  AffinityResult, thread_rule_matches, package_rule_matches, thread_loop, Fallback, fallback_loop,
  add_fallback, matched_by, thread_affinity, affinity_from,
}

-- A set of sixteen words with some CPU in it.
abbrev HasCpu : AffinityRule → Type 0
HasCpu r = IsCpuSet r.cpus × (count r.cpus ≢ 0)

rule-HasCpu :
    (topo : CpuTopology) (rs : List AffinityRule)
    → IsTopology topo
    → All (IsRule topo) rs
    → All HasCpu rs
rule-HasCpu topo [] v h = tt
rule-HasCpu topo (r ∷ rs) v h =
    let (s, like, e) = h.0.spec in
    ((rw e (parse_cpu_spec-IsCpuSet s topo v), h.0.some_cpu), rule-HasCpu topo rs v h.1)

-- The CPUs of the rules that pass a test.
abbrev pub cpus_of_rules : (AffinityRule → Bool) → List AffinityRule → ℕ → Bool
cpus_of_rules p rs d = any (λ r. p r && is_set r.cpus d) rs

some_cpu_of_any :
    (p : AffinityRule → Bool) (rs : List AffinityRule)
    → All HasCpu rs
    → any p rs ≡ true
    → ((d : ℕ) → cpus_of_rules p rs d ≡ false)
    → ⊥
some_cpu_of_any p [] v h e = cc
some_cpu_of_any p (r ∷ rs) v h e = elim (Bool-cases (p r)) [
  | inl q ↦ v.0.1 (count-zero r.cpus v.0.0 (λ d. ground (arith, e d)))
  | inr q ↦ some_cpu_of_any p rs v.1 (ground arith) (λ d. ground (arith, e d))
]

module _ (fnmatch : Text → Text → Bool) (pkg thread : Text) where
  -- A thread rule of the package whose pattern matches the thread, if its name is known.
  abbrev pub thread_hit : AffinityRule → Bool
  thread_hit r = not (is_empty thread) && thread_rule_matches fnmatch pkg thread r

  thread_loop-IsCpuSet :
      (rs : List AffinityRule) (s : CpuSet) (m : Bool)
      → All HasCpu rs
      → IsCpuSet s
      → IsCpuSet (thread_loop fnmatch pkg thread rs (s, m)).0
  unfolding thread_loop
  thread_loop-IsCpuSet [] s m v h = h
  thread_loop-IsCpuSet (r ∷ rs) s m v h =
      if_both (λ (x : CpuSet × Bool). IsCpuSet (thread_loop fnmatch pkg thread rs x).0)
        (thread_rule_matches fnmatch pkg thread r)
        (thread_loop-IsCpuSet rs (or s r.cpus) true v.1 (or-IsCpuSet h v.0.0))
        (thread_loop-IsCpuSet rs s m v.1 h)

  thread_loop-cpus :
      (rs : List AffinityRule) (s : CpuSet) (m : Bool) (d : ℕ)
      → All HasCpu rs
      → IsCpuSet s
      → is_set (thread_loop fnmatch pkg thread rs (s, m)).0 d
        ≡ (is_set s d || cpus_of_rules (thread_rule_matches fnmatch pkg thread) rs d)
  unfolding thread_loop
  thread_loop-cpus [] s m d v h = ground arith
  thread_loop-cpus (r ∷ rs) s m d v h =
      elim (Bool-cases (thread_rule_matches fnmatch pkg thread r)) [
        | inl q ↦ ground (
          arith,
          q,
          thread_loop-cpus rs (or s r.cpus) true d v.1 (or-IsCpuSet h v.0.0),
          is_set-or s r.cpus d h v.0.0,
        )
        | inr q ↦ ground (arith, q, thread_loop-cpus rs s m d v.1 h)
      ]

  thread_loop-matched :
      (rs : List AffinityRule) (s : CpuSet) (m : Bool)
      → (thread_loop fnmatch pkg thread rs (s, m)).1
        ≡ (m || any (thread_rule_matches fnmatch pkg thread) rs)
  unfolding thread_loop
  thread_loop-matched [] s m = ground arith
  thread_loop-matched (r ∷ rs) s m = elim (Bool-cases (thread_rule_matches fnmatch pkg thread r)) [
    | inl q ↦ ground (arith, q, thread_loop-matched rs (or s r.cpus) true)
    | inr q ↦ ground (arith, q, thread_loop-matched rs s m)
  ]

fallback_loop-IsCpuSet :
    (pkg : Text) (rs : List AffinityRule) (f : Fallback)
    → All HasCpu rs
    → IsCpuSet f.cpus
    → IsCpuSet (fallback_loop pkg rs f).cpus
unfolding fallback_loop
fallback_loop-IsCpuSet pkg [] f v h = h
fallback_loop-IsCpuSet pkg (r ∷ rs) f v h =
    if_both (λ (x : Fallback). IsCpuSet (fallback_loop pkg rs x).cpus) (package_rule_matches pkg r)
      (fallback_loop-IsCpuSet pkg rs (add_fallback r f) v.1 (or-IsCpuSet h v.0.0))
      (fallback_loop-IsCpuSet pkg rs f v.1 h)

fallback_loop-cpus :
    (pkg : Text) (rs : List AffinityRule) (f : Fallback) (d : ℕ)
    → All HasCpu rs
    → IsCpuSet f.cpus
    → is_set (fallback_loop pkg rs f).cpus d
      ≡ (is_set f.cpus d || cpus_of_rules (package_rule_matches pkg) rs d)
unfolding fallback_loop
fallback_loop-cpus pkg [] f d v h = ground arith
fallback_loop-cpus pkg (r ∷ rs) f d v h =
    if_cases
      (λ (x : Fallback).
        is_set (fallback_loop pkg rs x).cpus d
        ≡ (is_set f.cpus d || cpus_of_rules (package_rule_matches pkg) (r ∷ rs) d))
      (package_rule_matches pkg r)
      (λ q.
        fallback_loop-cpus pkg rs (add_fallback r f) d v.1 (or-IsCpuSet h v.0.0)
        ∙ ground (arith, q, is_set-or f.cpus r.cpus d h v.0.0))
      (λ q. fallback_loop-cpus pkg rs f d v.1 h ∙ ground (arith, q))

-- The directory: that of the only matching rule; none if there are several.
fallback_loop-seen :
    (pkg : Text) (rs : List AffinityRule) (f : Fallback)
    → f.fallback_seen ≡ true
    → (fallback_loop pkg rs f).cpuset_dir
      ≡ (if any (package_rule_matches pkg) rs then [] else f.cpuset_dir)
unfolding fallback_loop
fallback_loop-seen pkg [] f h = refl
fallback_loop-seen pkg (r ∷ rs) f h =
    if_cases
      (λ (x : Fallback).
        (fallback_loop pkg rs x).cpuset_dir
        ≡ (if any (package_rule_matches pkg) (r ∷ rs) then [] else f.cpuset_dir))
      (package_rule_matches pkg r)
      (λ q. fallback_loop-seen pkg rs (add_fallback r f) refl ∙ ground (arith, q))
      (λ q. fallback_loop-seen pkg rs f h ∙ ground (arith, q))

-- The rules that decide: the thread rules that match, or else the package's own rules.
module _ (fnmatch : Text → Text → Bool) (pkg thread : Text) (cfg : AppConfig) where
  abbrev pub hit : Bool
  hit = any (thread_hit fnmatch pkg thread) cfg.rules

  abbrev pub has_fallback : Bool
  has_fallback = any (package_rule_matches pkg) cfg.rules

  abbrev pub chosen : AffinityRule → Bool
  chosen r = if hit then thread_hit fnmatch pkg thread r else package_rule_matches pkg r

any_none : {A : Type 0} (p : A → Bool) (xs : List A) → ((x : A) → p x ≡ false) → any p xs ≡ false
any_none p [] h = refl
any_none p (x ∷ xs) h = ground (arith, h x, any_none p xs h)

none_of_any :
    (p : AffinityRule → Bool) (rs : List AffinityRule) (d : ℕ)
    → any p rs ≡ false
    → cpus_of_rules p rs d ≡ false
none_of_any p [] d h = refl
none_of_any p (r ∷ rs) d h = ground (arith, none_of_any p rs d)

count_zero_test :
    (p : AffinityRule → Bool) (rs : List AffinityRule) (s : CpuSet)
    → All HasCpu rs
    → IsCpuSet s
    → ((d : ℕ) → is_set s d ≡ cpus_of_rules p rs d)
    → (count s == 0) ≡ not (any p rs)
count_zero_test p rs s v h e = elim (Bool-cases (any p rs)) [
  | inl q ↦ elim (Bool-cases (count s == 0)) [
    | inl z ↦ absurd (
        some_cpu_of_any p rs v q
          (λ d. sym (e d) ∙ is_set_of_count-zero s d h ((==_iff (count s) 0).0 z)))
    | inr z ↦ ground (arith, q, z)
  ]
  | inr q ↦
      let z : count s ≡ 0 = count-zero s h (λ d. e d ∙ none_of_any p rs d q) in ground (arith, q, z)
]

module _ (fnmatch : Text → Text → Bool) (pkg thread : Text) (cfg : AppConfig)
    (v : All HasCpu cfg.rules) where
  matched_by-lem :
      IsCpuSet (matched_by fnmatch pkg thread cfg).0
      × ((d : ℕ)
          → is_set (matched_by fnmatch pkg thread cfg).0 d
            ≡ cpus_of_rules (thread_hit fnmatch pkg thread) cfg.rules d)
      × ((matched_by fnmatch pkg thread cfg).1 ≡ hit fnmatch pkg thread cfg)
  matched_by-lem = elim (Bool-cases (is_empty thread)) [
    | inl e ↦
        rw (e, if◌then◌else◌, not, ◌&&◌)
          (
            new-IsCpuSet,
            λ d.
                is_set-new d ∙ sym (any_none (λ r. false && is_set r.cpus d) cfg.rules (λ r. refl)),
            sym (any_none (thread_hit fnmatch pkg thread) cfg.rules (λ r. ground (arith, e))),
          )
    | inr e ↦
        rw (hit, thread_hit, e, if◌then◌else◌, not, ◌&&◌)
          (
            thread_loop-IsCpuSet fnmatch pkg thread cfg.rules new false v new-IsCpuSet,
            λ d.
                thread_loop-cpus fnmatch pkg thread cfg.rules new false d v new-IsCpuSet
                ∙ ground (arith, is_set-new d),
            thread_loop-matched fnmatch pkg thread cfg.rules new false,
          )
  ]

module _ {W : Type 0} (fnmatch : Text → Text → Bool) (sys : CpusetSys W) (base : Option Text)
    (pkg thread : Text) (cfg : AppConfig) (w : W) (valid : IsTopology cfg.topo)
    (rules : All (IsRule cfg.topo) cfg.rules) where
  abbrev present_result : Option AffinityResult
  present_result =
      if member pkg cfg.has_thread_rules
      then some (record { cpus = cfg.topo.present_cpus; cpuset_dir = []; is_thread_rule = false })
      else none

  -- The answer in terms of a set of CPUs that are those of the chosen rules.
  abbrev Answer : Option AffinityResult → Type 0
  Answer o =
      (s : CpuSet) × (dir : Text) × ((d : ℕ)
        → is_set s d ≡ cpus_of_rules (chosen fnmatch pkg thread cfg) cfg.rules d)
      × (o ≡ (
          if hit fnmatch pkg thread cfg || has_fallback fnmatch pkg thread cfg
          then some
              (record { cpus = s; cpuset_dir = dir; is_thread_rule = hit fnmatch pkg thread cfg })
          else present_result))

  affinity_from-Answer :
      (s : CpuSet) (m : Bool)
      → IsCpuSet s
      → ((d : ℕ) → is_set s d ≡ cpus_of_rules (thread_hit fnmatch pkg thread) cfg.rules d)
      → m ≡ hit fnmatch pkg thread cfg
      → All HasCpu cfg.rules
      → Answer (affinity_from sys base pkg cfg w (s, m)).0
  affinity_from-Answer s true ok mem m v =
      let z = count_zero_test (thread_hit fnmatch pkg thread) cfg.rules s v ok mem in
      (
        s,
        (ensure_cpuset_dir sys base s cfg.topo w).0,
        λ d. mem d ∙ ground (arith, m),
        ground (arith, m, z),
      )
  affinity_from-Answer s false ok mem m v =
      let start : Fallback = record { cpus = s; cpuset_dir = []; fallback_seen = false } in
      let f = fallback_loop pkg cfg.rules start in
      let e : (d : ℕ) → is_set f.cpus d ≡ cpus_of_rules (package_rule_matches pkg) cfg.rules d =
        λ d.
          fallback_loop-cpus pkg cfg.rules start d v ok
          ∙ ground
              (arith, mem d, none_of_any (thread_hit fnmatch pkg thread) cfg.rules d (sym m)) in
      let z =
        count_zero_test (package_rule_matches pkg) cfg.rules f.cpus v
          (fallback_loop-IsCpuSet pkg cfg.rules start v ok) e in
      (f.cpus, f.cpuset_dir, λ d. e d ∙ ground (arith, m), ground (arith, m, z))

  thread_affinity-Answer : Answer (thread_affinity fnmatch sys base pkg thread cfg w).0
  unfolding thread_affinity
  thread_affinity-Answer =
      let v = rule-HasCpu cfg.topo cfg.rules valid rules in
      let (ok, mem, m) = matched_by-lem fnmatch pkg thread cfg v in
      let (s, b) = matched_by fnmatch pkg thread cfg in affinity_from-Answer s b ok mem m v

  pub thread_affinity-is_some : is_some (thread_affinity fnmatch sys base pkg thread cfg w).0 ≡ (
      hit fnmatch pkg thread cfg
      || has_fallback fnmatch pkg thread cfg
      || member pkg cfg.has_thread_rules)
  thread_affinity-is_some = let (s, dir, mem, e) = thread_affinity-Answer in rw e (ground arith)
