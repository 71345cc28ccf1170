-- ===== src/Config/Load/Rules.antt =====
-- AppOptR/src/config.rs: lemmas on the rules that `add_rule` and `load_config` add.
use app_opt_r_plus.Prelude.{
  ℕ, ◌<◌, ◌≡◌, ◌≢◌, refl, ◌⊎◌, inl, inr, Bool, true, false, not, ◌&&◌, ◌||◌, Option, none, some,
  List, [], ◌∷◌, if◌then◌else◌, is_empty, any, All, All-append, arith, Bool-cases, if_both,
}
use mathlib.Core.Path.{subst}
use app_opt_r_plus.Prelude.Int.{ℤ, negsuc, eq_ℤ}
use app_opt_r_plus.Prelude.Text.{Text, lines, trim, contains, byte_len, is_control}
use app_opt_r_plus.Cpuset.{CpuSet, count}
use app_opt_r_plus.Cpuset.Ranges.{to_range_string}
use app_opt_r_plus.Cpuset.Spec.{parse_cpu_spec}
use app_opt_r_plus.Cpuset.Topology.{CpuTopology, CpusetSys}
use app_opt_r_plus.Config.{
  spec_like, OuterLine, rule, bare_open, pending, single, junk, parse_outer, split_rule_line,
  close_like,
}
use app_opt_r_plus.Config.Load.{
  AffinityRule, AppConfig, LoadState, fail, rule_ok, rule_dir, add_rule, load_rule, close_block,
  open_block, fail_pending, clear_pending, block_line, owner_line, outer_line, load_line,
  load_lines, load_start, load_end, Loaded, load_config, make_config, skipped,
}

-- What a loaded rule satisfies.
pub record IsRule (topo : CpuTopology) (r : AffinityRule) : Type 0 where
  pub pkg_ne_nil : is_empty r.pkg ≡ false
  pub pkg_len : byte_len r.pkg < 128
  pub thread_len : byte_len r.thread < 32
  pub pkg_plain : any is_control r.pkg ≡ false
  pub thread_plain : any is_control r.thread ≡ false
  pub pattern : r.thread_pattern ≡ r.thread
  pub some_cpu : count r.cpus ≢ 0
  pub spec : (s : Text) × (spec_like s ≡ true) × (r.cpus ≡ parse_cpu_spec s topo)
  pub dir : (r.cpuset_dir ≡ []) ⊎ ((r.thread ≡ []) × (r.cpuset_dir ≡ to_range_string r.cpus))

no_nul : (s : Text) → any is_control s ≡ false → contains s 0 ≡ false
unfolding contains
no_nul [] h = refl
no_nul (c ∷ s) h = ground (arith, no_nul s)

is_empty→nil : {A : Type 0} (s : List A) → is_empty s ≡ true → s ≡ []
is_empty→nil [] h = refl
is_empty→nil (c ∷ s) h = cc

-- The checks of `add_rule`, one by one.
record Checked (pkg thread spec : Text) (topo : CpuTopology) : Type 0 where
  pkg_ne_nil : is_empty pkg ≡ false
  pkg_len : byte_len pkg < 128
  thread_len : byte_len thread < 32
  pkg_plain : any is_control pkg ≡ false
  thread_plain : any is_control thread ≡ false
  some_cpu : count (parse_cpu_spec spec topo) ≢ 0
  is_spec : spec_like spec ≡ true

rule_ok-Checked :
    (pkg thread spec : Text) (topo : CpuTopology)
    → rule_ok pkg thread spec topo ≡ true
    → Checked pkg thread spec topo
unfolding rule_ok
rule_ok-Checked pkg thread spec topo h = ground arith

module _ {W : Type 0} (sys : CpusetSys W) (base : Option Text) (topo : CpuTopology) where
  abbrev Rules : LoadState × W → Type 0
  Rules s = All (IsRule topo) s.0.rules

  rule_dir-cases :
      (thread : Text) (set : CpuSet) (w : W)
      → ((rule_dir sys base topo thread set w).0 ≡ [])
        ⊎ ((thread ≡ []) × ((rule_dir sys base topo thread set w).0 ≡ to_range_string set))
  unfolding rule_dir
  rule_dir-cases thread set w = ground (arith, is_empty→nil thread)

  add_rule-IsRule :
      (pkg thread spec : Text) (rules : List AffinityRule) (w : W)
      → All (IsRule topo) rules
      → All (IsRule topo) (add_rule sys base topo pkg thread spec (rules, w)).1
  unfolding add_rule
  add_rule-IsRule pkg thread spec rules w h = elim (Bool-cases (rule_ok pkg thread spec topo)) [
    | inl e ↦
        let c = rule_ok-Checked pkg thread spec topo e in
        rw (e, not, if◌then◌else◌)
          (All-append (IsRule topo) rules _ h (
            record {
              pkg_ne_nil = c.pkg_ne_nil;
              pkg_len = c.pkg_len;
              thread_len = c.thread_len;
              pkg_plain = c.pkg_plain;
              thread_plain = c.thread_plain;
              pattern = rw (no_nul thread c.thread_plain);
              some_cpu = c.some_cpu;
              spec = (spec, c.is_spec, refl);
              dir = rule_dir-cases thread (parse_cpu_spec spec topo) w;
            },
            tt,
          ))
    | inr e ↦ rw (e, not, if◌then◌else◌) h
  ]

  -- Counting a failure, closing and opening a block, and the pending package leave the rules alone.
  fail_unless-IsRule :
      (b : Bool) (st : LoadState)
      → All (IsRule topo) st.rules
      → All (IsRule topo) (if b then st else fail st).rules
  fail_unless-IsRule true st h = h
  fail_unless-IsRule false st h = h

  load_rule-IsRule :
      (pkg thread spec : Text) (s : LoadState × W)
      → Rules s
      → Rules (load_rule sys base topo pkg thread spec s)
  unfolding load_rule
  load_rule-IsRule pkg thread spec (st, w) h =
      fail_unless-IsRule _ _ (add_rule-IsRule pkg thread spec st.rules w h)

  close_if-IsRule :
      (b : Bool) (s : LoadState × W) → Rules s → Rules (if b then close_block s else s)
  close_if-IsRule true s h = h
  close_if-IsRule false s h = h

  open_block-IsRule :
      (b : Bool) (pkg : Text) (s : LoadState × W) → Rules s → Rules (open_block b pkg s)
  open_block-IsRule true pkg s h = h
  open_block-IsRule false pkg s h = h

  fail_pending-IsRule :
      (st : LoadState) → All (IsRule topo) st.rules → All (IsRule topo) (fail_pending st).rules
  fail_pending-IsRule st h =
      if_both (λ (t : LoadState). All (IsRule topo) t.rules) (not (is_empty st.pending_pkg)) h h

  block_line-IsRule :
      (p : Text) (o : Option (Text × Text × Bool)) (s : LoadState × W)
      → Rules s
      → Rules (block_line sys base topo p o s)
  unfolding block_line
  block_line-IsRule p (some (thread, spec, closed)) (st, w) h =
      close_if-IsRule closed _ (load_rule-IsRule st.cur_pkg thread spec (st, w) h)
  block_line-IsRule p none (st, w) h = close_if-IsRule (contains p b'}') (fail st, w) h

  owner_line-IsRule :
      (owner : Text) (st : LoadState) (w : W)
      → All (IsRule topo) st.rules
      → Rules (owner_line sys base topo owner st w)
  unfolding owner_line
  owner_line-IsRule [] st w h = h
  owner_line-IsRule (c ∷ owner) st w h = h

  outer_line-IsRule :
      (l : OuterLine) (s : LoadState × W) → Rules s → Rules (outer_line sys base topo l s)
  unfolding outer_line
  outer_line-IsRule (single pkg thread spec opens) (st, w) h = open_block-IsRule opens pkg _ (
      load_rule-IsRule pkg thread spec (clear_pending (fail_pending st, w))
        (fail_pending-IsRule st h))
  outer_line-IsRule (rule pkg spec opens) (st, w) h =
      open_block-IsRule opens pkg _
        (load_rule-IsRule pkg [] spec (fail_pending st, w) (fail_pending-IsRule st h))
  outer_line-IsRule (bare_open []) (st, w) h = owner_line-IsRule st.pending_pkg st w h
  outer_line-IsRule (bare_open (c ∷ pkg)) (st, w) h =
      owner_line-IsRule (c ∷ pkg) (fail_pending st) w (fail_pending-IsRule st h)
  outer_line-IsRule (pending pkg) (st, w) h = fail_pending-IsRule st h
  outer_line-IsRule junk (st, w) h = h

  load_line-IsRule :
      (line : Text) (s : LoadState × W) → Rules s → Rules (load_line sys base topo line s)
  unfolding load_line
  load_line-IsRule line (st, w) h =
      let p = trim line in
      if_both Rules (skipped p) h (
        if_both Rules st.in_block
          (if_both Rules (close_like p) h (block_line-IsRule p (split_rule_line p) (st, w) h))
          (outer_line-IsRule (parse_outer p) (st, w) h))

  load_lines-IsRule :
      (ls : List Text) (s : LoadState × W) → Rules s → Rules (load_lines sys base topo ls s)
  unfolding load_lines
  load_lines-IsRule [] s h = h
  load_lines-IsRule (l ∷ ls) s h =
      load_lines-IsRule ls (load_line sys base topo l s) (load_line-IsRule l s h)

  load_end-IsRule :
      (st : LoadState) → All (IsRule topo) st.rules → All (IsRule topo) (load_end st).rules
  unfolding load_end
  load_end-IsRule st h =
      if_both (λ (t : LoadState). All (IsRule topo) t.rules)
        (st.in_block || not (is_empty st.pending_pkg)) h h

  abbrev IsLoaded : Loaded W → Type 0
  IsLoaded l = elim l.config [ none ↦ Unit | some c ↦ All (IsRule topo) c.rules ]

  load_config-IsLoaded :
      (mtime : Option ℤ) (content : Option Text) (tuned tuned_threads : List Text) (last : ℤ)
      (fails : ℕ) (w : W)
      → IsLoaded (load_config sys base topo mtime content tuned tuned_threads last fails w)
  unfolding load_config make_config
  load_config-IsLoaded none content tuned tuned_threads last fails w = tt
  load_config-IsLoaded (some mtime) none tuned tuned_threads last fails w =
      if_both IsLoaded (eq_ℤ last mtime && not (eq_ℤ last (negsuc 0))) tt tt
  load_config-IsLoaded (some mtime) (some text) tuned tuned_threads last fails w =
      if_both IsLoaded (eq_ℤ last mtime && not (eq_ℤ last (negsuc 0))) tt
        (load_end-IsRule _ (load_lines-IsRule (lines text) (load_start, w) tt))

  -- Every rule of the configuration that `load_config` returns, whatever the file holds, has a package
  -- name of 1 to 127 bytes and a thread name of at most 31 bytes without control characters, a
  -- pattern that is its thread name, a set of CPUs that is not empty and is what `parse_cpu_spec`
  -- makes of a well-formed specification, and a cpuset directory only if it is a package rule,
  -- then named by its CPUs.
  pub load_config-IsRule :
      (mtime : Option ℤ) (content : Option Text) (tuned tuned_threads : List Text) (last : ℤ)
      (fails : ℕ) (w : W) {c : AppConfig}
      → (load_config sys base topo mtime content tuned tuned_threads last fails w).config ≡ some c
      → All (IsRule topo) c.rules
  load_config-IsRule mtime content tuned tuned_threads last fails w e =
      subst (λ (o : Option AppConfig). elim o [ none ↦ Unit | some c ↦ All (IsRule topo) c.rules ])
        e (load_config-IsLoaded mtime content tuned tuned_threads last fails w)
