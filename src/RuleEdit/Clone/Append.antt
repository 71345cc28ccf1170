-- ===== src/RuleEdit/Clone/Append.antt =====
-- The lines of `clone_append` (AppOptR/src/rule_edit.rs), read by `load_config` (AppOptR/src/config.rs).
use app_opt_r_plus.Prelude.{
  ℕ, ◌≡◌, refl, sym, ap, ◌∙◌, Bool, true, false, not, ◌&&◌, Option, none, some, List, [], ◌∷◌, ◌++◌,
  if◌then◌else◌, is_empty, arith, All, append_assoc, Bool-cases, inl, inr,
}
use app_opt_r_plus.Prelude.Text.{
  Text, codes, trim, trim_start, trim_end, is_whitespace, starts_with,
}
use app_opt_r_plus.Prelude.Text.Split.{trim_none}
use app_opt_r_plus.Config.{rule, parse_outer, split_rule_line, close_like}
use app_opt_r_plus.Config.Lines.{
  IsWord, special, word-contains, pair, pair-not_close, pair-whitespace, open_pair, open_line,
  parse_outer-pair, parse_outer-open_pair, split_rule_line-pair, parse_outer-open_line,
}
use app_opt_r_plus.Cpuset.Topology.{CpuTopology, CpusetSys}
use app_opt_r_plus.Config.Load.{
  LoadState, skipped, load_line, load_lines, load_rule, outer_line, block_line, owner_line,
  close_block, open_block, fail_pending, clear_pending,
}
use app_opt_r_plus.RuleEdit.Lines.{bare_open_line, thread_line}
use app_opt_r_plus.RuleEdit.Clone.{
  CloneRules, clone_append, last_blank, head_line, thread_lines, cloned_lines,
}

-- A word starts with a character that is not special.
word_head : (k : Text) → IsWord k → (c : ℕ) × (s : Text) × (k ≡ c ∷ s) × (special c ≡ false)
word_head [] w = absurd (cc w.ne_nil)
word_head (c ∷ s) w = (c, s, refl, ground (arith, w.plain))

skipped_word : (k t : Text) → IsWord k → skipped (k ++ t) ≡ false
unfolding starts_with
skipped_word k t w = let (c, s, e, n) = word_head k w in rw e (ground (arith, n))

trim_end_last :
    (s : Text) (d : ℕ) → is_whitespace d ≡ false → trim_end (s ++ (d ∷ [])) ≡ s ++ (d ∷ [])
unfolding trim_end
trim_end_last [] d h = ground (arith, h)
trim_end_last (c ∷ s) d h = rw (trim_end_last s d h) (nonempty s)
  where
    nonempty :
        (s : Text)
        → (if is_empty (s ++ d ∷ []) && is_whitespace c then [] else c ∷ (s ++ d ∷ []))
          ≡ c ∷ (s ++ d ∷ [])
    nonempty [] = refl
    nonempty (x ∷ s) = refl

-- A word, something, and a character that is no white space.
trim_word :
    (k m : Text) (d : ℕ)
    → IsWord k
    → is_whitespace d ≡ false
    → trim (k ++ (m ++ (d ∷ []))) ≡ k ++ (m ++ (d ∷ []))
unfolding trim trim_start
trim_word k m d w h =
    let (c, s, e, n) = word_head k w in
    let q : is_whitespace c ≡ false = ground (arith, n) in
    let r : trim_end (c ∷ (s ++ (m ++ (d ∷ [])))) ≡ c ∷ (s ++ (m ++ (d ∷ []))) =
      ap trim_end (ap (λ (x : Text). c ∷ x) (sym (append_assoc s m (d ∷ []))))
      ∙ (trim_end_last (c ∷ (s ++ m)) d h ∙ ap (λ (x : Text). c ∷ x) (append_assoc s m (d ∷ []))) in
    rw e (rw (q, if◌then◌else◌) r)

module _ {W : Type 0} (sys : CpusetSys W) (base : Option Text) (topo : CpuTopology) where
  -- What the loader does with the package's rule, with the head of a block, and with the threads' rules.
  abbrev pub load_package : Text → Option Text → LoadState × W → LoadState × W
  load_package target none s = s
  load_package target (some cpus) s = load_rule sys base topo target [] cpus s

  abbrev pub enter : Text → LoadState × W → LoadState × W
  enter target (st, w) = (record st { in_block = true; cur_pkg = target; pending_pkg = [] }, w)

  abbrev pub load_threads : Text → List (Text × Text) → LoadState × W → LoadState × W
  load_threads target [] s = s
  load_threads target ((thread, cpus) ∷ ts) s =
      load_threads target ts (load_rule sys base topo target thread cpus s)

  abbrev pub load_cloned : Text → Option Text → List (Text × Text) → LoadState × W → LoadState × W
  load_cloned target cpus [] s = load_package target cpus s
  load_cloned target cpus (t ∷ ts) s =
      close_block (load_threads target (t ∷ ts) (enter target (load_package target cpus s)))

  -- A line that is no comment, outside of a block and within one.
  outer_step :
      (l p : Text) (st : LoadState) (w : W)
      → trim l ≡ p
      → skipped p ≡ false
      → st.in_block ≡ false
      → load_line sys base topo l (st, w) ≡ outer_line sys base topo (parse_outer p) (st, w)
  unfolding load_line
  outer_step l p st w t k b = rw (t, k, b, if◌then◌else◌) refl

  inner_step :
      (l p : Text) (st : LoadState) (w : W)
      → trim l ≡ p
      → skipped p ≡ false
      → st.in_block ≡ true
      → close_like p ≡ false
      → load_line sys base topo l (st, w) ≡ block_line sys base topo p (split_rule_line p) (st, w)
  unfolding load_line
  inner_step l p st w t k b c = rw (t, k, b, c, if◌then◌else◌) refl

  keeps_block :
      (p t c : Text) (st : LoadState) (w : W)
      → ((load_rule sys base topo p t c (st, w)).0.in_block ≡ st.in_block)
        × ((load_rule sys base topo p t c (st, w)).0.cur_pkg ≡ st.cur_pkg)
        × ((load_rule sys base topo p t c (st, w)).0.pending_pkg ≡ st.pending_pkg)
  unfolding load_rule
  keeps_block p t c st w = ground arith

  -- A thread's line within the block.
  thread_step :
      (target thread cpus : Text) (st : LoadState) (w : W)
      → IsWord thread
      → IsWord cpus
      → st.in_block ≡ true
      → st.cur_pkg ≡ target
      → load_line sys base topo (thread_line thread cpus) (st, w)
        ≡ load_rule sys base topo target thread cpus (st, w)
  unfolding block_line trim trim_start is_whitespace
  thread_step target thread cpus st w wt wc b c =
      let p = pair thread cpus wt wc in
      let t : trim (thread_line thread cpus) ≡ p =
        trim_none p (pair-whitespace thread cpus wt wc) in
      inner_step (thread_line thread cpus) p st w t (skipped_word thread (b'=' ∷ cpus) wt) b
        (pair-not_close thread cpus wt wc)
      ∙ rw (split_rule_line-pair thread cpus wt wc, c, if◌then◌else◌) refl

  threads_steps :
      (target : Text) (ts : List (Text × Text)) (rest : List Text) (st : LoadState) (w : W)
      → All (λ t. IsWord t.0 × IsWord t.1) ts
      → st.in_block ≡ true
      → st.cur_pkg ≡ target
      → load_lines sys base topo (thread_lines ts ++ rest) (st, w)
        ≡ load_lines sys base topo rest (load_threads target ts (st, w))
  unfolding load_lines
  threads_steps target [] rest st w v b c = refl
  threads_steps target ((thread, cpus) ∷ ts) rest st w v b c =
      let s' = load_rule sys base topo target thread cpus (st, w) in
      let k = keeps_block target thread cpus st w in
      ap (load_lines sys base topo (thread_lines ts ++ rest))
        (thread_step target thread cpus st w v.0.0 v.0.1 b c)
      ∙ threads_steps target ts rest s'.0 s'.1 v.1 (k.0 ∙ b) (k.1 ∙ c)

  threads_block :
      (target : Text) (ts : List (Text × Text)) (s : LoadState × W)
      → s.0.in_block ≡ true
      → (load_threads target ts s).0.in_block ≡ true
  threads_block target [] s h = h
  threads_block target ((thread, cpus) ∷ ts) s h =
      threads_block target ts (load_rule sys base topo target thread cpus s)
        ((keeps_block target thread cpus s.0 s.1).0 ∙ h)

  -- The closing brace.
  brace_step :
      (st : LoadState) (w : W)
      → st.in_block ≡ true
      → load_lines sys base topo (codes "}" ∷ []) (st, w) ≡ close_block (st, w)
  unfolding load_lines load_line trim trim_start trim_end is_whitespace starts_with close_like
  brace_step st w b = rw (b, if◌then◌else◌) refl

  abbrev pub CpusWord : Option Text → Type 0
  CpusWord none = Unit
  CpusWord (some cpus) = IsWord cpus

  cleared : (s : LoadState × W) → s.0.pending_pkg ≡ [] → clear_pending s ≡ s
  cleared (st, w) p = ap (λ (x : Text). (record st { pending_pkg = x }, w)) (sym p)

  no_pending : (st : LoadState) → st.pending_pkg ≡ [] → fail_pending st ≡ st
  no_pending st p = rw (p, not, is_empty, if◌then◌else◌) refl

  outer_rule :
      (target cpus : Text) (opens : Bool) (st : LoadState) (w : W)
      → st.pending_pkg ≡ []
      → outer_line sys base topo (rule target cpus opens) (st, w)
        ≡ clear_pending (open_block opens target (load_rule sys base topo target [] cpus (st, w)))
  unfolding outer_line
  outer_rule target cpus opens st w p =
      ap
        (λ (x : LoadState).
          clear_pending (open_block opens target (load_rule sys base topo target [] cpus (x, w))))
        (no_pending st p)

  -- `pkg=cpus`, alone.
  package_step :
      (target cpus : Text) (st : LoadState) (w : W)
      → IsWord target
      → IsWord cpus
      → st.in_block ≡ false
      → st.pending_pkg ≡ []
      → load_line sys base topo (target ++ (b'=' ∷ cpus)) (st, w)
        ≡ load_rule sys base topo target [] cpus (st, w)
  package_step target cpus st w wt wc b p =
      let l = pair target cpus wt wc in
      let t : trim l ≡ l = trim_none l (pair-whitespace target cpus wt wc) in
      let k = keeps_block target [] cpus st w in
      outer_step l l st w t (skipped_word target (b'=' ∷ cpus) wt) b
      ∙ (ap (λ x. outer_line sys base topo x (st, w)) (parse_outer-pair target cpus wt wc)
          ∙ (outer_rule target cpus false st w p
              ∙ cleared (load_rule sys base topo target [] cpus (st, w)) (k.2 ∙ p)))

  -- `pkg=cpus {`, or `pkg {`.
  head_step :
      (target : Text) (cpus : Option Text) (st : LoadState) (w : W)
      → IsWord target
      → CpusWord cpus
      → st.in_block ≡ false
      → st.pending_pkg ≡ []
      → load_line sys base topo (head_line target cpus) (st, w)
        ≡ enter target (load_package target cpus (st, w))
  unfolding outer_line owner_line bare_open_line is_whitespace
  head_step target none st w wt v b p =
      let l = open_line target wt in
      let t : trim l ≡ l = trim_word target (codes " ") b'{' wt refl in
      rw (word-contains target b'=' wt.plain refl, if◌then◌else◌)
        (outer_step l l st w t (skipped_word target (codes " {") wt) b
          ∙ rw (parse_outer-open_line target wt, wt.ne_nil, p) refl)
  head_step target (some cpus) st w wt wc b p =
      let l = open_pair target cpus wt wc in
      let e : l ≡ head_line target (some cpus) = append_assoc target (b'=' ∷ cpus) (codes " {") in
      let t : trim (head_line target (some cpus)) ≡ head_line target (some cpus) =
        rw (sym (append_assoc cpus (codes " ") (codes "{")))
          (trim_word target (b'=' ∷ (cpus ++ codes " ")) b'{' wt refl) in
      outer_step (head_line target (some cpus)) (head_line target (some cpus)) st w t
        (skipped_word target (b'=' ∷ (cpus ++ codes " {")) wt) b
      ∙ (ap (λ x. outer_line sys base topo (parse_outer x) (st, w)) (sym e)
          ∙ (ap (λ x. outer_line sys base topo x (st, w)) (parse_outer-open_pair target cpus wt wc)
              ∙ outer_rule target cpus true st w p))

  cloned_lines-load_cloned :
      (target : Text) (cpus : Option Text) (ts : List (Text × Text)) (st : LoadState) (w : W)
      → IsWord target
      → CpusWord cpus
      → All (λ t. IsWord t.0 × IsWord t.1) ts
      → st.in_block ≡ false
      → st.pending_pkg ≡ []
      → load_lines sys base topo (cloned_lines target cpus ts) (st, w)
        ≡ load_cloned target cpus ts (st, w)
  unfolding load_lines
  cloned_lines-load_cloned target none [] st w wt v vs b p = refl
  cloned_lines-load_cloned target (some cpus) [] st w wt v vs b p =
      package_step target cpus st w wt v b p
  cloned_lines-load_cloned target cpus (t ∷ ts) st w wt v vs b p =
      let s = enter target (load_package target cpus (st, w)) in
      let r = load_threads target (t ∷ ts) s in
      ap (load_lines sys base topo (thread_lines (t ∷ ts) ++ codes "}" ∷ []))
        (head_step target cpus st w wt v b p)
      ∙ (threads_steps target (t ∷ ts) (codes "}" ∷ []) s.0 s.1 vs refl refl
          ∙ brace_step r.0 r.1 (threads_block target (t ∷ ts) s refl))

  load_lines-append :
      (a b : List Text) (s : LoadState × W)
      → load_lines sys base topo (a ++ b) s
        ≡ load_lines sys base topo b (load_lines sys base topo a s)
  unfolding load_lines
  load_lines-append [] b s = refl
  load_lines-append (l ∷ a) b s = load_lines-append a b (load_line sys base topo l s)

  blank_step : (s : LoadState × W) → load_lines sys base topo ([] ∷ []) s ≡ s
  unfolding load_lines load_line trim trim_start trim_end
  blank_step s = refl

  -- Suppose that the loader, having read the file's lines from some state, stands outside of a block with no package
  -- pending. Once a clone is appended to the lines, loading them has the effect of loading the old lines and
  -- then the rules that were cloned, in their order: the package's rule if there is one, then each thread's rule within
  -- the target's block, which is closed again. The target, the threads' names and the CPUs are words, without white
  -- space and without the syntax's characters.
  pub clone_append-load_cloned :
      (target : Text) (r : CloneRules) (lines : List Text) (s : LoadState × W)
      → IsWord target
      → CpusWord r.package_cpus
      → All (λ t. IsWord t.0 × IsWord t.1) r.threads
      → (load_lines sys base topo lines s).0.in_block ≡ false
      → (load_lines sys base topo lines s).0.pending_pkg ≡ []
      → load_lines sys base topo (clone_append target r lines) s
        ≡ load_cloned target r.package_cpus r.threads (load_lines sys base topo lines s)
  unfolding clone_append
  clone_append-load_cloned target r lines s wt v vs b p =
      let after = load_lines sys base topo lines s in
      let cloned = cloned_lines target r.package_cpus r.threads in
      let kept : load_lines sys base topo
            (if not (is_empty lines) && not (last_blank lines) then lines ++ [] ∷ [] else lines) s
          ≡ after =
        elim (Bool-cases (not (is_empty lines) && not (last_blank lines))) [
          | inl e ↦ rw (e, if◌then◌else◌) (load_lines-append lines ([] ∷ []) s ∙ blank_step after)
          | inr e ↦ rw (e, if◌then◌else◌) refl
        ] in
      load_lines-append _ cloned s
      ∙ (ap (load_lines sys base topo cloned) kept
          ∙ cloned_lines-load_cloned target r.package_cpus r.threads after.0 after.1 wt v vs b p)
