-- ===== src/RuleEdit/Scan.antt =====
-- AppOptR/src/rule_edit.rs, `target_scan`, against AppOptR/src/config.rs, `load_config`: a relation between the
-- locals of the two loops over the lines of one file.
use app_opt_r_plus.Prelude.{
  ℕ, suc, ◌+◌, ◌≡◌, refl, sym, ap, ◌∙◌, Bool, true, false, not, ◌&&◌, Option, none, some, List, [],
  ◌∷◌, if◌then◌else◌, is_empty, is_some, get_or, arith, Bool-cases, Option-cases, inl, inr, All,
  length, ◌<◌,
}
use app_opt_r_plus.Prelude.Text.{Text, text_eq, trim}
use app_opt_r_plus.Config.{
  OuterLine, rule, bare_open, pending, single, junk, parse_outer, split_rule_line, close_like,
}
use app_opt_r_plus.Cpuset.Topology.{CpuTopology, CpusetSys}
use app_opt_r_plus.Config.Load.{
  LoadState, load_line, load_lines, load_rule, outer_line, block_line, fail_pending, load_start,
  skipped, close_block,
}
use app_opt_r_plus.RuleEdit.{
  ScanState, scan_line, scan_lines, scan_outer_line, scan_block_line, scan_start, target_scan,
  close_at, is_pending_of,
}

-- What the scanner's state says of the loader's. `all` is the file and `pkg` the target.
record Agrees (all : List Text) (pkg : Text) (l : LoadState) (s : ScanState) : Type 0 where
  block : l.in_block ≡ s.in_block
  mine : s.target_block ≡ (l.in_block && text_eq l.cur_pkg pkg)
  waits : is_some s.pending_line ≡ not (is_empty l.pending_pkg)
  names :
      (pi : ℕ)
      → s.pending_line ≡ some pi
      → is_pending_of pkg (parse_outer (trim (get_or all pi []))) ≡ text_eq l.pending_pkg pkg

-- A line such as `=`, which the loader reads as a package without a name.
abbrev pub blank_pending : OuterLine → Bool
blank_pending (pending q) = is_empty q
blank_pending _ = false

-- It is one, and neither blank nor a comment, which both loops pass over.
abbrev pub nameless : Text → Bool
nameless raw = not (skipped (trim raw)) && blank_pending (parse_outer (trim raw))

-- No line of the file is one.
abbrev pub NoNameless : List Text → Type 0
NoNameless ls = All (λ raw. nameless raw ≡ false) ls

waits_not :
    (b : Bool) (o : OuterLine)
    → b ≡ false
    → (not b && blank_pending o) ≡ false
    → blank_pending o ≡ false
waits_not b o h n = ground arith

module _ {W : Type 0} (sys : CpusetSys W) (base : Option Text) (topo : CpuTopology)
    (all : List Text) (pkg : Text) where
  -- `add_rule` touches no local of the loop but the rules and the count.
  load_rule-keeps :
      (p t c : Text) (l : LoadState) (w : W)
      → ((load_rule sys base topo p t c (l, w)).0.in_block ≡ l.in_block)
        × ((load_rule sys base topo p t c (l, w)).0.cur_pkg ≡ l.cur_pkg)
        × ((load_rule sys base topo p t c (l, w)).0.pending_pkg ≡ l.pending_pkg)
  unfolding load_rule
  load_rule-keeps p t c l w = ground arith

  block-Agrees :
      (i : ℕ) (p : Text) (o : Option (Text × Text × Bool)) (l : LoadState) (w : W) (s : ScanState)
      → l.in_block ≡ true
      → Agrees all pkg l s
      → Agrees all pkg (block_line sys base topo p o (l, w)).0 (scan_block_line i p o s)
  unfolding block_line scan_block_line close_at
  block-Agrees i p (some (k, v, closed)) l w s b a =
      let r = load_rule-keeps l.cur_pkg k v l w in
      record {
        block = ground (arith, r, a.block);
        mine = ground (arith, r, a.mine, a.block);
        waits = ground (arith, r, a.waits);
        names = λ pi e. ground (arith, r, a.names pi);
      }
  block-Agrees i p none l w s b a = record {
    block = ground (arith, a.block);
    mine = ground (arith, a.mine);
    waits = ground (arith, a.waits);
    names = λ pi e. ground (arith, a.names pi);
  }

  outer-Agrees :
      (i : ℕ) (o : OuterLine) (l : LoadState) (w : W) (s : ScanState)
      → l.in_block ≡ false
      → blank_pending o ≡ false
      → parse_outer (trim (get_or all i [])) ≡ o
      → Agrees all pkg l s
      → Agrees all pkg (outer_line sys base topo o (l, w)).0 (scan_outer_line all pkg i o s)
  unfolding outer_line scan_outer_line
  outer-Agrees i (single pg th c opens) l w s b n e a =
      let l' = record (fail_pending l) { pending_pkg = [] } in
      let r = load_rule-keeps pg th c l' w in
      record {
        block = ground (arith, r, a.block);
        mine = ground (arith, r, a.mine);
        waits = ground (arith, r, a.waits);
        names = λ pi h. ground (arith, r);
      }
  outer-Agrees i (rule pg c opens) l w s b n e a =
      let r = load_rule-keeps pg [] c (fail_pending l) w in
      record {
        block = ground (arith, r, a.block);
        mine = ground (arith, r, a.mine);
        waits = ground (arith, r, a.waits);
        names = λ pi h. ground (arith, r);
      }
  outer-Agrees i (bare_open (x ∷ owner)) l w s b n e a = record {
    block = ground (arith, a.block);
    mine = ground (arith, a.mine);
    waits = ground (arith, a.waits);
    names = λ pi h. ground arith;
  }
  outer-Agrees i (bare_open []) l w s b n e a = elim (Option-cases s.pending_line) [
    | inl q ↦ record {
      block = ground (arith, q, a.block, a.waits);
      mine = ground (arith, q, a.mine, a.waits);
      waits = ground (arith, q, a.waits);
      names = λ pi h. ground (arith, q);
    }
    | inr (pi, q) ↦ record {
      block = ground (arith, q, a.block, a.waits);
      mine = ground (arith, q, a.mine, a.waits, a.names pi q);
      waits = ground (arith, q, a.waits);
      names = λ pj h. ground (arith, q);
    }
  ]
  outer-Agrees i (pending q) l w s b n e a = record {
    block = ground (arith, a.block);
    mine = ground (arith, a.mine);
    waits = ground (arith, a.waits);
    names = λ pi h. let j : i ≡ pi = ground arith in rw (← j, e);
  }
  outer-Agrees i junk l w s b n e a = record {
    block = ground (arith, a.block);
    mine = ground (arith, a.mine);
    waits = refl;
    names = λ pi h. cc;
  }

  close-Agrees :
      (i : ℕ) (l : LoadState) (w : W) (s : ScanState)
      → Agrees all pkg l s
      → Agrees all pkg (close_block (l, w)).0 (close_at i s)
  unfolding close_at
  close-Agrees i l w s a = record { block = refl; mine = refl; waits = a.waits; names = a.names }

  -- One line, wherever it stands.
  line-Agrees :
      (i : ℕ) (raw : Text) (l : LoadState) (w : W) (s : ScanState)
      → get_or all i [] ≡ raw
      → nameless raw ≡ false
      → Agrees all pkg l s
      → Agrees all pkg (load_line sys base topo raw (l, w)).0 (scan_line all pkg i raw s)
  unfolding load_line scan_line
  line-Agrees i raw l w s e n a = elim (Bool-cases (skipped (trim raw))) [
    | inl sk ↦ simp (sk, if◌then◌else◌) a
    | inr sk ↦ elim (Bool-cases l.in_block) [
      | inl b ↦ elim (Bool-cases (close_like (trim raw))) [
        | inl c ↦ simp (sk, b, sym a.block ∙ b, c, if◌then◌else◌) (close-Agrees i l w s a)
        | inr c ↦
            simp (sk, b, sym a.block ∙ b, c, if◌then◌else◌)
              (block-Agrees i (trim raw) (split_rule_line (trim raw)) l w s b a)
      ]
      | inr b ↦
          simp (sk, b, sym a.block ∙ b, if◌then◌else◌)
            (outer-Agrees i (parse_outer (trim raw)) l w s b
              (waits_not (skipped (trim raw)) (parse_outer (trim raw)) sk n) (rw e) a)
    ]
  ]

  lines-Agrees :
      (ls : List Text) (i : ℕ) (l : LoadState) (w : W) (s : ScanState)
      → ((j : ℕ) → j < length ls → get_or all (i + j) [] ≡ get_or ls j [])
      → NoNameless ls
      → Agrees all pkg l s
      → Agrees all pkg (load_lines sys base topo ls (l, w)).0 (scan_lines all pkg i ls s)
  unfolding load_lines scan_lines
  lines-Agrees [] i l w s e n a = a
  lines-Agrees (raw ∷ ls) i l w s e n a =
      let (l', w') = load_line sys base topo raw (l, w) in
      let here : get_or all i [] ≡ raw =
        ap (λ (k : ℕ). get_or all k []) (omega arith) ∙ e 0 (omega arith) in
      lines-Agrees ls (i + 1) l' w' (scan_line all pkg i raw s)
        (λ j h. ap (λ (k : ℕ). get_or all k []) (omega arith) ∙ e (suc j) (omega arith)) n.1
        (line-Agrees i raw l w s here n.0 a)

-- For a file in which no line, in a block or not, has the form of a package without a name, as `=` has (blank lines and
-- comments do not): the scan for any package finds the file unterminated exactly when the loader ends it within a
-- block.
pub unterminated-load_lines :
    {W : Type 0} (sys : CpusetSys W) (base : Option Text) (topo : CpuTopology) (w : W)
    (ls : List Text) (pkg : Text)
    → NoNameless ls
    → (target_scan ls pkg).unterminated ≡ (load_lines sys base topo ls (load_start, w)).0.in_block
unfolding target_scan
unterminated-load_lines sys base topo w ls pkg n =
    sym
      (lines-Agrees sys base topo ls pkg ls 0 load_start w scan_start
        (λ j h. ap (λ (k : ℕ). get_or ls k []) (omega arith)) n
        (record { block = refl; mine = refl; waits = refl; names = λ pi e. cc })).block
