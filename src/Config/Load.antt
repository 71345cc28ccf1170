-- ===== src/Config/Load.antt =====
-- AppOptR/src/config.rs, `add_rule` and `load_config`: the file's lines become rules.
pub mod Rules
pub mod Names
use app_opt_r_plus.Prelude.{
  ℕ, zero, suc, ◌+◌, Bool, true, false, not, ◌&&◌, ◌||◌, Option, none, some, List, [], ◌∷◌, ◌++◌,
  ltb, leb, ◌==◌, if◌then◌else◌, is_empty, any, map, keep,
}
use app_opt_r_plus.Prelude.Int.{ℤ, negsuc, eq_ℤ}
use app_opt_r_plus.Prelude.Text.{
  Text, codes, text_eq, trim, starts_with, contains, byte_len, is_control, lines, member,
  insert_all,
}
use app_opt_r_plus.Cpuset.{CpuSet, count}
use app_opt_r_plus.Cpuset.Ranges.{to_range_string}
use app_opt_r_plus.Cpuset.Spec.{parse_cpu_spec}
use app_opt_r_plus.Cpuset.Topology.{
  CpuTopology, CpusetSys, create_cpuset_dir, dir_path, base_cpuset,
}
use app_opt_r_plus.Config.{
  spec_like, OuterLine, rule, bare_open, pending, single, junk, parse_outer, split_rule_line,
  close_like,
}

-- main.rs.
abbrev pub max_pkg_len : ℕ
max_pkg_len = 128

abbrev pub max_thread_len : ℕ
max_thread_len = 32

pub record AffinityRule : Type 0 where
  pub pkg : Text
  pub thread : Text
  pub thread_pattern : Text
  pub cpuset_dir : Text
  pub cpus : CpuSet

-- A hash set is a list without repetition; nothing depends on its order.
pub record AppConfig : Type 0 where
  pub rules : List AffinityRule
  pub pkgs : List Text
  pub has_thread_rules : List Text
  pub topo : CpuTopology

-- `CString::new(thread).unwrap_or_default()`: a text with a NUL becomes the empty one.
abbrev pub c_string : Text → Text
c_string s = if contains s 0 then [] else s

-- The checks of `add_rule`, before the set of CPUs is known to be empty or not.
unfoldable pub rule_ok : Text → Text → Text → CpuTopology → Bool
rule_ok pkg thread spec topo =
    if is_empty pkg || leb max_pkg_len (byte_len pkg) || leb max_thread_len (byte_len thread)
    then false
    else if any is_control pkg || any is_control thread
    then false
    else if not (spec_like spec)
    then false
    else not (count (parse_cpu_spec spec topo) == 0)

-- The locals of `load_config`'s loop.
pub record LoadState : Type 0 where
  pub rules : List AffinityRule
  pub fail_cnt : ℕ
  pub cur_pkg : Text
  pub pending_pkg : Text
  pub in_block : Bool

abbrev pub fail : LoadState → LoadState
fail st = record st { fail_cnt = st.fail_cnt + 1 }

abbrev pub close_block : {W : Type 0} → LoadState × W → LoadState × W
close_block (st, w) = (record st { in_block = false; cur_pkg = [] }, w)

abbrev pub open_block : {W : Type 0} → Bool → Text → LoadState × W → LoadState × W
open_block false pkg (st, w) = (st, w)
open_block true pkg (st, w) = (record st { in_block = true; cur_pkg = pkg }, w)

-- `if !pending_pkg.is_empty() { fail_cnt += 1 }`.
abbrev pub fail_pending : LoadState → LoadState
fail_pending st = if not (is_empty st.pending_pkg) then fail st else st

abbrev pub clear_pending : {W : Type 0} → LoadState × W → LoadState × W
clear_pending (st, w) = (record st { pending_pkg = [] }, w)

abbrev pub skipped : Text → Bool
skipped p = is_empty p || starts_with p (codes "#") || starts_with p (codes "//")

abbrev pub load_start : LoadState
load_start = record { rules = []; fail_cnt = 0; cur_pkg = []; pending_pkg = []; in_block = false }

-- The check at the end of the file.
unfoldable pub load_end : LoadState → LoadState
load_end st = if st.in_block || not (is_empty st.pending_pkg) then fail st else st

-- What `load_config` leaves: the configuration, `last_mtime`, and `PARSE_FAILS`.
pub record Loaded (W : Type 0) : Type 0 where
  pub config : Option AppConfig
  pub last_mtime : ℤ
  pub parse_fails : ℕ
  pub world : W

-- The package names and the packages with thread rules, the tuning profiles' included.
unfoldable pub make_config : CpuTopology → List AffinityRule → List Text → List Text → AppConfig
make_config topo rules tuned tuned_threads = record {
  rules = rules;
  pkgs = insert_all tuned (insert_all (map (λ r. r.pkg) rules) []);
  has_thread_rules =
      insert_all tuned_threads
        (insert_all (map (λ r. r.pkg) (keep (λ r. not (is_empty r.thread)) rules)) []);
  topo = topo;
}

module _ {W : Type 0} (sys : CpusetSys W) (base : Option Text) (topo : CpuTopology) where
  -- A package rule has a directory, if cpusets are on and it can be made.
  unfoldable pub rule_dir : Text → CpuSet → W → Text × W
  rule_dir thread set w =
      if not (is_empty thread)
      then ([], w)
      else if not topo.cpuset_enabled
      then ([], w)
      else let dir_name = to_range_string set in
        let (made, w') = create_cpuset_dir sys (dir_path base dir_name) dir_name topo.mems_str w in
        (if made then dir_name else [], w')

  unfoldable pub add_rule :
      Text → Text → Text → List AffinityRule × W → Bool × List AffinityRule × W
  unfolding rule_ok rule_dir
  add_rule pkg thread spec (rules, w) =
      if not (rule_ok pkg thread spec topo)
      then (false, rules, w)
      else let set = parse_cpu_spec spec topo in
        let (dir, w') = rule_dir thread set w in
        (
          true,
          rules
              ++ (record {
                pkg = pkg;
                thread = thread;
                thread_pattern = c_string thread;
                cpuset_dir = dir;
                cpus = set;
              }
                  ∷ []),
          w',
        )

  -- `if !add_rule(…) { fail_cnt += 1 }`.
  unfoldable pub load_rule : Text → Text → Text → LoadState × W → LoadState × W
  load_rule pkg thread spec (st, w) =
      let (added, rules, w') = add_rule pkg thread spec (st.rules, w) in
      let st' = record st { rules = rules } in (if added then st' else fail st', w')

  -- A line within a block.
  unfoldable pub block_line : Text → Option (Text × Text × Bool) → LoadState × W → LoadState × W
  unfolding load_rule
  block_line p (some (thread, spec, closed)) (st, w) =
      let s = load_rule st.cur_pkg thread spec (st, w) in if closed then close_block s else s
  block_line p none (st, w) = if contains p b'}' then close_block (fail st, w) else (fail st, w)

  unfoldable pub owner_line : Text → LoadState → W → LoadState × W
  owner_line owner st w =
      if is_empty owner
      then (fail st, w)
      else (record st { cur_pkg = owner; pending_pkg = []; in_block = true }, w)

  -- A line outside of a block.
  unfoldable pub outer_line : OuterLine → LoadState × W → LoadState × W
  unfolding load_rule owner_line
  outer_line (single pkg thread spec opens) (st, w) =
      open_block opens pkg (load_rule pkg thread spec (clear_pending (fail_pending st, w)))
  outer_line (rule pkg spec opens) (st, w) =
      clear_pending (open_block opens pkg (load_rule pkg [] spec (fail_pending st, w)))
  outer_line (bare_open pkg) (st, w) =
      if not (is_empty pkg)
      then owner_line pkg (fail_pending st) w
      else owner_line st.pending_pkg st w
  outer_line (pending pkg) (st, w) = (record (fail_pending st) { pending_pkg = pkg }, w)
  outer_line junk (st, w) = clear_pending (fail st, w)

  unfoldable pub load_line : Text → LoadState × W → LoadState × W
  unfolding block_line outer_line
  load_line line (st, w) =
      let p = trim line in
      if skipped p
      then (st, w)
      else if st.in_block
      then if close_like p then close_block (st, w) else block_line p (split_rule_line p) (st, w)
      else outer_line (parse_outer p) (st, w)

  unfoldable pub load_lines : List Text → LoadState × W → LoadState × W
  unfolding load_line
  load_lines [] s = s
  load_lines (l ∷ ls) s = load_lines ls (load_line l s)

  -- `mtime` and `content` are what the file system answers; `tuned` and `tuned_threads` are
  -- `tuning::app_package_names` and `tuning::thread_rule_packages`.
  unfoldable pub load_config : Option ℤ → Option Text → List Text → List Text → ℤ → ℕ → W → Loaded W
  unfolding load_lines load_end make_config
  load_config none content tuned tuned_threads last fails w = record {
    config = none;
    last_mtime = last;
    parse_fails = fails;
    world = w;
  }
  load_config (some mtime) content tuned tuned_threads last fails w =
      if eq_ℤ last mtime && not (eq_ℤ last (negsuc 0))
      then record { config = none; last_mtime = last; parse_fails = fails; world = w }
      else elim content [
        | none ↦ record { config = none; last_mtime = last; parse_fails = fails; world = w }
        | some text ↦
            let (st, w') = load_lines (lines text) (load_start, w) in
            let done = load_end st in
            record {
              config = some (make_config topo done.rules tuned tuned_threads);
              last_mtime = mtime;
              parse_fails = done.fail_cnt;
              world = w';
            }
      ]
