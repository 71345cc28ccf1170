-- ===== src/RuleEdit.antt =====
-- AppOptR/src/rule_edit.rs: `target_scan`, which finds the lines of applist.conf that belong to a
-- package.
pub mod Lines
pub mod Ops
pub mod Clone
pub mod Scan
pub mod Files
pub mod Bounds
pub mod Purge
pub mod Join
use app_opt_r_plus.Prelude.{
  ℕ, zero, suc, ◌+◌, Bool, true, false, not, ◌&&◌, ◌||◌, Option, none, some, List, [], ◌∷◌, ◌++◌,
  ◌==◌, if◌then◌else◌, is_empty, is_some, is_none, get_or, any, keep,
}
use app_opt_r_plus.Prelude.Text.{Text, codes, text_eq, trim, contains}
use app_opt_r_plus.Config.{
  OuterLine, rule, bare_open, pending, single, junk, parse_outer, split_rule_line, close_like,
}
use app_opt_r_plus.Config.Load.{skipped}

pub data RuleEdit : Type 0 where
  ok not_found conflict malformed io_err : RuleEdit

pub data PkgLine : Type 0 where
  standalone : ℕ → PkgLine
  open_inline : ℕ → PkgLine
  open_bare : ℕ → PkgLine
  bare_pending : ℕ → PkgLine

pub record ThreadLoc : Type 0 where
  pub idx : ℕ
  pub single : Bool
  pub closed : Bool
  pub opens : Bool

-- The hash map of threads as an association list; only its entries matter, not their order.
abbrev pub Threads : Type 0
Threads = List (Text × List ThreadLoc)

pub record Target : Type 0 where
  pub pkg_line : Option PkgLine
  pub block_open : Option ℕ
  pub block_close : Option ℕ
  pub threads : Threads
  pub unterminated : Bool

-- `entry(name).or_default().push(loc)`.
unfoldable pub push_thread : Text → ThreadLoc → Threads → Threads
push_thread name loc [] = (name, loc ∷ []) ∷ []
push_thread name loc ((n, locs) ∷ ts) =
    if text_eq n name then (n, locs ++ loc ∷ []) ∷ ts else (n, locs) ∷ push_thread name loc ts

-- The locals of the loop.
pub record ScanState : Type 0 where
  pub target : Target
  pub pending_line : Option ℕ
  pub in_block : Bool
  pub target_block : Bool

abbrev pub close_target : Bool → ℕ → Target → Target
close_target in_target i t =
    if in_target && is_none t.block_close then record t { block_close = some i } else t

-- `in_block = false; block_close(&mut t, &mut target_block, i)`.
unfoldable pub close_at : ℕ → ScanState → ScanState
close_at i s = record s {
  target = close_target s.target_block i s.target;
  in_block = false;
  target_block = false;
}

-- The closure `block_open`.
abbrev pub open_target : ℕ → Target → Target
open_target i t = if is_none t.block_close then record t { block_open = some i } else t

-- `if t.pkg_line.is_none() { t.pkg_line = Some(line) }`.
abbrev pub first_line : PkgLine → Target → Target
first_line line t = if is_none t.pkg_line then record t { pkg_line = some line } else t

abbrev pub add_thread : Text → ThreadLoc → Target → Target
add_thread name loc t = record t { threads = push_thread name loc t.threads }

-- A line within a block that does not look like its end.
unfoldable pub scan_block_line : ℕ → Text → Option (Text × Text × Bool) → ScanState → ScanState
unfolding push_thread close_at
scan_block_line i p (some (name, _, closed)) s =
    let loc : ThreadLoc = record { idx = i; single = false; closed = closed; opens = false } in
    let s' : ScanState =
      if s.target_block && not (is_empty name)
      then record s { target = add_thread name loc s.target }
      else s in
    if closed then close_at i s' else s'
scan_block_line i p none s = if contains p b'}' then close_at i s else s

-- A block opens at line `i`; `mine` says whether it is the target's, and `line` its package line.
abbrev pub open_block : Bool → ℕ → Option PkgLine → ScanState → ScanState
open_block false i line s = record s { in_block = true; pending_line = none }
open_block true i none s = record s {
  in_block = true;
  pending_line = none;
  target_block = true;
  target = open_target i s.target;
}
open_block true i (some line) s = record s {
  in_block = true;
  pending_line = none;
  target_block = true;
  target = first_line line (open_target i s.target);
}

-- `if let OuterLine::Pending { pkg: pp } = parse_outer(…) && pp == pkg`.
abbrev pub is_pending_of : Text → OuterLine → Bool
is_pending_of pkg (pending pp) = text_eq pp pkg
is_pending_of pkg _ = false

abbrev pub open_pending : List Text → Text → ℕ → Option ℕ → ScanState → ScanState
open_pending all pkg i none s = record s { pending_line = none }
open_pending all pkg i (some pi) s =
    open_block (is_pending_of pkg (parse_outer (trim (get_or all pi [])))) i
      (some (bare_pending pi)) s

unfoldable pub scan_outer_line : List Text → Text → ℕ → OuterLine → ScanState → ScanState
unfolding push_thread
scan_outer_line all pkg i (single pg th _ opens) s =
    let loc : ThreadLoc = record { idx = i; single = true; closed = false; opens = opens } in
    let s₁ : ScanState = record s { pending_line = none } in
    let s₂ : ScanState =
      if text_eq pg pkg && not (is_empty th)
      then record s₁ { target = add_thread th loc s₁.target }
      else s₁ in
    if opens then open_block (text_eq pg pkg) i none s₂ else s₂
scan_outer_line all pkg i (rule pg _ opens) s =
    if opens
    then open_block (text_eq pg pkg) i (some (open_inline i)) s
    else if text_eq pg pkg
    then record s { pending_line = none; target = first_line (standalone i) s.target }
    else record s { pending_line = none }
scan_outer_line all pkg i (bare_open owner) s =
    if not (is_empty owner)
    then open_block (text_eq owner pkg) i (some (open_bare i)) s
    else open_pending all pkg i s.pending_line s
scan_outer_line all pkg i (pending _) s = record s { pending_line = some i }
scan_outer_line all pkg i junk s = record s { pending_line = none }

unfoldable pub scan_line : List Text → Text → ℕ → Text → ScanState → ScanState
unfolding scan_block_line scan_outer_line close_at
scan_line all pkg i raw s =
    let p = trim raw in
    if skipped p
    then s
    else if s.in_block
    then if close_like p then close_at i s else scan_block_line i p (split_rule_line p) s
    else scan_outer_line all pkg i (parse_outer p) s

unfoldable pub scan_lines : List Text → Text → ℕ → List Text → ScanState → ScanState
unfolding scan_line
scan_lines all pkg i [] s = s
scan_lines all pkg i (l ∷ ls) s = scan_lines all pkg (i + 1) ls (scan_line all pkg i l s)

abbrev pub scan_start : ScanState
scan_start = record {
  target = record {
    pkg_line = none;
    block_open = none;
    block_close = none;
    threads = [];
    unterminated = false;
  };
  pending_line = none;
  in_block = false;
  target_block = false;
}

unfoldable pub target_scan : List Text → Text → Target
unfolding scan_lines
target_scan lines pkg =
    let s = scan_lines lines pkg 0 lines scan_start in record s.target { unterminated = s.in_block }

abbrev pub flat_locs : Threads → List ThreadLoc
flat_locs [] = []
flat_locs ((_, locs) ∷ ts) = locs ++ flat_locs ts

-- `Target::singles`.
unfoldable pub singles : Target → List ThreadLoc
singles t = keep (λ l. l.single) (flat_locs t.threads)

-- `Target::any_line`.
unfoldable pub any_line : Target → Bool
unfolding singles
any_line t = is_some t.pkg_line || not (is_empty (singles t))

-- `t.threads.get(name)`.
unfoldable pub thread_locs : Text → Threads → Option (List ThreadLoc)
thread_locs name [] = none
thread_locs name ((n, locs) ∷ ts) = if text_eq n name then some locs else thread_locs name ts
