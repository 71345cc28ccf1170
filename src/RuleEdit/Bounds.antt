-- ===== src/RuleEdit/Bounds.antt =====
-- AppOptR/src/rule_edit.rs: bounds on the line numbers that `target_scan` reports.
use app_opt_r_plus.Prelude.{
  ℕ, suc, ◌+◌, ◌<◌, Bool, true, false, not, ◌&&◌, Option, none, some, List, [], ◌∷◌, ◌++◌,
  if◌then◌else◌, is_empty, is_none, get_or, length, arith, if_both, All, All-append,
}
use app_opt_r_plus.Prelude.Text.{Text, text_eq, trim, contains}
use app_opt_r_plus.Config.{
  OuterLine, rule, bare_open, pending, single, junk, parse_outer, split_rule_line, close_like,
}
use app_opt_r_plus.Config.Load.{skipped}
use app_opt_r_plus.RuleEdit.{
  PkgLine, standalone, open_inline, open_bare, bare_pending, ThreadLoc, Target, Threads,
  push_thread, ScanState, close_target, close_at, open_target, first_line, add_thread,
  scan_block_line, open_block, is_pending_of, open_pending, scan_outer_line, scan_line, scan_lines,
  scan_start, target_scan, flat_locs,
}

abbrev pub Below : ℕ → Option ℕ → Type 0
Below n none = Unit
Below n (some i) = i < n

abbrev pub LineBelow : ℕ → Option PkgLine → Type 0
LineBelow n none = Unit
LineBelow n (some (standalone i)) = i < n
LineBelow n (some (open_inline i)) = i < n
LineBelow n (some (open_bare i)) = i < n
LineBelow n (some (bare_pending i)) = i < n

-- The package line and the thread lines are below `n`.
pub record IsBelow (n : ℕ) (t : Target) : Type 0 where
  pub line : LineBelow n t.pkg_line
  pub locs : All (λ l. l.idx < n) (flat_locs t.threads)

record StateBelow (n : ℕ) (s : ScanState) : Type 0 where
  target : IsBelow n s.target
  pending : Below n s.pending_line

line_mono : (n m : ℕ) (o : Option PkgLine) → n < suc m → LineBelow n o → LineBelow m o
line_mono n m none h v = tt
line_mono n m (some (standalone i)) h v = omega (arith, h, v)
line_mono n m (some (open_inline i)) h v = omega (arith, h, v)
line_mono n m (some (open_bare i)) h v = omega (arith, h, v)
line_mono n m (some (bare_pending i)) h v = omega (arith, h, v)

below_mono : (n m : ℕ) (o : Option ℕ) → n < suc m → Below n o → Below m o
below_mono n m none h v = tt
below_mono n m (some i) h v = omega (arith, h, v)

locs_mono :
    (n m : ℕ) (ls : List ThreadLoc) → n < suc m → All (λ l. l.idx < n) ls → All (λ l. l.idx < m) ls
locs_mono n m [] h v = tt
locs_mono n m (l ∷ ls) h v = (omega (arith, h, v.0), locs_mono n m ls h v.1)

target_mono : (n m : ℕ) (t : Target) → n < suc m → IsBelow n t → IsBelow m t
target_mono n m t h v = record {
  line = line_mono n m t.pkg_line h v.line;
  locs = locs_mono n m (flat_locs t.threads) h v.locs;
}

All_front : {A : Type 0} (P : A → Type 0) (xs ys : List A) → All P (xs ++ ys) → All P xs × All P ys
All_front P [] ys h = (tt, h)
All_front P (x ∷ xs) ys h = let (p, q) = All_front P xs ys h.1 in ((h.0, p), q)

push_thread-below :
    (n : ℕ) (name : Text) (loc : ThreadLoc) (ts : Threads)
    → loc.idx < n
    → All (λ l. l.idx < n) (flat_locs ts)
    → All (λ l. l.idx < n) (flat_locs (push_thread name loc ts))
unfolding push_thread
push_thread-below n name loc [] g h = (g, tt)
push_thread-below n name loc ((k, locs) ∷ ts) g h =
    let (p, q) = All_front (λ l. l.idx < n) locs (flat_locs ts) h in
    if_both (λ (x : Threads). All (λ l. l.idx < n) (flat_locs x)) (text_eq k name)
      (All-append (λ l. l.idx < n) (locs ++ loc ∷ []) (flat_locs ts)
        (All-append (λ l. l.idx < n) locs (loc ∷ []) p (g, tt)) q)
      (All-append (λ l. l.idx < n) locs (flat_locs (push_thread name loc ts)) p
        (push_thread-below n name loc ts g q))

close_target-IsBelow :
    (n : ℕ) (b : Bool) (i : ℕ) (t : Target) → IsBelow n t → IsBelow n (close_target b i t)
close_target-IsBelow n b i t v =
    if_both (IsBelow n) (b && is_none t.block_close) (record { line = v.line; locs = v.locs }) v

close_at-StateBelow : (n i : ℕ) (s : ScanState) → StateBelow n s → StateBelow n (close_at i s)
unfolding close_at
close_at-StateBelow n i s v = record {
  target = close_target-IsBelow n s.target_block i s.target v.target;
  pending = v.pending;
}

open_target-IsBelow : (n i : ℕ) (t : Target) → IsBelow n t → IsBelow n (open_target i t)
open_target-IsBelow n i t v =
    if_both (IsBelow n) (is_none t.block_close) (record { line = v.line; locs = v.locs }) v

first_line-IsBelow :
    (n : ℕ) (l : PkgLine) (t : Target)
    → LineBelow n (some l)
    → IsBelow n t
    → IsBelow n (first_line l t)
first_line-IsBelow n l t g v =
    if_both (IsBelow n) (is_none t.pkg_line) (record { line = g; locs = v.locs }) v

add_thread-IsBelow :
    (n : ℕ) (name : Text) (loc : ThreadLoc) (t : Target)
    → loc.idx < n
    → IsBelow n t
    → IsBelow n (add_thread name loc t)
add_thread-IsBelow n name loc t g v = record {
  line = v.line;
  locs = push_thread-below n name loc t.threads g v.locs;
}

open_block-StateBelow :
    (n i : ℕ) (mine : Bool) (o : Option PkgLine) (s : ScanState)
    → LineBelow n o
    → StateBelow n s
    → StateBelow n (open_block mine i o s)
open_block-StateBelow n i false o s g v = record { target = v.target; pending = tt }
open_block-StateBelow n i true none s g v = record {
  target = open_target-IsBelow n i s.target v.target;
  pending = tt;
}
open_block-StateBelow n i true (some l) s g v = record {
  target =
      first_line-IsBelow n l (open_target i s.target) g (open_target-IsBelow n i s.target v.target);
  pending = tt;
}

open_pending-StateBelow :
    (n i : ℕ) (all : List Text) (pkg : Text) (o : Option ℕ) (s : ScanState)
    → Below n o
    → StateBelow n s
    → StateBelow n (open_pending all pkg i o s)
open_pending-StateBelow n i all pkg none s g v = record { target = v.target; pending = tt }
open_pending-StateBelow n i all pkg (some pi) s g v =
    open_block-StateBelow n i (is_pending_of pkg (parse_outer (trim (get_or all pi []))))
      (some (bare_pending pi)) s g v

outer-StateBelow :
    (n i : ℕ) (all : List Text) (pkg : Text) (o : OuterLine) (s : ScanState)
    → i < n
    → StateBelow n s
    → StateBelow n (scan_outer_line all pkg i o s)
unfolding scan_outer_line
outer-StateBelow n i all pkg (single pg th c opens) s g v =
    let loc : ThreadLoc = record { idx = i; single = true; closed = false; opens = opens } in
    let s₁ : ScanState = record s { pending_line = none } in
    let s₂ =
      if text_eq pg pkg && not (is_empty th)
      then record s₁ { target = add_thread th loc s₁.target }
      else s₁ in
    let b : StateBelow n s₂ =
      if_both (StateBelow n) (text_eq pg pkg && not (is_empty th))
        (record { target = add_thread-IsBelow n th loc s.target g v.target; pending = tt })
        (record { target = v.target; pending = tt }) in
    if_both (StateBelow n) opens (open_block-StateBelow n i (text_eq pg pkg) none s₂ tt b) b
outer-StateBelow n i all pkg (rule pg c opens) s g v =
    if_both (StateBelow n) opens
      (open_block-StateBelow n i (text_eq pg pkg) (some (open_inline i)) s g v)
      (if_both (StateBelow n) (text_eq pg pkg)
        (record { target = first_line-IsBelow n (standalone i) s.target g v.target; pending = tt })
        (record { target = v.target; pending = tt }))
outer-StateBelow n i all pkg (bare_open owner) s g v =
    if_both (StateBelow n) (not (is_empty owner))
      (open_block-StateBelow n i (text_eq owner pkg) (some (open_bare i)) s g v)
      (open_pending-StateBelow n i all pkg s.pending_line s v.pending v)
outer-StateBelow n i all pkg (pending q) s g v = record { target = v.target; pending = g }
outer-StateBelow n i all pkg junk s g v = record { target = v.target; pending = tt }

block-StateBelow :
    (n i : ℕ) (p : Text) (o : Option (Text × Text × Bool)) (s : ScanState)
    → i < n
    → StateBelow n s
    → StateBelow n (scan_block_line i p o s)
unfolding scan_block_line
block-StateBelow n i p (some (name, c, closed)) s g v =
    let loc : ThreadLoc = record { idx = i; single = false; closed = closed; opens = false } in
    let s' =
      if s.target_block && not (is_empty name)
      then record s { target = add_thread name loc s.target }
      else s in
    let b : StateBelow n s' =
      if_both (StateBelow n) (s.target_block && not (is_empty name))
        (record { target = add_thread-IsBelow n name loc s.target g v.target; pending = v.pending })
        v in
    if_both (StateBelow n) closed (close_at-StateBelow n i s' b) b
block-StateBelow n i p none s g v =
    if_both (StateBelow n) (contains p b'}') (close_at-StateBelow n i s v) v

line-StateBelow :
    (n i : ℕ) (all : List Text) (pkg raw : Text) (s : ScanState)
    → i < n
    → StateBelow n s
    → StateBelow n (scan_line all pkg i raw s)
unfolding scan_line
line-StateBelow n i all pkg raw s g v = if_both (StateBelow n) (skipped (trim raw)) v (
    if_both (StateBelow n) s.in_block
      (if_both (StateBelow n) (close_like (trim raw)) (close_at-StateBelow n i s v)
        (block-StateBelow n i (trim raw) (split_rule_line (trim raw)) s g v))
      (outer-StateBelow n i all pkg (parse_outer (trim raw)) s g v))

lines-StateBelow :
    (ls : List Text) (n i : ℕ) (all : List Text) (pkg : Text) (s : ScanState)
    → i + length ls < suc n
    → StateBelow n s
    → StateBelow n (scan_lines all pkg i ls s)
unfolding scan_lines
lines-StateBelow [] n i all pkg s h v = v
lines-StateBelow (l ∷ ls) n i all pkg s h v =
    lines-StateBelow ls n (i + 1) all pkg (scan_line all pkg i l s) (omega (arith, h))
      (line-StateBelow n i all pkg l s (omega (arith, h)) v)

-- Every line that the scan of a file reports is one of the file.
pub target_scan-IsBelow : (ls : List Text) (pkg : Text) → IsBelow (length ls) (target_scan ls pkg)
unfolding target_scan
target_scan-IsBelow ls pkg =
    let s =
      lines-StateBelow ls (length ls) 0 ls pkg scan_start (omega arith)
        (record { target = record { line = tt; locs = tt }; pending = tt }) in
    record { line = s.target.line; locs = s.target.locs }
