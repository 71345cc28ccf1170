-- ===== src/RuleEdit/Purge.antt =====
-- AppOptR/src/rule_edit.rs: the loop of `rule_delete_pkg` and what its rounds do to the lines.
use app_opt_r_plus.Prelude.{
  ℕ, zero, suc, ◌+◌, ◌<◌, ◌≤◌, ◌≡◌, refl, ap, ◌∙◌, Bool, true, false, not, Option, none, some, List,
  [], ◌∷◌, if◌then◌else◌, is_empty, is_some, length, any, keep, arith, if_cases, All, ◌==◌,
  Bool-cases, inl, inr, ==_refl,
}
use app_opt_r_plus.Prelude.Text.{Text}
use app_opt_r_plus.RuleEdit.{
  PkgLine, standalone, open_inline, open_bare, bare_pending, ThreadLoc, Target, target_scan,
  flat_locs, singles, any_line,
}
use app_opt_r_plus.RuleEdit.Lines.{normalize_singles}
use app_opt_r_plus.RuleEdit.Bounds.{IsBelow, LineBelow, target_scan-IsBelow}
use app_opt_r_plus.RuleEdit.Ops.{
  pkg_line_idx, is_deleted, remove_deleted, delete_pkg_loop, removed_edit, delete_pkg_lines,
}

remove_deleted-le :
    (t : Target) (i : ℕ) (ls : List Text) → length (remove_deleted t i ls) ≤ length ls
unfolding remove_deleted
remove_deleted-le t i [] = omega arith
remove_deleted-le t i (l ∷ ls) = ground (arith, remove_deleted-le t (i + 1) ls)

-- A deleted index within the list makes it shorter.
remove_deleted-lt :
    (t : Target) (i j : ℕ) (ls : List Text)
    → is_deleted t (i + j) ≡ true
    → j < length ls
    → length (remove_deleted t i ls) < length ls
unfolding remove_deleted
remove_deleted-lt t i j [] d h = absurd (omega (arith, h))
remove_deleted-lt t i zero (l ∷ ls) d h =
    let e : is_deleted t i ≡ true = ap (λ (k : ℕ). is_deleted t k) (omega arith) ∙ d in
    ground (arith, e, remove_deleted-le t (i + 1) ls)
remove_deleted-lt t i (suc j) (l ∷ ls) d h =
    let e : is_deleted t (i + 1 + j) ≡ true = ap (λ (k : ℕ). is_deleted t k) (omega arith) ∙ d in
    ground (arith, remove_deleted-lt t (i + 1) j ls e (omega (arith, h)))

-- A target with a line has a deleted index below the bound.
DeletedBelow : ℕ → Target → Type 0
DeletedBelow n t = (j : ℕ) × (is_deleted t j ≡ true) × (j < n)

single_deleted :
    (n : ℕ) (ls : List ThreadLoc)
    → All (λ l. l.idx < n) ls
    → is_empty (keep (λ l. l.single) ls) ≡ false
    → (j : ℕ) × (any (λ l. l.idx == j) (keep (λ l. l.single) ls) ≡ true) × (j < n)
single_deleted n [] h e = absurd (cc e)
single_deleted n (l ∷ ls) h e = elim (Bool-cases l.single) [
  | inl s ↦ (l.idx, rw (s, if◌then◌else◌) (ground (arith, ==_refl l.idx)), h.0)
  | inr s ↦ rw (s, if◌then◌else◌) (single_deleted n ls h.1 (rw (s, if◌then◌else◌) at e))
]

line_deleted :
    (n : ℕ) (o : Option PkgLine)
    → LineBelow n o
    → is_some o ≡ true
    → (j : ℕ) × (any (λ k. k == j) (pkg_line_idx o) ≡ true) × (j < n)
line_deleted n none v h = absurd (cc h)
line_deleted n (some (standalone i)) v h = (i, ground (arith, ==_refl i), v)
line_deleted n (some (open_inline i)) v h = (i, ground (arith, ==_refl i), v)
line_deleted n (some (open_bare i)) v h = (i, ground (arith, ==_refl i), v)
line_deleted n (some (bare_pending i)) v h = (i, ground (arith, ==_refl i), v)

some_deleted : (n : ℕ) (t : Target) → IsBelow n t → any_line t ≡ true → DeletedBelow n t
unfolding DeletedBelow any_line is_deleted singles
some_deleted n t v h = elim (Bool-cases (is_some t.pkg_line)) [
  | inl p ↦ let (j, d, b) = line_deleted n t.pkg_line v.line p in (j, ground (arith, d), b)
  | inr p ↦
      let (j, d, b) = single_deleted n (flat_locs t.threads) v.locs (ground (arith, h, p)) in
      (j, ground (arith, d), b)
]

round-lt :
    (pkg : Text) (ls : List Text)
    → any_line (target_scan ls pkg) ≡ true
    → length (remove_deleted (target_scan ls pkg) 0 ls) < length ls
unfolding DeletedBelow
round-lt pkg ls h =
    let (j, d, b) = some_deleted (length ls) (target_scan ls pkg) (target_scan-IsBelow ls pkg) h in
    remove_deleted-lt (target_scan ls pkg) 0 j ls
      (ap (λ (k : ℕ). is_deleted (target_scan ls pkg) k) (omega arith) ∙ d) b

-- What the loop leaves.
abbrev Purged : Text → List Text → Option (List Text × Bool) → Type 0
Purged pkg ls o =
    (r : List Text × Bool) × (o ≡ some r)
    × (any_line (target_scan r.0 pkg) ≡ false)
    × (length r.0 ≤ length ls)

delete_pkg_loop-Purged :
    (fuel : ℕ) (pkg : Text) (removed : Bool) (ls : List Text)
    → length ls < fuel
    → Purged pkg ls (delete_pkg_loop fuel pkg removed ls)
unfolding delete_pkg_loop
delete_pkg_loop-Purged zero pkg removed ls h = absurd (omega (arith, h))
delete_pkg_loop-Purged (suc fuel) pkg removed ls h =
    let t = target_scan ls pkg in
    if_cases (Purged pkg ls) (not (any_line t))
      (λ e. ((ls, removed), refl, ground (arith, e), omega arith))
      (λ e.
        let l = round-lt pkg ls (ground (arith, e)) in
        let (r, q, a, b) =
          delete_pkg_loop-Purged fuel pkg true (remove_deleted t 0 ls) (omega (arith, h, l)) in
        (r, q, a, omega (arith, l, b)))

-- The loop of `rule_delete_pkg` ends, whatever the file holds: it removes a line in each round. After
-- it no line of the file is a package line or a single-line rule of the package, and the file has no
-- more lines than once its rules were put in a block.
pub delete_pkg_lines-total :
    (pkg : Text) (lines : List Text)
    → (r : List Text × Bool) × (delete_pkg_lines pkg lines ≡ removed_edit (some r))
      × (any_line (target_scan r.0 pkg) ≡ false)
      × (length r.0 ≤ length (normalize_singles pkg lines))
unfolding delete_pkg_lines
delete_pkg_lines-total pkg lines =
    let ls = normalize_singles pkg lines in
    let (r, q, a, b) = delete_pkg_loop-Purged (suc (length ls)) pkg false ls (omega arith) in
    (r, ap removed_edit q, a, b)
