-- ===== src/RuleEdit/Files.antt =====
-- AppOptR/src/rule_edit.rs: the functions of the editor and the file that they replace.
use app_opt_r_plus.Prelude.{
  ℕ, ◌≡◌, refl, ap, ◌∙◌, Bool, true, false, not, ◌&&◌, ◌||◌, Option, none, some, List, ◌++◌,
  if◌then◌else◌, is_empty, is_none, length, arith, if_cases, if_both, Bool-cases, inl, inr, ◌⊎◌,
  ◌≢◌, length-append,
}
use app_opt_r_plus.Prelude.Text.{Text, codes, text_eq}
use app_opt_r_plus.Prelude.Text.Split.{text_eq_iff}
use app_opt_r_plus.RuleEdit.{
  RuleEdit, ok, not_found, conflict, malformed, Target, target_scan, PkgLine, standalone,
  open_inline, open_bare, bare_pending, thread_locs, any_line, ThreadLoc,
}
use app_opt_r_plus.RuleEdit.Lines.{normalize_singles, remove_last_first}
use app_opt_r_plus.RuleEdit.Ops.{
  FileSys, join_lines, Edit, write, answer, file_write, read_lines, run_edit, upsert_lines,
  delete_lines, rule_upsert, rule_delete, upsert_package, upsert_new_thread, upsert_locs,
  delete_package,
}
use app_opt_r_plus.RuleEdit.Clone.{
  Prepared, rules, refused, clone_prepare, sort_entries, thread_entries, clone_package_spec,
  clone_append, finish_clone, check_result, rule_clone_check, rule_clone,
}

-- What is relied on of the file system: a write touches no other file and, if it succeeds, is read back;
-- a rename that succeeds gives the target the text of the source, and one that fails changes nothing.
pub record IsFileSys {W : Type 0} (sys : FileSys W) : Type 0 where
  pub write_other :
      (p q text : Text) (w : W)
      → text_eq p q ≡ false
      → sys.read q (sys.write p text w).1 ≡ sys.read q w
  pub write_read :
      (p text : Text) (w : W)
      → (sys.write p text w).0 ≡ true
      → sys.read p (sys.write p text w).1 ≡ some text
  pub rename_read :
      (p q : Text) (w : W)
      → (sys.rename p q w).0 ≡ true
      → sys.read q (sys.rename p q w).1 ≡ sys.read p w
  pub rename_fail :
      (p q r : Text) (w : W)
      → (sys.rename p q w).0 ≡ false
      → sys.read r (sys.rename p q w).1 ≡ sys.read r w

pub tmp_ne : (path : Text) → text_eq (path ++ codes ".tmp") path ≡ false
unfolding text_eq
tmp_ne path = elim (Bool-cases (text_eq (path ++ codes ".tmp") path)) [
  | inl e ↦
      let q : length (path ++ codes ".tmp") ≡ length path =
        ap (λ (s : Text). length s) ((text_eq_iff _ path).0 e) in
      absurd (omega (arith, q, length-append path (codes ".tmp")))
  | inr e ↦ e
]

-- After a function that answers `r` on the file `path`: the file has all of `ls` and `r` is `ok`, or it
-- is as it was and `r` is not.
abbrev pub Atomic : {W : Type 0} → FileSys W → Text → Option (List Text) → W → RuleEdit × W → Type 0
Atomic sys path none w (r, w') = (r ≢ ok) × (sys.read path w' ≡ sys.read path w)
Atomic sys path (some ls) w (r, w') =
    ((r ≡ ok) × (sys.read path w' ≡ some (join_lines ls)))
    ⊎ ((r ≢ ok) × (sys.read path w' ≡ sys.read path w))

-- The lines that an edit writes.
abbrev pub edit_lines : Edit → Option (List Text)
edit_lines (write ls) = some ls
edit_lines (answer r) = none

-- An edit without a write does not answer `ok`.
abbrev Honest : Edit → Type 0
Honest (write ls) = Unit
Honest (answer r) = r ≢ ok

malformed_ne : malformed ≢ ok
malformed_ne h = absurd (cc h)

not_found_ne : not_found ≢ ok
not_found_ne h = absurd (cc h)

upsert_package-Honest :
    (pkg cpus : Text) (ls : List Text) (t : Target) (o : Option PkgLine)
    → Honest (upsert_package pkg cpus ls t o)
upsert_package-Honest pkg cpus ls t none =
    if_cases Honest t.unterminated (λ e. malformed_ne) (λ e. tt)
upsert_package-Honest pkg cpus ls t (some (standalone i)) = tt
upsert_package-Honest pkg cpus ls t (some (open_inline i)) = tt
upsert_package-Honest pkg cpus ls t (some (open_bare i)) = tt
upsert_package-Honest pkg cpus ls t (some (bare_pending i)) = tt

upsert_new_thread-Honest :
    (pkg thread cpus : Text) (ls : List Text) (t : Target) (c : Option ℕ) (o : Option PkgLine)
    → Honest (upsert_new_thread pkg thread cpus ls t c o)
upsert_new_thread-Honest pkg thread cpus ls t (some close) o = tt
upsert_new_thread-Honest pkg thread cpus ls t none (some (standalone i)) = tt
upsert_new_thread-Honest pkg thread cpus ls t none none =
    if_cases Honest t.unterminated (λ e. malformed_ne) (λ e. tt)
upsert_new_thread-Honest pkg thread cpus ls t none (some (open_inline i)) =
    if_cases Honest t.unterminated (λ e. malformed_ne) (λ e. tt)
upsert_new_thread-Honest pkg thread cpus ls t none (some (open_bare i)) =
    if_cases Honest t.unterminated (λ e. malformed_ne) (λ e. tt)
upsert_new_thread-Honest pkg thread cpus ls t none (some (bare_pending i)) =
    if_cases Honest t.unterminated (λ e. malformed_ne) (λ e. tt)

on_locs-Honest :
    (o : Option (List ThreadLoc)) (f : List ThreadLoc → List Text) (e : Edit)
    → Honest e
    → Honest (elim o [ some locs ↦ write (f locs) | none ↦ e ])
on_locs-Honest none f e h = h
on_locs-Honest (some locs) f e h = tt

upsert_lines-Honest :
    (pkg thread cpus : Text) (lines : List Text) → Honest (upsert_lines pkg thread cpus lines)
unfolding upsert_lines
upsert_lines-Honest pkg thread cpus lines =
    let ls = normalize_singles pkg lines in
    let t = target_scan ls pkg in
    if_cases Honest (is_empty thread) (λ e. upsert_package-Honest pkg cpus ls t t.pkg_line)
      (λ e.
        on_locs-Honest (thread_locs thread t.threads) (upsert_locs pkg cpus ls) _
          (upsert_new_thread-Honest pkg thread cpus ls t t.block_close t.pkg_line))

delete_package-Honest :
    (pkg : Text) (ls : List Text) (o : Option PkgLine) → Honest (delete_package pkg ls o)
delete_package-Honest pkg ls none = not_found_ne
delete_package-Honest pkg ls (some (standalone i)) = tt
delete_package-Honest pkg ls (some (open_inline i)) = tt
delete_package-Honest pkg ls (some (open_bare i)) = not_found_ne
delete_package-Honest pkg ls (some (bare_pending i)) = not_found_ne

delete_lines-Honest :
    (pkg thread : Text) (lines : List Text) → Honest (delete_lines pkg thread lines)
unfolding delete_lines
delete_lines-Honest pkg thread lines =
    let ls = normalize_singles pkg lines in
    let t = target_scan ls pkg in
    if_cases Honest (is_empty thread) (λ e. delete_package-Honest pkg ls t.pkg_line)
      (λ e.
        on_locs-Honest (thread_locs thread t.threads) (λ locs. remove_last_first pkg locs ls)
          (answer not_found) not_found_ne)

abbrev Refusal : Prepared → Type 0
Refusal (rules r) = Unit
Refusal (refused e) = e ≢ ok

-- The lines that a clone writes.
abbrev pub clone_lines : Text → List Text × Prepared → Option (List Text)
clone_lines target (ls, rules r) = some (clone_append target r ls)
clone_lines target (ls, refused e) = none

conflict_ne : conflict ≢ ok
conflict_ne h = absurd (cc h)

clone_prepare-Refusal :
    (source target : Text) (copy_package copy_threads : Bool) (lines : List Text)
    → Refusal (clone_prepare source target copy_package copy_threads lines).1
unfolding clone_prepare
clone_prepare-Refusal source target copy_package copy_threads lines =
    let ls = normalize_singles target (normalize_singles source lines) in
    let from = target_scan ls source in
    let to = target_scan ls target in
    let entries = sort_entries (thread_entries ls from.threads) in
    if_both Refusal (from.unterminated || to.unterminated) malformed_ne (
      if_both Refusal (any_line to) conflict_ne (
        if_both Refusal (copy_package && is_none (clone_package_spec ls from)) not_found_ne
          (if_both Refusal (copy_threads && is_empty entries) not_found_ne tt)))

module _ {W : Type 0} (sys : FileSys W) (lawful : IsFileSys sys) where
  pub file_write-Atomic :
      (path : Text) (ls : List Text) (w : W)
      → Atomic sys path (some ls) w (file_write sys path ls w)
  unfolding file_write
  file_write-Atomic path ls w =
      let tmp = path ++ codes ".tmp" in
      let (wrote, w₁) = sys.write tmp (join_lines ls) w in
      let other = lawful.write_other tmp path (join_lines ls) w (tmp_ne path) in
      elim (Bool-cases wrote) [
        | inr e ↦ rw (e, not, if◌then◌else◌) (inr (λ h. absurd (cc h), other))
        | inl e ↦ elim (Bool-cases (sys.rename tmp path w₁).0) [
          | inl m ↦
              rw (e, m, not, if◌then◌else◌)
                (inl (
                  refl,
                  lawful.rename_read tmp path w₁ m ∙ lawful.write_read tmp (join_lines ls) w e,
                ))
          | inr m ↦
              rw (e, m, not, if◌then◌else◌)
                (inr (λ h. absurd (cc h), lawful.rename_fail tmp path path w₁ m ∙ other))
        ]
      ]

  run_edit-Atomic :
      (path : Text) (e : Edit) (w : W)
      → Honest e
      → Atomic sys path (edit_lines e) w (run_edit sys path e w)
  run_edit-Atomic path (write ls) w h = file_write-Atomic path ls w
  run_edit-Atomic path (answer r) w h = (h, refl)

  -- On a file system as relied on: if `rule_upsert` answers `ok`, the edit has lines to write and the file then has
  -- all of them; with any other answer the file reads as before.
  pub rule_upsert-Atomic :
      (path pkg thread cpus : Text) (w : W)
      → Atomic sys path
          (edit_lines (upsert_lines pkg thread cpus (read_lines sys path w)))
          w
          (rule_upsert sys path pkg thread cpus w)
  unfolding rule_upsert
  rule_upsert-Atomic path pkg thread cpus w =
      run_edit-Atomic path (upsert_lines pkg thread cpus (read_lines sys path w)) w
        (upsert_lines-Honest pkg thread cpus (read_lines sys path w))

  -- On a file system as relied on: if `rule_delete` answers `ok`, there is something to delete and the file then has
  -- all of the lines that are left; with any other answer the file reads as before.
  pub rule_delete-Atomic :
      (path pkg thread : Text) (w : W)
      → Atomic sys path
          (edit_lines (delete_lines pkg thread (read_lines sys path w)))
          w
          (rule_delete sys path pkg thread w)
  unfolding rule_delete
  rule_delete-Atomic path pkg thread w =
      run_edit-Atomic path (delete_lines pkg thread (read_lines sys path w)) w
        (delete_lines-Honest pkg thread (read_lines sys path w))

  -- What a clone answers is what the check answers, or the write failed.
  abbrev Agreed : Text → Text → W → List Text × Prepared → Type 0
  Agreed path target w (ls, p) =
      Atomic sys path (clone_lines target (ls, p)) w (finish_clone sys path target ls p w)
      × ((check_result sys p ≡ ok)
          ⊎ (finish_clone sys path target ls p w ≡ (check_result sys p, w)))

  finish_clone-Agreed :
      (path target : Text) (w : W) (ls : List Text) (p : Prepared)
      → Refusal p
      → Agreed path target w (ls, p)
  finish_clone-Agreed path target w ls (rules r) h =
      (file_write-Atomic path (clone_append target r ls) w, inl refl)
  finish_clone-Agreed path target w ls (refused e) h = ((h, refl), inr refl)

  -- On a file system as relied on: if `rule_clone` answers `ok`, the clone could be prepared and the file then has the
  -- prepared lines with the cloned rules behind them; with any other answer the file reads as before. When
  -- `rule_clone_check` does not answer `ok`, `rule_clone` answers the same and writes nothing.
  pub rule_clone-Atomic :
      (path source target : Text) (copy_package copy_threads : Bool) (w : W)
      → Atomic sys path
          (clone_lines target
            (clone_prepare source target copy_package copy_threads (read_lines sys path w)))
          w
          (rule_clone sys path source target copy_package copy_threads w)
        × ((rule_clone_check sys path source target copy_package copy_threads w ≡ ok)
            ⊎ (rule_clone sys path source target copy_package copy_threads w
                ≡ (rule_clone_check sys path source target copy_package copy_threads w, w)))
  unfolding rule_clone rule_clone_check
  rule_clone-Atomic path source target copy_package copy_threads w =
      let lines = read_lines sys path w in
      finish_clone-Agreed path target w
        (clone_prepare source target copy_package copy_threads lines).0
        (clone_prepare source target copy_package copy_threads lines).1
        (clone_prepare-Refusal source target copy_package copy_threads lines)
