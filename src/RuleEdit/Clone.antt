-- ===== src/RuleEdit/Clone.antt =====
-- AppOptR/src/rule_edit.rs: `clone_prepare`, `clone_append`, `rule_clone_check` and `rule_clone`.
pub mod Append
use app_opt_r_plus.Prelude.{
  ℕ, Bool, false, not, ◌&&◌, ◌||◌, Option, none, some, List, [], ◌∷◌, ◌++◌, ltb, if◌then◌else◌,
  is_empty, is_none, get_elem?, map,
}
use app_opt_r_plus.Prelude.Text.{Text, codes, trim}
use app_opt_r_plus.Config.{
  OuterLine, rule, parse_outer, split_rule_line, split_single_line, strip_comment,
}
use app_opt_r_plus.RuleEdit.{
  RuleEdit, ok, not_found, conflict, malformed, PkgLine, standalone, open_inline, ThreadLoc,
  Threads, Target, target_scan, any_line,
}
use app_opt_r_plus.RuleEdit.Lines.{
  line_at, bare_open_line, normalize_singles, thread_line, single_body,
}
use app_opt_r_plus.RuleEdit.Ops.{FileSys, file_write, read_lines}

pub record CloneRules : Type 0 where
  pub package_cpus : Option Text
  pub threads : List (Text × Text)

abbrev rule_cpus : OuterLine → Option Text
rule_cpus (rule _ cpus _) = some cpus
rule_cpus _ = none

abbrev package_spec : List Text → Option PkgLine → Option Text
package_spec ls (some (standalone i)) = rule_cpus (parse_outer (trim (line_at ls i)))
package_spec ls (some (open_inline i)) = rule_cpus (parse_outer (trim (line_at ls i)))
package_spec ls _ = none

unfoldable pub clone_package_spec : List Text → Target → Option Text
clone_package_spec ls t = package_spec ls t.pkg_line

abbrev third : Option (Text × Text × Text) → Option Text
third none = none
third (some (_, _, c)) = some c

abbrev second : Option (Text × Text × Bool) → Option Text
second none = none
second (some (_, c, _)) = some c

abbrev thread_spec : ThreadLoc → Option Text → Option Text
thread_spec loc none = none
thread_spec loc (some line) =
    if loc.single
    then third (split_single_line (single_body (strip_comment (trim line))))
    else second (split_rule_line (trim line))

unfoldable pub clone_thread_spec : List Text → ThreadLoc → Option Text
clone_thread_spec ls loc = thread_spec loc (get_elem? ls loc.idx)

abbrev pub Entry : Type 0
Entry = ℕ × Text × Text

abbrev entry_of : ℕ → Text → Option Text → List Entry
entry_of i thread none = []
entry_of i thread (some cpus) = (i, thread, cpus) ∷ []

unfoldable pub loc_entries : List Text → Text → List ThreadLoc → List Entry
unfolding clone_thread_spec
loc_entries ls thread [] = []
loc_entries ls thread (loc ∷ locs) =
    entry_of loc.idx thread (clone_thread_spec ls loc) ++ loc_entries ls thread locs

unfoldable pub thread_entries : List Text → Threads → List Entry
unfolding loc_entries
thread_entries ls [] = []
thread_entries ls ((thread, locs) ∷ ts) = loc_entries ls thread locs ++ thread_entries ls ts

unfoldable pub insert_entry : Entry → List Entry → List Entry
insert_entry x [] = x ∷ []
insert_entry x (y ∷ ys) = if ltb x.0 y.0 then x ∷ y ∷ ys else y ∷ insert_entry x ys

unfoldable pub sort_entries : List Entry → List Entry
unfolding insert_entry
sort_entries [] = []
sort_entries (x ∷ xs) = insert_entry x (sort_entries xs)

-- The normalized lines, with the rules to copy or the refusal.
pub data Prepared : Type 0 where
  rules : CloneRules → Prepared
  refused : RuleEdit → Prepared

unfoldable pub clone_prepare : Text → Text → Bool → Bool → List Text → List Text × Prepared
unfolding normalize_singles target_scan any_line clone_package_spec thread_entries sort_entries
clone_prepare source target copy_package copy_threads lines =
    let ls = normalize_singles target (normalize_singles source lines) in
    let source_rules = target_scan ls source in
    let target_rules = target_scan ls target in
    let package_cpus = clone_package_spec ls source_rules in
    let entries = sort_entries (thread_entries ls source_rules.threads) in
    (
      ls,
      (if source_rules.unterminated || target_rules.unterminated
          then refused malformed
          else if any_line target_rules
          then refused conflict
          else if copy_package && is_none package_cpus
          then refused not_found
          else if copy_threads && is_empty entries
          then refused not_found
          else rules (record {
            package_cpus = if copy_package then package_cpus else none;
            threads = if copy_threads then map (λ e. (e.1, e.2)) entries else [];
          })),
    )

abbrev pub last_blank : List Text → Bool
last_blank [] = false
last_blank (l ∷ []) = is_empty (trim l)
last_blank (l ∷ l' ∷ ls) = last_blank (l' ∷ ls)

-- The first line of the block.
abbrev pub head_line : Text → Option Text → Text
head_line target (some cpus) = target ++ (b'=' ∷ (cpus ++ codes " {"))
head_line target none = bare_open_line target

abbrev pub thread_lines : List (Text × Text) → List Text
thread_lines [] = []
thread_lines ((thread, cpus) ∷ ts) = thread_line thread cpus ∷ thread_lines ts

abbrev pub cloned_lines : Text → Option Text → List (Text × Text) → List Text
cloned_lines target none [] = []
cloned_lines target (some cpus) [] = (target ++ (b'=' ∷ cpus)) ∷ []
cloned_lines target pkg_cpus (t ∷ ts) =
    head_line target pkg_cpus ∷ (thread_lines (t ∷ ts) ++ codes "}" ∷ [])

unfoldable pub clone_append : Text → CloneRules → List Text → List Text
unfolding bare_open_line
clone_append target r lines =
    (if not (is_empty lines) && not (last_blank lines) then lines ++ [] ∷ [] else lines)
    ++ cloned_lines target r.package_cpus r.threads

module _ {W : Type 0} (sys : FileSys W) where
  abbrev pub check_result : Prepared → RuleEdit
  check_result (rules _) = ok
  check_result (refused error) = error

  unfoldable pub rule_clone_check : Text → Text → Text → Bool → Bool → W → RuleEdit
  unfolding clone_prepare read_lines
  rule_clone_check path source target copy_package copy_threads w =
      check_result (clone_prepare source target copy_package copy_threads (read_lines sys path w)).1

  abbrev pub finish_clone : Text → Text → List Text → Prepared → W → RuleEdit × W
  finish_clone path target ls (rules r) w = file_write sys path (clone_append target r ls) w
  finish_clone path target ls (refused error) w = (error, w)

  unfoldable pub rule_clone : Text → Text → Text → Bool → Bool → W → RuleEdit × W
  unfolding clone_prepare read_lines clone_append file_write
  rule_clone path source target copy_package copy_threads w =
      let (ls, p) = clone_prepare source target copy_package copy_threads (read_lines sys path w) in
      finish_clone path target ls p w
