-- ===== src/RuleEdit/Ops.antt =====
-- AppOptR/src/rule_edit.rs: `rule_upsert`, `rule_delete`, `rule_delete_pkg`, `rule_rename` and
-- `file_write`. The calls on the file system are a parameter over a state `W`. `WRITE_LOCK` makes
-- the functions run one at a time.
use app_opt_r_plus.Prelude.{
  ℕ, zero, suc, ◌+◌, Bool, true, false, not, ◌&&◌, ◌||◌, Option, none, some, List, [], ◌∷◌, ◌++◌,
  leb, ◌==◌, if◌then◌else◌, is_empty, any, set, length, map, max,
}
use app_opt_r_plus.Prelude.Text.{
  Text, codes, text_eq, trim, trim_end, contains, lines as text_lines, strip_prefix,
}
use app_opt_r_plus.Config.{bare_open, parse_outer}
use app_opt_r_plus.RuleEdit.{
  RuleEdit, ok, not_found, conflict, malformed, io_err, PkgLine, standalone, open_inline, open_bare,
  bare_pending, ThreadLoc, Target, target_scan, singles, any_line, thread_locs, flat_locs,
}
use app_opt_r_plus.RuleEdit.Lines.{
  remove_line, splice, line_at, bare_open_line, with_comment, spec_swap, remove_last_first,
  normalize_singles, thread_line,
}

-- `fs::read_to_string`; `create`, `write_all` and `sync_all` on one file; `fs::rename`.
pub record FileSys (W : Type 0) : Type 0 where
  pub read : Text → W → Option Text
  pub write : Text → Text → W → Bool × W
  pub rename : Text → Text → W → Bool × W

-- The lines joined by `\n`, and one more `\n`.
unfoldable pub join_lines : List Text → Text
join_lines [] = codes "\n"
join_lines (l ∷ []) = l ++ codes "\n"
join_lines (l ∷ l' ∷ ls) = l ++ (b'\n' ∷ join_lines (l' ∷ ls))

-- What an edit does to the lines: new lines to write, or an answer without a write.
pub data Edit : Type 0 where
  write : List Text → Edit
  answer : RuleEdit → Edit

-- The package rule, by the package line that is there.
abbrev pub upsert_package : Text → Text → List Text → Target → Option PkgLine → Edit
upsert_package pkg cpus ls t (some (standalone i)) =
    write (set ls i (spec_swap (line_at ls i) cpus))
upsert_package pkg cpus ls t (some (bare_pending i)) =
    let ls' = set ls i (with_comment (pkg ++ (b'=' ∷ (cpus ++ codes " {"))) (line_at ls i)) in
    write (elim t.block_open [
      | none ↦ ls'
      | some at ↦ elim (parse_outer (trim (line_at ls' at))) [
        | bare_open owner ↦ if is_empty owner then remove_line at ls' else ls'
        | _ ↦ ls'
      ]
    ])
upsert_package pkg cpus ls t (some (open_inline i)) =
    write (set ls i (spec_swap (line_at ls i) cpus))
upsert_package pkg cpus ls t (some (open_bare i)) =
    write (set ls i (with_comment (pkg ++ (b'=' ∷ (cpus ++ codes " {"))) (line_at ls i)))
upsert_package pkg cpus ls t none =
    if t.unterminated then answer malformed else write (ls ++ (pkg ++ (b'=' ∷ cpus)) ∷ [])

-- The last place of a thread gets the specification, and the others go.
abbrev split_locs : ThreadLoc → List ThreadLoc → List ThreadLoc × ThreadLoc
split_locs l [] = ([], l)
split_locs l (l' ∷ ls) = let r = split_locs l' ls in (l ∷ r.0, r.1)

abbrev pub upsert_locs : Text → Text → List Text → List ThreadLoc → List Text
upsert_locs pkg cpus ls [] = ls
upsert_locs pkg cpus ls (l ∷ locs) =
    let r = split_locs l locs in
    remove_last_first pkg r.0 (set ls r.1.idx (spec_swap (line_at ls r.1.idx) cpus))

abbrev pub upsert_new_thread :
    Text → Text → Text → List Text → Target → Option ℕ → Option PkgLine → Edit
upsert_new_thread pkg thread cpus ls t (some close) line =
    write (splice close (thread_line thread cpus ∷ []) ls)
upsert_new_thread pkg thread cpus ls t none (some (standalone i)) = write (
    splice (i + 1) (thread_line thread cpus ∷ codes "}" ∷ [])
      (set ls i (trim_end (line_at ls i) ++ codes " {")))
upsert_new_thread pkg thread cpus ls t none _ =
    if t.unterminated
    then answer malformed
    else write (ls ++ (bare_open_line pkg ∷ thread_line thread cpus ∷ codes "}" ∷ []))

unfoldable pub upsert_lines : Text → Text → Text → List Text → Edit
unfolding target_scan normalize_singles thread_locs spec_swap with_comment remove_last_first
    remove_line splice bare_open_line
upsert_lines pkg thread cpus lines =
    let ls = normalize_singles pkg lines in
    let t = target_scan ls pkg in
    if is_empty thread
    then upsert_package pkg cpus ls t t.pkg_line
    else elim (thread_locs thread t.threads) [
      | some locs ↦ write (upsert_locs pkg cpus ls locs)
      | none ↦ upsert_new_thread pkg thread cpus ls t t.block_close t.pkg_line
    ]

abbrev pub delete_package : Text → List Text → Option PkgLine → Edit
delete_package pkg ls (some (standalone i)) = write (remove_line i ls)
delete_package pkg ls (some (open_inline i)) = write (set ls i (bare_open_line pkg))
delete_package pkg ls _ = answer not_found

unfoldable pub delete_lines : Text → Text → List Text → Edit
unfolding target_scan normalize_singles thread_locs remove_last_first remove_line bare_open_line
delete_lines pkg thread lines =
    let ls = normalize_singles pkg lines in
    let t = target_scan ls pkg in
    if is_empty thread
    then delete_package pkg ls t.pkg_line
    else elim (thread_locs thread t.threads) [
      | some locs ↦ write (remove_last_first pkg locs ls)
      | none ↦ answer not_found
    ]

abbrev pub pkg_line_idx : Option PkgLine → List ℕ
pkg_line_idx none = []
pkg_line_idx (some (standalone i)) = i ∷ []
pkg_line_idx (some (open_inline i)) = i ∷ []
pkg_line_idx (some (open_bare i)) = i ∷ []
pkg_line_idx (some (bare_pending i)) = i ∷ []

-- The greatest index among thread lines that are no single-line rules.
abbrev max_idx : List ThreadLoc → Option ℕ
max_idx [] = none
max_idx (l ∷ ls) =
    if l.single
    then max_idx ls
    else elim (max_idx ls) [ none ↦ some l.idx | some m ↦ some (max l.idx m) ]

abbrev block_end : Target → ℕ → ℕ
block_end t at = elim t.block_close [
  | some close ↦ close
  | none ↦ elim (max_idx (flat_locs t.threads)) [ none ↦ at | some m ↦ m ]
]

abbrev pub in_block_of : Target → Option ℕ → ℕ → Bool
in_block_of t none i = false
in_block_of t (some at) i = leb at i && leb i (block_end t at)

-- Whether line `i` is in `del`, once that is sorted and its duplicates are gone.
unfoldable pub is_deleted : Target → ℕ → Bool
unfolding singles
is_deleted t i =
    any (λ j. j == i) (pkg_line_idx t.pkg_line)
    || in_block_of t t.block_open i
    || any (λ l. l.idx == i) (singles t)

-- `for i in del.into_iter().rev() { lines.remove(i) }`: the lines that are not in `del` stay.
unfoldable pub remove_deleted : Target → ℕ → List Text → List Text
remove_deleted t i [] = []
remove_deleted t i (l ∷ ls) =
    if is_deleted t i then remove_deleted t (i + 1) ls else l ∷ remove_deleted t (i + 1) ls

-- The loop of `rule_delete_pkg`; `none` means that the fuel ran out.
unfoldable pub delete_pkg_loop : ℕ → Text → Bool → List Text → Option (List Text × Bool)
unfolding target_scan any_line remove_deleted is_deleted
delete_pkg_loop zero pkg removed ls = none
delete_pkg_loop (suc fuel) pkg removed ls =
    let t = target_scan ls pkg in
    let rest = delete_pkg_loop fuel pkg true (remove_deleted t 0 ls) in
    if not (any_line t) then some (ls, removed) else rest

abbrev pub removed_edit : Option (List Text × Bool) → Option Edit
removed_edit none = none
removed_edit (some (ls, removed)) = some (if not removed then answer not_found else write ls)

unfoldable pub delete_pkg_lines : Text → List Text → Option Edit
unfolding normalize_singles delete_pkg_loop
delete_pkg_lines pkg lines =
    let ls = normalize_singles pkg lines in
    removed_edit (delete_pkg_loop (suc (length ls)) pkg false ls)

-- The rest of a line behind the old name, as it stands behind the new one.
abbrev rename_tail : Text → Text → Text
rename_tail new rest =
    let t = trim rest in
    if contains new b'=' && (is_empty t || text_eq t (codes "="))
    then codes "="
    else if contains new b'=' && text_eq t (codes "{")
    then codes "= {"
    else rest

unfoldable pub rename_line : Text → Text → Text → Text
rename_line old new line = elim (strip_prefix (trim line) old) [
  | none ↦ line
  | some rest ↦ new ++ rename_tail new rest
]

unfoldable pub rename_idxs : Text → Text → List ℕ → List Text → List Text
unfolding rename_line
rename_idxs old new [] ls = ls
rename_idxs old new (i ∷ is) ls =
    rename_idxs old new is (set ls i (rename_line old new (line_at ls i)))

abbrev rename_targets : Target → List ℕ
rename_targets t = map (λ l. l.idx) (singles t) ++ pkg_line_idx t.pkg_line

unfoldable pub rename_loop : ℕ → Text → Text → List Text → Option (List Text)
unfolding target_scan singles rename_idxs
rename_loop zero old new ls = none
rename_loop (suc fuel) old new ls =
    let idxs = rename_targets (target_scan ls old) in
    let rest = rename_loop fuel old new (rename_idxs old new idxs ls) in
    if is_empty idxs then some ls else rest

-- `fuel` bounds the rounds of the loop, for which the source has no bound.
unfoldable pub rename_lines : ℕ → Text → Text → List Text → Option Edit
unfolding normalize_singles target_scan any_line rename_loop
rename_lines fuel old new lines =
    let ls = normalize_singles old lines in
    if not (any_line (target_scan ls old))
    then some (answer not_found)
    else if any_line (target_scan ls new)
    then some (answer conflict)
    else elim (rename_loop fuel old new ls) [ none ↦ none | some r ↦ some (write r) ]

module _ {W : Type 0} (sys : FileSys W) where
  unfoldable pub file_write : Text → List Text → W → RuleEdit × W
  unfolding join_lines
  file_write path ls w =
      let tmp = path ++ codes ".tmp" in
      let (wrote, w₁) = sys.write tmp (join_lines ls) w in
      if not wrote
      then (io_err, w₁)
      else let (moved, w₂) = sys.rename tmp path w₁ in (if moved then ok else io_err, w₂)

  -- `fs::read_to_string(path).unwrap_or_default().lines()`.
  unfoldable pub read_lines : Text → W → List Text
  read_lines path w = elim (sys.read path w) [ none ↦ [] | some text ↦ text_lines text ]

  abbrev pub run_edit : Text → Edit → W → RuleEdit × W
  run_edit path (write ls) w = file_write path ls w
  run_edit path (answer r) w = (r, w)

  unfoldable pub rule_upsert : Text → Text → Text → Text → W → RuleEdit × W
  unfolding upsert_lines file_write read_lines
  rule_upsert path pkg thread cpus w =
      run_edit path (upsert_lines pkg thread cpus (read_lines path w)) w

  unfoldable pub rule_delete : Text → Text → Text → W → RuleEdit × W
  unfolding delete_lines file_write read_lines
  rule_delete path pkg thread w = run_edit path (delete_lines pkg thread (read_lines path w)) w

  unfoldable pub rule_delete_pkg : Text → Text → W → Option (RuleEdit × W)
  unfolding delete_pkg_lines file_write read_lines
  rule_delete_pkg path pkg w = elim (delete_pkg_lines pkg (read_lines path w)) [
    | none ↦ none
    | some e ↦ some (run_edit path e w)
  ]

  unfoldable pub rule_rename : ℕ → Text → Text → Text → W → Option (RuleEdit × W)
  unfolding rename_lines file_write read_lines
  rule_rename fuel path old new w = elim (rename_lines fuel old new (read_lines path w)) [
    | none ↦ none
    | some e ↦ some (run_edit path e w)
  ]
