-- ===== src/RuleEdit/Lines.antt =====
-- AppOptR/src/rule_edit.rs: edits of single lines, and `normalize_singles`, which gathers the
-- single-line thread rules of a package in its block.
use app_opt_r_plus.Prelude.{
  ℕ, zero, suc, ◌+◌, Bool, true, false, ◌&&◌, ◌||◌, Option, none, some, List, [], ◌∷◌, ◌++◌, ltb,
  ◌==◌, if◌then◌else◌, is_empty, is_none, get_or, any, keep, take, drop, set, min, length, map,
}
use app_opt_r_plus.Prelude.Text.{
  Text, codes, trim, trim_start, trim_end, contains, is_whitespace, rsplit_once, strip_last,
}
use app_opt_r_plus.Config.{comment_at, strip_comment, split_single_line}
use app_opt_r_plus.RuleEdit.{PkgLine, standalone, ThreadLoc, target_scan, singles}

-- `Vec::remove`, `Vec::insert` and `splice(at..at, chunk)`. The source panics past the end.
unfoldable pub remove_line : ℕ → List Text → List Text
remove_line i [] = []
remove_line zero (l ∷ ls) = ls
remove_line (suc i) (l ∷ ls) = l ∷ remove_line i ls

unfoldable pub splice : ℕ → List Text → List Text → List Text
splice at chunk ls = take at ls ++ (chunk ++ drop at ls)

abbrev pub line_at : List Text → ℕ → Text
line_at ls i = get_or ls i []

unfoldable pub bare_open_line : Text → Text
bare_open_line pkg = if contains pkg b'=' then pkg ++ codes "= {" else pkg ++ codes " {"

unfoldable pub with_comment : Text → Text → Text
with_comment new_line old = elim (comment_at old) [
  | none ↦ new_line
  | some at ↦ new_line ++ drop at old
]

-- White space at the front, the end of a value, and what stands behind it.
abbrev leading_ws : Text → Text
leading_ws [] = []
leading_ws (c ∷ s) = if is_whitespace c then c ∷ leading_ws s else []

abbrev ends_value : ℕ → Bool
ends_value c = is_whitespace c || c == b'{' || c == b'}'

abbrev after_value : Text → Text
after_value [] = []
after_value (c ∷ s) = if ends_value c then c ∷ s else after_value s

abbrev swap_at : Text → Text → Text → Option (Text × Text) → Text
swap_at raw cpus rest none = raw
swap_at raw cpus rest (some (a, rhs)) =
    a
    ++ (b'='
        ∷ (leading_ws rhs ++ (cpus ++ (keep ends_value (after_value (trim_start rhs)) ++ rest))))

abbrev cut_of : Text → ℕ
cut_of raw = elim (comment_at raw) [ none ↦ length raw | some at ↦ at ]

-- A new CPU specification on a line, with its white space, braces and comment kept.
unfoldable pub spec_swap : Text → Text → Text
spec_swap raw cpus =
    swap_at raw cpus (drop (cut_of raw) raw) (rsplit_once b'=' (take (cut_of raw) raw))

unfoldable pub line_remove : Text → ThreadLoc → List Text → List Text
unfolding with_comment bare_open_line remove_line
line_remove pkg loc lines =
    if loc.opens
    then set lines loc.idx (with_comment (bare_open_line pkg) (line_at lines loc.idx))
    else if loc.closed
    then set lines loc.idx (with_comment (codes "}") (line_at lines loc.idx))
    else remove_line loc.idx lines

-- `for loc in locs.iter().rev() { line_remove(lines, pkg, loc) }`.
unfoldable pub remove_last_first : Text → List ThreadLoc → List Text → List Text
unfolding line_remove
remove_last_first pkg [] lines = lines
remove_last_first pkg (loc ∷ locs) lines = line_remove pkg loc (remove_last_first pkg locs lines)

abbrev pub single_body : Text → Text
single_body raw = elim (strip_last b'{' raw) [ none ↦ raw | some b ↦ trim_end b ]

abbrev pub Item : Type 0
Item = ThreadLoc × Text

abbrev pub thread_line : Text → Text → Text
thread_line thread cpus = codes "\t" ++ (thread ++ (b'=' ∷ cpus))

-- The lines of the single-line rules, as they will stand in the block.
abbrev item_of : ThreadLoc → Text → Option (Text × Text × Text) → List Item
item_of loc raw_line none = []
item_of loc raw_line (some (_, th, cp)) = (loc, with_comment (thread_line th cp) raw_line) ∷ []

unfoldable pub single_items : List Text → List ThreadLoc → List Item
unfolding with_comment
single_items lines [] = []
single_items lines (loc ∷ locs) =
    let raw_line = trim (line_at lines loc.idx) in
    item_of loc raw_line (split_single_line (single_body (strip_comment raw_line)))
    ++ single_items lines locs

unfoldable pub insert_item : Item → List Item → List Item
insert_item x [] = x ∷ []
insert_item x (y ∷ ys) = if ltb x.0.idx y.0.idx then x ∷ y ∷ ys else y ∷ insert_item x ys

unfoldable pub sort_items : List Item → List Item
unfolding insert_item
sort_items [] = []
sort_items (x ∷ xs) = insert_item x (sort_items xs)

abbrev not_standalone : Option PkgLine → Bool
not_standalone none = false
not_standalone (some (standalone _)) = false
not_standalone (some _) = true

abbrev first_idx : List Item → ℕ
first_idx [] = 0
first_idx (x ∷ xs) = x.0.idx

-- The lines without the single-line rules get them back in the block.
abbrev place_items : Text → ℕ → List Text → Option ℕ → Option PkgLine → List Text → List Text
place_items pkg at items (some close) line lines = splice close items lines
place_items pkg at items none (some (standalone i)) lines =
    splice (i + 1) (items ++ codes "}" ∷ [])
      (set lines i (trim_end (line_at lines i) ++ codes " {"))
place_items pkg at items none _ lines =
    splice (min at (length lines)) (bare_open_line pkg ∷ (items ++ codes "}" ∷ [])) lines

unfoldable pub normalize_singles : Text → List Text → List Text
unfolding target_scan singles single_items sort_items remove_last_first splice bare_open_line
normalize_singles pkg lines =
    let t = target_scan lines pkg in
    let items = sort_items (single_items lines (singles t)) in
    if is_empty items
    then lines
    else if is_none t.block_close && (any (λ x. x.0.opens) items || not_standalone t.pkg_line)
    then lines
    else let rest = remove_last_first pkg (map (λ x. x.0) items) lines in
      let t₂ = target_scan rest pkg in
      place_items pkg (first_idx items) (map (λ x. x.1) items) t₂.block_close t₂.pkg_line rest
