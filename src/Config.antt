-- ===== src/Config.antt =====
-- AppOptR/src/config.rs, the syntax of a line of applist.conf.
pub mod Lines
pub mod Reload
pub mod Load
use app_opt_r_plus.Prelude.{
  ℕ, zero, suc, ◌+◌, Bool, true, false, not, ◌&&◌, ◌||◌, Option, none, some, List, [], ◌∷◌, ◌++◌,
  ltb, ◌==◌, if◌then◌else◌, is_empty, length, take, all,
}
use app_opt_r_plus.Prelude.Text.{
  Text, codes, text_eq, is_whitespace, is_digit, trim, trim_end, split, split_once, rsplit_once,
  strip_last, starts_with,
}

-- A pair of digit strings with a `-` between.
abbrev digit_pair : Option (Text × Text) → Bool
digit_pair none = false
digit_pair (some (a, b)) = not (is_empty a) && not (is_empty b) && all is_digit a && all is_digit b

unfoldable pub spec_part_ok : Text → Bool
spec_part_ok t =
    text_eq t (codes "e-core")
    || text_eq t (codes "p-core")
    || text_eq t (codes "hp-core")
    || text_eq t (codes "all-core")
    || all is_digit t
    || digit_pair (split_once b'-' t)

-- The loop of `spec_like`, with its `any`.
unfoldable pub spec_like_loop : Bool → List Text → Bool
spec_like_loop seen [] = seen
spec_like_loop seen (p ∷ ps) =
    let skip = spec_like_loop seen ps in
    let next = spec_like_loop true ps in
    if is_empty (trim p) then skip else if not (spec_part_ok (trim p)) then false else next

unfoldable pub spec_like : Text → Bool
unfolding spec_part_ok spec_like_loop
spec_like s = spec_like_loop false (split b',' s)

-- A `#` or `//` begins a comment.
abbrev pub comment_mark : ℕ → Text → Bool
comment_mark c s = c == b'#' || (c == b'/' && starts_with (c ∷ s) (codes "//"))

-- The loop of `comment_at`, with the characters read so far.
unfoldable pub comment_from : Bool → Text → Text → Option ℕ
comment_from prev_ws before [] = none
comment_from prev_ws before (c ∷ s) =
    let rest = comment_from (is_whitespace c) (before ++ c ∷ []) s in
    if prev_ws && comment_mark c s then some (length (trim_end before)) else rest

-- Where the text before a comment ends: a count of characters here, of bytes in the source.
unfoldable pub comment_at : Text → Option ℕ
unfolding comment_from
comment_at s = comment_from false [] s

unfoldable pub strip_comment : Text → Text
unfolding comment_at
strip_comment s = elim (comment_at s) [ none ↦ s | some n ↦ take n s ]

abbrev kv_of : Option (Text × Text) → Option (Text × Text)
kv_of none = none
kv_of (some (a, b)) = if is_empty (trim a) then none else some (trim a, trim b)

-- The inner function `kv`.
unfoldable pub kv : Text → Option (Text × Text)
kv s = kv_of (rsplit_once b'=' s)

-- `match_indices('}').find_map(…)`: the first `}` with a key and a value before it.
unfoldable pub closed_kv : Text → Text → Option (Text × Text)
closed_kv before [] = none
closed_kv before (c ∷ s) =
    let rest = closed_kv (before ++ c ∷ []) s in
    if c == b'}' then elim (kv before) [ none ↦ rest | some e ↦ some e ] else rest

abbrev with_flag : Bool → Option (Text × Text) → Option (Text × Text × Bool)
with_flag b none = none
with_flag b (some (k, v)) = some (k, v, b)

abbrev or_else {ℓ} : {A : Type ℓ} → Option A → Option A → Option A
or_else none o = o
or_else (some a) o = some a

unfoldable pub split_rule_line : Text → Option (Text × Text × Bool)
unfolding strip_comment kv closed_kv
split_rule_line p =
    let q = strip_comment p in or_else (with_flag true (closed_kv [] q)) (with_flag false (kv q))

abbrev close_rest : Text → Bool
close_rest [] = true
close_rest (c ∷ s) = is_whitespace c || c == b'#' || starts_with (c ∷ s) (codes "//")

unfoldable pub close_like : Text → Bool
close_like [] = false
close_like (c ∷ s) = c == b'}' && close_rest s

abbrev single_parts : Text → Option (Text × Text) → Option (Text × Text × Text)
single_parts cpus none = none
single_parts cpus (some (a, b)) =
    if not (is_empty (trim a)) && not (is_empty (trim b)) then some (trim a, trim b, cpus) else none

abbrev single_left : Text → Option Text → Option (Text × Text × Text)
single_left cpus none = none
single_left cpus (some l) = single_parts cpus (split_once b'{' (trim_end l))

abbrev single_of : Option (Text × Text) → Option (Text × Text × Text)
single_of none = none
single_of (some (a, b)) = single_left (trim b) (strip_last b'}' (trim_end a))

-- `pkg{thread}=cpus`.
unfoldable pub split_single_line : Text → Option (Text × Text × Text)
split_single_line body = single_of (rsplit_once b'=' body)

pub data OuterLine : Type 0 where
  rule : Text → Text → Bool → OuterLine
  bare_open : Text → OuterLine
  pending : Text → OuterLine
  single : Text → Text → Text → Bool → OuterLine
  junk : OuterLine

-- `match body.rfind('=')`.
abbrev outer_kv : Bool → Text → Option (Text × Text) → OuterLine
outer_kv opens body (some (a, b)) =
    if is_empty (trim b)
    then if opens then bare_open (trim a) else pending (trim a)
    else rule (trim a) (trim b) opens
outer_kv opens body none = if opens then bare_open body else pending body

abbrev outer_body : Bool → Text → Option (Text × Text × Text) → OuterLine
outer_body opens body (some (pkg, thread, cpus)) = single pkg thread cpus opens
outer_body opens body none =
    if not opens && close_like body then junk else outer_kv opens body (rsplit_once b'=' body)

abbrev outer_open : Text → Option Text → OuterLine
outer_open p (some b) = outer_body true (trim_end b) (split_single_line (trim_end b))
outer_open p none = outer_body false p (split_single_line p)

unfoldable pub parse_outer : Text → OuterLine
unfolding strip_comment split_single_line close_like
parse_outer p = let q = strip_comment p in outer_open q (strip_last b'{' q)
