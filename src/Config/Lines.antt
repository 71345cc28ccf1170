-- ===== src/Config/Lines.antt =====
-- AppOptR/src/config.rs: lemmas on how the grammar reads the lines that the editor writes, over words without
-- white space, `=`, braces, `#` and `/`.
use app_opt_r_plus.Prelude.{
  ℕ, ◌≡◌, refl, sym, ap, ◌∙◌, Bool, true, false, ◌||◌, none, some, [], ◌∷◌, ◌++◌, arith, any,
  any-append, is_empty, ◌==◌, append_assoc,
}
use app_opt_r_plus.Prelude.Text.{
  Text, codes, is_whitespace, contains, trim, rsplit_once, strip_last,
}
use app_opt_r_plus.Prelude.Text.Split.{
  contains-append, rsplit_once-append, rsplit_once_absent, strip_last_absent, strip_last-concat,
  trim_end-concat, trim_none, trim_end_none,
}
use app_opt_r_plus.Config.{
  comment_from, comment_at, strip_comment, kv, closed_kv, split_rule_line, close_like,
  split_single_line, rule, bare_open, parse_outer,
}

abbrev pub special : ℕ → Bool
special c = is_whitespace c || c == b'=' || c == b'{' || c == b'}' || c == b'#' || c == b'/'

-- A word: not empty, and none of those characters in it.
pub record IsWord (s : Text) : Type 0 where
  pub ne_nil : is_empty s ≡ false
  pub plain : any special s ≡ false

pub word-contains :
    (s : Text) (d : ℕ) → any special s ≡ false → special d ≡ true → contains s d ≡ false
unfolding contains
word-contains [] d h g = refl
word-contains (c ∷ s) d h g = ground (arith, word-contains s d, ap special {x = c} {y = d})

word-whitespace : (s : Text) → any special s ≡ false → any is_whitespace s ≡ false
word-whitespace [] h = refl
word-whitespace (c ∷ s) h = ground (arith, word-whitespace s)

-- A text with neither `#` nor `/` has no comment.
comment_from-none :
    (prev : Bool) (before s : Text)
    → contains s b'#' ≡ false
    → contains s b'/' ≡ false
    → comment_from prev before s ≡ none
unfolding comment_from contains
comment_from-none prev before [] h g = refl
comment_from-none prev before (c ∷ s) h g =
    ground (arith, comment_from-none (is_whitespace c) (before ++ c ∷ []) s)

pub strip_comment_none :
    (s : Text) → contains s b'#' ≡ false → contains s b'/' ≡ false → strip_comment s ≡ s
unfolding strip_comment comment_at
strip_comment_none s h g = ground (arith, comment_from-none false [] s h g)

-- A key and a value, both words.
module _ (k v : Text) (wk : IsWord k) (wv : IsWord v) where
  abbrev pub pair : Text
  pair = k ++ (b'=' ∷ v)

  pair-contains : (d : ℕ) → special d ≡ true → (b'=' == d) ≡ false → contains pair d ≡ false
  unfolding contains
  pair-contains d h g = ground (
    arith,
    contains-append k (b'=' ∷ v) d,
    word-contains k d wk.plain h,
    word-contains v d wv.plain h,
  )

  pair-rsplit : rsplit_once b'=' pair ≡ some (k, v)
  unfolding is_whitespace
  pair-rsplit = rsplit_once-append b'=' k v (word-contains v b'=' wv.plain refl)

  word-trim : (s : Text) → any special s ≡ false → trim s ≡ s
  word-trim s h = trim_none s (word-whitespace s h)

  pair-not_single : split_single_line pair ≡ none
  unfolding split_single_line is_whitespace
  pair-not_single = ground (
    arith,
    pair-rsplit,
    trim_end_none k (word-whitespace k wk.plain),
    strip_last_absent b'}' k (word-contains k b'}' wk.plain refl),
  )

  pub pair-not_close : close_like pair ≡ false
  unfolding close_like
  pair-not_close = first k wk.ne_nil wk.plain
    where
      first :
          (s : Text)
          → is_empty s ≡ false
          → any special s ≡ false
          → close_like (s ++ (b'=' ∷ v)) ≡ false
      first [] h g = cc
      first (c ∷ s) h g = ground arith

  pair-strip_comment : strip_comment pair ≡ pair
  unfolding is_whitespace
  pair-strip_comment =
      strip_comment_none pair (pair-contains b'#' refl refl) (pair-contains b'/' refl refl)

  -- `pkg=cpus` is a package rule.
  pub parse_outer-pair : parse_outer pair ≡ rule k v false
  unfolding parse_outer is_whitespace
  parse_outer-pair = ground (
    arith,
    pair-strip_comment,
    strip_last_absent b'{' pair (pair-contains b'{' refl refl),
    pair-not_single,
    pair-not_close,
    pair-rsplit,
    word-trim k wk.plain,
    word-trim v wv.plain,
    wv.ne_nil,
  )

  pub pair-whitespace : any is_whitespace pair ≡ false
  unfolding is_whitespace
  pair-whitespace = ground (
    arith,
    any-append is_whitespace k (b'=' ∷ v),
    word-whitespace k wk.plain,
    word-whitespace v wv.plain,
  )

  abbrev pub open_pair : Text
  open_pair = pair ++ codes " {"

  open_pair-strip_comment : strip_comment open_pair ≡ open_pair
  unfolding is_whitespace contains
  open_pair-strip_comment =
      strip_comment_none open_pair
        (rw contains-append (ground (arith, pair-contains b'#' refl refl)))
        (rw contains-append (ground (arith, pair-contains b'/' refl refl)))

  open_pair-strip_last : strip_last b'{' open_pair ≡ some (pair ++ codes " ")
  open_pair-strip_last =
      ap (strip_last b'{') (sym (append_assoc pair (codes " ") (codes "{")))
      ∙ strip_last-concat b'{' (pair ++ codes " ")

  -- `pkg=cpus {` is a package rule that opens a block.
  pub parse_outer-open_pair : parse_outer open_pair ≡ rule k v true
  unfolding parse_outer is_whitespace
  parse_outer-open_pair = ground (
    arith,
    open_pair-strip_comment,
    open_pair-strip_last,
    trim_end-concat pair 32 refl,
    trim_end_none pair pair-whitespace,
    pair-not_single,
    pair-rsplit,
    word-trim k wk.plain,
    word-trim v wv.plain,
    wv.ne_nil,
  )

  closed_kv-none : (before s : Text) → contains s b'}' ≡ false → closed_kv before s ≡ none
  unfolding closed_kv contains
  closed_kv-none before [] h = refl
  closed_kv-none before (c ∷ s) h = ground (arith, closed_kv-none (before ++ c ∷ []) s)

  -- `thread=cpus` in a block is a thread rule that does not close it.
  pub split_rule_line-pair : split_rule_line pair ≡ some (k, v, false)
  unfolding split_rule_line kv is_whitespace
  split_rule_line-pair = ground (
    arith,
    pair-strip_comment,
    closed_kv-none [] pair (pair-contains b'}' refl refl),
    pair-rsplit,
    word-trim k wk.plain,
    word-trim v wv.plain,
    wk.ne_nil,
  )

-- `pkg {` opens a block.
module _ (k : Text) (wk : IsWord k) where
  abbrev pub open_line : Text
  open_line = k ++ codes " {"

  word-not_close : close_like k ≡ false
  unfolding close_like
  word-not_close = first k wk.ne_nil wk.plain
    where
      first : (s : Text) → is_empty s ≡ false → any special s ≡ false → close_like s ≡ false
      first [] h g = cc
      first (c ∷ s) h g = ground arith

  open_line-strip_comment : strip_comment open_line ≡ open_line
  unfolding is_whitespace contains
  open_line-strip_comment =
      strip_comment_none open_line
        (rw contains-append (ground (arith, word-contains k b'#' wk.plain refl)))
        (rw contains-append (ground (arith, word-contains k b'/' wk.plain refl)))

  open_line-strip_last : strip_last b'{' open_line ≡ some (k ++ codes " ")
  open_line-strip_last =
      ap (strip_last b'{') (sym (append_assoc k (codes " ") (codes "{")))
      ∙ strip_last-concat b'{' (k ++ codes " ")

  pub parse_outer-open_line : parse_outer open_line ≡ bare_open k
  unfolding parse_outer split_single_line is_whitespace
  parse_outer-open_line = ground (
    arith,
    open_line-strip_comment,
    open_line-strip_last,
    trim_end-concat k 32 refl,
    trim_end_none k (word-whitespace k wk.plain),
    rsplit_once_absent b'=' k (word-contains k b'=' wk.plain refl),
  )
