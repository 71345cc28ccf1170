-- ===== src/Prelude/Text.antt =====
-- Text as the list of its characters (Unicode scalar values), with the operations of Rust's `str`
-- that the sources use. A cut at a byte position that a search returned is a cut of the list.
pub mod Split
pub mod Decimal
pub mod Utf8
pub mod Trim
use Prim.Native.Char.{code}
use Prim.Native.String.{String}
use app_opt_r_plus.Prelude.{
  ℕ, zero, suc, ◌+◌, ◌-◌, ◌*◌, ◌/◌, ◌%◌, ◌≤◌, ◌<◌, ◌^◌, Bool, true, false, not, ◌&&◌, ◌||◌, List,
  [], ◌∷◌, ◌++◌, Option, none, some, ltb, leb, ◌==◌, if◌then◌else◌, is_empty, any, all,
}
use app_opt_r_plus.Prelude.Int.{ℤ, pos, negsuc}

abbrev pub Text : Type 0
Text = List ℕ

-- A literal. `String` has its own `[]` and `∷`.
abbrev pub codes : String → Text
codes String.[] = []
codes (String.◌∷◌ c s) = code c ∷ codes s

-- `==` of two texts.
unfoldable pub text_eq : Text → Text → Bool
text_eq [] [] = true
text_eq (c ∷ s) (d ∷ t) = c == d && text_eq s t
text_eq _ _ = false

-- A set of texts as a list: a test, and an insertion that repeats nothing.
unfoldable pub member : Text → List Text → Bool
member s [] = false
member s (t ∷ ts) = text_eq s t || member s ts

unfoldable pub insert_text : Text → List Text → List Text
insert_text s ts = if member s ts then ts else ts ++ s ∷ []

unfoldable pub insert_all : List Text → List Text → List Text
insert_all [] set = set
insert_all (s ∷ ss) set = insert_all ss (insert_text s set)

-- `char::is_whitespace`: the characters with the Unicode property White_Space.
unfoldable pub is_whitespace : ℕ → Bool
is_whitespace c =
    (leb 9 c && leb c 13)
    || c == 32
    || c == 0x85
    || c == 0xa0
    || c == 0x1680
    || (leb 0x2000 c && leb c 0x200a)
    || c == 0x2028
    || c == 0x2029
    || c == 0x202f
    || c == 0x205f
    || c == 0x3000

unfoldable pub trim_start : Text → Text
trim_start [] = []
trim_start (c ∷ s) = if is_whitespace c then trim_start s else c ∷ s

unfoldable pub trim_end : Text → Text
trim_end [] = []
trim_end (c ∷ s) = let r = trim_end s in if is_empty r && is_whitespace c then [] else c ∷ r

unfoldable pub trim : Text → Text
trim s = trim_end (trim_start s)

-- `len`: the number of bytes in UTF-8.
abbrev pub char_len : ℕ → ℕ
char_len c = if ltb c 0x80 then 1 else if ltb c 0x800 then 2 else if ltb c 0x10000 then 3 else 4

unfoldable pub byte_len : Text → ℕ
byte_len [] = 0
byte_len (c ∷ s) = char_len c + byte_len s

unfoldable pub contains : Text → ℕ → Bool
contains [] d = false
contains (c ∷ s) d = c == d || contains s d

unfoldable pub starts_with : Text → Text → Bool
starts_with s [] = true
starts_with [] (d ∷ p) = false
starts_with (c ∷ s) (d ∷ p) = c == d && starts_with s p

unfoldable pub strip_prefix : Text → Text → Option Text
strip_prefix s [] = some s
strip_prefix [] (d ∷ p) = none
strip_prefix (c ∷ s) (d ∷ p) = if c == d then strip_prefix s p else none

-- `contains` of a text, not of one character.
unfoldable pub contains_text : Text → Text → Bool
contains_text [] p = starts_with [] p
contains_text (c ∷ s) p = starts_with (c ∷ s) p || contains_text s p

unfoldable pub ends_with : Text → Text → Bool
ends_with [] p = text_eq [] p
ends_with (c ∷ s) p = text_eq (c ∷ s) p || ends_with s p

-- `strip_suffix` of one character.
unfoldable pub strip_last : ℕ → Text → Option Text
strip_last d [] = none
strip_last d (c ∷ []) = if c == d then some [] else none
strip_last d (c ∷ c' ∷ s) = elim (strip_last d (c' ∷ s)) [ none ↦ none | some r ↦ some (c ∷ r) ]

-- Around the first place of a character (`find`, `split_once`), and around the last (`rfind`).
unfoldable pub split_once : ℕ → Text → Option (Text × Text)
split_once d [] = none
split_once d (c ∷ s) =
    let rest = split_once d s in
    if c == d then some ([], s) else elim rest [ none ↦ none | some (a, b) ↦ some (c ∷ a, b) ]

unfoldable pub rsplit_once : ℕ → Text → Option (Text × Text)
rsplit_once d [] = none
rsplit_once d (c ∷ s) = elim (rsplit_once d s) [
  | none ↦ if c == d then some ([], s) else none
  | some (a, b) ↦ some (c ∷ a, b)
]

abbrev push_front : ℕ → List Text → List Text
push_front c [] = (c ∷ []) ∷ []
push_front c (s ∷ ss) = (c ∷ s) ∷ ss

-- `split` at every place of a character; a text without it is one part.
unfoldable pub split : ℕ → Text → List Text
split d [] = [] ∷ []
split d (c ∷ s) = let rest = split d s in if c == d then [] ∷ rest else push_front c rest

-- The part after the last `d` (`rsplit(d).next()`), or the whole.
unfoldable pub last_part : ℕ → Text → Text
last_part d s = elim (rsplit_once d s) [ none ↦ s | some (a, b) ↦ b ]

abbrev drop_cr : Text → Text
drop_cr s = elim (strip_last 13 s) [ none ↦ s | some r ↦ r ]

-- The parts at `\n`, without an empty last one, each without a `\r` at its end.
abbrev pub line_parts : List Text → List Text
line_parts [] = []
line_parts (s ∷ []) = if is_empty s then [] else s ∷ []
line_parts (s ∷ s' ∷ ss) = drop_cr s ∷ line_parts (s' ∷ ss)

-- `str::lines`.
unfoldable pub lines : Text → List Text
unfolding split strip_last
lines s = line_parts (split 10 s)

unfoldable pub split_whitespace_from : Text → Text → List Text
split_whitespace_from word [] = if is_empty word then [] else word ∷ []
split_whitespace_from word (c ∷ s) =
    let rest = split_whitespace_from [] s in
    let more = split_whitespace_from (word ++ c ∷ []) s in
    if is_whitespace c then (if is_empty word then rest else word ∷ rest) else more

-- `split_whitespace`.
unfoldable pub split_whitespace : Text → List Text
split_whitespace = split_whitespace_from []

abbrev pub is_digit : ℕ → Bool
is_digit c = leb b'0' c && leb c b'9'

-- `to_ascii_lowercase`.
abbrev pub lower_char : ℕ → ℕ
lower_char c = if leb b'A' c && leb c b'Z' then c + 32 else c

-- A control character of ASCII: `b < 0x20 || b == 0x7f`. The other bytes of UTF-8 are above 0x7f.
abbrev pub is_control : ℕ → Bool
is_control c = ltb c 0x20 || c == 0x7f

unfoldable pub digits_value : ℕ → Text → Option ℕ
digits_value acc [] = some acc
digits_value acc (c ∷ s) =
    let rest = digits_value (acc * 10 + (c - b'0')) s in if is_digit c then rest else none

abbrev below : ℕ → Option ℕ → Option ℕ
below limit none = none
below limit (some n) = if ltb n limit then some n else none

abbrev parse_digits : ℕ → Text → Option ℕ
parse_digits limit [] = none
parse_digits limit (c ∷ s) = below limit (digits_value 0 (c ∷ s))

-- `str::parse` at an unsigned type with `limit` values: a `+` may stand in front, and a number
-- that does not fit is an error.
unfoldable pub parse_uint : ℕ → Text → Option ℕ
unfolding digits_value
parse_uint limit [] = none
parse_uint limit (c ∷ s) = if c == b'+' then parse_digits limit s else parse_digits limit (c ∷ s)

abbrev negated : Option ℕ → Option ℤ
negated none = none
negated (some zero) = some (pos 0)
negated (some (suc n)) = some (negsuc n)

abbrev non_negative : Option ℕ → Option ℤ
non_negative none = none
non_negative (some n) = some (pos n)

-- `str::parse` at `i32`: a sign may stand in front.
unfoldable pub parse_i32 : Text → Option ℤ
unfolding parse_uint digits_value
parse_i32 [] = none
parse_i32 (c ∷ s) =
    if c == b'-'
    then negated (parse_digits (2 ^ 31 + 1) s)
    else non_negative (parse_uint (2 ^ 31) (c ∷ s))

unfoldable pub decimal_from : ℕ → ℕ → Text
decimal_from zero n = []
decimal_from (suc fuel) n =
    let rest = decimal_from fuel (n / 10) ++ (n % 10 + b'0') ∷ [] in
    if ltb n 10 then (n + b'0') ∷ [] else rest

-- A number printed in decimal.
unfoldable pub decimal : ℕ → Text
unfolding decimal_from
decimal n = decimal_from (suc n) n
