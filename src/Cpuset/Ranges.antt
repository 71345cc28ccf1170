-- ===== src/Cpuset/Ranges.antt =====
-- AppOptR/src/cpuset.rs, `to_range_string`, `push_range` and `parse_cpu_ranges`.
pub mod Parse
pub mod Print
pub mod RoundTrip
use Prim.Native.Nat.{bit_and}
use app_opt_r_plus.Prelude.{
  ℕ, zero, suc, ◌+◌, ◌-◌, ◌*◌, ◌^◌, Bool, true, false, not, ◌&&◌, Option, none, some, List, [], ◌∷◌,
  ◌++◌, ltb, ◌==◌, if◌then◌else◌, is_some, is_empty, min,
}
use app_opt_r_plus.Prelude.Text.{Text, trim, split, split_once, parse_uint, decimal}
use app_opt_r_plus.Cpuset.{CpuSet, cpu_setsize, cpu_word_bits, new, set, is_set}

-- The locals of `to_range_string`.
pub record RangeState : Type 0 where
  pub result : Text
  pub start : Option ℕ
  pub end : Option ℕ
  pub first : Bool

abbrev range_text : ℕ → ℕ → Text
range_text lo hi = if lo == hi then decimal lo else decimal lo ++ (b'-' ∷ decimal hi)

abbrev push_range_at : Option ℕ → Option ℕ → RangeState → RangeState
push_range_at (some lo) (some hi) st = record st {
  result =
      if st.first then st.result ++ range_text lo hi else st.result ++ (b',' ∷ range_text lo hi);
  first = false;
}
push_range_at _ _ st = st

unfoldable pub push_range : RangeState → RangeState
push_range st = push_range_at st.start st.end st

-- The bit of `cpu` is set: a range begins, grows or is pushed.
abbrev set_bit_at : Option ℕ → Option ℕ → ℕ → RangeState → RangeState
set_bit_at none e cpu st = record st { start = some cpu; end = some cpu }
set_bit_at (some lo) none cpu st = record (push_range st) { start = some cpu; end = some cpu }
set_bit_at (some lo) (some hi) cpu st =
    if cpu == hi + 1
    then record st { end = some cpu }
    else record (push_range st) { start = some cpu; end = some cpu }

unfoldable pub bit_step : ℕ → ℕ → ℕ → RangeState → RangeState
bit_step word base bit st =
    if not (bit_and word (2 ^ bit) == 0) then set_bit_at st.start st.end (base + bit) st else st

-- `for bit in 0..n`.
unfoldable pub bits_loop : ℕ → ℕ → ℕ → RangeState → RangeState
bits_loop zero word base st = st
bits_loop (suc n) word base st = bit_step word base n (bits_loop n word base st)

unfoldable pub word_step : ℕ → ℕ → RangeState → RangeState
word_step word_idx word st =
    if word == 0
    then if is_some st.start then record (push_range st) { start = none; end = none } else st
    else bits_loop cpu_word_bits word (word_idx * cpu_word_bits) st

unfoldable pub words_loop : ℕ → List ℕ → RangeState → RangeState
words_loop i [] st = st
words_loop i (w ∷ ws) st = words_loop (i + 1) ws (word_step i w st)

abbrev pub range_start : RangeState
range_start = record { result = []; start = none; end = none; first = true }

unfoldable pub to_range_string : CpuSet → Text
unfolding push_range bit_step bits_loop word_step words_loop
to_range_string s = (push_range (words_loop 0 s.bits range_start)).result

abbrev pub usize_max : ℕ
usize_max = 2 ^ 64 - 1

abbrev or_usize_max : Option ℕ → ℕ
or_usize_max (some a) = a
or_usize_max none = usize_max

-- The bounds of a part `a-b`: a missing `b` is `a`, and the smaller comes first.
abbrev bounds_pair : ℕ → Option ℕ → Option (ℕ × ℕ)
bounds_pair a none = if a == usize_max then none else some (a, a)
bounds_pair a (some b) =
    if a == usize_max then none else if ltb b a then some (b, a) else some (a, b)

-- A trimmed part: `none` where the source goes on to the next one.
unfoldable pub part_bounds : Text → Option (ℕ × ℕ)
part_bounds part = if is_empty part then none else elim (split_once b'-' part) [
  | some (l, r) ↦ bounds_pair (or_usize_max (parse_uint (2 ^ 64) l)) (parse_uint (2 ^ 64) r)
  | none ↦ bounds_pair (or_usize_max (parse_uint (2 ^ 64) part)) none
]

abbrev pub is_present : Option CpuSet → ℕ → Bool
is_present none i = true
is_present (some present) i = is_set present i

-- `n` rounds of the loop over the numbers of a part, from `i` on.
unfoldable pub set_range : ℕ → ℕ → Option CpuSet → CpuSet → CpuSet
set_range zero i present s = s
set_range (suc n) i present s =
    set_range n (i + 1) present (if is_present present i then set i s else s)

abbrev pub add_bounds : Option CpuSet → Option (ℕ × ℕ) → CpuSet → CpuSet
add_bounds present none s = s
add_bounds present (some (lo, hi)) s = set_range (min hi (cpu_setsize - 1) + 1 - lo) lo present s

unfoldable pub parts_loop : Option CpuSet → List Text → CpuSet → CpuSet
parts_loop present [] s = s
parts_loop present (p ∷ ps) s = parts_loop present ps (add_bounds present (part_bounds (trim p)) s)

unfoldable pub parse_cpu_ranges : Text → Option CpuSet → CpuSet
unfolding part_bounds set_range parts_loop
parse_cpu_ranges spec present =
    if is_empty spec then new else parts_loop present (split b',' spec) new
