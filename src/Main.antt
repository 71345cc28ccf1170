-- ===== src/Main.antt =====
-- AppOptR/src/main.rs: the command line. The children have the start of the daemon and its loop.
pub mod Start
pub mod State
pub mod Loop
pub mod Modes
use app_opt_r_plus.Prelude.{
  ℕ, ◌^◌, Bool, true, false, not, ◌||◌, Option, none, some, List, [], ◌∷◌, leb, if◌then◌else◌,
  is_empty,
}
use app_opt_r_plus.Prelude.Text.{Text, codes, text_eq, contains, parse_uint}

-- What the options ask for.
pub record Args : Type 0 where
  pub cfg : Option Text
  pub interval : Option ℕ
  pub cpuset : Option Text
  pub web : Bool

-- The exit code, or the options.
pub data Parsed : Type 0 where
  exit : ℕ → Parsed
  parsed : Args → Parsed

pub data Flag : Type 0 where
  config_flag interval_flag web_flag cpuset_flag version_flag help_flag unknown : Flag

unfoldable pub flag : Text → Flag
flag arg =
    if text_eq arg (codes "-c")
    then config_flag
    else if text_eq arg (codes "-s")
    then interval_flag
    else if text_eq arg (codes "-w")
    then web_flag
    else if text_eq arg (codes "-b")
    then cpuset_flag
    else if text_eq arg (codes "-v")
    then version_flag
    else if text_eq arg (codes "-h")
    then help_flag
    else unknown

abbrev pub valid_interval : Option ℕ → Option ℕ
valid_interval none = none
valid_interval (some v) = if leb 1 v then some v else none

abbrev pub put_interval : Args → Option ℕ → Option Args
put_interval a none = none
put_interval a (some v) = some (record a { interval = some v })

-- An option with its value; `none`: the value is refused.
unfoldable pub put_option : Flag → Text → Args → Option Args
unfolding parse_uint contains
put_option config_flag v a = some (record a { cfg = some v })
put_option interval_flag v a = put_interval a (valid_interval (parse_uint (2 ^ 64) v))
put_option cpuset_flag v a =
    if is_empty v || contains v b'/' then none else some (record a { cpuset = some v })
put_option _ v a = none

-- The loop over the arguments behind the program's name. An option that waits for its value is the first argument.
unfoldable pub args_loop : Option Flag → List Text → Args → Parsed
unfolding put_option flag
args_loop none [] a = parsed a
args_loop (some f) [] a = exit 1
args_loop (some f) (v ∷ vs) a = elim (put_option f v a) [
  | none ↦ exit 1
  | some a' ↦ args_loop none vs a'
]
args_loop none (v ∷ vs) a = elim (flag v) [
  | config_flag ↦ args_loop (some config_flag) vs a
  | interval_flag ↦ args_loop (some interval_flag) vs a
  | cpuset_flag ↦ args_loop (some cpuset_flag) vs a
  | web_flag ↦ args_loop none vs (record a { web = true })
  | version_flag ↦ exit 0
  | help_flag ↦ exit 0
  | unknown ↦ exit 1
]

abbrev pub no_args : Args
no_args = record { cfg = none; interval = none; cpuset = none; web = false }

unfoldable pub parse_args : List Text → Parsed
unfolding args_loop
parse_args args = args_loop none args no_args
