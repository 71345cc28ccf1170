-- ===== src/Tuning.antt =====
-- AppOptR/src/tuning.rs: the tuning profiles. This file has the types, the errors and the tests on names;
-- the children read a profile from JSON and clone one.
pub mod Limits
pub mod Parse
pub mod Valid
pub mod Unique
pub mod Clone
pub mod Apply
pub mod Describe
pub mod Print
pub mod Store
pub mod Memory
use app_opt_r_plus.Prelude.{
  ℕ, zero, suc, ◌-◌, ◌+◌, Bool, true, false, not, ◌&&◌, ◌||◌, Option, none, some, List, [], ◌∷◌,
  ◌++◌, ltb, leb, ◌==◌, if◌then◌else◌, is_empty, any, all, length,
}
use app_opt_r_plus.Prelude.Int.{ℤ}
use app_opt_r_plus.Prelude.Text.{
  Text, codes, text_eq, trim, contains, contains_text, starts_with, byte_len, split, is_control,
  is_digit,
}
use app_opt_r_plus.Config.Load.{max_pkg_len, max_thread_len}

pub record MemoryGroup : Type 0 where
  pub name : Text
  pub path : Text
  pub swappiness : Option ℕ
  pub memory_min : Option Text
  pub memory_low : Option Text
  pub memory_high : Option Text
  pub memory_max : Option Text
  pub oom_group : Option Bool

pub record ThreadTuneRule : Type 0 where
  pub pattern : Text
  pub uclamp_min : Option ℕ
  pub uclamp_max : Option ℕ
  pub nice : Option ℤ

pub record AppTuneRule : Type 0 where
  pub pkg : Text
  pub memory_group : Option Text
  pub threads : List ThreadTuneRule

pub record TuningConfig : Type 0 where
  pub memory_groups : List MemoryGroup
  pub apps : List AppTuneRule

-- The messages of the errors.
pub data TuneError : Type 0 where
  not_string : Text → TuneError
  bad_format : Text → TuneError
  not_integer : Text → TuneError
  out_of_range : Text → TuneError
  no_max : Text → TuneError
  bad_size : Text → TuneError
  too_large : Text → TuneError
  group_not_object : TuneError
  group_name : TuneError
  group_path : Text → TuneError
  group_oom : Text → TuneError
  thread_not_object : TuneError
  thread_pattern : TuneError
  thread_empty : Text → TuneError
  thread_order : Text → TuneError
  app_not_object : TuneError
  app_pkg : TuneError
  app_group : Text → TuneError
  app_threads : Text → TuneError
  app_empty : Text → TuneError
  not_object : TuneError
  groups_not_array : TuneError
  group_twice : Text → TuneError
  apps_not_array : TuneError
  app_twice : Text → TuneError
  no_group : Text → Text → TuneError
  same_package : TuneError
  source_without_rules : TuneError
  source_without_group : TuneError
  source_without_threads : TuneError
  target_has_group : TuneError
  target_has_threads : TuneError
  not_saved : Text → TuneError

pub data Outcome (A : Type 0) : Type 0 where
  ok : A → Outcome A
  err : TuneError → Outcome A

-- The operator `?` in front of what follows.
abbrev pub and_then : {A B : Type 0} → Outcome A → (A → Outcome B) → Outcome B
and_then (ok a) f = f a
and_then (err e) f = err e

-- `map` with `collect`: the first error counts.
abbrev pub collect : {A B : Type 0} → (A → Outcome B) → List A → Outcome (List B)
collect f [] = ok []
collect f (a ∷ as₁) = and_then (f a) (λ b. and_then (collect f as₁) (λ bs. ok (b ∷ bs)))

unfoldable pub plain_token_ok : Text → ℕ → Bool
plain_token_ok value max_len =
    let v = trim value in
    not (is_empty v)
    && ltb (byte_len v) max_len
    && not (any is_control v)
    && not (contains v b'#')
    && not (contains_text v (codes "//"))

unfoldable pub package_name_ok : Text → Bool
package_name_ok value =
    plain_token_ok value max_pkg_len
    && not (any (λ ch. ch == b'{' || ch == b'}' || ch == b'\\') value)
    && not (contains value b'/')

abbrev is_alphanumeric : ℕ → Bool
is_alphanumeric b = is_digit b || (leb b'a' b && leb b b'z') || (leb b'A' b && leb b b'Z')

unfoldable pub group_name_ok : Text → Bool
group_name_ok value =
    plain_token_ok value 64
    && all (λ b. is_alphanumeric b || b == b'.' || b == b'_' || b == b'-') value

unfoldable pub thread_pattern_ok : Text → Bool
thread_pattern_ok value =
    leb (byte_len value) 15 && plain_token_ok value max_thread_len && not (contains value 0)

-- `str::replace`; `skip` characters belong to the place replaced last.
unfoldable pub replace_from : ℕ → Text → Text → Text → Text
replace_from skip pat to [] = []
replace_from (suc skip) pat to (c ∷ s) = replace_from skip pat to s
replace_from zero pat to (c ∷ s) =
    let inside = replace_from (length pat - 1) pat to s in
    let outside = replace_from zero pat to s in
    if starts_with (c ∷ s) pat then to ++ inside else c ∷ outside

abbrev pub replace_text : Text → Text → Text → Text
replace_text s pat to = replace_from zero pat to s

unfoldable pub cgroup_template_ok : Text → Bool
unfolding replace_from
cgroup_template_ok value =
    let v = trim value in
    let markers =
      replace_text
        (replace_text (replace_text v (codes "{uid}") (codes "x")) (codes "{pid}") (codes "x"))
        (codes "{pkg}") (codes "x") in
    let absolute = starts_with v (codes "/") in
    if is_empty v || leb 256 (byte_len v) || any is_control v || contains v b'\\'
    then false
    else if contains markers b'{' || contains markers b'}'
    then false
    else if absolute
        && not (starts_with v (codes "/dev/memcg/") || starts_with v (codes "/sys/fs/cgroup/"))
    then false
    else all
        (λ part.
          is_empty part || (not (text_eq part (codes ".")) && not (text_eq part (codes ".."))))
        (split b'/' v)
