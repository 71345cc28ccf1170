-- ===== src/Tuning/Parse.antt =====
-- AppOptR/src/tuning.rs: `memory_group_from_value`, `thread_rule_from_value`, `app_from_value` and
-- `config_from_value`.
use app_opt_r_plus.Prelude.{
  ℕ, ◌%◌, ◌-◌, ◌^◌, Bool, true, false, not, ◌&&◌, Option, none, some, List, [], ◌∷◌, ltb,
  if◌then◌else◌, is_empty, is_none,
}
use app_opt_r_plus.Prelude.Int.{ℤ, pos, negsuc}
use app_opt_r_plus.Prelude.Text.{Text, codes, trim, member}
use app_opt_r_plus.Json.{Value, null, bool, str, array, Fields, items, get_field, as_str, as_object}
use app_opt_r_plus.Tuning.{
  MemoryGroup, ThreadTuneRule, AppTuneRule, TuningConfig, Outcome, ok, err, and_then, collect,
  package_name_ok, group_name_ok, thread_pattern_ok, cgroup_template_ok, TuneError,
  group_not_object, group_name, group_path, group_oom, thread_not_object, thread_pattern,
  thread_empty, thread_order, app_not_object, app_pkg, app_group, app_threads, app_empty,
  not_object, groups_not_array, group_twice, apps_not_array, app_twice, no_group,
}
use app_opt_r_plus.Tuning.Limits.{optional_u64, optional_i64, memory_limit}

-- `object.get(field).and_then(Value::as_str).map(str::trim)`.
abbrev pub str_of : Option Value → Option Text
str_of none = none
str_of (some v) = as_str v

abbrev pub checked : (Text → Bool) → TuneError → Option Text → Outcome Text
checked test e none = err e
checked test e (some s) = if test (trim s) then ok (trim s) else err e

-- A name that has to be there and pass a test.
unfoldable pub required : Text → Fields → (Text → Bool) → TuneError → Outcome Text
required field fs test e = checked test e (str_of (get_field field fs))

-- `as u8`, `as u16` and `as i8`.
abbrev pub as_uint : ℕ → Option ℕ → Option ℕ
as_uint bits none = none
as_uint bits (some n) = some (n % 2 ^ bits)

abbrev pub wrap_i8 : ℤ → ℤ
wrap_i8 (pos n) = if ltb (n % 256) 128 then pos (n % 256) else negsuc (255 - n % 256)
wrap_i8 (negsuc n) = if ltb (n % 256) 128 then negsuc (n % 256) else pos (255 - n % 256)

abbrev pub as_i8 : Option ℤ → Option ℤ
as_i8 none = none
as_i8 (some i) = some (wrap_i8 i)

abbrev pub oom_of : Text → Option Value → Outcome (Option Bool)
oom_of name none = ok none
oom_of name (some null) = ok none
oom_of name (some (bool b)) = ok (some b)
oom_of name (some _) = err (group_oom name)

unfoldable pub memory_group_fields : Value → Fields → Outcome MemoryGroup
memory_group_fields value fs =
    and_then (required (codes "name") fs group_name_ok group_name) (λ name.
      and_then (required (codes "path") fs cgroup_template_ok (group_path name)) (λ path.
        and_then (optional_u64 value (codes "swappiness") 200) (λ swappiness.
          and_then (memory_limit value (codes "memory_min") false) (λ memory_min.
            and_then (memory_limit value (codes "memory_low") false) (λ memory_low.
              and_then (memory_limit value (codes "memory_high") false) (λ memory_high.
                and_then (memory_limit value (codes "memory_max") true) (λ memory_max.
                  and_then (oom_of name (get_field (codes "oom_group") fs)) (λ oom_group.
                    ok (record {
                      name = name;
                      path = path;
                      swappiness = as_uint 8 swappiness;
                      memory_min = memory_min;
                      memory_low = memory_low;
                      memory_high = memory_high;
                      memory_max = memory_max;
                      oom_group = oom_group;
                    })))))))))

unfoldable pub memory_group_from_value : Value → Outcome MemoryGroup
unfolding memory_group_fields
memory_group_from_value value = elim (as_object value) [
  | none ↦ err group_not_object
  | some fs ↦ memory_group_fields value fs
]

-- Both are given, and the first is greater.
abbrev pub out_of_order : Option ℕ → Option ℕ → Bool
out_of_order (some min) (some max) = ltb max min
out_of_order _ _ = false

abbrev pub checked_thread : ThreadTuneRule → Outcome ThreadTuneRule
checked_thread r =
    if is_none r.uclamp_min && is_none r.uclamp_max && is_none r.nice
    then err (thread_empty r.pattern)
    else if out_of_order r.uclamp_min r.uclamp_max
    then err (thread_order r.pattern)
    else ok r

unfoldable pub thread_rule_fields : Value → Fields → Outcome ThreadTuneRule
thread_rule_fields value fs =
    and_then (required (codes "pattern") fs thread_pattern_ok thread_pattern) (λ pattern.
      and_then (optional_u64 value (codes "uclamp_min") 1024) (λ uclamp_min.
        and_then (optional_u64 value (codes "uclamp_max") 1024) (λ uclamp_max.
          and_then (optional_i64 value (codes "nice") (negsuc 19) (pos 19)) (λ nice.
            checked_thread (record {
              pattern = pattern;
              uclamp_min = as_uint 16 uclamp_min;
              uclamp_max = as_uint 16 uclamp_max;
              nice = as_i8 nice;
            })))))

unfoldable pub thread_rule_from_value : Value → Outcome ThreadTuneRule
unfolding thread_rule_fields
thread_rule_from_value value = elim (as_object value) [
  | none ↦ err thread_not_object
  | some fs ↦ thread_rule_fields value fs
]

abbrev pub group_of : Text → Option Value → Outcome (Option Text)
group_of pkg none = ok none
group_of pkg (some null) = ok none
group_of pkg (some (str s)) =
    if is_empty (trim s)
    then ok none
    else if group_name_ok (trim s)
    then ok (some (trim s))
    else err (app_group pkg)
group_of pkg (some _) = err (app_group pkg)

-- An array, by its elements; nothing is the empty one.
abbrev pub array_of :
    {A : Type 0} → TuneError → (Value → Outcome A) → Option Value → Outcome (List A)
array_of e f none = ok []
array_of e f (some null) = ok []
array_of e f (some (array vs)) = collect f (items vs)
array_of e f (some _) = err e

abbrev pub checked_app : AppTuneRule → Outcome AppTuneRule
checked_app a = if is_none a.memory_group && is_empty a.threads then err (app_empty a.pkg) else ok a

unfoldable pub app_fields : Fields → Outcome AppTuneRule
app_fields fs = and_then (required (codes "pkg") fs package_name_ok app_pkg) (λ pkg.
    and_then (group_of pkg (get_field (codes "memory_group") fs)) (λ memory_group.
      and_then (array_of (app_threads pkg) thread_rule_from_value (get_field (codes "threads") fs))
        (λ threads.
          checked_app (record { pkg = pkg; memory_group = memory_group; threads = threads }))))

unfoldable pub app_from_value : Value → Outcome AppTuneRule
unfolding app_fields
app_from_value value = elim (as_object value) [
  | none ↦ err app_not_object
  | some fs ↦ app_fields fs
]

-- The loop over the groups: `seen` is `group_names`.
unfoldable pub distinct_groups : List Text → List MemoryGroup → Outcome (List Text)
distinct_groups seen [] = ok seen
distinct_groups seen (g ∷ gs) =
    if member g.name seen then err (group_twice g.name) else distinct_groups (g.name ∷ seen) gs

abbrev pub group_known : Option Text → List Text → Bool
group_known none names = true
group_known (some g) names = member g names

abbrev or_empty : Option Text → Text
or_empty none = []
or_empty (some s) = s

-- The loop over the applications: `seen` is `packages`.
unfoldable pub checked_apps : List Text → List Text → List AppTuneRule → Outcome Bool
checked_apps names seen [] = ok true
checked_apps names seen (a ∷ as₁) =
    if member a.pkg seen
    then err (app_twice a.pkg)
    else if not (group_known a.memory_group names)
    then err (no_group a.pkg (or_empty a.memory_group))
    else checked_apps names (a.pkg ∷ seen) as₁

unfoldable pub config_fields : Fields → Outcome TuningConfig
config_fields fs =
    and_then
      (array_of groups_not_array memory_group_from_value (get_field (codes "memory_groups") fs))
      (λ groups. and_then (distinct_groups [] groups) (λ names.
        and_then (array_of apps_not_array app_from_value (get_field (codes "apps") fs)) (λ apps.
          and_then (checked_apps names [] apps)
            (λ done. ok (record { memory_groups = groups; apps = apps })))))

unfoldable pub config_from_value : Value → Outcome TuningConfig
unfolding config_fields
config_from_value value = elim (as_object value) [
  | none ↦ err not_object
  | some fs ↦ config_fields fs
]
