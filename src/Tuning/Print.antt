-- ===== src/Tuning/Print.antt =====
-- AppOptR/src/tuning.rs: `config_value` and the functions that it calls, a profile as JSON.
pub mod Limit
pub mod Fields
pub mod Parts
pub mod RoundTrip
use app_opt_r_plus.Prelude.{ℕ, Bool, Option, none, some, List, [], ◌∷◌}
use app_opt_r_plus.Prelude.Int.{ℤ, pos}
use app_opt_r_plus.Prelude.Text.{Text, codes}
use app_opt_r_plus.Json.{Value, null, bool, int, str, array, object, Items, nil, cons, end, field}
use app_opt_r_plus.Tuning.{MemoryGroup, ThreadTuneRule, AppTuneRule, TuningConfig}

-- `opt_value`, and what `json!` makes of the other options.
unfoldable pub opt_value : Option Text → Value
opt_value none = null
opt_value (some s) = str s

abbrev pub opt_uint : Option ℕ → Value
opt_uint none = null
opt_uint (some n) = int (pos n)

abbrev pub opt_int : Option ℤ → Value
opt_int none = null
opt_int (some i) = int i

abbrev pub opt_bool : Option Bool → Value
opt_bool none = null
opt_bool (some b) = bool b

unfoldable pub memory_group_value : MemoryGroup → Value
unfolding opt_value
memory_group_value g = object (
    field (codes "name") (str g.name) (
      field (codes "path") (str g.path) (
        field (codes "swappiness") (opt_uint g.swappiness) (
          field (codes "memory_min") (opt_value g.memory_min) (
            field (codes "memory_low") (opt_value g.memory_low) (
              field (codes "memory_high") (opt_value g.memory_high) (
                field (codes "memory_max") (opt_value g.memory_max)
                  (field (codes "oom_group") (opt_bool g.oom_group) end))))))))

unfoldable pub thread_rule_value : ThreadTuneRule → Value
thread_rule_value r = object (
    field (codes "pattern") (str r.pattern) (
      field (codes "uclamp_min") (opt_uint r.uclamp_min) (
        field (codes "uclamp_max") (opt_uint r.uclamp_max)
          (field (codes "nice") (opt_int r.nice) end))))

-- `iter().map(f).collect::<Vec<_>>()`.
abbrev pub array_items : {A : Type 0} → (A → Value) → List A → Items
array_items f [] = nil
array_items f (a ∷ as₁) = cons (f a) (array_items f as₁)

unfoldable pub app_value : AppTuneRule → Value
unfolding thread_rule_value opt_value
app_value a = object (
    field (codes "pkg") (str a.pkg) (
      field (codes "memory_group") (opt_value a.memory_group)
        (field (codes "threads") (array (array_items thread_rule_value a.threads)) end)))

unfoldable pub config_value : TuningConfig → Value
unfolding memory_group_value app_value
config_value c = object (
    field (codes "version") (int (pos 1)) (
      field (codes "memory_groups") (array (array_items memory_group_value c.memory_groups))
        (field (codes "apps") (array (array_items app_value c.apps)) end)))
