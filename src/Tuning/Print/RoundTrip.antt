-- ===== src/Tuning/Print/RoundTrip.antt =====
-- AppOptR/src/tuning.rs: `config_from_value` on what `config_value` prints.
use app_opt_r_plus.Prelude.{◌≡◌, refl, ◌∙◌, Bool, Option, none, some, List, [], All}
use mathlib.Core.Path.{subst}
use app_opt_r_plus.Prelude.Text.{Text, codes, text_eq}
use app_opt_r_plus.Json.{Value, Fields, get_field, as_object}
use app_opt_r_plus.Tuning.{
  TuningConfig, MemoryGroup, AppTuneRule, TuneError, Outcome, ok, err, and_then, groups_not_array,
  apps_not_array,
}
use app_opt_r_plus.Tuning.Limits.{Ok, and_then-Ok}
use app_opt_r_plus.Tuning.Parse.{
  memory_group_from_value, app_from_value, distinct_groups, checked_apps, config_fields,
  config_from_value,
}
use app_opt_r_plus.Tuning.Valid.{array_of-All}
use app_opt_r_plus.Tuning.Print.{memory_group_value, app_value, config_value}
use app_opt_r_plus.Tuning.Print.Fields.{and_then-ok, array_of-array_items}
use app_opt_r_plus.Tuning.Print.Parts.{
  FixedGroup, FixedApp, memory_group_from_value-FixedGroup, app_from_value-FixedApp,
}

-- As `and_then-Ok`, with the equation.
and_then_keep :
    {A B : Type 0} (Q : B → Type 0) (r : Outcome A) (f : A → Outcome B)
    → ((a : A) → r ≡ ok a → Ok Q (f a))
    → Ok Q (and_then r f)
and_then_keep Q (ok a) f h = h a refl
and_then_keep Q (err e) f h = tt

abbrev Fixed : TuningConfig → Type 0
Fixed c = config_from_value (config_value c) ≡ ok c

config-Fixed :
    (groups : List MemoryGroup) (names : List Text) (apps : List AppTuneRule) (done : Bool)
    → All FixedGroup groups
    → distinct_groups [] groups ≡ ok names
    → All FixedApp apps
    → checked_apps names [] apps ≡ ok done
    → Fixed (record { memory_groups = groups; apps = apps })
unfolding config_from_value config_fields config_value text_eq
config-Fixed groups names apps done hg en ha ed =
    and_then-ok _
      (array_of-array_items groups_not_array memory_group_from_value memory_group_value groups hg)
    ∙ (and_then-ok _ en
        ∙ (and_then-ok _ (array_of-array_items apps_not_array app_from_value app_value apps ha)
            ∙ and_then-ok _ ed))

-- The profile as it is accepted.
accepted : (value : Value) → Ok Fixed (config_from_value value)
unfolding config_from_value config_fields
accepted value = of_option (as_object value)
  where
    of_option :
        (o : Option Fields)
        → Ok Fixed (elim o [ none ↦ err TuneError.not_object | some fs ↦ config_fields fs ])
    of_option none = tt
    of_option (some fs) =
        and_then-Ok (All FixedGroup) Fixed _ _
          (array_of-All FixedGroup groups_not_array memory_group_from_value
            (get_field (codes "memory_groups") fs) memory_group_from_value-FixedGroup)
          (λ groups hg. and_then_keep Fixed (distinct_groups [] groups) _ (λ names en.
            and_then-Ok (All FixedApp) Fixed _ _
              (array_of-All FixedApp apps_not_array app_from_value (get_field (codes "apps") fs)
                app_from_value-FixedApp)
              (λ apps ha.
                and_then_keep Fixed (checked_apps names [] apps) _
                  (λ done ed. config-Fixed groups names apps done hg en ha ed))))

pub config_from_value-config_value :
    (value : Value) (c : TuningConfig)
    → config_from_value value ≡ ok c
    → config_from_value (config_value c) ≡ ok c
config_from_value-config_value value c h = subst (Ok Fixed) h (accepted value)
