-- ===== src/Tuning/Clone.antt =====
-- AppOptR/src/tuning.rs: `clone_app_config`, which `clone_app_check` and `clone_app` call.
pub mod Keeps
use app_opt_r_plus.Prelude.{
  Bool, true, false, not, ◌&&◌, ◌||◌, Option, none, some, List, [], ◌∷◌, ◌++◌, if◌then◌else◌,
  is_empty, is_some,
}
use app_opt_r_plus.Prelude.Text.{Text, text_eq}
use app_opt_r_plus.Tuning.{
  ThreadTuneRule, AppTuneRule, TuningConfig, Outcome, ok, err, and_then, TuneError, same_package,
  source_without_rules, source_without_group, source_without_threads, target_has_group,
  target_has_threads,
}

-- `find(|app| app.pkg == pkg)`.
abbrev pub find_app : Text → List AppTuneRule → Option AppTuneRule
find_app pkg [] = none
find_app pkg (a ∷ as₁) = if text_eq a.pkg pkg then some a else find_app pkg as₁

abbrev pub source_group : Bool → AppTuneRule → Outcome (Option Text)
source_group copy_memory a =
    if copy_memory
    then elim a.memory_group [ none ↦ err source_without_group | some g ↦ ok (some g) ]
    else ok none

abbrev pub source_threads : Bool → AppTuneRule → Outcome (List ThreadTuneRule)
source_threads copy_threads a =
    if copy_threads
    then (if is_empty a.threads then err source_without_threads else ok a.threads)
    else ok []

-- The target with the selected parts, if it has none of them.
unfoldable pub merge_app :
    Bool → Bool → Option Text → List ThreadTuneRule → AppTuneRule → Outcome AppTuneRule
merge_app copy_memory copy_threads group threads a =
    if copy_memory && is_some a.memory_group
    then err target_has_group
    else if copy_threads && not (is_empty a.threads)
    then err target_has_threads
    else ok (record {
      pkg = a.pkg;
      memory_group = if copy_memory then group else a.memory_group;
      threads = if copy_threads then threads else a.threads;
    })

-- The first application of the target's name is changed; if there is none, one is added at the end.
unfoldable pub put_app :
    Text
    → (AppTuneRule → Outcome AppTuneRule)
    → AppTuneRule
    → List AppTuneRule
    → Outcome (List AppTuneRule)
put_app target change fresh [] = ok (fresh ∷ [])
put_app target change fresh (a ∷ as₁) =
    let rest = put_app target change fresh as₁ in
    if text_eq a.pkg target
    then and_then (change a) (λ b. ok (b ∷ as₁))
    else and_then rest (λ bs. ok (a ∷ bs))

unfoldable pub clone_from :
    TuningConfig → Text → Bool → Bool → Option AppTuneRule → Outcome TuningConfig
unfolding put_app merge_app
clone_from config target copy_memory copy_threads none = err source_without_rules
clone_from config target copy_memory copy_threads (some a) =
    and_then (source_group copy_memory a) (λ group.
      and_then (source_threads copy_threads a) (λ threads.
        and_then
          (put_app target (merge_app copy_memory copy_threads group threads)
            (record { pkg = target; memory_group = group; threads = threads }) config.apps)
          (λ apps. ok (record { memory_groups = config.memory_groups; apps = apps }))))

unfoldable pub clone_app_config : TuningConfig → Text → Text → Bool → Bool → Outcome TuningConfig
unfolding clone_from
clone_app_config config source target copy_memory copy_threads =
    if text_eq source target
    then err same_package
    else clone_from config target copy_memory copy_threads (find_app source config.apps)
