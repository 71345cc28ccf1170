-- ===== src/Tuning/Unique.antt =====
-- AppOptR/src/tuning.rs, `config_from_value`: the checks on repeated and unknown names.
use app_opt_r_plus.Prelude.{
  ◌≡◌, refl, sym, ◌∙◌, Bool, true, false, not, ◌&&◌, ◌||◌, Option, none, some, List, [], ◌∷◌, All,
  arith, Bool-cases, inl, inr, if_cases,
}
use app_opt_r_plus.Prelude.Text.{Text, codes, text_eq, member}
use app_opt_r_plus.Prelude.Text.Split.{text_eq_iff, text_eq_refl}
use app_opt_r_plus.Json.{Value, Fields, get_field, as_object}
use app_opt_r_plus.Tuning.{
  MemoryGroup, AppTuneRule, TuneError, Outcome, ok, err, groups_not_array, apps_not_array,
}
use app_opt_r_plus.Tuning.Limits.{Ok, and_then-Ok}
use app_opt_r_plus.Tuning.Parse.{
  memory_group_from_value, app_from_value, distinct_groups, group_known, checked_apps,
  config_fields, config_from_value,
}
use app_opt_r_plus.Tuning.Valid.{
  IsGroup, IsApp, IsTuning, no_twice, group_names, app_pkgs, memory_group_from_value-IsGroup,
  app_from_value-IsApp, array_of-All,
}

-- Nothing of one list is in the other.
abbrev Apart : List Text → List Text → Type 0
Apart seen xs = (x : Text) → (member x seen && member x xs) ≡ false

Apart-cons :
    (x : Text) (seen xs : List Text)
    → member x seen ≡ false
    → Apart (x ∷ seen) xs
    → Apart seen (x ∷ xs)
unfolding member
Apart-cons x seen xs n h y = elim (Bool-cases (text_eq y x)) [
  | inl e ↦ let q : y ≡ x = (text_eq_iff y x).0 e in rw q (ground (arith, n))
  | inr e ↦ ground (arith, h y, e)
]

Apart-self : (x : Text) (seen xs : List Text) → Apart (x ∷ seen) xs → member x xs ≡ false
unfolding member
Apart-self x seen xs h = ground (arith, h x, text_eq_refl x)

-- What `distinct_groups` answers on: the names, without repetition.
abbrev Names : List Text → List MemoryGroup → List Text → Type 0
Names seen gs names =
    (no_twice (group_names gs) ≡ true)
    × Apart seen (group_names gs)
    × ((x : Text) → member x names ≡ (member x seen || member x (group_names gs)))

distinct_groups-Names :
    (seen : List Text) (gs : List MemoryGroup) → Ok (Names seen gs) (distinct_groups seen gs)
unfolding distinct_groups member
distinct_groups-Names seen [] = (refl, λ x. ground arith, λ x. ground arith)
distinct_groups-Names seen (g ∷ gs) =
    if_cases (Ok (Names seen (g ∷ gs))) (member g.name seen) (λ e. tt)
      (λ e. step (distinct_groups (g.name ∷ seen) gs) e (distinct_groups-Names (g.name ∷ seen) gs))
  where
    step :
        (r : Outcome (List Text))
        → member g.name seen ≡ false
        → Ok (Names (g.name ∷ seen) gs) r
        → Ok (Names seen (g ∷ gs)) r
    step (err x) e h = tt
    step (ok names) e h = (
      ground (arith, h.0, Apart-self g.name seen (group_names gs) h.1),
      Apart-cons g.name seen (group_names gs) e h.1,
      λ x. h.2 x ∙ ground arith,
    )

abbrev Apps : List Text → List Text → List AppTuneRule → Type 0
Apps names seen xs =
    (no_twice (app_pkgs xs) ≡ true)
    × Apart seen (app_pkgs xs)
    × All (λ a. group_known a.memory_group names ≡ true) xs

checked_apps-Apps :
    (names seen : List Text) (xs : List AppTuneRule)
    → Ok (λ b. Apps names seen xs) (checked_apps names seen xs)
unfolding checked_apps member
checked_apps-Apps names seen [] = (refl, λ x. ground arith, tt)
checked_apps-Apps names seen (a ∷ xs) =
    if_cases (Ok (λ (b : Bool). Apps names seen (a ∷ xs))) (member a.pkg seen) (λ e. tt)
      (λ e.
        if_cases (Ok (λ (b : Bool). Apps names seen (a ∷ xs)))
          (not (group_known a.memory_group names)) (λ q. tt)
          (λ q.
            step (checked_apps names (a.pkg ∷ seen) xs) e (ground (arith, q))
              (checked_apps-Apps names (a.pkg ∷ seen) xs)))
  where
    step :
        (r : Outcome Bool)
        → member a.pkg seen ≡ false
        → group_known a.memory_group names ≡ true
        → Ok (λ b. Apps names (a.pkg ∷ seen) xs) r
        → Ok (λ b. Apps names seen (a ∷ xs)) r
    step (err x) e k h = tt
    step (ok b) e k h = (
      ground (arith, h.0, Apart-self a.pkg seen (app_pkgs xs) h.1),
      Apart-cons a.pkg seen (app_pkgs xs) e h.1,
      (k, h.2),
    )

known_of_names :
    (names groups : List Text) (xs : List AppTuneRule)
    → ((x : Text) → member x names ≡ member x groups)
    → All (λ a. group_known a.memory_group names ≡ true) xs
    → All (λ a. group_known a.memory_group groups ≡ true) xs
known_of_names names groups [] e h = tt
known_of_names names groups (a ∷ xs) e h =
    (one a.memory_group h.0, known_of_names names groups xs e h.1)
  where
    one : (o : Option Text) → group_known o names ≡ true → group_known o groups ≡ true
    one none k = refl
    one (some g) k = sym (e g) ∙ k

-- A profile that `config_from_value` accepts, whatever the JSON value, is valid: every group has a name
-- and a path that pass their tests, a swappiness of at most 200 and limits that are numbers of bytes
-- below 2^64 (or `max`, for `memory_max`); every application has a package name that passes its test, a
-- group or a thread rule, and thread rules with some setting, UCLAMP values of at most 1024 in order
-- and a nice value from -20 to 19; no group and no application stands twice; and every group that
-- an application names is there.
pub config_from_value-IsTuning : (value : Value) → Ok IsTuning (config_from_value value)
unfolding config_from_value config_fields member
config_from_value-IsTuning value = of_option (as_object value)
  where
    of_option :
        (o : Option Fields)
        → Ok IsTuning (elim o [ none ↦ err TuneError.not_object | some fs ↦ config_fields fs ])
    of_option none = tt
    of_option (some fs) =
        and_then-Ok (All IsGroup) IsTuning _ _
          (array_of-All IsGroup groups_not_array memory_group_from_value
            (get_field (codes "memory_groups") fs) memory_group_from_value-IsGroup)
          (λ groups hg.
            and_then-Ok (Names [] groups) IsTuning _ _ (distinct_groups-Names [] groups)
              (λ names hn.
                and_then-Ok (All IsApp) IsTuning _ _
                  (array_of-All IsApp apps_not_array app_from_value (get_field (codes "apps") fs)
                    app_from_value-IsApp)
                  (λ apps ha.
                    and_then-Ok (λ b. Apps names [] apps) IsTuning _ _
                      (checked_apps-Apps names [] apps)
                      (λ b hb. record {
                        groups = hg;
                        group_once = hn.0;
                        apps = ha;
                        app_once = hb.0;
                        known = known_of_names names (group_names groups) apps (λ x. hn.2 x) hb.2;
                      }))))
