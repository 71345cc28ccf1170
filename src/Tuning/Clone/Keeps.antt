-- ===== src/Tuning/Clone/Keeps.antt =====
-- AppOptR/src/tuning.rs: `clone_app_config` on a valid profile.
use app_opt_r_plus.Prelude.{
  ◌≡◌, refl, ap, ◌∙◌, Bool, true, false, not, ◌&&◌, ◌||◌, Option, none, some, List, [], ◌∷◌,
  if◌then◌else◌, is_empty, is_none, is_some, All, arith, Bool-cases, inl, inr, if_cases,
}
use app_opt_r_plus.Prelude.Text.{Text, text_eq, member}
use app_opt_r_plus.Prelude.Text.Split.{text_eq_iff, text_eq_refl}
use app_opt_r_plus.Tuning.{
  ThreadTuneRule, AppTuneRule, TuningConfig, Outcome, ok, err, package_name_ok, group_name_ok,
  source_without_group,
}
use app_opt_r_plus.Tuning.Limits.{Ok, Some, and_then-Ok}
use app_opt_r_plus.Tuning.Parse.{group_known}
use app_opt_r_plus.Tuning.Valid.{IsThread, IsApp, IsTuning, no_twice, group_names, app_pkgs}
use app_opt_r_plus.Tuning.Clone.{
  find_app, source_group, source_threads, merge_app, put_app, clone_from, clone_app_config,
}

-- A valid application whose group is one of `names`.
abbrev Good : List Text → AppTuneRule → Type 0
Good names a = IsApp a × (group_known a.memory_group names ≡ true)

find_app-Good :
    (names : List Text) (pkg : Text) (xs : List AppTuneRule)
    → All (Good names) xs
    → Some (Good names) (find_app pkg xs)
find_app-Good names pkg [] h = tt
find_app-Good names pkg (a ∷ xs) h =
    if_cases (Some (Good names)) (text_eq a.pkg pkg) (λ e. h.0)
      (λ e. find_app-Good names pkg xs h.1)

-- A group that is copied is valid and known; without a copy it is none.
abbrev GoodGroup : List Text → Bool → Option Text → Type 0
GoodGroup names copy g =
    Some (λ x. group_name_ok x ≡ true) g × (group_known g names ≡ true) × (is_some g ≡ copy)

source_group-Ok :
    (names : List Text) (copy : Bool) (a : AppTuneRule)
    → Good names a
    → Ok (GoodGroup names copy) (source_group copy a)
source_group-Ok names false a h = (tt, refl, refl)
source_group-Ok names true a h = of_group a.memory_group h.0.memory_group h.1
  where
    of_group :
        (o : Option Text)
        → Some (λ x. group_name_ok x ≡ true) o
        → group_known o names ≡ true
        → Ok
            (GoodGroup names true)
            (elim o [ none ↦ err source_without_group | some g ↦ ok (some g) ])
    of_group none v k = tt
    of_group (some g) v k = (v, k, refl)

abbrev GoodThreads : Bool → List ThreadTuneRule → Type 0
GoodThreads copy ts = All IsThread ts × (is_empty ts ≡ not copy)

source_threads-Ok :
    (names : List Text) (copy : Bool) (a : AppTuneRule)
    → Good names a
    → Ok (GoodThreads copy) (source_threads copy a)
source_threads-Ok names false a h = (tt, refl)
source_threads-Ok names true a h =
    if_cases (Ok (GoodThreads true)) (is_empty a.threads) (λ e. tt) (λ e. (h.0.threads, e))

is_none_lem : {A : Type 0} (o : Option A) → is_none o ≡ not (is_some o)
is_none_lem none = refl
is_none_lem (some a) = refl

module _ (names : List Text) (copy_memory copy_threads : Bool) (group : Option Text)
    (threads : List ThreadTuneRule) (gg : GoodGroup names copy_memory group)
    (gt : GoodThreads copy_threads threads) where
  -- What the changed target is: of the same name, and valid.
  abbrev Merged : AppTuneRule → AppTuneRule → Type 0
  Merged a b = Good names b × (b.pkg ≡ a.pkg)

  merged :
      (a : AppTuneRule)
      → Good names a
      → Good names (record {
        pkg = a.pkg;
        memory_group = if copy_memory then group else a.memory_group;
        threads = if copy_threads then threads else a.threads;
      })
  merged a h = (
    record {
      pkg = h.0.pkg;
      memory_group =
          if_cases (Some (λ (x : Text). group_name_ok x ≡ true)) copy_memory (λ e. gg.0)
            (λ e. h.0.memory_group);
      threads = if_cases (All IsThread) copy_threads (λ e. gt.0) (λ e. h.0.threads);
      some_part = elim (Bool-cases copy_memory) [
        | inl e ↦ ground (arith, e, is_none_lem group, gg.2)
        | inr e ↦ elim (Bool-cases copy_threads) [
          | inl f ↦ ground (arith, e, f, gt.1)
          | inr f ↦ ground (arith, e, f, h.0.some_part)
        ]
      ];
    },
    if_cases (λ (g : Option Text). group_known g names ≡ true) copy_memory (λ e. gg.1) (λ e. h.1),
  )

  merge_app-Merged :
      (a : AppTuneRule)
      → Good names a
      → Ok (Merged a) (merge_app copy_memory copy_threads group threads a)
  unfolding merge_app
  merge_app-Merged a h =
      if_cases (Ok (Merged a)) (copy_memory && is_some a.memory_group) (λ e. tt)
        (λ e.
          if_cases (Ok (Merged a)) (copy_threads && not (is_empty a.threads)) (λ q. tt)
            (λ q. (merged a h, refl)))

module _ (names : List Text) (target : Text) (change : AppTuneRule → Outcome AppTuneRule)
    (fresh : AppTuneRule) (fresh_pkg : fresh.pkg ≡ target) (good : Good names fresh)
    (changes : (a : AppTuneRule)
      → Good names a
      → Ok (λ b. Good names b × (b.pkg ≡ a.pkg)) (change a)) where
  -- The new list has the applications of the old one and the target, each valid, and no other is
  -- changed.
  abbrev Placed : List AppTuneRule → List AppTuneRule → Type 0
  Placed xs bs =
      All (Good names) bs
      × ((p : Text) → text_eq target p ≡ false → find_app p bs ≡ find_app p xs)
      × ((x : Text) → member x (app_pkgs bs) ≡ (member x (app_pkgs xs) || text_eq x target))
      × (no_twice (app_pkgs bs) ≡ no_twice (app_pkgs xs))

  put_app-Placed :
      (xs : List AppTuneRule)
      → All (Good names) xs
      → Ok (Placed xs) (put_app target change fresh xs)
  unfolding put_app member
  put_app-Placed [] h = (
    (good, tt),
    λ p n. rw (fresh_pkg, n, if◌then◌else◌) refl,
    λ x. rw fresh_pkg (ground arith),
    refl,
  )
  put_app-Placed (a ∷ xs) h =
      if_cases (Ok (Placed (a ∷ xs))) (text_eq a.pkg target)
        (λ e.
          and_then-Ok (λ b. Good names b × (b.pkg ≡ a.pkg)) (Placed (a ∷ xs)) (change a) _
            (changes a h.0)
            (λ b hb.
              let q : a.pkg ≡ target = (text_eq_iff a.pkg target).0 e in
              (
                (hb.0, h.1),
                λ p n. rw (hb.1, q, n, if◌then◌else◌) refl,
                λ x. rw (hb.1, q) (ground arith),
                rw hb.1 refl,
              )))
        (λ e.
          and_then-Ok (Placed xs) (Placed (a ∷ xs)) (put_app target change fresh xs) _
            (put_app-Placed xs h.1)
            (λ bs hb. (
              (h.0, hb.0),
              λ p n.
                  ap (λ (o : Option AppTuneRule). if text_eq a.pkg p then some a else o) (hb.1 p n),
              λ x. ground (arith, hb.2 x),
              ground (arith, hb.2 a.pkg, hb.3, e),
            )))

Good-all :
    (names : List Text) (xs : List AppTuneRule)
    → All IsApp xs
    → All (λ a. group_known a.memory_group names ≡ true) xs
    → All (Good names) xs
Good-all names [] h k = tt
Good-all names (a ∷ xs) h k = ((h.0, k.0), Good-all names xs h.1 k.1)

apps_of_Good :
    (names : List Text) (xs : List AppTuneRule)
    → All (Good names) xs
    → All IsApp xs × All (λ a. group_known a.memory_group names ≡ true) xs
apps_of_Good names [] h = (tt, tt)
apps_of_Good names (a ∷ xs) h = let (p, q) = apps_of_Good names xs h.1 in ((h.0.0, p), (h.0.1, q))

module _ (config : TuningConfig) (source target : Text) (copy_memory copy_threads : Bool)
    (valid : IsTuning config) (named : package_name_ok target ≡ true)
    (some_part : (copy_memory || copy_threads) ≡ true) where
  -- The clone is valid, with the groups of the profile, and every application but the target is as it
  -- was.
  abbrev pub IsClone : TuningConfig → Type 0
  IsClone next =
      IsTuning next
      × (next.memory_groups ≡ config.memory_groups)
      × ((p : Text) → text_eq target p ≡ false → find_app p next.apps ≡ find_app p config.apps)
      × (member target (app_pkgs next.apps) ≡ true)

  abbrev names_of : List Text
  names_of = group_names config.memory_groups

  fresh-Good :
      (group : Option Text) (threads : List ThreadTuneRule)
      → GoodGroup names_of copy_memory group
      → GoodThreads copy_threads threads
      → Good names_of (record { pkg = target; memory_group = group; threads = threads })
  fresh-Good group threads gg gt = (
    record {
      pkg = named;
      memory_group = gg.0;
      threads = gt.0;
      some_part = ground (arith, is_none_lem group, gg.2, gt.1, some_part);
    },
    gg.1,
  )

  clone_from-Ok :
      (o : Option AppTuneRule)
      → Some (Good names_of) o
      → Ok IsClone (clone_from config target copy_memory copy_threads o)
  unfolding clone_from member
  clone_from-Ok none h = tt
  clone_from-Ok (some a) h =
      and_then-Ok (GoodGroup names_of copy_memory) IsClone _ _
        (source_group-Ok names_of copy_memory a h)
        (λ group gg.
          and_then-Ok (GoodThreads copy_threads) IsClone _ _
            (source_threads-Ok names_of copy_threads a h)
            (λ threads gt.
              let fresh : AppTuneRule = record {
                pkg = target;
                memory_group = group;
                threads = threads;
              } in
              let change = merge_app copy_memory copy_threads group threads in
              let good = fresh-Good group threads gg gt in
              let changes =
                merge_app-Merged names_of copy_memory copy_threads group threads gg gt in
              and_then-Ok (Placed names_of target change fresh refl good changes config.apps)
                IsClone _ _
                (put_app-Placed names_of target change fresh refl good changes config.apps
                  (Good-all names_of config.apps valid.apps valid.known))
                (λ apps ha.
                  let (ok_apps, known) = apps_of_Good names_of apps ha.0 in
                  (
                    record {
                      groups = valid.groups;
                      group_once = valid.group_once;
                      apps = ok_apps;
                      app_once = ha.3 ∙ valid.app_once;
                      known = known;
                    },
                    refl,
                    ha.1,
                    ground (arith, ha.2 target, text_eq_refl target),
                  ))))

  -- Of a valid profile, a target with a well-formed name and a category to copy: what
  -- `clone_app_config` returns, if it returns no error, is a valid profile with the same memory
  -- groups, in which the target has an entry and every other application is as it was.
  pub clone_app_config-IsClone :
      Ok IsClone (clone_app_config config source target copy_memory copy_threads)
  unfolding clone_app_config
  clone_app_config-IsClone =
      if_cases (Ok IsClone) (text_eq source target) (λ e. tt)
        (λ e. clone_from-Ok (find_app source config.apps) (
          find_app-Good names_of source config.apps
            (Good-all names_of config.apps valid.apps valid.known)))
