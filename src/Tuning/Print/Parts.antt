-- ===== src/Tuning/Print/Parts.antt =====
-- AppOptR/src/tuning.rs: groups, thread rules and applications as they are printed, read by the parser.
use app_opt_r_plus.Prelude.{
  ◌≡◌, refl, ap, ◌∙◌, true, false, ◌&&◌, Option, none, some, is_empty, is_none, All, arith,
  if_cases,
}
use app_opt_r_plus.Prelude.Int.{negsuc, pos}
use app_opt_r_plus.Prelude.Text.{codes, text_eq}
use app_opt_r_plus.Json.{Value, Fields, get_field, as_object}
use app_opt_r_plus.Tuning.{
  MemoryGroup, ThreadTuneRule, AppTuneRule, Outcome, ok, err, TuneError, group_name_ok,
  cgroup_template_ok, thread_pattern_ok, package_name_ok, group_path, group_name, thread_pattern,
  app_pkg, app_threads,
}
use app_opt_r_plus.Tuning.Limits.{
  Ok, Some, and_then-Ok, and_then_any, optional_u64, optional_i64, memory_limit,
}
use app_opt_r_plus.Tuning.Parse.{
  memory_group_fields, memory_group_from_value, thread_rule_fields, thread_rule_from_value,
  app_fields, app_from_value, oom_of, as_uint, as_i8, checked_thread, checked_app,
}
use app_opt_r_plus.Tuning.Valid.{
  IsGroup, IsThread, IsApp, memory_group_from_value-IsGroup, thread_rule_from_value-IsThread,
  app_from_value-IsApp, array_of-All,
}
use app_opt_r_plus.Tuning.Print.{memory_group_value, thread_rule_value, app_value}
use app_opt_r_plus.Tuning.Print.Limit.{memory_limit-opt_value}
use app_opt_r_plus.Tuning.Print.Fields.{
  and_then-ok, Trimmed, required-str, required-Trimmed, optional_u64-opt_uint, optional_i64-opt_int,
  as_u8_lem, as_u16_lem, as_i8_lem, oom_of-opt_bool, group_of-opt_value, group_of-Trimmed,
  array_of-array_items,
}

both : {A : Type 0} (P Q : A → Type 0) (r : Outcome A) → Ok P r → Ok Q r → Ok (λ a. P a × Q a) r
both P Q (ok a) p q = (p, q)
both P Q (err e) p q = tt

mapped : {A : Type 0} (P Q : A → Type 0) (r : Outcome A) → ((a : A) → P a → Q a) → Ok P r → Ok Q r
mapped P Q (ok a) f p = f a p
mapped P Q (err e) f p = tt

abbrev pub FixedGroup : MemoryGroup → Type 0
FixedGroup g = memory_group_from_value (memory_group_value g) ≡ ok g

abbrev TrimmedGroup : MemoryGroup → Type 0
TrimmedGroup g = Trimmed group_name_ok g.name × Trimmed cgroup_template_ok g.path

memory_group_from_value-TrimmedGroup :
    (value : Value) → Ok TrimmedGroup (memory_group_from_value value)
unfolding memory_group_from_value memory_group_fields
memory_group_from_value-TrimmedGroup value = of_option (as_object value)
  where
    of_option :
        (o : Option Fields)
        → Ok TrimmedGroup (elim o [
          | none ↦ err TuneError.group_not_object
          | some fs ↦ memory_group_fields value fs
        ])
    of_option none = tt
    of_option (some fs) =
        and_then-Ok (Trimmed group_name_ok) TrimmedGroup _ _
          (required-Trimmed (codes "name") fs group_name_ok group_name)
          (λ name hn.
            and_then-Ok (Trimmed cgroup_template_ok) TrimmedGroup _ _
              (required-Trimmed (codes "path") fs cgroup_template_ok (group_path name))
              (λ path hp.
                and_then_any TrimmedGroup (optional_u64 value (codes "swappiness") 200) _ (λ a.
                  and_then_any TrimmedGroup (memory_limit value (codes "memory_min") false) _ (λ b.
                    and_then_any TrimmedGroup (memory_limit value (codes "memory_low") false) _
                      (λ c.
                        and_then_any TrimmedGroup (memory_limit value (codes "memory_high") false) _
                          (λ d.
                            and_then_any TrimmedGroup (memory_limit value (codes "memory_max") true)
                              _
                              (λ e.
                                and_then_any TrimmedGroup
                                  (oom_of name (get_field (codes "oom_group") fs)) _
                                  (λ f. (hn, hp)))))))))

group-Fixed : (g : MemoryGroup) → IsGroup g → TrimmedGroup g → FixedGroup g
unfolding memory_group_from_value memory_group_fields memory_group_value text_eq
group-Fixed g v (n, p) =
    and_then-ok _ (required-str _ _ group_name_ok group_name g.name refl n)
    ∙ (and_then-ok _ (required-str _ _ cgroup_template_ok (group_path g.name) g.path refl p)
        ∙ (and_then-ok _
              (optional_u64-opt_uint _ _ 200 g.swappiness refl v.swappiness (omega arith))
            ∙ (and_then-ok _ (memory_limit-opt_value _ _ false g.memory_min refl v.memory_min)
                ∙ (and_then-ok _ (memory_limit-opt_value _ _ false g.memory_low refl v.memory_low)
                    ∙ (and_then-ok _
                          (memory_limit-opt_value _ _ false g.memory_high refl v.memory_high)
                        ∙ (and_then-ok _
                              (memory_limit-opt_value _ _ true g.memory_max refl v.memory_max)
                            ∙ (and_then-ok _ (oom_of-opt_bool g.name g.oom_group)
                                ∙ ap (λ s. ok (record g { swappiness = s }))
                                    (as_u8_lem g.swappiness v.swappiness))))))))

pub memory_group_from_value-FixedGroup :
    (value : Value) → Ok FixedGroup (memory_group_from_value value)
memory_group_from_value-FixedGroup value =
    mapped (λ g. IsGroup g × TrimmedGroup g) FixedGroup _ (λ g h. group-Fixed g h.0 h.1)
      (both IsGroup TrimmedGroup _ (memory_group_from_value-IsGroup value)
        (memory_group_from_value-TrimmedGroup value))

abbrev FixedThread : ThreadTuneRule → Type 0
FixedThread r = thread_rule_from_value (thread_rule_value r) ≡ ok r

abbrev TrimmedThread : ThreadTuneRule → Type 0
TrimmedThread r = Trimmed thread_pattern_ok r.pattern

checked_thread-Trimmed :
    (r : ThreadTuneRule) → TrimmedThread r → Ok TrimmedThread (checked_thread r)
checked_thread-Trimmed r h = ground (arith, h)

thread_rule_from_value-TrimmedThread :
    (value : Value) → Ok TrimmedThread (thread_rule_from_value value)
unfolding thread_rule_from_value thread_rule_fields
thread_rule_from_value-TrimmedThread value = of_option (as_object value)
  where
    of_option :
        (o : Option Fields)
        → Ok TrimmedThread (elim o [
          | none ↦ err TuneError.thread_not_object
          | some fs ↦ thread_rule_fields value fs
        ])
    of_option none = tt
    of_option (some fs) =
        and_then-Ok (Trimmed thread_pattern_ok) TrimmedThread _ _
          (required-Trimmed (codes "pattern") fs thread_pattern_ok thread_pattern)
          (λ pattern hp.
            and_then_any TrimmedThread (optional_u64 value (codes "uclamp_min") 1024) _ (λ lo.
              and_then_any TrimmedThread (optional_u64 value (codes "uclamp_max") 1024) _ (λ hi.
                and_then_any TrimmedThread (optional_i64 value (codes "nice") (negsuc 19) (pos 19))
                  _
                  (λ nice.
                    checked_thread-Trimmed
                      (record {
                        pattern = pattern;
                        uclamp_min = as_uint 16 lo;
                        uclamp_max = as_uint 16 hi;
                        nice = as_i8 nice;
                      })
                      hp))))

checked_thread-ok : (r : ThreadTuneRule) → IsThread r → checked_thread r ≡ ok r
checked_thread-ok r v = rw (v.some_setting, v.in_order) refl

thread-Fixed : (r : ThreadTuneRule) → IsThread r → TrimmedThread r → FixedThread r
unfolding thread_rule_from_value thread_rule_fields thread_rule_value text_eq
thread-Fixed r v p =
    and_then-ok _ (required-str _ _ thread_pattern_ok thread_pattern r.pattern refl p)
    ∙ (and_then-ok _ (optional_u64-opt_uint _ _ 1024 r.uclamp_min refl v.uclamp_min (omega arith))
        ∙ (and_then-ok _
              (optional_u64-opt_uint _ _ 1024 r.uclamp_max refl v.uclamp_max (omega arith))
            ∙ (and_then-ok _ (optional_i64-opt_int _ _ r.nice refl v.nice)
                ∙ (ap
                      (λ x. checked_thread (record {
                        pattern = r.pattern;
                        uclamp_min = x;
                        uclamp_max = as_uint 16 r.uclamp_max;
                        nice = as_i8 r.nice;
                      }))
                      (as_u16_lem r.uclamp_min v.uclamp_min)
                    ∙ (ap
                          (λ x. checked_thread (record {
                            pattern = r.pattern;
                            uclamp_min = r.uclamp_min;
                            uclamp_max = x;
                            nice = as_i8 r.nice;
                          }))
                          (as_u16_lem r.uclamp_max v.uclamp_max)
                        ∙ (ap (λ x. checked_thread (record r { nice = x }))
                              (as_i8_lem r.nice v.nice)
                            ∙ checked_thread-ok r v))))))

thread_rule_from_value-FixedThread : (value : Value) → Ok FixedThread (thread_rule_from_value value)
thread_rule_from_value-FixedThread value =
    mapped (λ r. IsThread r × TrimmedThread r) FixedThread _ (λ r h. thread-Fixed r h.0 h.1)
      (both IsThread TrimmedThread _ (thread_rule_from_value-IsThread value)
        (thread_rule_from_value-TrimmedThread value))

abbrev pub FixedApp : AppTuneRule → Type 0
FixedApp a = app_from_value (app_value a) ≡ ok a

-- The names of an application, and its thread rules.
record Settled (a : AppTuneRule) : Type 0 where
  pkg : Trimmed package_name_ok a.pkg
  memory_group : Some (Trimmed group_name_ok) a.memory_group
  threads : All FixedThread a.threads

checked_app-Settled : (a : AppTuneRule) → Settled a → Ok Settled (checked_app a)
checked_app-Settled a h =
    if_cases (Ok Settled) (is_none a.memory_group && is_empty a.threads) (λ e. tt) (λ e. h)

app_from_value-Settled : (value : Value) → Ok Settled (app_from_value value)
unfolding app_from_value app_fields
app_from_value-Settled value = of_option (as_object value)
  where
    of_option :
        (o : Option Fields)
        → Ok Settled (elim o [ none ↦ err TuneError.app_not_object | some fs ↦ app_fields fs ])
    of_option none = tt
    of_option (some fs) =
        and_then-Ok (Trimmed package_name_ok) Settled _ _
          (required-Trimmed (codes "pkg") fs package_name_ok app_pkg)
          (λ pkg hp.
            and_then-Ok (Some (Trimmed group_name_ok)) Settled _ _
              (group_of-Trimmed pkg (get_field (codes "memory_group") fs))
              (λ group hg.
                and_then-Ok (All FixedThread) Settled _ _
                  (array_of-All FixedThread (app_threads pkg) thread_rule_from_value
                    (get_field (codes "threads") fs) thread_rule_from_value-FixedThread)
                  (λ threads ht.
                    checked_app-Settled _ (record { pkg = hp; memory_group = hg; threads = ht }))))

checked_app-ok : (a : AppTuneRule) → IsApp a → checked_app a ≡ ok a
checked_app-ok a v = rw v.some_part refl

app-Fixed : (a : AppTuneRule) → IsApp a → Settled a → FixedApp a
unfolding app_from_value app_fields app_value text_eq
app-Fixed a v h =
    and_then-ok _ (required-str _ _ package_name_ok app_pkg a.pkg refl h.pkg)
    ∙ (and_then-ok _ (group_of-opt_value a.pkg a.memory_group h.memory_group)
        ∙ (and_then-ok _ (
              array_of-array_items (app_threads a.pkg) thread_rule_from_value thread_rule_value
                a.threads h.threads)
            ∙ checked_app-ok a v))

pub app_from_value-FixedApp : (value : Value) → Ok FixedApp (app_from_value value)
app_from_value-FixedApp value =
    mapped (λ a. IsApp a × Settled a) FixedApp _ (λ a h. app-Fixed a h.0 h.1)
      (both IsApp Settled _ (app_from_value-IsApp value) (app_from_value-Settled value))
