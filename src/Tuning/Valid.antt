-- ===== src/Tuning/Valid.antt =====
-- AppOptR/src/tuning.rs: the conditions on a profile, and the parts that the parser checks.
use app_opt_r_plus.Prelude.{
  ℕ, ◌≤◌, ◌≡◌, Bool, true, false, not, ◌&&◌, Option, none, some, List, [], ◌∷◌, is_empty, is_none,
  All, arith, if_cases,
}
use app_opt_r_plus.Prelude.Int.{ℤ, pos, negsuc, leb_ℤ}
use app_opt_r_plus.Prelude.Text.{Text, codes, trim, member}
use app_opt_r_plus.Json.{
  Value, null, bool, str, array, int, real, object, Fields, items, get_field, as_object,
}
use app_opt_r_plus.Tuning.{
  MemoryGroup, ThreadTuneRule, AppTuneRule, TuningConfig, TuneError, Outcome, err, collect,
  package_name_ok, group_name_ok, thread_pattern_ok, cgroup_template_ok, group_name, group_path,
  thread_pattern, app_pkg, app_threads,
}
use app_opt_r_plus.Tuning.Limits.{
  Ok, Some, and_then-Ok, and_then_any, IsLimit, memory_limit-IsLimit, optional_u64-le,
  optional_i64-range,
}
use app_opt_r_plus.Tuning.Parse.{
  required, str_of, as_uint, as_i8, oom_of, memory_group_fields, memory_group_from_value,
  out_of_order, checked_thread, thread_rule_fields, thread_rule_from_value, group_of, array_of,
  app_fields, app_from_value, group_known, checked,
}

pub record IsGroup (g : MemoryGroup) : Type 0 where
  pub name : group_name_ok g.name ≡ true
  pub path : cgroup_template_ok g.path ≡ true
  pub swappiness : Some (λ n. n ≤ 200) g.swappiness
  pub memory_min : Some (IsLimit false) g.memory_min
  pub memory_low : Some (IsLimit false) g.memory_low
  pub memory_high : Some (IsLimit false) g.memory_high
  pub memory_max : Some (IsLimit true) g.memory_max

pub record IsThread (r : ThreadTuneRule) : Type 0 where
  pub pattern : thread_pattern_ok r.pattern ≡ true
  pub uclamp_min : Some (λ n. n ≤ 1024) r.uclamp_min
  pub uclamp_max : Some (λ n. n ≤ 1024) r.uclamp_max
  pub in_order : out_of_order r.uclamp_min r.uclamp_max ≡ false
  pub nice : Some (λ i. (leb_ℤ (negsuc 19) i && leb_ℤ i (pos 19)) ≡ true) r.nice
  pub some_setting : (is_none r.uclamp_min && is_none r.uclamp_max && is_none r.nice) ≡ false

pub record IsApp (a : AppTuneRule) : Type 0 where
  pub pkg : package_name_ok a.pkg ≡ true
  pub memory_group : Some (λ g. group_name_ok g ≡ true) a.memory_group
  pub threads : All IsThread a.threads
  pub some_part : (is_none a.memory_group && is_empty a.threads) ≡ false

-- No text stands twice.
abbrev pub no_twice : List Text → Bool
no_twice [] = true
no_twice (x ∷ xs) = not (member x xs) && no_twice xs

abbrev pub group_names : List MemoryGroup → List Text
group_names [] = []
group_names (g ∷ gs) = g.name ∷ group_names gs

abbrev pub app_pkgs : List AppTuneRule → List Text
app_pkgs [] = []
app_pkgs (a ∷ as₁) = a.pkg ∷ app_pkgs as₁

-- The groups and the applications are valid, no name stands twice among either, and every application's
-- group is one of the groups.
pub record IsTuning (c : TuningConfig) : Type 0 where
  pub groups : All IsGroup c.memory_groups
  pub group_once : no_twice (group_names c.memory_groups) ≡ true
  pub apps : All IsApp c.apps
  pub app_once : no_twice (app_pkgs c.apps) ≡ true
  pub known : All (λ a. group_known a.memory_group (group_names c.memory_groups) ≡ true) c.apps

required-Ok :
    (field : Text) (fs : Fields) (test : Text → Bool) (e : TuneError)
    → Ok (λ s. test s ≡ true) (required field fs test e)
unfolding required
required-Ok field fs test e = of_option (str_of (get_field field fs))
  where
    of_option : (o : Option Text) → Ok (λ s. test s ≡ true) (checked test e o)
    of_option none = tt
    of_option (some s) =
        if_cases (Ok (λ (x : Text). test x ≡ true)) (test (trim s)) (λ h. h) (λ h. tt)

as_u8-le : (max : ℕ) (o : Option ℕ) → Some (λ n. n ≤ max) o → Some (λ n. n ≤ max) (as_uint 8 o)
as_u8-le max none h = tt
as_u8-le max (some n) h = omega (arith, h)

as_u16-le : (max : ℕ) (o : Option ℕ) → Some (λ n. n ≤ max) o → Some (λ n. n ≤ max) (as_uint 16 o)
as_u16-le max none h = tt
as_u16-le max (some n) h = omega (arith, h)

as_i8-range :
    (o : Option ℤ)
    → Some (λ i. (leb_ℤ (negsuc 19) i && leb_ℤ i (pos 19)) ≡ true) o
    → Some (λ i. (leb_ℤ (negsuc 19) i && leb_ℤ i (pos 19)) ≡ true) (as_i8 o)
as_i8-range none h = tt
as_i8-range (some (pos n)) h = ground (arith, h)
as_i8-range (some (negsuc n)) h = ground (arith, h)

pub memory_group_from_value-IsGroup : (value : Value) → Ok IsGroup (memory_group_from_value value)
unfolding memory_group_from_value memory_group_fields
memory_group_from_value-IsGroup value = of_option (as_object value)
  where
    of_option :
        (o : Option Fields)
        → Ok IsGroup (elim o [
          | none ↦ err TuneError.group_not_object
          | some fs ↦ memory_group_fields value fs
        ])
    of_option none = tt
    of_option (some fs) =
        and_then-Ok (λ n. group_name_ok n ≡ true) IsGroup _ _
          (required-Ok (codes "name") fs group_name_ok group_name)
          (λ name hn.
            and_then-Ok (λ p. cgroup_template_ok p ≡ true) IsGroup _ _
              (required-Ok (codes "path") fs cgroup_template_ok (group_path name))
              (λ path hp.
                and_then-Ok (Some (λ n. n ≤ 200)) IsGroup _ _
                  (optional_u64-le value (codes "swappiness") 200)
                  (λ swappiness hs.
                    and_then-Ok (Some (IsLimit false)) IsGroup _ _
                      (memory_limit-IsLimit value (codes "memory_min") false)
                      (λ memory_min h1.
                        and_then-Ok (Some (IsLimit false)) IsGroup _ _
                          (memory_limit-IsLimit value (codes "memory_low") false)
                          (λ memory_low h2.
                            and_then-Ok (Some (IsLimit false)) IsGroup _ _
                              (memory_limit-IsLimit value (codes "memory_high") false)
                              (λ memory_high h3.
                                and_then-Ok (Some (IsLimit true)) IsGroup _ _
                                  (memory_limit-IsLimit value (codes "memory_max") true)
                                  (λ memory_max h4.
                                    and_then_any IsGroup
                                      (oom_of name (get_field (codes "oom_group") fs)) _
                                      (λ oom_group. record {
                                        name = hn;
                                        path = hp;
                                        swappiness = as_u8-le 200 swappiness hs;
                                        memory_min = h1;
                                        memory_low = h2;
                                        memory_high = h3;
                                        memory_max = h4;
                                      }))))))))

checked_thread-IsThread :
    (r : ThreadTuneRule)
    → thread_pattern_ok r.pattern ≡ true
    → Some (λ n. n ≤ 1024) r.uclamp_min
    → Some (λ n. n ≤ 1024) r.uclamp_max
    → Some (λ i. (leb_ℤ (negsuc 19) i && leb_ℤ i (pos 19)) ≡ true) r.nice
    → Ok IsThread (checked_thread r)
checked_thread-IsThread r p lo hi n =
    if_cases (Ok IsThread) (is_none r.uclamp_min && is_none r.uclamp_max && is_none r.nice)
      (λ e. tt)
      (λ e.
        if_cases (Ok IsThread) (out_of_order r.uclamp_min r.uclamp_max) (λ q. tt)
          (λ q. record {
            pattern = p;
            uclamp_min = lo;
            uclamp_max = hi;
            in_order = q;
            nice = n;
            some_setting = e;
          }))

pub thread_rule_from_value-IsThread : (value : Value) → Ok IsThread (thread_rule_from_value value)
unfolding thread_rule_from_value thread_rule_fields
thread_rule_from_value-IsThread value = of_option (as_object value)
  where
    of_option :
        (o : Option Fields)
        → Ok IsThread (elim o [
          | none ↦ err TuneError.thread_not_object
          | some fs ↦ thread_rule_fields value fs
        ])
    of_option none = tt
    of_option (some fs) =
        and_then-Ok (λ p. thread_pattern_ok p ≡ true) IsThread _ _
          (required-Ok (codes "pattern") fs thread_pattern_ok thread_pattern)
          (λ pattern hp.
            and_then-Ok (Some (λ n. n ≤ 1024)) IsThread _ _
              (optional_u64-le value (codes "uclamp_min") 1024)
              (λ lo hl.
                and_then-Ok (Some (λ n. n ≤ 1024)) IsThread _ _
                  (optional_u64-le value (codes "uclamp_max") 1024)
                  (λ hi hh.
                    and_then-Ok (Some (λ i. (leb_ℤ (negsuc 19) i && leb_ℤ i (pos 19)) ≡ true))
                      IsThread _ _ (optional_i64-range value (codes "nice") (negsuc 19) (pos 19))
                      (λ nice hn.
                        checked_thread-IsThread
                          (record {
                            pattern = pattern;
                            uclamp_min = as_uint 16 lo;
                            uclamp_max = as_uint 16 hi;
                            nice = as_i8 nice;
                          })
                          hp (as_u16-le 1024 lo hl) (as_u16-le 1024 hi hh) (as_i8-range nice hn)))))

collect-All :
    {A B : Type 0} (P : B → Type 0) (f : A → Outcome B) (xs : List A)
    → ((a : A) → Ok P (f a))
    → Ok (All P) (collect f xs)
collect-All P f [] h = tt
collect-All P f (x ∷ xs) h = and_then-Ok P (All P) (f x) _ (h x) (λ b hb.
    and_then-Ok (All P) (All P) (collect f xs) _ (collect-All P f xs h) (λ bs hbs. (hb, hbs)))

pub array_of-All :
    {A : Type 0} (P : A → Type 0) (e : TuneError) (f : Value → Outcome A) (o : Option Value)
    → ((v : Value) → Ok P (f v))
    → Ok (All P) (array_of e f o)
array_of-All P e f none h = tt
array_of-All P e f (some null) h = tt
array_of-All P e f (some (array vs)) h = collect-All P f (items vs) h
array_of-All P e f (some (bool b)) h = tt
array_of-All P e f (some (int i)) h = tt
array_of-All P e f (some real) h = tt
array_of-All P e f (some (str s)) h = tt
array_of-All P e f (some (object fs)) h = tt

group_of-Ok :
    (pkg : Text) (o : Option Value) → Ok (Some (λ g. group_name_ok g ≡ true)) (group_of pkg o)
group_of-Ok pkg none = tt
group_of-Ok pkg (some null) = tt
group_of-Ok pkg (some (str s)) =
    if_cases (Ok (Some (λ (g : Text). group_name_ok g ≡ true))) (is_empty (trim s)) (λ e. tt)
      (λ e.
        if_cases (Ok (Some (λ (g : Text). group_name_ok g ≡ true))) (group_name_ok (trim s))
          (λ q. q) (λ q. tt))
group_of-Ok pkg (some (array vs)) = tt
group_of-Ok pkg (some (bool b)) = tt
group_of-Ok pkg (some (int i)) = tt
group_of-Ok pkg (some real) = tt
group_of-Ok pkg (some (object fs)) = tt

pub app_from_value-IsApp : (value : Value) → Ok IsApp (app_from_value value)
unfolding app_from_value app_fields
app_from_value-IsApp value = of_option (as_object value)
  where
    of_option :
        (o : Option Fields)
        → Ok IsApp (elim o [ none ↦ err TuneError.app_not_object | some fs ↦ app_fields fs ])
    of_option none = tt
    of_option (some fs) =
        and_then-Ok (λ p. package_name_ok p ≡ true) IsApp _ _
          (required-Ok (codes "pkg") fs package_name_ok app_pkg)
          (λ pkg hp.
            and_then-Ok (Some (λ g. group_name_ok g ≡ true)) IsApp _ _
              (group_of-Ok pkg (get_field (codes "memory_group") fs))
              (λ group hg.
                and_then-Ok (All IsThread) IsApp _ _
                  (array_of-All IsThread (app_threads pkg) thread_rule_from_value
                    (get_field (codes "threads") fs) thread_rule_from_value-IsThread)
                  (λ threads ht.
                    if_cases (Ok IsApp) (is_none group && is_empty threads) (λ e. tt)
                      (λ e. record { pkg = hp; memory_group = hg; threads = ht; some_part = e }))))
