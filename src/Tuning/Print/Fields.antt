-- ===== src/Tuning/Print/Fields.antt =====
-- AppOptR/src/tuning.rs: the fields of a profile as `config_value` prints them, read by the parser.
use app_opt_r_plus.Prelude.{
  ℕ, ◌^◌, ◌≤◌, ◌<◌, ◌≡◌, refl, sym, ap, ◌∙◌, Bool, true, false, ◌&&◌, Option, none, some, List, [],
  ◌∷◌, if◌then◌else◌, is_empty, All, arith, if_cases,
}
use app_opt_r_plus.Prelude.Int.{ℤ, pos, negsuc, leb_ℤ}
use app_opt_r_plus.Prelude.Text.{Text, trim}
use app_opt_r_plus.Prelude.Text.Trim.{trim-trim}
use app_opt_r_plus.Json.{Value, null, bool, str, int, array, object, real, Fields, get, get_field}
use app_opt_r_plus.Tuning.{Outcome, ok, err, and_then, TuneError, group_name_ok, plain_token_ok}
use app_opt_r_plus.Tuning.Limits.{Ok, Some, u64_field, i64_field, optional_u64, optional_i64}
use app_opt_r_plus.Tuning.Parse.{
  required, checked, str_of, as_uint, as_i8, oom_of, group_of, array_of,
}
use app_opt_r_plus.Tuning.Print.{opt_value, opt_uint, opt_int, opt_bool, array_items}
use app_opt_r_plus.Tuning.Print.Limit.{present-get}

-- One step of a chain.
pub and_then-ok :
    {A B : Type 0} {r : Outcome A} {a : A} (f : A → Outcome B) → r ≡ ok a → and_then r f ≡ f a
and_then-ok f e = ap (λ r. and_then r f) e

-- A name that passes a test and has no space around it.
abbrev pub Trimmed : (Text → Bool) → Text → Type 0
Trimmed test s = (test s ≡ true) × (trim s ≡ s)

pub required-str :
    (field : Text) (fs : Fields) (test : Text → Bool) (e : TuneError) (s : Text)
    → get_field field fs ≡ some (str s)
    → Trimmed test s
    → required field fs test e ≡ ok s
unfolding required
required-str field fs test e s g (h, t) =
    ap (λ o. checked test e (str_of o)) g ∙ (ap (λ x. if test x then ok x else err e) t ∙ rw h refl)

pub required-Trimmed :
    (field : Text) (fs : Fields) (test : Text → Bool) (e : TuneError)
    → Ok (Trimmed test) (required field fs test e)
unfolding required
required-Trimmed field fs test e = of_option (str_of (get_field field fs))
  where
    of_option : (o : Option Text) → Ok (Trimmed test) (checked test e o)
    of_option none = tt
    of_option (some s) =
        if_cases (Ok (Trimmed test)) (test (trim s)) (λ h. (h, trim-trim s)) (λ h. tt)

pub optional_u64-opt_uint :
    (value : Value) (field : Text) (max : ℕ) (o : Option ℕ)
    → get field value ≡ some (opt_uint o)
    → Some (λ n. n ≤ max) o
    → max < 2 ^ 64
    → optional_u64 value field max ≡ ok o
unfolding optional_u64
optional_u64-opt_uint value field max none g h l =
    ap (u64_field field max) (present-get field value null g)
optional_u64-opt_uint value field max (some n) g h l =
    ap (u64_field field max) (present-get field value (int (pos n)) g) ∙ ground (arith, h, l)

pub optional_i64-opt_int :
    (value : Value) (field : Text) (o : Option ℤ)
    → get field value ≡ some (opt_int o)
    → Some (λ i. (leb_ℤ (negsuc 19) i && leb_ℤ i (pos 19)) ≡ true) o
    → optional_i64 value field (negsuc 19) (pos 19) ≡ ok o
unfolding optional_i64
optional_i64-opt_int value field none g h =
    ap (i64_field field (negsuc 19) (pos 19)) (present-get field value null g)
optional_i64-opt_int value field (some (pos n)) g h =
    ap (i64_field field (negsuc 19) (pos 19)) (present-get field value (int (pos n)) g)
    ∙ ground (arith, h)
optional_i64-opt_int value field (some (negsuc n)) g h =
    ap (i64_field field (negsuc 19) (pos 19)) (present-get field value (int (negsuc n)) g)
    ∙ ground (arith, h)

pub as_u8_lem : (o : Option ℕ) → Some (λ n. n ≤ 200) o → as_uint 8 o ≡ o
as_u8_lem none h = refl
as_u8_lem (some n) h = ap some (omega (arith, h))

pub as_u16_lem : (o : Option ℕ) → Some (λ n. n ≤ 1024) o → as_uint 16 o ≡ o
as_u16_lem none h = refl
as_u16_lem (some n) h = ap some (omega (arith, h))

pub as_i8_lem :
    (o : Option ℤ) → Some (λ i. (leb_ℤ (negsuc 19) i && leb_ℤ i (pos 19)) ≡ true) o → as_i8 o ≡ o
as_i8_lem none h = refl
as_i8_lem (some (pos n)) h = ground (arith, h)
as_i8_lem (some (negsuc n)) h = ground (arith, h)

pub oom_of-opt_bool : (name : Text) (o : Option Bool) → oom_of name (some (opt_bool o)) ≡ ok o
oom_of-opt_bool name none = refl
oom_of-opt_bool name (some b) = refl

not_blank : (s : Text) → group_name_ok s ≡ true → is_empty (trim s) ≡ false
unfolding group_name_ok plain_token_ok
not_blank s h = ground (arith, h)

pub group_of-opt_value :
    (pkg : Text) (o : Option Text)
    → Some (Trimmed group_name_ok) o
    → group_of pkg (some (opt_value o)) ≡ ok o
unfolding opt_value
group_of-opt_value pkg none h = refl
group_of-opt_value pkg (some s) (h, t) =
    let e : is_empty s ≡ false = ap (λ (x : Text). is_empty x) (sym t) ∙ not_blank s h in
    rw (t, e, h) refl

pub group_of-Trimmed :
    (pkg : Text) (o : Option Value) → Ok (Some (Trimmed group_name_ok)) (group_of pkg o)
group_of-Trimmed pkg none = tt
group_of-Trimmed pkg (some null) = tt
group_of-Trimmed pkg (some (str s)) =
    if_cases (Ok (Some (Trimmed group_name_ok))) (is_empty (trim s)) (λ e. tt)
      (λ e.
        if_cases (Ok (Some (Trimmed group_name_ok))) (group_name_ok (trim s))
          (λ q. (q, trim-trim s)) (λ q. tt))
group_of-Trimmed pkg (some (array vs)) = tt
group_of-Trimmed pkg (some (bool b)) = tt
group_of-Trimmed pkg (some (int i)) = tt
group_of-Trimmed pkg (some real) = tt
group_of-Trimmed pkg (some (object fs)) = tt

pub array_of-array_items :
    {A : Type 0} (e : TuneError) (f : Value → Outcome A) (g : A → Value) (xs : List A)
    → All (λ x. f (g x) ≡ ok x) xs
    → array_of e f (some (array (array_items g xs))) ≡ ok xs
array_of-array_items e f g [] h = refl
array_of-array_items e f g (x ∷ xs) (p, h) =
    and_then-ok _ p ∙ and_then-ok _ (array_of-array_items e f g xs h)
