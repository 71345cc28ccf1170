-- ===== src/Tuning/Limits.antt =====
-- AppOptR/src/tuning.rs: `optional_string`, `optional_u64`, `optional_i64` and `memory_limit`.
use app_opt_r_plus.Prelude.{
  ℕ, ◌*◌, ◌^◌, ◌<◌, ◌≤◌, ◌≡◌, refl, Bool, true, false, not, ◌&&◌, ◌||◌, Option, none, some, List,
  [], ◌∷◌, ltb, leb, if◌then◌else◌, is_empty, any, all, map, arith, if_cases, ltb→lt, ◌⊎◌, inl, inr,
}
use app_opt_r_plus.Prelude.Int.{ℤ, leb_ℤ}
use app_opt_r_plus.Prelude.Text.{
  Text, codes, text_eq, trim, byte_len, is_control, is_digit, lower_char, parse_uint, decimal,
}
use app_opt_r_plus.Json.{Value, null, get, as_str, as_u64, as_i64}
use app_opt_r_plus.Tuning.{
  not_string, bad_format, not_integer, out_of_range, no_max, bad_size, too_large, Outcome, ok, err,
  and_then,
}

abbrev pub is_null : Value → Bool
is_null null = true
is_null _ = false

-- A field that is there and not `null`.
unfoldable pub present : Text → Value → Option Value
present field value = elim (get field value) [
  | none ↦ none
  | some v ↦ if is_null v then none else some v
]

abbrev pub string_value : Text → ℕ → Option Text → Outcome (Option Text)
string_value field max_len none = err (not_string field)
string_value field max_len (some s) =
    let v = trim s in
    if is_empty v
    then ok none
    else if leb max_len (byte_len v) || any is_control v
    then err (bad_format field)
    else ok (some v)

abbrev pub string_field : Text → ℕ → Option Value → Outcome (Option Text)
string_field field max_len none = ok none
string_field field max_len (some v) = string_value field max_len (as_str v)

unfoldable pub optional_string : Value → Text → ℕ → Outcome (Option Text)
unfolding present
optional_string value field max_len = string_field field max_len (present field value)

abbrev pub u64_value : Text → ℕ → Option ℕ → Outcome (Option ℕ)
u64_value field max none = err (not_integer field)
u64_value field max (some n) = if ltb max n then err (out_of_range field) else ok (some n)

abbrev pub u64_field : Text → ℕ → Option Value → Outcome (Option ℕ)
u64_field field max none = ok none
u64_field field max (some v) = u64_value field max (as_u64 v)

unfoldable pub optional_u64 : Value → Text → ℕ → Outcome (Option ℕ)
unfolding present
optional_u64 value field max = u64_field field max (present field value)

abbrev pub i64_value : Text → ℤ → ℤ → Option ℤ → Outcome (Option ℤ)
i64_value field min max none = err (not_integer field)
i64_value field min max (some i) =
    if not (leb_ℤ min i && leb_ℤ i max) then err (out_of_range field) else ok (some i)

abbrev pub i64_field : Text → ℤ → ℤ → Option Value → Outcome (Option ℤ)
i64_field field min max none = ok none
i64_field field min max (some v) = i64_value field min max (as_i64 v)

unfoldable pub optional_i64 : Value → Text → ℤ → ℤ → Outcome (Option ℤ)
unfolding present
optional_i64 value field min max = i64_field field min max (present field value)

abbrev push_digit : ℕ → Option Text → Option Text
push_digit c none = none
push_digit c (some s) = some (c ∷ s)

unfoldable pub strip_suffix : Text → Text → Option Text
strip_suffix [] p = if is_empty p then some [] else none
strip_suffix (c ∷ s) p = if text_eq (c ∷ s) p then some [] else push_digit c (strip_suffix s p)

abbrev pub suffixes : List (Text × ℕ)
suffixes =
    (codes "tib", 2 ^ 40)
    ∷ (codes "tb", 2 ^ 40)
    ∷ (codes "t", 2 ^ 40)
    ∷ (codes "gib", 2 ^ 30)
    ∷ (codes "gb", 2 ^ 30)
    ∷ (codes "g", 2 ^ 30)
    ∷ (codes "mib", 2 ^ 20)
    ∷ (codes "mb", 2 ^ 20)
    ∷ (codes "m", 2 ^ 20)
    ∷ (codes "kib", 2 ^ 10)
    ∷ (codes "kb", 2 ^ 10)
    ∷ (codes "k", 2 ^ 10)
    ∷ []

abbrev or_unit : ℕ → Option Text → Text × ℕ → Text × ℕ
or_unit unit none rest = rest
or_unit unit (some digits) rest = (digits, unit)

-- The first suffix that the text ends with.
unfoldable pub split_unit : List (Text × ℕ) → Text → Text × ℕ
split_unit [] raw = (raw, 1)
split_unit ((suffix, unit) ∷ us) raw = or_unit unit (strip_suffix raw suffix) (split_unit us raw)

abbrev pub checked_mul : Option ℕ → ℕ → Option ℕ
checked_mul none m = none
checked_mul (some n) m = if ltb (n * m) (2 ^ 64) then some (n * m) else none

abbrev pub bytes_text : Text → Option ℕ → Outcome (Option Text)
bytes_text field none = err (too_large field)
bytes_text field (some n) = ok (some (decimal n))

unfoldable pub size_of_raw : Text → Bool → Text → Outcome (Option Text)
unfolding split_unit
size_of_raw field allow_max raw =
    if text_eq raw (codes "max")
    then (if allow_max then ok (some (codes "max")) else err (no_max field))
    else let (digits, multiplier) = split_unit suffixes raw in
      (if is_empty digits || not (all is_digit digits)
        then err (bad_size field)
        else bytes_text field (checked_mul (parse_uint (2 ^ 64) digits) multiplier))

abbrev pub raw_limit : Text → Bool → Option Text → Outcome (Option Text)
raw_limit field allow_max none = ok none
raw_limit field allow_max (some raw) = size_of_raw field allow_max (map lower_char raw)

unfoldable pub memory_limit : Value → Text → Bool → Outcome (Option Text)
unfolding optional_string size_of_raw
memory_limit value field allow_max =
    and_then (optional_string value field 64) (raw_limit field allow_max)

-- What holds of a value that is returned, if one is.
abbrev pub Ok : {A : Type 0} → (A → Type 0) → Outcome A → Type 0
Ok P (ok a) = P a
Ok P (err e) = Unit

abbrev pub Some : {A : Type 0} → (A → Type 0) → Option A → Type 0
Some P none = Unit
Some P (some a) = P a

pub and_then-Ok :
    {A B : Type 0} (P : A → Type 0) (Q : B → Type 0) (r : Outcome A) (f : A → Outcome B)
    → Ok P r
    → ((a : A) → P a → Ok Q (f a))
    → Ok Q (and_then r f)
and_then-Ok P Q (ok a) f h g = g a h
and_then-Ok P Q (err e) f h g = tt

pub and_then_any :
    {A B : Type 0} (Q : B → Type 0) (r : Outcome A) (f : A → Outcome B)
    → ((a : A) → Ok Q (f a))
    → Ok Q (and_then r f)
and_then_any Q (ok a) f g = g a
and_then_any Q (err e) f g = tt

-- A number of bytes in decimal that a `u64` holds, or `max` where that is allowed.
abbrev pub IsLimit : Bool → Text → Type 0
IsLimit allow_max s =
    ((n : ℕ) × (n < 2 ^ 64) × (s ≡ decimal n)) ⊎ ((allow_max ≡ true) × (s ≡ codes "max"))

size_of_raw-IsLimit :
    (field : Text) (m : Bool) (raw : Text) → Ok (Some (IsLimit m)) (size_of_raw field m raw)
unfolding size_of_raw
size_of_raw-IsLimit field m raw =
    if_cases (Ok (Some (IsLimit m))) (text_eq raw (codes "max"))
      (λ e. if_cases (Ok (Some (IsLimit m))) m (λ a. inr (a, refl)) (λ a. tt))
      (λ e.
        let (digits, multiplier) = split_unit suffixes raw in
        if_cases (Ok (Some (IsLimit m))) (is_empty digits || not (all is_digit digits)) (λ a. tt)
          (λ a. product (parse_uint (2 ^ 64) digits) multiplier))
  where
    text :
        (o : Option ℕ) → Some (λ (n : ℕ). n < 2 ^ 64) o → Ok (Some (IsLimit m)) (bytes_text field o)
    text none h = tt
    text (some n) h = inl (n, h, refl)

    product : (o : Option ℕ) (k : ℕ) → Ok (Some (IsLimit m)) (bytes_text field (checked_mul o k))
    product none k = tt
    product (some n) k = text _ (
        if_cases (Some (λ (n : ℕ). n < 2 ^ 64)) (ltb (n * k) (2 ^ 64)) (ltb→lt (n * k) (2 ^ 64))
          (λ a. tt))

pub memory_limit-IsLimit :
    (value : Value) (field : Text) (m : Bool) → Ok (Some (IsLimit m)) (memory_limit value field m)
unfolding memory_limit
memory_limit-IsLimit value field m =
    and_then_any (Some (IsLimit m)) (optional_string value field 64) (raw_limit field m) limit
  where
    limit : (o : Option Text) → Ok (Some (IsLimit m)) (raw_limit field m o)
    limit none = tt
    limit (some raw) = size_of_raw-IsLimit field m (map lower_char raw)

pub optional_u64-le :
    (value : Value) (field : Text) (max : ℕ)
    → Ok (Some (λ n. n ≤ max)) (optional_u64 value field max)
unfolding optional_u64
optional_u64-le value field max = of_field (present field value)
  where
    of_value : (o : Option ℕ) → Ok (Some (λ n. n ≤ max)) (u64_value field max o)
    of_value none = tt
    of_value (some n) =
        if_cases (Ok (Some (λ (n : ℕ). n ≤ max))) (ltb max n) (λ e. tt) (λ e. ground (arith, e))

    of_field : (o : Option Value) → Ok (Some (λ n. n ≤ max)) (u64_field field max o)
    of_field none = tt
    of_field (some v) = of_value (as_u64 v)

pub optional_i64-range :
    (value : Value) (field : Text) (min max : ℤ)
    → Ok (Some (λ i. (leb_ℤ min i && leb_ℤ i max) ≡ true)) (optional_i64 value field min max)
unfolding optional_i64
optional_i64-range value field min max = of_field (present field value)
  where
    of_value :
        (o : Option ℤ)
        → Ok (Some (λ i. (leb_ℤ min i && leb_ℤ i max) ≡ true)) (i64_value field min max o)
    of_value none = tt
    of_value (some i) =
        if_cases (Ok (Some (λ (i : ℤ). (leb_ℤ min i && leb_ℤ i max) ≡ true)))
          (not (leb_ℤ min i && leb_ℤ i max)) (λ e. tt) (λ e. ground (arith, e))

    of_field :
        (o : Option Value)
        → Ok (Some (λ i. (leb_ℤ min i && leb_ℤ i max) ≡ true)) (i64_field field min max o)
    of_field none = tt
    of_field (some v) = of_value (as_i64 v)
