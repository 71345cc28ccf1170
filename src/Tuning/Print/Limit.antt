-- ===== src/Tuning/Print/Limit.antt =====
-- AppOptR/src/tuning.rs: a memory limit as it is printed, read by `memory_limit`.
use app_opt_r_plus.Prelude.{
  ℕ, zero, suc, ◌/◌, ◌^◌, ◌≤◌, ◌<◌, ◌≡◌, refl, sym, ap, ◌∙◌, inl, inr, Bool, true, false, not, ◌||◌,
  Option, none, some, List, [], ◌∷◌, ltb, leb, if◌then◌else◌, is_empty, any, all, map, length,
  arith, Bool-cases, if_cases, length-append,
}
use mathlib.Core.Path.{subst}
use app_opt_r_plus.Prelude.Text.{
  Text, codes, text_eq, trim, trim_start, trim_end, is_whitespace, byte_len, is_control, is_digit,
  lower_char, parse_uint, decimal, decimal_from,
}
use app_opt_r_plus.Prelude.Text.Split.{text_eq_iff, trim_none}
use app_opt_r_plus.Prelude.Text.Decimal.{
  decimal-digits, decimal-cons, decimal-whitespace, parse_uint-decimal,
}
use app_opt_r_plus.Json.{Value, get}
use app_opt_r_plus.Tuning.{Outcome, ok, err, and_then, bad_size}
use app_opt_r_plus.Tuning.Limits.{
  Some, IsLimit, is_null, string_field, string_value, raw_limit, bytes_text, checked_mul, present,
  optional_string, strip_suffix, split_unit, suffixes, size_of_raw, memory_limit,
}
use app_opt_r_plus.Tuning.Print.{opt_value}

length-decimal_from : (k fuel n : ℕ) → n < 10 ^ suc k → length (decimal_from fuel n) ≤ suc k
unfolding decimal_from
length-decimal_from k zero n h = omega arith
length-decimal_from zero (suc fuel) n h = ground (arith, h)
length-decimal_from (suc k) (suc fuel) n h = elim (Bool-cases (ltb n 10)) [
  | inl e ↦ rw e (omega arith)
  | inr e ↦
      rw (e, length-append) (omega (arith, length-decimal_from k fuel (n / 10) (omega (arith, h))))
]

digits_byte_len : (s : Text) → all is_digit s ≡ true → byte_len s ≡ length s
unfolding byte_len
digits_byte_len [] h = refl
digits_byte_len (c ∷ s) h = ground (arith, h, digits_byte_len s)

digits_control : (s : Text) → all is_digit s ≡ true → any is_control s ≡ false
digits_control [] h = refl
digits_control (c ∷ s) h = ground (arith, h, digits_control s)

digits_lower : (s : Text) → all is_digit s ≡ true → map lower_char s ≡ s
digits_lower [] h = refl
digits_lower (c ∷ s) h = ground (arith, h, digits_lower s)

-- What is no number does not end one.
digits_strip_suffix :
    (s p : Text)
    → all is_digit s ≡ true
    → (is_empty p || all is_digit p) ≡ false
    → strip_suffix s p ≡ none
unfolding strip_suffix
digits_strip_suffix [] p h g = ground (arith, g)
digits_strip_suffix (c ∷ s) p h g = elim (Bool-cases (text_eq (c ∷ s) p)) [
  | inl e ↦
      absurd (let q : c ∷ s ≡ p = (text_eq_iff (c ∷ s) p).0 e in cc (ap (all is_digit) q, h, g))
  | inr e ↦ rw (e, digits_strip_suffix s p (ground (arith, h)) g) refl
]

digits_split_unit :
    (us : List (Text × ℕ)) (s : Text)
    → all is_digit s ≡ true
    → any (λ u. is_empty u.0 || all is_digit u.0) us ≡ false
    → split_unit us s ≡ (s, 1)
unfolding split_unit
digits_split_unit [] s h g = refl
digits_split_unit ((p, n) ∷ us) s h g =
    rw (digits_strip_suffix s p h (ground (arith, g)))
      (digits_split_unit us s h (ground (arith, g)))

-- A field that is there, by what it holds.
pub present-get :
    (field : Text) (value v : Value)
    → get field value ≡ some v
    → present field value ≡ (if is_null v then none else some v)
unfolding present
present-get field value v h =
    ap (λ o. elim o [ none ↦ none | some x ↦ if is_null x then none else some x ]) h

digits_text_eq : (s p : Text) → all is_digit s ≡ true → all is_digit p ≡ false → text_eq s p ≡ false
digits_text_eq s p h g = elim (Bool-cases (text_eq s p)) [
  | inl e ↦ absurd (let q : s ≡ p = (text_eq_iff s p).0 e in cc (ap (all is_digit) q, h, g))
  | inr e ↦ e
]

-- `size_of_raw` behind the split.
sized : Text → Text × ℕ → Outcome (Option Text)
sized field u =
    if is_empty u.0 || not (all is_digit u.0)
    then err (bad_size field)
    else bytes_text field (checked_mul (parse_uint (2 ^ 64) u.0) u.1)

decimal_size :
    (field : Text) (m : Bool) (n : ℕ)
    → n < 2 ^ 64
    → size_of_raw field m (decimal n) ≡ ok (some (decimal n))
unfolding size_of_raw sized
decimal_size field m n h =
    let d = decimal-digits n in
    let u = digits_split_unit suffixes (decimal n) d refl in
    let (c, s, e, f) = decimal-cons n in
    let ne : is_empty (decimal n) ≡ false = ap (λ (t : Text). is_empty t) e in
    let p = parse_uint-decimal (2 ^ 64) n h in
    let fits : checked_mul (some n) 1 ≡ some n = ground (arith, h) in
    if_cases (λ (r : Outcome (Option Text)). r ≡ ok (some (decimal n)))
      (text_eq (decimal n) (codes "max"))
      (λ t. absurd (cc (t, digits_text_eq (decimal n) (codes "max") d refl)))
      (λ t.
        ap (sized field) u
        ∙ (if_cases (λ (r : Outcome (Option Text)). r ≡ ok (some (decimal n)))
            (is_empty (decimal n) || not (all is_digit (decimal n)))
            (λ b. absurd (ground (arith, b, ne, d)))
            (λ b. ap (λ o. bytes_text field (checked_mul o 1)) p ∙ ap (bytes_text field) fits)))

max_size :
    (field : Text) (m : Bool)
    → m ≡ true
    → size_of_raw field m (codes "max") ≡ ok (some (codes "max"))
unfolding size_of_raw text_eq
max_size field true a = refl
max_size field false a = absurd (cc a)

limit_size :
    (field : Text) (m : Bool) (s : Text)
    → IsLimit m s
    → size_of_raw field m (map lower_char s) ≡ ok (some s)
limit_size field m s (inl (n, h, e)) =
    ap (λ t. size_of_raw field m (map lower_char t)) e
    ∙ (ap (size_of_raw field m) (digits_lower (decimal n) (decimal-digits n))
        ∙ (decimal_size field m n h ∙ ap (λ t. ok (some t)) (sym e)))
limit_size field m s (inr (a, e)) =
    ap (λ t. size_of_raw field m (map lower_char t)) e
    ∙ (max_size field m a ∙ ap (λ t. ok (some t)) (sym e))

-- A limit has no space around it, is short, and has no control character.
limit_text :
    (m : Bool) (s : Text)
    → IsLimit m s
    → (trim s ≡ s) × (is_empty s ≡ false) × ((leb 64 (byte_len s) || any is_control s) ≡ false)
unfolding decimal trim trim_start trim_end is_whitespace byte_len
limit_text m s (inl (n, h, e)) =
    let d = decimal-digits n in
    let (c, t, f, g) = decimal-cons n in
    let l = length-decimal_from 19 (suc n) n (omega (arith, h)) in
    subst
      (λ (x : Text).
        (trim x ≡ x) × (is_empty x ≡ false) × ((leb 64 (byte_len x) || any is_control x) ≡ false))
      (sym e)
      (
        trim_none (decimal n) (decimal-whitespace n),
        ap (λ (t : Text). is_empty t) f,
        ground (arith, digits_byte_len (decimal n) d, digits_control (decimal n) d, l),
      )
limit_text m s (inr (a, e)) =
    subst
      (λ (x : Text).
        (trim x ≡ x) × (is_empty x ≡ false) × ((leb 64 (byte_len x) || any is_control x) ≡ false))
      (sym e) (refl, refl, refl)

limit_string :
    (field : Text) (m : Bool) (s : Text)
    → IsLimit m s
    → string_value field 64 (some s) ≡ ok (some s)
limit_string field m s h = let (t, e, b) = limit_text m s h in rw (t, e, b) refl

pub memory_limit-opt_value :
    (value : Value) (field : Text) (m : Bool) (o : Option Text)
    → get field value ≡ some (opt_value o)
    → Some (IsLimit m) o
    → memory_limit value field m ≡ ok o
unfolding memory_limit optional_string opt_value
memory_limit-opt_value value field m none g h =
    ap (λ p. and_then (string_field field 64 p) (raw_limit field m))
      (present-get field value (opt_value none) g)
memory_limit-opt_value value field m (some s) g h =
    ap (λ p. and_then (string_field field 64 p) (raw_limit field m))
      (present-get field value (opt_value (some s)) g)
    ∙ (ap (λ r. and_then r (raw_limit field m)) (limit_string field m s h) ∙ limit_size field m s h)
