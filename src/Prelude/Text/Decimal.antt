-- ===== src/Prelude/Text/Decimal.antt =====
-- Printing a number and reading it back.
use app_opt_r_plus.Prelude.{
  ℕ, zero, suc, ◌+◌, ◌-◌, ◌*◌, ◌/◌, ◌%◌, ◌<◌, true, false, [], ◌∷◌, ◌++◌, some, ◌≡◌, refl, ap, ltb,
  arith, any, all, Bool-cases, inl, inr, append_assoc, append-nil, ltb→lt,
}
use app_opt_r_plus.Prelude.Text.{
  Text, is_digit, is_whitespace, contains, digits_value, parse_uint, decimal_from, decimal,
}

digits_value-cons :
    (acc k n : ℕ) (rest : Text)
    → k < 10
    → n ≡ acc * 10 + k
    → digits_value acc ((k + b'0') ∷ rest) ≡ digits_value n rest
unfolding digits_value
digits_value-cons acc k n rest h e =
    let v : acc * 10 + (k + b'0' - b'0') ≡ n = omega arith in
    ground (arith, ap (λ (t : ℕ). digits_value t rest) v)

digits_value-decimal_from :
    (fuel n : ℕ) (rest : Text)
    → n < fuel
    → digits_value 0 (decimal_from fuel n ++ rest) ≡ digits_value n rest
unfolding decimal_from
digits_value-decimal_from zero n rest h = elim h [ ]
digits_value-decimal_from (suc fuel) n rest h = elim (Bool-cases (ltb n 10)) [
  | inl p ↦ rw p (digits_value-cons 0 n n rest (ltb→lt n 10 p) (omega arith))
  | inr p ↦
      rw (p, append_assoc, digits_value-decimal_from fuel (n / 10) _ (ground arith))
        (digits_value-cons (n / 10) (n % 10) n rest (omega arith) (omega arith))
]

decimal_from-digits : (fuel n : ℕ) → all is_digit (decimal_from fuel n) ≡ true
unfolding decimal_from
decimal_from-digits zero n = refl
decimal_from-digits (suc fuel) n = elim (Bool-cases (ltb n 10)) [
  | inl p ↦ rw p (ground arith)
  | inr p ↦ rw p (
      all_digits-concat (decimal_from fuel (n / 10)) (n % 10) (decimal_from-digits fuel (n / 10))
        (omega arith))
]
  where
    all_digits-concat :
        (s : Text) (k : ℕ)
        → all is_digit s ≡ true
        → k < 10
        → all is_digit (s ++ (k + b'0') ∷ []) ≡ true
    all_digits-concat [] k h g = ground arith
    all_digits-concat (c ∷ s) k h g = ground (arith, all_digits-concat s k)

pub decimal-digits : (n : ℕ) → all is_digit (decimal n) ≡ true
unfolding decimal
decimal-digits n = decimal_from-digits (suc n) n

concat-cons : (s : Text) (k : ℕ) → (c : ℕ) × (t : Text) × (s ++ k ∷ [] ≡ c ∷ t)
concat-cons [] k = (k, [], refl)
concat-cons (c ∷ s) k = (c, s ++ k ∷ [], refl)

-- A printed number begins with a digit.
pub decimal-cons : (n : ℕ) → (c : ℕ) × (s : Text) × (decimal n ≡ c ∷ s) × (is_digit c ≡ true)
unfolding decimal decimal_from
decimal-cons n = elim (Bool-cases (ltb n 10)) [
  | inl p ↦ (n + b'0', [], rw p, ground arith)
  | inr p ↦
      let (c, s, e) = concat-cons (decimal_from n (n / 10)) (n % 10 + b'0') in
      let f : decimal n ≡ c ∷ s = rw p e in (c, s, f, ground (arith, rw f at (decimal-digits n)))
]

-- What a number prints as is read back as that number, at any type that holds it.
pub parse_uint-decimal : (limit n : ℕ) → n < limit → parse_uint limit (decimal n) ≡ some n
unfolding parse_uint digits_value
parse_uint-decimal limit n h =
    let (c, s, e, d) = decimal-cons n in
    let v : digits_value 0 (c ∷ s) ≡ some n = rw e at value in rw e (ground arith)
  where
    value : digits_value 0 (decimal n) ≡ some n
    value =
        unfold decimal in rw (append-nil) at (digits_value-decimal_from (suc n) n [] (omega arith))

-- A character that is no digit does not stand in a printed number.
digits-contains :
    (s : Text) (d : ℕ) → all is_digit s ≡ true → is_digit d ≡ false → contains s d ≡ false
unfolding contains
digits-contains [] d h g = refl
digits-contains (c ∷ s) d h g = ground (arith, digits-contains s d)

pub decimal-contains : (n d : ℕ) → is_digit d ≡ false → contains (decimal n) d ≡ false
decimal-contains n d = digits-contains (decimal n) d (decimal-digits n)

digits-whitespace : (s : Text) → all is_digit s ≡ true → any is_whitespace s ≡ false
unfolding is_whitespace
digits-whitespace [] h = refl
digits-whitespace (c ∷ s) h = ground (arith, digits-whitespace s)

pub decimal-whitespace : (n : ℕ) → any is_whitespace (decimal n) ≡ false
decimal-whitespace n = digits-whitespace (decimal n) (decimal-digits n)
