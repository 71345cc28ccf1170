-- ===== src/Cpuset/Ranges/Print.antt =====
-- AppOptR/src/cpuset.rs, `to_range_string`: lemmas on the text of one range and on the parts of a text.
use app_opt_r_plus.Prelude.{
  ℕ, ◌^◌, ◌<◌, ◌≤◌, ◌≡◌, refl, ◌∙◌, false, ◌&&◌, ◌||◌, [], ◌∷◌, ◌++◌, some, leb, ◌==◌, arith,
  Bool-cases, inl, inr, any, any-append, ||_false,
}
use app_opt_r_plus.Prelude.Text.{
  Text, trim, trim_start, trim_end, split, contains, decimal, is_whitespace,
}
use app_opt_r_plus.Prelude.Text.Split.{
  contains-append, split-append, split_absent, split_once-append, split_once_absent, trim_none,
}
use app_opt_r_plus.Prelude.Text.Decimal.{
  parse_uint-decimal, decimal-contains, decimal-whitespace, decimal-cons,
}
use app_opt_r_plus.Cpuset.Ranges.{range_text, part_bounds}
use app_opt_r_plus.Cpuset.Ranges.Parse.{spec_covers, covers}

range_text-plain :
    (lo hi : ℕ)
    → (contains (range_text lo hi) b',' ≡ false) × (any is_whitespace (range_text lo hi) ≡ false)
unfolding contains is_whitespace
range_text-plain lo hi = elim (Bool-cases (lo == hi)) [
  | inl e ↦ rw e (decimal-contains lo b',' refl, decimal-whitespace lo)
  | inr e ↦ rw e (
    ground (
      arith,
      contains-append (decimal lo) (b'-' ∷ decimal hi) b',',
      decimal-contains lo b',',
      decimal-contains hi b',',
    ),
    ground (
      arith,
      any-append is_whitespace (decimal lo) (b'-' ∷ decimal hi),
      decimal-whitespace lo,
      decimal-whitespace hi,
    ),
  )
]

part_bounds-decimal : (n : ℕ) → n < 1024 → part_bounds (decimal n) ≡ some (n, n)
unfolding part_bounds
part_bounds-decimal n h =
    let (c, s, e, d) = decimal-cons n in
    ground (
      arith,
      e,
      split_once_absent b'-' (decimal n) (decimal-contains n b'-' refl),
      parse_uint-decimal (2 ^ 64) n (omega arith),
    )

part_bounds-pair :
    (lo hi : ℕ)
    → lo ≤ hi
    → hi < 1024
    → part_bounds (decimal lo ++ (b'-' ∷ decimal hi)) ≡ some (lo, hi)
unfolding part_bounds
part_bounds-pair lo hi h g =
    let (c, s, e, d) = decimal-cons lo in
    let f : decimal lo ++ (b'-' ∷ decimal hi) ≡ c ∷ (s ++ (b'-' ∷ decimal hi)) = rw e in
    ground (
      arith,
      f,
      split_once-append b'-' (decimal lo) (decimal hi) (decimal-contains lo b'-' refl),
      parse_uint-decimal (2 ^ 64) lo (omega arith),
      parse_uint-decimal (2 ^ 64) hi (omega arith),
    )

part_bounds-range_text :
    (lo hi : ℕ) → lo ≤ hi → hi < 1024 → part_bounds (range_text lo hi) ≡ some (lo, hi)
part_bounds-range_text lo hi h g = elim (Bool-cases (lo == hi)) [
  | inl e ↦ let q : lo ≡ hi = ground arith in rw e (part_bounds-decimal lo (omega arith) ∙ rw q)
  | inr e ↦ rw e (part_bounds-pair lo hi h g)
]

-- The one part that a written range is covers what lies between its bounds.
pub range_text-covers :
    (lo hi i : ℕ)
    → lo ≤ hi
    → hi < 1024
    → any (covers i) (split b',' (range_text lo hi)) ≡ (leb lo i && leb i hi)
range_text-covers lo hi i h g =
    rw
      (
        split_absent b',' (range_text lo hi) (range_text-plain lo hi).0,
        trim_none (range_text lo hi) (range_text-plain lo hi).1,
        part_bounds-range_text lo hi h g,
      )
      (||_false (leb lo i && leb i hi))

pub spec_covers-append :
    (a b : Text) (i : ℕ) → spec_covers (a ++ (b',' ∷ b)) i ≡ (spec_covers a i || spec_covers b i)
spec_covers-append a b i =
    rw (split-append b',' a b) (any-append (covers i) (split b',' a) (split b',' b))

pub spec_covers-nil : (i : ℕ) → spec_covers [] i ≡ false
unfolding split trim trim_start trim_end part_bounds
spec_covers-nil i = refl
