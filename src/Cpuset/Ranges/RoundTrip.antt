-- ===== src/Cpuset/Ranges/RoundTrip.antt =====
-- AppOptR/src/cpuset.rs: the loop of `to_range_string`, whose invariant is about what is written and the pending
-- range, and `parse_cpu_ranges` on its text.
use Prim.Native.Nat.{bit_and}
use app_opt_r_plus.Prelude.{
  ℕ, zero, suc, ◌+◌, ◌-◌, ◌*◌, ◌/◌, ◌%◌, ◌^◌, ◌<◌, ◌≤◌, ◌≡◌, refl, ap, ◌∙◌, Bool, true, false, not,
  ◌&&◌, ◌||◌, List, [], ◌∷◌, Option, none, some, ltb, leb, ◌==◌, if◌then◌else◌, arith, Bool-cases,
  inl, inr, length, get_or, is_some, lt→ltb,
}
use app_opt_r_plus.Prelude.Bits.{zero-bit_and}
use app_opt_r_plus.Prelude.Text.{Text}
use app_opt_r_plus.Cpuset.{CpuSet, IsCpuSet, is_set}
use app_opt_r_plus.Cpuset.Whole.{eq_of_is_set}
use app_opt_r_plus.Cpuset.Ranges.{
  RangeState, range_text, push_range_at, push_range, set_bit_at, bit_step, bits_loop, word_step,
  words_loop, range_start, to_range_string, parse_cpu_ranges,
}
use app_opt_r_plus.Cpuset.Ranges.Parse.{
  spec_covers, is_set-parse_cpu_ranges, parse_cpu_ranges-IsCpuSet,
}
use app_opt_r_plus.Cpuset.Ranges.Print.{range_text-covers, spec_covers-append, spec_covers-nil}

-- The range that is not written yet, and what it may be when the bits below `n` are read.
abbrev pending : Option ℕ → Option ℕ → ℕ → Bool
pending (some lo) (some hi) i = leb lo i && leb i hi
pending _ _ i = false

abbrev IsPending : ℕ → Option ℕ → Option ℕ → Type 0
IsPending n none none = Unit
IsPending n (some lo) (some hi) = (lo ≤ hi) × (hi < n)
IsPending n _ _ = ⊥

record Covers (member : ℕ → Bool) (n : ℕ) (st : RangeState) : Type 0 where
  bound : n ≤ 1024
  shape : IsPending n st.start st.end
  first_empty : st.first ≡ true → st.result ≡ []
  covered : (i : ℕ) → (spec_covers st.result i || pending st.start st.end i) ≡ (ltb i n && member i)

push-covers :
    (n : ℕ) (s e : Option ℕ) (st : RangeState) (i : ℕ)
    → n ≤ 1024
    → IsPending n s e
    → (st.first ≡ true → st.result ≡ [])
    → spec_covers (push_range_at s e st).result i ≡ (spec_covers st.result i || pending s e i)
push-covers n none none st i b h f = ground arith
push-covers n (some lo) none st i b h f = absurd h
push-covers n none (some hi) st i b h f = absurd h
push-covers n (some lo) (some hi) st i b h f = elim (Bool-cases st.first) [
  | inl p ↦ rw (p, f p, spec_covers-nil i) (range_text-covers lo hi i h.0 (omega arith))
  | inr p ↦ rw (
    p,
    spec_covers-append st.result (range_text lo hi) i,
    range_text-covers lo hi i h.0 (omega arith),
  )
]

push-first :
    (s e : Option ℕ) (st : RangeState)
    → (st.first ≡ true → st.result ≡ [])
    → (push_range_at s e st).first ≡ true
    → (push_range_at s e st).result ≡ []
push-first none none st f h = f h
push-first (some lo) none st f h = f h
push-first none (some hi) st f h = f h
push-first (some lo) (some hi) st f h = cc

IsPending-mono : (n k : ℕ) (s e : Option ℕ) → n ≤ k → IsPending n s e → IsPending k s e
IsPending-mono n k none none h p = tt
IsPending-mono n k (some lo) none h p = p
IsPending-mono n k none (some hi) h p = p
IsPending-mono n k (some lo) (some hi) h p = (p.0, omega arith)

abbrev at_fields : Text → Option ℕ → Option ℕ → Bool → RangeState
at_fields r s e f = record { result = r; start = s; end = e; first = f }

module _ (m : ℕ → Bool) where
  one_more :
      (n i : ℕ) {b : Bool} → m n ≡ b → (ltb i (n + 1) && m i) ≡ ((ltb i n && m i) || (i == n && b))
  one_more n i h = elim (Bool-cases (i == n)) [
    | inl e ↦ let q : i ≡ n = ground arith in rw q (ground arith)
    | inr e ↦ ground arith
  ]

  skip-Covers :
      (n : ℕ) (st : RangeState) → Covers m n st → m n ≡ false → n < 1024 → Covers m (n + 1) st
  skip-Covers n st c h b = record {
    bound = omega arith;
    shape = IsPending-mono n (n + 1) st.start st.end (omega arith) c.shape;
    first_empty = c.first_empty;
    covered = λ i. ground (arith, c.covered i, one_more n i h);
  }

  take-Covers :
      (n : ℕ) (r : Text) (s e : Option ℕ) (f : Bool)
      → Covers m n (at_fields r s e f)
      → m n ≡ true
      → n < 1024
      → Covers m (n + 1) (set_bit_at s e n (at_fields r s e f))
  unfolding push_range
  take-Covers n r none none f c h b = record {
    bound = omega arith;
    shape = omega arith;
    first_empty = c.first_empty;
    covered = λ i. ground (arith, c.covered i, one_more n i h);
  }
  take-Covers n r (some lo) none f c h b = absurd c.shape
  take-Covers n r none (some hi) f c h b = absurd c.shape
  take-Covers n r (some lo) (some hi) f c h b = elim (Bool-cases (n == hi + 1)) [
    | inl q ↦
        rw (q, if◌then◌else◌)
          (record {
            bound = omega arith;
            shape = ground (arith, c.shape);
            first_empty = c.first_empty;
            covered = λ i. ground (arith, c.covered i, c.shape, one_more n i h);
          })
    | inr q ↦
        rw (q, if◌then◌else◌)
          (record {
            bound = omega arith;
            shape = omega arith;
            first_empty =
                push-first (some lo) (some hi) (at_fields r (some lo) (some hi) f) c.first_empty;
            covered = λ i. ground (
              arith,
              c.covered i,
              one_more n i h,
              push-covers n (some lo) (some hi) (at_fields r (some lo) (some hi) f) i c.bound
                  c.shape c.first_empty,
            );
          })
  ]

  bit_step-Covers :
      (word base k : ℕ) (st : RangeState)
      → Covers m (base + k) st
      → not (bit_and word (2 ^ k) == 0) ≡ m (base + k)
      → base + k < 1024
      → Covers m (base + k + 1) (bit_step word base k st)
  unfolding bit_step
  bit_step-Covers word base k st c h b = elim (Bool-cases (m (base + k))) [
    | inl q ↦
        rw (h ∙ q, if◌then◌else◌) (take-Covers (base + k) st.result st.start st.end st.first c q b)
    | inr q ↦ rw (h ∙ q, if◌then◌else◌) (skip-Covers (base + k) st c q b)
  ]

  bits_loop-Covers :
      (word base n : ℕ) (st : RangeState)
      → Covers m base st
      → ((k : ℕ) → k < n → not (bit_and word (2 ^ k) == 0) ≡ m (base + k))
      → base + n ≤ 1024
      → Covers m (base + n) (bits_loop n word base st)
  unfolding bits_loop
  bits_loop-Covers word base zero st c h b = let e : base + 0 ≡ base = omega arith in rw e c
  bits_loop-Covers word base (suc n) st c h b =
      let e : base + suc n ≡ base + n + 1 = omega arith in
      rw e (
        bit_step-Covers word base n (bits_loop n word base st)
          (bits_loop-Covers word base n st c (λ k l. h k (omega arith)) (omega arith))
          (h n (omega arith)) (omega arith))

  -- Numbers that are no members move the bound and nothing else.
  gap :
      (n k i : ℕ)
      → ((d : ℕ) → n ≤ d → d < k → m d ≡ false)
      → n ≤ k
      → (ltb i k && m i) ≡ (ltb i n && m i)
  gap n k i h b = elim (Bool-cases (leb n i && ltb i k)) [
    | inl p ↦
        let q : n ≤ i = ground arith in let l : i < k = ground arith in ground (arith, h i q l)
    | inr p ↦ ground arith
  ]

  skip_word-Covers :
      (n : ℕ) (st : RangeState)
      → Covers m n st
      → ((d : ℕ) → n ≤ d → d < n + 64 → m d ≡ false)
      → n + 64 ≤ 1024
      → Covers m (n + 64) st
  skip_word-Covers n st c h b = record {
    bound = b;
    shape = IsPending-mono n (n + 64) st.start st.end (omega arith) c.shape;
    first_empty = c.first_empty;
    covered = λ i. ground (arith, c.covered i, gap n (n + 64) i h);
  }

  close_word-Covers :
      (n : ℕ) (st : RangeState)
      → Covers m n st
      → ((d : ℕ) → n ≤ d → d < n + 64 → m d ≡ false)
      → n + 64 ≤ 1024
      → Covers m (n + 64) (record (push_range st) { start = none; end = none })
  unfolding push_range
  close_word-Covers n st c h b = record {
    bound = b;
    shape = tt;
    first_empty = push-first st.start st.end st c.first_empty;
    covered = λ i. ground (
      arith,
      c.covered i,
      gap n (n + 64) i h,
      push-covers n st.start st.end st i c.bound c.shape c.first_empty,
    );
  }

  word_step-Covers :
      (word idx : ℕ) (st : RangeState)
      → Covers m (idx * 64) st
      → ((k : ℕ) → k < 64 → not (bit_and word (2 ^ k) == 0) ≡ m (idx * 64 + k))
      → idx * 64 + 64 ≤ 1024
      → Covers m (idx * 64 + 64) (word_step idx word st)
  unfolding word_step
  word_step-Covers word idx st c h b = elim (Bool-cases (word == 0)) [
    | inr q ↦ rw (q, if◌then◌else◌) (bits_loop-Covers word (idx * 64) 64 st c h b)
    | inl q ↦ elim (Bool-cases (is_some st.start)) [
      | inl p ↦ rw (q, p, if◌then◌else◌) (close_word-Covers (idx * 64) st c (empty q) b)
      | inr p ↦ rw (q, p, if◌then◌else◌) (skip_word-Covers (idx * 64) st c (empty q) b)
    ]
  ]
    where
      empty : (word == 0) ≡ true → (d : ℕ) → idx * 64 ≤ d → d < idx * 64 + 64 → m d ≡ false
      empty q d l u =
          let z : word ≡ 0 = ground arith in
          let at_d : idx * 64 + (d - idx * 64) ≡ d = omega arith in
          let k : not (bit_and 0 (2 ^ (d - idx * 64)) == 0) ≡ m d =
            rw (z, at_d) at (h (d - idx * 64) (omega arith)) in
          ground (arith, zero-bit_and (2 ^ (d - idx * 64)))

  words_loop-Covers :
      (ws : List ℕ) (idx : ℕ) (st : RangeState)
      → Covers m (idx * 64) st
      → ((j k : ℕ)
          → j < length ws
          → k < 64
          → not (bit_and (get_or ws j 0) (2 ^ k) == 0) ≡ m ((idx + j) * 64 + k))
      → (idx + length ws) * 64 ≤ 1024
      → Covers m ((idx + length ws) * 64) (words_loop idx ws st)
  unfolding words_loop
  words_loop-Covers [] idx st c h b = let e : (idx + 0) * 64 ≡ idx * 64 = omega arith in rw e c
  words_loop-Covers (w ∷ ws) idx st c h b =
      let e : (idx + suc (length ws)) * 64 ≡ (idx + 1 + length ws) * 64 = omega arith in
      let f : (idx + 1) * 64 ≡ idx * 64 + 64 = omega arith in
      rw e (
        words_loop-Covers ws (idx + 1) (word_step idx w st)
          (rw f (
            word_step-Covers w idx st c (λ k l. h 0 k (omega arith) l ∙ ap m (omega arith))
              (omega arith)))
          (λ j k l g. h (suc j) k (omega arith) g ∙ ap m (omega arith)) (omega arith))

start-Covers : (m : ℕ → Bool) → Covers m 0 range_start
start-Covers m = record {
  bound = omega arith;
  shape = tt;
  first_empty = λ e. refl;
  covered = λ i. ground (arith, spec_covers-nil i);
}

-- Sixteen words are read in order.
loop-Covers : (s : CpuSet) → IsCpuSet s → Covers (is_set s) 1024 (words_loop 0 s.bits range_start)
loop-Covers s v =
    let e : (0 + length s.bits) * 64 ≡ 1024 = omega (arith, v.words) in
    rw e at (
      words_loop-Covers (is_set s) s.bits 0 range_start (start-Covers (is_set s)) bits
        (omega arith))
  where
    bits :
        (j k : ℕ)
        → j < length s.bits
        → k < 64
        → not (bit_and (get_or s.bits j 0) (2 ^ k) == 0) ≡ is_set s ((0 + j) * 64 + k)
    bits j k l g =
        unfold is_set in
        let q : ((0 + j) * 64 + k) / 64 ≡ j = omega arith in
        let r : ((0 + j) * 64 + k) % 64 ≡ k = omega arith in
        let b : ltb ((0 + j) * 64 + k) 1024 ≡ true = lt→ltb _ 1024 (omega (arith, v.words)) in
        rw (q, r, b)

-- The text that `to_range_string` writes covers exactly the members.
pub to_range_string-covers :
    (s : CpuSet) (i : ℕ)
    → IsCpuSet s
    → spec_covers (to_range_string s) i ≡ (ltb i 1024 && is_set s i)
unfolding to_range_string
to_range_string-covers s i v =
    let c = loop-Covers s v in
    let st = words_loop 0 s.bits range_start in
    push-covers 1024 st.start st.end st i c.bound c.shape c.first_empty ∙ c.covered i

-- Parsing the text of `to_range_string` gives the set back.
pub parse_cpu_ranges-to_range_string :
    (s : CpuSet) → IsCpuSet s → parse_cpu_ranges (to_range_string s) none ≡ s
unfolding is_set
parse_cpu_ranges-to_range_string s v =
    eq_of_is_set _ s (parse_cpu_ranges-IsCpuSet (to_range_string s) none) v (λ d.
      ground
        (arith, is_set-parse_cpu_ranges (to_range_string s) none d, to_range_string-covers s d v))
