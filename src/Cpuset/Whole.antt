-- ===== src/Cpuset/Whole.antt =====
-- AppOptR/src/cpuset.rs: the words of a `CpuSet`, its members and the derived `==`.
use native.Mathlib.Nat.{pow-le-pow_right}
use native.Mathlib.Decide.{ℕ_discrete}
use app_opt_r_plus.Prelude.{
  ℕ, zero, suc, ◌+◌, ◌*◌, ◌/◌, ◌%◌, ◌^◌, ◌<◌, ◌≤◌, ◌≡◌, refl, sym, ap, ◌∙◌, ◌↔◌, Bool, true, false,
  List, [], ◌∷◌, ltb, ◌==◌, if◌then◌else◌, length, get_or, All, set as set_elem, length-set, arith,
  Bool-cases, inl, inr, lt→ltb, ltb→lt,
}
use app_opt_r_plus.Prelude.Bits.{bit, bit_or-lt, eq_of_bits, bit-lt_two}
use app_opt_r_plus.Cpuset.{
  CpuSet, IsCpuSet, set, is_set, or, or_words, count, count_words, count_ones, mask, new, cpus_eq,
  words_eq,
}
use app_opt_r_plus.Cpuset.Members.{is_set-bit}

abbrev IsU64 : ℕ → Type 0
IsU64 w = w < 2 ^ 64

mask-lt : (c : ℕ) → mask c < 2 ^ 64
mask-lt c =
    let two : 0 < 2 = omega arith in
    let h : c % 64 ≤ 63 = omega arith in
    let p : 2 ^ (c % 64) ≤ 2 ^ 63 = pow-le-pow_right two h in omega arith

get_or-IsU64 : (ws : List ℕ) (i : ℕ) → All IsU64 ws → get_or ws i 0 < 2 ^ 64
get_or-IsU64 [] i h = omega arith
get_or-IsU64 (w ∷ ws) zero h = h.0
get_or-IsU64 (w ∷ ws) (suc i) h = get_or-IsU64 ws i h.1

set-IsU64 : (ws : List ℕ) (i v : ℕ) → All IsU64 ws → v < 2 ^ 64 → All IsU64 (set_elem ws i v)
set-IsU64 [] i v h g = tt
set-IsU64 (w ∷ ws) zero v h g = (g, h.1)
set-IsU64 (w ∷ ws) (suc i) v h g = (h.0, set-IsU64 ws i v h.1 g)

pub set-IsCpuSet : (c : ℕ) {s : CpuSet} → IsCpuSet s → IsCpuSet (set c s)
unfolding set
set-IsCpuSet c {s} v = elim (Bool-cases (ltb c 1024)) [
  | inl h ↦
      rw (h, if◌then◌else◌)
        (record {
          words = length-set s.bits (c / 64) _ ∙ v.words;
          fits =
              set-IsU64 s.bits (c / 64) _ v.fits
                (bit_or-lt 64 _ _ (get_or-IsU64 s.bits (c / 64) v.fits) (mask-lt c));
        })
  | inr h ↦ rw (h, if◌then◌else◌) v
]

length-or_words : (a b : List ℕ) → length (or_words a b) ≡ length a
length-or_words [] b = refl
length-or_words (x ∷ a) [] = refl
length-or_words (x ∷ a) (y ∷ b) = ap suc (length-or_words a b)

or_words-IsU64 : (a b : List ℕ) → All IsU64 a → All IsU64 b → All IsU64 (or_words a b)
or_words-IsU64 [] b h g = tt
or_words-IsU64 (x ∷ a) [] h g = h
or_words-IsU64 (x ∷ a) (y ∷ b) h g = (bit_or-lt 64 x y h.0 g.0, or_words-IsU64 a b h.1 g.1)

pub or-IsCpuSet : {s t : CpuSet} → IsCpuSet s → IsCpuSet t → IsCpuSet (or s t)
unfolding or
or-IsCpuSet {s} {t} v w = record {
  words = length-or_words s.bits t.bits ∙ v.words;
  fits = or_words-IsU64 s.bits t.bits v.fits w.fits;
}

pub new-IsCpuSet : IsCpuSet new
new-IsCpuSet = omega arith

-- How many numbers below `n` pass a test.
abbrev pub tally : (ℕ → Bool) → ℕ → ℕ
tally p zero = 0
tally p (suc n) = tally p n + (if p n then 1 else 0)

tally-add : (p : ℕ → Bool) (m n : ℕ) → tally p (n + m) ≡ tally p m + tally (λ d. p (d + m)) n
tally-add p m zero = let e : 0 + m ≡ m = omega arith in omega (arith, ap (tally p) e)
tally-add p m (suc n) =
    let e : suc n + m ≡ suc (n + m) = omega arith in rw e (omega (arith, tally-add p m n))

tally-congr : (p q : ℕ → Bool) (n : ℕ) → ((d : ℕ) → d < n → p d ≡ q d) → tally p n ≡ tally q n
tally-congr p q zero h = refl
tally-congr p q (suc n) h =
    ground (arith, h n (omega arith), tally-congr p q n (λ d l. h d (omega arith)))

count_ones-tally : (w n : ℕ) → count_ones n w ≡ tally (λ d. bit w d == 1) n
unfolding count_ones
count_ones-tally w zero = refl
count_ones-tally w (suc n) = ground (arith, count_ones-tally w n, bit-lt_two w n)

abbrev in_words : List ℕ → ℕ → Bool
in_words ws d = bit (get_or ws (d / 64) 0) (d % 64) == 1

count_words-tally : (ws : List ℕ) → count_words ws ≡ tally (in_words ws) (length ws * 64)
count_words-tally [] = refl
count_words-tally (w ∷ ws) =
    let e : suc (length ws) * 64 ≡ length ws * 64 + 64 = omega arith in
    let here : tally (in_words (w ∷ ws)) 64 ≡ count_ones 64 w =
      tally-congr _ _ 64 (λ d h. head d h) ∙ sym (count_ones-tally w 64) in
    let there : tally (λ d. in_words (w ∷ ws) (d + 64)) (length ws * 64) ≡ count_words ws =
      tally-congr _ _ (length ws * 64) (λ d h. next d) ∙ sym (count_words-tally ws) in
    rw (e, tally-add (in_words (w ∷ ws)) 64 (length ws * 64), here, there)
  where
    head : (d : ℕ) → d < 64 → in_words (w ∷ ws) d ≡ (bit w d == 1)
    head d h = let q : d / 64 ≡ 0 = omega arith in let r : d % 64 ≡ d = omega arith in rw (q, r)

    next : (d : ℕ) → in_words (w ∷ ws) (d + 64) ≡ in_words ws d
    next d =
        let q : (d + 64) / 64 ≡ suc (d / 64) = omega arith in
        let r : (d + 64) % 64 ≡ d % 64 = omega arith in rw (q, r)

-- `count` is the number of members.
pub count-tally : (s : CpuSet) → IsCpuSet s → count s ≡ tally (is_set s) 1024
unfolding count
count-tally s v =
    let e : length s.bits * 64 ≡ 1024 = omega (arith, v.words) in
    count_words-tally s.bits
    ∙ ap (tally (in_words s.bits)) e
    ∙ tally-congr (in_words s.bits) (is_set s) 1024
        (λ d h. sym (is_set-bit s d ∙ rw (lt→ltb d 1024 h)))

none_of_tally : (p : ℕ → Bool) (n d : ℕ) → tally p n ≡ 0 → d < n → p d ≡ false
none_of_tally p zero d e h = elim h [ ]
none_of_tally p (suc n) d e h = elim (ℕ_discrete d n) [
  | yes q ↦ rw q (ground arith)
  | no q ↦ none_of_tally p n d (omega arith) (omega arith)
]

-- An empty count means no member, whatever number is asked for.
pub is_set_of_count-zero : (s : CpuSet) (d : ℕ) → IsCpuSet s → count s ≡ 0 → is_set s d ≡ false
is_set_of_count-zero s d v e = elim (Bool-cases (ltb d 1024)) [
  | inl h ↦ none_of_tally (is_set s) 1024 d (sym (count-tally s v) ∙ e) (ground arith)
  | inr h ↦ is_set-bit s d ∙ rw h
]

tally-zero : (p : ℕ → Bool) (n : ℕ) → ((d : ℕ) → p d ≡ false) → tally p n ≡ 0
tally-zero p zero h = refl
tally-zero p (suc n) h = ground (arith, h n, tally-zero p n h)

pub count-zero : (s : CpuSet) → IsCpuSet s → ((d : ℕ) → is_set s d ≡ false) → count s ≡ 0
count-zero s v h = count-tally s v ∙ tally-zero (is_set s) 1024 h

list_ext : (a b : List ℕ) → length a ≡ length b → ((i : ℕ) → get_or a i 0 ≡ get_or b i 0) → a ≡ b
list_ext [] [] e h = refl
list_ext [] (y ∷ b) e h = absurd (omega arith)
list_ext (x ∷ a) [] e h = absurd (omega arith)
list_ext (x ∷ a) (y ∷ b) e h = cc (h 0, list_ext a b (omega arith) (λ i. h (suc i)))

get_or-past : (a : List ℕ) (i : ℕ) → length a ≤ i → get_or a i 0 ≡ 0
get_or-past [] i h = refl
get_or-past (x ∷ a) zero h = absurd (omega arith)
get_or-past (x ∷ a) (suc i) h = get_or-past a i (omega arith)

-- The members determine the words.
pub eq_of_is_set :
    (s t : CpuSet) → IsCpuSet s → IsCpuSet t → ((d : ℕ) → is_set s d ≡ is_set t d) → s ≡ t
eq_of_is_set s t v w same =
    ap (λ (b : List ℕ). record { bits = b }) (list_ext s.bits t.bits (v.words ∙ sym w.words) word)
  where
    one : (i k : ℕ) → i < 16 → k < 64 → bit (get_or s.bits i 0) k ≡ bit (get_or t.bits i 0) k
    one i k h g =
        let d = i * 64 + k in
        let q : d / 64 ≡ i = omega arith in
        let r : d % 64 ≡ k = omega arith in
        let l : ltb d 1024 ≡ true = lt→ltb d 1024 (omega arith) in
        let m : (bit (get_or s.bits i 0) k == 1) ≡ (bit (get_or t.bits i 0) k == 1) =
          rw (q, r, l) at (sym (is_set-bit s d) ∙ same d ∙ is_set-bit t d) in
        ground (arith, bit-lt_two (get_or s.bits i 0) k, bit-lt_two (get_or t.bits i 0) k)

    word : (i : ℕ) → get_or s.bits i 0 ≡ get_or t.bits i 0
    word i = elim (Bool-cases (ltb i 16)) [
      | inl h ↦
          eq_of_bits 64 _ _ (get_or-IsU64 s.bits i v.fits) (get_or-IsU64 t.bits i w.fits)
            (λ k g. one i k (ltb→lt i 16 h) g)
      | inr h ↦
          get_or-past s.bits i (ground (arith, v.words))
          ∙ sym (get_or-past t.bits i (ground (arith, w.words)))
    ]

words_eq_iff : (a b : List ℕ) → (words_eq a b ≡ true) ↔ (a ≡ b)
words_eq_iff (x ∷ a) (y ∷ b) = ground (arith, words_eq_iff a b)
words_eq_iff _ _ = ground arith

-- The derived `==` holds exactly of sets with the same members.
pub cpus_eq_iff :
    (s t : CpuSet)
    → IsCpuSet s
    → IsCpuSet t
    → (cpus_eq s t ≡ true) ↔ ((d : ℕ) → is_set s d ≡ is_set t d)
unfolding cpus_eq
cpus_eq_iff s t v w = (
  λ e d. ap (λ (b : List ℕ). is_set (record { bits = b }) d) ((words_eq_iff s.bits t.bits).0 e),
  λ same. (words_eq_iff s.bits t.bits).1 (ap (λ (x : CpuSet). x.bits) (eq_of_is_set s t v w same)),
)
