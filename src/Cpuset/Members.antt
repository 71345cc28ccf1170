-- ===== src/Cpuset/Members.antt =====
-- AppOptR/src/cpuset.rs: lemmas on `set`, `or` and `count` by the members of a set.
use Prim.Native.Nat.{bit_and, bit_or}
use native.Mathlib.Nat.{one-le-pow}
use native.Mathlib.Decide.{ℕ_discrete}
use app_opt_r_plus.Prelude.{
  ℕ, zero, suc, ◌/◌, ◌%◌, ◌^◌, ◌<◌, max, ◌≡◌, refl, sym, ap, ◌∙◌, Bool, false, not, ◌&&◌, ◌||◌,
  List, [], ◌∷◌, ltb, ◌==◌, if◌then◌else◌, length, get_or, replicate, set as set_elem, arith,
  Bool-cases, ◌⊎◌, inl, inr, ==_refl, lt→ltb, get_or-set_self, get_or-set_ne,
}
use app_opt_r_plus.Prelude.Bits.{
  bit, bit-bit_or, bit_and-pow, bit-pow_self, bit-pow_ne, bit-zero, bit-lt_two,
}
use app_opt_r_plus.Cpuset.{CpuSet, IsCpuSet, set, is_set, or, or_words, mask, new}

-- The word that holds a number.
abbrev pub word_of : CpuSet → ℕ → ℕ
word_of s cpu = get_or s.bits (cpu / 64) 0

masked : (w k : ℕ) → not (bit_and w (2 ^ k) == 0) ≡ (bit w k == 1)
masked w k = rw (bit_and-pow k w) (elim (cases (bit w k) (bit-lt_two w k)) [
  | inl e ↦ rw e (ground arith)
  | inr e ↦ rw e (ground (arith, one-le-pow k 2))
])
  where
    cases : (b : ℕ) → b < 2 → (b ≡ 0) ⊎ (b ≡ 1)
    cases b h = omega arith

pub is_set-bit :
    (s : CpuSet) (d : ℕ) → is_set s d ≡ (ltb d 1024 && (bit (word_of s d) (d % 64) == 1))
unfolding is_set
is_set-bit s d = ap (λ (t : Bool). ltb d 1024 && t) (masked (word_of s d) (d % 64))

set_bits :
    (c : ℕ) (s : CpuSet)
    → c < 1024
    → (set c s).bits ≡ set_elem s.bits (c / 64) (bit_or (word_of s c) (mask c))
unfolding set
set_bits c s h = rw (lt→ltb c 1024 h)

bit-mask : (c d : ℕ) → c / 64 ≡ d / 64 → bit (mask c) (d % 64) ≡ (if c == d then 1 else 0)
bit-mask c d e = elim (ℕ_discrete c d) [
  | yes p ↦ rw (p, ==_refl d) (bit-pow_self (d % 64))
  | no n ↦ bit-pow_ne (c % 64) (d % 64) (omega arith) ∙ ground arith
]

-- The word after `set`, bit by bit.
bit-set :
    (c d : ℕ) (s : CpuSet)
    → IsCpuSet s
    → c < 1024
    → bit (word_of (set c s) d) (d % 64)
      ≡ max (bit (word_of s d) (d % 64)) (if c == d then 1 else 0)
bit-set c d s v h = elim (ℕ_discrete (c / 64) (d / 64)) [
  | yes e ↦ rw (
    set_bits c s h,
    ← e,
    get_or-set_self s.bits (c / 64) (bit_or (word_of s c) (mask c)) 0 (omega (arith, v.words)),
    bit-bit_or (d % 64) (word_of s c) (mask c),
    bit-mask c d e,
  )
  | no n ↦
      rw
        (set_bits c s h, get_or-set_ne s.bits (c / 64) (d / 64) (bit_or (word_of s c) (mask c)) 0 n)
        (ground arith)
]

-- After `set c` the set holds what it held, and `c` if that is below 1024.
pub is_set-set :
    (c d : ℕ) (s : CpuSet)
    → IsCpuSet s
    → is_set (set c s) d ≡ ((ltb c 1024 && c == d) || is_set s d)
is_set-set c d s v = elim (Bool-cases (ltb c 1024)) [
  | inl h ↦ ground (
    arith,
    is_set-bit (set c s) d,
    is_set-bit s d,
    bit-set c d s v,
    bit-lt_two (word_of s d) (d % 64),
  )
  | inr h ↦ rw h (unfold set in rw h)
]

get_or-or_words :
    (a b : List ℕ) (i : ℕ)
    → length a ≡ length b
    → get_or (or_words a b) i 0 ≡ bit_or (get_or a i 0) (get_or b i 0)
get_or-or_words [] [] i h = refl
get_or-or_words [] (y ∷ b) i h = absurd (omega arith)
get_or-or_words (x ∷ a) [] i h = absurd (omega arith)
get_or-or_words (x ∷ a) (y ∷ b) zero h = refl
get_or-or_words (x ∷ a) (y ∷ b) (suc i) h = get_or-or_words a b i (omega arith)

-- `or` is the union.
pub is_set-or :
    (s t : CpuSet) (d : ℕ)
    → IsCpuSet s
    → IsCpuSet t
    → is_set (or s t) d ≡ (is_set s d || is_set t d)
is_set-or s t d v w =
    let e : word_of (or s t) d ≡ bit_or (word_of s d) (word_of t d) =
      unfold or in get_or-or_words s.bits t.bits (d / 64) (v.words ∙ sym w.words) in
    ground (
      arith,
      is_set-bit (or s t) d,
      is_set-bit s d,
      is_set-bit t d,
      ap (λ (x : ℕ). bit x (d % 64)) e,
      bit-bit_or (d % 64) (word_of s d) (word_of t d),
      bit-lt_two (word_of s d) (d % 64),
      bit-lt_two (word_of t d) (d % 64),
    )

get_or-zeros : (n i : ℕ) → get_or {A = ℕ} (replicate n 0) i 0 ≡ 0
get_or-zeros zero i = refl
get_or-zeros (suc n) zero = refl
get_or-zeros (suc n) (suc i) = get_or-zeros n i

pub is_set-new : (d : ℕ) → is_set new d ≡ false
is_set-new d = ground (
  arith,
  is_set-bit new d,
  ap (λ (x : ℕ). bit x (d % 64)) (get_or-zeros 16 (d / 64)),
  bit-zero (d % 64),
)
