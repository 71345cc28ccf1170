-- ===== src/Prelude/Bits.antt =====
-- Bits of a machine word: `bit w k` is bit `k` of `w`, and `|`, `&` with a one-bit mask act bitwise.
use Prim.Native.Nat.{bit_and, bit_or, digits, bit_and-bitwise, bit_or-bitwise}
use native.Mathlib.Nat.{pow-succ', div-div-eq-div-mul}
use Prim.Native.Nat.{ℕ, zero, suc, ◌+◌, ◌*◌, ◌/◌, ◌%◌, ◌^◌, ◌≤◌, ◌<◌, min, max}
use mathlib.Core.Path.{◌≡◌, refl, ap, sym, ◌∙◌}
use mathlib.Core.Logic.{◌≢◌}
use native.Mathlib.Omega.{arith}

-- The fuel of the digit recursion that a native operation stands for does not matter.
digits-fuel :
    (z : ℕ → ℕ) (f : ℕ → ℕ → ℕ) (n m a b : ℕ) → a ≤ n → a ≤ m → digits z f n a b ≡ digits z f m a b
digits-fuel z f zero zero a b h k = refl
digits-fuel z f (suc n) zero zero b h k = refl
digits-fuel z f zero (suc m) zero b h k = refl
digits-fuel z f (suc n) (suc m) zero b h k = refl
digits-fuel z f (suc n) zero (suc a) b h k = absurd (omega arith)
digits-fuel z f zero (suc m) (suc a) b h k = absurd (omega arith)
digits-fuel z f (suc n) (suc m) (suc a) b h k =
    ap (λ (t : ℕ). t * 2 + f (suc a % 2) (b % 2))
      (digits-fuel z f n m (suc a / 2) (b / 2) (omega arith) (omega arith))

pub bit_or-halves : (a b : ℕ) → bit_or a b ≡ bit_or (a / 2) (b / 2) * 2 + max (a % 2) (b % 2)
bit_or-halves zero b = omega (arith, bit_or-bitwise zero b, bit_or-bitwise zero (b / 2))
bit_or-halves (suc a) b = omega (
  arith,
  bit_or-bitwise (suc a) b,
  bit_or-bitwise (suc a / 2) (b / 2),
  digits-fuel (λ x. x) max a (suc a / 2) (suc a / 2) (b / 2) (omega arith) (omega arith),
)

pub bit_and-halves : (a b : ℕ) → bit_and a b ≡ bit_and (a / 2) (b / 2) * 2 + min (a % 2) (b % 2)
bit_and-halves zero b = omega (arith, bit_and-bitwise zero b, bit_and-bitwise zero (b / 2))
bit_and-halves (suc a) b = omega (
  arith,
  bit_and-bitwise (suc a) b,
  bit_and-bitwise (suc a / 2) (b / 2),
  digits-fuel (λ x. zero) min a (suc a / 2) (suc a / 2) (b / 2) (omega arith) (omega arith),
)

abbrev pub bit : ℕ → ℕ → ℕ
bit w k = w / 2 ^ k % 2

-- One more bit is the same bit of the half.
pub bit-suc : (w k : ℕ) → bit w (suc k) ≡ bit (w / 2) k
bit-suc w k =
    ap (λ (t : ℕ). t % 2)
      (ap (λ (t : ℕ). w / t) (pow-succ' 2 k) ∙ sym (div-div-eq-div-mul w 2 (2 ^ k)))

pub bit-bit_or : (k a b : ℕ) → bit (bit_or a b) k ≡ max (bit a k) (bit b k)
bit-bit_or zero a b = omega (arith, bit_or-halves a b)
bit-bit_or (suc k) a b = omega (
  arith,
  bit-suc (bit_or a b) k,
  bit-suc a k,
  bit-suc b k,
  ap (λ (t : ℕ). bit t k) half,
  bit-bit_or k (a / 2) (b / 2),
)
  where
    half : bit_or a b / 2 ≡ bit_or (a / 2) (b / 2)
    half = omega (arith, bit_or-halves a b)

bit_and-zero : (k w : ℕ) → w < 2 ^ k → bit_and w 0 ≡ 0
bit_and-zero zero zero h = refl
bit_and-zero zero (suc w) h = absurd (omega arith)
bit_and-zero (suc k) w h =
    omega (arith, bit_and-halves w 0, bit_and-zero k (w / 2) (omega (arith, pow-succ' 2 k)))

lt-two-pow : (w : ℕ) → w < 2 ^ w
lt-two-pow zero = omega arith
lt-two-pow (suc w) = omega (arith, pow-succ' 2 w, lt-two-pow w)

pub bit_and-pow : (k w : ℕ) → bit_and w (2 ^ k) ≡ bit w k * 2 ^ k
bit_and-pow zero w =
    omega (arith, bit_and-halves w 1, bit_and-zero (w / 2) (w / 2) (lt-two-pow (w / 2)))
bit_and-pow (suc k) w =
    let p : 2 ^ suc k ≡ 2 * 2 ^ k = pow-succ' 2 k in
    let half : 2 ^ suc k / 2 ≡ 2 ^ k = omega arith in
    let even : 2 ^ suc k % 2 ≡ 0 = omega arith in
    let ih : bit_and (w / 2) (2 ^ k) ≡ bit (w / 2) k * 2 ^ k = bit_and-pow k (w / 2) in
    let split : bit_and w (2 ^ suc k) ≡ bit_and (w / 2) (2 ^ suc k / 2) * 2 + min (w % 2) 0 =
      bit_and-halves w (2 ^ suc k)
      ∙ ap (λ (t : ℕ). bit_and (w / 2) (2 ^ suc k / 2) * 2 + min (w % 2) t) even in
    let lower : bit_and (w / 2) (2 ^ suc k / 2) ≡ bit (w / 2) k * 2 ^ k =
      ap (λ (t : ℕ). bit_and (w / 2) t) half ∙ ih in
    let goal : bit (w / 2) k * 2 ^ k * 2 ≡ bit w (suc k) * 2 ^ suc k =
      rw (bit-suc w k, p) (omega arith) in
    omega arith

pub bit-lt_two : (w k : ℕ) → bit w k < 2
bit-lt_two w k = omega arith

pub bit-zero : (k : ℕ) → bit 0 k ≡ 0
bit-zero zero = refl
bit-zero (suc k) = bit-suc 0 k ∙ bit-zero k

pub bit-pow_self : (k : ℕ) → bit (2 ^ k) k ≡ 1
bit-pow_self zero = refl
bit-pow_self (suc k) =
    bit-suc (2 ^ suc k) k ∙ ap (λ (t : ℕ). bit t k) (omega (arith, pow-succ' 2 k)) ∙ bit-pow_self k

pub bit-pow_ne : (k j : ℕ) → k ≢ j → bit (2 ^ k) j ≡ 0
bit-pow_ne zero zero h = absurd (h refl)
bit-pow_ne zero (suc j) h = bit-suc 1 j ∙ bit-zero j
bit-pow_ne (suc k) zero h = omega (arith, pow-succ' 2 k)
bit-pow_ne (suc k) (suc j) h =
    bit-suc (2 ^ suc k) j
    ∙ ap (λ (t : ℕ). bit t j) (omega (arith, pow-succ' 2 k))
    ∙ bit-pow_ne k j (λ e. h (ap suc e))

pub bit_or-lt : (k a b : ℕ) → a < 2 ^ k → b < 2 ^ k → bit_or a b < 2 ^ k
bit_or-lt zero zero zero h g = omega (arith, bit_or-halves 0 0)
bit_or-lt zero (suc a) b h g = absurd (omega arith)
bit_or-lt zero zero (suc b) h g = absurd (omega arith)
bit_or-lt (suc k) a b h g =
    let p : 2 ^ suc k ≡ 2 * 2 ^ k = pow-succ' 2 k in
    omega (arith, bit_or-halves a b, bit_or-lt k (a / 2) (b / 2) (omega arith) (omega arith))

-- Words of `k` bits with the same bits are equal.
pub eq_of_bits : (k a b : ℕ) → a < 2 ^ k → b < 2 ^ k → ((j : ℕ) → j < k → bit a j ≡ bit b j) → a ≡ b
eq_of_bits zero a b h g same = omega arith
eq_of_bits (suc k) a b h g same =
    let p : 2 ^ suc k ≡ 2 * 2 ^ k = pow-succ' 2 k in
    let low : bit a 0 ≡ bit b 0 = same 0 (omega arith) in
    omega (
      arith,
      eq_of_bits k (a / 2) (b / 2) (omega arith) (omega arith)
          (λ j l. sym (bit-suc a j) ∙ same (suc j) (omega arith) ∙ bit-suc b j),
    )

pub zero-bit_and : (b : ℕ) → bit_and 0 b ≡ 0
zero-bit_and b = bit_and-bitwise 0 b
