-- ===== src/Cpuset.antt =====
-- AppOptR/src/cpuset.rs, `CpuSet`: a set of CPU numbers below 1024 as sixteen 64-bit words.
pub mod Members
pub mod Whole
pub mod Ranges
pub mod Spec
pub mod Topology
use Prim.Native.Nat.{bit_and, bit_or}
use app_opt_r_plus.Prelude.{
  ℕ, zero, suc, ◌+◌, ◌-◌, ◌*◌, ◌/◌, ◌%◌, ◌^◌, ◌<◌, ◌≡◌, Bool, true, false, not, ◌&&◌, List, [], ◌∷◌,
  ltb, ◌==◌, if◌then◌else◌, length, get_or, replicate, All,
}
use app_opt_r_plus.Prelude.{set as set_elem}
use app_opt_r_plus.Prelude.Bits.{bit}

abbrev pub cpu_setsize : ℕ
cpu_setsize = 1024

abbrev pub cpu_word_bits : ℕ
cpu_word_bits = 64

abbrev pub cpu_words : ℕ
cpu_words = cpu_setsize / cpu_word_bits

pub record CpuSet : Type 0 where
  pub bits : List ℕ

abbrev pub new : CpuSet
new = record { bits = replicate cpu_words 0 }

-- `1u64 << (cpu % 64)`, which never leaves the word.
abbrev pub mask : ℕ → ℕ
mask cpu = 2 ^ (cpu % cpu_word_bits)

unfoldable pub set : ℕ → CpuSet → CpuSet
set cpu s =
    if ltb cpu cpu_setsize
    then record {
      bits =
          set_elem s.bits (cpu / cpu_word_bits)
            (bit_or (get_or s.bits (cpu / cpu_word_bits) 0) (mask cpu));
    }
    else s

unfoldable pub is_set : CpuSet → ℕ → Bool
is_set s cpu =
    ltb cpu cpu_setsize && not (bit_and (get_or s.bits (cpu / cpu_word_bits) 0) (mask cpu) == 0)

-- `u64::count_ones`, over the lowest `n` bits.
unfoldable pub count_ones : ℕ → ℕ → ℕ
count_ones zero w = 0
count_ones (suc n) w = count_ones n w + bit w n

abbrev count_words : List ℕ → ℕ
count_words [] = 0
count_words (w ∷ ws) = count_ones cpu_word_bits w + count_words ws

unfoldable pub count : CpuSet → ℕ
unfolding count_ones
count s = count_words s.bits

abbrev or_words : List ℕ → List ℕ → List ℕ
or_words [] t = []
or_words (a ∷ s) [] = a ∷ s
or_words (a ∷ s) (b ∷ t) = bit_or a b ∷ or_words s t

unfoldable pub or : CpuSet → CpuSet → CpuSet
or s t = record { bits = or_words s.bits t.bits }

abbrev words_eq : List ℕ → List ℕ → Bool
words_eq [] [] = true
words_eq (a ∷ s) (b ∷ t) = a == b && words_eq s t
words_eq _ _ = false

-- The derived `==`.
unfoldable pub cpus_eq : CpuSet → CpuSet → Bool
cpus_eq s t = words_eq s.bits t.bits

-- What the array type gives for nothing: sixteen words, each a `u64`.
pub record IsCpuSet (s : CpuSet) : Type 0 where
  pub words : length s.bits ≡ cpu_words
  pub fits : All (λ w. w < 2 ^ 64) s.bits
