-- ===== src/Prelude/Text/Utf8.antt =====
-- UTF-8: `str::as_bytes` and `str::from_utf8`.
use app_opt_r_plus.Prelude.{
  ℕ, ◌+◌, ◌-◌, ◌*◌, ◌/◌, ◌%◌, ◌≡◌, refl, Bool, true, false, ◌&&◌, ◌||◌, Option, none, some, List,
  [], ◌∷◌, ◌++◌, ltb, leb, if◌then◌else◌, arith, length,
}
use app_opt_r_plus.Prelude.Text.{Text, byte_len}

abbrev pub char_bytes : ℕ → List ℕ
char_bytes c =
    if ltb c 0x80
    then c ∷ []
    else if ltb c 0x800
    then (c / 64 + 0xC0) ∷ (c % 64 + 0x80) ∷ []
    else if ltb c 0x10000
    then (c / 4096 + 0xE0) ∷ (c / 64 % 64 + 0x80) ∷ (c % 64 + 0x80) ∷ []
    else (c / 262144 + 0xF0) ∷ (c / 4096 % 64 + 0x80) ∷ (c / 64 % 64 + 0x80) ∷ (c % 64 + 0x80) ∷ []

unfoldable pub as_bytes : Text → List ℕ
as_bytes [] = []
as_bytes (c ∷ s) = char_bytes c ++ as_bytes s

-- A continuation byte.
abbrev pub is_tail : ℕ → Bool
is_tail b = leb 0x80 b && ltb b 0xC0

-- A Unicode scalar value: no surrogate, and at most U+10FFFF.
abbrev pub is_scalar : ℕ → Bool
is_scalar c = ltb c 0xD800 || (leb 0xE000 c && ltb c 0x110000)

abbrev push_char : Bool → ℕ → Option Text → Option Text
push_char false c rest = none
push_char true c none = none
push_char true c (some s) = some (c ∷ s)

abbrev two : ℕ → ℕ → ℕ
two a b = (a - 0xC0) * 64 + (b - 0x80)

abbrev three : ℕ → ℕ → ℕ → ℕ
three a b c = (a - 0xE0) * 4096 + (b - 0x80) * 64 + (c - 0x80)

abbrev four : ℕ → ℕ → ℕ → ℕ → ℕ
four a b c d = (a - 0xF0) * 262144 + (b - 0x80) * 4096 + (c - 0x80) * 64 + (d - 0x80)

-- The four lengths of a character, by its first byte; no longer form than needed is accepted.
unfoldable pub from_utf8 : List ℕ → Option Text
from_utf8 [] = some []
from_utf8 (a ∷ []) = if ltb a 0x80 then some (a ∷ []) else none
from_utf8 (a ∷ b ∷ []) =
    let one = from_utf8 (b ∷ []) in
    if ltb a 0x80
    then push_char true a one
    else push_char (leb 0xC2 a && ltb a 0xE0 && is_tail b) (two a b) (some [])
from_utf8 (a ∷ b ∷ c ∷ []) =
    let one = from_utf8 (b ∷ c ∷ []) in
    let next = from_utf8 (c ∷ []) in
    if ltb a 0x80
    then push_char true a one
    else if ltb a 0xE0
    then push_char (leb 0xC2 a && is_tail b) (two a b) next
    else push_char
        (ltb a 0xF0 && is_tail b && is_tail c && leb 0x800 (three a b c) && is_scalar (three a b c))
        (three a b c) (some [])
from_utf8 (a ∷ b ∷ c ∷ d ∷ bs) =
    let one = from_utf8 (b ∷ c ∷ d ∷ bs) in
    let next = from_utf8 (c ∷ d ∷ bs) in
    let after = from_utf8 (d ∷ bs) in
    let last = from_utf8 bs in
    if ltb a 0x80
    then push_char true a one
    else if ltb a 0xE0
    then push_char (leb 0xC2 a && is_tail b) (two a b) next
    else if ltb a 0xF0
    then push_char (is_tail b && is_tail c && leb 0x800 (three a b c) && is_scalar (three a b c))
        (three a b c) after
    else push_char
        (ltb a 0xF8
          && is_tail b
          && is_tail c
          && is_tail d
          && leb 0x10000 (four a b c d)
          && is_scalar (four a b c d))
        (four a b c d) last

pub length-as_bytes : (s : Text) → length (as_bytes s) ≡ byte_len s
unfolding as_bytes byte_len
length-as_bytes [] = refl
length-as_bytes (c ∷ s) = ground (arith, length-as_bytes s)
