-- ===== src/Prelude/Text/Trim.antt =====
-- Lemmas on a text that was trimmed.
use app_opt_r_plus.Prelude.{◌≡◌, refl, ap, ◌∙◌, ◌⊎◌, inl, inr, false, [], ◌∷◌, arith, Bool-cases, ℕ}
use app_opt_r_plus.Prelude.Text.{Text, is_whitespace, trim_start, trim_end, trim}

trim_end-trim_end : (s : Text) → trim_end (trim_end s) ≡ trim_end s
unfolding trim_end
trim_end-trim_end [] = refl
trim_end-trim_end (c ∷ s) = ground (arith, trim_end-trim_end s)

-- Nothing is left, or a text that begins with no space.
trimmed_front :
    (s : Text)
    → (trim_start s ≡ [])
      ⊎ ((c : ℕ) × (r : Text) × (trim_start s ≡ c ∷ r) × (is_whitespace c ≡ false))
unfolding trim_start
trimmed_front [] = inl refl
trimmed_front (c ∷ s) = elim (Bool-cases (is_whitespace c)) [
  | inl e ↦ rw e (trimmed_front s)
  | inr e ↦ rw e (inr (c, s, refl, e))
]

trim_start-trim_end :
    (c : ℕ) (r : Text) → is_whitespace c ≡ false → trim_start (trim_end (c ∷ r)) ≡ trim_end (c ∷ r)
unfolding trim_end trim_start
trim_start-trim_end c r h = ground (arith, h)

pub trim-trim : (s : Text) → trim (trim s) ≡ trim s
unfolding trim trim_start trim_end
trim-trim s = elim (trimmed_front s) [
  | inl e ↦ rw e refl
  | inr (c, r, e, h) ↦ rw e (ap trim_end (trim_start-trim_end c r h) ∙ trim_end-trim_end (c ∷ r))
]
