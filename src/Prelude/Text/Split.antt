-- ===== src/Prelude/Text/Split.antt =====
-- Cutting a text at a character, and trimming it, when the pieces are known.
use app_opt_r_plus.Prelude.{
  ℕ, true, false, ◌||◌, List, [], ◌∷◌, ◌++◌, none, some, ◌≡◌, refl, ◌↔◌, ◌==◌, arith, any,
  Bool-cases, inl, inr,
}
use app_opt_r_plus.Prelude.Text.{
  Text, text_eq, is_whitespace, trim_start, trim_end, trim, contains, split, split_once,
  rsplit_once, strip_last,
}

pub text_eq_iff : (s t : Text) → (text_eq s t ≡ true) ↔ (s ≡ t)
unfolding text_eq
text_eq_iff (c ∷ s) (d ∷ t) = ground (arith, text_eq_iff s t)
text_eq_iff _ _ = ground arith

pub text_eq_refl : (s : Text) → text_eq s s ≡ true
text_eq_refl s = (text_eq_iff s s).1 refl

pub contains-append : (a b : Text) (d : ℕ) → contains (a ++ b) d ≡ (contains a d || contains b d)
unfolding contains
contains-append [] b d = refl
contains-append (c ∷ a) b d = ground (arith, contains-append a b d)

pub split-cons : (d : ℕ) (s : Text) → (h : Text) × (t : List Text) × (split d s ≡ h ∷ t)
unfolding split
split-cons d [] = ([], [], refl)
split-cons d (c ∷ s) =
    let (h, t, e) = split-cons d s in
    elim (Bool-cases (c == d)) [ inl p ↦ ([], split d s, rw p) | inr p ↦ (c ∷ h, t, rw (p, e)) ]

pub split-append : (d : ℕ) (a b : Text) → split d (a ++ (d ∷ b)) ≡ split d a ++ split d b
unfolding split
split-append d [] b = ground arith
split-append d (c ∷ a) b =
    let (h, t, e) = split-cons d a in
    elim (Bool-cases (c == d)) [
      | inl p ↦ rw (p, split-append d a b)
      | inr p ↦ rw (p, split-append d a b, e)
    ]

pub split_absent : (d : ℕ) (s : Text) → contains s d ≡ false → split d s ≡ s ∷ []
unfolding split contains
split_absent d [] h = refl
split_absent d (c ∷ s) h = ground (arith, split_absent d s)

pub split_once-append :
    (d : ℕ) (a b : Text) → contains a d ≡ false → split_once d (a ++ (d ∷ b)) ≡ some (a, b)
unfolding split_once contains
split_once-append d [] b h = ground arith
split_once-append d (c ∷ a) b h = ground (arith, split_once-append d a b)

pub split_once_absent : (d : ℕ) (s : Text) → contains s d ≡ false → split_once d s ≡ none
unfolding split_once contains
split_once_absent d [] h = refl
split_once_absent d (c ∷ s) h = ground (arith, split_once_absent d s)

pub rsplit_once_absent : (d : ℕ) (s : Text) → contains s d ≡ false → rsplit_once d s ≡ none
unfolding rsplit_once contains
rsplit_once_absent d [] h = refl
rsplit_once_absent d (c ∷ s) h = ground (arith, rsplit_once_absent d s)

pub rsplit_once-append :
    (d : ℕ) (a b : Text) → contains b d ≡ false → rsplit_once d (a ++ (d ∷ b)) ≡ some (a, b)
unfolding rsplit_once
rsplit_once-append d [] b h = ground (arith, rsplit_once_absent d b h)
rsplit_once-append d (c ∷ a) b h = ground (arith, rsplit_once-append d a b h)

-- A text with no white space is trimmed.
pub trim_end_none : (s : Text) → any is_whitespace s ≡ false → trim_end s ≡ s
unfolding trim_end
trim_end_none [] h = refl
trim_end_none (c ∷ s) h = ground (arith, trim_end_none s)

pub trim_none : (s : Text) → any is_whitespace s ≡ false → trim s ≡ s
unfolding trim trim_start
trim_none [] h = trim_end_none [] h
trim_none (c ∷ s) h = ground (arith, trim_end_none (c ∷ s) h)

pub strip_last_absent : (d : ℕ) (s : Text) → contains s d ≡ false → strip_last d s ≡ none
unfolding strip_last contains
strip_last_absent d [] h = refl
strip_last_absent d (c ∷ []) h = ground arith
strip_last_absent d (c ∷ c' ∷ s) h = ground (arith, strip_last_absent d (c' ∷ s))

concat-form : (s : Text) (d : ℕ) → (c : ℕ) × (t : Text) × (s ++ (d ∷ []) ≡ c ∷ t)
concat-form [] d = (d, [], refl)
concat-form (c ∷ s) d = (c, s ++ (d ∷ []), refl)

pub strip_last-concat : (d : ℕ) (s : Text) → strip_last d (s ++ (d ∷ [])) ≡ some s
unfolding strip_last
strip_last-concat d [] = ground arith
strip_last-concat d (c ∷ s) =
    let (x, t, e) = concat-form s d in
    let ih : strip_last d (x ∷ t) ≡ some s = rw e at (strip_last-concat d s) in rw (e, ih)

-- White space at the end is trimmed with the rest.
pub trim_end-concat :
    (s : Text) (c : ℕ) → is_whitespace c ≡ true → trim_end (s ++ (c ∷ [])) ≡ trim_end s
unfolding trim_end
trim_end-concat [] c h = ground arith
trim_end-concat (d ∷ s) c h = ground (arith, trim_end-concat s c h)
