-- ===== src/Prelude/Assoc.antt =====
-- A hash map whose keys are `i32`, as a list of pairs without two of one key.
use app_opt_r_plus.Prelude.{
  ◌≡◌, refl, sym, ap, ◌∙◌, Bool, false, Option, none, some, List, [], ◌∷◌, if◌then◌else◌, arith,
  any, Bool-cases, inl, inr, if_cases,
}
use app_opt_r_plus.Prelude.Int.{ℤ, eq_ℤ, eq_ℤ_iff, eq_ℤ_refl, eq_ℤ_sym}

abbrev pub mem_ℤ : ℤ → List ℤ → Bool
mem_ℤ k ks = any (λ j. eq_ℤ j k) ks

module _ {A : Type 0} where
  abbrev pub lookup : ℤ → List (ℤ × A) → Option A
  lookup k [] = none
  lookup k ((j, a) ∷ m) = if eq_ℤ j k then some a else lookup k m

  -- `remove`.
  abbrev pub del : ℤ → List (ℤ × A) → List (ℤ × A)
  del k [] = []
  del k ((j, a) ∷ m) = if eq_ℤ j k then del k m else (j, a) ∷ del k m

  -- `insert`.
  abbrev pub put : ℤ → A → List (ℤ × A) → List (ℤ × A)
  put k a m = (k, a) ∷ del k m

  abbrev pub keys : List (ℤ × A) → List ℤ
  keys [] = []
  keys ((k, a) ∷ m) = k ∷ keys m

  -- No key stands twice.
  abbrev pub IsMap : List (ℤ × A) → Type 0
  IsMap [] = Unit
  IsMap ((k, a) ∷ m) = (lookup k m ≡ none) × IsMap m

  pub lookup-del :
      (j k : ℤ) (m : List (ℤ × A)) → lookup j (del k m) ≡ (if eq_ℤ k j then none else lookup j m)
  lookup-del j k [] = ground arith
  lookup-del j k ((i, a) ∷ m) = elim (Bool-cases (eq_ℤ i k)) [
    | inl e ↦
        let q : i ≡ k = (eq_ℤ_iff i k).0 e in
        rw (e, if◌then◌else◌) (lookup-del j k m ∙ ground (arith, ap (λ (x : ℤ). eq_ℤ x j) q))
    | inr e ↦ elim (Bool-cases (eq_ℤ i j)) [
      | inl f ↦
          let q : i ≡ j = (eq_ℤ_iff i j).0 f in
          let n : eq_ℤ k j ≡ false = eq_ℤ_sym k j ∙ (ap (λ (x : ℤ). eq_ℤ x k) (sym q) ∙ e) in
          rw (e, if◌then◌else◌, f, n) refl
      | inr f ↦ rw (e, if◌then◌else◌, f) (lookup-del j k m)
    ]
  ]

  pub lookup-put :
      (j k : ℤ) (a : A) (m : List (ℤ × A))
      → lookup j (put k a m) ≡ (if eq_ℤ k j then some a else lookup j m)
  lookup-put j k a m = ground (arith, lookup-del j k m)

  pub del-IsMap : (k : ℤ) (m : List (ℤ × A)) → IsMap m → IsMap (del k m)
  del-IsMap k [] h = tt
  del-IsMap k ((j, a) ∷ m) h =
      if_cases IsMap (eq_ℤ j k) (λ e. del-IsMap k m h.1)
        (λ e. (lookup-del j k m ∙ ground (arith, h.0), del-IsMap k m h.1))

  pub put-IsMap : (k : ℤ) (a : A) (m : List (ℤ × A)) → IsMap m → IsMap (put k a m)
  put-IsMap k a m h = (lookup-del k k m ∙ rw (eq_ℤ_refl k) refl, del-IsMap k m h)
