-- ===== src/Cpuset/Topology/Places.antt =====
-- AppOptR/src/cpuset.rs, `detect_core_types`: the loop that places the sorted groups.
use app_opt_r_plus.Prelude.{
  ℕ, ◌+◌, ◌-◌, ◌<◌, ◌≡◌, refl, ◌∙◌, Bool, true, false, ◌&&◌, ◌||◌, List, [], ◌∷◌, ltb, ◌==◌,
  if◌then◌else◌, any, arith, Bool-cases, inl, inr, length, ap,
}
use app_opt_r_plus.Cpuset.{CpuSet, IsCpuSet, new, set, is_set}
use app_opt_r_plus.Cpuset.Members.{is_set-set, is_set-new}
use app_opt_r_plus.Cpuset.Whole.{set-IsCpuSet, new-IsCpuSet}
use app_opt_r_plus.Cpuset.Topology.{Group, set_all, CoreTypes, place_group, place_groups}

-- A test at the first element of a list, at the last, and at some element but the last.
module _ {ℓ} {A : Type ℓ} (t : A → Bool) where
  abbrev pub at_first : List A → Bool
  at_first [] = false
  at_first (x ∷ xs) = t x

  abbrev pub at_last : List A → Bool
  at_last [] = false
  at_last (x ∷ []) = t x
  at_last (x ∷ y ∷ xs) = at_last (y ∷ xs)

  abbrev pub before_last : List A → Bool
  before_last [] = false
  before_last (x ∷ []) = false
  before_last (x ∷ y ∷ xs) = t x || before_last (y ∷ xs)

abbrev pub behind {ℓ} : {A : Type ℓ} → List A → List A
behind [] = []
behind (x ∷ xs) = xs

-- A group lists a number in range.
abbrev pub lists : ℕ → Group → Bool
lists d g = ltb d 1024 && any (λ c. c == d) g.1

set_all-IsCpuSet : (cs : List ℕ) (s : CpuSet) → IsCpuSet s → IsCpuSet (set_all cs s)
set_all-IsCpuSet [] s v = v
set_all-IsCpuSet (c ∷ cs) s v = set_all-IsCpuSet cs (set c s) (set-IsCpuSet c v)

is_set-set_all :
    (cs : List ℕ) (s : CpuSet) (d : ℕ)
    → IsCpuSet s
    → is_set (set_all cs s) d ≡ ((ltb d 1024 && any (λ c. c == d) cs) || is_set s d)
is_set-set_all [] s d v = ground arith
is_set-set_all (c ∷ cs) s d v =
    ground (arith, is_set-set_all cs (set c s) d (set-IsCpuSet c v), is_set-set c d s v)

record IsCoreTypes (t : CoreTypes) : Type 0 where
  e : IsCpuSet t.e
  p : IsCpuSet t.p
  h : IsCpuSet t.h

place_group-IsCoreTypes :
    (n i : ℕ) (cs : List ℕ) (t : CoreTypes) → IsCoreTypes t → IsCoreTypes (place_group n i cs t)
unfolding place_group
place_group-IsCoreTypes n i cs t v = elim (Bool-cases (i == 0)) [
  | inl a ↦ rw (a, if◌then◌else◌) (record { e = set_all-IsCpuSet cs t.e v.e; p = v.p; h = v.h })
  | inr a ↦ elim (Bool-cases (i == n - 1)) [
    | inl b ↦
        rw (a, b, if◌then◌else◌) (record { e = v.e; p = v.p; h = set_all-IsCpuSet cs t.h v.h })
    | inr b ↦
        rw (a, b, if◌then◌else◌) (record { e = v.e; p = set_all-IsCpuSet cs t.p v.p; h = v.h })
  ]
]

place_last :
    (n i : ℕ) (cs : List ℕ) (t : CoreTypes)
    → 0 < i
    → i + 1 ≡ n
    → place_group n i cs t ≡ record t { h = set_all cs t.h }
unfolding place_group
place_last n i cs t l e =
    let not_first : (i == 0) ≡ false = ground (arith, l) in
    let last : (i == n - 1) ≡ true = ground (arith, e) in rw (not_first, last, if◌then◌else◌) refl

place_middle :
    (n i : ℕ) (cs : List ℕ) (t : CoreTypes)
    → 0 < i
    → i + 1 < n
    → place_group n i cs t ≡ record t { p = set_all cs t.p }
unfolding place_group
place_middle n i cs t l e =
    let not_first : (i == 0) ≡ false = ground (arith, l) in
    let not_last : (i == n - 1) ≡ false = ground (arith, e) in
    rw (not_first, not_last, if◌then◌else◌) refl

-- Of groups behind the first one, the last stands at `n - 1`.
place_groups-layers :
    (n i d : ℕ) (gs : List Group) (t : CoreTypes)
    → 0 < i
    → i + length gs ≡ n
    → IsCoreTypes t
    → (is_set (place_groups n i gs t).e d ≡ is_set t.e d)
      × (is_set (place_groups n i gs t).p d ≡ (before_last (lists d) gs || is_set t.p d))
      × (is_set (place_groups n i gs t).h d ≡ (at_last (lists d) gs || is_set t.h d))
unfolding place_groups
place_groups-layers n i d [] t l e v = (refl, refl, refl)
place_groups-layers n i d (g ∷ []) t l e v =
    rw (place_last n i g.1 t l e) (refl, refl, is_set-set_all g.1 t.h d v.h)
place_groups-layers n i d (g ∷ h ∷ gs) t l e v =
    let placed = place_group n i g.1 t in
    let same : placed ≡ record t { p = set_all g.1 t.p } =
      place_middle n i g.1 t l (omega (arith, e)) in
    let rest =
      place_groups-layers n (i + 1) d (h ∷ gs) placed (omega arith) (omega (arith, e))
        (place_group-IsCoreTypes n i g.1 t v) in
    (
      rest.0 ∙ ap (λ u. is_set u.e d) same,
      rest.1
          ∙ (ap (λ u. before_last (lists d) (h ∷ gs) || is_set u.p d) same
              ∙ ground (arith, is_set-set_all g.1 t.p d v.p)),
      rest.2 ∙ ap (λ u. at_last (lists d) (h ∷ gs) || is_set u.h d) same,
    )

-- All of the groups, from the empty layers.
pub placed-layers :
    (d : ℕ) (gs : List Group)
    → (let t = place_groups (length gs) 0 gs (record { e = new; p = new; h = new }) in
        (is_set t.e d ≡ at_first (lists d) gs)
        × (is_set t.p d ≡ before_last (lists d) (behind gs))
        × (is_set t.h d ≡ at_last (lists d) (behind gs)))
unfolding place_groups place_group
placed-layers d [] = (is_set-new d, is_set-new d, is_set-new d)
placed-layers d (g ∷ gs) =
    let empty : CoreTypes = record { e = new; p = new; h = new } in
    let valid : IsCoreTypes empty = record {
      e = new-IsCpuSet;
      p = new-IsCpuSet;
      h = new-IsCpuSet;
    } in
    let n = length (g ∷ gs) in
    let rest =
      place_groups-layers n 1 d gs (place_group n 0 g.1 empty) (omega arith) (omega arith)
        (place_group-IsCoreTypes n 0 g.1 empty valid) in
    (
      rest.0 ∙ ground (arith, is_set-set_all g.1 new d new-IsCpuSet, is_set-new d),
      rest.1 ∙ ground (arith, is_set-new d),
      rest.2 ∙ ground (arith, is_set-new d),
    )
