-- ===== src/Cpuset/Topology/Layers.antt =====
-- AppOptR/src/cpuset.rs, `detect_core_types`: the layers against the texts of the policies.
use app_opt_r_plus.Prelude.{
  ℕ, ◌<◌, ◌≡◌, refl, ◌∙◌, Bool, false, ◌&&◌, List, [], ◌∷◌, ltb, ◌==◌, any, any-append, arith, All,
  map, ap,
}
use app_opt_r_plus.Cpuset.{is_set}
use app_opt_r_plus.Cpuset.Topology.{
  PolicyEntry, Group, policy_group, collect_groups, sort_groups, CoreTypes, detect_core_types,
}
use app_opt_r_plus.Cpuset.Topology.Policies.{
  usable_at, offers, is_at, lists_at, at_group, policy_group-usable_at, policy_group-offers,
}
use app_opt_r_plus.Cpuset.Topology.Groups.{IsAscending, any-groups, groups-IsAscending}
use app_opt_r_plus.Cpuset.Topology.Places.{
  at_first, at_last, before_last, behind, lists, placed-layers,
}

-- Each number is below all that follow.
abbrev pub IsRising : List ℕ → Type 0
IsRising [] = Unit
IsRising (f ∷ fs) = All (λ g. f < g) fs × IsRising fs

-- A CPU number in range that some policy of the frequency names.
abbrev pub named_at : List PolicyEntry → ℕ → ℕ → Bool
named_at entries d f = ltb d 1024 && any (offers d f) entries

-- `fs` has the frequencies of the usable policies from the lowest to the highest. The first layer is what the
-- lowest names, the third what the highest of the others does, and the second what the rest do.
abbrev pub Layered : List PolicyEntry → CoreTypes → List ℕ → Type 0
Layered entries t fs =
    IsRising fs
    × ((f : ℕ) → any (λ g. g == f) fs ≡ any (usable_at f) entries)
    × ((d : ℕ)
        → (is_set t.e d ≡ at_first (named_at entries d) fs)
          × (is_set t.p d ≡ before_last (named_at entries d) (behind fs))
          × (is_set t.h d ≡ at_last (named_at entries d) (behind fs)))

-- A frequency below those of all the groups is that of none.
not_listed : (d f : ℕ) (gs : List Group) → All (λ h. f < h.0) gs → any (lists_at d f) gs ≡ false
not_listed d f [] a = refl
not_listed d f (h ∷ gs) a = ground (arith, a.0, not_listed d f gs a.1)

All-map {ℓ} :
    {A : Type ℓ} (P Q : A → Type 0) (xs : List A) → ((x : A) → P x → Q x) → All P xs → All Q xs
All-map P Q [] f a = tt
All-map P Q (x ∷ xs) f a = (f x a.0, All-map P Q xs f a.1)

-- With one group for a frequency, what the group lists is what the groups of its frequency list.
IsAscending-lists :
    (d : ℕ) (gs : List Group)
    → IsAscending gs
    → All (λ g. any (λ c. c == d) g.1 ≡ any (lists_at d g.0) gs) gs
IsAscending-lists d [] a = tt
IsAscending-lists d (g ∷ gs) a =
    (ground (arith, not_listed d g.0 gs a.0), later gs a.0 (IsAscending-lists d gs a.1))
  where
    later :
        (hs : List Group)
        → All (λ h. g.0 < h.0) hs
        → All (λ h. any (λ c. c == d) h.1 ≡ any (lists_at d h.0) gs) hs
        → All (λ h. any (λ c. c == d) h.1 ≡ any (lists_at d h.0) (g ∷ gs)) hs
    later [] l e = tt
    later (h ∷ hs) l e = (ground (arith, l.0, e.0), later hs l.1 e.1)

abbrev freqs : List Group → List ℕ
freqs gs = map (λ g. g.0) gs

module _ (t : Group → Bool) (q : ℕ → Bool) where
  at_first-freqs :
      (gs : List Group) → All (λ g. t g ≡ q g.0) gs → at_first t gs ≡ at_first q (freqs gs)
  at_first-freqs [] a = refl
  at_first-freqs (g ∷ gs) a = a.0

  at_last-freqs :
      (gs : List Group) → All (λ g. t g ≡ q g.0) gs → at_last t gs ≡ at_last q (freqs gs)
  at_last-freqs [] a = refl
  at_last-freqs (g ∷ []) a = a.0
  at_last-freqs (g ∷ h ∷ gs) a = at_last-freqs (h ∷ gs) a.1

  before_last-freqs :
      (gs : List Group) → All (λ g. t g ≡ q g.0) gs → before_last t gs ≡ before_last q (freqs gs)
  before_last-freqs [] a = refl
  before_last-freqs (g ∷ []) a = refl
  before_last-freqs (g ∷ h ∷ gs) a = rw (a.0, before_last-freqs (h ∷ gs) a.1) refl

All-behind : (P : Group → Type 0) (gs : List Group) → All P gs → All P (behind gs)
All-behind P [] a = tt
All-behind P (g ∷ gs) a = a.1

behind-freqs : (gs : List Group) → freqs (behind gs) ≡ behind (freqs gs)
behind-freqs [] = refl
behind-freqs (g ∷ gs) = refl

freqs-IsRising : (gs : List Group) → IsAscending gs → IsRising (freqs gs)
freqs-IsRising [] a = tt
freqs-IsRising (g ∷ gs) a = (below gs a.0, freqs-IsRising gs a.1)
  where
    below : (hs : List Group) → All (λ h. g.0 < h.0) hs → All (λ f. g.0 < f) (freqs hs)
    below [] l = tt
    below (h ∷ hs) l = (l.0, below hs l.1)

any-freqs : (f : ℕ) (gs : List Group) → any (λ g. g == f) (freqs gs) ≡ any (is_at f) gs
any-freqs f [] = refl
any-freqs f (g ∷ gs) = rw (any-freqs f gs) refl

any-ext : {A : Type 0} (t u : A → Bool) (xs : List A) → ((x : A) → t x ≡ u x) → any t xs ≡ any u xs
any-ext t u [] h = refl
any-ext t u (x ∷ xs) h = rw (h x, any-ext t u xs h) refl

groups-is_at :
    (entries : List PolicyEntry) (f : ℕ)
    → any (is_at f) (sort_groups (collect_groups entries []) []) ≡ any (usable_at f) entries
groups-is_at entries f =
    any-groups (is_at f) (λ h a b. ground arith) entries
    ∙ any-ext (λ e. at_group (is_at f) (policy_group e)) (usable_at f) entries
        (policy_group-usable_at f)

groups-lists_at :
    (entries : List PolicyEntry) (d f : ℕ)
    → any (lists_at d f) (sort_groups (collect_groups entries []) []) ≡ any (offers d f) entries
groups-lists_at entries d f =
    any-groups (lists_at d f) (λ h a b. ground (arith, any-append (λ (c : ℕ). c == d) a b)) entries
    ∙ any-ext (λ e. at_group (lists_at d f) (policy_group e)) (offers d f) entries
        (policy_group-offers d f)

groups-named_at :
    (entries : List PolicyEntry) (d : ℕ)
    → All (λ g. lists d g ≡ named_at entries d g.0) (sort_groups (collect_groups entries []) [])
groups-named_at entries d =
    let gs = sort_groups (collect_groups entries []) [] in
    All-map (λ g. any (λ c. c == d) g.1 ≡ any (lists_at d g.0) gs)
      (λ g. lists d g ≡ named_at entries d g.0) gs
      (λ g h. ap (λ (b : Bool). ltb d 1024 && b) (h ∙ groups-lists_at entries d g.0))
      (IsAscending-lists d gs (groups-IsAscending entries))

-- The frequencies of the usable policies, from the lowest to the highest, each once, fix the three layers. A CPU
-- number below 1024 is in e-core exactly if a policy of the lowest frequency names it, in hp-core exactly if one of
-- the highest does (when there is more than one frequency), and in p-core exactly if one of a frequency between them
-- does. A policy is usable if its entry is named `policy…`, its frequency is a number that is not 0, and it names some CPU.
pub detect_core_types-Layered :
    (entries : List PolicyEntry) → (fs : List ℕ) × Layered entries (detect_core_types entries) fs
unfolding detect_core_types
detect_core_types-Layered entries =
    let gs = sort_groups (collect_groups entries []) [] in
    (
      freqs gs,
      (
        freqs-IsRising gs (groups-IsAscending entries),
        λ f. any-freqs f gs ∙ groups-is_at entries f,
        λ d.
            let named = groups-named_at entries d in
            let later = All-behind (λ g. lists d g ≡ named_at entries d g.0) gs named in
            let placed = placed-layers d gs in
            (
              placed.0 ∙ at_first-freqs (lists d) (named_at entries d) gs named,
              placed.1
                  ∙ (before_last-freqs (lists d) (named_at entries d) (behind gs) later
                      ∙ ap (before_last (named_at entries d)) (behind-freqs gs)),
              placed.2
                  ∙ (at_last-freqs (lists d) (named_at entries d) (behind gs) later
                      ∙ ap (at_last (named_at entries d)) (behind-freqs gs)),
            ),
      ),
    )
