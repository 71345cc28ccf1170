-- ===== src/Cpuset/Topology/Groups.antt =====
-- AppOptR/src/cpuset.rs, `detect_core_types`: the groups that it makes of the policies, and their order.
use app_opt_r_plus.Prelude.{
  ℕ, ◌<◌, ◌≡◌, refl, ◌≢◌, Bool, ◌||◌, List, [], ◌∷◌, ◌++◌, Option, none, some, ltb, ◌==◌,
  if◌then◌else◌, any, arith, Bool-cases, inl, inr, sym, ltb→lt, All, ap,
}
use app_opt_r_plus.Cpuset.Topology.{
  PolicyEntry, Group, policy_group, add_group, add_policy, collect_groups, insert_group,
  sort_groups,
}
use app_opt_r_plus.Cpuset.Topology.Policies.{at_group}

-- A test of which a group made of two passes if one of them does.
abbrev pub IsUnion : (Group → Bool) → Type 0
IsUnion t = (f : ℕ) (a b : List ℕ) → t (f, a ++ b) ≡ (t (f, a) || t (f, b))

module _ (t : Group → Bool) (joins : IsUnion t) where
  any-insert_group : (g : Group) (gs : List Group) → any t (insert_group g gs) ≡ (t g || any t gs)
  unfolding insert_group
  any-insert_group g [] = refl
  any-insert_group g (h ∷ hs) = ground (arith, any-insert_group g hs)

  any-sort_groups :
      (gs sorted : List Group) → any t (sort_groups gs sorted) ≡ (any t gs || any t sorted)
  unfolding sort_groups
  any-sort_groups [] sorted = refl
  any-sort_groups (g ∷ gs) sorted =
      ground (arith, any-sort_groups gs (insert_group g sorted), any-insert_group g sorted)

  any-add_group : (g : Group) (gs : List Group) → any t (add_group g gs) ≡ (t g || any t gs)
  unfolding add_group
  any-add_group g [] = refl
  any-add_group g (h ∷ hs) = elim (Bool-cases (h.0 == g.0)) [
    | inl e ↦
        let same : t (h.0, g.1) ≡ t g = ap (λ (f : ℕ). t (f, g.1)) (ground (arith, e)) in
        rw (e, if◌then◌else◌) (ground (arith, joins h.0 h.1 g.1, same))
    | inr e ↦ rw (e, if◌then◌else◌) (ground (arith, any-add_group g hs))
  ]

  any-add_policy :
      (o : Option Group) (gs : List Group) → any t (add_policy o gs) ≡ (at_group t o || any t gs)
  any-add_policy none gs = refl
  any-add_policy (some g) gs = any-add_group g gs

  any-collect_groups :
      (es : List PolicyEntry) (gs : List Group)
      → any t (collect_groups es gs) ≡ (any (λ e. at_group t (policy_group e)) es || any t gs)
  unfolding collect_groups
  any-collect_groups [] gs = refl
  any-collect_groups (e ∷ es) gs =
      let o = policy_group e in
      ground (arith, any-collect_groups es (add_policy o gs), any-add_policy o gs)

  -- Some group passes exactly if the group of some policy does.
  pub any-groups :
      (es : List PolicyEntry)
      → any t (sort_groups (collect_groups es []) []) ≡ any (λ e. at_group t (policy_group e)) es
  any-groups es =
      ground (arith, any-sort_groups (collect_groups es []) [], any-collect_groups es [])

-- No two groups have one frequency, and after the sort each is below all that follow.
abbrev IsDistinct : List Group → Type 0
IsDistinct [] = Unit
IsDistinct (g ∷ gs) = All (λ h. g.0 ≢ h.0) gs × IsDistinct gs

abbrev pub IsAscending : List Group → Type 0
IsAscending [] = Unit
IsAscending (g ∷ gs) = All (λ h. g.0 < h.0) gs × IsAscending gs

ne-add_group :
    (f : ℕ) (g : Group) (gs : List Group)
    → f ≢ g.0
    → All (λ h. f ≢ h.0) gs
    → All (λ h. f ≢ h.0) (add_group g gs)
unfolding add_group
ne-add_group f g [] n a = (n, tt)
ne-add_group f g (h ∷ hs) n a = elim (Bool-cases (h.0 == g.0)) [
  | inl e ↦ rw (e, if◌then◌else◌) (a.0, a.1)
  | inr e ↦ rw (e, if◌then◌else◌) (a.0, ne-add_group f g hs n a.1)
]

add_group-IsDistinct : (g : Group) (gs : List Group) → IsDistinct gs → IsDistinct (add_group g gs)
unfolding add_group
add_group-IsDistinct g [] v = (tt, tt)
add_group-IsDistinct g (h ∷ hs) v = elim (Bool-cases (h.0 == g.0)) [
  | inl e ↦ rw (e, if◌then◌else◌) (v.0, v.1)
  | inr e ↦
      rw (e, if◌then◌else◌)
        (ne-add_group h.0 g hs (ground arith) v.0, add_group-IsDistinct g hs v.1)
]

collect_groups-IsDistinct :
    (es : List PolicyEntry) (gs : List Group) → IsDistinct gs → IsDistinct (collect_groups es gs)
unfolding collect_groups
collect_groups-IsDistinct [] gs v = v
collect_groups-IsDistinct (e ∷ es) gs v = collect_groups-IsDistinct es _ (step (policy_group e))
  where
    step : (o : Option Group) → IsDistinct (add_policy o gs)
    step none = v
    step (some g) = add_group-IsDistinct g gs v

All-insert_group :
    (P : Group → Type 0) (g : Group) (gs : List Group) → P g → All P gs → All P (insert_group g gs)
unfolding insert_group
All-insert_group P g [] p a = (p, tt)
All-insert_group P g (h ∷ hs) p a = elim (Bool-cases (ltb g.0 h.0)) [
  | inl e ↦ rw (e, if◌then◌else◌) (p, a)
  | inr e ↦ rw (e, if◌then◌else◌) (a.0, All-insert_group P g hs p a.1)
]

All-lt_trans : (a b : ℕ) (gs : List Group) → a < b → All (λ h. b < h.0) gs → All (λ h. a < h.0) gs
All-lt_trans a b [] l v = tt
All-lt_trans a b (g ∷ gs) l v = (omega arith, All-lt_trans a b gs l v.1)

insert_group-IsAscending :
    (g : Group) (gs : List Group)
    → All (λ h. g.0 ≢ h.0) gs
    → IsAscending gs
    → IsAscending (insert_group g gs)
unfolding insert_group
insert_group-IsAscending g [] n v = (tt, tt)
insert_group-IsAscending g (h ∷ hs) n v = elim (Bool-cases (ltb g.0 h.0)) [
  | inl e ↦
      rw (e, if◌then◌else◌) ((ltb→lt g.0 h.0 e, All-lt_trans g.0 h.0 hs (ltb→lt g.0 h.0 e) v.0), v)
  | inr e ↦
      rw (e, if◌then◌else◌)
        (
          All-insert_group (λ k. h.0 < k.0) g hs (ground (arith, n.0)) v.0,
          insert_group-IsAscending g hs n.1 v.1,
        )
]

sort_groups-IsAscending :
    (gs sorted : List Group)
    → IsDistinct gs
    → All (λ g. All (λ h. g.0 ≢ h.0) sorted) gs
    → IsAscending sorted
    → IsAscending (sort_groups gs sorted)
unfolding sort_groups
sort_groups-IsAscending [] sorted v n a = a
sort_groups-IsAscending (g ∷ gs) sorted v n a =
    sort_groups-IsAscending gs (insert_group g sorted) v.1 (apart gs v.0 n.1)
      (insert_group-IsAscending g sorted n.0 a)
  where
    apart :
        (gs : List Group)
        → All (λ h. g.0 ≢ h.0) gs
        → All (λ k. All (λ h. k.0 ≢ h.0) sorted) gs
        → All (λ k. All (λ h. k.0 ≢ h.0) (insert_group g sorted)) gs
    apart [] d m = tt
    apart (k ∷ gs) d m =
        (All-insert_group (λ h. k.0 ≢ h.0) g sorted (λ e. d.0 (sym e)) m.0, apart gs d.1 m.1)

-- The groups that `detect_core_types` places are in strictly ascending order of frequency: the first
-- is the slowest, the last the fastest, and no frequency makes two groups.
pub groups-IsAscending :
    (entries : List PolicyEntry) → IsAscending (sort_groups (collect_groups entries []) [])
groups-IsAscending entries =
    sort_groups-IsAscending (collect_groups entries []) [] (collect_groups-IsDistinct entries [] tt)
      (all_nil (collect_groups entries [])) tt
  where
    all_nil : (gs : List Group) → All (λ g. All {A = Group} (λ h. g.0 ≢ h.0) []) gs
    all_nil [] = tt
    all_nil (g ∷ gs) = (tt, all_nil gs)
