-- ===== src/Ebpf/Init/Whitelist/Fits.antt =====
-- AppOptR/src/ebpf_mode.rs: the capacity of the whitelist against the keys of the packages.
use app_opt_r_plus.Prelude.{
  ℕ, zero, suc, ◌+◌, ◌*◌, ◌-◌, ◌^◌, ◌≤◌, ◌<◌, ◌≡◌, refl, ap, ◌∙◌, inl, inr, Bool, true, false, some,
  List, [], ◌∷◌, leb, max, length, arith, Bool-cases, if_cases,
}
use app_opt_r_plus.Prelude.Text.{Text}
use app_opt_r_plus.Prelude.Text.Utf8.{as_bytes}
use app_opt_r_plus.Config.Load.{AppConfig}
use app_opt_r_plus.Ebpf.{
  pkg_keys, append_keys, all_keys, insert_key, bytes_lt, sort_keys, cons_new, dedup,
  comm_keys_build,
}
use app_opt_r_plus.Ebpf.Init.{
  CommMap, comm_map_init, insert_keys, remove_keys, doubled, comm_capacity,
}
use app_opt_r_plus.Ebpf.Init.Whitelist.{IsCommMap, cleared}

-- A map that takes keys as long as it has fewer than `capacity`: `size` counts them.
pub record IsRoomy {W : Type 0} (m : CommMap W) (has : List ℕ → W → Bool) (size : W → ℕ)
    (capacity : ℕ) : Type 0 where
  pub insert_room : (k : List ℕ) (w : W) → size w < capacity → (m.insert k w).0 ≡ true
  pub insert_size : (k : List ℕ) (w : W) → size (m.insert k w).1 ≤ suc (size w)
  pub empty_size : (w : W) → ((j : List ℕ) → has j w ≡ false) → size w ≡ 0

pkg_keys_le : (bs : List ℕ) → length (pkg_keys bs) ≤ 2
unfolding pkg_keys
pkg_keys_le bs = ground arith

length-append_keys : (js ks : List (List ℕ)) → length (append_keys js ks) ≡ length js + length ks
length-append_keys [] ks = omega arith
length-append_keys (j ∷ js) ks = ground (arith, length-append_keys js ks)

all_keys_le : (ps : List Text) → length (all_keys ps) ≤ length ps * 2
unfolding all_keys
all_keys_le [] = omega arith
all_keys_le (p ∷ ps) = omega (
  arith,
  length-append_keys (pkg_keys (as_bytes p)) (all_keys ps),
  pkg_keys_le (as_bytes p),
  all_keys_le ps,
)

length-insert_key : (k : List ℕ) (ks : List (List ℕ)) → length (insert_key k ks) ≡ suc (length ks)
unfolding insert_key
length-insert_key k [] = refl
length-insert_key k (j ∷ ks) =
    if_cases (λ (l : List (List ℕ)). length l ≡ suc (suc (length ks))) (bytes_lt j k)
      (λ e. ap suc (length-insert_key k ks)) (λ e. refl)

length-sort_keys : (ks : List (List ℕ)) → length (sort_keys ks) ≡ length ks
unfolding sort_keys
length-sort_keys [] = refl
length-sort_keys (k ∷ ks) = length-insert_key k (sort_keys ks) ∙ ap suc (length-sort_keys ks)

cons_new_le : (k : List ℕ) (ks : List (List ℕ)) → length (cons_new k ks) ≤ suc (length ks)
cons_new_le k [] = omega arith
cons_new_le k (j ∷ ks) = ground arith

dedup_le : (ks : List (List ℕ)) → length (dedup ks) ≤ length ks
unfolding dedup
dedup_le [] = omega arith
dedup_le (k ∷ ks) = omega (arith, cons_new_le k (dedup ks), dedup_le ks)

comm_keys_build_le : (ps : List Text) → length (comm_keys_build ps) ≤ length ps * 2
unfolding comm_keys_build
comm_keys_build_le ps =
    omega
      (arith, dedup_le (sort_keys (all_keys ps)), length-sort_keys (all_keys ps), all_keys_le ps)

-- How far the doublings reach.
reach : ℕ → ℕ → ℕ
reach zero p = p
reach (suc fuel) p = reach fuel (p * 2)

doubled-reach : (fuel n p : ℕ) → n ≤ reach fuel p → n ≤ doubled fuel n p
unfolding doubled reach
doubled-reach zero n p h = h
doubled-reach (suc fuel) n p h = elim (Bool-cases (leb n p)) [
  | inl e ↦ rw e (ground (arith, e))
  | inr e ↦ rw e (doubled-reach fuel n (p * 2) h)
]

doubled_bound : (fuel n p : ℕ) → 1 ≤ n → doubled fuel n p ≤ max p (n * 2 - 2)
unfolding doubled
doubled_bound zero n p g = ground arith
doubled_bound (suc fuel) n p g = elim (Bool-cases (leb n p)) [
  | inl e ↦ rw e (ground arith)
  | inr e ↦ rw e (ground (arith, e, doubled_bound fuel n (p * 2) g))
]

comm_capacity_le :
    (c : AppConfig) → length c.pkgs * 2 ≤ 2 ^ 31 → length c.pkgs * 2 ≤ comm_capacity (some c)
unfolding comm_capacity reach
comm_capacity_le c h =
    let n = max (length c.pkgs * 2) 512 in
    let le : n ≤ reach 64 1 = ground (arith, h) in
    let r = doubled-reach 64 n 1 le in
    let b = doubled_bound 64 n 1 (ground arith) in ground (arith, r, b, h)

module _ {W : Type 0} (m : CommMap W) (has : List ℕ → W → Bool) (size : W → ℕ) (capacity : ℕ)
    (roomy : IsRoomy m has size capacity) where
  insert_keys-room :
      (ks : List (List ℕ)) (w : W)
      → size w + length ks ≤ capacity
      → (insert_keys m ks w).0 ≡ length ks
  insert_keys-room [] w h = refl
  insert_keys-room (k ∷ ks) w h =
      let done = roomy.insert_room k w (omega (arith, h)) in
      let rest = insert_keys-room ks (m.insert k w).1 (omega (arith, h, roomy.insert_size k w)) in
      rw done (ap suc rest)

-- A program that was loaded for some rules has room for the keys of their packages: if the map takes keys as long as
-- there are fewer than the capacity, and twice the number of packages is no more than `2 ^ 31`, then
-- `comm_map_init` with these packages does not ask for the program to be loaded again.
pub comm_map_init-comm_capacity :
    {W : Type 0} (m : CommMap W) (has : List ℕ → W → Bool) (law : IsCommMap m has) (size : W → ℕ)
    (c : AppConfig) (roomy : IsRoomy m has size (comm_capacity (some c))) (w : W)
    → length c.pkgs * 2 ≤ 2 ^ 31
    → (comm_map_init m c.pkgs (comm_capacity (some c)) w).0 ≡ false
unfolding comm_map_init
comm_map_init-comm_capacity m has law size c roomy w h =
    let ks = comm_keys_build c.pkgs in
    let w₀ = remove_keys m (m.keys w) w in
    let empty = roomy.empty_size w₀ (λ j. cleared m has law j w) in
    let le = comm_keys_build_le c.pkgs in
    let room = comm_capacity_le c h in
    let all =
      insert_keys-room m has size (comm_capacity (some c)) roomy ks w₀
        (omega (arith, empty, le, room)) in
    ground (arith, le, room, all)
