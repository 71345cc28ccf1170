-- ===== src/Ebpf/Init/Whitelist.antt =====
-- AppOptR/src/ebpf_mode.rs: the whitelist after `comm_map_init`.
pub mod Fits
use app_opt_r_plus.Prelude.{
  ℕ, zero, suc, ◌+◌, ◌*◌, ◌≤◌, ◌<◌, ◌≡◌, refl, sym, ap, ◌∙◌, ◌⊎◌, inl, inr, Bool, true, false, not,
  ◌&&◌, ◌||◌, List, [], ◌∷◌, ltb, if◌then◌else◌, length, any, arith, Bool-cases, if_cases,
}
use app_opt_r_plus.Prelude.Text.{Text, text_eq, member}
use app_opt_r_plus.Ebpf.{comm_keys_build, pkg_keys}
use app_opt_r_plus.Ebpf.Keys.{has_key, has_key-comm_keys_build}
use app_opt_r_plus.Prelude.Text.Utf8.{as_bytes}
use app_opt_r_plus.Ebpf.Init.{CommMap, comm_map_init, insert_keys, remove_keys}

-- The hash map of the kernel: an insertion that succeeds adds its key and one that fails changes nothing, a removal
-- takes its key away, and the keys are those that can be found.
pub record IsCommMap {W : Type 0} (m : CommMap W) (has : List ℕ → W → Bool) : Type 0 where
  pub insert_has :
      (k j : List ℕ) (w : W)
      → has j (m.insert k w).1 ≡ (((m.insert k w).0 && text_eq j k) || has j w)
  pub remove_has : (k j : List ℕ) (w : W) → has j (m.remove k w) ≡ (not (text_eq j k) && has j w)
  pub keys_has : (j : List ℕ) (w : W) → member j (m.keys w) ≡ has j w

module _ {W : Type 0} (m : CommMap W) (has : List ℕ → W → Bool) (law : IsCommMap m has) where
  has-remove_keys :
      (ks : List (List ℕ)) (j : List ℕ) (w : W)
      → has j (remove_keys m ks w) ≡ (not (member j ks) && has j w)
  unfolding member
  has-remove_keys [] j w = refl
  has-remove_keys (k ∷ ks) j w =
      has-remove_keys ks j (m.remove k w) ∙ ground (arith, law.remove_has k j w)

  pub cleared : (j : List ℕ) (w : W) → has j (remove_keys m (m.keys w) w) ≡ false
  cleared j w = has-remove_keys (m.keys w) j w ∙ ground (arith, law.keys_has j w)

  pub insert_keys_le : (ks : List (List ℕ)) (w : W) → (insert_keys m ks w).0 ≤ length ks
  insert_keys_le [] w = omega arith
  insert_keys_le (k ∷ ks) w = ground (arith, insert_keys_le ks (m.insert k w).1)

  has-insert_keys :
      (ks : List (List ℕ)) (j : List ℕ) (w : W)
      → (insert_keys m ks w).0 ≡ length ks
      → has j (insert_keys m ks w).1 ≡ (member j ks || has j w)
  unfolding member
  has-insert_keys [] j w h = refl
  has-insert_keys (k ∷ ks) j w h =
      let le = insert_keys_le ks (m.insert k w).1 in
      let done : (m.insert k w).0 ≡ true = ground (arith, le, h) in
      let all : (insert_keys m ks (m.insert k w).1).0 ≡ length ks = ground (arith, le, h) in
      has-insert_keys ks j (m.insert k w).1 all ∙ ground (arith, law.insert_has k j w, done)

member-has_key : (j : List ℕ) (ks : List (List ℕ)) → member j ks ≡ has_key j ks
unfolding member
member-has_key j [] = refl
member-has_key j (k ∷ ks) = ground (arith, member-has_key j ks)

-- When the map is there and `comm_map_init` does not ask for the program to be loaded again, a key is in the whitelist
-- exactly if it is a key of one of the packages, whatever the whitelist had before.
pub comm_map_init-has :
    {W : Type 0} (m : CommMap W) (has : List ℕ → W → Bool) (law : IsCommMap m has)
    (pkgs : List Text) (capacity : ℕ) (w : W) (j : List ℕ)
    → m.found w ≡ true
    → (comm_map_init m pkgs capacity w).0 ≡ false
    → has j (comm_map_init m pkgs capacity w).1 ≡ any (λ p. has_key j (pkg_keys (as_bytes p))) pkgs
unfolding comm_map_init
comm_map_init-has m has law pkgs capacity w j f h =
    let ks = comm_keys_build pkgs in
    let w₀ = remove_keys m (m.keys w) w in
    let small : ltb capacity (length ks) ≡ false = ground (arith, h) in
    let le = insert_keys_le m has law ks w₀ in
    let all : (insert_keys m ks w₀).0 ≡ length ks = ground (arith, h, f, small, le) in
    rw (small, f)
      (has-insert_keys m has law ks j w₀ all
        ∙ (ground (arith, cleared m has law j w)
            ∙ (member-has_key j ks ∙ has_key-comm_keys_build j pkgs)))
