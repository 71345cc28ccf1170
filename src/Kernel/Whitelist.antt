-- ===== src/Kernel/Whitelist.antt =====
-- appopt-ebpf/src/main.rs, `whitelist_matched`, against `comm_to_pkg` of AppOptR/src/ebpf_mode.rs.
use app_opt_r_plus.Prelude.{
  ℕ, zero, suc, ◌≤◌, ◌<◌, ◌≡◌, refl, sym, ap, ◌∙◌, Bool, true, false, ◌&&◌, ◌||◌, List, [], ◌∷◌,
  leb, if◌then◌else◌, any, take, is_empty, is_some, arith, Bool-cases, inl, inr,
}
use app_opt_r_plus.Prelude.Int.{ℤ}
use app_opt_r_plus.Prelude.Text.{Text, text_eq, starts_with, ends_with, member, byte_len}
use app_opt_r_plus.Prelude.Text.Split.{text_eq_iff}
use app_opt_r_plus.Prelude.Text.Utf8.{as_bytes, length-as_bytes}
use app_opt_r_plus.Config.Load.{AppConfig}
use app_opt_r_plus.Proc.{ProcSys}
use app_opt_r_plus.RuleMatch.{comm_to_pkg}
use app_opt_r_plus.Ebpf.{padded, comm_keys_build, pkg_keys}
use app_opt_r_plus.Ebpf.Keys.{
  has_key, has_key-comm_keys_build, pkg_keys-own, pkg_keys-long, padded_full,
}
use app_opt_r_plus.Kernel.{Bpf, whitelist_matched, window}

take-padded : (n : ℕ) (bs : List ℕ) → take n (padded (suc n) bs) ≡ padded n bs
take-padded zero bs = refl
take-padded (suc n) [] = ap (λ (l : List ℕ). 0 ∷ l) (take-padded n [])
take-padded (suc n) (b ∷ bs) = ap (λ (l : List ℕ). b ∷ l) (take-padded n bs)

any_of_member :
    (p : Text → Bool) (name : Text) (ps : List Text)
    → member name ps ≡ true
    → p name ≡ true
    → any p ps ≡ true
unfolding member
any_of_member p name [] h g = absurd (cc h)
any_of_member p name (q ∷ ps) h g = elim (Bool-cases (text_eq name q)) [
  | inl e ↦
      let i : name ≡ q = (text_eq_iff name q).0 e in
      let k : p q ≡ true = ap p (sym i) ∙ g in ground (arith, k)
  | inr e ↦ ground (arith, h, e, any_of_member p name ps)
]

any_weaken :
    (p q : Text → Bool) (ps : List Text)
    → ((x : Text) → p x ≡ true → q x ≡ true)
    → any p ps ≡ true
    → any q ps ≡ true
any_weaken p q [] h g = g
any_weaken p q (x ∷ ps) h g = ground (arith, h x, any_weaken p q ps h, g)

-- The test of `comm_to_pkg` before it reads the command line.
abbrev pub comm_known : Text → List Text → Bool
comm_known comm pkgs =
    member comm pkgs
    || (leb 15 (byte_len comm) && any (λ p. starts_with p comm || ends_with p comm) pkgs)

known_key :
    (name : Text) (pkgs : List Text)
    → is_empty name ≡ false
    → byte_len name < 16
    → comm_known name pkgs ≡ true
    → has_key (padded 15 (as_bytes name)) (comm_keys_build pkgs) ≡ true
known_key name pkgs n l h =
    has_key-comm_keys_build (padded 15 (as_bytes name)) pkgs
    ∙ elim (Bool-cases (member name pkgs)) [
      | inl m ↦
          any_of_member (λ p. has_key (padded 15 (as_bytes name)) (pkg_keys (as_bytes p))) name pkgs
            m (pkg_keys-own name n)
      | inr m ↦
          let long : 15 ≤ byte_len name = ground (arith, h, m) in
          let full : byte_len name ≡ 15 = omega (arith, long, l) in
          let k : padded 15 (as_bytes name) ≡ as_bytes name =
            padded_full 15 (as_bytes name) (length-as_bytes name ∙ full) in
          rw k (
            any_weaken (λ p. starts_with p name || ends_with p name) _ pkgs
              (λ p q. pkg_keys-long p name full q) (ground (arith, h, m)))
    ]

comm_to_pkg-known :
    {W : Type 0} (sys : ProcSys W) (pid : ℤ) (comm : Text) (cfg : AppConfig) (w : W)
    → is_some (comm_to_pkg sys pid comm cfg w) ≡ true
    → comm_known comm cfg.pkgs ≡ true
unfolding comm_to_pkg
comm_to_pkg-known sys pid comm cfg w h = elim (Bool-cases (member comm cfg.pkgs)) [
  | inl m ↦ ground (arith, m)
  | inr m ↦
      elim (Bool-cases
        (leb 15 (byte_len comm) && any (λ p. starts_with p comm || ends_with p comm) cfg.pkgs)) [
          | inl q ↦ ground (arith, q)
          | inr q ↦ absurd (cc (rw (m, q, if◌then◌else◌) at h))
        ]
]

-- A thread's name of 1 to 15 bytes, which the kernel keeps with zeros behind it. If `comm_to_pkg` takes
-- it for a configured package and every key of `comm_keys_build` is in the kernel's map, then
-- `whitelist_matched` holds of it.
pub whitelist_matched-comm_to_pkg :
    {W V : Type 0} (bpf : Bpf V) (sys : ProcSys W) (pid : ℤ) (name : Text) (cfg : AppConfig) (w : W)
    (v : V)
    → is_empty name ≡ false
    → byte_len name < 16
    → ((key : List ℕ) → has_key key (comm_keys_build cfg.pkgs) ≡ true → bpf.target_get key v ≡ true)
    → is_some (comm_to_pkg sys pid name cfg w) ≡ true
    → whitelist_matched bpf (padded 16 (as_bytes name)) v ≡ true
unfolding whitelist_matched
whitelist_matched-comm_to_pkg bpf sys pid name cfg w v n l keys h =
    let k = known_key name cfg.pkgs n l (comm_to_pkg-known sys pid name cfg w h) in
    let e : window 0 (padded 16 (as_bytes name)) ≡ padded 15 (as_bytes name) =
      take-padded 15 (as_bytes name) in
    let m : bpf.target_get (window 0 (padded 16 (as_bytes name))) v ≡ true =
      ap (λ (x : List ℕ). bpf.target_get x v) e ∙ keys (padded 15 (as_bytes name)) k in
    ground (arith, m)
