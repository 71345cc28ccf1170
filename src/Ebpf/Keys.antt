-- ===== src/Ebpf/Keys.antt =====
-- AppOptR/src/ebpf_mode.rs: lemmas on `comm_keys_build`.
use app_opt_r_plus.Prelude.{
  ℕ, zero, suc, ◌+◌, ◌-◌, ◌<◌, ◌≡◌, refl, sym, ap, ◌∙◌, Bool, true, false, ◌||◌, List, [], ◌∷◌,
  ◌++◌, any, length, drop, is_empty, arith, Bool-cases, inl, inr, if_cases, length-append,
  append-nil, append_assoc,
}
use mathlib.Core.Path.{subst}
use app_opt_r_plus.Prelude.Text.{Text, text_eq, starts_with, ends_with, byte_len}
use app_opt_r_plus.Prelude.Text.Split.{text_eq_iff, text_eq_refl}
use app_opt_r_plus.Prelude.Text.Utf8.{as_bytes, length-as_bytes, char_bytes}
use app_opt_r_plus.Ebpf.{
  padded, pkg_keys, append_keys, all_keys, insert_key, bytes_lt, sort_keys, cons_new, dedup,
  comm_keys_build,
}

-- Whether a list of keys has a key.
abbrev pub has_key : List ℕ → List (List ℕ) → Bool
has_key k ks = any (text_eq k) ks

has_key-insert_key :
    (k j : List ℕ) (ks : List (List ℕ))
    → has_key k (insert_key j ks) ≡ (text_eq k j || has_key k ks)
unfolding insert_key
has_key-insert_key k j [] = refl
has_key-insert_key k j (i ∷ ks) =
    if_cases (λ (l : List (List ℕ)). has_key k l ≡ (text_eq k j || (text_eq k i || has_key k ks)))
      (bytes_lt i j) (λ e. ground (arith, has_key-insert_key k j ks)) (λ e. refl)

has_key-sort_keys : (k : List ℕ) (ks : List (List ℕ)) → has_key k (sort_keys ks) ≡ has_key k ks
unfolding sort_keys
has_key-sort_keys k [] = refl
has_key-sort_keys k (j ∷ ks) =
    has_key-insert_key k j (sort_keys ks) ∙ ground (arith, has_key-sort_keys k ks)

has_key-cons_new :
    (k j : List ℕ) (ks : List (List ℕ)) → has_key k (cons_new j ks) ≡ (text_eq k j || has_key k ks)
has_key-cons_new k j [] = refl
has_key-cons_new k j (i ∷ ks) =
    if_cases (λ (l : List (List ℕ)). has_key k l ≡ (text_eq k j || (text_eq k i || has_key k ks)))
      (text_eq j i) (λ e. let q : j ≡ i = (text_eq_iff j i).0 e in rw q (ground arith)) (λ e. refl)

has_key-dedup : (k : List ℕ) (ks : List (List ℕ)) → has_key k (dedup ks) ≡ has_key k ks
unfolding dedup
has_key-dedup k [] = refl
has_key-dedup k (j ∷ ks) = has_key-cons_new k j (dedup ks) ∙ ground (arith, has_key-dedup k ks)

has_key-append_keys :
    (k : List ℕ) (js ks : List (List ℕ))
    → has_key k (append_keys js ks) ≡ (has_key k js || has_key k ks)
has_key-append_keys k [] ks = refl
has_key-append_keys k (j ∷ js) ks = ground (arith, has_key-append_keys k js ks)

-- A list of packages has the keys of each.
has_key-all_keys :
    (k : List ℕ) (ps : List Text)
    → has_key k (all_keys ps) ≡ any (λ p. has_key k (pkg_keys (as_bytes p))) ps
unfolding all_keys
has_key-all_keys k [] = refl
has_key-all_keys k (p ∷ ps) =
    has_key-append_keys k (pkg_keys (as_bytes p)) (all_keys ps)
    ∙ ground (arith, has_key-all_keys k ps)

pub has_key-comm_keys_build :
    (k : List ℕ) (ps : List Text)
    → has_key k (comm_keys_build ps) ≡ any (λ p. has_key k (pkg_keys (as_bytes p))) ps
unfolding comm_keys_build
has_key-comm_keys_build k ps =
    has_key-dedup k (sort_keys (all_keys ps))
    ∙ (has_key-sort_keys k (all_keys ps) ∙ has_key-all_keys k ps)

as_bytes-append : (s t : Text) → as_bytes (s ++ t) ≡ as_bytes s ++ as_bytes t
unfolding as_bytes
as_bytes-append [] t = refl
as_bytes-append (c ∷ s) t =
    ap (λ (l : List ℕ). char_bytes c ++ l) (as_bytes-append s t)
    ∙ sym (append_assoc (char_bytes c) (as_bytes s) (as_bytes t))

rest_of_starts_with : (s p : Text) → starts_with s p ≡ true → (t : Text) × (s ≡ p ++ t)
unfolding starts_with
rest_of_starts_with s [] h = (s, refl)
rest_of_starts_with [] (d ∷ p) h = absurd (cc h)
rest_of_starts_with (c ∷ s) (d ∷ p) h =
    let (t, e) = rest_of_starts_with s p (ground (arith, h)) in
    let q : c ≡ d = ground (arith, h) in (t, cc (q, e))

front_of_ends_with : (s p : Text) → ends_with s p ≡ true → (t : Text) × (s ≡ t ++ p)
unfolding ends_with
front_of_ends_with [] p h = ([], (text_eq_iff [] p).0 h)
front_of_ends_with (c ∷ s) p h = elim (Bool-cases (text_eq (c ∷ s) p)) [
  | inl e ↦ ([], (text_eq_iff (c ∷ s) p).0 e)
  | inr e ↦
      let (t, q) = front_of_ends_with s p (ground (arith, h, e)) in
      (c ∷ t, ap (λ (l : Text). c ∷ l) q)
]

padded-append : (n : ℕ) (a b : List ℕ) → length a ≡ n → padded n (a ++ b) ≡ a
padded-append zero [] b h = refl
padded-append (suc n) (x ∷ a) b h =
    ap (λ (l : List ℕ). x ∷ l) (padded-append n a b (omega (arith, h)))
padded-append zero (x ∷ a) b h = absurd (omega (arith, h))
padded-append (suc n) [] b h = absurd (omega (arith, h))

drop-append : (a b : List ℕ) (n : ℕ) → length a ≡ n → drop n (a ++ b) ≡ b
drop-append [] b zero h = refl
drop-append (x ∷ a) b (suc n) h = drop-append a b n (omega (arith, h))
drop-append (x ∷ a) b zero h = absurd (omega (arith, h))
drop-append [] b (suc n) h = absurd (omega (arith, h))

prefix_key : (bs : List ℕ) → is_empty bs ≡ false → has_key (padded 15 bs) (pkg_keys bs) ≡ true
unfolding pkg_keys
prefix_key bs h = ground (arith, h, text_eq_refl (padded 15 bs))

pub padded_full : (n : ℕ) (bs : List ℕ) → length bs ≡ n → padded n bs ≡ bs
padded_full n bs h = ap (padded n) (sym (append-nil bs)) ∙ padded-append n bs [] h

not_empty : {A : Type 0} (bs : List A) (n : ℕ) → length bs ≡ n → 0 < n → is_empty bs ≡ false
not_empty [] n h g = absurd (omega (arith, h, g))
not_empty (b ∷ bs) n h g = refl

suffix_key : (bs k : List ℕ) → length k ≡ 15 → has_key k (pkg_keys (bs ++ k)) ≡ true
unfolding pkg_keys
suffix_key [] k h =
    subst (λ (x : List ℕ). has_key x (pkg_keys k) ≡ true) (padded_full 15 k h)
      (prefix_key k (not_empty k 15 h (omega arith)))
suffix_key (b ∷ bs) k h =
    let l : length ((b ∷ bs) ++ k) ≡ length (b ∷ bs) + 15 =
      length-append (b ∷ bs) k ∙ omega (arith, h) in
    let d : drop (length ((b ∷ bs) ++ k) - 15) ((b ∷ bs) ++ k) ≡ k =
      drop-append (b ∷ bs) k _ (omega (arith, l)) in
    ground (arith, l, d, text_eq_refl k)

-- A name of fifteen bytes that starts or ends the package's.
pub pkg_keys-long :
    (p name : Text)
    → byte_len name ≡ 15
    → (starts_with p name || ends_with p name) ≡ true
    → has_key (as_bytes name) (pkg_keys (as_bytes p)) ≡ true
pkg_keys-long p name n h =
    let l : length (as_bytes name) ≡ 15 = length-as_bytes name ∙ n in
    elim (Bool-cases (starts_with p name)) [
      | inl s ↦
          let (t, e) = rest_of_starts_with p name s in
          let q : padded 15 (as_bytes p) ≡ as_bytes name =
            ap (λ (x : Text). padded 15 (as_bytes x)) e
            ∙ (ap (padded 15) (as_bytes-append name t)
                ∙ padded-append 15 (as_bytes name) (as_bytes t) l) in
          let m : length (as_bytes p) ≡ 15 + length (as_bytes t) =
            ap (λ (x : Text). length (as_bytes x)) e
            ∙ (ap (λ (x : List ℕ). length x) (as_bytes-append name t)
                ∙ (length-append (as_bytes name) (as_bytes t) ∙ omega (arith, l))) in
          subst (λ (x : List ℕ). has_key x (pkg_keys (as_bytes p)) ≡ true) q
            (prefix_key (as_bytes p) (not_empty (as_bytes p) _ m (omega arith)))
      | inr s ↦
          let (t, e) = front_of_ends_with p name (ground (arith, h, s)) in
          subst (λ (x : List ℕ). has_key (as_bytes name) (pkg_keys x) ≡ true)
            (sym (ap as_bytes e ∙ as_bytes-append t name))
            (suffix_key (as_bytes t) (as_bytes name) l)
    ]

as_bytes-is_empty : (s : Text) → is_empty (as_bytes s) ≡ is_empty s
unfolding as_bytes
as_bytes-is_empty [] = refl
as_bytes-is_empty (c ∷ s) = ground arith

pub pkg_keys-own :
    (name : Text)
    → is_empty name ≡ false
    → has_key (padded 15 (as_bytes name)) (pkg_keys (as_bytes name)) ≡ true
pkg_keys-own name h = prefix_key (as_bytes name) (as_bytes-is_empty name ∙ h)
