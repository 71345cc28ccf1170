-- ===== src/Web/Suggest/Top.antt =====
-- AppOptR/src/web.rs, `rank_top`, against an order of names that is written out on its own.
use mathlib.Core.List.{Perm}
use mathlib.Core.List.Perm
use app_opt_r_plus.Prelude.{
  ℕ, ◌≡◌, refl, sym, ap, ◌∙◌, Bool, true, false, not, ◌&&◌, List, [], ◌∷◌, ltb, if◌then◌else◌, take,
  map, keep, arith, if_cases, Bool-cases, inl, inr, ltb→lt, ◌<◌, ◌⊎◌,
}
use mathlib.Core.Path.{subst}
use app_opt_r_plus.Prelude.Text.{Text, contains_text, starts_with}
use app_opt_r_plus.Ebpf.{bytes_lt}
use app_opt_r_plus.Web.Request.{lowered}
use app_opt_r_plus.Web.Suggest.{
  Counts, Ranked, rank_of, ranked, before, insert_ranked, sort_ranked, rank_top,
}

-- The first text is the second or smaller: character by character, and a prefix is smaller.
abbrev pub NameLe : Text → Text → Type 0
NameLe [] b = Unit
NameLe (x ∷ a) [] = ⊥
NameLe (x ∷ a) (y ∷ b) = (x < y) ⊎ ((x ≡ y) × NameLe a b)

-- A lower rank is above, then a greater count, then a smaller name.
abbrev pub Above : Ranked → Ranked → Type 0
Above x y =
    (x.rank < y.rank)
    ⊎ ((x.rank ≡ y.rank) × ((y.count < x.count) ⊎ ((x.count ≡ y.count) × NameLe x.name y.name)))

abbrev pub IsHead : Ranked → List Ranked → Type 0
IsHead x [] = Unit
IsHead x (y ∷ ys) = Above x y

-- Each element is above the next.
abbrev pub IsInOrder : List Ranked → Type 0
IsInOrder [] = Unit
IsInOrder (x ∷ xs) = IsHead x xs × IsInOrder xs

bytes_lt-NameLe : (a b : Text) → bytes_lt b a ≡ false → NameLe a b
bytes_lt-NameLe [] b h = tt
bytes_lt-NameLe (x ∷ a) [] h = absurd (cc h)
bytes_lt-NameLe (x ∷ a) (y ∷ b) h = elim (Bool-cases (ltb x y)) [
  | inl e ↦ inl (ltb→lt x y e)
  | inr e ↦ inr (ground (arith, e, h), bytes_lt-NameLe a b (ground (arith, e, h)))
]

before-Above : (x y : Ranked) → before y x ≡ false → Above x y
before-Above x y h = elim (Bool-cases (ltb x.rank y.rank)) [
  | inl e ↦ inl (ltb→lt x.rank y.rank e)
  | inr e ↦ elim (Bool-cases (ltb y.count x.count)) [
    | inl c ↦ inr (ground (arith, e, h), inl (ltb→lt y.count x.count c))
    | inr c ↦ inr (
      ground (arith, e, h),
      inr (ground (arith, e, c, h), bytes_lt-NameLe x.name y.name (ground (arith, e, c, h))),
    )
  ]
]

-- The same by the code's own comparison: no element stands in front of one that comes before it.
abbrev leads : Ranked → List Ranked → Bool
leads x [] = true
leads x (y ∷ ys) = not (before y x)

abbrev in_order : List Ranked → Bool
in_order [] = true
in_order (x ∷ xs) = leads x xs && in_order xs

bytes_lt_asym : (a b : List ℕ) → bytes_lt a b ≡ true → bytes_lt b a ≡ false
bytes_lt_asym [] [] h = refl
bytes_lt_asym [] (y ∷ b) h = refl
bytes_lt_asym (x ∷ a) [] h = absurd (cc h)
bytes_lt_asym (x ∷ a) (y ∷ b) h = ground (arith, bytes_lt_asym a b)

before_asym : (a b : Ranked) → before a b ≡ true → before b a ≡ false
before_asym a b h = ground (arith, bytes_lt_asym a.name b.name)

and_true : (a b : Bool) → a ≡ true → b ≡ true → (a && b) ≡ true
and_true a b p q = rw (p, q) refl

and_left : (a b : Bool) → (a && b) ≡ true → a ≡ true
and_left a b h = ground arith

and_right : (a b : Bool) → (a && b) ≡ true → b ≡ true
and_right a b h = ground arith

not_lem : (a : Bool) → a ≡ false → not a ≡ true
not_lem a h = rw h refl

leads-insert :
    (y x : Ranked) (ys : List Ranked)
    → before x y ≡ false
    → leads y ys ≡ true
    → leads y (insert_ranked x ys) ≡ true
unfolding insert_ranked
leads-insert y x [] e h = not_lem (before x y) e
leads-insert y x (z ∷ ys) e h =
    if_cases (λ (l : List Ranked). leads y l ≡ true) (before z x) (λ b. h)
      (λ b. not_lem (before x y) e)

leads-IsHead : (x : Ranked) (xs : List Ranked) → leads x xs ≡ true → IsHead x xs
leads-IsHead x [] h = tt
leads-IsHead x (y ∷ ys) h = before-Above x y (ground arith)

in_order-IsInOrder : (xs : List Ranked) → in_order xs ≡ true → IsInOrder xs
in_order-IsInOrder [] h = tt
in_order-IsInOrder (x ∷ xs) h = (
  leads-IsHead x xs (and_left (leads x xs) (in_order xs) h),
  in_order-IsInOrder xs (and_right (leads x xs) (in_order xs) h),
)

insert_ranked-in_order :
    (x : Ranked) (ys : List Ranked) → in_order ys ≡ true → in_order (insert_ranked x ys) ≡ true
unfolding insert_ranked
insert_ranked-in_order x [] h = refl
insert_ranked-in_order x (y ∷ ys) h =
    let l = and_left (leads y ys) (in_order ys) h in
    let r = and_right (leads y ys) (in_order ys) h in
    if_cases (λ (l : List Ranked). in_order l ≡ true) (before y x)
      (λ b.
        and_true (leads y (insert_ranked x ys)) (in_order (insert_ranked x ys))
          (leads-insert y x ys (before_asym y x b) l) (insert_ranked-in_order x ys r))
      (λ b. and_true (leads x (y ∷ ys)) (in_order (y ∷ ys)) (not_lem (before y x) b) h)

sort_ranked-in_order : (xs : List Ranked) → in_order (sort_ranked xs) ≡ true
unfolding sort_ranked
sort_ranked-in_order [] = refl
sort_ranked-in_order (x ∷ xs) = insert_ranked-in_order x (sort_ranked xs) (sort_ranked-in_order xs)

insert_ranked-Perm : (x : Ranked) (ys : List Ranked) → Perm (insert_ranked x ys) (x ∷ ys)
unfolding insert_ranked
insert_ranked-Perm x [] = Perm.refl (x ∷ [])
insert_ranked-Perm x (y ∷ ys) =
    if_cases (λ (l : List Ranked). Perm l (x ∷ y ∷ ys)) (before y x)
      (λ b. Perm.trans (Perm.cons y (insert_ranked-Perm x ys)) (Perm.swap x y ys))
      (λ b. Perm.refl (x ∷ y ∷ ys))

sort_ranked-Perm : (xs : List Ranked) → Perm (sort_ranked xs) xs
unfolding sort_ranked
sort_ranked-Perm [] = Perm.refl []
sort_ranked-Perm (x ∷ xs) =
    Perm.trans (insert_ranked-Perm x (sort_ranked xs)) (Perm.cons x (sort_ranked-Perm xs))

prefix_in : (s p : Text) → starts_with s p ≡ true → contains_text s p ≡ true
unfolding contains_text
prefix_in [] p h = h
prefix_in (c ∷ s) p h = rw h refl

-- The entry of a name that holds the query: it comes first if it starts with it.
abbrev pub entry_for : Text → Text × ℕ → Ranked
unfolding starts_with
entry_for lq (n, c) = record {
  rank = if starts_with (lowered n) lq then 0 else 1;
  count = c;
  name = n;
}

abbrev pub holds : Text → Text × ℕ → Bool
unfolding contains_text
holds lq e = contains_text (lowered e.0) lq

-- One entry, whose rank is computed by the code.
entry_rank :
    (lq n : Text) (c : ℕ)
    → ltb (rank_of lq n) 2 ≡ true
    → (contains_text (lowered n) lq ≡ true)
      × (record { rank = rank_of lq n; count = c; name = n } ≡ entry_for lq (n, c))
unfolding rank_of entry_for
entry_rank lq n c h = elim (Bool-cases (starts_with (lowered n) lq)) [
  | inl e ↦ (prefix_in (lowered n) lq e, rw (e, if◌then◌else◌) refl)
  | inr e ↦ elim (Bool-cases (contains_text (lowered n) lq)) [
    | inl m ↦ (m, rw (e, m, if◌then◌else◌) refl)
    | inr m ↦ absurd (ground (arith, e, m, h))
  ]
]

not_ranked : (lq n : Text) → ltb (rank_of lq n) 2 ≡ false → contains_text (lowered n) lq ≡ false
unfolding rank_of
not_ranked lq n h = ground arith

kept_step :
    {A B : Type 0} (f : A → B) (b m : Bool) (x : B) (e : A) (xs : List B) (zs : List A)
    → b ≡ m
    → (b ≡ true → x ≡ f e)
    → xs ≡ map f zs
    → (if b then x ∷ xs else xs) ≡ map f (if m then e ∷ zs else zs)
kept_step f true true x e xs zs h p q = ap (λ a. a ∷ xs) (p refl) ∙ ap (λ l. f e ∷ l) q
kept_step f true false x e xs zs h p q = absurd (cc h)
kept_step f false true x e xs zs h p q = absurd (cc h)
kept_step f false false x e xs zs h p q = q

ranked_iff : (lq n : Text) → ltb (rank_of lq n) 2 ≡ contains_text (lowered n) lq
ranked_iff lq n = elim (Bool-cases (ltb (rank_of lq n) 2)) [
  | inl e ↦ let (m, r) = entry_rank lq n 0 e in e ∙ sym m
  | inr e ↦ e ∙ sym (not_ranked lq n e)
]

ranked-keep : (lq : Text) (cs : Counts) → ranked lq cs ≡ map (entry_for lq) (keep (holds lq) cs)
unfolding ranked holds
ranked-keep lq [] = refl
ranked-keep lq ((n, c) ∷ cs) =
    kept_step (entry_for lq) (ltb (rank_of lq n) 2) (contains_text (lowered n) lq) _ (n, c)
      (ranked lq cs) (keep (holds lq) cs) (ranked_iff lq n) (λ e. (entry_rank lq n c e).1)
      (ranked-keep lq cs)

-- The suggestions for a query are the first twenty of a list that has the names which hold the query, as the map has
-- them with their counts, and that is in order: the names that start with the query come first, then those
-- with the greater count, then those whose text is smaller.
pub rank_top-IsTop :
    (counts : Counts) (lq : Text)
    → (full : List Ranked) × ((rank_top counts lq ≡ map (λ r. (r.name, r.count)) (take 20 full))
        × IsInOrder full
        × Perm full (map (entry_for lq) (keep (holds lq) counts)))
unfolding rank_top
rank_top-IsTop counts lq = (
  sort_ranked (ranked lq counts),
  (
    refl,
    in_order-IsInOrder (sort_ranked (ranked lq counts)) (sort_ranked-in_order (ranked lq counts)),
    subst (Perm (sort_ranked (ranked lq counts))) (ranked-keep lq counts)
        (sort_ranked-Perm (ranked lq counts)),
  ),
)
