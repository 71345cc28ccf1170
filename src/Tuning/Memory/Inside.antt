-- ===== src/Tuning/Memory/Inside.antt =====
-- AppOptR/src/tuning.rs: the directories that `resolve_group_path` answers.
use app_opt_r_plus.Prelude.{
  ◌≡◌, refl, sym, ap, ◌∙◌, true, not, Option, none, some, List, [], ◌∷◌, is_empty, arith, if_cases,
  if_both,
}
use app_opt_r_plus.Prelude.Int.{ℤ}
use app_opt_r_plus.Prelude.Text.{Text, member}
use app_opt_r_plus.Prelude.Text.Split.{text_eq_refl}
use app_opt_r_plus.Tuning.{MemoryGroup, cgroup_template_ok}
use app_opt_r_plus.Tuning.Limits.{Some}
use app_opt_r_plus.Tuning.Apply.{WarnState}
use app_opt_r_plus.Tuning.Memory.{
  CgroupSys, first_given, path_starts_with, cgroup_roots, within, in_roots, dir_in_roots,
  canonical_cgroup_dir, first_dir, missing, resolve_path, resolve_group_path, expand_group_path,
}

-- A directory by its canonical path, which lies in one of the cgroup roots by that one's.
pub record Inside {W : Type 0} (sys : CgroupSys W) (w : W) (dir : Text) : Type 0 where
  pub named : (path : Text) × (sys.canonical path w ≡ some dir)
  pub directory : sys.is_dir dir w ≡ true
  pub below :
      (r root : Text) × (member r (cgroup_roots sys w) ≡ true)
      × (sys.canonical r w ≡ some root)
      × (path_starts_with dir root ≡ true)

module _ {W : Type 0} (sys : CgroupSys W) (w : W) where
  abbrev Below : Text → Type 0
  Below dir =
      (r root : Text) × (member r (cgroup_roots sys w) ≡ true)
      × (sys.canonical r w ≡ some root)
      × (path_starts_with dir root ≡ true)

  within-Below :
      (candidate r : Text) (o : Option Text) (more : Option Text)
      → member r (cgroup_roots sys w) ≡ true
      → sys.canonical r w ≡ o
      → Some (λ d. (d ≡ candidate) × Below d) more
      → Some (λ d. (d ≡ candidate) × Below d) (within sys candidate o more)
  unfolding within
  within-Below candidate r none more h e p = p
  within-Below candidate r (some root) more h e p =
      if_cases (Some (λ (d : Text). (d ≡ candidate) × Below d)) (path_starts_with candidate root)
        (λ b. (refl, (r, root, h, e, b))) (λ b. p)

  in_roots-Below :
      (candidate : Text) (rs : List Text)
      → ((x : Text) → member x rs ≡ true → member x (cgroup_roots sys w) ≡ true)
      → Some (λ d. (d ≡ candidate) × Below d) (in_roots sys candidate rs w)
  unfolding in_roots member
  in_roots-Below candidate [] h = tt
  in_roots-Below candidate (r ∷ rs) h =
      within-Below candidate r (sys.canonical r w) (in_roots sys candidate rs w)
        (h r (ground (arith, text_eq_refl r))) refl
        (in_roots-Below candidate rs (λ x m. h x (ground (arith, m))))

  dir_in_roots-Inside :
      (path : Text) (o : Option Text)
      → sys.canonical path w ≡ o
      → Some (Inside sys w) (dir_in_roots sys (cgroup_roots sys w) w o)
  unfolding dir_in_roots
  dir_in_roots-Inside path none e = tt
  dir_in_roots-Inside path (some candidate) e =
      if_cases (Some (Inside sys w)) (not (sys.is_dir candidate w)) (λ b. tt)
        (λ b.
          of_below (in_roots sys candidate (cgroup_roots sys w) w) (ground (arith, b))
            (in_roots-Below candidate (cgroup_roots sys w) (λ x m. m)))
    where
      of_below :
          (o : Option Text)
          → sys.is_dir candidate w ≡ true
          → Some (λ d. (d ≡ candidate) × Below d) o
          → Some (Inside sys w) o
      of_below none b p = tt
      of_below (some d) b (q, p) = record {
        named = (path, e ∙ ap some (sym q));
        directory = ap (λ x. sys.is_dir x w) q ∙ b;
        below = p;
      }

  given-Inside :
      (a b : Option Text)
      → Some (Inside sys w) a
      → Some (Inside sys w) b
      → Some (Inside sys w) (first_given a b)
  given-Inside none b p q = q
  given-Inside (some d) b p q = p

  first_dir-Inside :
      (cs : List Text) → Some (Inside sys w) (first_dir sys cs (cgroup_roots sys w) w)
  unfolding first_dir canonical_cgroup_dir
  first_dir-Inside [] = tt
  first_dir-Inside (c ∷ cs) =
      given-Inside _ (first_dir sys cs (cgroup_roots sys w) w)
        (dir_in_roots-Inside c (sys.canonical c w) refl) (first_dir-Inside cs)

  missing-Inside :
      (group : MemoryGroup) (path : Text) (o : Option Text) (st : WarnState)
      → Some (Inside sys w) o
      → Some (Inside sys w) (missing sys group path o st).0
  unfolding missing
  missing-Inside group path none st p = tt
  missing-Inside group path (some d) st p = p

  resolve_path-Inside :
      (group : MemoryGroup) (o : Option Text) (st : WarnState)
      → Some (Inside sys w) (resolve_path sys group w (o, st)).0
  unfolding resolve_path
  resolve_path-Inside group none st = tt
  resolve_path-Inside group (some path) st =
      if_both (λ (r : Option Text × WarnState). Some (Inside sys w) r.0)
        (not (cgroup_template_ok path)) tt
        (if_both (λ (r : Option Text × WarnState). Some (Inside sys w) r.0)
          (is_empty (cgroup_roots sys w)) tt (missing-Inside group path _ st (first_dir-Inside _)))

  pub resolve_group_path-Inside :
      (group : MemoryGroup) (pid : ℤ) (pkg : Text) (st : WarnState)
      → Some (Inside sys w) (resolve_group_path sys group pid pkg (st, w)).0
  unfolding resolve_group_path
  resolve_group_path-Inside group pid pkg st =
      let (o, st') = expand_group_path sys group.path pid pkg (st, w) in
      resolve_path-Inside group o st'
