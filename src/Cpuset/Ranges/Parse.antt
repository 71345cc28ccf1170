-- ===== src/Cpuset/Ranges/Parse.antt =====
-- AppOptR/src/cpuset.rs: `parse_cpu_ranges` against the numbers that the parts of the text cover.
use app_opt_r_plus.Prelude.{
  ℕ, zero, suc, ◌+◌, ◌-◌, min, ◌≡◌, refl, ap, Bool, true, false, ◌&&◌, ◌||◌, List, [], ◌∷◌, Option,
  none, some, ltb, leb, ◌==◌, if◌then◌else◌, arith, Bool-cases, inl, inr, any,
}
use app_opt_r_plus.Prelude.Text.{Text, trim, trim_start, trim_end, split}
use app_opt_r_plus.Cpuset.{CpuSet, IsCpuSet, set, is_set, new}
use app_opt_r_plus.Cpuset.Members.{is_set-set, is_set-new}
use app_opt_r_plus.Cpuset.Whole.{set-IsCpuSet, new-IsCpuSet}
use app_opt_r_plus.Cpuset.Ranges.{
  part_bounds, is_present, set_range, add_bounds, parts_loop, parse_cpu_ranges,
}

abbrev pub between : Option (ℕ × ℕ) → ℕ → Bool
between none i = false
between (some (lo, hi)) i = leb lo i && leb i hi

-- A part of a text covers a number.
abbrev pub covers : ℕ → Text → Bool
covers i p = between (part_bounds (trim p)) i

-- Some part of a text covers a number.
abbrev pub spec_covers : Text → ℕ → Bool
spec_covers spec i = any (covers i) (split b',' spec)

abbrev allowed : Option CpuSet → ℕ → Bool
allowed present i = ltb i 1024 && is_present present i

pub set_range-IsCpuSet :
    (n i : ℕ) (present : Option CpuSet) (s : CpuSet)
    → IsCpuSet s
    → IsCpuSet (set_range n i present s)
unfolding set_range
set_range-IsCpuSet zero i present s v = v
set_range-IsCpuSet (suc n) i present s v = elim (Bool-cases (is_present present i)) [
  | inl h ↦
      rw (h, if◌then◌else◌) (set_range-IsCpuSet n (i + 1) present (set i s) (set-IsCpuSet i v))
  | inr h ↦ rw (h, if◌then◌else◌) (set_range-IsCpuSet n (i + 1) present s v)
]

is_set-set_range :
    (n i d : ℕ) (present : Option CpuSet) (s : CpuSet)
    → IsCpuSet s
    → is_set (set_range n i present s) d
      ≡ ((allowed present d && (leb i d && ltb d (i + n))) || is_set s d)
unfolding set_range
is_set-set_range zero i d present s v = ground arith
is_set-set_range (suc n) i d present s v = elim (Bool-cases (is_present present i)) [
  | inl h ↦
      rw (h, if◌then◌else◌)
        (ground (
          arith,
          is_set-set_range n (i + 1) d present (set i s) (set-IsCpuSet i v),
          is_set-set i d s v,
          here h,
        ))
  | inr h ↦ rw (h, if◌then◌else◌) (ground (arith, is_set-set_range n (i + 1) d present s v, here h))
]
  where
    here : {b : Bool} → is_present present i ≡ b → (i == d) ≡ true → is_present present d ≡ b
    here h e = let q : i ≡ d = ground arith in rw (← q) h

add_bounds-IsCpuSet :
    (present : Option CpuSet) (b : Option (ℕ × ℕ)) (s : CpuSet)
    → IsCpuSet s
    → IsCpuSet (add_bounds present b s)
add_bounds-IsCpuSet present none s v = v
add_bounds-IsCpuSet present (some (lo, hi)) s v = set_range-IsCpuSet _ lo present s v

is_set-add_bounds :
    (present : Option CpuSet) (b : Option (ℕ × ℕ)) (s : CpuSet) (d : ℕ)
    → IsCpuSet s
    → is_set (add_bounds present b s) d ≡ ((allowed present d && between b d) || is_set s d)
is_set-add_bounds present none s d v = ground arith
is_set-add_bounds present (some (lo, hi)) s d v =
    ground (arith, is_set-set_range (min hi 1023 + 1 - lo) lo d present s v)

pub parts_loop-IsCpuSet :
    (present : Option CpuSet) (ps : List Text) (s : CpuSet)
    → IsCpuSet s
    → IsCpuSet (parts_loop present ps s)
unfolding parts_loop
parts_loop-IsCpuSet present [] s v = v
parts_loop-IsCpuSet present (p ∷ ps) s v =
    parts_loop-IsCpuSet present ps _ (add_bounds-IsCpuSet present (part_bounds (trim p)) s v)

is_set-parts_loop :
    (present : Option CpuSet) (ps : List Text) (s : CpuSet) (d : ℕ)
    → IsCpuSet s
    → is_set (parts_loop present ps s) d ≡ ((allowed present d && any (covers d) ps) || is_set s d)
unfolding parts_loop
is_set-parts_loop present [] s d v = ground arith
is_set-parts_loop present (p ∷ ps) s d v = ground (
  arith,
  is_set-parts_loop present ps _ d (add_bounds-IsCpuSet present (part_bounds (trim p)) s v),
  is_set-add_bounds present (part_bounds (trim p)) s d v,
)

-- The early return at an empty text is no case of its own.
parse_cpu_ranges-parts :
    (spec : Text) (present : Option CpuSet)
    → parse_cpu_ranges spec present ≡ parts_loop present (split b',' spec) new
unfolding parse_cpu_ranges split trim trim_start trim_end
parse_cpu_ranges-parts [] present = refl
parse_cpu_ranges-parts (c ∷ spec) present = refl

-- The result of `parse_cpu_ranges` is a set of sixteen `u64` words.
pub parse_cpu_ranges-IsCpuSet :
    (spec : Text) (present : Option CpuSet) → IsCpuSet (parse_cpu_ranges spec present)
parse_cpu_ranges-IsCpuSet spec present =
    rw parse_cpu_ranges-parts (parts_loop-IsCpuSet present (split b',' spec) new new-IsCpuSet)

-- A number is in the result of `parse_cpu_ranges` exactly when it is below 1024, is present (if a
-- set of present CPUs is given), and some comma-separated part of the text covers it.
pub is_set-parse_cpu_ranges :
    (spec : Text) (present : Option CpuSet) (d : ℕ)
    → is_set (parse_cpu_ranges spec present) d
      ≡ (ltb d 1024 && is_present present d && spec_covers spec d)
is_set-parse_cpu_ranges spec present d = ground (
  arith,
  ap (λ (s : CpuSet). is_set s d) (parse_cpu_ranges-parts spec present),
  is_set-parts_loop present (split b',' spec) new d new-IsCpuSet,
  is_set-new d,
)
