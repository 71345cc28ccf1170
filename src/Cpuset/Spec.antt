-- ===== src/Cpuset/Spec.antt =====
-- AppOptR/src/cpuset.rs, `parse_cpu_spec`: the names of the core layers mixed with ranges.
use app_opt_r_plus.Prelude.{
  ℕ, ◌≡◌, refl, Bool, true, false, ◌&&◌, ◌||◌, List, [], ◌∷◌, some, ltb, if◌then◌else◌, is_empty,
  any, arith, ap, ◌∙◌, not, ||_assoc,
}
use app_opt_r_plus.Prelude.Text.{Text, codes, text_eq, trim, trim_start, trim_end, split}
use app_opt_r_plus.Cpuset.{CpuSet, IsCpuSet, new, or, is_set}
use app_opt_r_plus.Cpuset.Members.{is_set-or, is_set-new}
use app_opt_r_plus.Cpuset.Whole.{or-IsCpuSet, new-IsCpuSet}
use app_opt_r_plus.Cpuset.Ranges.{parse_cpu_ranges}
use app_opt_r_plus.Cpuset.Ranges.Parse.{
  spec_covers, is_set-parse_cpu_ranges, parse_cpu_ranges-IsCpuSet,
}
use app_opt_r_plus.Cpuset.Topology.{CpuTopology}

-- The set that a trimmed part stands for.
unfoldable pub spec_part : Text → CpuTopology → CpuSet
spec_part part topo =
    if text_eq part (codes "e-core")
    then topo.e_core
    else if text_eq part (codes "p-core")
    then topo.p_core
    else if text_eq part (codes "hp-core")
    then topo.hp_core
    else if text_eq part (codes "all-core")
    then topo.present_cpus
    else parse_cpu_ranges part (some topo.present_cpus)

unfoldable pub spec_loop : List Text → CpuTopology → CpuSet → CpuSet
spec_loop [] topo s = s
spec_loop (p ∷ ps) topo s =
    spec_loop ps topo (if is_empty (trim p) then s else or s (spec_part (trim p) topo))

unfoldable pub parse_cpu_spec : Text → CpuTopology → CpuSet
unfolding spec_part spec_loop
parse_cpu_spec spec topo = if is_empty spec then new else spec_loop (split b',' spec) topo new

-- The sets of a topology are sets of sixteen words.
pub record IsTopology (topo : CpuTopology) : Type 0 where
  pub present : IsCpuSet topo.present_cpus
  pub e : IsCpuSet topo.e_core
  pub p : IsCpuSet topo.p_core
  pub hp : IsCpuSet topo.hp_core

-- A part names a number: by a layer that holds it, or by a range over the present CPUs.
abbrev pub names : CpuTopology → ℕ → Text → Bool
names topo d part =
    if text_eq part (codes "e-core")
    then is_set topo.e_core d
    else if text_eq part (codes "p-core")
    then is_set topo.p_core d
    else if text_eq part (codes "hp-core")
    then is_set topo.hp_core d
    else if text_eq part (codes "all-core")
    then is_set topo.present_cpus d
    else ltb d 1024 && is_set topo.present_cpus d && spec_covers part d

spec_part-IsCpuSet :
    (part : Text) (topo : CpuTopology) → IsTopology topo → IsCpuSet (spec_part part topo)
unfolding spec_part
spec_part-IsCpuSet part topo v = split_on (text_eq part (codes "e-core")) v.e (
    split_on (text_eq part (codes "p-core")) v.p (
      split_on (text_eq part (codes "hp-core")) v.hp (
        split_on (text_eq part (codes "all-core")) v.present
          (parse_cpu_ranges-IsCpuSet part (some topo.present_cpus)))))
  where
    split_on : (b : Bool) {s t : CpuSet} → IsCpuSet s → IsCpuSet t → IsCpuSet (if b then s else t)
    split_on true h g = h
    split_on false h g = g

is_set-spec_part :
    (part : Text) (topo : CpuTopology) (d : ℕ) → is_set (spec_part part topo) d ≡ names topo d part
unfolding spec_part
is_set-spec_part part topo d =
    ground (arith, is_set-parse_cpu_ranges part (some topo.present_cpus) d)

abbrev pub part_names : CpuTopology → ℕ → Text → Bool
part_names topo d p = not (is_empty (trim p)) && names topo d (trim p)

spec_step-IsCpuSet :
    (t : Text) (topo : CpuTopology) (s : CpuSet)
    → IsTopology topo
    → IsCpuSet s
    → IsCpuSet (if is_empty t then s else or s (spec_part t topo))
spec_step-IsCpuSet [] topo s v w = w
spec_step-IsCpuSet (c ∷ t) topo s v w = or-IsCpuSet w (spec_part-IsCpuSet (c ∷ t) topo v)

is_set-spec_step :
    (t : Text) (topo : CpuTopology) (s : CpuSet) (d : ℕ)
    → IsTopology topo
    → IsCpuSet s
    → is_set (if is_empty t then s else or s (spec_part t topo)) d
      ≡ (is_set s d || (not (is_empty t) && names topo d t))
is_set-spec_step [] topo s d v w = ground arith
is_set-spec_step (c ∷ t) topo s d v w =
    is_set-or s (spec_part (c ∷ t) topo) d w (spec_part-IsCpuSet (c ∷ t) topo v)
    ∙ ap (λ (b : Bool). is_set s d || b) (is_set-spec_part (c ∷ t) topo d)

spec_loop-IsCpuSet :
    (ps : List Text) (topo : CpuTopology) (s : CpuSet)
    → IsTopology topo
    → IsCpuSet s
    → IsCpuSet (spec_loop ps topo s)
unfolding spec_loop
spec_loop-IsCpuSet [] topo s v w = w
spec_loop-IsCpuSet (p ∷ ps) topo s v w =
    spec_loop-IsCpuSet ps topo _ v (spec_step-IsCpuSet (trim p) topo s v w)

is_set-spec_loop :
    (ps : List Text) (topo : CpuTopology) (s : CpuSet) (d : ℕ)
    → IsTopology topo
    → IsCpuSet s
    → is_set (spec_loop ps topo s) d ≡ (is_set s d || any (part_names topo d) ps)
unfolding spec_loop
is_set-spec_loop [] topo s d v w = ground arith
is_set-spec_loop (p ∷ ps) topo s d v w =
    let next = if is_empty (trim p) then s else or s (spec_part (trim p) topo) in
    is_set-spec_loop ps topo next d v (spec_step-IsCpuSet (trim p) topo s v w)
    ∙ ap (λ (b : Bool). b || any (part_names topo d) ps) (is_set-spec_step (trim p) topo s d v w)
    ∙ ||_assoc (is_set s d) (part_names topo d p) (any (part_names topo d) ps)

parse_cpu_spec-loop :
    (spec : Text) (topo : CpuTopology)
    → parse_cpu_spec spec topo ≡ spec_loop (split b',' spec) topo new
unfolding parse_cpu_spec split trim trim_start trim_end
parse_cpu_spec-loop [] topo = refl
parse_cpu_spec-loop (c ∷ spec) topo = refl

pub parse_cpu_spec-IsCpuSet :
    (spec : Text) (topo : CpuTopology) → IsTopology topo → IsCpuSet (parse_cpu_spec spec topo)
parse_cpu_spec-IsCpuSet spec topo v =
    rw parse_cpu_spec-loop (spec_loop-IsCpuSet (split b',' spec) topo new v new-IsCpuSet)

-- A number is in the result of `parse_cpu_spec` exactly when some comma-separated part of the text
-- that is not blank names it: `e-core`, `p-core`, `hp-core` and `all-core` by the topology's set,
-- any other part as a range over the present CPUs below 1024.
pub is_set-parse_cpu_spec :
    (spec : Text) (topo : CpuTopology) (d : ℕ)
    → IsTopology topo
    → is_set (parse_cpu_spec spec topo) d ≡ any (part_names topo d) (split b',' spec)
is_set-parse_cpu_spec spec topo d v = rw parse_cpu_spec-loop (
    is_set-spec_loop (split b',' spec) topo new d v new-IsCpuSet
    ∙ ap (λ (b : Bool). b || any (part_names topo d) (split b',' spec)) (is_set-new d))
