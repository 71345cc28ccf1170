-- ===== src/Tests/Cpu.antt =====
-- The theorems on `CpuSet`, the range texts and the topology, at concrete inputs.
use app_opt_r_plus.Prelude.{ℕ, ◌≡◌, ◌↔◌, Bool, ◌&&◌, none, some, List, [], ◌∷◌, ltb, any}
use Prim.Native.String.{String}
use app_opt_r_plus.Prelude.Text.{codes, split}
use app_opt_r_plus.Cpuset.{new, is_set, cpus_eq}
use app_opt_r_plus.Cpuset.Whole.{cpus_eq_iff, new-IsCpuSet}
use app_opt_r_plus.Cpuset.Ranges.{parse_cpu_ranges, to_range_string, is_present}
use app_opt_r_plus.Cpuset.Ranges.Parse.{is_set-parse_cpu_ranges, spec_covers}
use app_opt_r_plus.Cpuset.Ranges.RoundTrip.{parse_cpu_ranges-to_range_string}
use app_opt_r_plus.Cpuset.Topology.{PolicyEntry, detect_core_types}
use app_opt_r_plus.Cpuset.Topology.Layers.{Layered, detect_core_types-Layered}
use app_opt_r_plus.Cpuset.Spec.{parse_cpu_spec, part_names, is_set-parse_cpu_spec}
use app_opt_r_plus.Tests.Data.{two_cpus, two_cpus-IsCpuSet, topo, topo-IsTopology}

cpus_eq_iff_example :
    (cpus_eq two_cpus new ≡ Bool.true) ↔ ((d : ℕ) → is_set two_cpus d ≡ is_set new d)
cpus_eq_iff_example = cpus_eq_iff two_cpus new two_cpus-IsCpuSet new-IsCpuSet

is_set-parse_cpu_ranges_example :
    is_set (parse_cpu_ranges (codes "0-2, 9") (some two_cpus)) 9
    ≡ (ltb 9 1024 && is_present (some two_cpus) 9 && spec_covers (codes "0-2, 9") 9)
is_set-parse_cpu_ranges_example = is_set-parse_cpu_ranges (codes "0-2, 9") (some two_cpus) 9

parse_cpu_ranges-to_range_string_example :
    parse_cpu_ranges (to_range_string two_cpus) none ≡ two_cpus
parse_cpu_ranges-to_range_string_example =
    parse_cpu_ranges-to_range_string two_cpus two_cpus-IsCpuSet

abbrev policy : String → String → String → PolicyEntry
policy name freq cpus = record {
  file_name = some (codes name);
  max_freq = some (codes freq);
  related_cpus = some (codes cpus);
}

-- Three frequencies, a policy that cannot run, and an entry that is none.
abbrev policies : List PolicyEntry
policies =
    policy "policy4" "2800000\n" "4 5 6"
    ∷ policy "policy0" "1800000\n" "0 1 2 3"
    ∷ policy "policy7" "3200000\n" "7"
    ∷ policy "policy8" "0\n" "8"
    ∷ policy "boost" "1\n" "9"
    ∷ []

detect_core_types-Layered_example : (fs : List ℕ) × Layered policies (detect_core_types policies) fs
detect_core_types-Layered_example = detect_core_types-Layered policies

is_set-parse_cpu_spec_example :
    is_set (parse_cpu_spec (codes "p-core, 0") topo) 2
    ≡ any (part_names topo 2) (split b',' (codes "p-core, 0"))
is_set-parse_cpu_spec_example = is_set-parse_cpu_spec (codes "p-core, 0") topo 2 topo-IsTopology
