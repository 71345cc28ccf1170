-- ===== src/Cpuset/Topology.antt =====
-- AppOptR/src/cpuset.rs: the CPU topology (`CpuTopology`, `detect_core_types`, `init_cpu_topo`) and the
-- cpuset directories (`base_cpuset`, `set_base_cpuset`, `create_cpuset_dir`, `ensure_cpuset_dir`).
-- What libc and the files of the kernel answer is a parameter: the calls of `CpusetSys` over a
-- state `W`, and the contents of the files as values.
pub mod Policies
pub mod Groups
pub mod Places
pub mod Layers
use app_opt_r_plus.Prelude.{
  ℕ, zero, suc, ◌+◌, ◌-◌, ◌^◌, Bool, true, false, not, ◌||◌, Option, none, some, List, [], ◌∷◌,
  ◌++◌, ltb, leb, ◌==◌, if◌then◌else◌, is_empty, length,
}
use app_opt_r_plus.Prelude.Text.{
  Text, codes, trim, contains, starts_with, parse_uint, split_whitespace,
}
use app_opt_r_plus.Cpuset.{CpuSet, new, set}
use app_opt_r_plus.Cpuset.Ranges.{to_range_string, parse_cpu_ranges}

pub record CpuTopology : Type 0 where
  pub present_cpus : CpuSet
  pub present_str : Text
  pub mems_str : Text
  pub cpuset_enabled : Bool
  pub e_core : CpuSet
  pub p_core : CpuSet
  pub hp_core : CpuSet

-- `BASE_CPUSET_PATH`: `none` until it is set.
unfoldable pub set_base_cpuset : Text → Option Text → Option Text
set_base_cpuset name base =
    if is_empty name || contains name b'/' then base else some (codes "/dev/cpuset/" ++ name)

unfoldable pub base_cpuset : Option Text → Text
base_cpuset none = codes "/dev/cpuset/AppOpt"
base_cpuset (some path) = path

-- The calls of libc and `fs`: `mkdir` answers an error number, the others whether they succeeded.
pub record CpusetSys (W : Type 0) : Type 0 where
  pub mkdir : Text → W → Option ℕ × W
  pub chmod : Text → W → Bool × W
  pub chown : Text → W → Bool × W
  pub write : Text → Text → W → Bool × W

-- `EEXIST`.
abbrev pub eexist : ℕ
eexist = 17

abbrev refused : Option ℕ → Bool
refused none = false
refused (some errno) = not (errno == eexist)

unfoldable pub create_cpuset_dir : {W : Type 0} → CpusetSys W → Text → Text → Text → W → Bool × W
create_cpuset_dir sys path cpus mems w =
    let (made, w₁) = sys.mkdir path w in
    if refused made
    then (false, w₁)
    else let (moded, w₂) = sys.chmod path w₁ in
      if not moded
      then (false, w₂)
      else let (owned, w₃) = sys.chown path w₂ in
        if not owned
        then (false, w₃)
        else let (wrote, w₄) = sys.write (path ++ codes "/cpus") cpus w₃ in
          if not wrote then (false, w₄) else sys.write (path ++ codes "/mems") mems w₄

abbrev pub dir_path : Option Text → Text → Text
dir_path base name = base_cpuset base ++ (b'/' ∷ name)

unfoldable pub ensure_cpuset_dir :
    {W : Type 0} → CpusetSys W → Option Text → CpuSet → CpuTopology → W → Text × W
unfolding create_cpuset_dir base_cpuset
ensure_cpuset_dir sys base cpus topo w =
    if not topo.cpuset_enabled
    then ([], w)
    else let dir_name = to_range_string cpus in
      let (made, w') = create_cpuset_dir sys (dir_path base dir_name) dir_name topo.mems_str w in
      (if made then dir_name else [], w')

-- An entry of /sys/devices/system/cpu/cpufreq: its name, if it is UTF-8, and its two files, if they
-- can be read.
pub record PolicyEntry : Type 0 where
  pub file_name : Option Text
  pub max_freq : Option Text
  pub related_cpus : Option Text

abbrev pub is_policy : Option Text → Bool
is_policy none = false
is_policy (some n) = starts_with n (codes "policy")

abbrev pub or_zero : Option ℕ → ℕ
or_zero none = 0
or_zero (some f) = f

abbrev pub freq_of : Option Text → ℕ
freq_of none = 0
freq_of (some s) = or_zero (parse_uint (2 ^ 64) (trim s))

abbrev pub and_parsed : Option ℕ → List ℕ → List ℕ
and_parsed none ns = ns
and_parsed (some n) ns = n ∷ ns

abbrev pub parsed_cpus : List Text → List ℕ
parsed_cpus [] = []
parsed_cpus (c ∷ cs) = and_parsed (parse_uint (2 ^ 64) c) (parsed_cpus cs)

abbrev pub cpus_of : Option Text → List ℕ
cpus_of none = []
cpus_of (some s) = parsed_cpus (split_whitespace s)

abbrev pub Group : Type 0
Group = ℕ × List ℕ

-- The policy's frequency and CPUs; `none` where the loop goes on to the next entry.
unfoldable pub policy_group : PolicyEntry → Option Group
policy_group e =
    if not (is_policy e.file_name)
    then none
    else if freq_of e.max_freq == 0
    then none
    else if is_empty (cpus_of e.related_cpus)
    then none
    else some (freq_of e.max_freq, cpus_of e.related_cpus)

unfoldable pub add_group : Group → List Group → List Group
add_group g [] = g ∷ []
add_group g (h ∷ hs) = if h.0 == g.0 then (h.0, h.1 ++ g.1) ∷ hs else h ∷ add_group g hs

abbrev add_policy : Option Group → List Group → List Group
add_policy none gs = gs
add_policy (some g) gs = add_group g gs

unfoldable pub collect_groups : List PolicyEntry → List Group → List Group
unfolding policy_group add_group
collect_groups [] gs = gs
collect_groups (e ∷ es) gs = collect_groups es (add_policy (policy_group e) gs)

-- `sort_by_key`, which is stable: an element goes behind those before it that have its key.
unfoldable pub insert_group : Group → List Group → List Group
insert_group g [] = g ∷ []
insert_group g (h ∷ hs) = if ltb g.0 h.0 then g ∷ h ∷ hs else h ∷ insert_group g hs

unfoldable pub sort_groups : List Group → List Group → List Group
sort_groups [] sorted = sorted
sort_groups (g ∷ gs) sorted = sort_groups gs (insert_group g sorted)

abbrev pub set_all : List ℕ → CpuSet → CpuSet
set_all [] s = s
set_all (c ∷ cs) s = set_all cs (set c s)

pub record CoreTypes : Type 0 where
  pub e : CpuSet
  pub p : CpuSet
  pub h : CpuSet

-- The group with index `i` of `n`: the first is e-core, the last hp-core.
unfoldable pub place_group : ℕ → ℕ → List ℕ → CoreTypes → CoreTypes
place_group n i cpus t =
    if i == 0
    then record t { e = set_all cpus t.e }
    else if i == n - 1
    then record t { h = set_all cpus t.h }
    else record t { p = set_all cpus t.p }

unfoldable pub place_groups : ℕ → ℕ → List Group → CoreTypes → CoreTypes
place_groups n i [] t = t
place_groups n i (g ∷ gs) t = place_groups n (i + 1) gs (place_group n i g.1 t)

unfoldable pub detect_core_types : List PolicyEntry → CoreTypes
unfolding collect_groups insert_group sort_groups place_group place_groups
detect_core_types entries =
    let groups = sort_groups (collect_groups entries []) [] in
    place_groups (length groups) 0 groups (record { e = new; p = new; h = new })

abbrev mems_of : Option Text → Text
mems_of none = codes "0"
mems_of (some s) = if is_empty (trim s) then codes "0" else trim s

abbrev present_of : Option Text → Text
present_of none = []
present_of (some content) = trim content

-- `/sys/devices/system/cpu/present`, the policies, whether /dev/cpuset is there, and its `mems`.
unfoldable pub init_cpu_topo :
    {W : Type 0}
    → CpusetSys W
    → Option Text
    → Option Text
    → List PolicyEntry
    → Bool
    → Option Text
    → W
    → CpuTopology × W
unfolding detect_core_types create_cpuset_dir base_cpuset
init_cpu_topo sys base present entries cpuset_there mems w =
    let types = detect_core_types entries in
    let topo : CpuTopology = record {
      present_cpus = parse_cpu_ranges (present_of present) none;
      present_str = present_of present;
      mems_str = [];
      cpuset_enabled = false;
      e_core = types.e;
      p_core = types.p;
      hp_core = types.h;
    } in
    if not cpuset_there
    then (topo, w)
    else let (made, w') =
        create_cpuset_dir sys (base_cpuset base) topo.present_str (mems_of mems) w in
      (record topo { mems_str = mems_of mems; cpuset_enabled = made }, w')
