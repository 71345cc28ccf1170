-- ===== src/Cpuset/Topology/Policies.antt =====
-- AppOptR/src/cpuset.rs, `detect_core_types`: what one entry of the policies stands for, written out from its texts.
use app_opt_r_plus.Prelude.{
  ℕ, ◌^◌, ◌≡◌, refl, Bool, true, false, not, ◌&&◌, ◌||◌, ◌∙◌, List, [], ◌∷◌, Option, none, some,
  ◌==◌, any, is_some, is_empty, if◌then◌else◌, arith,
}
use app_opt_r_plus.Prelude.Text.{Text, codes, trim, starts_with, parse_uint, split_whitespace}
use app_opt_r_plus.Cpuset.Topology.{
  PolicyEntry, Group, policy_group, is_policy, freq_of, or_zero, cpus_of, parsed_cpus, and_parsed,
}

abbrev pub is_number : ℕ → Option ℕ → Bool
is_number n none = false
is_number n (some m) = m == n

-- The word is the number, which fits 64 bits.
abbrev pub reads : ℕ → Text → Bool
reads n w = is_number n (parse_uint (2 ^ 64) w)

abbrev pub is_named : Option Text → Bool
is_named none = false
is_named (some n) = starts_with n (codes "policy")

-- A frequency that can be read and is not 0.
abbrev pub has_freq : ℕ → Option Text → Bool
has_freq f none = false
has_freq f (some s) = not (f == 0) && reads f (trim s)

abbrev pub names_cpu : ℕ → Option Text → Bool
names_cpu d none = false
names_cpu d (some s) = any (reads d) (split_whitespace s)

abbrev pub names_some : Option Text → Bool
names_some none = false
names_some (some s) = any (λ w. is_some (parse_uint (2 ^ 64) w)) (split_whitespace s)

-- The entry is a policy of this frequency, with a CPU.
abbrev pub usable_at : ℕ → PolicyEntry → Bool
usable_at f e = is_named e.file_name && has_freq f e.max_freq && names_some e.related_cpus

-- It is a policy of this frequency that names the CPU.
abbrev pub offers : ℕ → ℕ → PolicyEntry → Bool
offers d f e = is_named e.file_name && has_freq f e.max_freq && names_cpu d e.related_cpus

is_policy-is_named : (o : Option Text) → is_policy o ≡ is_named o
is_policy-is_named none = refl
is_policy-is_named (some n) = refl

freq_is :
    (f : ℕ) (o : Option ℕ)
    → (not (or_zero o == 0) && or_zero o == f) ≡ (not (f == 0) && is_number f o)
freq_is f none = ground arith
freq_is f (some m) = ground arith

freq_of-has_freq :
    (f : ℕ) (o : Option Text) → (not (freq_of o == 0) && freq_of o == f) ≡ has_freq f o
freq_of-has_freq f none = ground arith
freq_of-has_freq f (some s) = freq_is f (parse_uint (2 ^ 64) (trim s))

parsed_one :
    (d : ℕ) (o : Option ℕ) (ns : List ℕ)
    → any (λ c. c == d) (and_parsed o ns) ≡ (is_number d o || any (λ c. c == d) ns)
parsed_one d none ns = refl
parsed_one d (some n) ns = refl

parsed_any :
    (o : Option ℕ) (ns : List ℕ)
    → not (is_empty (and_parsed o ns)) ≡ (is_some o || not (is_empty ns))
parsed_any none ns = refl
parsed_any (some n) ns = refl

parsed_cpus-reads : (d : ℕ) (ws : List Text) → any (λ c. c == d) (parsed_cpus ws) ≡ any (reads d) ws
parsed_cpus-reads d [] = refl
parsed_cpus-reads d (w ∷ ws) =
    rw (parsed_one d (parse_uint (2 ^ 64) w) (parsed_cpus ws), parsed_cpus-reads d ws) refl

parsed_cpus-is_empty :
    (ws : List Text)
    → not (is_empty (parsed_cpus ws)) ≡ any (λ w. is_some (parse_uint (2 ^ 64) w)) ws
parsed_cpus-is_empty [] = refl
parsed_cpus-is_empty (w ∷ ws) =
    rw (parsed_any (parse_uint (2 ^ 64) w) (parsed_cpus ws), parsed_cpus-is_empty ws) refl

cpus_of-names_cpu : (d : ℕ) (o : Option Text) → any (λ c. c == d) (cpus_of o) ≡ names_cpu d o
cpus_of-names_cpu d none = refl
cpus_of-names_cpu d (some s) = parsed_cpus-reads d (split_whitespace s)

cpus_of-names_some : (o : Option Text) → not (is_empty (cpus_of o)) ≡ names_some o
cpus_of-names_some none = refl
cpus_of-names_some (some s) = parsed_cpus-is_empty (split_whitespace s)

-- A test on a group, at the group of a policy if it has one.
abbrev pub at_group : (Group → Bool) → Option Group → Bool
at_group t none = false
at_group t (some g) = t g

abbrev pub is_at : ℕ → Group → Bool
is_at f g = g.0 == f

abbrev pub lists_at : ℕ → ℕ → Group → Bool
lists_at d f g = g.0 == f && any (λ c. c == d) g.1

empty_not : (d : ℕ) (ns : List ℕ) → is_empty ns ≡ true → any (λ c. c == d) ns ≡ false
empty_not d [] h = refl
empty_not d (n ∷ ns) h = absurd (cc h)

at_group-guarded :
    (t : Group → Bool) (g : Group) (a b c : Bool)
    → at_group t (if not a then none else if b then none else if c then none else some g)
      ≡ (a && (not b && (not c && t g)))
at_group-guarded t g false b c = refl
at_group-guarded t g true true c = refl
at_group-guarded t g true false true = refl
at_group-guarded t g true false false = refl

pub policy_group-usable_at :
    (f : ℕ) (e : PolicyEntry) → at_group (is_at f) (policy_group e) ≡ usable_at f e
unfolding policy_group
policy_group-usable_at f e =
    at_group-guarded (is_at f) (freq_of e.max_freq, cpus_of e.related_cpus) (is_policy e.file_name)
      (freq_of e.max_freq == 0) (is_empty (cpus_of e.related_cpus))
    ∙ ground (
      arith,
      is_policy-is_named e.file_name,
      freq_of-has_freq f e.max_freq,
      cpus_of-names_some e.related_cpus,
    )

pub policy_group-offers :
    (d f : ℕ) (e : PolicyEntry) → at_group (lists_at d f) (policy_group e) ≡ offers d f e
unfolding policy_group
policy_group-offers d f e =
    at_group-guarded (lists_at d f) (freq_of e.max_freq, cpus_of e.related_cpus)
      (is_policy e.file_name) (freq_of e.max_freq == 0) (is_empty (cpus_of e.related_cpus))
    ∙ ground (
      arith,
      is_policy-is_named e.file_name,
      freq_of-has_freq f e.max_freq,
      cpus_of-names_cpu d e.related_cpus,
      empty_not d (cpus_of e.related_cpus),
    )
