-- ===== src/Tests/Memory.antt =====
-- The theorem on memory groups, on a system with one cgroup root whose state is the list of the files written.
use app_opt_r_plus.Prelude.{
  ◌≡◌, refl, sym, ◌⊎◌, inl, inr, Bool, true, false, ◌||◌, Option, none, some, List, [], ◌∷◌,
  if◌then◌else◌, All,
}
use mathlib.Core.Path.{subst}
use app_opt_r_plus.Prelude.Int.{pos}
use app_opt_r_plus.Prelude.Text.{Text, codes, text_eq, starts_with, ends_with}
use app_opt_r_plus.Daemon.{join_path}
use app_opt_r_plus.Proc.{ProcSys}
use app_opt_r_plus.Tuning.{MemoryGroup}
use app_opt_r_plus.Tuning.Apply.{WarnState}
use app_opt_r_plus.Tuning.Memory.{CgroupSys}
use app_opt_r_plus.Tuning.Memory.Write.{apply_memory_group}
use app_opt_r_plus.Tuning.Memory.Inside.{Inside}
use app_opt_r_plus.Tuning.Memory.Write.Keeps.{apply_memory_group-keeps}

abbrev root : Text
root = codes "/dev/memcg"

abbrev game_dir : Text
game_dir = codes "/dev/memcg/game"

abbrev known : Bool → Bool → Option Text
known b c = if b then some root else if c then some game_dir else none

abbrev cgroups : CgroupSys (List Text)
cgroups = record {
  is_dir = λ p w. text_eq p root || text_eq p game_dir;
  exists = λ p w. true;
  canonical = λ p w. known (text_eq p root) (text_eq p game_dir);
  read_text = λ p w. none;
  open_control = λ p w. none;
  write_control = λ p value w. (none, p ∷ w);
}

abbrev procs : ProcSys (List Text)
procs = record {
  read_file = λ p w. none;
  read_dir = λ p w. none;
  get_affinity = λ tid w. none;
  set_affinity = λ tid cpus w. (none, w);
  kill_zero = λ tid w. none;
  append_line = λ p text w. w;
}

abbrev game : MemoryGroup
game = record {
  name = codes "game";
  path = codes "game";
  swappiness = some 60;
  memory_min = none;
  memory_low = none;
  memory_high = none;
  memory_max = some (codes "2147483648");
  oom_group = none;
}

-- All files are below the root.
abbrev AllBelow : List Text → Type 0
AllBelow w = All (λ p. starts_with p root ≡ true) w

known_lem : (b c : Bool) (dir : Text) → known b c ≡ some dir → (dir ≡ root) ⊎ (dir ≡ game_dir)
known_lem true c dir e = inl (cc e)
known_lem false true dir e = inr (cc e)
known_lem false false dir e = absurd (cc e)

below_keeps :
    (dir name value : Text) (v : List Text)
    → Inside cgroups [] dir
    → AllBelow v
    → AllBelow (cgroups.write_control (join_path dir name) value v).1
unfolding starts_with ends_with text_eq
below_keeps dir name value v i p =
    elim (known_lem (text_eq i.named.0 root) (text_eq i.named.0 game_dir) dir i.named.1) [
      | inl e ↦ (subst (λ (d : Text). starts_with (join_path d name) root ≡ true) (sym e) refl, p)
      | inr e ↦ (subst (λ (d : Text). starts_with (join_path d name) root ≡ true) (sym e) refl, p)
    ]

abbrev no_warnings : WarnState
no_warnings = record { seen = []; warnings = [] }

apply_memory_group-keeps_example :
    AllBelow (apply_memory_group cgroups procs (pos 7) (codes "com.a") game (no_warnings, [])).1
apply_memory_group-keeps_example =
    apply_memory_group-keeps cgroups procs (pos 7) (codes "com.a") game no_warnings [] AllBelow
      below_keeps tt
