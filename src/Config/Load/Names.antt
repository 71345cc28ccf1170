-- ===== src/Config/Load/Names.antt =====
-- AppOptR/src/config.rs, `load_config`: lemmas on the two sets of package names.
use app_opt_r_plus.Prelude.{
  ◌≡◌, refl, ap, ◌∙◌, true, not, ◌&&◌, ◌||◌, List, [], ◌∷◌, ◌++◌, if◌then◌else◌, is_empty, any, map,
  keep, arith, Bool-cases, inl, inr,
}
use app_opt_r_plus.Prelude.Text.{Text, text_eq, member, insert_text, insert_all}
use app_opt_r_plus.Prelude.Text.Split.{text_eq_iff}
use app_opt_r_plus.Cpuset.Topology.{CpuTopology}
use app_opt_r_plus.Config.Load.{AffinityRule, make_config}

member-append : (p s : Text) (ts : List Text) → member p (ts ++ s ∷ []) ≡ member p ts || text_eq p s
unfolding member
member-append p s [] = ground arith
member-append p s (t ∷ ts) = ground (arith, member-append p s ts)

member-insert_text :
    (p s : Text) (ts : List Text) → member p (insert_text s ts) ≡ member p ts || text_eq p s
unfolding insert_text
member-insert_text p s ts = elim (Bool-cases (member s ts)) [
  | inr e ↦ rw (e, if◌then◌else◌) (member-append p s ts)
  | inl e ↦ elim (Bool-cases (text_eq p s)) [
    | inr n ↦ rw (e, n, if◌then◌else◌) (ground arith)
    | inl m ↦
        let q : member p ts ≡ true = ap (λ (x : Text). member x ts) ((text_eq_iff p s).0 m) ∙ e in
        rw (e, m, q, if◌then◌else◌) refl
  ]
]

member-insert_all :
    (p : Text) (ss ts : List Text) → member p (insert_all ss ts) ≡ member p ss || member p ts
unfolding insert_all member
member-insert_all p [] ts = refl
member-insert_all p (s ∷ ss) ts =
    member-insert_all p ss (insert_text s ts) ∙ rw (member-insert_text p s ts) (ground arith)

names :
    (p : Text) (ss tuned : List Text)
    → member p (insert_all tuned (insert_all ss [])) ≡ member p tuned || member p ss
unfolding member
names p ss tuned =
    member-insert_all p tuned (insert_all ss []) ∙ rw (member-insert_all p ss []) (ground arith)

pkg_names :
    (p : Text) (rs : List AffinityRule)
    → member p (map (λ r. r.pkg) rs) ≡ any (λ r. text_eq p r.pkg) rs
unfolding member
pkg_names p [] = refl
pkg_names p (r ∷ rs) = ground (arith, pkg_names p rs)

thread_names :
    (p : Text) (rs : List AffinityRule)
    → member p (map (λ r. r.pkg) (keep (λ r. not (is_empty r.thread)) rs))
      ≡ any (λ r. not (is_empty r.thread) && text_eq p r.pkg) rs
unfolding member
thread_names p [] = refl
thread_names p (r ∷ rs) = ground (arith, thread_names p rs)

-- A package's name is in `pkgs` exactly when some rule or some tuning profile is for the package, and in
-- `has_thread_rules` exactly when some rule for a thread of the package, or some tuning profile with thread rules, is.
pub member-make_config :
    (topo : CpuTopology) (rs : List AffinityRule) (tuned tuned_threads : List Text) (p : Text)
    → (member p (make_config topo rs tuned tuned_threads).pkgs
        ≡ member p tuned || any (λ r. text_eq p r.pkg) rs)
      × (member p (make_config topo rs tuned tuned_threads).has_thread_rules
          ≡ member p tuned_threads || any (λ r. not (is_empty r.thread) && text_eq p r.pkg) rs)
unfolding make_config
member-make_config topo rs tuned tuned_threads p = (
  names p (map (λ r. r.pkg) rs) tuned ∙ ap (λ b. member p tuned || b) (pkg_names p rs),
  names p (map (λ r. r.pkg) (keep (λ r. not (is_empty r.thread)) rs)) tuned_threads
      ∙ ap (λ b. member p tuned_threads || b) (thread_names p rs),
)
