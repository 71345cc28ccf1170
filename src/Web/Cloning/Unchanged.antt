-- ===== src/Web/Cloning/Unchanged.antt =====
-- AppOptR/src/web.rs, `rule_clone_api`: its answers and the two files.
use app_opt_r_plus.Prelude.{
  ◌≡◌, refl, ◌⊎◌, inl, inr, Bool, true, Option, none, some, List, arith, if_both, if_cases,
}
use app_opt_r_plus.Prelude.Text.{Text, codes}
use app_opt_r_plus.RuleEdit.{RuleEdit, ok, io_err}
use app_opt_r_plus.RuleEdit.Ops.{file_write, read_lines}
use app_opt_r_plus.RuleEdit.Clone.{
  Prepared, rules, refused, clone_prepare, check_result, finish_clone, rule_clone_check, rule_clone,
}
use app_opt_r_plus.Json.{Value}
use app_opt_r_plus.Tuning.{Outcome, ok, err}
use app_opt_r_plus.Daemon.{Globals, DaemonSys}
use app_opt_r_plus.Web.Request.{Request}
use app_opt_r_plus.Web.Dispatch.{Answer}
use app_opt_r_plus.Web.Rules.{is_ok, trimmed_at}
use app_opt_r_plus.Web.Configure.{body_value}
use app_opt_r_plus.Web.Cloning.{
  Parts, finished, clone_tuning, after_cpu, clone_both, check_cpu, clone_named, unless_refused,
  or_else, rule_clone_api, copy_cpu, copy_tuning, clone_error, clone_value, clone_names, parts,
  check_tuning, clone_refusal,
}

-- The answer 200 or 500, or the state as it was.
abbrev pub Kept : {S : Type 0} → S → Answer × S → Type 0
Kept s (a, s') = ((a.0 ≡ 200) ⊎ (a.0 ≡ 500)) ⊎ (s' ≡ s)

module _ {W : Type 0} (sys : DaemonSys W) where
  file_write-result :
      (path : Text) (ls : List Text) (w : W)
      → ((file_write sys.files path ls w).0 ≡ ok) ⊎ ((file_write sys.files path ls w).0 ≡ io_err)
  unfolding file_write
  file_write-result path ls w = ground arith

  -- What passed the check is written, or the file system fails.
  clone_of :
      (path target : Text) (ls : List Text) (p : Prepared) (w : W)
      → is_ok (check_result sys.files p) ≡ true
      → ((finish_clone sys.files path target ls p w).0 ≡ ok)
        ⊎ ((finish_clone sys.files path target ls p w).0 ≡ io_err)
  clone_of path target ls (rules r) w h = file_write-result path _ w
  clone_of path target ls (refused ok) w h = inl refl
  clone_of path target ls (refused e) w h = ground arith

  rule_clone-result :
      (path source target : Text) (p t : Bool) (w : W)
      → is_ok (rule_clone_check sys.files path source target p t w) ≡ true
      → ((rule_clone sys.files path source target p t w).0 ≡ ok)
        ⊎ ((rule_clone sys.files path source target p t w).0 ≡ io_err)
  unfolding rule_clone rule_clone_check
  rule_clone-result path source target p t w h =
      let (ls, r) = clone_prepare source target p t (read_lines sys.files path w) in
      clone_of path target ls r w h

  module _ (s : Globals × W) where
    finished-Kept : (r : Outcome (Unit {0}) × (Globals × W)) → Kept s (finished sys r)
    unfolding finished
    finished-Kept (ok u, s') = inl (inl refl)
    finished-Kept (err e, s') = inl (inr refl)

    clone_tuning-Kept :
        (source target : Text) (p : Parts) (s' : Globals × W)
        → Kept s (clone_tuning sys source target p s')
    unfolding clone_tuning
    clone_tuning-Kept source target p s' =
        if_both (Kept s) (copy_tuning p) (finished-Kept _) (inl (inl refl))

    after_cpu-Kept :
        (source target : Text) (p : Parts) (g : Globals) (e : RuleEdit) (w : W)
        → ((e ≡ ok) ⊎ (e ≡ io_err))
        → Kept s (after_cpu sys source target p g (e, w))
    unfolding after_cpu clone_error
    after_cpu-Kept source target p g ok w h = clone_tuning-Kept source target p (g, w)
    after_cpu-Kept source target p g io_err w h = inl (inr refl)
    after_cpu-Kept source target p g e w h = ground arith

    check_cpu-is_ok :
        (source target : Text) (p : Parts) (g : Globals) (w : W)
        → check_cpu sys source target p (g, w) ≡ none
        → copy_cpu p ≡ true
        → is_ok
            (rule_clone_check sys.files g.config_file source target p.cpu_package p.cpu_threads w)
          ≡ true
    unfolding check_cpu
    check_cpu-is_ok source target p g w h c = ground arith

    clone_both-Kept :
        (source target : Text) (p : Parts) (g : Globals) (w : W)
        → check_cpu sys source target p (g, w) ≡ none
        → Kept s (clone_both sys source target p (g, w))
    unfolding clone_both
    clone_both-Kept source target p g w h =
        if_cases (Kept s) (copy_cpu p)
          (λ c.
            let r =
              rule_clone sys.files g.config_file source target p.cpu_package p.cpu_threads w in
            after_cpu-Kept source target p g r.0 r.1 (
              rule_clone-result g.config_file source target p.cpu_package p.cpu_threads w
                (check_cpu-is_ok source target p g w h c)))
          (λ c. clone_tuning-Kept source target p (g, w))

  refused-Kept :
      (a b c : Option Answer) (s : Globals × W) (r : Answer × (Globals × W))
      → (b ≡ none → Kept s r)
      → Kept s (unless_refused sys (or_else sys a (or_else sys b c)) s r)
  refused-Kept (some a) b c s r h = inr refl
  refused-Kept none (some b) c s r h = inr refl
  refused-Kept none none (some c) s r h = inr refl
  refused-Kept none none none s r h = h refl

  clone_named-Kept :
      (source target : Text) (p : Parts) (s : Globals × W)
      → Kept s (clone_named sys source target p s)
  unfolding clone_named
  clone_named-Kept source target p (g, w) =
      refused-Kept (clone_refusal source target p) (check_cpu sys source target p (g, w))
        (check_tuning sys source target p (g, w)) (g, w) (clone_both sys source target p (g, w))
        (clone_both-Kept (g, w) source target p g w)

  clone_names-Kept :
      (v : Value) (s : Globals × W) (a b : Option Text) → Kept s (clone_names sys v s a b)
  unfolding clone_names
  clone_names-Kept v s none b = inr refl
  clone_names-Kept v s (some a) none = inr refl
  clone_names-Kept v s (some a) (some b) = clone_named-Kept a b (parts v) s

  clone_value-Kept : (s : Globals × W) (o : Option Value) → Kept s (clone_value sys s o)
  unfolding clone_value
  clone_value-Kept s none = inr refl
  clone_value-Kept s (some v) =
      clone_names-Kept v s (trimmed_at v (codes "source")) (trimmed_at v (codes "target"))

  -- A request for a clone that is answered neither with 200 nor with 500 leaves the whole state as it was: a conflict, a
  -- missing source or a malformed file is found before either file is written, also when the CPU rules could be
  -- cloned and only the tuning is refused.
  pub rule_clone_api-Kept : (req : Request) (s : Globals × W) → Kept s (rule_clone_api sys req s)
  unfolding rule_clone_api
  rule_clone_api-Kept req s = clone_value-Kept s (body_value sys req)
