-- ===== src/Web/Configure/Accepted.antt =====
-- AppOptR/src/web.rs, `config_set_api`: its answers and the settings in force.
use app_opt_r_plus.Prelude.{
  ℕ, ◌≤◌, ◌≡◌, refl, ◌⊎◌, inl, inr, ◌∙◌, ap, true, false, not, ◌&&◌, Option, none, some, ◌∷◌, ◌++◌,
  ltb, leb, arith,
}
use app_opt_r_plus.Prelude.Text.{Text, codes, contains, last_part}
use app_opt_r_plus.Prelude.Text.Split.{rsplit_once-append}
use app_opt_r_plus.Cpuset.Topology.{set_base_cpuset, base_cpuset}
use app_opt_r_plus.Json.{Value}
use app_opt_r_plus.Daemon.{Globals, DaemonSys}
use app_opt_r_plus.Web.{valid_name, valid_path}
use app_opt_r_plus.Web.Request.{Request}
use app_opt_r_plus.Web.Dispatch.{Answer, err_json}
use app_opt_r_plus.Web.Settings.{settings_of}
use app_opt_r_plus.Web.Settings.RoundTrip.{IsSettings}
use app_opt_r_plus.Web.Configure.{
  Wanted, wanted, refusal, put_mode, put_interval, put_name, put_path, configured, applied,
  set_config, config_set_api, body_value, bad_body, some_and,
}

-- The same of the statics: the settings in force.
pub record InForce (g : Globals) : Type 0 where
  pub mode_le : g.mode_force ≤ 2
  pub interval_le : g.check_interval ≤ 3600
  pub name_ok : valid_name (last_part b'/' (base_cpuset g.base)) ≡ true
  pub path_ok : valid_path g.config_file ≡ true

-- The answer 400 and the state as it was, or the answer 200 and settings in range.
abbrev pub Accepted : {W : Type 0} → Globals × W → Answer × (Globals × W) → Type 0
Accepted s r = ((r.0.0 ≡ 400) × (r.1 ≡ s)) ⊎ ((r.0.0 ≡ 200) × InForce r.1.0)

module _ {W : Type 0} (sys : DaemonSys W) where
  pub InForce-IsSettings : (g : Globals) → InForce g → IsSettings (settings_of sys g)
  unfolding settings_of
  InForce-IsSettings g v = record {
    mode_le = v.mode_le;
    interval_ge = omega arith;
    interval_le = omega (arith, v.interval_le);
    name_ok = v.name_ok;
    path_ok = v.path_ok;
  }

  put_mode-InForce :
      (o : Option ℕ) (g : Globals)
      → some_and (λ m. ltb 2 m) o ≡ false
      → InForce g
      → InForce (put_mode o g)
  put_mode-InForce none g h v = v
  put_mode-InForce (some m) g h v = record {
    mode_le = ground (arith, h);
    interval_le = v.interval_le;
    name_ok = v.name_ok;
    path_ok = v.path_ok;
  }

  put_interval-InForce :
      (o : Option ℕ) (g : Globals)
      → some_and (λ n. not (leb 1 n && leb n 3600)) o ≡ false
      → InForce g
      → InForce (put_interval o g)
  put_interval-InForce none g h v = v
  put_interval-InForce (some n) g h v = record {
    mode_le = v.mode_le;
    interval_le = ground (arith, h);
    name_ok = v.name_ok;
    path_ok = v.path_ok;
  }

  set_base_some :
      (n : Text) (b : Option Text)
      → valid_name n ≡ true
      → (set_base_cpuset n b ≡ some (codes "/dev/cpuset" ++ (b'/' ∷ n))) × (contains n b'/' ≡ false)
  unfolding set_base_cpuset valid_name
  set_base_some n b h = ground arith

  -- The directory of a valid name ends in that name.
  last_part-base :
      (n : Text) (b : Option Text)
      → valid_name n ≡ true
      → last_part b'/' (base_cpuset (set_base_cpuset n b)) ≡ n
  unfolding last_part base_cpuset
  last_part-base n b h =
      let (e, c) = set_base_some n b h in
      ap (λ (o : Option Text). last_part b'/' (base_cpuset o)) e
      ∙ ap
          (λ (o : Option (Text × Text)). elim o [
            | none ↦ codes "/dev/cpuset" ++ (b'/' ∷ n)
            | some r ↦ r.1
          ])
          (rsplit_once-append b'/' (codes "/dev/cpuset") n c)

  put_name-InForce :
      (o : Option Text) (g : Globals) (w : W)
      → some_and (λ n. not (valid_name n)) o ≡ false
      → InForce g
      → InForce (put_name sys o (g, w)).0
  unfolding put_name
  put_name-InForce none g w h v = v
  put_name-InForce (some n) g w h v =
      let k : valid_name n ≡ true = ground (arith, h) in
      record {
        mode_le = v.mode_le;
        interval_le = v.interval_le;
        name_ok = ap valid_name (last_part-base n g.base k) ∙ k;
        path_ok = v.path_ok;
      }

  put_path-InForce :
      (o : Option Text) (g : Globals) (w : W)
      → some_and (λ p. not (valid_path p)) o ≡ false
      → InForce g
      → InForce (put_path sys o (g, w)).0
  put_path-InForce none g w h v = v
  put_path-InForce (some p) g w h v = record {
    mode_le = v.mode_le;
    interval_le = v.interval_le;
    name_ok = v.name_ok;
    path_ok = ground (arith, h);
  }

  abbrev Passed : Wanted → Type 0
  Passed q =
      (some_and (λ m. ltb 2 m) q.mode ≡ false)
      × (some_and (λ n. not (leb 1 n && leb n 3600)) q.interval ≡ false)
      × (some_and (λ n. not (valid_name n)) q.name ≡ false)
      × (some_and (λ p. not (valid_path p)) q.path ≡ false)

  refusal-Passed : (q : Wanted) → refusal q ≡ none → Passed q
  unfolding refusal
  refusal-Passed q h = ground arith

  refusal_code : (q : Wanted) (a : Answer) → refusal q ≡ some a → a.0 ≡ 400
  unfolding refusal err_json
  refusal_code q a h = ground arith

  configured-InForce :
      (q : Wanted) (g : Globals) (w : W)
      → Passed q
      → InForce g
      → InForce (configured sys q (g, w)).0
  unfolding configured
  configured-InForce q g w (m, i, n, p) v =
      let g₁ = put_interval q.interval (put_mode q.mode g) in
      let s₂ = put_name sys q.name (g₁, w) in
      put_path-InForce q.path s₂.0 s₂.1 p (
        put_name-InForce q.name g₁ w n
          (put_interval-InForce q.interval _ i (put_mode-InForce q.mode g m v)))

  applied-Accepted :
      (q : Wanted) (s : Globals × W)
      → InForce s.0
      → (o : Option Answer) → refusal q ≡ o
      → Accepted s (applied sys q s o)
  unfolding applied
  applied-Accepted q (g, w) v none e = inr (refl, configured-InForce q g w (refusal-Passed q e) v)
  applied-Accepted q s v (some a) e = inl (refusal_code q a e, refl)

  set_config-Accepted :
      (s : Globals × W) → InForce s.0 → (o : Option Value) → Accepted s (set_config sys o s)
  unfolding set_config bad_body
  set_config-Accepted s v none = inl (refl, refl)
  set_config-Accepted s v (some x) = applied-Accepted (wanted x) s v (refusal (wanted x)) refl

  -- A request to change the settings is refused with 400 and changes nothing, or it is answered with 200 and the
  -- settings then in force are in range, if they were before: a mode up to 2, an interval up to 3600, a valid
  -- cpuset name, and a valid path.
  pub config_set_api-Accepted :
      (req : Request) (s : Globals × W) → InForce s.0 → Accepted s (config_set_api sys req s)
  unfolding config_set_api
  config_set_api-Accepted req s v = set_config-Accepted s v (body_value sys req)
