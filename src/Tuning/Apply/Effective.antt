-- ===== src/Tuning/Apply/Effective.antt =====
-- AppOptR/src/tuning.rs: `effective_thread_tune` against the rules that match.
use app_opt_r_plus.Prelude.{
  ℕ, ◌≡◌, refl, sym, ap, ◌∙◌, Bool, true, false, ◌||◌, Option, none, some, List, [], ◌∷◌,
  if◌then◌else◌, any, arith, Bool-cases, inl, inr,
}
use app_opt_r_plus.Prelude.Int.{ℤ}
use app_opt_r_plus.Prelude.Text.{Text}
use app_opt_r_plus.Tuning.{ThreadTuneRule, AppTuneRule}
use app_opt_r_plus.Tuning.Apply.{
  pattern_matches, EffectiveThreadTune, replace_given, override, tune_loop, no_tune,
  effective_thread_tune,
}

-- The field of the last rule that passes the test and gives it.
abbrev pub last_given :
    {A : Type 0}
    → (ThreadTuneRule → Bool)
    → (ThreadTuneRule → Option A)
    → List ThreadTuneRule
    → Option A
last_given p f [] = none
last_given p f (r ∷ rs) = replace_given (last_given p f rs) (if p r then f r else none)

replace_given_assoc :
    {A : Type 0} (a b c : Option A)
    → replace_given a (replace_given b c) ≡ replace_given (replace_given a b) c
replace_given_assoc none b c = refl
replace_given_assoc (some a) b c = refl

replace_given-none : {A : Type 0} (a : Option A) → replace_given a none ≡ a
replace_given-none none = refl
replace_given-none (some a) = refl

tune_ext :
    (s t : EffectiveThreadTune)
    → s.uclamp_min ≡ t.uclamp_min
    → s.uclamp_max ≡ t.uclamp_max
    → s.nice ≡ t.nice
    → s ≡ t
tune_ext s t a b c =
    ap (λ (x : Option ℕ). record s { uclamp_min = x }) a
    ∙ (ap (λ (x : Option ℕ). record s { uclamp_min = t.uclamp_min; uclamp_max = x }) b
        ∙ ap (λ (x : Option ℤ). record t { nice = x }) c)

module _ (fnmatch : Text → Text → Bool) (comm : Text) where
  abbrev pub tunes : ThreadTuneRule → Bool
  tunes r = pattern_matches fnmatch r.pattern comm

  -- The three fields at the end of the loop, by those at its start.
  abbrev Ends :
      List ThreadTuneRule → EffectiveThreadTune × Bool → EffectiveThreadTune × Bool → Type 0
  Ends rs s e =
      (e.0.uclamp_min ≡ replace_given (last_given tunes (λ r. r.uclamp_min) rs) s.0.uclamp_min)
      × (e.0.uclamp_max ≡ replace_given (last_given tunes (λ r. r.uclamp_max) rs) s.0.uclamp_max)
      × (e.0.nice ≡ replace_given (last_given tunes (λ r. r.nice) rs) s.0.nice)
      × (e.1 ≡ (s.1 || any tunes rs))

  tune_loop-Ends :
      (rs : List ThreadTuneRule) (t : EffectiveThreadTune) (m : Bool)
      → Ends rs (t, m) (tune_loop fnmatch comm rs (t, m))
  unfolding tune_loop
  tune_loop-Ends [] t m = (refl, refl, refl, ground arith)
  tune_loop-Ends (r ∷ rs) t m = elim (Bool-cases (tunes r)) [
    | inl e ↦
        let (a, b, c, d) = tune_loop-Ends rs (override r t) true in
        simp (e, if◌then◌else◌)
          (
            a
                ∙ replace_given_assoc (last_given tunes (λ r. r.uclamp_min) rs) r.uclamp_min
                    t.uclamp_min,
            b
                ∙ replace_given_assoc (last_given tunes (λ r. r.uclamp_max) rs) r.uclamp_max
                    t.uclamp_max,
            c ∙ replace_given_assoc (last_given tunes (λ r. r.nice) rs) r.nice t.nice,
            d ∙ ground (arith, e),
          )
    | inr e ↦
        let (a, b, c, d) = tune_loop-Ends rs t m in
        simp (e, if◌then◌else◌)
          (
            a
                ∙ ap (λ (o : Option ℕ). replace_given o t.uclamp_min)
                    (sym (replace_given-none (last_given tunes (λ r. r.uclamp_min) rs))),
            b
                ∙ ap (λ (o : Option ℕ). replace_given o t.uclamp_max)
                    (sym (replace_given-none (last_given tunes (λ r. r.uclamp_max) rs))),
            c
                ∙ ap (λ (o : Option ℤ). replace_given o t.nice)
                    (sym (replace_given-none (last_given tunes (λ r. r.nice) rs))),
            d ∙ ground (arith, e),
          )
  ]

  -- `effective_thread_tune` answers exactly when some rule's pattern matches the thread, and each of the
  -- three settings is that of the last matching rule that gives it.
  pub effective_thread_tune-last :
      (app : AppTuneRule)
      → effective_thread_tune fnmatch app comm ≡ (
          if any tunes app.threads
          then some (record {
            uclamp_min = last_given tunes (λ r. r.uclamp_min) app.threads;
            uclamp_max = last_given tunes (λ r. r.uclamp_max) app.threads;
            nice = last_given tunes (λ r. r.nice) app.threads;
          })
          else none)
  unfolding effective_thread_tune
  effective_thread_tune-last app =
      let (a, b, c, d) = tune_loop-Ends app.threads no_tune false in
      let lo = a ∙ replace_given-none (last_given tunes (λ r. r.uclamp_min) app.threads) in
      let hi = b ∙ replace_given-none (last_given tunes (λ r. r.uclamp_max) app.threads) in
      let ni = c ∙ replace_given-none (last_given tunes (λ r. r.nice) app.threads) in
      rw
        (
          d,
          tune_ext (tune_loop fnmatch comm app.threads (no_tune, false)).0
              (record { uclamp_min = _; uclamp_max = _; nice = _ }) lo hi ni,
        )
        refl
