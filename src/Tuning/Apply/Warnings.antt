-- ===== src/Tuning/Apply/Warnings.antt =====
-- AppOptR/src/tuning.rs: `warn_once` and sequences of warnings.
use app_opt_r_plus.Prelude.{
  ℕ, suc, ◌≤◌, ◌≡◌, refl, ◌∙◌, true, List, [], ◌∷◌, ◌++◌, ltb, if◌then◌else◌, length, drop, arith,
  if_cases, length-append,
}
use app_opt_r_plus.Prelude.Text.{Text, member}
use app_opt_r_plus.Prelude.Text.Split.{text_eq_refl}
use app_opt_r_plus.Tuning.Valid.{no_twice}
use app_opt_r_plus.Tuning.Apply.{WarnState, push_warning, warn_once, warn_clear}

-- At most twenty warnings, and no more warnings than keys.
pub record IsWarnState (st : WarnState) : Type 0 where
  pub few : length st.warnings ≤ 20
  pub per_key : length st.warnings ≤ length st.seen
  pub once : no_twice st.seen ≡ true

length-drop_one : (xs : List Text) (n : ℕ) → length xs ≡ suc n → length (drop 1 xs) ≡ n
length-drop_one [] n h = absurd (omega (arith, h))
length-drop_one (x ∷ xs) n h = omega (arith, h)

push_warning-le :
    (m : Text) (ws : List Text) (n : ℕ)
    → length ws ≤ 20
    → length ws ≤ n
    → (length (push_warning m ws) ≤ 20) × (length (push_warning m ws) ≤ suc n)
push_warning-le m ws n h k =
    let l : length (ws ++ m ∷ []) ≡ suc (length ws) = length-append ws (m ∷ []) ∙ omega arith in
    let d = length-drop_one (ws ++ m ∷ []) (length ws) l in
    if_cases (λ (xs : List Text). (length xs ≤ 20) × (length xs ≤ suc n))
      (ltb 20 (length (ws ++ m ∷ []))) (λ e. (omega (arith, d, h), omega (arith, d, k)))
      (λ e. (ground (arith, e), omega (arith, l, k)))

-- The warnings that a run of `warn_once` leaves, from none.
abbrev pub warn_all : List (Text × Text) → WarnState → WarnState
warn_all [] st = st
warn_all ((key, message) ∷ ms) st = warn_all ms (warn_once key message st)

warn_once-IsWarnState :
    (key message : Text) (st : WarnState) → IsWarnState st → IsWarnState (warn_once key message st)
unfolding warn_once
warn_once-IsWarnState key message st v =
    if_cases IsWarnState (member key st.seen) (λ e. v)
      (λ e.
        let (few, per_key) = push_warning-le message st.warnings (length st.seen) v.few v.per_key in
        record { few = few; per_key = per_key; once = ground (arith, e, v.once) })

warn_once-seen :
    (key message : Text) (st : WarnState) → member key (warn_once key message st).seen ≡ true
unfolding warn_once member
warn_once-seen key message st =
    if_cases (λ (x : WarnState). member key x.seen ≡ true) (member key st.seen) (λ e. e)
      (λ e. ground (arith, text_eq_refl key))

-- Whatever is warned of, at most twenty warnings are kept, no more than there were different keys; and
-- to warn with the key that was the last changes nothing.
pub warn_all-IsWarnState :
    (ms : List (Text × Text)) (st : WarnState)
    → IsWarnState st
    → IsWarnState (warn_all ms st)
      × ((key message again : Text)
          → warn_once key again (warn_once key message (warn_all ms st))
            ≡ warn_once key message (warn_all ms st))
unfolding warn_once
warn_all-IsWarnState [] st v =
    (v, λ key message again. rw (warn_once-seen key message st, if◌then◌else◌) refl)
warn_all-IsWarnState ((k, m) ∷ ms) st v =
    warn_all-IsWarnState ms (warn_once k m st) (warn_once-IsWarnState k m st v)

pub warn_clear-IsWarnState : (st : WarnState) → IsWarnState (warn_clear st)
unfolding warn_clear
warn_clear-IsWarnState st = record { few = omega arith; per_key = omega arith; once = refl }
