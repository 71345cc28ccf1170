-- ===== src/Tuning/Store/Saved.antt =====
-- AppOptR/src/tuning.rs: `replace_and_save` and then `load_file`.
use app_opt_r_plus.Prelude.{◌≡◌, refl, ap, ◌∙◌, ◌⊎◌, inl, inr, Bool, true, false, some, ◌++◌}
use app_opt_r_plus.Prelude.Text.{Text, codes}
use app_opt_r_plus.Json.{Value}
use app_opt_r_plus.RuleEdit.Files.{IsFileSys}
use app_opt_r_plus.Tuning.{TuningConfig, Outcome, ok, err, not_saved}
use app_opt_r_plus.Tuning.Parse.{config_from_value}
use app_opt_r_plus.Tuning.Print.{config_value}
use app_opt_r_plus.Tuning.Print.RoundTrip.{config_from_value-config_value}
use app_opt_r_plus.Tuning.Store.{
  replace_config, write_config, load_file, load_text, load_value, load_config_of, replace_and_save,
  saved,
}
use app_opt_r_plus.Daemon.{Globals, DaemonSys, IsJsonAt, replace_file}
use app_opt_r_plus.Daemon.Replace.{replace_file-Replaced}

-- Saved and in force, and then loaded as it is; or the error, with the profile in force and the file as they were.
abbrev pub Saved :
    {W : Type 0}
    → DaemonSys W
    → Text
    → TuningConfig
    → Globals × W
    → Outcome (Unit {0}) × (Globals × W)
    → Type 0
Saved sys path c s r =
    ((r.0 ≡ ok tt) × (r.1.0.tuning_config ≡ c) × ((load_file sys path r.1).0.tuning_config ≡ c))
    ⊎ ((r.0 ≡ err (not_saved path))
        × (r.1.0 ≡ s.0)
        × (sys.files.read path r.1.1 ≡ sys.files.read path s.1))

module _ {W : Type 0} (sys : DaemonSys W) (path : Text) (c : TuningConfig) where
  loaded_of :
      (g : Globals) (w : W)
      → config_from_value (config_value c) ≡ ok c
      → IsJsonAt sys (config_value c)
      → sys.files.read path w ≡ some (sys.print (config_value c) ++ codes "\n")
      → (load_file sys path (g, w)).0.tuning_config ≡ c
  unfolding load_file load_text load_value load_config_of replace_config
  loaded_of g w fixed json r =
      ap (λ o. (load_text sys path (g, w) o).0.tuning_config) r
      ∙ (ap (λ o. (load_value sys path g o).tuning_config) json
          ∙ ap (λ o. (load_config_of sys path g o).tuning_config) fixed)

  of_replaced :
      (g : Globals) (w w' : W) (done : Bool)
      → replace_file sys.files path (sys.print (config_value c) ++ codes "\n") w ≡ (done, w')
      → ((done ≡ true) × (sys.files.read path w' ≡ some (sys.print (config_value c) ++ codes "\n")))
        ⊎ ((done ≡ false) × (sys.files.read path w' ≡ sys.files.read path w))
      → config_from_value (config_value c) ≡ ok c
      → IsJsonAt sys (config_value c)
      → Saved sys path c (g, w) (replace_and_save sys path c (g, w))
  unfolding replace_and_save write_config saved replace_config
  of_replaced g w w' true e (inl (d, r)) fixed json =
      rw e (inl (refl, refl, loaded_of (replace_config c g) w' fixed json r))
  of_replaced g w w' true e (inr (d, r)) fixed json = absurd (cc d)
  of_replaced g w w' false e (inl (d, r)) fixed json = absurd (cc d)
  of_replaced g w w' false e (inr (d, r)) fixed json = rw e (inr (refl, refl, r))

-- On files and with serde_json as relied on, for a profile that the parser accepted from some value: once
-- `replace_and_save` answers that it is saved, the profile is in force and `load_file` puts the same profile in force;
-- where it answers the error, the statics and the file are as they were.
pub replace_and_save-Saved :
    {W : Type 0} (sys : DaemonSys W) (lawful : IsFileSys sys.files) (path : Text) (value : Value)
    (c : TuningConfig) (json : IsJsonAt sys (config_value c)) (g : Globals) (w : W)
    → config_from_value value ≡ ok c
    → Saved sys path c (g, w) (replace_and_save sys path c (g, w))
replace_and_save-Saved sys lawful path value c json g w h =
    let text = sys.print (config_value c) ++ codes "\n" in
    of_replaced sys path c g w _ _ refl (replace_file-Replaced sys.files lawful path text w)
      (config_from_value-config_value value c h) json
