-- ===== src/Daemon/Replace.antt =====
-- The replacement of a file by way of a second one, as `Settings::save` and `replace_and_save` do it.
use app_opt_r_plus.Prelude.{
  ◌≡◌, refl, ◌∙◌, ◌⊎◌, inl, inr, Bool, true, false, not, some, ◌++◌, if◌then◌else◌, Bool-cases,
}
use app_opt_r_plus.Prelude.Text.{Text, codes}
use app_opt_r_plus.RuleEdit.Ops.{FileSys}
use app_opt_r_plus.RuleEdit.Files.{IsFileSys, tmp_ne}
use app_opt_r_plus.Daemon.{replace_file}

-- What the answer says of the file.
abbrev pub Replaced : {W : Type 0} → FileSys W → Text → Text → W → Bool × W → Type 0
Replaced sys path text w (done, w') =
    ((done ≡ true) × (sys.read path w' ≡ some text))
    ⊎ ((done ≡ false) × (sys.read path w' ≡ sys.read path w))

-- On files as relied on, a replacement answers whether it was done: if so, the file has all of the new text, and if
-- not, it reads as before.
pub replace_file-Replaced :
    {W : Type 0} (sys : FileSys W)
    → IsFileSys sys
    → (path text : Text) (w : W) → Replaced sys path text w (replace_file sys path text w)
unfolding replace_file
replace_file-Replaced sys lawful path text w =
    let tmp = path ++ codes ".tmp" in
    let (wrote, w₁) = sys.write tmp text w in
    let other = lawful.write_other tmp path text w (tmp_ne path) in
    elim (Bool-cases wrote) [
      | inr e ↦ rw (e, not, if◌then◌else◌) (inr (refl, other))
      | inl e ↦ elim (Bool-cases (sys.rename tmp path w₁).0) [
        | inl m ↦
            rw (e, not, if◌then◌else◌)
              (inl (m, lawful.rename_read tmp path w₁ m ∙ lawful.write_read tmp text w e))
        | inr m ↦
            rw (e, not, if◌then◌else◌) (inr (m, lawful.rename_fail tmp path path w₁ m ∙ other))
      ]
    ]
