-- ===== src/Tests/Store.antt =====
-- The theorems on the editor's functions on the file, on a file system in memory.
use app_opt_r_plus.Prelude.{
  ◌≤◌, ◌≡◌, refl, Bool, true, false, Option, none, some, List, if◌then◌else◌, ◌⊎◌, length, [], ◌∷◌,
}
use app_opt_r_plus.Prelude.Text.{Text, codes, text_eq, contains, strip_last}
use app_opt_r_plus.Prelude.Text.Split.{text_eq_refl}
use app_opt_r_plus.RuleEdit.{ok, target_scan, any_line}
use app_opt_r_plus.RuleEdit.Lines.{normalize_singles}
use app_opt_r_plus.RuleEdit.Ops.{
  FileSys, read_lines, upsert_lines, delete_lines, rule_upsert, rule_delete, delete_pkg_lines,
  removed_edit, file_write,
}
use app_opt_r_plus.RuleEdit.Clone.{clone_prepare, rule_clone_check, rule_clone}
use app_opt_r_plus.RuleEdit.Files.{
  IsFileSys, Atomic, edit_lines, clone_lines, rule_upsert-Atomic, rule_delete-Atomic,
  rule_clone-Atomic,
}
use app_opt_r_plus.RuleEdit.Join.{read_lines-file_write}
use app_opt_r_plus.RuleEdit.Purge.{delete_pkg_lines-total}
use app_opt_r_plus.Tests.Data.{rules_text, rules_lines}

-- The texts of the files.
abbrev pub Store : Type 0
Store = Text → Option Text

abbrev moved : Text → Text → Store → Option Text → Bool × Store
moved p q w none = (false, w)
moved p q w (some text) =
    (true, λ r. if text_eq q r then some text else if text_eq p r then none else w r)

abbrev pub memory : FileSys Store
memory = record {
  read = λ p w. w p;
  write = λ p text w. (true, λ q. if text_eq p q then some text else w q);
  rename = λ p q w. moved p q w (w p);
}

moved_read :
    (p q : Text) (w : Store) (o : Option Text) → (moved p q w o).0 ≡ true → (moved p q w o).1 q ≡ o
moved_read p q w none h = absurd (cc h)
moved_read p q w (some text) h = rw (text_eq_refl q) refl

moved_fail :
    (p q r : Text) (w : Store) (o : Option Text)
    → (moved p q w o).0 ≡ false
    → (moved p q w o).1 r ≡ w r
moved_fail p q r w none h = refl
moved_fail p q r w (some text) h = absurd (cc h)

pub memory-IsFileSys : IsFileSys memory
memory-IsFileSys = record {
  write_other = λ p q text w n. rw n refl;
  write_read = λ p text w h. rw (text_eq_refl p) refl;
  rename_read = λ p q w h. moved_read p q w (w p) h;
  rename_fail = λ p q r w h. moved_fail p q r w (w p) h;
}

abbrev pub path : Text
path = codes "applist.conf"

abbrev pub store : Store
store p = if text_eq path p then some rules_text else none

read_lines-file_write_example :
    read_lines memory path
      (file_write memory path (codes "com.a=0-3" ∷ [] ∷ codes "com.b=1" ∷ []) store).1
    ≡ codes "com.a=0-3" ∷ [] ∷ codes "com.b=1" ∷ []
unfolding file_write contains strip_last text_eq
read_lines-file_write_example =
    read_lines-file_write memory memory-IsFileSys path (codes "com.a=0-3")
      ([] ∷ codes "com.b=1" ∷ []) store
      (
        record { no_feed = refl; no_return = refl },
        (
          record { no_feed = refl; no_return = refl },
          (record { no_feed = refl; no_return = refl }, tt),
        ),
      )
      refl

rule_upsert-Atomic_example :
    Atomic memory path
      (edit_lines
        (upsert_lines (codes "com.a") (codes "main") (codes "2") (read_lines memory path store)))
      store
      (rule_upsert memory path (codes "com.a") (codes "main") (codes "2") store)
rule_upsert-Atomic_example =
    rule_upsert-Atomic memory memory-IsFileSys path (codes "com.a") (codes "main") (codes "2") store

rule_delete-Atomic_example :
    Atomic memory path
      (edit_lines (delete_lines (codes "com.b") (codes "main") (read_lines memory path store)))
      store
      (rule_delete memory path (codes "com.b") (codes "main") store)
rule_delete-Atomic_example =
    rule_delete-Atomic memory memory-IsFileSys path (codes "com.b") (codes "main") store

rule_clone-Atomic_example :
    Atomic memory path
      (clone_lines
        (codes "com.d")
        (clone_prepare (codes "com.a") (codes "com.d") true false (read_lines memory path store)))
      store
      (rule_clone memory path (codes "com.a") (codes "com.d") true false store)
    × ((rule_clone_check memory path (codes "com.a") (codes "com.d") true false store ≡ ok)
        ⊎ (rule_clone memory path (codes "com.a") (codes "com.d") true false store ≡ (
          rule_clone_check memory path (codes "com.a") (codes "com.d") true false store,
          store,
        )))
rule_clone-Atomic_example =
    rule_clone-Atomic memory memory-IsFileSys path (codes "com.a") (codes "com.d") true false store

delete_pkg_lines-total_example :
    (r : List Text × Bool) × (delete_pkg_lines (codes "com.a") rules_lines ≡ removed_edit (some r))
    × (any_line (target_scan r.0 (codes "com.a")) ≡ false)
    × (length r.0 ≤ length (normalize_singles (codes "com.a") rules_lines))
delete_pkg_lines-total_example = delete_pkg_lines-total (codes "com.a") rules_lines
