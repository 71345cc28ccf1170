-- ===== src/Tests/Rule.antt =====
-- The theorems on the rule file, at concrete inputs.
use app_opt_r_plus.Prelude.{
  any, not, is_empty, ◌&&◌, ◌||◌, ◌≡◌, refl, none, some, All, List, [], ◌∷◌,
}
use app_opt_r_plus.Prelude.Int.{pos, negsuc}
use app_opt_r_plus.Prelude.Text.{
  member, Text, codes, trim, starts_with, text_eq, strip_last, trim_end, trim_start, is_whitespace,
  rsplit_once, contains,
}
use app_opt_r_plus.Config.Load.{
  make_config, load_config, load_lines, load_line, outer_line, owner_line, load_start,
}
use app_opt_r_plus.Config.Load.Names.{member-make_config}
use app_opt_r_plus.Config.Load.Rules.{IsRule, load_config-IsRule}
use app_opt_r_plus.Config.{
  parse_outer, strip_comment, comment_at, comment_from, split_single_line, close_like,
}
use app_opt_r_plus.RuleEdit.Clone.{CloneRules, clone_append}
use app_opt_r_plus.RuleEdit.Clone.Append.{load_cloned, clone_append-load_cloned}
use app_opt_r_plus.RuleEdit.Ops.{Edit, write, upsert_lines}
use app_opt_r_plus.RuleEdit.{target_scan}
use app_opt_r_plus.RuleEdit.Scan.{unterminated-load_lines}
use app_opt_r_plus.Tests.Data.{topo, quiet, rules_text, loaded, rules_of}

load_config-IsRule_example : All (IsRule topo) (rules_of loaded)
unfolding load_config
load_config-IsRule_example =
    load_config-IsRule quiet none topo (some (pos 7)) (some rules_text) [] [] (negsuc 0) 0 0 refl

member-make_config_example :
    (member (codes "com.b") (make_config topo (rules_of loaded) (codes "com.t" ∷ []) []).pkgs
      ≡ member (codes "com.b") (codes "com.t" ∷ [])
        || any (λ r. text_eq (codes "com.b") r.pkg) (rules_of loaded))
    × (member
          (codes "com.b")
          (make_config topo (rules_of loaded) (codes "com.t" ∷ []) []).has_thread_rules
        ≡ member (codes "com.b") []
          || any (λ r. not (is_empty r.thread) && text_eq (codes "com.b") r.pkg) (rules_of loaded))
member-make_config_example =
    member-make_config topo (rules_of loaded) (codes "com.t" ∷ []) [] (codes "com.b")

-- A comment, a blank line, and a block that is left open.
abbrev open_lines : List Text
open_lines =
    codes "# rules" ∷ [] ∷ codes "com.a=0-3" ∷ codes "  " ∷ codes "com.c {" ∷ codes "main=2" ∷ []

unterminated-load_lines_example :
    (target_scan open_lines (codes "com.c")).unterminated
    ≡ (load_lines quiet none topo open_lines (load_start, 0)).0.in_block
unfolding parse_outer trim strip_last trim_end trim_start is_whitespace rsplit_once starts_with
unterminated-load_lines_example =
    unterminated-load_lines quiet none topo 0 open_lines (codes "com.c")
      (refl, (refl, (refl, (refl, (refl, (refl, tt))))))

abbrev block_lines : List Text
block_lines = codes "# rules" ∷ codes "com.a {" ∷ codes "}" ∷ []

abbrev cloned_rules : CloneRules
cloned_rules = record {
  package_cpus = some (codes "0-3");
  threads = (codes "main", codes "2") ∷ [];
}

clone_append-load_cloned_example :
    load_lines quiet none topo
      (clone_append (codes "com.d") cloned_rules block_lines)
      (load_start, 0)
    ≡ load_cloned quiet none topo
        (codes "com.d")
        (some (codes "0-3"))
        ((codes "main", codes "2") ∷ [])
        (load_lines quiet none topo block_lines (load_start, 0))
unfolding load_lines load_line outer_line owner_line parse_outer strip_comment comment_at
    comment_from contains split_single_line close_like trim trim_start trim_end is_whitespace
    starts_with strip_last rsplit_once
clone_append-load_cloned_example =
    clone_append-load_cloned quiet none topo (codes "com.d") cloned_rules block_lines
      (load_start, 0) (record { plain = refl; ne_nil = refl })
      (record { plain = refl; ne_nil = refl })
      ((record { plain = refl; ne_nil = refl }, record { plain = refl; ne_nil = refl }), tt) refl
      refl

abbrev commented : Edit
commented = upsert_lines (codes "com.a") (codes "main") (codes "2") (codes "com.a=0-3 #note" ∷ [])

abbrev commented_lines : List Text
commented_lines = codes "com.a=0-3 #note {" ∷ codes "\tmain=2" ∷ codes "}" ∷ []

-- A thread rule added to a package line with a comment: the brace that should open the block ends up in
-- the comment.
upsert-commented : commented ≡ write commented_lines
unfolding upsert_lines trim trim_end trim_start is_whitespace starts_with parse_outer strip_last
    rsplit_once text_eq
upsert-commented = refl
