-- ===== src/RuleEdit/Join.antt =====
-- `lines.join("\n") + "\n"`, which `file_write` writes, read again by `str::lines`.
use app_opt_r_plus.Prelude.{
  ◌≡◌, ap, ◌∙◌, false, Option, none, some, List, [], ◌∷◌, ◌++◌, All, inl, inr,
}
use app_opt_r_plus.Prelude.Text.{Text, split, lines, contains, strip_last, line_parts}
use app_opt_r_plus.Prelude.Text.Split.{split-cons, split-append, split_absent}
use app_opt_r_plus.RuleEdit.Ops.{FileSys, join_lines, file_write, read_lines}
use app_opt_r_plus.RuleEdit.Files.{IsFileSys, file_write-Atomic}
use app_opt_r_plus.RuleEdit.{ok}

-- A text that is one line: no line feed, and no carriage return at its end.
pub record IsLine (l : Text) : Type 0 where
  pub no_feed : contains l 10 ≡ false
  pub no_return : strip_last 13 l ≡ none

parts-cons :
    (l h : Text) (ps ss : List Text)
    → IsLine l
    → ps ≡ h ∷ ss
    → line_parts (l ∷ ps) ≡ l ∷ line_parts ps
parts-cons l h [] ss v e = absurd (cc e)
parts-cons l h (p ∷ ps) ss v e =
    ap (λ (o : Option Text). (elim o [ none ↦ l | some r ↦ r ]) ∷ line_parts (p ∷ ps)) v.no_return

-- A line and its line feed are read as the line.
lines-feed : (l t : Text) → IsLine l → lines (l ++ (10 ∷ t)) ≡ l ∷ lines t
unfolding lines
lines-feed l t v =
    let (h, ss, e) = split-cons 10 t in
    ap line_parts
      (split-append 10 l t ∙ ap (λ (x : List Text). x ++ split 10 t) (split_absent 10 l v.no_feed))
    ∙ parts-cons l h (split 10 t) ss v e

lines-join_lines :
    (l : Text) (ls : List Text) → All IsLine (l ∷ ls) → lines (join_lines (l ∷ ls)) ≡ l ∷ ls
unfolding lines join_lines
lines-join_lines l [] v = lines-feed l [] v.0
lines-join_lines l (l' ∷ ls) v =
    lines-feed l (join_lines (l' ∷ ls)) v.0
    ∙ ap (λ (x : List Text). l ∷ x) (lines-join_lines l' ls v.1)

-- On a file system as relied on: once `file_write` has answered `ok`, reading the file gives the lines that were
-- written, if there is at least one and none has a line feed in it or a carriage return at its end.
pub read_lines-file_write :
    {W : Type 0} (sys : FileSys W) (lawful : IsFileSys sys) (path l : Text) (ls : List Text) (w : W)
    → All IsLine (l ∷ ls)
    → (file_write sys path (l ∷ ls) w).0 ≡ ok
    → read_lines sys path (file_write sys path (l ∷ ls) w).1 ≡ l ∷ ls
unfolding read_lines
read_lines-file_write sys lawful path l ls w v h =
    elim (file_write-Atomic sys lawful path (l ∷ ls) w) [
      | inl (e, r) ↦
          ap (λ (o : Option Text). elim o [ none ↦ [] | some text ↦ lines text ]) r
          ∙ lines-join_lines l ls v
      | inr (n, r) ↦ absurd (n h)
    ]
