-- ===== src/Tests/Diff.antt =====
-- Unified diffs at concrete texts.
use emacs_llvm.Base.{◌≡◌, ◌↔◌, refl, List, [], ◌∷◌, ◌++◌, take, drop}
use emacs_llvm.Base.Bytes.{Text, codes, strip_prefix, text_eq}
use emacs_llvm.Protocol.Errors.{ok}
use emacs_llvm.Lisp.Scanner.{span}
use emacs_llvm.Protocol.Diff.{
  add, remove, Hunk, unix_lines, split_from, number, counted, hunk_header, read_line, parse_lines,
  parse_hunks, apply_lines, apply_hunk, apply_hunks, ends_with_newline, original_lines, join_lines,
  apply_unified_diff,
}
use emacs_llvm.Protocol.Diff.Hunks.{Patches}
use emacs_llvm.Protocol.Diff.Outcome.{apply_hunks_iff, apply_hunks_insertion}

diffs : Unit {0}
unfolding apply_unified_diff parse_hunks parse_lines hunk_header counted number read_line unix_lines
    split_from apply_lines apply_hunk apply_hunks ends_with_newline original_lines join_lines span
    strip_prefix text_eq
diffs = tt

abbrev lines : List Text → Text
lines [] = []
lines (l ∷ ls) = l ++ 10 ∷ lines ls

replaced :
    apply_unified_diff (lines (codes "a" ∷ codes "b" ∷ codes "c" ∷ [])) (
      lines (
        codes "--- x"
        ∷ codes "@@ -1,3 +1,3 @@"
        ∷ codes " a"
        ∷ codes "-b"
        ∷ codes "+B"
        ∷ codes " c"
        ∷ []))
    ≡ ok (lines (codes "a" ∷ codes "B" ∷ codes "c" ∷ []))
unfolding diffs
replaced = refl

abbrev two : List Text
two = codes "a" ∷ codes "b" ∷ []

abbrev change : Hunk
change = record {
  old_start = 2;
  old_count = 1;
  new_start = 2;
  new_count = 1;
  lines = remove (codes "b") ∷ add (codes "B") ∷ [];
}

apply_hunks_iff_example :
    (apply_hunks (record { index = 0; ahead = two }) (change ∷ [])
      ≡ ok (codes "a" ∷ codes "B" ∷ []))
    ↔ Patches (record { index = 0; ahead = two }) (change ∷ []) (codes "a" ∷ codes "B" ∷ [])
apply_hunks_iff_example =
    apply_hunks_iff (record { index = 0; ahead = two }) (change ∷ []) (codes "a" ∷ codes "B" ∷ [])

apply_hunks_insertion_example :
    apply_hunks
      (record { index = 0; ahead = two })
      (record {
        old_start = 2;
        old_count = 0;
        new_start = 3;
        new_count = 1;
        lines = add (codes "x") ∷ [];
      }
        ∷ [])
    ≡ ok (take 1 two ++ codes "x" ∷ drop 1 two)
apply_hunks_insertion_example = apply_hunks_insertion 1 (codes "x") two
