-- ===== src/Tests/Lisp.antt =====
-- The scanner and the balance check at concrete texts.
use emacs_llvm.Base.{◌++◌, ◌<◌, length, ◌≡◌, ◌↔◌, refl, true, false, List, [], ◌∷◌, map}
use emacs_llvm.Base.Bytes.{Text, codes, strip_prefix, text_eq}
use emacs_llvm.Lisp.Scanner.{next_piece, span, word, skip_string, skip_block_comment}
use emacs_llvm.Lisp.Tokens.{
  Token, add_piece, scan_from, scan_lisp, is_numeric, position_for, mismatched_closing_delimiter,
  unclosed_opening_delimiter, unterminated_string,
}
use emacs_llvm.Lisp.Balance.{marks, balance_from, check_lisp_balance}
use emacs_llvm.Lisp.Slices.{Slices, scan_lisp-Slices, next_piece_progress}
use emacs_llvm.Lisp.Balance.Dyck.{Balanced, check_lisp_balance_iff}

lisp : Unit {0}
unfolding check_lisp_balance marks balance_from scan_lisp scan_from add_piece next_piece span word
    skip_string skip_block_comment strip_prefix text_eq is_numeric position_for
lisp = tt

values : List Token → List Text
values = map λ t. t.value

-- A comment and a string are passed over.
words :
    values (scan_lisp false (codes "(foo \"a)b\" 12) ; x")).0
    ≡ codes "(" ∷ codes "foo" ∷ codes "12" ∷ codes ")" ∷ []
unfolding lisp values
words = refl

open_string :
    (scan_lisp false (codes "a \"b")).1 ≡ record { code = unterminated_string; offset = 2 } ∷ []
unfolding lisp
open_string = refl

nested : (check_lisp_balance (codes "([{}])")).balanced ≡ true
unfolding lisp
nested = refl

crossed :
    (check_lisp_balance (codes "[(]")).diagnostics
    ≡ record { code = mismatched_closing_delimiter; offset = 2 }
      ∷ record { code = unclosed_opening_delimiter; offset = 0 }
      ∷ []
unfolding lisp
crossed = refl

scan_lisp-Slices_example : Slices 0 (codes "(f x)") (scan_lisp false (codes "(f x)")).0
scan_lisp-Slices_example = scan_lisp-Slices false (codes "(f x)")

check_lisp_balance_iff_example : ((check_lisp_balance (codes "([{}])")).balanced ≡ true) ↔ (
    ((scan_lisp false (codes "([{}])")).1 ≡ [])
    × Balanced (map (λ m. m.bracket) (marks (scan_lisp false (codes "([{}])")).0)))
check_lisp_balance_iff_example = check_lisp_balance_iff (codes "([{}])")

next_piece_progress_example :
    let p = next_piece 40 (codes "f)") in
    (40 ∷ codes "f)" ≡ p.taken ++ p.left)
    × (0 < length p.taken)
    × (length p.left < length (40 ∷ codes "f)"))
next_piece_progress_example = next_piece_progress 40 (codes "f)")
