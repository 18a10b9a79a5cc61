-- ===== src/Lisp/Balance.antt =====
-- packages/refactor-intelligence/src/scanner.ts: `checkLispBalance`. A diagnostic is its code and
-- its offset; the texts that some carry besides are those of the tokens at these offsets.
pub mod Dyck
use emacs_llvm.Base.{
  ℕ, Bool, true, false, ◌&&◌, Option, none, some, List, [], ◌∷◌, ◌++◌, map, if◌then◌else◌,
}
use emacs_llvm.Base.Bytes.{Text, codes, text_eq}
use emacs_llvm.Lisp.Tokens.{
  Token, TokenType, delimiter_token, Diagnostic, unmatched_closing_delimiter,
  mismatched_closing_delimiter, unclosed_opening_delimiter, scan_lisp,
}

pub data Shape : Type 0 where
  round square curly : Shape

pub data Bracket : Type 0 where
  opening closing : Shape → Bracket

abbrev pub same_shape : Shape → Shape → Bool
same_shape round round = true
same_shape square square = true
same_shape curly curly = true
same_shape _ _ = false

pub record Mark : Type 0 where
  pub bracket : Bracket
  pub offset : ℕ

abbrev is_delimiter_token : TokenType → Bool
is_delimiter_token delimiter_token = true
is_delimiter_token _ = false

-- The bracket that a value is; the other delimiters are none.
bracket_of : Text → Option Bracket
bracket_of value =
    if text_eq value (codes "(")
    then some (opening round)
    else if text_eq value (codes "[")
    then some (opening square)
    else if text_eq value (codes "{")
    then some (opening curly)
    else if text_eq value (codes ")")
    then some (closing round)
    else if text_eq value (codes "]")
    then some (closing square)
    else if text_eq value (codes "}")
    then some (closing curly)
    else none

add_mark : Option Bracket → ℕ → List Mark → List Mark
add_mark none offset marks = marks
add_mark (some bracket) offset marks = record { bracket = bracket; offset = offset } ∷ marks

-- The tokens that the loop does not pass over.
unfoldable pub marks : List Token → List Mark
unfolding bracket_of add_mark
marks [] = []
marks (token ∷ tokens) =
    let rest = marks tokens in
    if is_delimiter_token token.type
    then add_mark (bracket_of token.value) token.start rest
    else rest

-- An opening bracket on the stack.
pub record Open : Type 0 where
  pub shape : Shape
  pub offset : ℕ

abbrev unclosed : Open → Diagnostic
unclosed o = record { code = unclosed_opening_delimiter; offset = o.offset }

-- The loop, with the top of the stack at its head.
unfoldable pub balance_from : List Open → List Mark → List Diagnostic
balance_from stack [] = map unclosed stack
balance_from stack (mark ∷ rest) = elim mark.bracket [
  | opening s ↦ balance_from (record { shape = s; offset = mark.offset } ∷ stack) rest
  | closing s ↦ elim stack [
    | [] ↦
        record { code = unmatched_closing_delimiter; offset = mark.offset } ∷ balance_from [] rest
    | top ∷ below ↦
        let diagnostics = balance_from below rest in
        if same_shape top.shape s
        then diagnostics
        else record { code = mismatched_closing_delimiter; offset = mark.offset } ∷ diagnostics
  ]
]

pub record Balance : Type 0 where
  pub balanced : Bool
  pub diagnostics : List Diagnostic

abbrev pub is_empty : List Diagnostic → Bool
is_empty [] = true
is_empty (d ∷ ds) = false

unfoldable pub check_lisp_balance : Text → Balance
check_lisp_balance source =
    let (tokens, found) = scan_lisp false source in
    let diagnostics = found ++ balance_from [] (marks tokens) in
    record { balanced = is_empty diagnostics; diagnostics = diagnostics }
