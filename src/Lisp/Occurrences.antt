-- ===== src/Lisp/Occurrences.antt =====
-- packages/refactor-intelligence/src/scanner.ts: `symbolOccurrences`; `none` where it throws.
use emacs_llvm.Base.{Bool, true, false, ◌&&◌, Option, none, some, List, [], ◌∷◌, if◌then◌else◌}
use emacs_llvm.Base.Bytes.{Text, text_eq}
use emacs_llvm.Lisp.Tokens.{Token, TokenType, symbol, Diagnostic, scan_lisp}
use emacs_llvm.Lisp.Symbols.{validate_lisp_symbol}

abbrev is_symbol : TokenType → Bool
is_symbol symbol = true
is_symbol _ = false

abbrev pub occurs : Text → Token → Bool
occurs name t = is_symbol t.type && text_eq t.value name

unfoldable pub tokens_of : Text → List Token → List Token
tokens_of name [] = []
tokens_of name (t ∷ ts) = if occurs name t then t ∷ tokens_of name ts else tokens_of name ts

unfoldable pub symbol_occurrences : Text → Text → Option (List Token × List Diagnostic)
symbol_occurrences source name =
    let (tokens, diagnostics) = scan_lisp false source in
    if validate_lisp_symbol name then some (tokens_of name tokens, diagnostics) else none
