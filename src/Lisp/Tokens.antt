-- ===== src/Lisp/Tokens.antt =====
-- packages/refactor-intelligence/src/scanner.ts: the tokens and diagnostics of `scanLisp`.
use emacs_llvm.Base.{
  ℕ, zero, suc, ◌+◌, Bool, true, false, ◌&&◌, Option, none, some, List, [], ◌∷◌, if◌then◌else◌,
  ◌==◌, length, take, all,
}
use emacs_llvm.Base.Bytes.{Text, is_digit}
use emacs_llvm.Lisp.Scanner.{
  Lexeme, blank, comment, discard, reader, delimiter, atom, stray, block_comment, text, next_piece,
  span,
}

pub data TokenType : Type 0 where
  comment_token string_token reader_discard reader_token delimiter_token number symbol : TokenType

pub record Position : Type 0 where
  pub line : ℕ
  pub column : ℕ

pub record Token : Type 0 where
  pub type : TokenType
  pub value : Text
  pub start : ℕ
  pub stop : ℕ
  pub place : Option Position

pub data DiagnosticCode : Type 0 where
  unterminated_block_comment unterminated_string : DiagnosticCode
  reader_discard_requires_conservative_analysis : DiagnosticCode
  unmatched_closing_delimiter mismatched_closing_delimiter unclosed_opening_delimiter :
      DiagnosticCode

pub record Diagnostic : Type 0 where
  pub code : DiagnosticCode
  pub offset : ℕ

position_from : Position → Text → Position
position_from p [] = p
position_from p (c ∷ cs) =
    position_from
      (if c == 10
        then record { line = suc p.line; column = 0 }
        else record { line = p.line; column = suc p.column })
      cs

unfoldable pub position_for : Text → ℕ → Position
unfolding position_from
position_for source offset = position_from (record { line = 1; column = 0 }) (take offset source)

abbrev unsigned : Text → Text
unsigned [] = []
unsigned (c ∷ cs) = if c == b'+' then cs else if c == b'-' then cs else c ∷ cs

-- `\.\d+` or nothing more than `\.\d*`, behind the digits before the dot.
fraction : Bool → Text → Bool
fraction whole [] = whole
fraction whole (c ∷ []) = whole && c == b'.'
fraction whole (c ∷ d ∷ ds) = c == b'.' && all is_digit (d ∷ ds)

abbrev is_nonempty : Text → Bool
is_nonempty [] = false
is_nonempty (c ∷ cs) = true

-- `/^[+-]?(?:\d+(?:\.\d*)?|\.\d+)$/u`
unfoldable pub is_numeric : Text → Bool
unfolding fraction
is_numeric value =
    let (digits, more) = span is_digit (unsigned value) in fraction (is_nonempty digits) more

abbrev pub Scan : Type 0
Scan = List Token × List Diagnostic

abbrev emit : Token → Scan → Scan
emit token (tokens, diagnostics) = (token ∷ tokens, diagnostics)

abbrev pub report : DiagnosticCode → ℕ → Scan → Scan
report code offset (tokens, diagnostics) =
    (tokens, record { code = code; offset = offset } ∷ diagnostics)

abbrev pub plain_token : TokenType → ℕ → Text → Token
plain_token type start value = record {
  type = type;
  value = value;
  start = start;
  stop = start + length value;
  place = none;
}

abbrev placed_token : Text → ℕ → Text → Token
placed_token source start value = record {
  type = if is_numeric value then number else symbol;
  value = value;
  start = start;
  stop = start + length value;
  place = some (position_for source start);
}

abbrev pub trivia : Bool → Token → Scan → Scan
trivia include_trivia token scan = if include_trivia then emit token scan else scan

-- What a piece adds to the output, in front of that of the pieces behind it.
unfoldable pub add_piece : Bool → Text → ℕ → Lexeme → Text → Scan → Scan
add_piece trivial source start blank value rest = rest
add_piece trivial source start comment value rest =
    trivia trivial (plain_token comment_token start value) rest
add_piece trivial source start (block_comment closed) value rest =
    let out = trivia trivial (plain_token comment_token start value) rest in
    if closed then out else report unterminated_block_comment start out
add_piece trivial source start (text closed) value rest =
    let out = trivia trivial (plain_token string_token start value) rest in
    if closed then out else report unterminated_string start out
add_piece trivial source start discard value rest =
    emit (plain_token reader_discard start value)
      (report reader_discard_requires_conservative_analysis start rest)
add_piece trivial source start reader value rest = emit (plain_token reader_token start value) rest
add_piece trivial source start delimiter value rest =
    emit (plain_token delimiter_token start value) rest
add_piece trivial source start atom value rest = emit (placed_token source start value) rest
add_piece trivial source start stray value rest = rest

-- The loop; each round takes one code unit at least.
unfoldable pub scan_from : Bool → Text → ℕ → ℕ → Text → Scan
scan_from trivial source zero start cs = ([], [])
scan_from trivial source (suc fuel) start [] = ([], [])
scan_from trivial source (suc fuel) start (c ∷ cs) =
    let p = next_piece c cs in
    add_piece trivial source start p.lexeme p.taken
      (scan_from trivial source fuel (start + length p.taken) p.left)

unfoldable pub scan_lisp : Bool → Text → Scan
scan_lisp include_trivia source = scan_from include_trivia source (suc (length source)) 0 source
