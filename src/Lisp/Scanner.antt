-- ===== src/Lisp/Scanner.antt =====
-- packages/refactor-intelligence/src/scanner.ts: `scanLisp`, over the code units of the text. One
-- round of its loop is `next_piece`, which takes a piece off the rest of the text.
pub mod Pieces
use emacs_llvm.Base.{
  ℕ, zero, suc, ◌+◌, Bool, true, false, not, ◌&&◌, ◌||◌, Option, none, some, List, [], ◌∷◌, ◌++◌,
  if◌then◌else◌, leb, ◌==◌, length, take, all, any,
}
use emacs_llvm.Base.Bytes.{Text, codes, strip_prefix, is_digit}

-- `/\s/u`: the white space and the line ends of Unicode.
abbrev pub is_white : ℕ → Bool
is_white c =
    (leb 9 c && leb c 13)
    || c == 32
    || c == 0xa0
    || c == 0x1680
    || (leb 0x2000 c && leb c 0x200a)
    || c == 0x2028
    || c == 0x2029
    || c == 0x202f
    || c == 0x205f
    || c == 0x3000
    || c == 0xfeff

abbrev pub is_delimiter : ℕ → Bool
is_delimiter c = any (λ d. d == c) (codes "()[]{}'`,\";")

-- `"()[]{}'`,".includes(ch)`
abbrev pub is_punctuation : ℕ → Bool
is_punctuation c = any (λ d. d == c) (codes "()[]{}'`,")

-- The longest prefix on which a test holds, and the rest.
unfoldable pub span : (ℕ → Bool) → Text → Text × Text
span p [] = ([], [])
span p (c ∷ cs) = let (taken, left) = span p cs in if p c then (c ∷ taken, left) else ([], c ∷ cs)

-- A text that is cut in two, and whether its end was found.
pub record Cut : Type 0 where
  pub taken : Text
  pub left : Text
  pub closed : Bool

abbrev pub cut_after : Text → Cut → Cut
cut_after more c = record c { taken = more ++ c.taken }

-- `skipBlockComment`, behind the `#|` that opens the comment.
unfoldable pub skip_block_comment : ℕ → Text → Cut
skip_block_comment zero cs = record { taken = []; left = cs; closed = true }
skip_block_comment (suc depth) [] = record { taken = []; left = []; closed = false }
skip_block_comment (suc depth) (c ∷ []) = record { taken = c ∷ []; left = []; closed = false }
skip_block_comment (suc depth) (c ∷ d ∷ cs) =
    let opened = cut_after (c ∷ d ∷ []) (skip_block_comment (suc (suc depth)) cs) in
    let ended = cut_after (c ∷ d ∷ []) (skip_block_comment depth cs) in
    let further = cut_after (c ∷ []) (skip_block_comment (suc depth) (d ∷ cs)) in
    if c == b'#' && d == b'|' then opened else if c == b'|' && d == b'#' then ended else further

-- The string literal behind its opening quote; a backslash takes the next code unit with it.
unfoldable pub skip_string : Text → Cut
skip_string [] = record { taken = []; left = []; closed = false }
skip_string (c ∷ []) = record { taken = c ∷ []; left = []; closed = c == b'"' }
skip_string (c ∷ d ∷ cs) =
    let escaped = cut_after (c ∷ d ∷ []) (skip_string cs) in
    let further = cut_after (c ∷ []) (skip_string (d ∷ cs)) in
    if c == b'\\'
    then escaped
    else if c == b'"'
    then record { taken = c ∷ []; left = d ∷ cs; closed = true }
    else further

abbrev starts_block : Text → Bool
starts_block cs = elim (strip_prefix (codes "#|") cs) [ none ↦ false | some r ↦ true ]

-- The inner loop that reads a symbol or a number.
unfoldable pub word : Text → Text × Text
word [] = ([], [])
word (c ∷ cs) =
    let (taken, left) = word cs in
    if is_white c || is_delimiter c || starts_block (c ∷ cs)
    then ([], c ∷ cs)
    else (c ∷ taken, left)

pub data Lexeme : Type 0 where
  blank comment discard reader delimiter atom stray : Lexeme
  block_comment text : Bool → Lexeme

pub record Piece : Type 0 where
  pub lexeme : Lexeme
  pub taken : Text
  pub left : Text

abbrev pub piece : Lexeme → Text → Text → Piece
piece lexeme taken left = record { lexeme = lexeme; taken = taken; left = left }

-- A piece of two code units, if the text begins with them.
abbrev pair_piece : Lexeme → ℕ → ℕ → Text → Option Piece
pair_piece lexeme a b [] = none
pair_piece lexeme a b (c ∷ []) = none
pair_piece lexeme a b (c ∷ d ∷ cs) =
    if c == a && d == b then some (piece lexeme (c ∷ d ∷ []) cs) else none

abbrev or_else : Option Piece → Piece → Piece
or_else (some p) q = p
or_else none q = q

block_piece : Cut → ℕ → Piece
block_piece c b = piece (block_comment c.closed) (b ∷ c.taken) c.left

-- The atom, or one code unit that nothing else takes.
atom_piece : ℕ → Text → Text × Text → Piece
atom_piece c cs ([], left) = piece stray (c ∷ []) cs
atom_piece c cs (t ∷ taken, left) = piece atom (t ∷ taken) left

hash_piece : ℕ → Text → Option Piece
unfolding block_piece
hash_piece c [] = none
hash_piece c (d ∷ cs) =
    if c == b'#' && d == b'|'
    then some (block_piece (cut_after (d ∷ []) (skip_block_comment 1 cs)) c)
    else none

string_piece : ℕ → Text → Piece
string_piece c cs = let s = skip_string cs in piece (text s.closed) (c ∷ s.taken) s.left

comment_piece : ℕ → Text → Piece
comment_piece c cs =
    let (taken, left) = span (λ d. not (d == 10)) cs in piece comment (c ∷ taken) left

simple_piece : ℕ → Text → Piece
simple_piece c cs =
    if is_punctuation c then piece delimiter (c ∷ []) cs else atom_piece c cs (word (c ∷ cs))

reader_piece : ℕ → Text → Piece
reader_piece c cs =
    or_else (pair_piece reader b',' b'@' (c ∷ cs))
      (or_else (pair_piece reader b'#' b'\'' (c ∷ cs)) (simple_piece c cs))

quoted_piece : ℕ → Text → Piece
quoted_piece c cs =
    if c == b'"'
    then string_piece c cs
    else or_else (pair_piece discard b'#' b'_' (c ∷ cs)) (reader_piece c cs)

code_piece : ℕ → Text → Piece
code_piece c cs =
    if c == b';' then comment_piece c cs else or_else (hash_piece c cs) (quoted_piece c cs)

unfoldable pub next_piece : ℕ → Text → Piece
unfolding hash_piece atom_piece string_piece comment_piece simple_piece reader_piece quoted_piece
    code_piece
next_piece c cs = if is_white c then piece blank (c ∷ []) cs else code_piece c cs
