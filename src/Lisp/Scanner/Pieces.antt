-- ===== src/Lisp/Scanner/Pieces.antt =====
-- Each round of the scanner takes a piece off the front of the text, and never an empty one.
use emacs_llvm.Base.{
  ℕ, zero, suc, ◌≡◌, refl, ap, Bool, true, false, Option, none, some, [], ◌∷◌, ◌++◌, arith,
  if◌then◌else◌, ◌==◌, ◌&&◌, not,
}
use emacs_llvm.Base.Bytes.{Text}
use emacs_llvm.Lisp.Scanner.{
  is_white, is_punctuation, blank, delimiter, discard, reader, simple_piece, reader_piece,
  quoted_piece, code_piece, span, cut_after, skip_block_comment, skip_string, word, Piece, Lexeme,
  piece, next_piece, hash_piece, block_piece, atom_piece, string_piece, comment_piece, pair_piece,
  or_else,
}

span_whole : (p : ℕ → Bool) (cs : Text) → (span p cs).0 ++ (span p cs).1 ≡ cs
unfolding span
span_whole p [] = refl
span_whole p (c ∷ cs) = ground (arith, span_whole p cs)

skip_block_comment_whole :
    (depth : ℕ) (cs : Text)
    → (skip_block_comment depth cs).taken ++ (skip_block_comment depth cs).left ≡ cs
unfolding skip_block_comment
skip_block_comment_whole zero cs = refl
skip_block_comment_whole (suc depth) [] = refl
skip_block_comment_whole (suc depth) (c ∷ []) = refl
skip_block_comment_whole (suc depth) (c ∷ d ∷ cs) = ground (
  arith,
  skip_block_comment_whole (suc (suc depth)) cs,
  skip_block_comment_whole depth cs,
  skip_block_comment_whole (suc depth) (d ∷ cs),
)

skip_string_whole : (cs : Text) → (skip_string cs).taken ++ (skip_string cs).left ≡ cs
unfolding skip_string
skip_string_whole [] = refl
skip_string_whole (c ∷ []) = refl
skip_string_whole (c ∷ d ∷ cs) = ground (arith, skip_string_whole cs, skip_string_whole (d ∷ cs))

word_whole : (cs : Text) → (word cs).0 ++ (word cs).1 ≡ cs
unfolding word
word_whole [] = refl
word_whole (c ∷ cs) = ground (arith, word_whole cs)

-- A piece that begins with the first code unit, and leaves what it did not take.
abbrev Splits : ℕ → Text → Piece → Type 0
Splits c cs p = (more : Text) × (p.taken ≡ c ∷ more) × (p.taken ++ p.left ≡ c ∷ cs)

atom_piece-Splits :
    (c : ℕ) (cs : Text) (w : Text × Text) → w.0 ++ w.1 ≡ c ∷ cs → Splits c cs (atom_piece c cs w)
unfolding atom_piece
atom_piece-Splits c cs ([], left) h = ([], refl, refl)
atom_piece-Splits c cs (t ∷ taken, left) h = (taken, ground arith, h)

abbrev AllSplits : ℕ → Text → Option Piece → Type 0
AllSplits c cs none = Unit
AllSplits c cs (some p) = Splits c cs p

if_Splits :
    (c : ℕ) (cs : Text) (b : Bool) (p q : Piece)
    → Splits c cs p
    → Splits c cs q
    → Splits c cs (if b then p else q)
if_Splits c cs true p q h k = h
if_Splits c cs false p q h k = k

or_else-Splits :
    (c : ℕ) (cs : Text) (o : Option Piece) (q : Piece)
    → AllSplits c cs o
    → Splits c cs q
    → Splits c cs (or_else o q)
or_else-Splits c cs (some p) q h k = h
or_else-Splits c cs none q h k = k

pair_piece_splits :
    (lexeme : Lexeme) (a b c : ℕ) (cs : Text) → AllSplits c cs (pair_piece lexeme a b (c ∷ cs))
pair_piece_splits lexeme a b c [] = tt
pair_piece_splits lexeme a b c (d ∷ cs) = test (c == a && d == b)
  where
    test :
        (t : Bool) → AllSplits c (d ∷ cs) (if t then some (piece lexeme (c ∷ d ∷ []) cs) else none)
    test true = (d ∷ [], refl, refl)
    test false = tt

hash_piece_splits : (c : ℕ) (cs : Text) → AllSplits c cs (hash_piece c cs)
unfolding hash_piece block_piece
hash_piece_splits c [] = tt
hash_piece_splits c (d ∷ cs) = test (c == b'#' && d == b'|')
  where
    test :
        (t : Bool)
        → AllSplits c (d ∷ cs) (
            if t then some (block_piece (cut_after (d ∷ []) (skip_block_comment 1 cs)) c) else none)
    test true = (
      d ∷ (skip_block_comment 1 cs).taken,
      refl,
      ap (λ t. c ∷ d ∷ t) (skip_block_comment_whole 1 cs),
    )
    test false = tt

simple_piece-Splits : (c : ℕ) (cs : Text) → Splits c cs (simple_piece c cs)
unfolding simple_piece
simple_piece-Splits c cs =
    if_Splits c cs (is_punctuation c) (piece delimiter (c ∷ []) cs)
      (atom_piece c cs (word (c ∷ cs))) ([], refl, refl)
      (atom_piece-Splits c cs (word (c ∷ cs)) (word_whole (c ∷ cs)))

reader_piece-Splits : (c : ℕ) (cs : Text) → Splits c cs (reader_piece c cs)
unfolding reader_piece
reader_piece-Splits c cs =
    or_else-Splits c cs (pair_piece reader b',' b'@' (c ∷ cs))
      (or_else (pair_piece reader b'#' b'\'' (c ∷ cs)) (simple_piece c cs))
      (pair_piece_splits reader b',' b'@' c cs)
      (or_else-Splits c cs (pair_piece reader b'#' b'\'' (c ∷ cs)) (simple_piece c cs)
        (pair_piece_splits reader b'#' b'\'' c cs) (simple_piece-Splits c cs))

quoted_piece-Splits : (c : ℕ) (cs : Text) → Splits c cs (quoted_piece c cs)
unfolding quoted_piece string_piece
quoted_piece-Splits c cs =
    if_Splits c cs (c == b'"') (string_piece c cs)
      (or_else (pair_piece discard b'#' b'_' (c ∷ cs)) (reader_piece c cs))
      ((skip_string cs).taken, refl, ap (◌∷◌ c) (skip_string_whole cs))
      (or_else-Splits c cs (pair_piece discard b'#' b'_' (c ∷ cs)) (reader_piece c cs)
        (pair_piece_splits discard b'#' b'_' c cs) (reader_piece-Splits c cs))

code_piece-Splits : (c : ℕ) (cs : Text) → Splits c cs (code_piece c cs)
unfolding code_piece comment_piece
code_piece-Splits c cs =
    let line = span (λ d. not (d == 10)) cs in
    if_Splits c cs (c == b';') (comment_piece c cs) (or_else (hash_piece c cs) (quoted_piece c cs))
      (line.0, refl, ap (◌∷◌ c) (span_whole (λ d. not (d == 10)) cs))
      (or_else-Splits c cs (hash_piece c cs) (quoted_piece c cs) (hash_piece_splits c cs)
        (quoted_piece-Splits c cs))

-- The piece is not empty, and with what is left it makes up the text.
pub next_piece-Splits : (c : ℕ) (cs : Text) → Splits c cs (next_piece c cs)
unfolding next_piece
next_piece-Splits c cs =
    if_Splits c cs (is_white c) (piece blank (c ∷ []) cs) (code_piece c cs) ([], refl, refl)
      (code_piece-Splits c cs)
