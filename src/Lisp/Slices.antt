-- ===== src/Lisp/Slices.antt =====
-- Where the tokens of a scan lie in the text.
use emacs_llvm.Base.{
  ℕ, zero, suc, ◌+◌, ◌≤◌, ◌<◌, ◌≡◌, ◌≢◌, refl, sym, ap, ◌∙◌, Bool, true, false, List, [], ◌∷◌, ◌++◌,
  append_assoc, arith, length, length-append, if◌then◌else◌, subst,
}
use emacs_llvm.Base.Bytes.{Text}
use emacs_llvm.Lisp.Scanner.{
  Lexeme, blank, comment, discard, reader, delimiter, atom, stray, block_comment, text, next_piece,
}
use emacs_llvm.Lisp.Scanner.Pieces.{next_piece-Splits}
use emacs_llvm.Lisp.Tokens.{
  TokenType, comment_token, string_token, reader_discard, reader_token, delimiter_token,
  DiagnosticCode, unterminated_block_comment, unterminated_string, trivia, Token, Scan, report,
  add_piece, scan_from, scan_lisp, plain_token,
}

-- The tokens lie one behind the other in the text that stands at `offset`: each begins behind the
-- one before it, is not empty, and its value is what stands between its ends.
abbrev pub Slices : ℕ → Text → List Token → Type 0
Slices offset cs [] = Unit
Slices offset cs (t ∷ ts) =
    (gap : Text) × (tail : Text) × (cs ≡ gap ++ t.value ++ tail)
    × (t.value ≢ [])
    × (t.start ≡ offset + length gap)
    × (t.stop ≡ t.start + length t.value)
    × Slices t.stop tail ts

-- A text in front of the first token makes its gap longer.
Slices-append :
    (offset offset' : ℕ) (front cs : Text) (ts : List Token)
    → offset' ≡ offset + length front
    → Slices offset' cs ts
    → Slices offset (front ++ cs) ts
Slices-append offset offset' front cs [] e h = tt
Slices-append offset offset' front cs (t ∷ ts) e (gap, tail, whole, full, start, stop, rest) = (
  front ++ gap,
  tail,
  ap (◌++◌ front) whole ∙ simp append_assoc,
  full,
  omega (arith, length-append front gap),
  stop,
  rest,
)

nonempty : (c : ℕ) (more value : Text) → value ≡ c ∷ more → value ≢ []
nonempty c more value e e' = cc (sym e' ∙ e)

module _ (offset : ℕ) (value cs : Text) (rest : Scan) (full : value ≢ [])
    (h : Slices (offset + length value) cs rest.0) where
  skipped : Slices offset (value ++ cs) rest.0
  skipped = Slices-append offset (offset + length value) value cs rest.0 refl h

  emitted :
      (type : TokenType) → Slices offset (value ++ cs) (plain_token type offset value ∷ rest.0)
  emitted type = ([], cs, refl, full, omega arith, refl, h)

  trivia_kept :
      (trivial : Bool) (type : TokenType)
      → Slices offset (value ++ cs) (trivia trivial (plain_token type offset value) rest).0
  trivia_kept true type = emitted type
  trivia_kept false type = skipped

  reported :
      (closed : Bool) (code : DiagnosticCode) (out : Scan)
      → Slices offset (value ++ cs) out.0
      → Slices offset (value ++ cs) (if closed then out else report code offset out).0
  reported true code out k = k
  reported false code out k = k

  -- Whatever piece comes first, the tokens behind it keep their places.
  add_piece-Slices :
      (trivial : Bool) (source : Text) (lexeme : Lexeme)
      → Slices offset (value ++ cs) (add_piece trivial source offset lexeme value rest).0
  unfolding add_piece
  add_piece-Slices trivial source blank = skipped
  add_piece-Slices trivial source comment = trivia_kept trivial comment_token
  add_piece-Slices trivial source (block_comment closed) =
      reported closed unterminated_block_comment
        (trivia trivial (plain_token comment_token offset value) rest)
        (trivia_kept trivial comment_token)
  add_piece-Slices trivial source (text closed) =
      reported closed unterminated_string
        (trivia trivial (plain_token string_token offset value) rest)
        (trivia_kept trivial string_token)
  add_piece-Slices trivial source discard = emitted reader_discard
  add_piece-Slices trivial source reader = emitted reader_token
  add_piece-Slices trivial source delimiter = emitted delimiter_token
  add_piece-Slices trivial source atom = ([], cs, refl, full, omega arith, refl, h)
  add_piece-Slices trivial source stray = skipped

scan_from-Slices :
    (trivial : Bool) (source : Text) (fuel offset : ℕ) (cs : Text)
    → Slices offset cs (scan_from trivial source fuel offset cs).0
unfolding scan_from
scan_from-Slices trivial source zero offset cs = tt
scan_from-Slices trivial source (suc fuel) offset [] = tt
scan_from-Slices trivial source (suc fuel) offset (c ∷ cs) =
    let p = next_piece c cs in
    let (more, begins, whole) = next_piece-Splits c cs in
    subst (λ u. Slices offset u (scan_from trivial source (suc fuel) offset (c ∷ cs)).0) whole
      (add_piece-Slices offset p.taken p.left
        (scan_from trivial source fuel (offset + length p.taken) p.left)
        (nonempty c more p.taken begins)
        (scan_from-Slices trivial source fuel (offset + length p.taken) p.left) trivial source
        p.lexeme)

-- The tokens of a scan lie one behind the other in the text, none of them is empty, and the value
-- of each is what stands in the text between its ends.
pub scan_lisp-Slices :
    (include_trivia : Bool) (source : Text) → Slices 0 source (scan_lisp include_trivia source).0
unfolding scan_lisp
scan_lisp-Slices include_trivia source =
    scan_from-Slices include_trivia source (suc (length source)) 0 source

-- Each round of the scanner's loop takes a piece that is not empty off the front of what is left of
-- the text, whatever stands there, and leaves the rest: the loop ends after at most as many rounds as
-- the text has code units.
pub next_piece_progress :
    (c : ℕ) (cs : Text)
    → let p = next_piece c cs in
      (c ∷ cs ≡ p.taken ++ p.left) × (0 < length p.taken) × (length p.left < length (c ∷ cs))
next_piece_progress c cs =
    let p = next_piece c cs in
    let (more, begins, whole) = next_piece-Splits c cs in
    (
      sym whole,
      omega (arith, ap length begins),
      omega (arith, ap length whole, length-append p.taken p.left, ap length begins),
    )

-- The fuel is enough: any above the length of the text gives the same scan.
scan_from_fuel :
    (trivial : Bool) (source : Text) (f g offset : ℕ) (cs : Text)
    → length cs < f
    → length cs < g
    → scan_from trivial source f offset cs ≡ scan_from trivial source g offset cs
unfolding scan_from
scan_from_fuel trivial source zero g offset cs h k = elim h [ ]
scan_from_fuel trivial source (suc f) zero offset cs h k = elim k [ ]
scan_from_fuel trivial source (suc f) (suc g) offset [] h k = refl
scan_from_fuel trivial source (suc f) (suc g) offset (c ∷ cs) h k =
    let p = next_piece c cs in
    let (more, begins, whole) = next_piece-Splits c cs in
    let less : length p.left ≤ length cs =
      omega (arith, ap length whole, length-append p.taken p.left, ap length begins) in
    ap (add_piece trivial source offset p.lexeme p.taken) (
      scan_from_fuel trivial source f g (offset + length p.taken) p.left (omega arith)
        (omega arith))
