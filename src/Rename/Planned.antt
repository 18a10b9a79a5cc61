-- ===== src/Rename/Planned.antt =====
-- The edits that a plan is made of fit the text that they were made from, pass the validation, and
-- are all applied.
use emacs_llvm.Base.{
  ℕ, ◌+◌, ◌≤◌, ◌<◌, ◌≡◌, ◌≢◌, refl, sym, ap, subst, ◌∙◌, map, some, String, true, false, List, [],
  ◌∷◌, ◌++◌, append_assoc, arith, le→leb, lt→ltb, length, length-append, Bool-cases, inl, inr,
  eq_refl, All,
}
use emacs_llvm.Base.Bytes.{Text, text_eq, text_eq_iff_refl, text_eq→eq}
use emacs_llvm.Lisp.Tokens.{Token, scan_lisp}
use emacs_llvm.Lisp.Symbols.{validate_lisp_symbol}
use emacs_llvm.Lisp.Occurrences.{occurs, tokens_of, symbol_occurrences}
use emacs_llvm.Lisp.Slices.{Slices, scan_lisp-Slices}
use emacs_llvm.Rename.{
  Edit, PlannedFile, done, edit_of, occurrences, edits_for, validate_edits, apply_edits,
}
use emacs_llvm.Rename.Forward.{Fits, forward, replace_each_lem}

-- Text in front of the first edit makes its gap longer.
Fits-append :
    (offset offset' : ℕ) (front cs : Text) (es : List Edit)
    → offset' ≡ offset + length front
    → Fits offset' cs es
    → Fits offset (front ++ cs) es
Fits-append offset offset' front cs [] h f = tt
Fits-append offset offset' front cs (e ∷ es) h (gap, tail, whole, full, start, stop, rest) = (
  front ++ gap,
  tail,
  ap (◌++◌ front) whole ∙ simp append_assoc,
  full,
  omega (arith, length-append front gap),
  stop,
  rest,
)

value_eq : (old_symbol : Text) (t : Token) → occurs old_symbol t ≡ true → t.value ≡ old_symbol
value_eq old_symbol t h = text_eq→eq t.value old_symbol (ground arith)

occurrences-Fits :
    (old_symbol new_symbol : Text) (offset : ℕ) (cs : Text) (ts : List Token)
    → Slices offset cs ts
    → Fits offset cs (occurrences old_symbol new_symbol ts)
unfolding occurrences
occurrences-Fits old_symbol new_symbol offset cs [] h = tt
occurrences-Fits old_symbol new_symbol offset cs (t ∷ ts)
      (gap, tail, whole, full, start, stop, rest) =
    let ih = occurrences-Fits old_symbol new_symbol t.stop tail ts rest in
    elim (Bool-cases (occurs old_symbol t)) [
      | inl hit ↦
          let same = value_eq old_symbol t hit in
          rw hit (
            gap,
            tail,
            whole ∙ ap (λ v. gap ++ v ++ tail) same,
            λ e. full (same ∙ e),
            start,
            omega (arith, ap length same),
            ih,
          )
      | inr miss ↦ rw miss (
          subst (λ u. Fits offset u (occurrences old_symbol new_symbol ts)) (sym whole)
            (Fits-append offset t.stop (gap ++ t.value) tail (occurrences old_symbol new_symbol ts)
              (omega (arith, length-append gap t.value)) ih))
    ]

pub edits_for-Fits :
    (content old_symbol new_symbol : Text)
    → Fits 0 content (edits_for content old_symbol new_symbol).0
unfolding edits_for
edits_for-Fits content old_symbol new_symbol =
    occurrences-Fits old_symbol new_symbol 0 content (scan_lisp false content).0
      (scan_lisp-Slices false content)

-- A rename that is planned on a text and applied to a file with the same text succeeds, if the
-- file's hash and edits are those of the plan: it gives the one pass from the front that replaces
-- the planned edits and copies what lies between them.
pub apply_edits-edits_for :
    (sha256 : Text → String) (file : PlannedFile) (content old_symbol new_symbol : Text)
    → file.sha256 ≡ sha256 content
    → file.edits ≡ (edits_for content old_symbol new_symbol).0
    → apply_edits sha256 content file
      ≡ done (forward 0 content (edits_for content old_symbol new_symbol).0)
unfolding apply_edits
apply_edits-edits_for sha256 file content old_symbol new_symbol same edits =
    rw (same, eq_refl (sha256 content), edits)
      (replace_each_lem content (edits_for content old_symbol new_symbol).0
        (edits_for-Fits content old_symbol new_symbol))

abbrev Matches : Text → Text → List Edit → Type 0
Matches old_symbol new_symbol es =
    All (λ e. (e.old_text ≡ old_symbol) × (e.new_text ≡ new_symbol)) es

occurrences-Matches :
    (old_symbol new_symbol : Text) (ts : List Token)
    → Matches old_symbol new_symbol (occurrences old_symbol new_symbol ts)
unfolding occurrences
occurrences-Matches old_symbol new_symbol [] = tt
occurrences-Matches old_symbol new_symbol (t ∷ ts) =
    let ih = occurrences-Matches old_symbol new_symbol ts in
    elim (Bool-cases (occurs old_symbol t)) [
      | inl hit ↦ rw hit ((refl, refl), ih)
      | inr miss ↦ rw miss ih
    ]

nonempty_length : (cs : Text) → cs ≢ [] → 0 < length cs
nonempty_length [] h = absurd (h refl)
nonempty_length (c ∷ cs) h = omega arith

validate_fitting :
    (old_symbol new_symbol : Text) (previous offset : ℕ) (cs : Text) (es : List Edit)
    → previous ≤ offset
    → Fits offset cs es
    → Matches old_symbol new_symbol es
    → validate_edits old_symbol new_symbol previous es ≡ done tt
unfolding validate_edits
validate_fitting old_symbol new_symbol previous offset cs [] h f m = refl
validate_fitting old_symbol new_symbol previous offset cs (e ∷ es) h
      (gap, tail, whole, full, start, stop, rest) ((same_old, same_new), m) =
    let bounds = lt→ltb e.start e.stop (omega (arith, nonempty_length e.old_text full)) in
    let order = le→leb previous e.start (omega arith) in
    let old_ok : text_eq e.old_text old_symbol ≡ true = rw same_old (text_eq_iff_refl old_symbol) in
    let new_ok : text_eq e.new_text new_symbol ≡ true = rw same_new (text_eq_iff_refl new_symbol) in
    rw (bounds, order, old_ok, new_ok)
      (validate_fitting old_symbol new_symbol e.stop e.stop tail es (omega arith) rest m)

-- The edits that the plan of a file is made of pass the plan's validation.
pub validate_edits-edits_for :
    (content old_symbol new_symbol : Text)
    → validate_edits old_symbol new_symbol 0 (edits_for content old_symbol new_symbol).0 ≡ done tt
unfolding edits_for
validate_edits-edits_for content old_symbol new_symbol =
    validate_fitting old_symbol new_symbol 0 0 content (edits_for content old_symbol new_symbol).0
      (omega arith) (edits_for-Fits content old_symbol new_symbol)
      (occurrences-Matches old_symbol new_symbol (scan_lisp false content).0)

occurrences-tokens_of :
    (old_symbol new_symbol : Text) (ts : List Token)
    → occurrences old_symbol new_symbol ts
      ≡ map (edit_of old_symbol new_symbol) (tokens_of old_symbol ts)
unfolding occurrences tokens_of
occurrences-tokens_of old_symbol new_symbol [] = refl
occurrences-tokens_of old_symbol new_symbol (t ∷ ts) =
    let ih = occurrences-tokens_of old_symbol new_symbol ts in
    elim (Bool-cases (occurs old_symbol t)) [
      | inl hit ↦ rw (hit, ih) refl
      | inr miss ↦ rw (miss, ih) refl
    ]

-- For a symbol that is valid, the edits of a plan are those of its occurrences, one for each token
-- that `symbolOccurrences` finds and in their order.
edits_for-symbol_occurrences :
    (content old_symbol new_symbol : Text)
    → validate_lisp_symbol old_symbol ≡ true
    → (tokens : List Token) × (symbol_occurrences content old_symbol
        ≡ some (tokens, (edits_for content old_symbol new_symbol).1))
      × ((edits_for content old_symbol new_symbol).0 ≡ map (edit_of old_symbol new_symbol) tokens)
unfolding edits_for symbol_occurrences
edits_for-symbol_occurrences content old_symbol new_symbol valid = (
  tokens_of old_symbol (scan_lisp false content).0,
  rw valid refl,
  occurrences-tokens_of old_symbol new_symbol (scan_lisp false content).0,
)
