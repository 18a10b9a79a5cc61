-- ===== src/Lisp/Balance/Dyck.antt =====
-- The stack of the balance check decides the grammar of balanced brackets.
use emacs_llvm.Base.{
  ℕ, ◌≡◌, ◌↔◌, refl, sym, ap, ◌∙◌, Bool, true, false, ◌&&◌, List, [], ◌∷◌, ◌++◌, map, append_assoc,
  arith, Bool-cases, inl, inr, append-nil,
}
use emacs_llvm.Base.Bytes.{Text}
use emacs_llvm.Lisp.Tokens.{Diagnostic, scan_lisp}
use emacs_llvm.Lisp.Balance.{
  Shape, Bracket, opening, closing, same_shape, Mark, Open, marks, balance_from, is_empty,
  check_lisp_balance,
}

-- Nothing, or a pair of brackets of one shape round balanced brackets, and balanced ones behind it.
pub data Balanced : List Bracket → Type 0 where
  nothing : {bs : List Bracket} → bs ≡ [] → Balanced bs
  pair :
      {bs : List Bracket} (s : Shape) (inner outer : List Bracket)
      → Balanced inner
      → Balanced outer
      → bs ≡ opening s ∷ (inner ++ closing s ∷ outer)
      → Balanced bs

-- The check with its diagnostics forgotten.
clean : List Shape → List Bracket → Bool
clean [] [] = true
clean (t ∷ stack) [] = false
clean stack (opening s ∷ bs) = clean (s ∷ stack) bs
clean [] (closing s ∷ bs) = false
clean (t ∷ stack) (closing s ∷ bs) = same_shape t s && clean stack bs

abbrev brackets : List Mark → List Bracket
brackets = map λ m. m.bracket

abbrev shapes : List Open → List Shape
shapes = map λ o. o.shape

same_shape_refl : (s : Shape) → same_shape s s ≡ true
same_shape_refl s = ground arith

same_shape→eq : (s t : Shape) → same_shape s t ≡ true → s ≡ t
same_shape→eq s t h = ground arith

-- Balanced brackets leave the stack as it was.
clean-Balanced :
    {xs : List Bracket}
    → Balanced xs
    → (stack : List Shape) (ys : List Bracket) → clean stack (xs ++ ys) ≡ clean stack ys
unfolding clean
clean-Balanced (nothing e) stack ys = rw e refl
clean-Balanced (pair s inner outer b c e) [] ys =
    rw (e, append_assoc inner (closing s ∷ outer) ys)
      (clean-Balanced b (s ∷ []) (closing s ∷ outer ++ ys)
        ∙ rw (same_shape_refl s) (clean-Balanced c [] ys))
clean-Balanced (pair s inner outer b c e) (t ∷ stack) ys =
    rw (e, append_assoc inner (closing s ∷ outer) ys)
      (clean-Balanced b (s ∷ t ∷ stack) (closing s ∷ outer ++ ys)
        ∙ rw (same_shape_refl s) (clean-Balanced c (t ∷ stack) ys))

-- What closes the brackets of a stack, from the top down.
abbrev Closes : List Shape → List Bracket → Type 0
Closes [] bs = Balanced bs
Closes (s ∷ stack) bs =
    (inner : List Bracket) × (outer : List Bracket) × (bs ≡ inner ++ closing s ∷ outer)
    × Balanced inner
    × Closes stack outer

opening-Closes :
    (s : Shape) (stack : List Shape) (bs : List Bracket)
    → Closes (s ∷ stack) bs
    → Closes stack (opening s ∷ bs)
opening-Closes s [] bs (inner, outer, e, b, c) = pair s inner outer b c (ap (◌∷◌ (opening s)) e)
opening-Closes s (t ∷ stack) bs (inner, outer, e, b, (inner', outer', e', b', c)) = (
  opening s ∷ (inner ++ closing s ∷ inner'),
  outer',
  ap (◌∷◌ (opening s)) (
      e
      ∙ ap (λ o. inner ++ closing s ∷ o) e'
      ∙ sym (append_assoc inner (closing s ∷ inner') (closing t ∷ outer'))),
  pair s inner inner' b b' refl,
  c,
)

clean-Closes : (stack : List Shape) (bs : List Bracket) → clean stack bs ≡ true → Closes stack bs
unfolding clean
clean-Closes [] [] h = nothing refl
clean-Closes (t ∷ stack) [] h = cc
clean-Closes [] (opening s ∷ bs) h = opening-Closes s [] bs (clean-Closes (s ∷ []) bs h)
clean-Closes (t ∷ stack) (opening s ∷ bs) h =
    opening-Closes s (t ∷ stack) bs (clean-Closes (s ∷ t ∷ stack) bs h)
clean-Closes [] (closing s ∷ bs) h = cc
clean-Closes (t ∷ stack) (closing s ∷ bs) h =
    let same : same_shape t s ≡ true = ground arith in
    (
      [],
      bs,
      ap (λ u. closing u ∷ bs) (sym (same_shape→eq t s same)),
      nothing refl,
      clean-Closes stack bs (ground arith),
    )

clean_iff : (bs : List Bracket) → (clean [] bs ≡ true) ↔ Balanced bs
unfolding clean
clean_iff bs =
    (clean-Closes [] bs, λ b. ap (clean []) (sym (append-nil bs)) ∙ clean-Balanced b [] [])

-- The loop reports nothing exactly if the brackets close.
abbrev Agrees : List Mark → List Open → Type 0
Agrees ms stack = (balance_from stack ms ≡ []) ↔ (clean (shapes stack) (brackets ms) ≡ true)

step-Agrees :
    (b : Bracket) (offset : ℕ) (stack : List Open) (ms : List Mark)
    → ((stack' : List Open) → Agrees ms stack')
    → Agrees (record { bracket = b; offset = offset } ∷ ms) stack
unfolding clean balance_from
step-Agrees (opening s) offset [] ms ih = ih (record { shape = s; offset = offset } ∷ [])
step-Agrees (opening s) offset (o ∷ stack) ms ih =
    ih (record { shape = s; offset = offset } ∷ o ∷ stack)
step-Agrees (closing s) offset [] ms ih = (λ h. cc, λ h. cc)
step-Agrees (closing s) offset (o ∷ stack) ms ih = elim (Bool-cases (same_shape o.shape s)) [
  | inl same ↦ rw same (ih stack)
  | inr other ↦ rw other (λ h. cc, λ h. cc)
]

balance_from_iff : (stack : List Open) (ms : List Mark) → Agrees ms stack
unfolding clean balance_from
balance_from_iff [] [] = (λ h. refl, λ h. refl)
balance_from_iff (o ∷ stack) [] = (λ h. cc, λ h. cc)
balance_from_iff stack (m ∷ ms) =
    step-Agrees m.bracket m.offset stack ms (λ stack'. balance_from_iff stack' ms)

append-eq-nil : (xs ys : List Diagnostic) → xs ++ ys ≡ [] → (xs ≡ []) × (ys ≡ [])
append-eq-nil [] ys h = (refl, h)
append-eq-nil (x ∷ xs) ys h = cc

is_empty→eq : (ds : List Diagnostic) → is_empty ds ≡ true → ds ≡ []
is_empty→eq [] h = refl
is_empty→eq (d ∷ ds) h = cc

-- A text is reported as balanced exactly if its scan found nothing to report and its brackets,
-- outside comments and strings, are balanced by the grammar.
pub check_lisp_balance_iff :
    (source : Text)
    → ((check_lisp_balance source).balanced ≡ true) ↔ (
        ((scan_lisp false source).1 ≡ [])
        × Balanced (map (λ m. m.bracket) (marks (scan_lisp false source).0)))
unfolding check_lisp_balance
check_lisp_balance_iff source =
    let ms = marks (scan_lisp false source).0 in
    let found = (scan_lisp false source).1 in
    (
      λ h.
          let (none_found, none_left) =
            append-eq-nil found (balance_from [] ms)
              (is_empty→eq (found ++ balance_from [] ms) h) in
          (none_found, (clean_iff (brackets ms)).0 ((balance_from_iff [] ms).0 none_left)),
      λ (none_found, balanced).
          let none_left = (balance_from_iff [] ms).1 ((clean_iff (brackets ms)).1 balanced) in
          ap (λ ds. is_empty (ds ++ balance_from [] ms)) none_found ∙ ap is_empty none_left,
    )
