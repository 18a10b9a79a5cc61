-- ===== src/Rename/Forward.antt =====
-- Replacing from the last edit to the first is one pass from the front.
use emacs_llvm.Base.{
  ℕ, suc, ◌+◌, ◌-◌, ◌≤◌, ◌<◌, ◌≡◌, ◌≢◌, refl, sym, ap, ◌∙◌, List, [], ◌∷◌, ◌++◌, append_assoc,
  arith, leb, leb-eq-false_of_lt, length, length-append, take, drop, take-length, drop-length, All,
  Bool-cases, inl, inr,
}
use emacs_llvm.Base.Bytes.{Text, text_eq, text_eq_iff_refl}
use emacs_llvm.Rename.{Edit, Checked, done, ◌>>=◌, insert_edit, last_first, slice, replace_each}

-- The edits lie one behind the other in the text at `offset`, none of them is empty, and each finds
-- its old text.
abbrev pub Fits : ℕ → Text → List Edit → Type 0
Fits offset cs [] = Unit
Fits offset cs (e ∷ es) =
    (gap : Text) × (tail : Text) × (cs ≡ gap ++ e.old_text ++ tail)
    × (e.old_text ≢ [])
    × (e.start ≡ offset + length gap)
    × (e.stop ≡ e.start + length e.old_text)
    × Fits e.stop tail es

-- The reference: copy up to an edit, write its new text, and go on behind its old one.
unfoldable pub forward : ℕ → Text → List Edit → Text
forward offset cs [] = cs
forward offset cs (e ∷ es) =
    take (e.start - offset) cs ++ e.new_text ++ forward e.stop (drop (e.stop - offset) cs) es

abbrev IsLater : ℕ → Edit → Type 0
IsLater offset e = offset ≤ e.start

nonempty_length : (cs : Text) → cs ≢ [] → 0 < length cs
nonempty_length [] h = absurd (h refl)
nonempty_length (c ∷ cs) h = omega arith

-- An edit in front of all others is applied last.
insert_edit_last :
    (e : Edit) (xs : List Edit) → All (λ x. e.start < x.start) xs → insert_edit e xs ≡ xs ++ e ∷ []
insert_edit_last e [] h = refl
insert_edit_last e (x ∷ xs) (h, hs) =
    rw (leb-eq-false_of_lt x.start e.start h) (ap (◌∷◌ x) (insert_edit_last e xs hs))

insert_edit-All :
    (P : Edit → Type 0) (e : Edit) (xs : List Edit) → P e → All P xs → All P (insert_edit e xs)
insert_edit-All P e [] p h = (p, tt)
insert_edit-All P e (x ∷ xs) p (h, hs) = elim (Bool-cases (leb x.start e.start)) [
  | inl before ↦ rw before (p, (h, hs))
  | inr after ↦ rw after (h, insert_edit-All P e xs p hs)
]

last_first-All : (P : Edit → Type 0) (es : List Edit) → All P es → All P (last_first es)
unfolding last_first
last_first-All P [] h = tt
last_first-All P (e ∷ es) (h, hs) = insert_edit-All P e (last_first es) h (last_first-All P es hs)

Fits-IsLater :
    (n offset : ℕ) (cs : Text) (es : List Edit)
    → n ≤ offset
    → Fits offset cs es
    → All (IsLater n) es
Fits-IsLater n offset cs [] h f = tt
Fits-IsLater n offset cs (e ∷ es) h (gap, tail, whole, full, start, stop, rest) =
    (omega arith, Fits-IsLater n e.stop tail es (omega arith) rest)

last_first-cons :
    (offset : ℕ) (cs : Text) (e : Edit) (es : List Edit)
    → Fits offset cs (e ∷ es)
    → last_first (e ∷ es) ≡ last_first es ++ e ∷ []
unfolding last_first
last_first-cons offset cs e es (gap, tail, whole, full, start, stop, rest) =
    insert_edit_last e (last_first es) (
      last_first-All (λ x. e.start < x.start) es
        (Fits-IsLater (suc e.start) e.stop tail es (omega (arith, nonempty_length e.old_text full))
          rest))

replace_each-append :
    (cs : Text) (xs ys : List Edit)
    → replace_each cs (xs ++ ys) ≡ (replace_each cs xs >>= λ r. replace_each r ys)
unfolding replace_each
replace_each-append cs [] ys = refl
replace_each-append cs (x ∷ xs) ys =
    elim (Bool-cases (text_eq (slice x.start x.stop cs) x.old_text)) [
      | inl found ↦
          rw found (replace_each-append (take x.start cs ++ (x.new_text ++ drop x.stop cs)) xs ys)
      | inr stale ↦ rw stale refl
    ]

take_at : (n : ℕ) (xs ys : Text) → n ≡ length xs → take n (xs ++ ys) ≡ xs
take_at n xs ys e = ap (λ k. take k (xs ++ ys)) e ∙ take-length xs ys

drop_at : (n : ℕ) (xs ys : Text) → n ≡ length xs → drop n (xs ++ ys) ≡ ys
drop_at n xs ys e = ap (λ k. drop k (xs ++ ys)) e ∙ drop-length xs ys

-- An edit whose old text stands where it says is applied there.
replace_one :
    (e : Edit) (a b : Text)
    → e.start ≡ length a
    → e.stop ≡ e.start + length e.old_text
    → replace_each (a ++ e.old_text ++ b) (e ∷ []) ≡ done (a ++ (e.new_text ++ b))
unfolding replace_each
replace_one e a b start stop =
    let whole = append_assoc a e.old_text b in
    let behind = ap (drop e.start) whole ∙ drop_at e.start a (e.old_text ++ b) start in
    let found : slice e.start e.stop (a ++ e.old_text ++ b) ≡ e.old_text =
      ap (take (e.stop - e.start)) behind ∙ take_at (e.stop - e.start) e.old_text b (omega arith) in
    let before = ap (take e.start) whole ∙ take_at e.start a (e.old_text ++ b) start in
    let after : drop e.stop (a ++ e.old_text ++ b) ≡ b =
      drop_at e.stop (a ++ e.old_text) b (omega (arith, length-append a e.old_text)) in
    rw (found, text_eq_iff_refl e.old_text, before, after) refl

forward-cons :
    (offset : ℕ) (e : Edit) (es : List Edit) (gap tail : Text)
    → e.start ≡ offset + length gap
    → e.stop ≡ e.start + length e.old_text
    → forward offset (gap ++ e.old_text ++ tail) (e ∷ es)
      ≡ gap ++ e.new_text ++ forward e.stop tail es
unfolding forward
forward-cons offset e es gap tail start stop =
    let whole = append_assoc gap e.old_text tail in
    rw
      (
        ap (take (e.start - offset)) whole
            ∙ take_at (e.start - offset) gap (e.old_text ++ tail) (omega arith),
        drop_at (e.stop - offset) (gap ++ e.old_text) tail
            (omega (arith, length-append gap e.old_text)),
      )
      refl

-- With a text in front of which the edits do not reach.
replace_behind :
    (front : Text) (offset : ℕ) (cs : Text) (es : List Edit)
    → length front ≡ offset
    → Fits offset cs es
    → replace_each (front ++ cs) (last_first es) ≡ done (front ++ forward offset cs es)
replace_behind front offset cs [] h f = unfold replace_each last_first forward in refl
replace_behind front offset cs (e ∷ es) h (gap, tail, whole, full, start, stop, rest) =
    let later = forward e.stop tail es in
    let ih =
      replace_behind (front ++ gap ++ e.old_text) e.stop tail es
        (omega (arith, length-append (front ++ gap) e.old_text, length-append front gap)) rest in
    let regroup : front ++ cs ≡ (front ++ gap ++ e.old_text) ++ tail =
      ap (◌++◌ front) whole ∙ simp append_assoc in
    ap (replace_each (front ++ cs))
      (last_first-cons offset cs e es (gap, tail, whole, full, start, stop, rest))
    ∙ replace_each-append (front ++ cs) (last_first es) (e ∷ [])
    ∙ ap (λ c. replace_each c (last_first es) >>= λ r. replace_each r (e ∷ [])) regroup
    ∙ ap (λ (c : Checked Text). c >>= λ r. replace_each r (e ∷ [])) ih
    ∙ replace_one e (front ++ gap) later (omega (arith, length-append front gap)) stop
    ∙ ap done (
        simp append_assoc (
          ap (◌++◌ front) (
            sym (
              ap (λ c. forward offset c (e ∷ es)) whole
              ∙ forward-cons offset e es gap tail start stop
              ∙ append_assoc gap e.new_text later))))

-- Edits that fit a text are all applied, and give what one pass from the front gives.
pub replace_each_lem :
    (cs : Text) (es : List Edit)
    → Fits 0 cs es
    → replace_each cs (last_first es) ≡ done (forward 0 cs es)
replace_each_lem cs es f = replace_behind [] 0 cs es refl f
