-- ===== src/Protocol/Diff/Hunks.antt =====
-- What a hunk asks of the original, and what it writes in its place.
use emacs_llvm.Base.{
  ℕ, suc, ◌+◌, ◌-◌, ◌≤◌, ◌≡◌, refl, sym, ap, ◌∙◌, true, ◌&&◌, not, List, [], ◌∷◌, ◌++◌, arith, ltb,
  ◌==◌, length, take, drop,
}
use emacs_llvm.Base.Bytes.{Text, text_eq→eq, text_eq_iff_refl}
use emacs_llvm.Protocol.Errors.{ok}
use emacs_llvm.Protocol.Errors.Laws.{>>=-eq-ok, ensure-eq-ok}
use emacs_llvm.Protocol.Diff.{
  HunkLine, context, add, remove, Hunk, Cursor, Progress, at_cursor, advance, written, passed,
  apply_lines, apply_hunk,
}

-- The lines that a hunk finds, and those that it leaves.
abbrev pub old_side : List HunkLine → List Text
old_side [] = []
old_side (context t ∷ ls) = t ∷ old_side ls
old_side (remove t ∷ ls) = t ∷ old_side ls
old_side (add t ∷ ls) = old_side ls

abbrev pub new_side : List HunkLine → List Text
new_side [] = []
new_side (context t ∷ ls) = t ∷ new_side ls
new_side (remove t ∷ ls) = new_side ls
new_side (add t ∷ ls) = t ∷ new_side ls

-- The outcome of the lines of a hunk that fit the original.
abbrev fitting : ℕ → List HunkLine → List Text → Progress
fitting index ls behind = record {
  output = new_side ls;
  cursor = record { index = index + length (old_side ls); ahead = behind };
  old_seen = length (old_side ls);
  new_seen = length (new_side ls);
}

fitting-suc :
    (index n : ℕ) (behind : List Text)
    → (let c : Cursor = record { index = suc index + n; ahead = behind } in c)
      ≡ record { index = index + suc n; ahead = behind }
fitting-suc index n behind = let e : suc index + n ≡ index + suc n = omega arith in rw e refl

-- The lines of a hunk that stand at the cursor are replaced by its new lines.
pub apply_lines-fitting :
    (index : ℕ) (ls : List HunkLine) (behind : List Text)
    → apply_lines (record { index = index; ahead = old_side ls ++ behind }) ls
      ≡ ok (fitting index ls behind)
unfolding apply_lines
apply_lines-fitting index [] behind = let e : index ≡ index + 0 = omega arith in rw (← e) refl
apply_lines-fitting index (context t ∷ ls) behind =
    rw
      (
        text_eq_iff_refl t,
        apply_lines-fitting (suc index) ls behind,
        fitting-suc index (length (old_side ls)) behind,
      )
      refl
apply_lines-fitting index (remove t ∷ ls) behind =
    rw
      (
        text_eq_iff_refl t,
        apply_lines-fitting (suc index) ls behind,
        fitting-suc index (length (old_side ls)) behind,
      )
      refl
apply_lines-fitting index (add t ∷ ls) behind = rw (apply_lines-fitting index ls behind) refl

at_cursor→eq : (ls : List Text) (t : Text) → at_cursor ls t ≡ true → ls ≡ t ∷ drop 1 ls
at_cursor→eq [] t h = cc
at_cursor→eq (l ∷ ls) t h = ap (λ u. u ∷ ls) (text_eq→eq l t h)

pub ok-injective {ℓ} : {A : Type ℓ} {a b : A} → ok a ≡ ok b → a ≡ b
ok-injective h = cc

abbrev finished : List Text → Cursor → ℕ → ℕ → Progress
finished output cursor old_seen new_seen = record {
  output = output;
  cursor = cursor;
  old_seen = old_seen;
  new_seen = new_seen;
}

-- The lines of a hunk are applied exactly where they stand at the cursor.
apply_lines_ok :
    (c : Cursor) (ls : List HunkLine) (p : Progress)
    → apply_lines c ls ≡ ok p
    → (behind : List Text) × (c.ahead ≡ old_side ls ++ behind) × (p ≡ fitting c.index ls behind)
unfolding apply_lines
apply_lines_ok c [] p h =
    let e : c.index ≡ c.index + 0 = omega arith in
    (
      c.ahead,
      refl,
      sym (ok-injective h) ∙ ap (λ n. finished [] (record { index = n; ahead = c.ahead }) 0 0) e,
    )
apply_lines_ok c (context t ∷ ls) p h =
    let (here, h') = ensure-eq-ok (at_cursor c.ahead t) _ _ _ _ h in
    let (q, deeper, e) = >>=-eq-ok (apply_lines (advance c) ls) _ h' in
    let (behind, whole, same) = apply_lines_ok (advance c) ls q deeper in
    (
      behind,
      at_cursor→eq c.ahead t here ∙ ap (◌∷◌ t) whole,
      sym (ok-injective e)
          ∙ ap (λ q. written t (passed q)) same
          ∙ ap
              (λ (k : Cursor).
                finished (t ∷ new_side ls) k (suc (length (old_side ls)))
                  (suc (length (new_side ls))))
              (fitting-suc c.index (length (old_side ls)) behind),
    )
apply_lines_ok c (remove t ∷ ls) p h =
    let (here, h') = ensure-eq-ok (at_cursor c.ahead t) _ _ _ _ h in
    let (q, deeper, e) = >>=-eq-ok (apply_lines (advance c) ls) _ h' in
    let (behind, whole, same) = apply_lines_ok (advance c) ls q deeper in
    (
      behind,
      at_cursor→eq c.ahead t here ∙ ap (◌∷◌ t) whole,
      sym (ok-injective e)
          ∙ ap passed same
          ∙ ap
              (λ (k : Cursor).
                finished (new_side ls) k (suc (length (old_side ls))) (length (new_side ls)))
              (fitting-suc c.index (length (old_side ls)) behind),
    )
apply_lines_ok c (add t ∷ ls) p h =
    let (q, deeper, e) = >>=-eq-ok (apply_lines c ls) _ h in
    let (behind, whole, same) = apply_lines_ok c ls q deeper in
    (behind, whole, sym (ok-injective e) ∙ ap (written t) same)

-- How a hunk lies in the lines ahead of a cursor.
pub record Lies (c : Cursor) (h : Hunk) (behind : List Text) : Type 0 where
  pub ordered : c.index ≤ h.old_start - 1
  pub whole : drop (h.old_start - 1 - c.index) c.ahead ≡ old_side h.lines ++ behind
  pub old_counted : length (old_side h.lines) ≡ h.old_count
  pub new_counted : length (new_side h.lines) ≡ h.new_count

-- The output is that which the hunks describe: the lines between them as they were, and in the
-- place of the old lines of each its new ones.
abbrev pub Patches : Cursor → List Hunk → List Text → Type 0
Patches c [] out = out ≡ c.ahead
Patches c (h ∷ hs) out =
    (behind : List Text) × (rest : List Text) × Lies c h behind
    × (out ≡ take (h.old_start - 1 - c.index) c.ahead ++ new_side h.lines ++ rest)
    × Patches (record { index = h.old_start - 1 + length (old_side h.lines); ahead = behind }) hs
        rest

not_before : (m n : ℕ) → not (ltb m n) ≡ true → n ≤ m
not_before m n h = ground arith

both_counted : (a b m n : ℕ) → (a == m && b == n) ≡ true → (a ≡ m) × (b ≡ n)
both_counted a b m n h = (ground arith, ground arith)

pub apply_hunk_ok :
    (c : Cursor) (h : Hunk) (r : List Text × Cursor)
    → apply_hunk c h ≡ ok r
    → (behind : List Text) × Lies c h behind
      × (r ≡ (
        take (h.old_start - 1 - c.index) c.ahead ++ new_side h.lines,
        record { index = h.old_start - 1 + length (old_side h.lines); ahead = behind },
      ))
unfolding apply_hunk
apply_hunk_ok c h r e =
    let target = h.old_start - 1 in
    let (order, e₁) = ensure-eq-ok (not (ltb target c.index)) _ _ _ _ e in
    let (p, applied, e₂) = >>=-eq-ok (apply_lines _ h.lines) _ e₁ in
    let (behind, whole, same) = apply_lines_ok _ h.lines p applied in
    let (counts, e₃) =
      ensure-eq-ok (p.old_seen == h.old_count && p.new_seen == h.new_count) _ _ _ _ e₂ in
    let full =
      both_counted (length (old_side h.lines)) (length (new_side h.lines)) h.old_count h.new_count (
        sym (ap (λ (q : Progress). q.old_seen == h.old_count && q.new_seen == h.new_count) same)
        ∙ counts) in
    (
      behind,
      record {
        ordered = not_before target c.index order;
        whole = whole;
        old_counted = full.0;
        new_counted = full.1;
      },
      sym (ok-injective e₃)
          ∙ ap (λ (q : Progress). (take (target - c.index) c.ahead ++ q.output, q.cursor)) same,
    )
