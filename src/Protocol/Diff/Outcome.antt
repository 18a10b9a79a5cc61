-- ===== src/Protocol/Diff/Outcome.antt =====
-- What a patch makes of the original, and when it is refused.
use emacs_llvm.Base.{
  ℕ, suc, ◌+◌, ◌-◌, ◌≤◌, ◌≡◌, ◌↔◌, refl, sym, ap, ◌∙◌, true, false, ◌&&◌, List, [], ◌∷◌, ◌++◌,
  append_assoc, arith, ltb, ◌==◌, length, take, drop,
}
use emacs_llvm.Base.Bytes.{Text}
use emacs_llvm.Protocol.Errors.{ok}
use emacs_llvm.Protocol.Errors.Laws.{>>=-eq-ok}
use emacs_llvm.Protocol.Diff.{add, Hunk, Cursor, apply_hunk, apply_hunks}
use emacs_llvm.Protocol.Diff.Hunks.{
  old_side, new_side, Lies, Patches, apply_hunk_ok, apply_lines-fitting, ok-injective,
}

-- What the turn of a hunk that lies where it says returns.
abbrev placed : Cursor → Hunk → List Text → List Text × Cursor
placed c h behind = (
  take (h.old_start - 1 - c.index) c.ahead ++ new_side h.lines,
  record { index = h.old_start - 1 + length (old_side h.lines); ahead = behind },
)

counts_match : (a b m n : ℕ) → a ≡ m → b ≡ n → (a == m && b == n) ≡ true
counts_match a b m n h k = ground arith

not_out_of_order : (m n : ℕ) → n ≤ m → ltb m n ≡ false
not_out_of_order m n h = ground arith

apply_hunk-placed :
    (c : Cursor) (h : Hunk) (behind : List Text)
    → Lies c h behind
    → apply_hunk c h ≡ ok (placed c h behind)
unfolding apply_hunk
apply_hunk-placed c h behind l =
    rw
      (
        not_out_of_order (h.old_start - 1) c.index l.ordered,
        l.whole,
        apply_lines-fitting (h.old_start - 1) h.lines behind,
        counts_match (length (old_side h.lines)) (length (new_side h.lines)) h.old_count h.new_count
            l.old_counted l.new_counted,
      )
      refl

-- A patch is applied, and gives a text, exactly if its hunks lie in the original one behind the
-- other where they say, with the counts they say; the text is then the original with the old lines
-- of each hunk replaced by its new ones.
pub apply_hunks_iff :
    (c : Cursor) (hs : List Hunk) (out : List Text) → (apply_hunks c hs ≡ ok out) ↔ Patches c hs out
unfolding apply_hunks
apply_hunks_iff c [] out = (λ e. sym (ok-injective e), λ e. ap ok (sym e))
apply_hunks_iff c (h ∷ hs) out = (
  λ e.
      let (r, first, e₁) = >>=-eq-ok (apply_hunk c h) _ e in
      let (rest, later, e₂) = >>=-eq-ok (apply_hunks r.1 hs) _ e₁ in
      let (behind, lies, same) = apply_hunk_ok c h r first in
      (
        behind,
        rest,
        lies,
        sym (ok-injective e₂) ∙ ap (λ (q : List Text × Cursor). q.0 ++ rest) same,
        (apply_hunks_iff (placed c h behind).1 hs rest).0
            (ap (λ (q : List Text × Cursor). apply_hunks q.1 hs) (sym same) ∙ later),
      ),
  λ (behind, rest, lies, whole, later).
      let tail = (apply_hunks_iff (placed c h behind).1 hs rest).1 later in
      rw (apply_hunk-placed c h behind lies, tail) (ap ok (sym whole)),
)

-- An insertion at line n of the original, as a hunk without old lines, is written in front of that
-- line, not behind it.
pub apply_hunks_insertion :
    (n : ℕ) (text : Text) (original : List Text)
    → apply_hunks
        (record { index = 0; ahead = original })
        (record {
          old_start = suc n;
          old_count = 0;
          new_start = suc (suc n);
          new_count = 1;
          lines = add text ∷ [];
        }
          ∷ [])
      ≡ ok (take n original ++ text ∷ drop n original)
apply_hunks_insertion n text original =
    let c : Cursor = record { index = 0; ahead = original } in
    let e : suc n - 1 - 0 ≡ n = omega arith in
    (apply_hunks_iff c _ _).1 (
      drop n original,
      drop n original,
      record {
        ordered = omega arith;
        whole = ap (λ k. drop k original) e;
        old_counted = refl;
        new_counted = refl;
      },
      rw e (sym (append_assoc (take n original) (text ∷ []) (drop n original))),
      refl,
    )
