-- ===== src/Rename/Create/Totals.antt =====
-- How many edits and bytes the planned files have, which sorting and pushing keep account of.
use emacs_llvm.Base.{
  ℕ, suc, ◌+◌, ◌≤◌, ◌≡◌, refl, List, [], ◌∷◌, ◌++◌, arith, inl, inr, Bool-cases, length,
  length-append, All, All-append,
}
use emacs_llvm.Rename.{Edit, PlannedFile}
use emacs_llvm.Rename.Create.{pushed_for, pushed, Host, insert_file, by_path}

abbrev pub edit_count : List PlannedFile → ℕ
edit_count [] = 0
edit_count (f ∷ fs) = length f.edits + edit_count fs

abbrev pub byte_count : List PlannedFile → ℕ
byte_count [] = 0
byte_count (f ∷ fs) = f.bytes + byte_count fs

edit_count-append :
    (fs : List PlannedFile) (f : PlannedFile)
    → edit_count (fs ++ f ∷ []) ≡ edit_count fs + length f.edits
edit_count-append [] f = omega arith
edit_count-append (g ∷ fs) f = omega (arith, edit_count-append fs f)

byte_count-append :
    (fs : List PlannedFile) (f : PlannedFile) → byte_count (fs ++ f ∷ []) ≡ byte_count fs + f.bytes
byte_count-append [] f = omega arith
byte_count-append (g ∷ fs) f = omega (arith, byte_count-append fs f)

-- What the file that was pushed, or left out for want of edits, adds.
pushed_for_lem :
    (es : List Edit) (fs : List PlannedFile) (f : PlannedFile)
    → length f.edits ≡ length es
    → (edit_count (pushed_for es fs f) ≡ edit_count fs + length f.edits)
      × (byte_count (pushed_for es fs f) ≤ byte_count fs + f.bytes)
      × (length (pushed_for es fs f) ≤ suc (length fs))
pushed_for_lem [] fs f e = omega arith
pushed_for_lem (e' ∷ es) fs f e =
    omega (arith, edit_count-append fs f, byte_count-append fs f, length-append {0} fs (f ∷ []))

pub pushed_lem :
    (fs : List PlannedFile) (f : PlannedFile)
    → (edit_count (pushed fs f) ≡ edit_count fs + length f.edits)
      × (byte_count (pushed fs f) ≤ byte_count fs + f.bytes)
      × (length (pushed fs f) ≤ suc (length fs))
pushed_lem fs f = pushed_for_lem f.edits fs f refl

module _ (host : Host) where
  insert_file_lem :
      (f : PlannedFile) (fs : List PlannedFile)
      → (edit_count (insert_file host f fs) ≡ length f.edits + edit_count fs)
        × (byte_count (insert_file host f fs) ≡ f.bytes + byte_count fs)
        × (length (insert_file host f fs) ≡ suc (length fs))
  insert_file_lem f [] = omega arith
  insert_file_lem f (g ∷ gs) = ground (arith, insert_file_lem f gs)

  pub by_path_lem :
      (fs : List PlannedFile)
      → (edit_count (by_path host fs) ≡ edit_count fs)
        × (byte_count (by_path host fs) ≡ byte_count fs)
        × (length (by_path host fs) ≡ length fs)
  unfolding by_path
  by_path_lem [] = omega arith
  by_path_lem (f ∷ fs) = omega (arith, by_path_lem fs, insert_file_lem f (by_path host fs))

  module _ (Q : PlannedFile → Type 0) where
    insert_file-All :
        (f : PlannedFile) (fs : List PlannedFile) → Q f → All Q fs → All Q (insert_file host f fs)
    insert_file-All f [] q h = (q, tt)
    insert_file-All f (g ∷ gs) q (r, h) = elim (Bool-cases (host.before f.path g.path)) [
      | inl first ↦ rw first (q, (r, h))
      | inr later ↦ rw later (r, insert_file-All f gs q h)
    ]

    pub by_path-All : (fs : List PlannedFile) → All Q fs → All Q (by_path host fs)
    unfolding by_path
    by_path-All [] h = h
    by_path-All (f ∷ fs) (q, h) = insert_file-All f (by_path host fs) q (by_path-All fs h)

module _ (Q : PlannedFile → Type 0) where
  pushed_for-All :
      (es : List Edit) (fs : List PlannedFile) (f : PlannedFile)
      → Q f
      → All Q fs
      → All Q (pushed_for es fs f)
  pushed_for-All [] fs f q h = h
  pushed_for-All (e ∷ es) fs f q h = All-append Q fs (f ∷ []) h (q, tt)

  pub pushed-All : (fs : List PlannedFile) (f : PlannedFile) → Q f → All Q fs → All Q (pushed fs f)
  pushed-All fs f q h = pushed_for-All f.edits fs f q h
