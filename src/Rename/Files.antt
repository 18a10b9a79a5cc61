-- ===== src/Rename/Files.antt =====
-- Applying a plan to the contents of several files.
use emacs_llvm.Base.{
  ℕ, ◌≤◌, ◌<◌, ◌≡◌, ◌≢◌, ◌↔◌, refl, ◌∙◌, String, Bool, true, false, some, List, [], ◌∷◌, arith,
  Option-cases, inl, inr, eq_iff, eq_refl, All,
}
use emacs_llvm.Base.Bytes.{Text, text_eq, text_eq→eq, text_eq_iff_refl}
use emacs_llvm.Base.Map.{JsMap, get, set, get-set}
use emacs_llvm.Rename.{
  Edit, PlannedFile, RenamePlan, Checked, done, failed, ◌>>=◌, ◌>>◌, require, validate_edits,
  validate_files, validate_rename_plan, apply_edits, apply_files, apply_rename_plan_to_map,
}

-- The edits are in bounds, in order, do not overlap, and are those of the plan's symbols.
abbrev InOrder : Text → Text → ℕ → List Edit → Type 0
InOrder old_symbol new_symbol previous [] = Unit
InOrder old_symbol new_symbol previous (e ∷ es) =
    (previous ≤ e.start)
    × (e.start < e.stop)
    × (e.old_text ≡ old_symbol)
    × (e.new_text ≡ new_symbol)
    × InOrder old_symbol new_symbol e.stop es

require-done : (test : Bool) (message : String) → require test message ≡ done tt → test ≡ true
require-done true message h = refl
require-done false message h = cc

-- The loop over the edits of a file accepts exactly the edits in order.
validate_edits_iff :
    (old_symbol new_symbol : Text) (previous : ℕ) (es : List Edit)
    → (validate_edits old_symbol new_symbol previous es ≡ done tt)
      ↔ InOrder old_symbol new_symbol previous es
unfolding validate_edits
validate_edits_iff old_symbol new_symbol previous [] = (λ h. tt, λ h. refl)
validate_edits_iff old_symbol new_symbol previous (e ∷ es) =
    let ih = validate_edits_iff old_symbol new_symbol e.stop es in
    (
      λ h. (
        ground arith,
        ground arith,
        text_eq→eq e.old_text old_symbol (ground arith),
        text_eq→eq e.new_text new_symbol (ground arith),
        ih.0 (ground arith),
      ),
      λ (order, bounds, same_old, same_new, rest).
          let old_ok : text_eq e.old_text old_symbol ≡ true =
            rw same_old (text_eq_iff_refl old_symbol) in
          let new_ok : text_eq e.new_text new_symbol ≡ true =
            rw same_new (text_eq_iff_refl new_symbol) in
          let later = ih.1 rest in ground arith,
    )

module _ (sha256 : Text → String) where
  -- What one file's turn does.
  apply_files_found :
      (f : PlannedFile) (fs : List PlannedFile) (output after : JsMap Text)
      → apply_files sha256 (f ∷ fs) output ≡ done after
      → (content : Text) × (result : Text) × (get f.path output ≡ some content)
        × (apply_edits sha256 content f ≡ done result)
        × (apply_files sha256 fs (set f.path result output) ≡ done after)
  unfolding apply_files
  apply_files_found f fs output after h = elim (Option-cases (get f.path output)) [
    | inl missing ↦ cc (rw (missing, apply_files) at h)
    | inr (content, found) ↦
        let h' = rw (found, apply_files) at h in
        found_result content found (apply_edits sha256 content f) refl h'
  ]
    where
      found_result :
          (content : Text)
          → get f.path output ≡ some content
          → (r : Checked Text) → apply_edits sha256 content f ≡ r
          → (r >>= λ result. apply_files sha256 fs (set f.path result output)) ≡ done after
          → (content : Text) × (result : Text) × (get f.path output ≡ some content)
            × (apply_edits sha256 content f ≡ done result)
            × (apply_files sha256 fs (set f.path result output) ≡ done after)
      found_result content found (done result) e k = (content, result, found, e, k)
      found_result content found (failed x) e k = cc

  abbrev pub IsElsewhere : String → List PlannedFile → Type 0
  IsElsewhere path files = All (λ f. f.path ≢ path) files

  apply_files_elsewhere :
      (files : List PlannedFile) (contents output : JsMap Text) (path : String)
      → apply_files sha256 files contents ≡ done output
      → IsElsewhere path files
      → get path output ≡ get path contents
  unfolding apply_files
  apply_files_elsewhere [] contents output path h e = ground arith
  apply_files_elsewhere (f ∷ fs) contents output path h (e, es) =
      let (content, result, found, edited, rest) = apply_files_found f fs contents output h in
      apply_files_elsewhere fs (set f.path result contents) output path rest es
      ∙ get-set f.path path result contents
      ∙ ground (arith, eq_iff f.path path)

  -- A file of the plan was there, its edits were applied, and the outcome is what is there now.
  abbrev pub Applied : JsMap Text → JsMap Text → PlannedFile → Type 0
  Applied contents output f =
      (content : Text) × (result : Text) × (get f.path contents ≡ some content)
      × (apply_edits sha256 content f ≡ done result)
      × (get f.path output ≡ some result)

  abbrev pub DistinctPaths : List PlannedFile → Type 0
  DistinctPaths [] = Unit
  DistinctPaths (f ∷ fs) = IsElsewhere f.path fs × DistinctPaths fs

  Applied-set :
      (path : String) (result : Text) (contents output : JsMap Text) (fs : List PlannedFile)
      → IsElsewhere path fs
      → All (Applied (set path result contents) output) fs
      → All (Applied contents output) fs
  Applied-set path result contents output [] e h = tt
  Applied-set path result contents output (f ∷ fs) (e, es)
        ((content, new, found, edited, kept), hs) =
      (
        (
          content,
          new,
          ground (arith, get-set path f.path result contents, eq_iff path f.path),
          edited,
          kept,
        ),
        Applied-set path result contents output fs es hs,
      )

  apply_files_each :
      (files : List PlannedFile) (contents output : JsMap Text)
      → apply_files sha256 files contents ≡ done output
      → DistinctPaths files
      → All (Applied contents output) files
  apply_files_each [] contents output h d = tt
  apply_files_each (f ∷ fs) contents output h (apart, d) =
      let (content, result, found, edited, rest) = apply_files_found f fs contents output h in
      let after = set f.path result contents in
      (
        (
          content,
          result,
          found,
          edited,
          apply_files_elsewhere fs after output f.path rest apart
              ∙ get-set f.path f.path result contents
              ∙ rw (eq_refl f.path) refl,
        ),
        Applied-set f.path result contents output fs apart
            (apply_files_each fs after output rest d),
      )

  validated :
      (plan : RenamePlan)
      → validate_rename_plan sha256 plan ≡ done tt
      → (plan.version ≡ 1)
        × (sha256 plan.body ≡ plan.plan_id)
        × (validate_files plan.old_symbol plan.new_symbol plan.files ≡ done tt)
  unfolding validate_rename_plan
  validated plan h =
      (ground arith, ground (arith, eq_iff (sha256 plan.body) plan.plan_id), ground arith)

  seq-done :
      (c : Checked (Unit {0})) (k : Checked (JsMap Text)) (output : JsMap Text)
      → (c >> k) ≡ done output
      → (c ≡ done tt) × (k ≡ done output)
  seq-done (done u) k output h = (refl, h)
  seq-done (failed e) k output h = cc

  -- A plan that is applied was of version 1 and whole, by its identifier; every file that it names,
  -- each under one path, was there and has its edits applied; and no other file has changed.
  pub apply_rename_plan_to_map_lem :
      (plan : RenamePlan) (contents output : JsMap Text)
      → DistinctPaths plan.files
      → apply_rename_plan_to_map sha256 plan contents ≡ done output
      → (plan.version ≡ 1)
        × (sha256 plan.body ≡ plan.plan_id)
        × All (Applied contents output) plan.files
        × ((path : String) → IsElsewhere path plan.files → get path output ≡ get path contents)
  unfolding apply_rename_plan_to_map
  apply_rename_plan_to_map_lem plan contents output d h =
      let (valid, applied) =
        seq-done (validate_rename_plan sha256 plan) (apply_files sha256 plan.files contents) output
          h in
      let (version, whole, _) = validated plan valid in
      (
        version,
        whole,
        apply_files_each plan.files contents output applied d,
        λ path e. apply_files_elsewhere plan.files contents output path applied e,
      )
