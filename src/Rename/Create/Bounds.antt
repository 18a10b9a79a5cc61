-- ===== src/Rename/Create/Bounds.antt =====
-- The plan that is created keeps its limits and passes the validation.
use emacs_llvm.Base.{
  ℕ, suc, ◌+◌, ◌≤◌, ◌≡◌, refl, sym, ap, subst, ◌∙◌, String, Option, some, List, [], ◌∷◌, arith,
  length, All, All-intro, eq_refl,
}
use emacs_llvm.Base.Bytes.{Text}
use emacs_llvm.Rename.{
  PlannedFile, RenamePlan, done, validate_edits, validate_files, validate_rename_plan,
}
use emacs_llvm.Rename.Planned.{validate_edits-edits_for}
use emacs_llvm.Rename.Create.{
  SourceFile, Limits, GivenLimits, limits_of, PlanBody, Planning, given_file, Host,
  normalized_relative, by_path, planned_file, plan_files, plan_of, body_of, nothing_planned,
  create_project_rename_plan,
}
use emacs_llvm.Rename.Create.Steps.{plans, Plans, plans_found, created}
use emacs_llvm.Rename.Create.Totals.{
  edit_count, byte_count, pushed_lem, by_path_lem, by_path-All, pushed-All,
}

-- The counters of the loop, after at most `n` files.
record WithinLimits (limits : Limits) (n : ℕ) (p : Planning) : Type 0 where
  pub edits : edit_count p.planned ≡ p.total_edits
  pub bytes : byte_count p.planned ≤ p.total_bytes
  pub max_edits : p.total_edits ≤ limits.max_edits
  pub max_bytes : p.total_bytes ≤ limits.max_bytes
  pub files : length p.planned ≤ n

module _ (host : Host) (limits : Limits) (root : String) (old_symbol new_symbol : Text) where
  one_file-WithinLimits :
      (path : String) (content : Text) (n : ℕ) (p q : Planning)
      → Plans host limits root old_symbol new_symbol path content p q
      → WithinLimits limits n p
      → WithinLimits limits (suc n) q
  one_file-WithinLimits path content n p q s w =
      let added =
        pushed_lem p.planned (planned_file host old_symbol new_symbol s.relative content) in
      record {
        edits = rw (s.planned, s.edits) (omega (arith, added.0, w.edits));
        bytes = rw (s.planned, s.bytes) (omega (arith, added.1, w.bytes));
        max_edits = s.edits_within;
        max_bytes = s.bytes_within;
        files = rw s.planned (omega (arith, added.2, w.files));
      }

  plans-WithinLimits :
      (fs : List SourceFile) (n : ℕ) (p q : Planning)
      → plans host limits root old_symbol new_symbol fs p ≡ done q
      → WithinLimits limits n p
      → WithinLimits limits (n + length fs) q
  unfolding plan_files
  plans-WithinLimits [] n p q h w =
      let same : p ≡ q = cc in
      subst (λ r. WithinLimits limits (n + 0) r) same
        (record {
          edits = w.edits;
          bytes = w.bytes;
          max_edits = w.max_edits;
          max_bytes = w.max_bytes;
          files = omega (arith, w.files);
        })
  plans-WithinLimits (f ∷ fs) n p q h w =
      let (path, content, next, found, s, rest) =
        plans_found host limits root old_symbol new_symbol f fs p q h in
      let ih =
        plans-WithinLimits fs (suc n) next q rest
          (one_file-WithinLimits path content n p next s w) in
      record {
        edits = ih.edits;
        bytes = ih.bytes;
        max_edits = ih.max_edits;
        max_bytes = ih.max_bytes;
        files = omega (arith, ih.files);
      }

  -- What holds of each file as it is planned holds of all that are planned.
  pub plans-All :
      (Q : PlannedFile → Type 0) (fs : List SourceFile) (p q : Planning)
      → plans host limits root old_symbol new_symbol fs p ≡ done q
      → All
          (λ f.
            (path : String) (content : Text) (relative : String)
            → given_file f ≡ some (path, content)
            → normalized_relative host root path ≡ done relative
            → Q (planned_file host old_symbol new_symbol relative content))
          fs
      → All Q p.planned
      → All Q q.planned
  unfolding plan_files
  plans-All Q [] p q h each w = let same : p ≡ q = cc in subst (λ r. All Q r.planned) same w
  plans-All Q (f ∷ fs) p q h (each, more) w =
      let (path, content, next, found, s, rest) =
        plans_found host limits root old_symbol new_symbol f fs p q h in
      plans-All Q fs next q rest more (
        rw s.planned (
          pushed-All Q p.planned (planned_file host old_symbol new_symbol s.relative content)
            (each path content s.relative found s.is_relative) w))

validate_files-All :
    (old_symbol new_symbol : Text) (fs : List PlannedFile)
    → All (λ f. validate_edits old_symbol new_symbol 0 f.edits ≡ done tt) fs
    → validate_files old_symbol new_symbol fs ≡ done tt
unfolding validate_files
validate_files-All old_symbol new_symbol [] h = refl
validate_files-All old_symbol new_symbol (f ∷ fs) (h, hs) =
    rw h (validate_files-All old_symbol new_symbol fs hs)

module _ (host : Host) (root : Option String) (files : Option (List SourceFile))
    (old_symbol new_symbol : Text) (language policy : Option String) (given : GivenLimits)
    (body : PlanBody) (plan : RenamePlan)
    (made : create_project_rename_plan host root files old_symbol new_symbol language policy given
      ≡ done (body, plan)) where
  -- A plan that is created passes the validation.
  pub validate-create : validate_rename_plan host.sha256 plan ≡ done tt
  unfolding validate_rename_plan plan_of
  validate-create =
      let (root', sources, semantics, rooted, are_given, c) =
        created host old_symbol new_symbol root files language policy given body plan made in
      let new' = semantics.effective_new_symbol in
      let each =
        plans-All host (limits_of given) root' old_symbol new'
          (λ f. validate_edits old_symbol new' 0 f.edits ≡ done tt) sources nothing_planned c.p
          c.planned
          (All-intro
            (λ f path content relative e k. validate_edits-edits_for content old_symbol new')
            sources)
          tt in
      let valid = validate_files-All old_symbol new' (by_path host c.p.planned) (
        by_path-All host (λ f. validate_edits old_symbol new' 0 f.edits ≡ done tt) c.p.planned
          each) in
      let b = body_of host root' old_symbol new_symbol (limits_of given) semantics c.p in
      subst (λ (q : RenamePlan). validate_rename_plan host.sha256 q ≡ done tt)
        (ap (plan_of host) c.is_body ∙ c.is_plan)
        (rw (eq_refl (host.sha256 (host.canonical b))) valid)

  -- A plan that is created has no more files, edits and bytes than the limits say, and its total is
  -- the number of its edits.
  pub create_bounds :
      (length plan.files ≤ (limits_of given).max_files)
      × (edit_count plan.files ≤ (limits_of given).max_edits)
      × (byte_count plan.files ≤ (limits_of given).max_bytes)
      × (edit_count plan.files ≡ body.total_edits)
  unfolding plan_of
  create_bounds =
      let (root', sources, semantics, rooted, are_given, c) =
        created host old_symbol new_symbol root files language policy given body plan made in
      let w =
        plans-WithinLimits host (limits_of given) root' old_symbol semantics.effective_new_symbol
          sources 0 nothing_planned c.p c.planned
          (record {
            edits = refl;
            bytes = omega arith;
            max_edits = omega arith;
            max_bytes = omega arith;
            files = omega arith;
          }) in
      let sorted = by_path_lem host c.p.planned in
      let files' : plan.files ≡ by_path host c.p.planned =
        sym (ap (λ (q : RenamePlan). q.files) (ap (plan_of host) c.is_body ∙ c.is_plan)) in
      let total : body.total_edits ≡ c.p.total_edits =
        sym (ap (λ (b : PlanBody). b.total_edits) c.is_body) in
      let few = c.few in
      rw files'
        (omega (arith, total, sorted, w.edits, w.bytes, w.max_edits, w.max_bytes, w.files, few))
