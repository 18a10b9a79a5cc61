-- ===== src/Rename/Create/Applied.antt =====
-- From the files to the plan, and from the plan to the files: a plan that was created is applied to
-- contents that are still those that it was made from.
use emacs_llvm.Base.{
  ◌≡◌, refl, ap, subst, ◌∙◌, String, Option, some, List, [], ◌∷◌, arith, eq_iff, eq_refl, All,
  All-map,
}
use emacs_llvm.Base.Bytes.{Text}
use emacs_llvm.Base.Map.{JsMap, get, set, get-set}
use emacs_llvm.Lisp.Symbols.Rename.{PreparedRename}
use emacs_llvm.Rename.{
  PlannedFile, RenamePlan, done, edits_for, apply_files, apply_rename_plan_to_map,
}
use emacs_llvm.Rename.Forward.{forward}
use emacs_llvm.Rename.Planned.{apply_edits-edits_for}
use emacs_llvm.Rename.Files.{IsElsewhere, DistinctPaths}
use emacs_llvm.Rename.Create.{
  SourceFile, GivenLimits, limits_of, PlanBody, given_file, Host, normalized_relative, plan_of,
  nothing_planned, create_project_rename_plan,
}
use emacs_llvm.Rename.Create.Steps.{Created, created}
use emacs_llvm.Rename.Create.Totals.{by_path-All}
use emacs_llvm.Rename.Create.Bounds.{plans-All, validate-create}

module _ (sha256 : Text → String) (old_symbol new_symbol : Text) where
  -- The file's text is there under its path, and the plan for it is that of this text.
  abbrev Ready : JsMap Text → PlannedFile → Type 0
  Ready contents f =
      (content : Text) × (get f.path contents ≡ some content)
      × (f.sha256 ≡ sha256 content)
      × (f.edits ≡ (edits_for content old_symbol new_symbol).0)

  -- The file now has its text with each planned edit made, in one pass from the front.
  abbrev pub Renamed : JsMap Text → JsMap Text → PlannedFile → Type 0
  Renamed contents output f =
      (content : Text) × (get f.path contents ≡ some content)
      × (get f.path output ≡ some (forward 0 content (edits_for content old_symbol new_symbol).0))

  Ready-set :
      (path : String) (result : Text) (contents : JsMap Text) (fs : List PlannedFile)
      → IsElsewhere sha256 path fs
      → All (Ready contents) fs
      → All (Ready (set path result contents)) fs
  Ready-set path result contents [] e h = tt
  Ready-set path result contents (f ∷ fs) (e, es) ((content, found, same, edits), hs) = (
    (content, ground (arith, get-set path f.path result contents, eq_iff path f.path), same, edits),
    Ready-set path result contents fs es hs,
  )

  Renamed-set :
      (path : String) (result : Text) (contents output : JsMap Text) (fs : List PlannedFile)
      → IsElsewhere sha256 path fs
      → All (Renamed (set path result contents) output) fs
      → All (Renamed contents output) fs
  Renamed-set path result contents output [] e h = tt
  Renamed-set path result contents output (f ∷ fs) (e, es) ((content, found, rest), hs) = (
    (content, ground (arith, get-set path f.path result contents, eq_iff path f.path), rest),
    Renamed-set path result contents output fs es hs,
  )

  -- Nothing else is touched.
  abbrev Outside : JsMap Text → JsMap Text → List PlannedFile → Type 0
  Outside contents output fs =
      (path : String) → IsElsewhere sha256 path fs → get path output ≡ get path contents

  apply_files-Ready :
      (fs : List PlannedFile) (contents : JsMap Text)
      → DistinctPaths sha256 fs
      → All (Ready contents) fs
      → (output : JsMap Text) × (apply_files sha256 fs contents ≡ done output)
        × All (Renamed contents output) fs
        × Outside contents output fs
  unfolding apply_files
  apply_files-Ready [] contents d h = (contents, refl, tt, λ path e. refl)
  apply_files-Ready (f ∷ fs) contents (apart, d) ((content, found, same, edits), hs) =
      let result = forward 0 content (edits_for content old_symbol new_symbol).0 in
      let (output, applied, renamed, outside) =
        apply_files-Ready fs (set f.path result contents) d
          (Ready-set f.path result contents fs apart hs) in
      let edited = apply_edits-edits_for sha256 f content old_symbol new_symbol same edits in
      (
        output,
        rw (found, apply_files, edited) applied,
        (
          (
            content,
            found,
            outside f.path apart ∙ get-set f.path f.path result contents ∙ rw (eq_refl f.path) refl,
          ),
          Renamed-set f.path result contents output fs apart renamed,
        ),
        λ path (e, es).
            outside path es
            ∙ get-set f.path path result contents
            ∙ ground (arith, eq_iff f.path path),
      )

-- The contents are those of the files that the plan is made of, under their paths in the project.
abbrev pub Held : Host → String → JsMap Text → SourceFile → Type 0
Held host root contents f =
    (path : String) (content : Text) (relative : String)
    → given_file f ≡ some (path, content)
    → normalized_relative host root path ≡ done relative
    → get relative contents ≡ some content

Created-Ready :
    (host : Host) (old_symbol new_symbol : Text) (given : GivenLimits) (root : String)
    (sources : List SourceFile) (semantics : PreparedRename) (body : PlanBody) (plan : RenamePlan)
    (contents : JsMap Text)
    → Created host old_symbol new_symbol (limits_of given) root sources semantics body plan
    → All (Held host root contents) sources
    → All (Ready host.sha256 old_symbol plan.new_symbol contents) plan.files
unfolding plan_of
Created-Ready host old_symbol new_symbol given root sources semantics body plan contents c held =
    let new' = semantics.effective_new_symbol in
    let is_ready = Ready host.sha256 old_symbol new' contents in
    let each =
      plans-All host (limits_of given) root old_symbol new' is_ready sources nothing_planned c.p
        c.planned
        (All-map
          (λ f at_path path content relative e k.
            (content, at_path path content relative e k, refl, refl))
          sources held)
        tt in
    subst (λ (q : RenamePlan). All (Ready host.sha256 old_symbol q.new_symbol contents) q.files)
      (ap (plan_of host) c.is_body ∙ c.is_plan) (by_path-All host is_ready c.p.planned each)

-- A plan that was created, in which no path stands twice, is applied to contents that have the
-- files, under their paths in the project, as they were: the outcome has each file of the plan with
-- the planned edits made in one pass from the front, and no other file has changed.
pub apply-create :
    (host : Host) (root : String) (sources : List SourceFile) (old_symbol new_symbol : Text)
    (language policy : Option String) (given : GivenLimits) (body : PlanBody) (plan : RenamePlan)
    (contents : JsMap Text)
    → create_project_rename_plan host
        (some root)
        (some sources)
        old_symbol
        new_symbol
        language
        policy
        given
      ≡ done (body, plan)
    → All (Held host root contents) sources
    → DistinctPaths host.sha256 plan.files
    → (output : JsMap Text) × (apply_rename_plan_to_map host.sha256 plan contents ≡ done output)
      × All (Renamed host.sha256 old_symbol plan.new_symbol contents output) plan.files
      × ((path : String)
          → IsElsewhere host.sha256 path plan.files
          → get path output ≡ get path contents)
unfolding apply_rename_plan_to_map plan_of
apply-create host root sources old_symbol new_symbol language policy given body plan contents made
      held distinct =
    let (root', sources', semantics, rooted, are_given, c) =
      created host old_symbol new_symbol (some root) (some sources) language policy given body plan
        made in
    let valid =
      validate-create host (some root) (some sources) old_symbol new_symbol language policy given
        body plan made in
    let same_root : root ≡ root' = cc in
    let same_sources : sources ≡ sources' = cc in
    let ready =
      Created-Ready host old_symbol new_symbol given root' sources' semantics body plan contents c (
        subst (λ r. All (Held host r contents) sources') same_root
          (subst (All (Held host root contents)) same_sources held)) in
    let (output, applied, renamed, outside) =
      apply_files-Ready host.sha256 old_symbol plan.new_symbol plan.files contents distinct ready in
    (output, rw valid applied, renamed, outside)
