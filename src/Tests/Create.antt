-- ===== src/Tests/Create.antt =====
-- Plans at concrete files. Paths are taken as they are, the hash is a constant one.
use emacs_llvm.Base.{
  ◌≤◌, ◌≡◌, ◌≢◌, refl, arith, eq_iff, String, Bool, true, false, none, some, List, [], ◌∷◌, All,
  length, str_eq,
}
use emacs_llvm.Base.Bytes.{Text, codes, strip_prefix, text_eq}
use emacs_llvm.Base.Map.{JsMap, get, set}
use emacs_llvm.Lisp.Scanner.{next_piece, span, word, skip_string, skip_block_comment}
use emacs_llvm.Lisp.Tokens.{add_piece, scan_from, scan_lisp, is_numeric, position_for}
use emacs_llvm.Lisp.Symbols.{
  validate_lisp_symbol, split_on, base, language_name, describe_lisp_symbol,
}
use emacs_llvm.Lisp.Symbols.Rename.{policy_of, effective, checked_rename, prepare_symbol_rename}
use emacs_llvm.Rename.{
  PlannedFile, RenamePlan, Checked, done, failed, occurrences, edits_for, validate_rename_plan,
  apply_rename_plan_to_map,
}
use emacs_llvm.Rename.Files.{IsElsewhere}
use emacs_llvm.Rename.Create.{
  SourceFile, GivenLimits, limits_of, PlanBody, Host, by_path, normalized_relative, plan_file,
  plan_files, plan_of, planned_within, create_project_rename_plan,
}
use emacs_llvm.Rename.Create.Totals.{edit_count, byte_count}
use emacs_llvm.Rename.Create.Bounds.{validate-create, create_bounds}
use emacs_llvm.Rename.Create.Applied.{Renamed, Held, apply-create}

abbrev host : Host
host = record {
  resolve = λ p. p;
  resolve_in = λ root p. p;
  relative_to = λ root p. p;
  is_absolute = λ p. str_eq p "/p";
  portable = λ p. p;
  byte_length = length;
  sha256 = λ cs. "h";
  upper = λ cs. cs;
  before = λ p q. str_eq p "a.el";
  canonical = λ body. [];
}

creating : Unit {0}
unfolding create_project_rename_plan planned_within plan_of plan_files plan_file normalized_relative
    by_path limits_of prepare_symbol_rename checked_rename effective policy_of language_name
    describe_lisp_symbol edits_for occurrences scan_lisp scan_from add_piece next_piece span word
    skip_string skip_block_comment strip_prefix text_eq is_numeric position_for get set
    validate_lisp_symbol split_on base
creating = tt

abbrev file_of : String → String → SourceFile
file_of path content = record { path = some path; content = some (codes content) }

-- The second file has no edits, and is not planned.
abbrev sources : List SourceFile
sources = file_of "b.el" "(foo bar)" ∷ file_of "c.el" "(bar)" ∷ file_of "a.el" "foo" ∷ []

abbrev limits : GivenLimits
limits = record { max_files = some 3; max_bytes = none; max_edits = some 2 }

abbrev outcome : GivenLimits → Checked (PlanBody × RenamePlan)
outcome =
    create_project_rename_plan host (some "/p") (some sources) (codes "foo") (codes "baz") none none

paths : Checked (PlanBody × RenamePlan) → List String
paths (failed message) = message ∷ []
paths (done (body, plan)) = names plan.files
  where
    names : List PlannedFile → List String
    names [] = []
    names (f ∷ fs) = f.path ∷ names fs

planned : paths (outcome limits) ≡ "a.el" ∷ "b.el" ∷ []
unfolding creating paths
planned = refl

too_many :
    paths (outcome (record { max_files = some 3; max_bytes = none; max_edits = some 1 }))
    ≡ "rename plan exceeds maxEdits" ∷ []
unfolding creating paths
too_many = refl

succeeds : Checked (PlanBody × RenamePlan) → Bool
succeeds (done made) = true
succeeds (failed message) = false

made_of :
    (r : Checked (PlanBody × RenamePlan))
    → succeeds r ≡ true
    → (made : PlanBody × RenamePlan) × (r ≡ done made)
unfolding succeeds
made_of (done made) h = (made, refl)
made_of (failed message) h = cc

abbrev made : (made : PlanBody × RenamePlan) × (outcome limits ≡ done made)
unfolding creating succeeds made_of
made = made_of (outcome limits) refl

abbrev body : PlanBody
body = made.0.0

abbrev plan : RenamePlan
plan = made.0.1

validate-create_example : validate_rename_plan host.sha256 plan ≡ done tt
unfolding made
validate-create_example =
    validate-create host (some "/p") (some sources) (codes "foo") (codes "baz") none none limits
      body plan made.1

create_bounds_example :
    (length plan.files ≤ 3)
    × (edit_count plan.files ≤ 2)
    × (byte_count plan.files ≤ 16777216)
    × (edit_count plan.files ≡ body.total_edits)
unfolding creating made
create_bounds_example =
    create_bounds host (some "/p") (some sources) (codes "foo") (codes "baz") none none limits body
      plan made.1

abbrev contents : JsMap Text
contents = ("a.el", codes "foo") ∷ ("b.el", codes "(foo bar)") ∷ ("c.el", codes "(bar)") ∷ []

file_of-Held :
    (path content : String)
    → normalized_relative host "/p" path ≡ done path
    → get path contents ≡ some (codes content)
    → Held host "/p" contents (file_of path content)
file_of-Held path content relative held p c r e k = ground arith

apart : ◌≢◌ {A = String} "b.el" "a.el"
apart e = cc ((eq_iff "b.el" "a.el").1 e)

apply-create_example :
    (output : JsMap Text) × (apply_rename_plan_to_map host.sha256 plan contents ≡ done output)
    × All (Renamed host.sha256 (codes "foo") plan.new_symbol contents output) plan.files
    × ((path : String)
        → IsElsewhere host.sha256 path plan.files
        → get path output ≡ get path contents)
unfolding creating made
apply-create_example =
    apply-create host "/p" sources (codes "foo") (codes "baz") none none limits body plan contents
      made.1
      (
        file_of-Held "b.el" "(foo bar)" refl refl,
        (file_of-Held "c.el" "(bar)" refl refl, (file_of-Held "a.el" "foo" refl refl, tt)),
      )
      ((apart, tt), (tt, tt))
