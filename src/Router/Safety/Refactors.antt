-- ===== src/Router/Safety/Refactors.antt =====
-- Safety of packages/mcp-server/src/tools/toolRouter.ts: the workflows on Lisp, by their
-- steps.
use emacs_llvm.Base.{String, Option, none, some, List}
use emacs_llvm.Base.Json.{Json, undefined, null, bool, num, str, arr, obj, Fields, Number}
use emacs_llvm.Base.Exec.Keeps.{turns_rules, Keeps-pure}
use emacs_llvm.Sessions.{EmacsSession}
use emacs_llvm.Router.Workflow.Steps.{Step}
use emacs_llvm.Router.Workflow.Lisp.{
  repair_body, workflow_repair_lisp, observe_lisp, refactor_rest, refactor_body,
  workflow_refactor_defun,
}
use emacs_llvm.Router.Workflow.Rename.{expect_defun, rename_symbol_body, workflow_rename_symbol}
use emacs_llvm.Router.Workflow.Structure.{
  lisp_command_body, workflow_validated_lisp_command, workflow_move_form, workflow_transform_sexp,
}
use emacs_llvm.Router.Workflow.Extract.{
  Extraction, infer_parameters, parameters_of, evaluate_at, evaluate_definition, evaluate_enclosing,
  extract_rest, extract_body, extraction_of, workflow_extract_function,
}
use emacs_llvm.Router.Safety.Workflows.{
  IsKept, Keeps-transaction, Keeps-evaluate_and_commit, Keeps-requests_of, Keeps-create_checkpoint,
  Keeps-validate,
}

module _ (step : Step) (kept : (name : String) (args : Fields) → IsKept (step name args)) where
  Keeps-observe_lisp : IsKept (observe_lisp step)
  unfolding observe_lisp
  Keeps-observe_lisp = search (turns_rules, kept)

  Keeps-repair_body :
      (id : String) (args edit : Fields) (operation : String) (requests : List Fields)
      → IsKept (repair_body step id args edit operation requests)
  unfolding repair_body
  Keeps-repair_body id args edit operation requests =
      search (turns_rules, kept, Keeps-validate step kept, Keeps-evaluate_and_commit step kept)

  pub Keeps-workflow_repair_lisp :
      (e : EmacsSession) (args : Fields) → IsKept (workflow_repair_lisp step e args)
  unfolding workflow_repair_lisp
  Keeps-workflow_repair_lisp e args =
      search
        (
          turns_rules,
          Keeps-requests_of step kept,
          Keeps-create_checkpoint step kept,
          Keeps-transaction step kept,
          Keeps-repair_body,
        )
        depth 9

  Keeps-refactor_rest :
      (id : String) (expected : Option String) (bounds : Number × Number) (validation : Fields)
      (requests : List Fields)
      → IsKept (refactor_rest step id expected bounds validation requests)
  unfolding refactor_rest
  Keeps-refactor_rest id expected bounds validation requests =
      search (turns_rules, kept, Keeps-observe_lisp, Keeps-evaluate_and_commit step kept)

  Keeps-refactor_body :
      (id : String) (args : Fields) (replacement : String) (expected : Option String)
      (bounds : Number × Number) (requests : List Fields)
      → IsKept (refactor_body step id args replacement expected bounds requests)
  unfolding refactor_body
  Keeps-refactor_body id args replacement expected bounds requests =
      search (turns_rules, kept, Keeps-validate step kept, Keeps-refactor_rest)

  pub Keeps-workflow_refactor_defun :
      (e : EmacsSession) (args : Fields) → IsKept (workflow_refactor_defun step e args)
  unfolding workflow_refactor_defun
  Keeps-workflow_refactor_defun e args =
      search
        (
          turns_rules,
          Keeps-observe_lisp,
          Keeps-requests_of step kept,
          Keeps-create_checkpoint step kept,
          Keeps-transaction step kept,
          Keeps-refactor_body,
        )
        depth 12

  Keeps-expect_defun :
      (operation : String) (expected : Option String)
      → IsKept (expect_defun step operation expected)
  unfolding expect_defun
  Keeps-expect_defun operation none = Keeps-pure tt
  Keeps-expect_defun operation (some name) = search (turns_rules, Keeps-observe_lisp)

  Keeps-rename_symbol_body :
      (id : String) (args : Fields) (arguments : List Json) (requests : List Fields)
      → IsKept (rename_symbol_body step id args arguments requests)
  unfolding rename_symbol_body
  Keeps-rename_symbol_body id args arguments requests =
      search (turns_rules, kept, Keeps-validate step kept, Keeps-evaluate_and_commit step kept)
        depth 8

  pub Keeps-workflow_rename_symbol :
      (e : EmacsSession) (args : Fields) → IsKept (workflow_rename_symbol step e args)
  unfolding workflow_rename_symbol
  Keeps-workflow_rename_symbol e args =
      search
        (
          turns_rules,
          Keeps-expect_defun,
          Keeps-requests_of step kept,
          Keeps-create_checkpoint step kept,
          Keeps-transaction step kept,
          Keeps-rename_symbol_body,
        )
        depth 16

  Keeps-workflow_validated_lisp_command :
      (e : EmacsSession) (operation command : String) (arguments : List Json) (args : Fields)
      → IsKept (workflow_validated_lisp_command step e operation command arguments args)
  unfolding workflow_validated_lisp_command lisp_command_body
  Keeps-workflow_validated_lisp_command e operation command arguments args =
      search
        (
          turns_rules,
          kept,
          Keeps-requests_of step kept,
          Keeps-create_checkpoint step kept,
          Keeps-transaction step kept,
          Keeps-validate step kept,
          Keeps-evaluate_and_commit step kept,
        )
        depth 9

  pub Keeps-workflow_move_form :
      (e : EmacsSession) (args : Fields) → IsKept (workflow_move_form step e args)
  unfolding workflow_move_form
  Keeps-workflow_move_form e args = search (turns_rules, Keeps-workflow_validated_lisp_command)

  pub Keeps-workflow_transform_sexp :
      (e : EmacsSession) (args : Fields) → IsKept (workflow_transform_sexp step e args)
  unfolding workflow_transform_sexp
  Keeps-workflow_transform_sexp e args = search (turns_rules, Keeps-workflow_validated_lisp_command)

  Keeps-infer_parameters : (bounds : Number × Number) → IsKept (infer_parameters step bounds)
  unfolding infer_parameters
  Keeps-infer_parameters bounds = search (turns_rules, kept)

  Keeps-parameters_of :
      (value : Json) (bounds : Number × Number) → IsKept (parameters_of step value bounds)
  Keeps-parameters_of undefined bounds = Keeps-infer_parameters bounds
  Keeps-parameters_of null bounds = Keeps-pure _
  Keeps-parameters_of (bool b) bounds = Keeps-pure _
  Keeps-parameters_of (num n) bounds = Keeps-pure _
  Keeps-parameters_of (str s) bounds = Keeps-pure _
  Keeps-parameters_of (arr xs) bounds = Keeps-pure _
  Keeps-parameters_of (obj fs) bounds = Keeps-pure _

  Keeps-evaluate_at : (position : Number) → IsKept (evaluate_at step position)
  unfolding evaluate_at
  Keeps-evaluate_at position = search (turns_rules, kept)

  Keeps-extract_rest :
      (id : String) (x : Extraction) (mutation : Fields) (more : List (String × Json))
      (requests : List Fields)
      → IsKept (extract_rest step id x mutation more requests)
  unfolding extract_rest evaluate_definition evaluate_enclosing
  Keeps-extract_rest id x mutation more requests =
      search (turns_rules, Keeps-evaluate_at, Keeps-evaluate_and_commit step kept) depth 9

  Keeps-extract_body :
      (id : String) (x : Extraction) (args : Fields) (requests : List Fields)
      → IsKept (extract_body step id x args requests)
  unfolding extract_body
  Keeps-extract_body id x args requests =
      search (turns_rules, kept, Keeps-validate step kept, Keeps-extract_rest) depth 7

  Keeps-extraction_of : (args : Fields) → IsKept (extraction_of step args)
  unfolding extraction_of
  Keeps-extraction_of args = search (turns_rules, Keeps-parameters_of, Keeps-expect_defun) depth 12

  pub Keeps-workflow_extract_function :
      (e : EmacsSession) (args : Fields) → IsKept (workflow_extract_function step e args)
  unfolding workflow_extract_function
  Keeps-workflow_extract_function e args =
      search
        (
          turns_rules,
          Keeps-extraction_of,
          Keeps-create_checkpoint step kept,
          Keeps-transaction step kept,
          Keeps-extract_body,
        )
        depth 12
