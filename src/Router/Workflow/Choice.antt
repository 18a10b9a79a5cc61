-- ===== src/Router/Workflow/Choice.antt =====
-- packages/mcp-server/src/tools/toolRouter.ts: the choice of a workflow.
use Prim.Native.String
use emacs_llvm.Base.{none, [], ◌∷◌, if◌then◌else◌, str_eq}
use emacs_llvm.Base.Json.{Json, Fields}
use emacs_llvm.Base.Exec.{lift, ◌>>=◌, ◌>>◌}
use emacs_llvm.Protocol.Errors.{ensure, invalid_argument}
use emacs_llvm.Protocol.Validation.{required_string}
use emacs_llvm.Sessions.{EmacsSession}
use emacs_llvm.Router.State.{Tool}
use emacs_llvm.Router.Arguments.{one_of}
use emacs_llvm.Router.Workflow.Steps.{Step}
use emacs_llvm.Router.Workflow.Lisp.{workflow_repair_lisp, workflow_refactor_defun}
use emacs_llvm.Router.Workflow.Structure.{workflow_move_form, workflow_transform_sexp}
use emacs_llvm.Router.Workflow.Extract.{workflow_extract_function}
use emacs_llvm.Router.Workflow.Org.{workflow_org_rewrite_subtree}
use emacs_llvm.Router.Workflow.Build.{workflow_org_build_section}
use emacs_llvm.Router.Workflow.Rename.{workflow_rename_symbol}

module _ (step : Step) where
  unfoldable pub execute_semantic_workflow : EmacsSession → Fields → Tool Json
  execute_semantic_workflow session args = do
    operation ← lift (required_string args "operation")
    lift (
        ensure
          (one_of operation (
            "repair_lisp" ∷ "refactor_defun" ∷ "rename_symbol" ∷ "extract_function" ∷ "move_form"
            ∷ "transform_sexp" ∷ "org_build_section" ∷ "org_rewrite_subtree" ∷ []))
          invalid_argument
          (String.◌++◌ "Unknown semantic workflow operation: " (String.◌++◌ operation ".")) none)
    if str_eq operation "repair_lisp"
        then workflow_repair_lisp step session args
        else if str_eq operation "refactor_defun"
        then workflow_refactor_defun step session args
        else if str_eq operation "rename_symbol"
        then workflow_rename_symbol step session args
        else if str_eq operation "move_form"
        then workflow_move_form step session args
        else if str_eq operation "transform_sexp"
        then workflow_transform_sexp step session args
        else if str_eq operation "extract_function"
        then workflow_extract_function step session args
        else if str_eq operation "org_rewrite_subtree"
        then workflow_org_rewrite_subtree step session args
        else workflow_org_build_section step session args
