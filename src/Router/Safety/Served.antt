-- ===== src/Router/Safety/Served.antt =====
-- Safety of packages/mcp-server/src/tools/toolRouter.ts: `call` of the whole server.
use emacs_llvm.Base.{ℕ, zero, suc, String}
use emacs_llvm.Base.Json.{Json, Fields}
use emacs_llvm.Base.Exec.Keeps.{
  Ends, Anything, invariant_of, turns_rules, Turns-always, Turns-before, Ends-forget, Keeps-lift,
}
use emacs_llvm.Sessions.{EmacsSession}
use emacs_llvm.Router.State.{Server, Tool}
use emacs_llvm.Router.Call.{call}
use emacs_llvm.Router.Workflow.Steps.{Step}
use emacs_llvm.Router.Workflow.Choice.{execute_semantic_workflow}
use emacs_llvm.Router.Workflow.Server.{semantic_workflow, server_call}
use emacs_llvm.Router.Safety.{IsSafe, On, nothing, Leased}
use emacs_llvm.Router.Safety.Calls.{Ends-call}
use emacs_llvm.Router.Safety.Workflows.{IsKept, Keeps-workflow_step}
use emacs_llvm.Router.Safety.Refactors.{
  Keeps-workflow_repair_lisp, Keeps-workflow_refactor_defun, Keeps-workflow_rename_symbol,
  Keeps-workflow_move_form, Keeps-workflow_transform_sexp, Keeps-workflow_extract_function,
}
use emacs_llvm.Router.Safety.Org.{Keeps-workflow_org_rewrite_subtree}
use emacs_llvm.Router.Safety.Sections.{Keeps-workflow_org_build_section}

Keeps-execute_semantic_workflow :
    (step : Step)
    → ((name : String) (args : Fields) → IsKept (step name args))
    → (e : EmacsSession) (args : Fields) → IsKept (execute_semantic_workflow step e args)
unfolding execute_semantic_workflow
Keeps-execute_semantic_workflow step kept e args =
    search
      (
        turns_rules,
        Keeps-workflow_repair_lisp step kept,
        Keeps-workflow_refactor_defun step kept,
        Keeps-workflow_rename_symbol step kept,
        Keeps-workflow_move_form step kept,
        Keeps-workflow_transform_sexp step kept,
        Keeps-workflow_extract_function step kept,
        Keeps-workflow_org_rewrite_subtree step kept,
        Keeps-workflow_org_build_section step kept,
      )
      depth 12

-- What comes before a workflow gives it the lease, which it does not need to keep to the invariant: its
-- steps are calls, and each of them takes the lease again.
behind : {A : Type 0} (e : EmacsSession) (m : Tool A) → IsKept m → Ends IsSafe (On (Leased e)) m
behind e m k = Turns-before m (λ s h. nothing s) (Ends-forget m k)

Keeps-semantic_workflow :
    (depth : ℕ) (args : Fields) (e : EmacsSession) → IsKept (semantic_workflow depth args e)
unfolding semantic_workflow
Keeps-semantic_workflow zero args e = Keeps-lift _
Keeps-semantic_workflow (suc depth) args e =
    Keeps-execute_semantic_workflow _
      (Keeps-workflow_step (call (semantic_workflow depth))
        (λ name arguments. Turns-always _ nothing (
          Ends-call (semantic_workflow depth)
            (λ inner x. behind x _ (Keeps-semantic_workflow depth inner x)) name arguments))
        e.session_id)
      e args

-- Whatever tool is called, with whatever arguments, and whatever Emacs, the driver and the outside
-- answer: if all that the server has sent so far was permitted, all that it has sent when the call
-- has ended is. So every key sequence of the driver, and every evaluation, key sequence, command,
-- edit, making, commit or rollback of a checkpoint, and rename that applies, rolls back or commits,
-- of the bridge, also in a step of a workflow, was sent for a session whose profile may change
-- something, while that session had the mutation lease of its instance; and the bridge is that of
-- the instance, the driver's process that of an instance that the discovery found, not stale, under the session's
-- identifier of its instance, where that is not empty. Navigation and reads are not meant.
pub server_call-IsSafe :
    (name : String) (arguments : Json) (s : Server)
    → IsSafe s
    → IsSafe (server_call name arguments s).1
unfolding server_call
server_call-IsSafe name arguments s i =
    invariant_of IsSafe Anything Anything (server_call name arguments s) (
      (Ends-call (semantic_workflow 1) (λ args e. behind e _ (Keeps-semantic_workflow 1 args e))
          name arguments).run
        s i (nothing s))
