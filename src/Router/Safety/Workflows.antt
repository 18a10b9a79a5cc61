-- ===== src/Router/Safety/Workflows.antt =====
-- Safety of packages/mcp-server/src/tools/toolRouter.ts: what the workflows share, by
-- their steps.
use emacs_llvm.Base.{String, Bool, List, [], ◌∷◌}
use emacs_llvm.Base.Json.{Json, undefined, null, bool, num, str, arr, obj, Fields, at}
use emacs_llvm.Base.Exec.{attempt}
use emacs_llvm.Base.Exec.Keeps.{
  Keeps, turns_rules, Turns-bind, Turns-elim, Turns-always, Turns-before, Ends-attempt, Ends-forget,
  Keeps-lift, Keeps-reads, Keeps-pure,
}
use emacs_llvm.Protocol.Errors.{OperatorError}
use emacs_llvm.Protocol.Envelope.{ToolEnvelope}
use emacs_llvm.Sessions.{EmacsSession}
use emacs_llvm.Router.State.{Tool}
use emacs_llvm.Router.Workflow.Steps.{
  workflow_step, Step, Ending, committed, proposal, workflow_rollback, workflow_proposal_failure,
  navigate, evaluate, workflow_run_evaluations, ended, transaction,
}
use emacs_llvm.Router.Workflow.Lisp.{
  requests_of, create_checkpoint, commit_checkpoint, validate, evaluate_and_commit,
}
use emacs_llvm.Router.Safety.{IsSafe, On, Nothing, nothing}
use emacs_llvm.Router.Safety.Reads.{Keeps-draw}

-- A part of a workflow keeps the invariant.
abbrev pub IsKept : {A : Type 0} → Tool A → Type 0
IsKept m = Keeps IsSafe (On Nothing) m

Keeps-attempt :
    {A : Type 0} (m : Tool A) (h : OperatorError → Tool A)
    → IsKept m
    → ((e : OperatorError) → IsKept (h e))
    → IsKept (attempt m h)
Keeps-attempt m h km kh = Turns-always _ nothing (
    Ends-attempt m h (Ends-forget m km)
      (λ e. Turns-before (h e) (λ s u. nothing s) (Ends-forget (h e) (kh e))))

pub Keeps-workflow_step :
    (call : String → Json → Tool ToolEnvelope)
    → ((name : String) (arguments : Json) → IsKept (call name arguments))
    → (session_id name : String) (args : Fields) → IsKept (workflow_step call session_id name args)
unfolding workflow_step
Keeps-workflow_step call kept session_id name args =
    Turns-bind _ _ Keeps-draw λ uuid. Turns-bind _ _ (kept name _) λ envelope. Keeps-lift _

module _ (step : Step) (kept : (name : String) (args : Fields) → IsKept (step name args)) where
  Keeps-workflow_rollback : (id : String) → IsKept (workflow_rollback step id)
  unfolding workflow_rollback
  Keeps-workflow_rollback id = Keeps-attempt _ _ (kept _ _) (λ e. Keeps-lift _)

  Keeps-workflow_proposal_failure :
      (id operation reason : String) (details : Fields) (runtime : Bool)
      → IsKept (workflow_proposal_failure step id operation reason details runtime)
  unfolding workflow_proposal_failure
  Keeps-workflow_proposal_failure id operation reason details runtime =
      Turns-bind _ _ (Keeps-workflow_rollback id) λ r. Keeps-pure _

  Keeps-ended : (id operation : String) (e : Ending) → IsKept (ended step id operation e)
  Keeps-ended id operation (committed v) = Keeps-pure v
  Keeps-ended id operation (proposal reason details runtime) =
      Keeps-workflow_proposal_failure id operation reason details runtime

  pub Keeps-transaction :
      (id operation : String) (body : Tool Ending)
      → IsKept body
      → IsKept (transaction step id operation body)
  unfolding transaction
  Keeps-transaction id operation body k =
      Turns-bind _ _
        (Keeps-attempt _ _ k (λ e. Turns-bind _ _ (Keeps-workflow_rollback id) λ r. Keeps-lift _))
        λ ending. Keeps-ended id operation ending

  Keeps-navigate : (value : Json) → IsKept (navigate step value)
  Keeps-navigate undefined = Keeps-pure tt
  Keeps-navigate null = search (turns_rules, kept)
  Keeps-navigate (bool b) = search (turns_rules, kept)
  Keeps-navigate (num n) = search (turns_rules, kept)
  Keeps-navigate (str s) = search (turns_rules, kept)
  Keeps-navigate (arr xs) = search (turns_rules, kept)
  Keeps-navigate (obj fs) = search (turns_rules, kept)

  Keeps-evaluate : (request : Fields) → IsKept (evaluate step request)
  unfolding evaluate
  Keeps-evaluate request =
      Turns-bind _ _ (Keeps-navigate (at "navigation" request)) λ u. search (turns_rules, kept)

  Keeps-workflow_run_evaluations :
      (results : List Json) (requests : List Fields)
      → IsKept (workflow_run_evaluations step results requests)
  unfolding workflow_run_evaluations
  Keeps-workflow_run_evaluations results [] = Keeps-pure _
  Keeps-workflow_run_evaluations results (request ∷ requests) =
      Turns-bind _ _ (Keeps-evaluate request) λ result. Turns-bind _ _ (Keeps-reads _) λ stopped.
        Turns-elim stopped _ _ (Keeps-workflow_run_evaluations _ requests) (λ why. Keeps-pure _)

  pub Keeps-commit_checkpoint : (id : String) → IsKept (commit_checkpoint step id)
  unfolding commit_checkpoint
  Keeps-commit_checkpoint id = kept _ _

  pub Keeps-evaluate_and_commit :
      (id operation : String) (evaluated : List Json) (requests : List Fields)
      (more reported : List (String × Json))
      → IsKept (evaluate_and_commit step id operation evaluated requests more reported)
  unfolding evaluate_and_commit
  Keeps-evaluate_and_commit id operation evaluated requests more reported =
      Turns-bind _ _ (Keeps-workflow_run_evaluations evaluated requests) λ run.
        Turns-elim run.failed _ _
          (Turns-bind _ _ (Keeps-commit_checkpoint id) λ commit. Keeps-pure _) (λ why. Keeps-pure _)

  pub Keeps-requests_of : (args : Fields) (e : EmacsSession) → IsKept (requests_of args e)
  unfolding requests_of
  Keeps-requests_of args e = search turns_rules depth 6

  pub Keeps-create_checkpoint : (label : String) → IsKept (create_checkpoint step label)
  unfolding create_checkpoint
  Keeps-create_checkpoint label = search (turns_rules, kept)

  pub Keeps-validate : (args : Fields) → IsKept (validate step args)
  unfolding validate
  Keeps-validate args = search (turns_rules, kept)
