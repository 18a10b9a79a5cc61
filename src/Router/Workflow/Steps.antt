-- ===== src/Router/Workflow/Steps.antt =====
-- packages/mcp-server/src/tools/toolRouter.ts: the steps of a workflow, its evaluations, and how it ends.
use Prim.Native.String
use emacs_llvm.Base.{
  String, Bool, true, false, Option, none, some, List, [], ◌∷◌, ◌++◌, if◌then◌else◌, str_eq,
}
use emacs_llvm.Base.Json.{Json, undefined, str, obj, Fields, end, at}
use emacs_llvm.Base.Values.{object, fields, assign, is_true}
use emacs_llvm.Base.Exec.{pure, lift, reads, ◌>>=◌, ◌>>◌, attempt}
use emacs_llvm.Protocol.Errors.{Result, ok, err, throw, rollback_failed}
use emacs_llvm.Protocol.Envelope.{ToolEnvelope, success, failure}
use emacs_llvm.Protocol.Validation.{assert_object}
use emacs_llvm.Router.State.{Server, Tool, draw}
use emacs_llvm.Router.Arguments.{without}
use emacs_llvm.Router.Workflow.Answers.{workflow_evaluation, error_json}

abbrev details_of : Option Fields → Fields
details_of none = end
details_of (some fs) = fs

abbrev step_result : String → ToolEnvelope → Result Json
step_result name (success s) = ok s.result
step_result name (failure f) = throw f.error.code f.error.message (
    some (
      assign (details_of f.error.details)
        (fields (("workflow_step", str name) ∷ ("workflow_audit_id", str f.audit_id) ∷ []))))

unfoldable pub workflow_step :
    (String → Json → Tool ToolEnvelope) → String → String → Fields → Tool Json
workflow_step call session_id name args = do
  uuid ← draw
  envelope ← call name (
      obj (
        assign args (
          fields
            (("session_id", str session_id) ∷ ("request_id", str (String.◌++◌ "wf_" uuid)) ∷ []))))
  lift (step_result name envelope)

-- The steps of a workflow, which are of one session.
abbrev pub Step : Type 0
Step = String → Fields → Tool Json

-- What came of the evaluations: their results, and why the last one stopped them, if it did, with the
-- value that was expected of it.
pub record Run : Type 0 where
  pub results : List Json
  pub failed : Option (String × Option String)

-- What the part of a workflow that may be taken back comes to.
pub data Ending : Type 0 where
  committed : Json → Ending
  proposal : String → Fields → Bool → Ending

abbrev warning : Bool → List (String × Json)
warning true =
    (
      "warning",
      str
          "Buffer rollback does not guarantee reversal of Lisp REPL, Babel, filesystem, process, network, or other runtime side effects already produced by evaluation.",
    )
    ∷ []
warning false = []

unfoldable pub workflow_transaction_scope : Bool → Json
workflow_transaction_scope runtime = object (
    ("buffer", str "checkpoint_managed")
    ∷ (
      "runtime",
      str (if runtime then "not_transactional" else "not_touched_by_workflow_evaluation"),
    )
    ∷ warning runtime)

-- The arguments of the evaluation itself.
abbrev eval_arguments : Fields → Fields
eval_arguments request = without ("expected_value" ∷ "navigation" ∷ []) request

-- Why a result stops the evaluations, if it does.
abbrev pub unexpected : (Json → String) → Json → Json → Option (String × Option String)
unexpected text_of undefined value = none
unexpected text_of expected value =
    if str_eq (text_of value) (text_of expected)
    then none
    else some ("unexpected_value", some (text_of expected))

abbrev stops : (Json → String) → Fields → Fields → Option (String × Option String)
stops text_of request result =
    if is_true (at "completed" result)
    then unexpected text_of (at "expected_value" request) (at "value" result)
    else some ("runtime_condition", none)

module _ (step : Step) where
  unfoldable pub workflow_rollback : String → Tool Json
  workflow_rollback checkpoint_id =
      attempt (step "emacs_rollback" (fields (("checkpoint_id", str checkpoint_id) ∷ []))) λ e.
        lift (
          throw rollback_failed "Semantic workflow failed and its automatic rollback also failed." (
            some (
              fields
                (("checkpoint_id", str checkpoint_id) ∷ ("rollback_error", error_json e) ∷ []))))

  unfoldable pub workflow_proposal_failure : String → String → String → Fields → Bool → Tool Json
  workflow_proposal_failure checkpoint_id operation reason details runtime = do
    rollback ← workflow_rollback checkpoint_id
    pure (
        obj (
          assign
            (fields (
              ("operation", str operation)
              ∷ ("status", str "rolled_back")
              ∷ ("reason", str reason)
              ∷ ("checkpoint_id", str checkpoint_id)
              ∷ ("transaction_scope", workflow_transaction_scope runtime)
              ∷ ("rollback", rollback)
              ∷ []))
            details))

  abbrev pub navigate : Json → Tool (Unit {0})
  navigate undefined = pure tt
  navigate value = do
    fs ← lift (assert_object value "evaluation navigation")
    answered ← step "emacs_navigate" fs
    pure tt

  unfoldable pub evaluate : Fields → Tool Fields
  evaluate request = do
    navigate (at "navigation" request)
    evaluated ← step "emacs_eval" (eval_arguments request)
    lift (workflow_evaluation evaluated)

  unfoldable pub workflow_run_evaluations : List Json → List Fields → Tool Run
  workflow_run_evaluations results [] = pure (record { results = results; failed = none })
  workflow_run_evaluations results (request ∷ requests) = do
    result ← evaluate request
    stopped ← reads (λ (s : Server). stops s.world.text_of request result)
    let done = results ++ obj result ∷ []
    elim stopped [
      | none ↦ workflow_run_evaluations done requests
      | some why ↦ pure (record { results = done; failed = some why })
    ]

  abbrev pub ended : String → String → Ending → Tool Json
  ended checkpoint_id operation (committed v) = pure v
  ended checkpoint_id operation (proposal reason details runtime) =
      workflow_proposal_failure checkpoint_id operation reason details runtime

  -- The `try` of a workflow. A proposal that failed is returned without being waited for, so that its
  -- own error does not come to the `catch`.
  unfoldable pub transaction : String → String → Tool Ending → Tool Json
  transaction checkpoint_id operation body = do
    ending ← attempt body λ e. workflow_rollback checkpoint_id >>= λ taken_back. lift (err e)
    ended checkpoint_id operation ending
