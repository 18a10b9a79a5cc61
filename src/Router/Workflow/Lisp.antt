-- ===== src/Router/Workflow/Lisp.antt =====
-- packages/mcp-server/src/tools/toolRouter.ts: the workflows `repair_lisp` and `refactor_defun`, and
-- what the workflows on Lisp share.
use emacs_llvm.Base.{
  String, Bool, true, false, Option, none, some, List, [], ◌∷◌, if◌then◌else◌, str_eq, leb,
}
use emacs_llvm.Base.Json.{Json, undefined, null, num, str, obj, Fields, at, Number}
use emacs_llvm.Base.Values.{array, fields, assign, put, or_else, is_true}
use emacs_llvm.Base.Exec.{pure, lift, reads, ◌>>=◌, ◌>>◌}
use emacs_llvm.Protocol.Errors.{ensure, invalid_argument, state_conflict}
use emacs_llvm.Protocol.Validation.{required_string, assert_object}
use emacs_llvm.Policy.{assert_structured_eval}
use emacs_llvm.Sessions.{EmacsSession}
use emacs_llvm.Router.State.{Server, Tool}
use emacs_llvm.Router.Arguments.{one_of}
use emacs_llvm.Router.Reads.{object_or_empty}
use emacs_llvm.Router.Workflow.Answers.{
  workflow_record, workflow_validation, workflow_bounds, workflow_lisp_observation,
}
use emacs_llvm.Router.Workflow.Requests.{workflow_evaluation_requests}
use emacs_llvm.Router.Workflow.Steps.{
  Step, Run, Ending, committed, proposal, workflow_transaction_scope, workflow_run_evaluations,
  transaction,
}

-- `if (args.precondition !== undefined) editArgs.precondition = args.precondition`
abbrev pub with_precondition : Json → Fields → Fields
with_precondition undefined fs = fs
with_precondition value fs = put "precondition" value fs

abbrev pub is_empty : List Fields → Bool
is_empty [] = true
is_empty (r ∷ rs) = false

-- The members for one evaluation, and those for several.
abbrev evaluation_members : List Json → List (String × Json)
evaluation_members [] = []
evaluation_members (r ∷ []) = ("evaluation", r) ∷ []
evaluation_members (r ∷ q ∷ rs) = ("evaluations", array (r ∷ q ∷ rs)) ∷ []

abbrev is_some_result : List Json → Bool
is_some_result [] = false
is_some_result (r ∷ rs) = true

abbrev expectation : Option String → List (String × Json)
expectation none = []
expectation (some s) = ("expected_value", str s) ∷ []

-- The text that the current definition is expected to have as its name.
abbrev pub filled : Json → Option String
filled (str s) = if str_eq s "" then none else some s
filled _ = none

abbrev pub is_named : Option String → Json → Bool
is_named none value = true
is_named (some s) (str name) = str_eq name s
is_named (some s) _ = false

abbrev pub text_json : Option String → Json
text_json none = undefined
text_json (some s) = str s

-- The evaluations that are asked for, which the profile must allow if there are any.
unfoldable pub requests_of : Fields → EmacsSession → Tool (List Fields)
requests_of args session = do
  parsed ←
      reads (λ (s : Server). workflow_evaluation_requests s.world.text_of (at "evaluation" args))
  requests ← lift parsed
  if is_empty requests then pure tt else lift (assert_structured_eval session)
  pure requests

module _ (step : Step) where
  unfoldable pub create_checkpoint : String → Tool String
  create_checkpoint label = do
    created ← step "emacs_checkpoint" (fields (("action", str "create") ∷ []))
    checkpoint ← lift (workflow_record created label)
    lift (required_string checkpoint "checkpoint_id")

  unfoldable pub commit_checkpoint : String → Tool Json
  commit_checkpoint checkpoint_id =
      step "emacs_checkpoint"
        (fields (("action", str "commit") ∷ ("checkpoint_id", str checkpoint_id) ∷ []))

  unfoldable pub validate : Fields → Tool Fields
  validate args = do
    validated ← step "emacs_validate" (
        fields (
          ("adapter", str "lisp") ∷ ("options", object_or_empty (at "validate_options" args)) ∷ []))
    lift (workflow_validation validated "lisp")

  -- The members of the answer for a run of evaluations that was stopped.
  abbrev stopped_members : List (String × Json) → Run → Option String → Fields
  stopped_members more run expected =
      assign (fields more) (fields (("evaluations", array run.results) ∷ expectation expected))

  -- The end of a workflow: the evaluations that are left, and the commit.
  unfoldable pub evaluate_and_commit :
      String
      → String
      → List Json
      → List Fields
      → List (String × Json)
      → List (String × Json)
      → Tool Ending
  evaluate_and_commit checkpoint_id operation evaluated requests more reported = do
    run ← workflow_run_evaluations step evaluated requests
    elim run.failed [
      | some (reason, expected) ↦ pure (proposal reason (stopped_members more run expected) true)
      | none ↦ commit_checkpoint checkpoint_id >>= λ commit. pure (
          committed (
            obj (
              assign
                (assign
                  (fields (
                    ("operation", str operation)
                    ∷ ("status", str "committed")
                    ∷ ("checkpoint_id", str checkpoint_id)
                    ∷ ("transaction_scope", workflow_transaction_scope (is_some_result run.results))
                    ∷ reported))
                  (fields (evaluation_members run.results)))
                (fields (("commit", commit) ∷ [])))))
    ]

  unfoldable pub repair_body : String → Fields → Fields → String → List Fields → Tool Ending
  repair_body checkpoint_id args edit operation requests = do
    edited ← step "emacs_edit" (
        with_precondition (at "precondition" args)
          (assign edit (fields (("operation", str operation) ∷ []))))
    validation ← validate args
    let reported = ("edit", edited) ∷ ("validation", obj validation) ∷ []
    if is_true (at "valid" validation)
        then evaluate_and_commit checkpoint_id "repair_lisp" [] requests reported reported
        else pure (proposal "validation_failed" (fields reported) false)

  unfoldable pub workflow_repair_lisp : EmacsSession → Fields → Tool Json
  workflow_repair_lisp session args = do
    edit ← lift (assert_object (at "edit" args) "edit")
    operation ← lift (required_string edit "operation")
    lift (
        ensure
          (one_of operation
            ("insert" ∷ "replace_range" ∷ "delete_range" ∷ "apply_unified_diff" ∷ []))
          invalid_argument
          "repair_lisp edit operation must be insert, replace_range, delete_range, or apply_unified_diff."
          none)
    requests ← requests_of args session
    checkpoint_id ← create_checkpoint "repair checkpoint"
    transaction step checkpoint_id "repair_lisp"
        (repair_body checkpoint_id args edit operation requests)

  unfoldable pub observe_lisp : Tool Fields
  observe_lisp = do
    observed ← step "emacs_capabilities" (fields (("operation", str "adapter_observe") ∷ []))
    lift (workflow_lisp_observation observed)

  -- What is left of `refactor_defun` once the text is valid.
  unfoldable pub refactor_rest :
      String → Option String → Number × Number → Fields → List Fields → Tool Ending
  refactor_rest checkpoint_id expected bounds validation requests = do
    answered ←
        step "emacs_navigate"
          (fields (("operation", str "goto_position") ∷ ("position", num bounds.0) ∷ []))
    after ← observe_lisp
    let name = or_else (at "defun_name" after) null
    if is_named expected (at "defun_name" after)
        then evaluate_and_commit checkpoint_id "refactor_defun" [] requests
            (("validation", obj validation) ∷ [])
            (("defun_bounds_before", array (num bounds.0 ∷ num bounds.1 ∷ []))
              ∷ ("defun_name", name)
              ∷ ("validation", obj validation)
              ∷ [])
        else pure (
            proposal "defun_identity_changed"
              (fields (
                ("expected_name", text_json expected)
                ∷ ("actual_name", name)
                ∷ ("validation", obj validation)
                ∷ []))
              false)

  unfoldable pub refactor_body :
      String → Fields → String → Option String → Number × Number → List Fields → Tool Ending
  refactor_body checkpoint_id args replacement expected bounds requests = do
    edited ← step "emacs_edit" (
        with_precondition (at "precondition" args) (
          fields (
            ("operation", str "replace_range")
            ∷ ("start", num bounds.0)
            ∷ ("end", num bounds.1)
            ∷ ("text", str replacement)
            ∷ [])))
    validation ← validate args
    if is_true (at "valid" validation)
        then refactor_rest checkpoint_id expected bounds validation requests
        else pure (
            proposal "validation_failed"
              (fields (
                ("defun_bounds_before", array (num bounds.0 ∷ num bounds.1 ∷ []))
                ∷ ("edit", edited)
                ∷ ("validation", obj validation)
                ∷ []))
              false)

  unfoldable pub workflow_refactor_defun : EmacsSession → Fields → Tool Json
  workflow_refactor_defun session args = do
    replacement ← lift (required_string args "replacement")
    size ← reads (λ (s : Server). s.world.byte_length replacement)
    lift (
        ensure (leb size 262144) invalid_argument
          "refactor_defun replacement exceeds the 256 KiB safety bound." none)
    before ← observe_lisp
    bounds ← lift (workflow_bounds (at "defun_bounds" before) "Lisp defun observation")
    let expected = filled (at "expected_name" args)
    lift (
        ensure (is_named expected (at "defun_name" before)) state_conflict
          "The current Lisp defun does not match expected_name."
          (some (
            fields (
              ("expected_name", text_json expected)
              ∷ ("actual_name", or_else (at "defun_name" before) null)
              ∷ []))))
    requests ← requests_of args session
    checkpoint_id ← create_checkpoint "refactor checkpoint"
    transaction step checkpoint_id "refactor_defun"
        (refactor_body checkpoint_id args replacement expected bounds requests)
