-- ===== src/Router/Workflow/Structure.antt =====
-- packages/mcp-server/src/tools/toolRouter.ts: the workflows `move_form` and `transform_sexp`.
use Prim.Native.String
use emacs_llvm.Base.{String, Bool, false, ◌||◌, not, none, List, [], ◌∷◌, if◌then◌else◌}
use emacs_llvm.Base.Json.{Json, bool, num, str, obj, Fields, at, Number}
use emacs_llvm.Base.Values.{array, fields, is_true, natural, floor, less}
use emacs_llvm.Base.Exec.{pure, lift, ◌>>=◌, ◌>>◌}
use emacs_llvm.Protocol.Errors.{ensure, invalid_argument}
use emacs_llvm.Protocol.Validation.{required_string}
use emacs_llvm.Sessions.{EmacsSession}
use emacs_llvm.Router.State.{Tool}
use emacs_llvm.Router.Arguments.{one_of}
use emacs_llvm.Router.Workflow.Answers.{workflow_command_return}
use emacs_llvm.Router.Workflow.Steps.{Step, Ending, proposal, transaction}
use emacs_llvm.Router.Workflow.Lisp.{
  with_precondition, requests_of, create_checkpoint, validate, evaluate_and_commit,
}

abbrev direction_of : Json → String
direction_of (str s) = s
direction_of _ = "down"

abbrev pub count_of : Json → Number
count_of (num n) = floor n
count_of _ = natural 1

-- From 1 to 100.
abbrev pub count_ok : Number → Bool
count_ok n = not (less n (natural 1) || less (natural 100) n)

module _ (step : Step) where
  unfoldable pub lisp_command_body :
      String → String → String → List Json → Fields → List Fields → Tool Ending
  lisp_command_body checkpoint_id operation command arguments args requests = do
    mutated ← step "emacs_command" (
        with_precondition (at "precondition" args) (
          fields (
            ("command", str command)
            ∷ ("interactive", bool false)
            ∷ ("arguments", array arguments)
            ∷ [])))
    mutation ← lift (workflow_command_return mutated)
    validation ← validate step args
    let reported = ("mutation", mutation) ∷ ("validation", obj validation) ∷ []
    if is_true (at "valid" validation)
        then evaluate_and_commit step checkpoint_id operation [] requests reported reported
        else pure (proposal "validation_failed" (fields reported) false)

  unfoldable pub workflow_validated_lisp_command :
      EmacsSession → String → String → List Json → Fields → Tool Json
  workflow_validated_lisp_command session operation command arguments args = do
    requests ← requests_of args session
    checkpoint_id ← create_checkpoint step (String.◌++◌ operation " checkpoint")
    transaction step checkpoint_id operation
        (lisp_command_body checkpoint_id operation command arguments args requests)

  unfoldable pub workflow_move_form : EmacsSession → Fields → Tool Json
  workflow_move_form session args = do
    let direction = direction_of (at "direction" args)
    lift (
        ensure (one_of direction ("up" ∷ "down" ∷ "backward" ∷ "forward" ∷ [])) invalid_argument
          "move_form direction must be up, down, backward, or forward." none)
    let count = count_of (at "count" args)
    lift (ensure (count_ok count) invalid_argument "move_form count must be from 1 to 100." none)
    workflow_validated_lisp_command session "move_form" "emacs-operator-lisp-move-top-level-form"
        (str direction ∷ num count ∷ []) args

  unfoldable pub workflow_transform_sexp : EmacsSession → Fields → Tool Json
  workflow_transform_sexp session args = do
    transform ← lift (required_string args "transform")
    lift (
        ensure
          (one_of transform (
            "slurp_forward" ∷ "barf_forward" ∷ "splice" ∷ "wrap_round" ∷ "raise" ∷ "split" ∷ "join"
            ∷ "indent_defun" ∷ []))
          invalid_argument
          (String.◌++◌ "Unsupported structural transform: " (String.◌++◌ transform ".")) none)
    let count = count_of (at "count" args)
    lift (
        ensure (count_ok count) invalid_argument "transform_sexp count must be from 1 to 100." none)
    workflow_validated_lisp_command session "transform_sexp" "emacs-operator-lisp-structural-edit"
        (str transform ∷ num count ∷ []) args
