-- ===== src/Router/Workflow/Rename.antt =====
-- packages/mcp-server/src/tools/toolRouter.ts: the workflow `rename_symbol`.
use Prim.Native.String
use emacs_llvm.Base.{
  String, Bool, true, false, ◌&&◌, ◌||◌, not, Option, none, some, List, [], ◌∷◌, if◌then◌else◌,
  str_eq, leb,
}
use emacs_llvm.Base.Json.{Json, null, bool, num, str, obj, Fields, at, Number}
use emacs_llvm.Base.Values.{array, fields, or_else, is_true, natural, floor, less}
use emacs_llvm.Base.Exec.{pure, lift, reads, ◌>>=◌, ◌>>◌}
use emacs_llvm.Protocol.Errors.{ensure, invalid_argument, state_conflict}
use emacs_llvm.Protocol.Validation.{required_string}
use emacs_llvm.Sessions.{EmacsSession}
use emacs_llvm.Router.State.{Server, Tool}
use emacs_llvm.Router.Arguments.{one_of}
use emacs_llvm.Router.Workflow.Answers.{workflow_record, workflow_command_return}
use emacs_llvm.Router.Workflow.Steps.{Step, Ending, proposal, transaction}
use emacs_llvm.Router.Workflow.Lisp.{
  with_precondition, filled, is_named, requests_of, create_checkpoint, validate,
  evaluate_and_commit, observe_lisp,
}

abbrev scope_of : Json → String
scope_of (str s) = s
scope_of _ = "current_defun"

abbrev limit_of : Json → Number
limit_of (num n) = floor n
limit_of _ = natural 10000

abbrev replaced : Json → Number
replaced (num n) = floor n
replaced _ = natural 0

abbrev is_given : Option String → Bool
is_given none = false
is_given (some s) = true

module _ (step : Step) where
  -- The definition round point has to have the name that is expected, if one is.
  unfoldable pub expect_defun : String → Option String → Tool (Unit {0})
  expect_defun operation none = pure tt
  expect_defun operation (some name) = do
    before ← observe_lisp step
    lift (
        ensure (is_named (some name) (at "defun_name" before)) state_conflict
          (String.◌++◌ "The current Lisp defun does not match expected_name for "
            (String.◌++◌ operation "."))
          (some (
            fields (
              ("expected_name", str name)
              ∷ ("actual_name", or_else (at "defun_name" before) null)
              ∷ []))))

  unfoldable pub rename_symbol_body : String → Fields → List Json → List Fields → Tool Ending
  rename_symbol_body checkpoint_id args arguments requests = do
    mutated ← step "emacs_command" (
        with_precondition (at "precondition" args) (
          fields (
            ("command", str "emacs-operator-lisp-rename-symbol")
            ∷ ("interactive", bool false)
            ∷ ("arguments", array arguments)
            ∷ [])))
    returned ← lift (workflow_command_return mutated)
    mutation ← lift (workflow_record returned "rename_symbol return value")
    if less (replaced (at "replacements" mutation)) (natural 1)
        then pure (proposal "symbol_not_found" (fields (("mutation", obj mutation) ∷ [])) false)
        else (do
          validation ← validate step args
          let reported = ("mutation", obj mutation) ∷ ("validation", obj validation) ∷ []
          if is_true (at "valid" validation)
              then evaluate_and_commit step checkpoint_id "rename_symbol" [] requests reported
                  reported
              else pure (proposal "validation_failed" (fields reported) false))

  unfoldable pub workflow_rename_symbol : EmacsSession → Fields → Tool Json
  workflow_rename_symbol session args = do
    old_symbol ← lift (required_string args "old_symbol")
    new_symbol ← lift (required_string args "new_symbol")
    short ← reads (λ (s : Server).
        leb (s.world.byte_length old_symbol) 512 && leb (s.world.byte_length new_symbol) 512)
    lift (ensure short invalid_argument "Lisp symbol tokens are limited to 512 bytes." none)
    let scope = scope_of (at "scope" args)
    lift (
        ensure (one_of scope ("current_defun" ∷ "buffer" ∷ [])) invalid_argument
          "rename_symbol scope must be current_defun or buffer." none)
    let most = limit_of (at "max_replacements" args)
    lift (
        ensure (not (less most (natural 1) || less (natural 10000) most)) invalid_argument
          "max_replacements must be from 1 to 10000." none)
    let expected = filled (at "expected_name" args)
    lift (
        ensure (not (is_given expected) || str_eq scope "current_defun") invalid_argument
          "rename_symbol expected_name is only valid with scope=current_defun." none)
    expect_defun "rename_symbol" expected
    requests ← requests_of args session
    checkpoint_id ← create_checkpoint step "rename checkpoint"
    transaction step checkpoint_id "rename_symbol" (
        rename_symbol_body checkpoint_id args
          (str old_symbol ∷ str new_symbol ∷ str scope ∷ num most ∷ []) requests)
