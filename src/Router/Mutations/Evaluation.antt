-- ===== src/Router/Mutations/Evaluation.antt =====
-- packages/mcp-server/src/tools/toolRouter.ts: what every tool that changes something begins with, and
-- `emacs_eval` and `emacs_project_rename`.
use emacs_llvm.Base.{String, Bool, false, not, Option, none, some, [], ◌∷◌, if◌then◌else◌, str_eq}
use emacs_llvm.Base.Json.{Json, null, bool, num, str, obj, Fields, end, at, nat}
use emacs_llvm.Base.Values.{
  object, fields, assign, or_else, is_not_false, string_or_null, clamp_floor,
}
use emacs_llvm.Base.Exec.{pure, lift, reads, ◌>>=◌, ◌>>◌}
use emacs_llvm.Protocol.Errors.{Result, ok, throw, ensure, invalid_argument, policy_denied}
use emacs_llvm.Protocol.Validation.{required_string, validate_precondition}
use emacs_llvm.Policy.{
  assert_mutation, assert_file_path, assert_arbitrary_elisp, assert_structured_eval,
}
use emacs_llvm.Sessions.{EmacsSession}
use emacs_llvm.Router.State.{Server, Tool, request, set_before, set_after, mark_mutation, acquire}
use emacs_llvm.Router.Arguments.{one_of, snake_target, policy_context, state_summary}
use emacs_llvm.Router.Reads.{observe_compact}
use emacs_llvm.Router.Renames.{prepare_project_rename_symbols}

-- What every such tool begins with.
unfoldable pub may_mutate : EmacsSession → Tool (Unit {0})
may_mutate session = do mark_mutation; lift (assert_mutation session); acquire session

abbrev file_allowed : Server → EmacsSession → Option String → Result (Unit {0})
file_allowed s session none = ok tt
file_allowed s session (some file) =
    if str_eq file ""
    then ok tt
    else assert_file_path s.world.resolve s.world.relative_to s.world.is_absolute session file

-- `if (session.target.file) this.policy.assertFilePath(…)`
unfoldable pub may_write : EmacsSession → Tool (Unit {0})
may_write session = do
  allowed ← reads (λ (s : Server). file_allowed s session session.target.file)
  lift allowed

abbrev milliseconds : Json → Json
milliseconds (num n) = nat (clamp_floor 1 30000 n)
milliseconds _ = null

abbrev has_code : Json → Bool
has_code (str s) = not (str_eq s "")
has_code _ = false

abbrev pub precondition : Fields → Json
precondition args = or_else (at "precondition" args) null

abbrev pub reported : Json → Json → Json
reported result observed = object (("execution", result) ∷ ("observed", observed) ∷ [])

abbrev refuse_elisp : String → EmacsSession → Tool (Unit {0})
refuse_elisp language session =
    if str_eq language "elisp"
    then (lift (assert_arbitrary_elisp session)
        >> lift (
            throw policy_denied "Arbitrary Emacs Lisp source evaluation is disabled in this build."
              none))
    else pure tt

unfoldable pub emacs_eval : Fields → EmacsSession → Tool Json
emacs_eval args session = do
  may_mutate session
  may_write session
  language ← lift (required_string args "language")
  refuse_elisp language session
  lift (assert_structured_eval session)
  operation ← lift (required_string args "operation")
  lift (
      ensure (not (has_code (at "code" args))) policy_denied
        "Source-string evaluation is disabled. Use a structured operation on code already present in the target buffer."
        none)
  lift (validate_precondition (at "precondition" args))
  before ← observe_compact session
  set_before (state_summary before)
  result ← request session "adapter.eval" (
      object (
        ("target", snake_target session)
        ∷ ("language", str language)
        ∷ ("operation", str operation)
        ∷ ("adapter", or_else (at "adapter" args) null)
        ∷ ("timeout_ms", milliseconds (at "timeout_ms" args))
        ∷ ("code", str "")
        ∷ ("precondition", precondition args)
        ∷ ("policy", policy_context session)
        ∷ []))
  observed ← observe_compact session
  set_after (state_summary observed)
  pure (reported result observed)

abbrev rename_action : String → Bool
rename_action action =
    one_of action ("plan" ∷ "preview" ∷ "apply" ∷ "status" ∷ "rollback" ∷ "commit" ∷ [])

abbrev pub mutating_action : String → Bool
mutating_action action = one_of action ("apply" ∷ "rollback" ∷ "commit" ∷ [])

abbrev preview_edits : Json → Json
preview_edits (num n) = nat (clamp_floor 1 200 n)
preview_edits _ = null

abbrev pub semantics : String → Fields → Json → Tool Fields
semantics action args before =
    if str_eq action "plan"
    then (do
      prepared ← reads (λ (s : Server).
          prepare_project_rename_symbols s.world.upper s.world.string_from args before)
      lift prepared)
    else pure end

-- The request of a rename, which changes something if its action does.
unfoldable pub rename_request : String → Fields → EmacsSession → Fields → Tool Json
rename_request action args session members = request session "refactor.project_rename" (
    obj (
      assign
        (assign (fields (("target", snake_target session) ∷ ("action", str action) ∷ [])) members)
        (fields (
          ("include_definitions", bool (is_not_false (at "include_definitions" args)))
          ∷ ("plan_id", string_or_null (at "plan_id" args))
          ∷ ("journal_id", string_or_null (at "journal_id" args))
          ∷ ("max_preview_edits", preview_edits (at "max_preview_edits" args))
          ∷ ("precondition", precondition args)
          ∷ ("policy", policy_context session)
          ∷ []))))

-- The tool behind the lease.
unfoldable pub project_rename : String → Fields → EmacsSession → Tool Json
project_rename action args session = do
  lift (validate_precondition (at "precondition" args))
  before ← observe_compact session
  set_before (state_summary before)
  members ← semantics action args before
  result ← rename_request action args session members
  observed ← observe_compact session
  set_after (state_summary observed)
  pure (object (("project_rename", result) ∷ ("observed", observed) ∷ []))

unfoldable pub emacs_project_rename : Fields → EmacsSession → Tool Json
emacs_project_rename args session = do
  action ← lift (required_string args "action")
  lift (ensure (rename_action action) invalid_argument "Unsupported project rename action." none)
  if mutating_action action
      then (may_mutate session >> project_rename action args session)
      else project_rename action args session
