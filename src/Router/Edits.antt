-- ===== src/Router/Edits.antt =====
-- packages/mcp-server/src/tools/toolRouter.ts: the tools that edit a buffer, and its checkpoints.
use emacs_llvm.Base.{String, none, [], ◌∷◌, if◌then◌else◌, str_eq}
use emacs_llvm.Base.Bytes.{codes}
use emacs_llvm.Base.Json.{Json, undefined, null, num, str, Fields, at}
use emacs_llvm.Base.Values.{object, or_else, record_of}
use emacs_llvm.Base.Exec.{pure, lift, reads, ◌>>=◌, ◌>>◌}
use emacs_llvm.Protocol.Errors.{Result, ok, throw, internal}
use emacs_llvm.Protocol.Validation.{required_string, validate_precondition}
use emacs_llvm.Protocol.Diff.{apply_unified_diff}
use emacs_llvm.Sessions.{EmacsSession}
use emacs_llvm.Router.State.{Server, Tool, request, set_before, set_after}
use emacs_llvm.Router.Arguments.{snake_target, policy_context, state_summary}
use emacs_llvm.Router.Reads.{observe_compact}
use emacs_llvm.Router.Mutations.Evaluation.{may_mutate, may_write}

abbrev nullish : String → Fields → Json
nullish key args = or_else (at key args) null

-- The text of the whole buffer, and where it stands.
pub record Resource : Type 0 where
  pub text : String
  pub start : Json
  pub stop : Json
  pub tick : Json

abbrev resource_from : Json → Json → Json → Json → Result Resource
resource_from (str text) (num start) (num stop) tick =
    ok (record { text = text; start = num start; stop = num stop; tick = tick })
resource_from _ _ _ _ =
    throw internal "Bridge returned an invalid full-buffer resource response." none

unfoldable pub full_resource : Json → Result Resource
full_resource undefined = throw internal "Cannot read properties of undefined" none
full_resource null = throw internal "Cannot read properties of null" none
full_resource value =
    let fs = record_of value in
    resource_from (at "text" fs) (at "start" fs) (at "end" fs) (at "buffer_tick" fs)

abbrev replacement : Fields → EmacsSession → Resource → String → Json
replacement args session r text = object (
    ("target", snake_target session)
    ∷ ("operation", str "replace_range")
    ∷ ("start", r.start)
    ∷ ("end", r.stop)
    ∷ ("text", str text)
    ∷ (
      "precondition",
      or_else (at "precondition" args)
          (object (("expected_buffer_tick", or_else r.tick undefined) ∷ [])),
    )
    ∷ ("policy", policy_context session)
    ∷ [])

-- The request for a diff: it is applied to the buffer's text here, and the whole text is replaced.
unfoldable pub diff_request : Fields → EmacsSession → Tool Json
diff_request args session = do
  diff ← lift (required_string args "diff")
  resource ←
      request session "resource.read"
        (object (("target", snake_target session) ∷ ("range", str "full") ∷ []))
  r ← lift (full_resource resource)
  next ← lift (apply_unified_diff (codes r.text) (codes diff))
  text ← reads (λ (s : Server). s.world.string_from next)
  pure (replacement args session r text)

abbrev plain_request : String → Fields → EmacsSession → Json
plain_request operation args session = object (
    ("target", snake_target session)
    ∷ ("operation", str operation)
    ∷ ("position", nullish "position" args)
    ∷ ("start", nullish "start" args)
    ∷ ("end", nullish "end" args)
    ∷ ("text", or_else (at "text" args) (str ""))
    ∷ ("precondition", nullish "precondition" args)
    ∷ ("policy", policy_context session)
    ∷ [])

unfoldable pub edit_request : String → Fields → EmacsSession → Tool Json
edit_request operation args session =
    if str_eq operation "apply_unified_diff"
    then diff_request args session
    else pure (plain_request operation args session)

unfoldable pub emacs_edit : Fields → EmacsSession → Tool Json
emacs_edit args session = do
  may_mutate session
  may_write session
  lift (validate_precondition (at "precondition" args))
  before ← observe_compact session
  set_before (state_summary before)
  operation ← lift (required_string args "operation")
  params ← edit_request operation args session
  result ← request session "edit.apply" params
  observed ← observe_compact session
  set_after (state_summary observed)
  pure (object (("execution", result) ∷ ("observed", observed) ∷ []))

abbrev action_of : Json → String
action_of (str s) = s
action_of _ = "create"

unfoldable pub commit_checkpoint : Fields → EmacsSession → Tool Json
commit_checkpoint args session = do
  checkpoint_id ← lift (required_string args "checkpoint_id")
  result ←
      request session "checkpoint.commit"
        (object (("target", snake_target session) ∷ ("checkpoint_id", str checkpoint_id) ∷ []))
  observed ← observe_compact session
  set_after (state_summary observed)
  pure result

unfoldable pub create_checkpoint : Fields → EmacsSession → Json → Tool Json
create_checkpoint args session before = do
  result ← request session "checkpoint.create" (
      object (
        ("target", snake_target session)
        ∷ ("scope", or_else (at "scope" args) (str "buffer"))
        ∷ []))
  set_after (state_summary before)
  pure result

unfoldable pub emacs_checkpoint : Fields → EmacsSession → Tool Json
emacs_checkpoint args session = do
  may_mutate session
  before ← observe_compact session
  set_before (state_summary before)
  if str_eq (action_of (at "action" args)) "commit"
      then commit_checkpoint args session
      else create_checkpoint args session before

unfoldable pub emacs_rollback : Fields → EmacsSession → Tool Json
emacs_rollback args session = do
  may_mutate session
  before ← observe_compact session
  set_before (state_summary before)
  checkpoint_id ← lift (required_string args "checkpoint_id")
  result ←
      request session "checkpoint.rollback"
        (object (("target", snake_target session) ∷ ("checkpoint_id", str checkpoint_id) ∷ []))
  observed ← observe_compact session
  set_after (state_summary observed)
  pure result
