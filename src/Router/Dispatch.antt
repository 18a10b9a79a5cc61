-- ===== src/Router/Dispatch.antt =====
-- packages/mcp-server/src/tools/toolRouter.ts: `dispatch` and `call`. The tool `emacs_workflow` is an
-- argument here: its steps are calls of the other tools.
use Prim.Native.String
use emacs_llvm.Base.{String, true, none, [], ◌∷◌, map, if◌then◌else◌, str_eq}
use emacs_llvm.Base.Json.{Json, bool, str, obj, Fields, end, at, nat, truthy}
use emacs_llvm.Base.Values.{object, array, fields, assign, record_of}
use emacs_llvm.Base.Exec.{pure, lift, reads, ◌>>=◌, ◌>>◌}
use emacs_llvm.Protocol.Errors.{ok, throw, invalid_argument}
use emacs_llvm.Protocol.Validation.{required_string, validate_precondition}
use emacs_llvm.Sessions.{EmacsSession, close}
use emacs_llvm.Router.State.{
  Discovered, Server, Tool, driver, exchange, with_sessions, current_session, set_instance,
  set_before, set_after,
}
use emacs_llvm.Router.Arguments.{state_summary}
use emacs_llvm.Router.Registry.{client}
use emacs_llvm.Router.Reads.{
  observe_compact, emacs_observe, emacs_read, emacs_navigate, emacs_capabilities, emacs_validate,
  emacs_wait, emacs_analyze, emacs_capture,
}
use emacs_llvm.Router.Mutations.{emacs_key_sequence, emacs_command}
use emacs_llvm.Router.Mutations.Evaluation.{may_mutate, may_write, emacs_eval, emacs_project_rename}
use emacs_llvm.Router.Edits.{emacs_edit, emacs_checkpoint, emacs_rollback}
use emacs_llvm.Router.Verify.{emacs_verification}
use emacs_llvm.Router.Open.{emacs_session_open}

abbrev phases : Json
phases = array (map (λ n. nat n) (0 ∷ 1 ∷ 2 ∷ 3 ∷ 4 ∷ 5 ∷ 6 ∷ 7 ∷ 8 ∷ []))

abbrev native_keyboard : Fields → Json
native_keyboard d = if truthy (at "connected" d) then at "native_keyboard" d else at "connected" d

unfoldable pub emacs_health : Tool Json
emacs_health = do
  can ← exchange driver none "initialize" (obj end)
  version ← reads (λ (s : Server). s.world.version)
  pure (
      object (
        ("status", str "ok")
        ∷ ("version", str version)
        ∷ ("implemented_phases", phases)
        ∷ ("source_phases", phases)
        ∷ (
          "verification",
          object (
              ("typescript_runtime", bool true)
              ∷ ("emacs_runtime_required", bool true)
              ∷ ("macos_native_runtime_required", bool true)
              ∷ ("linux_native_runtime_required", bool true)
              ∷ []),
        )
        ∷ (
          "channels",
          object (
              ("semantic", bool true)
              ∷ ("internal_keys", bool true)
              ∷ ("native_keys", native_keyboard (record_of can))
              ∷ []),
        )
        ∷ ("native_driver", can)
        ∷ []))

abbrev discovered_json : Discovered → Json
discovered_json d =
    obj (assign d.body (fields (("stale", bool d.stale) ∷ ("process_alive", d.process_alive) ∷ [])))

unfoldable pub emacs_instances : Tool Json
emacs_instances = do
  can ← exchange driver none "initialize" (obj end)
  found ← reads (λ (s : Server). s.world.discover s.sent)
  pure (object (("instances", array (map discovered_json found)) ∷ ("native_driver", can) ∷ []))

unfoldable pub emacs_session_close : Fields → Tool Json
emacs_session_close args = do
  id ← lift (required_string args "session_id")
  session ← current_session id
  set_instance session.instance_id
  closed ← with_sessions (λ m. let (b, m') = close id m in (ok b, m'))
  pure (object (("closed", bool closed) ∷ []))

unfoldable pub unknown_tool : String → Tool Json
unknown_tool name =
    lift (throw invalid_argument (String.◌++◌ "Unknown tool: " (String.◌++◌ name ".")) none)

-- The tool `emacs_workflow` round the workflow itself.
unfoldable pub emacs_workflow :
    (Fields → EmacsSession → Tool Json) → Fields → EmacsSession → Tool Json
emacs_workflow workflow args session = do
  may_mutate session
  may_write session
  lift (validate_precondition (at "precondition" args))
  before ← observe_compact session
  set_before (state_summary before)
  result ← workflow args session
  current ← current_session session.session_id
  observed ← observe_compact current
  set_after (state_summary observed)
  pure (object (("workflow", result) ∷ ("observed", observed) ∷ []))

module _ (workflow : Fields → EmacsSession → Tool Json) where
  -- The tools that work in a session.
  unfoldable pub tool : String → Fields → EmacsSession → Tool Json
  tool name args session =
      if str_eq name "emacs_observe"
      then emacs_observe args session
      else if str_eq name "emacs_read"
      then emacs_read args session
      else if str_eq name "emacs_navigate"
      then emacs_navigate args session
      else if str_eq name "emacs_capabilities"
      then emacs_capabilities args session
      else if str_eq name "emacs_validate"
      then emacs_validate args session
      else if str_eq name "emacs_wait"
      then emacs_wait args session
      else if str_eq name "emacs_analyze"
      then emacs_analyze args session
      else if str_eq name "emacs_capture"
      then emacs_capture args session
      else if str_eq name "emacs_eval"
      then emacs_eval args session
      else if str_eq name "emacs_workflow"
      then emacs_workflow workflow args session
      else if str_eq name "emacs_verification"
      then emacs_verification args session
      else if str_eq name "emacs_project_rename"
      then emacs_project_rename args session
      else if str_eq name "emacs_key_sequence"
      then emacs_key_sequence args session
      else if str_eq name "emacs_command"
      then emacs_command args session
      else if str_eq name "emacs_edit"
      then emacs_edit args session
      else if str_eq name "emacs_checkpoint"
      then emacs_checkpoint args session
      else if str_eq name "emacs_rollback"
      then emacs_rollback args session
      else unknown_tool name

  unfoldable pub in_session : String → Fields → Tool Json
  in_session name args = do
    id ← lift (required_string args "session_id")
    session ← current_session id
    set_instance session.instance_id
    client session.instance_id
    tool name args session

  unfoldable pub dispatch : String → Fields → Tool Json
  dispatch name args =
      if str_eq name "emacs_health"
      then emacs_health
      else if str_eq name "emacs_instances"
      then emacs_instances
      else if str_eq name "emacs_session_open"
      then emacs_session_open args
      else if str_eq name "emacs_session_close"
      then emacs_session_close args
      else in_session name args
