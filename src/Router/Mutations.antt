-- ===== src/Router/Mutations.antt =====
-- packages/mcp-server/src/tools/toolRouter.ts: the tools that change something in Emacs.
pub mod Evaluation
use emacs_llvm.Base.{
  String, Bool, true, false, not, Option, none, some, [], ◌∷◌, if◌then◌else◌, str_eq,
}
use emacs_llvm.Base.Json.{
  Json, undefined, null, bool, num, str, arr, obj, Fields, end, at, nat, truthy,
}
use emacs_llvm.Base.Values.{
  object, array, fields, assign, or_else, object_of, is_not_false, string_or_null, clamp_floor,
}
use emacs_llvm.Base.Exec.{pure, lift, reads, ◌>>=◌, ◌>>◌, outcome}
use emacs_llvm.Protocol.Errors.{Result, ok, throw, ensure, invalid_argument, policy_denied}
use emacs_llvm.Protocol.Validation.{required_string, validate_precondition}
use emacs_llvm.Protocol.Keys.{validate_internal_key_steps}
use emacs_llvm.Policy.{
  assert_mutation, assert_file_path, assert_arbitrary_elisp, assert_structured_eval, assert_channel,
}
use emacs_llvm.Sessions.{EmacsSession, ExecutionChannel, native_keys}
use emacs_llvm.Router.State.{
  Server, Tool, driver, exchange, request, set_before, set_after, mark_mutation, acquire, retarget,
  current_session,
}
use emacs_llvm.Router.Arguments.{
  one_of, member, snake_target, native_target, policy_context, state_summary,
}
use emacs_llvm.Router.Registry.{find_record}
use emacs_llvm.Router.Reads.{observe_compact}
use emacs_llvm.Router.Renames.{prepare_project_rename_symbols}
use emacs_llvm.Router.NativeKeys.{channel_of, native_events, steps_of, verify_native_execution}
use emacs_llvm.Router.Mutations.Evaluation.{may_mutate, may_write, precondition, reported}

-- `if (result.target && typeof result.target === "object") this.sessions.updateTarget(…)`
unfoldable pub follow_target : Json → EmacsSession → Tool (Unit {0})
follow_target result session = do
  target ← lift (member "target" result)
  elim (object_of target) [
    | none ↦ pure tt
    | some fs ↦ retarget session target >>= λ updated. pure tt
  ]

abbrev restored : Fields → Json → EmacsSession → Tool (Unit {0})
restored args result session =
    if is_not_false (at "restore_frontmost" args)
    then (do
      previous ← lift (member "previous_frontmost" result)
      if truthy previous
          then (exchange driver (some session) "restore_application" previous >>= λ r. pure tt)
          else pure tt)
    else pure tt

-- What is checked once the keys have been sent.
abbrev pub native_check : Fields → EmacsSession → Json → Tool Json
native_check args session result = do
  observed ← observe_compact session
  set_after (state_summary observed)
  verification ← lift (verify_native_execution observed (at "verify" args))
  pure (
      object (("execution", result) ∷ ("verification", verification) ∷ ("observed", observed) ∷ []))

unfoldable pub send_native : Fields → EmacsSession → Tool Json
send_native args session = do
  found ← find_record (some session.instance_id)
  mapped ← reads (λ (s : Server). native_events s.world.text_of (steps_of (at "steps" args)))
  events ← lift mapped
  result ← exchange driver (some session) "send_key_sequence" (
      object (
        ("target", native_target session found.pid undefined undefined)
        ∷ ("events", arr events)
        ∷ ("raise_window", bool true)
        ∷ ("restore_frontmost", bool false)
        ∷ ("timeout_milliseconds", nat 1500)
        ∷ []))
  checked ← outcome (native_check args session result)
  restored args result session
  lift checked

unfoldable pub send_internal : Fields → EmacsSession → Tool Json
send_internal args session = do
  result ← request session "keys.execute" (
      object (
        ("target", snake_target session)
        ∷ ("steps", at "steps" args)
        ∷ ("precondition", precondition args)
        ∷ ("verify", or_else (at "verify" args) null)
        ∷ ("preserve_user_selection", bool true)
        ∷ ("policy", policy_context session)
        ∷ []))
  follow_target result session
  updated ← current_session session.session_id
  observed ← observe_compact updated
  set_after (state_summary observed)
  pure (reported result observed)

abbrev is_native : ExecutionChannel → Bool
is_native native_keys = true
is_native _ = false

unfoldable pub emacs_key_sequence : Fields → EmacsSession → Tool Json
emacs_key_sequence args session = do
  may_mutate session
  may_write session
  channel ← lift (channel_of (at "channel" args) session.default_channel)
  lift (assert_channel session channel)
  validated ← reads (λ (s : Server). validate_internal_key_steps s.world.text_of (at "steps" args))
  lift validated
  lift (validate_precondition (at "precondition" args))
  before ← observe_compact session
  set_before (state_summary before)
  if is_native channel then send_native args session else send_internal args session

abbrev arguments : Json → Json
arguments (arr xs) = arr xs
arguments _ = array []

unfoldable pub emacs_command : Fields → EmacsSession → Tool Json
emacs_command args session = do
  may_mutate session
  may_write session
  lift (validate_precondition (at "precondition" args))
  before ← observe_compact session
  set_before (state_summary before)
  command ← lift (required_string args "command")
  result ← request session "command.execute" (
      object (
        ("target", snake_target session)
        ∷ ("command", str command)
        ∷ ("interactive", bool (is_not_false (at "interactive" args)))
        ∷ ("prefix", or_else (at "prefix" args) null)
        ∷ ("arguments", arguments (at "arguments" args))
        ∷ ("precondition", precondition args)
        ∷ ("preserve_user_selection", bool true)
        ∷ ("policy", policy_context session)
        ∷ []))
  follow_target result session
  updated ← current_session session.session_id
  observed ← observe_compact updated
  set_after (state_summary observed)
  pure (reported result observed)
