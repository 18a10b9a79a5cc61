-- ===== src/BridgeClient/Messages.antt =====
-- packages/bridge-client/src/client.ts: `onData`.
use emacs_llvm.Base.{
  ℕ, String, Option, none, some, List, [], ◌∷◌, ◌++◌, if◌then◌else◌, str_eq, ◌⊎◌, inl, inr,
}
use emacs_llvm.Base.Bytes.{Text}
use emacs_llvm.Base.Map.{get, delete}
use emacs_llvm.Base.Json.{Json, null, str, obj, Fields, field, end, at}
use emacs_llvm.Base.Values.{object_of, record_of, string_of, or_else}
use emacs_llvm.Protocol.Errors.{
  ErrorCode, code_name, OperatorError, operator_error, operator, error, Thrown, Result, ok, err,
  invalid_argument, schema_validation, auth_failed, instance_not_found, emacs_disconnected,
  session_not_found, session_expired, target_not_found, target_stale, state_conflict,
  analysis_unresolved, mutation_locked, permission_denied, policy_denied, command_not_found,
  command_not_interactive, command_failed, command_quit, key_parse_failed, key_unbound,
  minibuffer_unexpected, command_timeout, wait_timeout, transaction_not_found, transaction_conflict,
  rollback_failed, native_driver_unavailable, accessibility_not_granted, screen_capture_not_granted,
  focus_failed, frontmost_mismatch, user_interference, input_injection_failed, capture_failed,
  external_side_effect, internal,
}
use emacs_llvm.Framing.{push}
use emacs_llvm.BridgeClient.{
  BridgeClient, Outcome, clear_timeout, destroy, reject_all, rejected, resolved, settle,
}

-- `ERROR_CODES`, in its order.
abbrev error_codes : List ErrorCode
error_codes =
    invalid_argument ∷ schema_validation ∷ auth_failed ∷ instance_not_found ∷ emacs_disconnected
    ∷ session_not_found ∷ session_expired ∷ target_not_found ∷ target_stale ∷ state_conflict
    ∷ analysis_unresolved ∷ mutation_locked ∷ permission_denied ∷ policy_denied ∷ command_not_found
    ∷ command_not_interactive ∷ command_failed ∷ command_quit ∷ key_parse_failed ∷ key_unbound
    ∷ minibuffer_unexpected ∷ command_timeout ∷ wait_timeout ∷ transaction_not_found
    ∷ transaction_conflict ∷ rollback_failed ∷ native_driver_unavailable ∷ accessibility_not_granted
    ∷ screen_capture_not_granted ∷ focus_failed ∷ frontmost_mismatch ∷ user_interference
    ∷ input_injection_failed ∷ capture_failed ∷ external_side_effect ∷ internal ∷ []

unfoldable pub code_in : String → List ErrorCode → Option ErrorCode
code_in name [] = none
code_in name (code ∷ codes) = if str_eq (code_name code) name then some code else code_in name codes

-- The code that an answer gives, if it is one of the program's.
abbrev pub known_code : Json → Option ErrorCode
known_code (str name) = code_in name error_codes
known_code _ = none

abbrev pub details_of : Json → Option Fields
details_of (obj fs) = some fs
details_of _ = none

-- What `JSON.parse` does with a text.
pub data Parsed : Type 0 where
  parsed : Json → Parsed
  throws : Thrown → Parsed

-- The error of the runtime when a member of `null` is read.
abbrev no_members : Thrown
no_members = error "Cannot read properties of null (reading 'id')"

-- The `catch` clause of `onData`.
unfoldable pub drop_all : Thrown → BridgeClient → BridgeClient
drop_all thrown c = record (reject_all thrown c) { socket = destroy (reject_all thrown c).socket }

-- `string` is `String`, which throws for an object that has no text, `parse` is `JSON.parse`, which
-- may throw.
module _ (string : Json → Thrown ⊎ String) where
  -- An error whose message is the text of a value.
  unfoldable pub worded : Json → (String → OperatorError) → Thrown ⊎ Outcome
  worded value error_of = elim (string value) [
    | inl thrown ↦ inl thrown
    | inr text ↦ inr (rejected (operator (error_of text)))
  ]

  -- The error that an answer carries.
  unfoldable pub rejection : Fields → Thrown ⊎ Outcome
  rejection rpc_error =
      let info = record_of (at "data" rpc_error) in
      elim (known_code (at "code" info)) [
        | some code ↦
            worded (or_else (at "message" rpc_error) (str (code_name code)))
              (λ text. operator_error code text (details_of (at "details" info)))
        | none ↦ worded (or_else (at "message" rpc_error) (str "Bridge JSON-RPC error.")) (λ text.
            operator_error command_failed text
              (some (field "rpc_code" (or_else (at "code" rpc_error) null) end)))
      ]

  unfoldable pub answer_of : Fields → Thrown ⊎ Outcome
  answer_of message = elim (object_of (at "error" message)) [
    | some rpc_error ↦ rejection rpc_error
    | none ↦ inr (resolved (at "result" message))
  ]

  -- The request is off the map, and its timer is cleared, before the answer is read: if that throws,
  -- the request is not settled.
  abbrev pub settled_by : Thrown ⊎ Outcome → ℕ → BridgeClient → Option Thrown × BridgeClient
  settled_by (inl thrown) call c = (
    some thrown,
    record c { timers = clear_timeout call c.timers; forgotten = c.forgotten ++ call ∷ [] },
  )
  settled_by (inr outcome) call c = (none, settle call outcome c)

  -- One message, and what it throws. The identifiers of requests are texts, so that no other one is
  -- found.
  unfoldable pub receive : Fields → BridgeClient → Option Thrown × BridgeClient
  receive message c = elim (string_of (at "id" message)) [
    | none ↦ (none, c)
    | some id ↦ elim (get id c.pending) [
      | none ↦ (none, c)
      | some call ↦ settled_by (answer_of message) call (record c { pending = delete id c.pending })
    ]
  ]

  -- What reading a text gives: its value, or what `JSON.parse` throws. Of `null` no member is read.
  unfoldable pub members_of : Parsed → Thrown ⊎ Fields
  members_of (throws thrown) = inl thrown
  members_of (parsed null) = inl no_members
  members_of (parsed value) = inr (record_of value)

  unfoldable pub receive_text : Thrown ⊎ Fields → BridgeClient → Option Thrown × BridgeClient
  receive_text (inl thrown) c = (some thrown, c)
  receive_text (inr message) c = receive message c

  module _ (parse : Text → Parsed) where
    -- The loop over the messages of a chunk, up to one that throws.
    unfoldable pub receive_each : List Text → BridgeClient → BridgeClient
    receive_each [] c = c
    receive_each (text ∷ texts) c =
        let (stopped, d) = receive_text (members_of (parse text)) c in
        elim stopped [ none ↦ receive_each texts d | some thrown ↦ drop_all thrown d ]

    module _ (number : Text → Option ℕ) (max_message_bytes : ℕ) where
      abbrev pub received : Result (List Text) × Text → BridgeClient → BridgeClient
      received (err e, buffer) c = drop_all (operator e) (record c { buffer = buffer })
      received (ok texts, buffer) c = receive_each texts (record c { buffer = buffer })

      unfoldable pub on_data : Text → BridgeClient → BridgeClient
      on_data chunk c = received (push number max_message_bytes c.buffer chunk) c
