-- ===== src/Protocol/Errors.antt =====
-- packages/protocol/src/errors.ts: the error codes, their defaults, and `OperatorError`.
pub mod Laws
use emacs_llvm.Base.{ℕ, String, Bool, true, false, Option, none}
use emacs_llvm.Base.Json.{Fields}

-- `E_INVALID_ARGUMENT` is `invalid_argument`, and so on.
pub data ErrorCode : Type 0 where
  invalid_argument schema_validation auth_failed instance_not_found emacs_disconnected : ErrorCode
  session_not_found session_expired target_not_found target_stale state_conflict : ErrorCode
  analysis_unresolved mutation_locked permission_denied policy_denied command_not_found : ErrorCode
  command_not_interactive command_failed command_quit key_parse_failed key_unbound : ErrorCode
  minibuffer_unexpected command_timeout wait_timeout transaction_not_found : ErrorCode
  transaction_conflict rollback_failed native_driver_unavailable : ErrorCode
  accessibility_not_granted screen_capture_not_granted focus_failed frontmost_mismatch : ErrorCode
  user_interference input_injection_failed capture_failed external_side_effect internal : ErrorCode

-- `ERROR_CODES`, by their names on the wire.
unfoldable pub code_name : ErrorCode → String
code_name invalid_argument = "E_INVALID_ARGUMENT"
code_name schema_validation = "E_SCHEMA_VALIDATION"
code_name auth_failed = "E_AUTH_FAILED"
code_name instance_not_found = "E_INSTANCE_NOT_FOUND"
code_name emacs_disconnected = "E_EMACS_DISCONNECTED"
code_name session_not_found = "E_SESSION_NOT_FOUND"
code_name session_expired = "E_SESSION_EXPIRED"
code_name target_not_found = "E_TARGET_NOT_FOUND"
code_name target_stale = "E_TARGET_STALE"
code_name state_conflict = "E_STATE_CONFLICT"
code_name analysis_unresolved = "E_ANALYSIS_UNRESOLVED"
code_name mutation_locked = "E_MUTATION_LOCKED"
code_name permission_denied = "E_PERMISSION_DENIED"
code_name policy_denied = "E_POLICY_DENIED"
code_name command_not_found = "E_COMMAND_NOT_FOUND"
code_name command_not_interactive = "E_COMMAND_NOT_INTERACTIVE"
code_name command_failed = "E_COMMAND_FAILED"
code_name command_quit = "E_COMMAND_QUIT"
code_name key_parse_failed = "E_KEY_PARSE_FAILED"
code_name key_unbound = "E_KEY_UNBOUND"
code_name minibuffer_unexpected = "E_MINIBUFFER_UNEXPECTED"
code_name command_timeout = "E_COMMAND_TIMEOUT"
code_name wait_timeout = "E_WAIT_TIMEOUT"
code_name transaction_not_found = "E_TRANSACTION_NOT_FOUND"
code_name transaction_conflict = "E_TRANSACTION_CONFLICT"
code_name rollback_failed = "E_ROLLBACK_FAILED"
code_name native_driver_unavailable = "E_NATIVE_DRIVER_UNAVAILABLE"
code_name accessibility_not_granted = "E_ACCESSIBILITY_NOT_GRANTED"
code_name screen_capture_not_granted = "E_SCREEN_CAPTURE_NOT_GRANTED"
code_name focus_failed = "E_FOCUS_FAILED"
code_name frontmost_mismatch = "E_FRONTMOST_MISMATCH"
code_name user_interference = "E_USER_INTERFERENCE"
code_name input_injection_failed = "E_INPUT_INJECTION_FAILED"
code_name capture_failed = "E_CAPTURE_FAILED"
code_name external_side_effect = "E_EXTERNAL_SIDE_EFFECT"
code_name internal = "E_INTERNAL"

pub record Defaults : Type 0 where
  pub category : ℕ
  pub retryable : Bool
  pub recovery : String

abbrev entry : ℕ → Bool → String → Defaults
entry category retryable recovery = record {
  category = category;
  retryable = retryable;
  recovery = recovery;
}

unfoldable pub defaults : ErrorCode → Defaults
defaults invalid_argument = entry 400 false "Correct the tool arguments and retry."
defaults schema_validation = entry 400 false "Send arguments that match the published schema."
defaults auth_failed =
    entry 401 false "Rediscover the Emacs instance and reconnect using its current token."
defaults instance_not_found = entry 404 true "Call emacs_instances and select a live instance."
defaults emacs_disconnected = entry 503 true "Rediscover the Emacs instance and reopen the session."
defaults session_not_found = entry 404 true "Open a new Emacs session."
defaults session_expired = entry 410 true "Open a new Emacs session."
defaults target_not_found =
    entry 404 true "Observe available targets or reopen the session with a valid selector."
defaults target_stale = entry 409 true "Re-resolve the target and retry."
defaults state_conflict =
    entry 409 true "Call emacs_observe and re-plan the mutation from the new state."
defaults analysis_unresolved =
    entry 422 true
      "Narrow the analyzed forms or provide explicitly reviewed parameters instead of guessing."
defaults mutation_locked =
    entry 423 true "Close the competing mutation session or wait for its lease to be released."
defaults permission_denied =
    entry 403 false "Grant the required operating-system permission or use a non-native channel."
defaults policy_denied =
    entry 403 false
      "Use an allowed operation or open a session with an explicitly authorized profile."
defaults command_not_found = entry 404 true "Query capabilities and resolve an available command."
defaults command_not_interactive =
    entry 400 false "Use an interactive command or an allowlisted semantic function."
defaults command_failed = entry 422 true "Observe Emacs state and command messages before retrying."
defaults command_quit = entry 409 true "Observe state. Retry only if the interruption was expected."
defaults key_parse_failed = entry 400 false "Use valid Emacs kbd notation or structured key events."
defaults key_unbound =
    entry 422 true "Resolve the key binding in the target buffer before retrying."
defaults minibuffer_unexpected =
    entry 409 true "Observe the minibuffer prompt and provide a complete self-contained key flow."
defaults command_timeout =
    entry 504 true "Inspect Emacs state and retry with an appropriate bounded wait."
defaults wait_timeout =
    entry 504 true "Observe current state and adjust the wait predicate or timeout."
defaults transaction_not_found = entry 404 false "Create a new checkpoint."
defaults transaction_conflict =
    entry 409 true
      "Preserve user changes, observe state, and create a new checkpoint if appropriate."
defaults rollback_failed =
    entry 409 false "Do not overwrite external changes. Resolve the conflict manually."
defaults native_driver_unavailable =
    entry 503 false "Use semantic/internal_keys or install and start the platform host."
defaults accessibility_not_granted =
    entry 403 true
      "Grant the platform-specific desktop input/focus permission or use internal_keys."
defaults screen_capture_not_granted =
    entry 403 true
      "Grant the platform-specific window-capture permission or use semantic observation."
defaults focus_failed =
    entry 409 true "Verify the target Emacs process/window still exists and retry."
defaults frontmost_mismatch =
    entry 409 true "Reacquire the desktop lease, refocus Emacs, and verify the PID."
defaults user_interference =
    entry 409 true "Stop native input, release modifiers, and retry only after the desktop is idle."
defaults input_injection_failed =
    entry 500 true "Release all modifiers, verify permissions, and retry."
defaults capture_failed =
    entry 500 true "Verify screen-capture permissions and target window state."
defaults external_side_effect =
    entry 409 false "Review the irreversible side effect before taking further action."
defaults internal =
    entry 500 true "Inspect audit metadata and retry only after observing current Emacs state."

pub record OperatorError : Type 0 where
  pub code : ErrorCode
  pub message : String
  pub category : ℕ
  pub retryable : Bool
  pub recovery : String
  pub details : Option Fields

-- The constructor.
unfoldable pub operator_error : ErrorCode → String → Option Fields → OperatorError
operator_error code message details = record {
  code = code;
  message = message;
  category = (defaults code).category;
  retryable = (defaults code).retryable;
  recovery = (defaults code).recovery;
  details = details;
}

-- What a `catch` clause may hold: an `OperatorError`, another `Error`, or any other value with the
-- text that `String` gives of it.
pub data Thrown : Type 0 where
  operator : OperatorError → Thrown
  error : String → Thrown
  other : String → Thrown

unfoldable pub as_operator_error : Thrown → OperatorError
as_operator_error (operator e) = e
as_operator_error (error message) = operator_error internal message none
as_operator_error (other text) = operator_error internal text none

-- The outcome of code that may throw an `OperatorError`.
pub data Result {ℓ} (A : Type ℓ) : Type ℓ where
  err : OperatorError → Result A
  ok : A → Result A

-- A statement that may throw, in front of those that use its value.
infixl 5 ◌>>=◌
abbrev pub ◌>>=◌ {ℓ κ} : {T : Type ℓ} {U : Type κ} → Result T → (T → Result U) → Result U
err thrown >>= rest = err thrown
ok value >>= rest = rest value

-- One that is run for its test only.
infixl 5 ◌>>◌
abbrev pub ◌>>◌ {ℓ} : {U : Type ℓ} → Result (Unit {0}) → Result U → Result U
tested >> rest = tested >>= λ u. rest

-- `throw new OperatorError(code, message, details)`.
abbrev pub throw {ℓ} : {A : Type ℓ} → ErrorCode → String → Option Fields → Result A
throw code message details = err (operator_error code message details)

-- `if (!test) throw …`.
abbrev pub ensure : Bool → ErrorCode → String → Option Fields → Result (Unit {0})
ensure true code message details = ok tt
ensure false code message details = throw code message details
