-- ===== src/BridgeClient.antt =====
-- packages/bridge-client/src/client.ts: the requests to an Emacs that wait for their answer. What the
-- socket does comes in as a call of a handler: `on_connect`, `on_data`, `on_close`, `on_socket_error`
-- and, for a timer that is due, `on_timeout`. A promise is the number of its request.
pub mod Requests
pub mod Messages
pub mod Accounts
pub mod Histories
pub mod Outcomes
pub mod Answers
pub mod Cuts
use emacs_llvm.Base.{
  ℕ, suc, ◌+◌, String, Bool, true, false, ◌&&◌, not, Option, none, some, List, [], ◌∷◌, ◌++◌,
  if◌then◌else◌, ◌==◌, str_eq, ◌⊎◌, inl, inr,
}
use Prim.Native.String
use emacs_llvm.Base.Bytes.{Text}
use emacs_llvm.Base.Map.{JsMap, get, set, delete}
use emacs_llvm.Base.Json.{Json, undefined, null, str, obj, Fields, field, end, at, nat}
use emacs_llvm.Base.Values.{object, object_of, record_of, string_of, or_else}
use emacs_llvm.Protocol.Errors.{
  ErrorCode, code_name, OperatorError, operator_error, operator, error, Thrown, Result, ok, err,
  throw, ensure, ◌>>◌, invalid_argument, schema_validation, auth_failed, instance_not_found,
  emacs_disconnected, session_not_found, session_expired, target_not_found, target_stale,
  state_conflict, analysis_unresolved, mutation_locked, permission_denied, policy_denied,
  command_not_found, command_not_interactive, command_failed, command_quit, key_parse_failed,
  key_unbound, minibuffer_unexpected, command_timeout, wait_timeout, transaction_not_found,
  transaction_conflict, rollback_failed, native_driver_unavailable, accessibility_not_granted,
  screen_capture_not_granted, focus_failed, frontmost_mismatch, user_interference,
  input_injection_failed, capture_failed, external_side_effect, internal,
}
use emacs_llvm.Framing.{push, encode_content_length_frame}

-- A timer that runs, with what its callback needs.
pub record Timer : Type 0 where
  pub call : ℕ
  pub id : String
  pub method : String
  pub timeout_ms : ℕ

pub data Outcome : Type 0 where
  resolved : Json → Outcome
  rejected : Thrown → Outcome

pub data Socket : Type 0 where
  no_socket opening opened destroyed : Socket

-- `pending` has the request of each identifier; its timer is the one of the same request. `settlements`
-- is every call of a `resolve` or a `reject` so far, `forgotten` the requests whose answer threw when
-- it had been taken off the map, `calls` the number of the next request, and `buffer` what the
-- parser keeps.
pub record BridgeClient : Type 0 where
  pub socket : Socket
  pub buffer : Text
  pub pending : JsMap ℕ
  pub timers : List Timer
  pub connected : Bool
  pub initialized : Bool
  pub calls : ℕ
  pub settlements : List (ℕ × Outcome)
  pub forgotten : List ℕ
  pub frames : List Text

unfoldable pub new_client : BridgeClient
new_client = record {
  socket = no_socket;
  buffer = [];
  pending = [];
  timers = [];
  connected = false;
  initialized = false;
  calls = 0;
  settlements = [];
  forgotten = [];
  frames = [];
}

-- `clearTimeout`.
unfoldable pub clear_timeout : ℕ → List Timer → List Timer
clear_timeout call [] = []
clear_timeout call (t ∷ ts) =
    if t.call == call then clear_timeout call ts else t ∷ clear_timeout call ts

-- The timer of a request, while it runs.
unfoldable pub timer_of : ℕ → List Timer → Option Timer
timer_of call [] = none
timer_of call (t ∷ ts) = if t.call == call then some t else timer_of call ts

-- The timer is cleared, or has just been due, and the promise's `resolve` or `reject` is called.
unfoldable pub settle : ℕ → Outcome → BridgeClient → BridgeClient
settle call outcome c = record c {
  timers = clear_timeout call c.timers;
  settlements = c.settlements ++ (call, outcome) ∷ [];
}

-- The loop of `rejectAll`.
unfoldable pub reject_each : JsMap ℕ → Outcome → BridgeClient → BridgeClient
reject_each [] outcome c = c
reject_each ((id, call) ∷ rest) outcome c = reject_each rest outcome (settle call outcome c)

unfoldable pub reject_all : Thrown → BridgeClient → BridgeClient
reject_all thrown c = record (reject_each c.pending (rejected thrown) c) { pending = [] }

abbrev disconnected : String → Thrown
disconnected message = operator (operator_error emacs_disconnected message none)

-- `connect`, until the socket has answered, and its answer.
unfoldable pub connect : BridgeClient → BridgeClient
connect c = if c.connected then c else record c { socket = opening }

unfoldable pub on_connect : BridgeClient → BridgeClient
on_connect c = record c { socket = opened; connected = true }

unfoldable pub on_close : BridgeClient → BridgeClient
on_close c =
    reject_all (disconnected "Emacs bridge disconnected.")
      (record c { connected = false; initialized = false })

unfoldable pub on_socket_error : String → BridgeClient → BridgeClient
on_socket_error message = reject_all (disconnected message)

abbrev pub destroy : Socket → Socket
destroy no_socket = no_socket
destroy _ = destroyed

unfoldable pub close : BridgeClient → BridgeClient
close c =
    reject_all (disconnected "Bridge connection closed.")
      (record c { socket = destroy c.socket; connected = false; initialized = false })

-- The callback of `setTimeout`: what stands under the identifier goes, whichever request that is.
abbrev pub timed_out : Timer → Outcome
timed_out t = rejected (
    operator (
      operator_error command_timeout
        (String.◌++◌ "Bridge method " (String.◌++◌ t.method " timed out."))
        (some (field "timeout_ms" (nat t.timeout_ms) end))))

unfoldable pub on_timeout : ℕ → BridgeClient → BridgeClient
on_timeout call c = elim (timer_of call c.timers) [
  | none ↦ c
  | some t ↦ settle call (timed_out t) (record c { pending = delete t.id c.pending })
]
