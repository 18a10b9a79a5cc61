-- ===== src/Protocol/Envelope.antt =====
-- packages/protocol/src/envelope.ts, with `StateSummary` of types.ts: what a tool call returns.
use emacs_llvm.Base.{String, Option, none, some, List, []}
use emacs_llvm.Base.Json.{Json, Number}
use emacs_llvm.Protocol.Errors.{OperatorError, Thrown, as_operator_error}

pub record StateSummary : Type 0 where
  pub state_seq : Option Number
  pub buffer_tick : Option Number
  pub buffer_id : Option String
  pub major_mode : Option String
  pub point : Option Number

pub record Success : Type 0 where
  pub request_id : String
  pub session_id : Option String
  pub state_before : Option StateSummary
  pub state_after : Option StateSummary
  pub result : Json
  pub warnings : List String
  pub audit_id : String

-- The error stands for its members, which `toJSON` copies.
pub record Failure : Type 0 where
  pub request_id : String
  pub session_id : Option String
  pub error : OperatorError
  pub warnings : List String
  pub audit_id : String

pub data ToolEnvelope : Type 0 where
  success : Success → ToolEnvelope
  failure : Failure → ToolEnvelope

abbrev warnings_of : Option (List String) → List String
warnings_of none = []
warnings_of (some ws) = ws

unfoldable pub success_envelope :
    String
    → String
    → Json
    → Option String
    → Option StateSummary
    → Option StateSummary
    → Option (List String)
    → ToolEnvelope
success_envelope request_id audit_id result session_id before after warnings = success (record {
  request_id = request_id;
  session_id = session_id;
  state_before = before;
  state_after = after;
  result = result;
  warnings = warnings_of warnings;
  audit_id = audit_id;
})

unfoldable pub failure_envelope :
    String → String → Thrown → Option String → Option (List String) → ToolEnvelope
failure_envelope request_id audit_id thrown session_id warnings = failure (record {
  request_id = request_id;
  session_id = session_id;
  error = as_operator_error thrown;
  warnings = warnings_of warnings;
  audit_id = audit_id;
})
