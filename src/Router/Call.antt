-- ===== src/Router/Call.antt =====
-- packages/mcp-server/src/tools/toolRouter.ts: `call`, with `auditEntry` and `newId` of
-- packages/mcp-server/src/audit/auditLog.ts. The lines of the audit file are a list, and a write to
-- it does not fail.
pub mod Replay
use Prim.Native.String
use emacs_llvm.Base.{
  ℕ, ◌-◌, String, Bool, true, false, Option, none, some, List, [], ◌∷◌, ◌++◌, if◌then◌else◌, str_eq,
}
use emacs_llvm.Base.Json.{Json, undefined, str, obj, Fields, end, at}
use emacs_llvm.Base.Values.{string_of}
use emacs_llvm.Base.Exec.{pure, lift, reads, writes, ◌>>=◌, ◌>>◌, outcome}
use emacs_llvm.Idempotency.{IdempotencyCache, lookup, store}
use emacs_llvm.Protocol.Errors.{Result, ok, err, ErrorCode, OperatorError, operator}
use emacs_llvm.Protocol.Envelope.{StateSummary, ToolEnvelope, success_envelope, failure_envelope}
use emacs_llvm.Protocol.Validation.{assert_object}
use emacs_llvm.Sessions.{EmacsSession}
use emacs_llvm.Router.State.{AuditEntry, Hooks, Server, Tool, now, draw}
use emacs_llvm.Router.Dispatch.{dispatch}

abbrev given_arguments : Json → Json
given_arguments undefined = obj end
given_arguments value = value

-- A text that is given and not empty.
abbrev non_empty : Option String → Option String
non_empty none = none
non_empty (some s) = if str_eq s "" then none else some s

unfoldable pub request_id_of : Fields → Tool String
request_id_of args = elim (non_empty (string_of (at "request_id" args))) [
  | none ↦ draw >>= λ uuid. pure (String.◌++◌ "req_" uuid)
  | some id ↦ pure id
]

unfoldable pub new_audit_id : Tool String
new_audit_id = draw >>= λ uuid. pure (String.◌++◌ "aud_" uuid)

abbrev pub cache_key : String → String → String
cache_key name request_id = String.◌++◌ name (String.◌++◌ ":" request_id)

unfoldable pub cached : String → Tool (Option ToolEnvelope)
cached key = do
  reading ← now
  found ← reads (λ (s : Server). lookup key reading s.cache)
  writes (λ (s : Server). record s { cache = found.1 })
  pure found.0

unfoldable pub remember : String → ToolEnvelope → Tool ToolEnvelope
remember key envelope = do
  reading ← now
  writes (λ (s : Server). record s { cache = store key envelope reading s.cache })
  pure envelope

abbrev pub fresh : Hooks
fresh = record { before = none; after = none; mutation = false; instance_id = none }

abbrev code_of : Result Json → Option ErrorCode
code_of (ok v) = none
code_of (err e) = some e.code

abbrev succeeded : Result Json → Bool
succeeded (ok v) = true
succeeded (err e) = false

-- An empty identifier of a session or of an instance is left out.
unfoldable pub audit_entry :
    String → String → Option String → String → Result Json → ℕ → ℕ → Hooks → AuditEntry
audit_entry audit_id request_id session_id tool r duration_ms timestamp h = record {
  audit_id = audit_id;
  request_id = request_id;
  session_id = non_empty session_id;
  instance_id = non_empty h.instance_id;
  timestamp = timestamp;
  tool = tool;
  mutation = h.mutation;
  succeeded = succeeded r;
  error_code = code_of r;
  duration_ms = duration_ms;
  state_before = h.before;
  state_after = h.after;
}

unfoldable pub envelope_of : String → String → Option String → Result Json → Hooks → ToolEnvelope
envelope_of request_id audit_id session_id (ok v) h =
    success_envelope request_id audit_id v (non_empty session_id) h.before h.after none
envelope_of request_id audit_id session_id (err e) h =
    failure_envelope request_id audit_id (operator e) (non_empty session_id) none

-- The line of the audit file for a call that has ended.
unfoldable pub record_call :
    ℕ → String → String → Option String → String → Result Json → Tool (Unit {0})
record_call started audit_id request_id session_id name r = do
  ended ← now
  stamp ← now
  writes (λ (s : Server). record s {
    audit =
        s.audit
        ++ audit_entry audit_id request_id session_id name r (ended - started) stamp s.hooks ∷ [];
  })

module _ (workflow : Fields → EmacsSession → Tool Json) where
  -- A call that is not in the cache. The hooks of the call that a workflow's step is part of are
  -- put back at the end.
  unfoldable pub perform : ℕ → String → String → Fields → Tool ToolEnvelope
  perform started name request_id args = do
    audit_id ← new_audit_id
    let session_id = string_of (at "session_id" args)
    outer ← reads (λ (s : Server). s.hooks)
    writes (λ (s : Server). record s { hooks = fresh })
    r ← outcome (dispatch workflow name args)
    h ← reads (λ (s : Server). s.hooks)
    record_call started audit_id request_id session_id name r
    writes (λ (s : Server). record s { hooks = outer })
    remember (cache_key name request_id) (envelope_of request_id audit_id session_id r h)

  abbrev pub answer_from : Option ToolEnvelope → Tool ToolEnvelope → Tool ToolEnvelope
  answer_from none compute = compute
  answer_from (some envelope) compute = pure envelope

  unfoldable pub call : String → Json → Tool ToolEnvelope
  call name arguments = do
    started ← now
    args ← lift (assert_object (given_arguments arguments) "arguments")
    request_id ← request_id_of args
    known ← cached (cache_key name request_id)
    answer_from known (perform started name request_id args)
