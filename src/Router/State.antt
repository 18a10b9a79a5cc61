-- ===== src/Router/State.antt =====
-- packages/mcp-server/src/tools/toolRouter.ts: the state of the router, and the calls by which its
-- tools reach the other parts of the server, Emacs and the desktop. The server takes one request
-- line after the other (packages/mcp-server/src/server.ts), so that a tool call runs by itself.
use emacs_llvm.Base.{ℕ, suc, String, Bool, true, Option, none, some, List, [], ◌∷◌, ◌++◌}
use emacs_llvm.Base.Bytes.{Text}
use emacs_llvm.Base.Map.{JsMap, get}
use emacs_llvm.Base.Json.{Json, Fields}
use emacs_llvm.Base.Exec.{Exec, reads, writes, ◌>>=◌}
use emacs_llvm.Protocol.Errors.{ErrorCode, Result}
use emacs_llvm.Protocol.Envelope.{StateSummary, ToolEnvelope}
use emacs_llvm.Sessions.{
  EmacsSession, SessionManager, ResolvedTarget, get_session, update_target, acquire_mutation,
}
use emacs_llvm.Idempotency.{IdempotencyCache}
use emacs_llvm.Tickets.{Manager}

-- The members of `EmacsInstanceRecord` that are read.
pub record InstanceRecord : Type 0 where
  pub instance_id : String
  pub pid : ℕ
  pub port : ℕ

-- What `discoverInstances` finds: `body` is the record with all its members.
pub record Discovered : Type 0 where
  pub instance : InstanceRecord
  pub body : Fields
  pub stale : Bool
  pub process_alive : Json

pub data Peer : Type 0 where
  bridge : String → Peer
  driver : Peer

-- A request that left the server. Beside what is sent it has the session that it is sent for, if
-- there is one, and the holder, at that moment, of the mutation lease of the session's instance.
pub record Sent : Type 0 where
  pub peer : Peer
  pub method : String
  pub params : Json
  pub session : Option EmacsSession
  pub holder : Option String

-- What is not part of the server. The answers may depend on all that was sent before.
pub record World : Type 0 where
  pub answer : List Sent → Sent → Result Json
  pub discover : List Sent → List Discovered
  pub handshake : List Sent → InstanceRecord → Result Json
  pub clock : ℕ → ℕ
  pub uuid : ℕ → String
  pub consume_png : List Sent → Json → Result Fields
  pub resolve : String → String
  pub relative_to : String → String → String
  pub is_absolute : String → Bool
  pub upper : Text → Text
  pub string_from : Text → String
  pub text_of : Json → String
  pub byte_length : String → ℕ
  pub target_of : Json → ResolvedTarget
  pub version : String

-- The variables of `call` that the hooks set.
pub record Hooks : Type 0 where
  pub before : Option StateSummary
  pub after : Option StateSummary
  pub mutation : Bool
  pub instance_id : Option String

pub record AuditEntry : Type 0 where
  pub audit_id : String
  pub request_id : String
  pub session_id : Option String
  pub instance_id : Option String
  pub timestamp : ℕ
  pub tool : String
  pub mutation : Bool
  pub succeeded : Bool
  pub error_code : Option ErrorCode
  pub duration_ms : ℕ
  pub state_before : Option StateSummary
  pub state_after : Option StateSummary

pub record Server : Type 0 where
  pub world : World
  pub sessions : SessionManager
  pub cache : IdempotencyCache ToolEnvelope
  pub tickets : Manager
  pub clients : JsMap InstanceRecord
  pub audit : List AuditEntry
  pub sent : List Sent
  pub hooks : Hooks
  pub readings : ℕ
  pub drawn : ℕ

abbrev pub Tool : Type 0 → Type 0
Tool A = Exec Server A

-- `Date.now()`
unfoldable pub now : Tool ℕ
now s = (Result.ok (s.world.clock s.readings), record s { readings = suc s.readings })

-- `crypto.randomUUID()`
unfoldable pub draw : Tool String
draw s = (Result.ok (s.world.uuid s.drawn), record s { drawn = suc s.drawn })

-- A call of the session manager.
unfoldable pub with_sessions : {A : Type 0} → (SessionManager → Result A × SessionManager) → Tool A
with_sessions f s = let (r, m) = f s.sessions in (r, record s { sessions = m })

-- A call of the ticket manager.
unfoldable pub with_tickets : {A : Type 0} → (Manager → Result A × Manager) → Tool A
with_tickets f s = let (r, m) = f s.tickets in (r, record s { tickets = m })

unfoldable pub current_session : String → Tool EmacsSession
current_session id = do at_check ← now; at_use ← now; with_sessions (get_session id at_check at_use)

unfoldable pub acquire : EmacsSession → Tool (Unit {0})
acquire session = do
  at_check ← now
  at_use ← now
  with_sessions (acquire_mutation session.session_id at_check at_use)

unfoldable pub retarget : EmacsSession → Json → Tool EmacsSession
retarget session value = do
  target ← reads (λ s. s.world.target_of value)
  at_check ← now
  at_use ← now
  at_change ← now
  with_sessions (update_target session.session_id target at_check at_use at_change)

abbrev pub holder_of : Option EmacsSession → SessionManager → Option String
holder_of none m = none
holder_of (some session) m = get session.instance_id m.mutation_owners

-- A request, and its answer.
unfoldable pub exchange : Peer → Option EmacsSession → String → Json → Tool Json
exchange peer session method params s =
    let sent : Sent = record {
      peer = peer;
      method = method;
      params = params;
      session = session;
      holder = holder_of session s.sessions;
    } in
    (s.world.answer s.sent sent, record s { sent = s.sent ++ sent ∷ [] })

-- `client.request(method, params)` with the client of the session's instance.
abbrev pub request : EmacsSession → String → Json → Tool Json
request session method params = exchange (bridge session.instance_id) (some session) method params

unfoldable pub set_before : Option StateSummary → Tool (Unit {0})
set_before v = writes (λ (s : Server). record s { hooks = record (s.hooks) { before = v } })

unfoldable pub set_after : Option StateSummary → Tool (Unit {0})
set_after v = writes (λ (s : Server). record s { hooks = record (s.hooks) { after = v } })

unfoldable pub mark_mutation : Tool (Unit {0})
mark_mutation = writes (λ (s : Server). record s { hooks = record (s.hooks) { mutation = true } })

unfoldable pub set_instance : String → Tool (Unit {0})
set_instance v =
    writes (λ (s : Server). record s { hooks = record (s.hooks) { instance_id = some v } })
