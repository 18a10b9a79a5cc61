-- ===== src/BridgeClient/Requests.antt =====
-- packages/bridge-client/src/client.ts: `request` and `initialize`, up to where they wait.
use emacs_llvm.Base.{
  ℕ, suc, String, true, ◌&&◌, not, Option, none, some, List, [], ◌∷◌, ◌++◌, if◌then◌else◌, ◌==◌,
  str_eq,
}
use Prim.Native.String
use emacs_llvm.Base.Bytes.{Text}
use emacs_llvm.Base.Map.{set}
use emacs_llvm.Base.Json.{Json, str, obj, Fields, field, end}
use emacs_llvm.Base.Values.{object}
use emacs_llvm.Protocol.Errors.{Result, ok, err, ensure, ◌>>◌, auth_failed, emacs_disconnected}
use emacs_llvm.Framing.{encode_content_length_frame}
use emacs_llvm.BridgeClient.{BridgeClient, Outcome, rejected, resolved}

-- What `request` asks before it sends anything.
unfoldable pub may_send : String → BridgeClient → Result (Unit {0})
may_send method c = do
  ensure c.connected emacs_disconnected "Bridge socket is not connected." none
  ensure (not (not c.initialized && not (str_eq method "initialize"))) auth_failed
      "Bridge connection must be initialized before other requests." none

abbrev pub request_id : Option String → String → String
request_id none uuid = String.◌++◌ "rpc_" uuid
request_id (some id) uuid = id

abbrev pub timeout_or : Option ℕ → ℕ
timeout_or none = 10000
timeout_or (some timeout_ms) = timeout_ms

abbrev message_of : String → String → Fields → Json
message_of id method params =
    object (
      ("jsonrpc", str "2.0")
      ∷ ("id", str id)
      ∷ ("method", str method)
      ∷ ("params", obj params)
      ∷ [])

-- `stringify` is `JSON.stringify`.
module _ (stringify : Json → Text) where
  -- A request that is sent: its number, its timer, its place under the identifier, and its frame.
  unfoldable pub send : String → Fields → ℕ → String → BridgeClient → BridgeClient
  send method params timeout_ms id c = record c {
    timers =
        record { call = c.calls; id = id; method = method; timeout_ms = timeout_ms } ∷ c.timers;
    pending = set id c.calls c.pending;
    calls = suc c.calls;
    frames = c.frames ++ encode_content_length_frame (stringify (message_of id method params)) ∷ [];
  }

  unfoldable pub request :
      String → Fields → Option ℕ → Option String → String → BridgeClient → Result ℕ × BridgeClient
  request method params timeout_ms given uuid c = elim (may_send method c) [
    | err e ↦ (err e, c)
    | ok u ↦ (ok c.calls, send method params (timeout_or timeout_ms) (request_id given uuid) c)
  ]

  -- `initialize` on a connection, until its request is answered.
  unfoldable pub initialize : String → String → BridgeClient → Result ℕ × BridgeClient
  initialize token uuid =
      request "initialize"
        (field "token" (str token) (
          field "client"
            (object (("name", str "emacs-operator-mcp-server") ∷ ("version", str "0.1.0") ∷ []))
            end))
        none none uuid

-- What has become of a promise: its first outcome.
unfoldable pub outcome_of : ℕ → List (ℕ × Outcome) → Option Outcome
outcome_of call [] = none
outcome_of call ((n, outcome) ∷ rest) = if n == call then some outcome else outcome_of call rest

-- The rest of `initialize`, when its promise has been resolved.
unfoldable pub initialized_by : ℕ → BridgeClient → BridgeClient
initialized_by call c = elim (outcome_of call c.settlements) [
  | none ↦ c
  | some (rejected e) ↦ c
  | some (resolved v) ↦ record c { initialized = true }
]
