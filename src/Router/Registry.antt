-- ===== src/Router/Registry.antt =====
-- packages/mcp-server/src/bridgeRegistry.ts: which Emacs a call is for, and the connections to the
-- instances. A client is given as the record that it was made for.
pub mod Choice
use Prim.Native.String
use emacs_llvm.Base.{
  ℕ, String, Bool, true, false, ◌&&◌, not, Option, none, some, List, [], ◌∷◌, map, if◌then◌else◌,
  str_eq, ◌==◌,
}
use emacs_llvm.Base.Map.{get, set}
use emacs_llvm.Base.Json.{Json, str, field, end, obj}
use emacs_llvm.Base.Values.{array}
use emacs_llvm.Base.Exec.{pure, lift, reads, writes, ◌>>=◌, ◌>>◌}
use emacs_llvm.Protocol.Errors.{Result, ok, throw, instance_not_found, invalid_argument}
use emacs_llvm.Router.State.{InstanceRecord, Discovered, Server, Tool, bridge, exchange}

-- `filter((item) => !item.stale)`
abbrev pub live_of : List Discovered → List InstanceRecord
live_of [] = []
live_of (d ∷ ds) = if d.stale then live_of ds else d.instance ∷ live_of ds

abbrev named : String → List InstanceRecord → Option InstanceRecord
named id [] = none
named id (r ∷ rs) = if str_eq r.instance_id id then some r else named id rs

abbrev ids : List InstanceRecord → List Json
ids = map λ r. str r.instance_id

unfoldable pub hit_of : String → Option InstanceRecord → Result InstanceRecord
hit_of id (some r) = ok r
hit_of id none =
    throw instance_not_found (String.◌++◌ "No live Emacs instance named " (String.◌++◌ id ".")) none

unfoldable pub only_one : List InstanceRecord → Result InstanceRecord
only_one [] = throw instance_not_found "No live Emacs Operator bridge instance was discovered." none
only_one (r ∷ []) = ok r
only_one (r ∷ q ∷ rs) =
    throw invalid_argument
      "Multiple Emacs instances are available; selector.instance_id is required."
      (some (field "instance_ids" (array (ids (r ∷ q ∷ rs))) end))

unfoldable pub choose : Option String → List InstanceRecord → Result InstanceRecord
choose none live = only_one live
choose (some id) live = if str_eq id "" then only_one live else hit_of id (named id live)

unfoldable pub find_record : Option String → Tool InstanceRecord
find_record id = do found ← reads (λ s. live_of (s.world.discover s.sent)); lift (choose id found)

-- The cached client is the record's own.
abbrev is_current : Option InstanceRecord → InstanceRecord → Bool
is_current none record' = false
is_current (some cached) record' = cached.pid == record'.pid && cached.port == record'.port

unfoldable pub connect_anew : String → InstanceRecord → Tool Json
connect_anew id found = do
  answer ← reads (λ s. s.world.handshake s.sent found)
  initialization ← lift answer
  writes (λ (s : Server). record s { clients = set id found s.clients })
  pure initialization

unfoldable pub client : String → Tool (Unit {0})
client id = do
  found ← find_record (some id)
  cached ← reads (λ s. get id s.clients)
  if is_current cached found then pure tt else (connect_anew id found >>= λ i. pure tt)

unfoldable pub connect : InstanceRecord → Tool Json
connect found = do
  cached ← reads (λ s. get found.instance_id s.clients)
  if is_current cached found
      then exchange (bridge found.instance_id) none "instance.describe" (obj end)
      else connect_anew found.instance_id found
