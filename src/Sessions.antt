-- ===== src/Sessions.antt =====
-- packages/mcp-server/src/sessions/sessionManager.ts, with the session types of
-- packages/protocol/src/types.ts. An operation takes each of its readings of the clock as an
-- argument, in their order; the identifier that `crypto.randomUUID` makes is an argument of `open`.
-- A time stamp is its number of milliseconds: `Date.parse` gives back what `toISOString` printed.
pub mod Invariant
pub mod Lifetime
pub mod Leases
pub mod Listing
pub mod History
pub mod Named
use Prim.Native.String
use emacs_llvm.Base.{
  ℕ, ◌-◌, String, Bool, true, false, ◌&&◌, not, Option, none, some, List, [], ◌∷◌, map,
  if◌then◌else◌, ltb, str_eq,
}
use emacs_llvm.Base.Map.{JsMap, get, set, delete}
use emacs_llvm.Base.Json.{Json, Fields, str, field, end}
use emacs_llvm.Protocol.Errors.{
  Result, ok, err, throw, session_not_found, session_expired, mutation_locked,
}

pub data ExecutionChannel : Type 0 where
  semantic internal_keys native_keys : ExecutionChannel

-- A member `x?: string | null`.
pub data Nullable : Type 0 where
  absent null : Nullable
  given : String → Nullable

-- Both `undefined` and `null` leave a member out.
abbrev pub present : Nullable → Option String
present (given s) = some s
present _ = none

pub record ResolvedTarget : Type 0 where
  pub frame_id : Option String
  pub frame_title : Nullable
  pub native_window_identifier : Nullable
  pub window_id : Option String
  pub buffer_id : String
  pub buffer_name : String
  pub file : Nullable
  pub project_root : Nullable
  pub major_mode : String

pub record SessionTarget : Type 0 where
  pub frame_id : Option String
  pub frame_title : Option String
  pub native_window_identifier : Option String
  pub window_id : Option String
  pub buffer_id : Option String
  pub project_root : Option String
  pub file : Option String

pub record SessionCapabilities : Type 0 where
  pub channels : ExecutionChannel → Bool
  pub features : Fields

pub record EmacsSession : Type 0 where
  pub session_id : String
  pub instance_id : String
  pub default_channel : ExecutionChannel
  pub permission_profile : String
  pub target : SessionTarget
  pub capabilities : SessionCapabilities
  pub state_seq_at_open : ℕ
  pub created_at : ℕ
  pub last_used_at : ℕ
  pub lease_owner : String

pub record SessionOpenInput : Type 0 where
  pub instance_id : String
  pub default_channel : ExecutionChannel
  pub permission_profile : String
  pub target : ResolvedTarget
  pub capabilities : SessionCapabilities
  pub state_seq_at_open : ℕ
  pub lease_owner : Option String

pub record SessionManager : Type 0 where
  pub ttl_ms : ℕ
  pub sessions : JsMap EmacsSession
  pub mutation_owners : JsMap String

-- The constructor; `none` is its `RangeError`.
unfoldable pub create : ℕ → Option SessionManager
create ttl_ms =
    if ltb 0 ttl_ms
    then some (record { ttl_ms = ttl_ms; sessions = []; mutation_owners = [] })
    else none

abbrev pub session_target : ResolvedTarget → SessionTarget
session_target t = record {
  frame_id = t.frame_id;
  frame_title = present t.frame_title;
  native_window_identifier = present t.native_window_identifier;
  window_id = t.window_id;
  buffer_id = some t.buffer_id;
  project_root = present t.project_root;
  file = present t.file;
}

abbrev pub new_id : String → String
new_id uuid = String.◌++◌ "ses_" uuid

abbrev or_default : Option String → String → String
or_default none d = d
or_default (some s) d = s

abbrev pub opened : SessionOpenInput → String → ℕ → EmacsSession
opened input uuid now = record {
  session_id = new_id uuid;
  instance_id = input.instance_id;
  default_channel = input.default_channel;
  permission_profile = input.permission_profile;
  target = session_target input.target;
  capabilities = input.capabilities;
  state_seq_at_open = input.state_seq_at_open;
  created_at = now;
  last_used_at = now;
  lease_owner = or_default input.lease_owner "mcp-client";
}

unfoldable pub open_session :
    SessionOpenInput → String → ℕ → SessionManager → EmacsSession × SessionManager
open_session input uuid now m = (
  opened input uuid now,
  record m { sessions = set (new_id uuid) (opened input uuid now) m.sessions },
)

abbrev is_owner : Option String → String → Bool
is_owner none id = false
is_owner (some owner) id = str_eq owner id

unfoldable pub close : String → SessionManager → Bool × SessionManager
close id m = elim (get id m.sessions) [
  | none ↦ (false, m)
  | some session ↦ (
    true,
    record m {
      mutation_owners =
          if is_owner (get session.instance_id m.mutation_owners) id
          then delete session.instance_id m.mutation_owners
          else m.mutation_owners;
      sessions = delete id m.sessions;
    },
  )
]

-- `now - last_used_at > ttl`; a clock that was set back makes no session expire.
abbrev pub is_expired : ℕ → ℕ → EmacsSession → Bool
is_expired ttl now session = ltb ttl (now - session.last_used_at)

abbrev no_session : String → Result EmacsSession
no_session id =
    throw session_not_found (String.◌++◌ "Session " (String.◌++◌ id " does not exist.")) none

abbrev pub expired_session : String → Result EmacsSession
expired_session id =
    throw session_expired (String.◌++◌ "Session " (String.◌++◌ id " expired.")) none

abbrev pub used : ℕ → EmacsSession → EmacsSession
used now session = record session { last_used_at = now }

-- `now` is the reading that the age is taken from, `stamp` the one that is stored.
unfoldable pub require_mutable :
    String → ℕ → ℕ → SessionManager → Result EmacsSession × SessionManager
require_mutable id now stamp m = elim (get id m.sessions) [
  | none ↦ (no_session id, m)
  | some session ↦
      if is_expired m.ttl_ms now session
      then (expired_session id, (close id m).1)
      else (ok (used stamp session), record m { sessions = set id (used stamp session) m.sessions })
]

-- `get` differs only in returning a copy of the session.
abbrev pub get_session : String → ℕ → ℕ → SessionManager → Result EmacsSession × SessionManager
get_session id now stamp m = require_mutable id now stamp m

update_found :
    String
    → ResolvedTarget
    → ℕ
    → Result EmacsSession × SessionManager
    → Result EmacsSession × SessionManager
update_found id target stamp (err e, m) = (err e, m)
update_found id target stamp (ok session, m) =
    let session' : EmacsSession = record session {
      target = session_target target;
      last_used_at = stamp;
    } in
    (ok session', record m { sessions = set id session' m.sessions })

unfoldable pub update_target :
    String → ResolvedTarget → ℕ → ℕ → ℕ → SessionManager → Result EmacsSession × SessionManager
unfolding update_found
update_target id target now stamp stamp' m =
    update_found id target stamp' (require_mutable id now stamp m)

abbrev pub locked : String → String → Result (Unit {0})
locked instance_id owner =
    throw mutation_locked "Another session owns the mutation lease for this Emacs instance."
      (some (field "instance_id" (str instance_id) (field "owner_session_id" (str owner) end)))

-- `owner && owner !== sessionId`
abbrev blocks : String → String → Bool
blocks owner id = not (str_eq owner "") && not (str_eq owner id)

acquire_found : String → Result EmacsSession × SessionManager → Result (Unit {0}) × SessionManager
acquire_found id (err e, m) = (err e, m)
acquire_found id (ok session, m) =
    let taken : Result (Unit {0}) × SessionManager =
      (ok tt, record m { mutation_owners = set session.instance_id id m.mutation_owners }) in
    elim (get session.instance_id m.mutation_owners) [
      | none ↦ taken
      | some owner ↦ if blocks owner id then (locked session.instance_id owner, m) else taken
    ]

unfoldable pub acquire_mutation :
    String → ℕ → ℕ → SessionManager → Result (Unit {0}) × SessionManager
unfolding acquire_found
acquire_mutation id now stamp m = acquire_found id (require_mutable id now stamp m)

-- The iteration over the sessions that closes the expired ones.
unfoldable pub prune_each : ℕ → JsMap EmacsSession → SessionManager → SessionManager
prune_each now [] m = m
prune_each now ((id, session) ∷ rest) m =
    prune_each now rest (if is_expired m.ttl_ms now session then (close id m).1 else m)

unfoldable pub list_sessions : ℕ → SessionManager → List EmacsSession × SessionManager
list_sessions now m = let left = prune_each now m.sessions m in (map (λ e. e.1) left.sessions, left)
