-- ===== src/Router/Safety.antt =====
-- packages/mcp-server/src/tools/toolRouter.ts: what leaves the server, for whom. A request that
-- changes something in Emacs is to be sent only for a session whose profile may change something, and
-- that holds the mutation lease of its instance when the request is sent.
pub mod Reads
pub mod Leases
pub mod Mutations
pub mod Renames
pub mod Edits
pub mod Verify
pub mod Dispatch
pub mod Calls
pub mod Workflows
pub mod Refactors
pub mod Org
pub mod Sections
pub mod Served
use emacs_llvm.Base.{
  String, Bool, true, false, ◌&&◌, ◌||◌, Option, none, some, List, [], ◌∷◌, ◌++◌, if◌then◌else◌,
  str_eq, ◌≡◌, ◌≢◌, refl, inl, inr, ◌⊎◌, All, All-append,
}
use emacs_llvm.Base.Map.{get}
use emacs_llvm.Base.Json.{Json, str, nat, at}
use emacs_llvm.Base.Values.{record_of, string_of}
use emacs_llvm.Base.Exec.Keeps.{Turns, Keeps, Ends, Holds}
use emacs_llvm.Protocol.Errors.{Result, ok, err}
use emacs_llvm.Policy.{assert_mutation}
use emacs_llvm.Sessions.{EmacsSession, SessionManager}
use emacs_llvm.Sessions.Named.{Named}
use emacs_llvm.Router.Registry.Choice.{IsLive}
use emacs_llvm.Router.State.{
  InstanceRecord, World, Peer, bridge, driver, Sent, Server, Tool, holder_of, exchange, now,
}
use emacs_llvm.Router.Arguments.{one_of}

abbrev is_mutating_text : Option String → Bool
is_mutating_text none = false
is_mutating_text (some action) = one_of action ("apply" ∷ "rollback" ∷ "commit" ∷ [])

-- Whether a request changes something in Emacs: the key sequences of the driver, and of the bridge
-- the evaluations, keys, commands, edits, checkpoints, and the renames that apply, roll back or commit. Navigation
-- moves point only, and is not meant.
unfoldable pub alters : Peer → String → Json → Bool
alters driver method params = str_eq method "send_key_sequence"
alters (bridge id) method params =
    if str_eq method "refactor.project_rename"
    then is_mutating_text (string_of (at "action" (record_of params)))
    else one_of method (
        "adapter.eval" ∷ "keys.execute" ∷ "command.execute" ∷ "edit.apply" ∷ "checkpoint.create"
        ∷ "checkpoint.commit" ∷ "checkpoint.rollback" ∷ [])

-- The instance is one that the discovery has found, not stale, under the session's identifier of its
-- instance, where that is not empty.
abbrev pub IsFound : World → EmacsSession → InstanceRecord → Type 0
IsFound w e r =
    (earlier : List Sent) × IsLive r (w.discover earlier)
    × (e.instance_id ≢ "" → r.instance_id ≡ e.instance_id)

-- Whether the session's Emacs is the one that is reached: by its bridge, or by the driver as the
-- process of an instance that was found for the session.
abbrev pub IsReached : World → Peer → Json → EmacsSession → Type 0
IsReached w driver params e =
    (r : InstanceRecord) × IsFound w e r
    × (at "pid" (record_of (at "target" (record_of params))) ≡ nat r.pid)
IsReached w (bridge id) params e = id ≡ e.instance_id

abbrev pub IsPermitted : World → Sent → Type 0
IsPermitted w sent =
    (alters sent.peer sent.method sent.params ≡ false)
    ⊎ ((e : EmacsSession) × (sent.session ≡ some e)
        × IsReached w sent.peer sent.params e
        × (assert_mutation e ≡ ok tt)
        × (sent.holder ≡ some e.session_id))

pub record IsSafe (s : Server) : Type 0 where
  pub named : Named s.sessions
  pub permitted : All (IsPermitted s.world) s.sent

-- A property of the server that is one of its sessions.
pub record On (p : SessionManager → Type 0) (s : Server) : Type 0 where
  pub there : p s.sessions

abbrev pub Nothing : SessionManager → Type 0
Nothing m = Unit

abbrev pub nothing : (s : Server) → On Nothing s
nothing s = record { there = tt }

-- The manager has the session, with the same instance.
abbrev pub Known : EmacsSession → SessionManager → Type 0
Known e m =
    (x : EmacsSession) × (get e.session_id m.sessions ≡ some x) × (x.instance_id ≡ e.instance_id)

-- The session may change something, and has the lease for it.
abbrev pub Leased : EmacsSession → SessionManager → Type 0
Leased e m = (assert_mutation e ≡ ok tt) × (get e.instance_id m.mutation_owners ≡ some e.session_id)

answered :
    {p : SessionManager → Type 0} (r : Result Json) (s : Server)
    → IsSafe s
    → On p s
    → Holds IsSafe (On p) (r, s)
answered (ok a) s i h = (i, h)
answered (err e) s i h = i

-- An exchange, from what is known of the request when it is sent.
exchanged :
    {p : SessionManager → Type 0} {P : Server → Type 0} (peer : Peer)
    (session : Option EmacsSession) (method : String) (params : Json)
    → ((s : Server)
        → P s
        → p s.sessions
          × IsPermitted s.world (record {
            peer = peer;
            method = method;
            params = params;
            session = session;
            holder = holder_of session s.sessions;
          }))
    → Turns IsSafe P (On p) (exchange peer session method params)
unfolding exchange
exchanged peer session method params allowed = record {
  run = λ s i h.
      answered _ _
        (record {
          named = i.named;
          permitted =
              All-append (IsPermitted s.world) s.sent (_ ∷ []) i.permitted ((allowed s h).1, tt);
        })
        (record { there = (allowed s h).0 });
}

-- A request that changes nothing.
pub exchange_quiet :
    {p : SessionManager → Type 0} (peer : Peer) (session : Option EmacsSession) (method : String)
    (params : Json)
    → alters peer method params ≡ false
    → Keeps IsSafe (On p) (exchange peer session method params)
exchange_quiet peer session method params quiet =
    exchanged peer session method params (λ s h. (h.there, inl quiet))

-- A request to the bridge of the session's instance, behind the lease.
pub exchange-Leased :
    (session : EmacsSession) (method : String) (params : Json)
    → Keeps IsSafe
        (On (Leased session))
        (exchange (bridge session.instance_id) (some session) method params)
exchange-Leased session method params =
    exchanged (bridge session.instance_id) (some session) method params
      (λ s held. (held.there, inr (session, refl, refl, held.there.0, held.there.1)))

-- The session has the lease, and the instance was found for it.
pub record LeasedAt (e : EmacsSession) (r : InstanceRecord) (s : Server) : Type 0 where
  pub held : Leased e s.sessions
  pub found : IsFound s.world e r

-- A request to the driver with the process of the session's instance, behind the lease.
pub exchange-LeasedAt :
    (session : EmacsSession) (r : InstanceRecord) (method : String) (params : Json)
    → at "pid" (record_of (at "target" (record_of params))) ≡ nat r.pid
    → Turns IsSafe
        (LeasedAt session r)
        (On (Leased session))
        (exchange driver (some session) method params)
exchange-LeasedAt session r method params same =
    exchanged driver (some session) method params
      (λ s at_r. (at_r.held, inr (session, refl, (r, at_r.found, same), at_r.held.0, at_r.held.1)))
