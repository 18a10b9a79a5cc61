-- ===== src/Tickets.antt =====
-- packages/mcp-server/src/verificationTickets.ts: tickets that let an agent rerun a verification.
-- Each reading of the clock is an argument, in the order of the readings; `create` is also given
-- the identifier that `crypto.randomUUID` makes.
pub mod Laws
pub mod Access
use Prim.Native.String
use emacs_llvm.Base.{
  ℕ, suc, ◌+◌, String, Bool, true, false, Option, none, some, List, [], ◌∷◌, ◌++◌, if◌then◌else◌,
  leb, length, str_eq, not,
}
use emacs_llvm.Base.Map.{JsMap, get, set, delete, retain}
use emacs_llvm.Base.Evict.{evict}
use emacs_llvm.Base.Json.{Json, Fields, str, field, end}
use emacs_llvm.Protocol.Errors.{
  Result, ok, err, throw, ensure, ◌>>=◌, ◌>>◌, transaction_not_found, policy_denied,
}

pub data VerificationRisk : Type 0 where
  low high unknown : VerificationRisk

-- A member that may be missing is `undefined`; `more` is the index signature's members.
pub record VerificationAttempt : Type 0 where
  pub adapter : Json
  pub completed : Bool
  pub value : Json
  pub condition : Json
  pub stderr : Json
  pub metadata : Json
  pub more : Fields

-- The argument of `create`.
pub record TicketInput : Type 0 where
  pub session_id : String
  pub adapter : Json
  pub operation : String
  pub timeout_ms : ℕ
  pub max_attempts : ℕ
  pub side_effect_risk : VerificationRisk
  pub allow_risky_rerun : Bool
  pub attempts : List VerificationAttempt

pub record VerificationTicket : Type 0 where
  pub input : TicketInput
  pub open input use *
  pub ticket_id : String
  pub created_at : ℕ
  pub expires_at : ℕ

pub record Manager : Type 0 where
  pub ttl_ms : ℕ
  pub max_tickets : ℕ
  pub tickets : JsMap VerificationTicket

abbrev pub is_live : ℕ → VerificationTicket → Bool
is_live current ticket = if leb ticket.expires_at current then false else true

-- `!oldest`
abbrev pub is_empty : String → Bool
is_empty key = str_eq key ""

unfoldable pub prune : ℕ → Manager → Manager
prune current s =
    let live = retain (is_live current) s.tickets in
    record s { tickets = evict is_empty s.max_tickets (suc (length live)) live }

abbrev pub ticket_id : String → String
ticket_id uuid = String.◌++◌ "verify_" uuid

unfoldable pub create : TicketInput → String → ℕ → ℕ → Manager → VerificationTicket × Manager
create input uuid current created_at s =
    let pruned = prune current s in
    let ticket : VerificationTicket = record {
      input = input;
      ticket_id = ticket_id uuid;
      created_at = created_at;
      expires_at = created_at + s.ttl_ms;
    } in
    (ticket, record pruned { tickets = set ticket.ticket_id ticket pruned.tickets })

-- The outcome of a call, and the manager after it: `prune` changes it also where the call throws.
find : String → String → JsMap VerificationTicket → Result VerificationTicket
find id session_id tickets = elim (get id tickets) [
  | none ↦
      throw transaction_not_found "Unknown or expired verification ticket."
        (some (field "ticket_id" (str id) end))
  | some ticket ↦
      if str_eq ticket.session_id session_id
      then ok ticket
      else throw policy_denied "Verification ticket belongs to a different session." none
]

unfoldable pub access : String → String → ℕ → Manager → Result VerificationTicket × Manager
unfolding find
access id session_id current s =
    let pruned = prune current s in (find id session_id pruned.tickets, pruned)

-- The ticket object is shared with the map, so the push and the new expiry change it in place.
abbrev pub extended : VerificationAttempt → ℕ → Manager → VerificationTicket → VerificationTicket
extended attempt later s ticket = record ticket {
  input = record (ticket.input) { attempts = ticket.attempts ++ attempt ∷ [] };
  expires_at = later + s.ttl_ms;
}

append_to :
    String
    → VerificationAttempt
    → ℕ
    → Result VerificationTicket × Manager
    → Result VerificationTicket × Manager
append_to id attempt later (err e, s) = (err e, s)
append_to id attempt later (ok ticket, s) =
    let ticket' = extended attempt later s ticket in
    (ok ticket', record s { tickets = set id ticket' s.tickets })

unfoldable pub append :
    String → String → VerificationAttempt → ℕ → ℕ → Manager → Result VerificationTicket × Manager
unfolding append_to
append id session_id attempt current later s =
    append_to id attempt later (access id session_id current s)

close_after : String → Result VerificationTicket × Manager → Result (Unit {0}) × Manager
close_after id (err e, s) = (err e, s)
close_after id (ok ticket, s) = (ok tt, record s { tickets = delete id s.tickets })

unfoldable pub close : String → String → ℕ → Manager → Result (Unit {0}) × Manager
unfolding close_after
close id session_id current s = close_after id (access id session_id current s)
