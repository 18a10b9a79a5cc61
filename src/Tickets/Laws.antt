-- ===== src/Tickets/Laws.antt =====
-- The invariant of the ticket manager, and what pruning does.
use text.Mathlib.TextLemmas.{cons-append}
use emacs_llvm.Base.{
  ℕ, suc, ◌-◌, ◌≤◌, ◌<◌, ◌≡◌, refl, String, false, length, drop, length-drop, arith, eq_iff,
  Bool-cases, inl, inr, sym, ◌∙◌,
}
use emacs_llvm.Base.Map.{
  JsMap, retain, Distinct, Keys-retain, Keys-set, Keys-delete, delete-Distinct, retain-Distinct,
  set-Distinct, length-delete-le, length-set-le,
}
use emacs_llvm.Base.Evict.{evict-drop, NeverStops, drop-Distinct, Keys-drop}
use emacs_llvm.Protocol.Errors.{Result, ok, err}
use emacs_llvm.Tickets.{
  Manager, TicketInput, VerificationTicket, VerificationAttempt, prune, create, access, append,
  close, is_live, is_empty, ticket_id, find, close_after, append_to, extended,
}

pub record IsValid (s : Manager) : Type 0 where
  pub some_room : 0 < s.max_tickets
  pub bounded : length s.tickets ≤ s.max_tickets
  pub distinct : Distinct s.tickets
  pub named : NeverStops is_empty s.tickets

abbrev pub live_tickets : ℕ → Manager → JsMap VerificationTicket
live_tickets current s = retain (is_live current) s.tickets

-- How many live tickets are too many when room for one more is made.
abbrev pub surplus : ℕ → Manager → ℕ
surplus current s = suc (length (live_tickets current s)) - s.max_tickets

-- Pruning leaves the live tickets less the oldest of them that leave no room for one more.
pub tickets-prune :
    (current : ℕ) (s : Manager)
    → IsValid s
    → (prune current s).tickets ≡ drop (surplus current s) (live_tickets current s)
unfolding prune
tickets-prune current s v =
    evict-drop is_empty s.max_tickets (suc (length (live_tickets current s)))
      (live_tickets current s) v.some_room (omega arith)
      (retain-Distinct (is_live current) s.tickets v.distinct)
      (Keys-retain (λ k. is_empty k ≡ false) (is_live current) s.tickets v.named)

-- A manager with room for one more ticket.
pub record HasRoom (s : Manager) : Type 0 where
  pub below : length s.tickets < s.max_tickets
  pub distinct : Distinct s.tickets
  pub named : NeverStops is_empty s.tickets

pub prune-HasRoom : (current : ℕ) (s : Manager) → IsValid s → HasRoom (prune current s)
unfolding prune
prune-HasRoom current s v =
    let live = live_tickets current s in
    let distinct = retain-Distinct (is_live current) s.tickets v.distinct in
    let named = Keys-retain (λ k. is_empty k ≡ false) (is_live current) s.tickets v.named in
    let same =
      evict-drop is_empty s.max_tickets (suc (length live)) live v.some_room (omega arith) distinct
        named in
    record {
      below = rw same (omega (arith, length-drop (surplus current s) live, v.some_room));
      distinct = rw same (drop-Distinct (surplus current s) live distinct);
      named = rw same (Keys-drop (λ k. is_empty k ≡ false) (surplus current s) live named);
    }

pub prune_settings :
    (current : ℕ) (s : Manager)
    → ((prune current s).max_tickets ≡ s.max_tickets) × ((prune current s).ttl_ms ≡ s.ttl_ms)
unfolding prune
prune_settings current s = (refl, refl)

pub HasRoom-IsValid : (s : Manager) → HasRoom s → IsValid s
HasRoom-IsValid s r = record {
  some_room = omega (arith, r.below);
  bounded = omega (arith, r.below);
  distinct = r.distinct;
  named = r.named;
}

ticket_id-nonempty : (uuid : String) → is_empty (ticket_id uuid) ≡ false
ticket_id-nonempty uuid = elim (Bool-cases (is_empty (ticket_id uuid))) [
  | inr named ↦ named
  | inl nameless ↦ cc (sym (cons-append _ _ uuid) ∙ (eq_iff (ticket_id uuid) "").0 nameless)
]

-- Making a ticket keeps a valid manager valid: the limit holds after `create` too, the tickets have
-- distinct identifiers, and none of these is empty.
pub create-IsValid :
    (input : TicketInput) (uuid : String) (current created_at : ℕ) (s : Manager)
    → IsValid s
    → IsValid (create input uuid current created_at s).1
unfolding create
create-IsValid input uuid current created_at s v =
    let r = prune-HasRoom current s v in
    let t = (prune current s).tickets in
    record {
      some_room = omega (arith, r.below);
      bounded = omega (arith, r.below, length-set-le (ticket_id uuid) _ t);
      distinct = set-Distinct (ticket_id uuid) _ t r.distinct;
      named =
          Keys-set (λ k. is_empty k ≡ false) (ticket_id uuid) _ t (ticket_id-nonempty uuid) r.named;
    }

access-HasRoom :
    (id session_id : String) (current : ℕ) (s : Manager)
    → IsValid s
    → HasRoom (access id session_id current s).1
unfolding access
access-HasRoom id session_id current s v = prune-HasRoom current s v

close_after-HasRoom :
    (id : String) (r : Result VerificationTicket) (s : Manager)
    → HasRoom s
    → HasRoom (close_after id (r, s)).1
unfolding close_after
close_after-HasRoom id (err e) s r = r
close_after-HasRoom id (ok ticket) s r = record {
  below = omega (arith, r.below, length-delete-le id s.tickets);
  distinct = delete-Distinct id s.tickets r.distinct;
  named = Keys-delete (λ k. is_empty k ≡ false) id s.tickets r.named;
}

-- After a `close`, whether or not it found the ticket, there is room for one more.
pub close-HasRoom :
    (id session_id : String) (current : ℕ) (s : Manager)
    → IsValid s
    → HasRoom (close id session_id current s).1
unfolding close access
close-HasRoom id session_id current s v =
    close_after-HasRoom id (find id session_id (prune current s).tickets) (prune current s)
      (prune-HasRoom current s v)

append_to-IsValid :
    (id : String) (attempt : VerificationAttempt) (later : ℕ) (r : Result VerificationTicket)
    (s : Manager)
    → is_empty id ≡ false
    → HasRoom s
    → IsValid (append_to id attempt later (r, s)).1
unfolding append_to
append_to-IsValid id attempt later (err e) s n r = HasRoom-IsValid s r
append_to-IsValid id attempt later (ok ticket) s n r = record {
  some_room = omega (arith, r.below);
  bounded = omega (arith, r.below, length-set-le id (extended attempt later s ticket) s.tickets);
  distinct = set-Distinct id _ s.tickets r.distinct;
  named = Keys-set (λ k. is_empty k ≡ false) id _ s.tickets n r.named;
}

append-IsValid :
    (uuid session_id : String) (attempt : VerificationAttempt) (current later : ℕ) (s : Manager)
    → IsValid s
    → IsValid (append (ticket_id uuid) session_id attempt current later s).1
unfolding append access
append-IsValid uuid session_id attempt current later s v =
    append_to-IsValid (ticket_id uuid) attempt later
      (find (ticket_id uuid) session_id (prune current s).tickets) (prune current s)
      (ticket_id-nonempty uuid) (prune-HasRoom current s v)
