-- ===== src/Tickets/Access.antt =====
-- Who gets a ticket back, and when a ticket that is still valid is lost.
use emacs_llvm.Base.{
  ℕ, suc, zero, ◌+◌, ◌≤◌, ◌<◌, ◌≡◌, ◌≢◌, refl, ap, sym, ◌∙◌, subst, String, none, some, [], ◌∷◌,
  ◌++◌, length, drop, drop-append_le, length-append, arith, eq_iff, eq_refl, if◌then◌else◌,
  Option-cases, inl, inr,
}
use emacs_llvm.Base.Map.{
  JsMap, get, set, retain, Distinct, get-set, get-delete, get-retain, get-retain-none,
  set-of_get-none, retain-Distinct,
}
use emacs_llvm.Base.Evict.{get-drop, get-drop-none, retain-append, get_middle}
use emacs_llvm.Base.Json.{str, field, end}
use emacs_llvm.Protocol.Errors.{Result, ok, err, throw, transaction_not_found, policy_denied}
use emacs_llvm.Tickets.{
  Manager, TicketInput, VerificationTicket, VerificationAttempt, prune, create, access, append,
  close, is_live, ticket_id, find, close_after, append_to, extended,
}
use emacs_llvm.Tickets.Laws.{
  IsValid, live_tickets, surplus, tickets-prune, prune-HasRoom, create-IsValid, prune_settings,
  HasRoom-IsValid, close-HasRoom,
}

-- What `prune` leaves under a key was there, and is live.
get-prune :
    (id : String) (current : ℕ) (s : Manager) (t : VerificationTicket)
    → IsValid s
    → get id (prune current s).tickets ≡ some t
    → (get id s.tickets ≡ some t) × (current < t.expires_at)
get-prune id current s t v e =
    let live = live_tickets current s in
    let d = retain-Distinct (is_live current) s.tickets v.distinct in
    let found : get id (drop (surplus current s) live) ≡ some t =
      ap (get id) (sym (tickets-prune current s v)) ∙ e in
    let same : get id live ≡ some t =
      sym (get-drop id (surplus current s) live d (λ n. cc (sym n ∙ found))) ∙ found in
    let test = sym (get-retain (is_live current) id s.tickets v.distinct) ∙ same in
    (ground (arith, test), ground (arith, test))

get-prune-none :
    (id : String) (current : ℕ) (s : Manager)
    → IsValid s
    → get id s.tickets ≡ none
    → get id (prune current s).tickets ≡ none
get-prune-none id current s v h = rw (tickets-prune current s v) (
    get-drop-none id (surplus current s) (live_tickets current s)
      (get-retain-none (is_live current) id s.tickets h))

-- In a valid manager a ticket is handed out only to the session that it was made for, only while it stands in the
-- manager under its identifier, and only before it expires.
pub access_sound :
    (id session_id : String) (current : ℕ) (s : Manager) (t : VerificationTicket)
    → IsValid s
    → (access id session_id current s).0 ≡ ok t
    → (t.session_id ≡ session_id) × (get id s.tickets ≡ some t) × (current < t.expires_at)
unfolding access find
access_sound id session_id current s t v e =
    elim (Option-cases (get id (prune current s).tickets)) [
      | inl missing ↦ cc (rw (missing, find) at e)
      | inr (t', found) ↦
          let e' = rw (found, find) at e in
          let same : t' ≡ t = ground arith in
          let was = get-prune id current s t v (found ∙ ap some same) in
          (ground (arith, eq_iff t'.session_id session_id), was.0, was.1)
    ]

-- Another session's ticket is refused by policy, and no ticket is handed out.
access_denied :
    (id session_id : String) (current : ℕ) (s : Manager) (t : VerificationTicket)
    → get id (prune current s).tickets ≡ some t
    → t.session_id ≢ session_id
    → (access id session_id current s).0
      ≡ throw policy_denied "Verification ticket belongs to a different session." none
unfolding access find
access_denied id session_id current s t found other =
    rw (found, find) (ground (arith, eq_iff t.session_id session_id))

retain_live :
    (later : ℕ) (id : String) (t : VerificationTicket)
    → later < t.expires_at
    → retain (is_live later) ((id, t) ∷ []) ≡ (id, t) ∷ []
unfolding retain
retain_live later id t h = ground arith

-- The session that made a ticket gets it back by a lookup that comes next, if it comes before the
-- ticket expires, in a valid manager that keeps at least two tickets and does not have the identifier.
access-create :
    (input : TicketInput) (uuid : String) (current created_at later : ℕ) (s : Manager)
    → IsValid s
    → 2 ≤ s.max_tickets
    → get (ticket_id uuid) s.tickets ≡ none
    → later < created_at + s.ttl_ms
    → let made = create input uuid current created_at s in
      (access (ticket_id uuid) input.session_id later made.1).0 ≡ ok made.0
unfolding create access find
access-create input uuid current created_at later s v two fresh early =
    let id = ticket_id uuid in
    let made = create input uuid current created_at s in
    let t = made.0 in
    let p = (prune current s).tickets in
    let valid : IsValid made.1 = create-IsValid input uuid current created_at s v in
    let absent : get id p ≡ none = rw (tickets-prune current s v) (
      get-drop-none id (surplus current s) (live_tickets current s)
        (get-retain-none (is_live current) id s.tickets fresh)) in
    let last : made.1.tickets ≡ p ++ (id, t) ∷ [] = set-of_get-none id t p absent in
    let kept_p = retain (is_live later) p in
    let live : live_tickets later made.1 ≡ kept_p ++ (id, t) ∷ [] = rw last (
      retain-append (is_live later) p ((id, t) ∷ [])
      ∙ ap (◌++◌ kept_p) (retain_live later id t early)) in
    let over = surplus later made.1 in
    let spare : over ≤ length kept_p =
      omega (
        arith,
        ap length live,
        length-append kept_p ((id, t) ∷ []),
        (prune_settings current s).0,
      ) in
    let left : (prune later made.1).tickets ≡ drop over kept_p ++ (id, t) ∷ [] =
      tickets-prune later made.1 valid
      ∙ ap (drop over) live
      ∙ drop-append_le over kept_p ((id, t) ∷ []) spare in
    let distinct = subst (λ m. Distinct m) left (prune-HasRoom later made.1 valid).distinct in
    let found : get id (prune later made.1).tickets ≡ some t =
      rw left (get_middle id t (drop over kept_p) [] distinct) in
    rw (found, find) (rw (eq_refl input.session_id))

-- When the live tickets fill a valid manager, a mere lookup drops the oldest of them, so that the
-- session that made it is told that it is unknown or expired.
pub access_full :
    (id session_id : String) (current : ℕ) (t : VerificationTicket)
    (rest : JsMap VerificationTicket) (s : Manager)
    → IsValid s
    → live_tickets current s ≡ (id, t) ∷ rest
    → suc (length rest) ≡ s.max_tickets
    → (access id session_id current s).0
      ≡ throw transaction_not_found "Unknown or expired verification ticket."
          (some (field "ticket_id" (str id) end))
unfolding access find
access_full id session_id current t rest s v live full =
    let one : surplus current s ≡ suc zero = omega (arith, ap length live) in
    let left : (prune current s).tickets ≡ rest =
      tickets-prune current s v
      ∙ ap (λ n. drop n (live_tickets current s)) one
      ∙ ap (drop 1) live in
    let distinct =
      subst (λ m. Distinct m) live (retain-Distinct (is_live current) s.tickets v.distinct) in
    rw (left, find) (rw (distinct.0, find))

append_to_lem :
    (id : String) (attempt : VerificationAttempt) (later : ℕ) (t : VerificationTicket) (s : Manager)
    → append_to id attempt later (ok t, s) ≡ (
      ok (extended attempt later s t),
      record s { tickets = set id (extended attempt later s t) s.tickets },
    )
unfolding append_to
append_to_lem id attempt later t s = refl

-- An `append` that the lookup allows adds one attempt at the end, renews the expiry, and leaves the
-- other tickets as the lookup left them; the ticket returned is the one that is then stored.
pub append-access :
    (id session_id : String) (attempt : VerificationAttempt) (current later : ℕ) (s : Manager)
    (t : VerificationTicket)
    → (access id session_id current s).0 ≡ ok t
    → let made = append id session_id attempt current later s in
      (t' : VerificationTicket) × (made.0 ≡ ok t')
      × (t'.attempts ≡ t.attempts ++ attempt ∷ [])
      × (t'.expires_at ≡ later + s.ttl_ms)
      × (get id made.1.tickets ≡ some t')
      × ((j : String)
          → j ≢ id
          → get j made.1.tickets ≡ get j (access id session_id current s).1.tickets)
unfolding append access
append-access id session_id attempt current later s t allowed =
    let p = prune current s in
    let t' = extended attempt later p t in
    let whole =
      ap (λ r. append_to id attempt later (r, p)) allowed ∙ append_to_lem id attempt later t p in
    (
      t',
      ap (λ r. r.0) whole,
      refl,
      ap (λ n. later + n) (prune_settings current s).1,
      ap (λ r. get id r.1.tickets) whole
          ∙ get-set id id t' p.tickets
          ∙ ap (λ b. if b then some t' else get id p.tickets) (eq_refl id),
      λ j other.
          ap (λ r. get j r.1.tickets) whole
          ∙ get-set id j t' p.tickets
          ∙ ground (arith, eq_iff id j),
    )

close_after-gone :
    (id : String) (r : Result VerificationTicket) (s : Manager)
    → (close_after id (r, s)).0 ≡ ok tt
    → get id (close_after id (r, s)).1.tickets ≡ none
unfolding close_after
close_after-gone id (err e) s h = cc
close_after-gone id (ok t) s h = get-delete id id s.tickets ∙ rw (eq_refl id)

-- A ticket that was closed in a valid manager is gone: every later lookup of it says that it is unknown.
close-access :
    (id session_id other : String) (current later : ℕ) (s : Manager)
    → IsValid s
    → (close id session_id current s).0 ≡ ok tt
    → (access id other later (close id session_id current s).1).0
      ≡ throw transaction_not_found "Unknown or expired verification ticket."
          (some (field "ticket_id" (str id) end))
unfolding close access find
close-access id session_id other current later s v closed =
    let p = prune current s in
    let r = find id session_id p.tickets in
    let gone : get id (close_after id (r, p)).1.tickets ≡ none = close_after-gone id r p closed in
    let valid : IsValid (close_after id (r, p)).1 =
      HasRoom-IsValid (close_after id (r, p)).1 (close-HasRoom id session_id current s v) in
    rw (get-prune-none id later (close_after id (r, p)).1 valid gone, find)
