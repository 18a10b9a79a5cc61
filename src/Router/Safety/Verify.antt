-- ===== src/Router/Safety/Verify.antt =====
-- Safety of packages/mcp-server/src/tools/toolRouter.ts: the verifications and their
-- tickets.
use emacs_llvm.Base.{String}
use emacs_llvm.Base.Json.{Fields}
use emacs_llvm.Base.Exec.Keeps.{
  Keeps, Ends, Holds, Turns-bind, Turns-then, Turns-if, Turns-elim, Turns-bind-lift, Keeps-lift,
  Keeps-pure, Ends-forget,
}
use emacs_llvm.Protocol.Errors.{Result, ok, err}
use emacs_llvm.Sessions.{EmacsSession, SessionManager}
use emacs_llvm.Tickets.{Manager, VerificationTicket}
use emacs_llvm.Router.State.{Server, with_tickets}
use emacs_llvm.Router.Verify.{
  settled, unchanged, rerun_now, rerun_if_changed, rerun_verification, run_verification,
  emacs_verification,
}
use emacs_llvm.Router.Verify.Attempts.{
  ticket_of, consult_ticket, run_evaluation, start_verification,
}
use emacs_llvm.Router.Safety.{IsSafe, On, Known, Leased}
use emacs_llvm.Router.Safety.Reads.{quiet_rules, Keeps-mark_mutation}
use emacs_llvm.Router.Safety.Leases.{Turns-acquire}
use emacs_llvm.Router.Safety.Mutations.{leased_rules, Keeps-request}

beside :
    {A : Type 0} (p : SessionManager → Type 0) (r : Result A) (s : Server)
    → IsSafe s
    → On p s
    → Holds IsSafe (On p) (r, s)
beside p (ok a) s i h = (i, h)
beside p (err e) s i h = i

-- A call of the ticket manager.
Keeps-with_tickets :
    {A : Type 0} {p : SessionManager → Type 0} (f : Manager → Result A × Manager)
    → Keeps IsSafe (On p) (with_tickets f)
unfolding with_tickets
Keeps-with_tickets {A} {p} f = record {
  run = λ s i h.
      beside p _ _ (record { named = i.named; permitted = i.permitted })
        (record { there = h.there });
}

ruleset ticket_rules = (leased_rules, Keeps-with_tickets)

module _ (args : Fields) (e : EmacsSession) where
  Keeps-consult_ticket :
      {p : SessionManager → Type 0} (action : String)
      → Keeps IsSafe (On p) (consult_ticket action args e)
  unfolding consult_ticket ticket_of
  Keeps-consult_ticket action = search (quiet_rules, Keeps-with_tickets) depth 10

  Keeps-start_verification : Keeps IsSafe (On (Leased e)) (start_verification args e)
  unfolding start_verification run_evaluation
  Keeps-start_verification = search ticket_rules depth 20

  Keeps-rerun_now :
      (id : String) (ticket : VerificationTicket)
      → Keeps IsSafe (On (Leased e)) (rerun_now id ticket e)
  unfolding rerun_now run_evaluation
  Keeps-rerun_now id ticket = search ticket_rules depth 20

  Keeps-rerun_if_changed :
      (id : String) (ticket : VerificationTicket)
      → Keeps IsSafe (On (Leased e)) (rerun_if_changed id ticket e)
  unfolding rerun_if_changed
  Keeps-rerun_if_changed id ticket = Turns-bind _ _ (Keeps-request e _ _) λ response.
      Turns-bind _ _ (Keeps-lift _)
        λ f. Turns-elim (unchanged f _) _ _ (Keeps-rerun_now id ticket) (λ reason. Keeps-pure _)

  Keeps-rerun_verification : Keeps IsSafe (On (Leased e)) (rerun_verification args e)
  unfolding rerun_verification ticket_of
  Keeps-rerun_verification = Turns-bind _ _ (Keeps-lift _) λ id.
      Turns-bind _ _ (search ticket_rules depth 6) λ ticket.
        Turns-elim (settled ticket) _ _ (Keeps-rerun_if_changed id ticket) (λ r. Keeps-pure _)

  Ends-run_verification :
      (action : String) → Ends IsSafe (On (Known e)) (run_verification action args e)
  unfolding run_verification
  Ends-run_verification action = Turns-bind _ _ Keeps-mark_mutation λ u.
      Turns-bind-lift _ _ λ v may. Turns-bind _ _ (Keeps-lift _) λ w.
        Turns-then _ _ (Turns-acquire e may) λ x.
          Ends-forget _
            (search (leased_rules, Keeps-start_verification, Keeps-rerun_verification) depth 8)

  pub Ends-emacs_verification : Ends IsSafe (On (Known e)) (emacs_verification args e)
  unfolding emacs_verification
  Ends-emacs_verification = Turns-bind _ _ (Keeps-lift _) λ action.
      Turns-bind _ _ (Keeps-lift _) λ u.
        Turns-if _ _ _ (Ends-forget _ (Keeps-consult_ticket action)) (Ends-run_verification action)
