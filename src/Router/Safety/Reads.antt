-- ===== src/Router/Safety/Reads.antt =====
-- Safety of packages/mcp-server/src/tools/toolRouter.ts: the tools that only look, or
-- move point.
use emacs_llvm.Base.{String, Option, some, ◌≡◌, refl, sym, subst, All}
use emacs_llvm.Base.Json.{Fields}
use emacs_llvm.Base.Exec.{writes}
use emacs_llvm.Base.Exec.Keeps.{Turns, Keeps, Ends, turns_rules, Keeps-writes, Turns-bind}
use emacs_llvm.Protocol.Envelope.{StateSummary}
use emacs_llvm.Sessions.{EmacsSession, SessionManager}
use emacs_llvm.Sessions.Named.{Named}
use emacs_llvm.Router.State.{
  Server, bridge, now, draw, set_before, set_after, set_instance, mark_mutation,
}
use emacs_llvm.Router.Registry.{find_record}
use emacs_llvm.Router.Reads.{
  observe_compact, emacs_observe, emacs_read, emacs_navigate, emacs_capabilities, emacs_validate,
  emacs_wait, emacs_analyze, emacs_capture,
}
use emacs_llvm.Router.Safety.{IsSafe, IsPermitted, On, exchange_quiet, alters}

module _ {p : SessionManager → Type 0} where
  -- A change of what the invariant does not speak of.
  pub Keeps-aside :
      (f : Server → Server)
      → ((s : Server) → (f s).sessions ≡ s.sessions)
      → ((s : Server) → (f s).sent ≡ s.sent)
      → ((s : Server) → (f s).world ≡ s.world)
      → Keeps IsSafe (On p) (writes f)
  Keeps-aside f same_sessions same_sent same_world =
      Keeps-writes f
        (λ s i. record {
          named = subst Named (sym (same_sessions s)) i.named;
          permitted =
              subst (λ w. All (IsPermitted w) (f s).sent) (sym (same_world s))
                (subst (All (IsPermitted s.world)) (sym (same_sent s)) i.permitted);
        })
        (λ s h. record { there = subst p (sym (same_sessions s)) h.there })

  pub Keeps-set_before : (v : Option StateSummary) → Keeps IsSafe (On p) (set_before v)
  unfolding set_before
  Keeps-set_before v = Keeps-aside _ (λ s. refl) (λ s. refl) (λ s. refl)

  pub Keeps-set_after : (v : Option StateSummary) → Keeps IsSafe (On p) (set_after v)
  unfolding set_after
  Keeps-set_after v = Keeps-aside _ (λ s. refl) (λ s. refl) (λ s. refl)

  pub Keeps-observe_compact : (e : EmacsSession) → Keeps IsSafe (On p) (observe_compact e)
  unfolding observe_compact alters
  Keeps-observe_compact e = exchange_quiet (bridge e.instance_id) (some e) "state.observe" _ refl

  pub Keeps-mark_mutation : Keeps IsSafe (On p) mark_mutation
  unfolding mark_mutation
  Keeps-mark_mutation = Keeps-aside _ (λ s. refl) (λ s. refl) (λ s. refl)

  pub Keeps-set_instance : (v : String) → Keeps IsSafe (On p) (set_instance v)
  unfolding set_instance
  Keeps-set_instance v = Keeps-aside _ (λ s. refl) (λ s. refl) (λ s. refl)

  pub Keeps-now : Keeps IsSafe (On p) now
  unfolding now
  Keeps-now = record {
    run =
        λ s i h. (record { named = i.named; permitted = i.permitted }, record { there = h.there });
  }

  pub Keeps-draw : Keeps IsSafe (On p) draw
  unfolding draw
  Keeps-draw = record {
    run =
        λ s i h. (record { named = i.named; permitted = i.permitted }, record { there = h.there });
  }

  pub Keeps-find_record : (id : Option String) → Keeps IsSafe (On p) (find_record id)
  unfolding find_record
  Keeps-find_record id = search turns_rules

pub ruleset quiet_rules = (
  turns_rules, Keeps-set_before, Keeps-set_after, Keeps-observe_compact, Keeps-find_record,
  exchange_quiet, Keeps-mark_mutation, Keeps-set_instance, Keeps-now, Keeps-draw,
)

module _ {p : SessionManager → Type 0} (args : Fields) (e : EmacsSession) where
  pub Keeps-emacs_observe : Keeps IsSafe (On p) (emacs_observe args e)
  unfolding emacs_observe alters
  Keeps-emacs_observe = search quiet_rules

  pub Keeps-emacs_read : Keeps IsSafe (On p) (emacs_read args e)
  unfolding emacs_read alters
  Keeps-emacs_read = search quiet_rules depth 12

  pub Keeps-emacs_navigate : Keeps IsSafe (On p) (emacs_navigate args e)
  unfolding emacs_navigate alters
  Keeps-emacs_navigate = search quiet_rules depth 12

  pub Keeps-emacs_capabilities : Keeps IsSafe (On p) (emacs_capabilities args e)
  unfolding emacs_capabilities alters
  Keeps-emacs_capabilities = search quiet_rules depth 6

  pub Keeps-emacs_validate : Keeps IsSafe (On p) (emacs_validate args e)
  unfolding emacs_validate alters
  Keeps-emacs_validate = search quiet_rules depth 8

  pub Keeps-emacs_wait : Keeps IsSafe (On p) (emacs_wait args e)
  unfolding emacs_wait alters
  Keeps-emacs_wait = search quiet_rules

  pub Keeps-emacs_analyze : Keeps IsSafe (On p) (emacs_analyze args e)
  unfolding emacs_analyze alters
  Keeps-emacs_analyze = search quiet_rules depth 8

  pub Keeps-emacs_capture : Keeps IsSafe (On p) (emacs_capture args e)
  unfolding emacs_capture alters
  Keeps-emacs_capture = search quiet_rules depth 14
