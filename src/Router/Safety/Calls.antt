-- ===== src/Router/Safety/Calls.antt =====
-- Safety of packages/mcp-server/src/tools/toolRouter.ts: `call`, with what it does round a tool.
use emacs_llvm.Base.{ℕ, String, Option, none, some, refl}
use emacs_llvm.Base.Json.{Json, Fields}
use emacs_llvm.Base.Exec.Keeps.{
  Keeps, Ends, Turns-bind, Turns-then, Turns-elim, Turns-outcome, Keeps-lift, Keeps-reads,
  Keeps-pure, Ends-forget,
}
use emacs_llvm.Protocol.Errors.{Result}
use emacs_llvm.Protocol.Envelope.{ToolEnvelope}
use emacs_llvm.Sessions.{EmacsSession, SessionManager}
use emacs_llvm.Router.State.{Tool}
use emacs_llvm.Router.Call.{
  request_id_of, new_audit_id, cached, remember, record_call, perform, answer_from, call,
}
use emacs_llvm.Router.Safety.{IsSafe, On, Nothing, nothing, Leased}
use emacs_llvm.Router.Safety.Reads.{quiet_rules, Keeps-aside, Keeps-now, Keeps-draw}
use emacs_llvm.Router.Safety.Dispatch.{Ends-dispatch}

module _ {p : SessionManager → Type 0} where
  Keeps-request_id_of : (args : Fields) → Keeps IsSafe (On p) (request_id_of args)
  unfolding request_id_of
  Keeps-request_id_of args =
      Turns-elim _ _ _ (Turns-bind _ _ Keeps-draw λ uuid. Keeps-pure _) (λ id. Keeps-pure _)

  Keeps-new_audit_id : Keeps IsSafe (On p) new_audit_id
  unfolding new_audit_id
  Keeps-new_audit_id = search quiet_rules

  Keeps-cached : (key : String) → Keeps IsSafe (On p) (cached key)
  unfolding cached
  Keeps-cached key = Turns-bind _ _ Keeps-now λ reading.
      Turns-bind _ _ (Keeps-reads _) λ found.
        Turns-bind _ _ (Keeps-aside _ (λ s. refl) (λ s. refl) (λ s. refl)) λ u. Keeps-pure _

  Keeps-remember :
      (key : String) (envelope : ToolEnvelope) → Keeps IsSafe (On p) (remember key envelope)
  unfolding remember
  Keeps-remember key envelope = Turns-bind _ _ Keeps-now λ reading.
      Turns-bind _ _ (Keeps-aside _ (λ s. refl) (λ s. refl) (λ s. refl)) λ u. Keeps-pure _

  Keeps-record_call :
      (started : ℕ) (audit_id request_id : String) (session_id : Option String) (name : String)
      (r : Result Json)
      → Keeps IsSafe (On p) (record_call started audit_id request_id session_id name r)
  unfolding record_call
  Keeps-record_call started audit_id request_id session_id name r =
      Turns-bind _ _ Keeps-now
        λ ended. Turns-bind _ _ Keeps-now λ stamp. Keeps-aside _ (λ s. refl) (λ s. refl) (λ s. refl)

module _ (workflow : Fields → EmacsSession → Tool Json)
    (behind : (args : Fields) (e : EmacsSession)
      → Ends IsSafe (On (Leased e)) (workflow args e)) where
  Ends-perform :
      (started : ℕ) (name request_id : String) (args : Fields)
      → Ends IsSafe (On Nothing) (perform workflow started name request_id args)
  unfolding perform
  Ends-perform started name request_id args = Turns-bind _ _ Keeps-new_audit_id λ audit_id.
      Turns-bind _ _ (Keeps-reads _) λ outer.
        Turns-bind _ _ (Keeps-aside _ (λ s. refl) (λ s. refl) (λ s. refl)) λ u.
          Turns-then _ _ (Turns-outcome _ nothing (Ends-dispatch workflow behind name args)) λ r.
            Turns-bind _ _ (Keeps-reads _) λ h.
              Turns-bind _ _ (Keeps-record_call started audit_id request_id _ name r) λ v.
                Turns-bind _ _ (Keeps-aside _ (λ s. refl) (λ s. refl) (λ s. refl))
                  λ w. Ends-forget _ (Keeps-remember _ _)

  Ends-answer_from :
      (known : Option ToolEnvelope) (compute : Tool ToolEnvelope)
      → Ends IsSafe (On Nothing) compute
      → Ends IsSafe (On Nothing) (answer_from workflow known compute)
  Ends-answer_from none compute k = k
  Ends-answer_from (some envelope) compute k = Ends-forget _ (Keeps-pure _)

  pub Ends-call :
      (name : String) (arguments : Json) → Ends IsSafe (On Nothing) (call workflow name arguments)
  unfolding call
  Ends-call name arguments = Turns-bind _ _ Keeps-now λ started.
      Turns-bind _ _ (Keeps-lift _) λ args. Turns-bind _ _ (Keeps-request_id_of args) λ request_id.
        Turns-bind _ _ (Keeps-cached _)
          λ known. Ends-answer_from known _ (Ends-perform started name request_id args)
