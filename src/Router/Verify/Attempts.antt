-- ===== src/Router/Verify/Attempts.antt =====
-- packages/mcp-server/src/tools/toolRouter.ts: the actions of `emacs_verification` but the rerun, and one
-- evaluation.
use emacs_llvm.Base.{
  ℕ, String, Bool, true, false, Option, none, some, List, [], ◌∷◌, if◌then◌else◌, str_eq,
}
use emacs_llvm.Base.Json.{Json, null, bool, num, str, Fields, at, nat}
use emacs_llvm.Base.Values.{object, is_true, string_or_null, clamp_floor}
use emacs_llvm.Base.Exec.{pure, lift, reads, ◌>>=◌, ◌>>◌}
use emacs_llvm.Protocol.Errors.{ok, ensure, invalid_argument}
use emacs_llvm.Protocol.Validation.{required_string}
use emacs_llvm.Sessions.{EmacsSession}
use emacs_llvm.Tickets.{
  VerificationAttempt, VerificationTicket, VerificationRisk, low, high, unknown, create, access,
  close,
}
use emacs_llvm.Router.State.{Server, Tool, now, draw, request, set_after, with_tickets}
use emacs_llvm.Router.Arguments.{
  one_of, snake_target, policy_context, state_summary, normalize_structured_evaluation,
  attempt_json, ticket_json, risk_name,
}
use emacs_llvm.Router.Reads.{observe_compact}

unfoldable pub ticket_of : String → EmacsSession → Tool VerificationTicket
ticket_of id session = do current ← now; with_tickets (access id session.session_id current)

abbrev pub answer : List (String × Json) → Json
answer members = object (("verification", object members) ∷ [])

abbrev pub last_attempt : List VerificationAttempt → Option VerificationAttempt
last_attempt [] = none
last_attempt (a ∷ []) = some a
last_attempt (a ∷ b ∷ more) = last_attempt (b ∷ more)

abbrev pub is_completed : Option VerificationAttempt → Bool
is_completed none = false
is_completed (some a) = a.completed

-- The actions that only look at a ticket.
unfoldable pub consult_ticket : String → Fields → EmacsSession → Tool Json
consult_ticket action args session = do
  id ← lift (required_string args "ticket_id")
  ticket ← ticket_of id session
  if str_eq action "close"
      then (do
        current ← now
        with_tickets (close id session.session_id current)
        pure (answer (("status", str "closed") ∷ ("ticket_id", str id) ∷ [])))
      else pure (
          answer (
            (
              "status",
              str (if is_completed (last_attempt ticket.attempts) then "completed" else "open"),
            )
            ∷ ("ticket", ticket_json ticket)
            ∷ []))

unfoldable pub run_evaluation : EmacsSession → String → Json → ℕ → Tool VerificationAttempt
run_evaluation session operation adapter timeout_ms = do
  response ← request session "adapter.eval" (
      object (
        ("target", snake_target session)
        ∷ ("language", str "buffer_language")
        ∷ ("operation", str operation)
        ∷ ("adapter", adapter)
        ∷ ("timeout_ms", nat timeout_ms)
        ∷ ("code", str "")
        ∷ ("precondition", null)
        ∷ ("policy", policy_context session)
        ∷ []))
  lift (normalize_structured_evaluation response)

abbrev limit_of : ℕ → ℕ → Json → ℕ
limit_of most default (num n) = clamp_floor 1 most n
limit_of most default _ = default

abbrev risk_of : String → VerificationRisk
risk_of s = if str_eq s "low" then low else if str_eq s "high" then high else unknown

abbrev pub status_of : VerificationAttempt → String
status_of a = if a.completed then "completed" else "failed"

unfoldable pub start_verification : Fields → EmacsSession → Tool Json
start_verification args session = do
  operation ← lift (required_string args "operation")
  lift (
      ensure (one_of operation ("eval_last_sexp" ∷ "eval_defun" ∷ "eval_region" ∷ []))
        invalid_argument "Verification operation is not allowlisted." none)
  let timeout_ms = limit_of 30000 10000 (at "timeout_ms" args)
  let adapter = string_or_null (at "adapter" args)
  risk ← reads (λ (s : Server). risk_of (s.world.text_of (at "side_effect_risk" args)))
  attempt ← run_evaluation session operation adapter timeout_ms
  uuid ← draw
  current ← now
  created_at ← now
  ticket ← with_tickets (λ m.
      let (t, m') =
        create
          (record {
            session_id = session.session_id;
            adapter = adapter;
            operation = operation;
            timeout_ms = timeout_ms;
            max_attempts = limit_of 3 3 (at "max_attempts" args);
            side_effect_risk = risk;
            allow_risky_rerun = is_true (at "allow_risky_rerun" args);
            attempts = attempt ∷ [];
          })
          uuid current created_at m in
      (ok t, m'))
  observed ← observe_compact session
  set_after (state_summary observed)
  pure (
      object (
        (
          "verification",
          object (
              ("status", str (status_of attempt))
              ∷ ("ticket_id", str ticket.ticket_id)
              ∷ ("attempt_count", nat 1)
              ∷ ("attempt", attempt_json attempt)
              ∷ ("rerun_requires_source_change", bool true)
              ∷ ("side_effect_risk", str (risk_name risk))
              ∷ []),
        )
        ∷ ("observed", observed)
        ∷ []))
