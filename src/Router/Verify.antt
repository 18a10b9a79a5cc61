-- ===== src/Router/Verify.antt =====
-- packages/mcp-server/src/tools/toolRouter.ts: `emacs_verification`, which runs a piece of Lisp once
-- and lets it be rerun, by a ticket, after its source has changed.
pub mod Attempts
use emacs_llvm.Base.{
  ℕ, String, Bool, true, false, ◌&&◌, not, Option, none, some, List, [], ◌∷◌, length, leb,
  if◌then◌else◌, str_eq,
}
use emacs_llvm.Base.Json.{Json, null, bool, num, str, Fields, end, at, Number, nat}
use emacs_llvm.Base.Values.{
  object, array, or_else, record_of, string_of, is_true, string_or_null, equal, clamp_floor,
}
use emacs_llvm.Base.Exec.{pure, lift, reads, ◌>>=◌, ◌>>◌}
use emacs_llvm.Protocol.Errors.{ok, ensure, invalid_argument}
use emacs_llvm.Protocol.Validation.{required_string}
use emacs_llvm.Policy.{assert_mutation, assert_structured_eval}
use emacs_llvm.Sessions.{EmacsSession}
use emacs_llvm.Tickets.{
  VerificationAttempt, VerificationTicket, VerificationRisk, low, high, unknown, create, access,
  append, close,
}
use emacs_llvm.Router.State.{
  Server, Tool, now, draw, request, set_before, set_after, mark_mutation, acquire, with_tickets,
}
use emacs_llvm.Router.Arguments.{
  one_of, snake_target, policy_context, state_summary, normalize_structured_evaluation,
  AnalysisSourceFingerprint, analysis_fingerprint, source_start_from_metadata, attempt_json,
  attempts_json, ticket_json, risk_name,
}
use emacs_llvm.Router.Reads.{observe_compact}
use emacs_llvm.Router.Mutations.Evaluation.{may_write}
use emacs_llvm.Router.Verify.Attempts.{
  answer, consult_ticket, is_completed, last_attempt, run_evaluation, start_verification, status_of,
  ticket_of,
}

-- Why no rerun takes place, if so, from the ticket alone.
unfoldable pub settled : VerificationTicket → Option (String × String)
settled ticket =
    if is_completed (last_attempt ticket.attempts)
    then some ("completed", "already_completed")
    else if leb ticket.max_attempts (length ticket.attempts)
    then some ("stopped", "max_attempts")
    else if not (str_eq (risk_name ticket.side_effect_risk) "low") && not ticket.allow_risky_rerun
    then some ("stopped", "runtime_side_effect_risk")
    else none

abbrev filled : Option String → Option String
filled none = none
filled (some s) = if str_eq s "" then none else some s

abbrev metadata_of : Option VerificationAttempt → Fields
metadata_of none = end
metadata_of (some a) = record_of a.metadata

abbrev reason_by_place : Option Number → Option Number → Bool → Option String
reason_by_place none _ same_text = some "source_locator_unavailable"
reason_by_place (some m) none same_text = some "source_locator_unavailable"
reason_by_place (some m) (some n) same_text =
    if equal m n
    then (if same_text then some "source_unchanged" else none)
    else some "source_target_changed"

abbrev reason_by_text :
    Option String → Option String → Option Number → Option Number → Option String
reason_by_text none _ start previous = some "source_fingerprint_unavailable"
reason_by_text (some a) none start previous = some "source_fingerprint_unavailable"
reason_by_text (some a) (some b) start previous = reason_by_place start previous (str_eq a b)

-- Why no rerun takes place, if so, from the source as it is now and as it was for the last attempt.
unfoldable pub unchanged : AnalysisSourceFingerprint → Option VerificationAttempt → Option String
unchanged f last =
    let metadata = metadata_of last in
    reason_by_text (filled f.source_sha256) (filled (string_of (at "source_sha256" metadata)))
      f.source_start (source_start_from_metadata metadata)

abbrev stopped : String → String → String → VerificationTicket → Json
stopped status reason id ticket = answer (
    ("status", str status)
    ∷ ("reason", str reason)
    ∷ ("ticket_id", str id)
    ∷ ("attempts", attempts_json ticket.attempts)
    ∷ [])

abbrev number_json : Option Number → Json
number_json none = null
number_json (some n) = num n

abbrev bounds_json : Option (Number × Number) → Json
bounds_json none = null
bounds_json (some (m, n)) = array (num m ∷ num n ∷ [])

abbrev previous_start : VerificationTicket → Json
previous_start ticket =
    number_json (source_start_from_metadata (metadata_of (last_attempt ticket.attempts)))

-- The further members of the answer, by the reason.
abbrev evidence : String → AnalysisSourceFingerprint → VerificationTicket → List (String × Json)
evidence reason f ticket =
    if str_eq reason "source_target_changed"
    then ("previous_source_start", previous_start ticket)
      ∷ ("current_source_start", number_json f.source_start)
      ∷ ("current_source_bounds", bounds_json f.source_bounds)
      ∷ []
    else if str_eq reason "source_unchanged"
    then ("source_sha256", str (elim f.source_sha256 [ none ↦ "" | some s ↦ s ]))
      ∷ ("source_start", previous_start ticket)
      ∷ []
    else []

unfoldable pub rerun_now : String → VerificationTicket → EmacsSession → Tool Json
rerun_now id ticket session = do
  attempt ← run_evaluation session ticket.operation (or_else ticket.adapter null) ticket.timeout_ms
  current ← now
  later ← now
  updated ← with_tickets (append id session.session_id attempt current later)
  observed ← observe_compact session
  set_after (state_summary observed)
  pure (
      object (
        (
          "verification",
          object (
              ("status", str (status_of attempt))
              ∷ ("ticket_id", str id)
              ∷ ("attempt_count", nat (length updated.attempts))
              ∷ ("attempt", attempt_json attempt)
              ∷ ("attempts", attempts_json updated.attempts)
              ∷ []),
        )
        ∷ ("observed", observed)
        ∷ []))

-- The rerun of a ticket that leaves one open.
unfoldable pub rerun_if_changed : String → VerificationTicket → EmacsSession → Tool Json
rerun_if_changed id ticket session = do
  response ← request session "adapter.analyze" (
      object (
        ("target", snake_target session)
        ∷ ("adapter", str "lisp")
        ∷ ("operation", str "evaluation_source_fingerprint")
        ∷ ("params", object (("evaluation_operation", str ticket.operation) ∷ []))
        ∷ []))
  f ← lift (analysis_fingerprint response)
  elim (unchanged f (last_attempt ticket.attempts)) [
    | some reason ↦ pure (
        answer (
          ("status", str "stopped")
          ∷ ("reason", str reason)
          ∷ ("ticket_id", str id)
          ∷ ("attempts", attempts_json ticket.attempts)
          ∷ evidence reason f ticket))
    | none ↦ rerun_now id ticket session
  ]

unfoldable pub rerun_verification : Fields → EmacsSession → Tool Json
rerun_verification args session = do
  id ← lift (required_string args "ticket_id")
  ticket ← ticket_of id session
  elim (settled ticket) [
    | some (status, reason) ↦ pure (stopped status reason id ticket)
    | none ↦ rerun_if_changed id ticket session
  ]

-- The actions that run something.
unfoldable pub run_verification : String → Fields → EmacsSession → Tool Json
run_verification action args session = do
  mark_mutation
  lift (assert_mutation session)
  lift (assert_structured_eval session)
  acquire session
  may_write session
  before ← observe_compact session
  set_before (state_summary before)
  if str_eq action "start" then start_verification args session else rerun_verification args session

unfoldable pub emacs_verification : Fields → EmacsSession → Tool Json
emacs_verification args session = do
  action ← lift (required_string args "action")
  lift (
      ensure (one_of action ("start" ∷ "rerun" ∷ "status" ∷ "close" ∷ [])) invalid_argument
        "Unsupported verification action." none)
  if one_of action ("status" ∷ "close" ∷ [])
      then consult_ticket action args session
      else run_verification action args session
