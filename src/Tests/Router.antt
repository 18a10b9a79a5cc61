-- ===== src/Tests/Router.antt =====
-- Runs of the tool router at the server of Tests/Server, and its theorems there.
use emacs_llvm.Base.{
  arith, ℕ, zero, suc, String, if◌then◌else◌, str_eq, true, false, none, some, [], ◌∷◌, map, ◌≡◌,
  refl,
}
use emacs_llvm.Base.Map.{get, set}
use emacs_llvm.Base.Json.{obj, str, end, at}
use emacs_llvm.Base.Values.{fields, or_else}
use emacs_llvm.Base.Exec.{pure, lift, reads, writes, ◌>>=◌, outcome}
use emacs_llvm.Protocol.Errors.{Result, ok, err, operator}
use emacs_llvm.Protocol.Envelope.{ToolEnvelope, success_envelope, failure_envelope}
use emacs_llvm.Sessions.{open_session, require_mutable, acquire_mutation}
use emacs_llvm.Sessions.Named.{open_session-Named}
use emacs_llvm.Idempotency.{lookup, store}
use emacs_llvm.Policy.{assert_mutation, profile}
use emacs_llvm.Protocol.Validation.{assert_object, required_string, validate_precondition}
use emacs_llvm.Router.State.{
  Sent, Server, now, draw, with_sessions, current_session, acquire, exchange, set_before, set_after,
  mark_mutation, set_instance,
}
use emacs_llvm.Router.Arguments.{snake_target, policy_context, state_summary}
use emacs_llvm.Router.Reads.{observe_compact}
use emacs_llvm.Router.Mutations.Evaluation.{may_mutate, may_write}
use emacs_llvm.Router.Edits.{edit_request, emacs_edit}
use emacs_llvm.Router.Dispatch.{tool, in_session, dispatch}
use emacs_llvm.Router.Registry.{choose, hit_of, find_record, client, connect_anew}
use emacs_llvm.Router.Call.{
  request_id_of, new_audit_id, cached, remember, audit_entry, envelope_of, record_call, perform,
  call,
}
use emacs_llvm.Router.Call.Replay.{call_again}
use emacs_llvm.Router.Workflow.Endings.{Ends, transaction-Ends}
use emacs_llvm.Router.Safety.{IsSafe}
use emacs_llvm.Router.Workflow.Server.{semantic_workflow, server_call}
use emacs_llvm.Router.Workflow.Answers.{workflow_record, workflow_validation}
use emacs_llvm.Router.Workflow.Requests.{workflow_evaluation_requests}
use emacs_llvm.Router.Workflow.Steps.{
  Step, proposal, workflow_step, workflow_run_evaluations, transaction,
}
use emacs_llvm.Router.Workflow.Lisp.{
  requests_of, create_checkpoint, commit_checkpoint, validate, evaluate_and_commit, repair_body,
  workflow_repair_lisp,
}
use emacs_llvm.Router.Workflow.Choice.{execute_semantic_workflow}
use emacs_llvm.Router.Dispatch.{emacs_workflow}
use emacs_llvm.Router.Edits.{emacs_checkpoint}
use emacs_llvm.Router.Reads.{emacs_validate}
use emacs_llvm.Base.Exec.{attempt}
use emacs_llvm.Base.Values.{put, assign}
use emacs_llvm.Router.Safety.Served.{server_call-IsSafe}
use emacs_llvm.Tests.Server.{input, empty, server, no_workflow, edit, repair, uuids}

runs : Unit {0}
unfolding call request_id_of cached perform new_audit_id record_call audit_entry envelope_of
    remember dispatch in_session client connect_anew find_record choose hit_of tool emacs_edit
    may_mutate may_write mark_mutation acquire current_session with_sessions now draw exchange
    set_before set_after set_instance observe_compact edit_request lookup store get set at
    require_mutable acquire_mutation open_session pure lift reads writes ◌>>=◌ outcome assert_object
    required_string validate_precondition or_else snake_target policy_context state_summary
    success_envelope failure_envelope assert_mutation profile
runs = tt

server-IsSafe : IsSafe server
unfolding get
server-IsSafe = record {
  named = open_session-Named input "a" 0 empty (λ id e h. cc);
  permitted = tt;
}

server_call-IsSafe_example : IsSafe (server_call "emacs_workflow" repair server).1
server_call-IsSafe_example = server_call-IsSafe "emacs_workflow" repair server server-IsSafe

-- The lease is taken before anything is sent.
edit_sends :
    map (λ (x : Sent). x.method) (call no_workflow "emacs_edit" edit server).1.sent
    ≡ "state.observe" ∷ "edit.apply" ∷ "state.observe" ∷ []
unfolding runs
edit_sends = refl

edit_holds :
    map (λ (x : Sent). x.holder) (call no_workflow "emacs_edit" edit server).1.sent
    ≡ some "ses_a" ∷ some "ses_a" ∷ some "ses_a" ∷ []
unfolding runs
edit_holds = refl

-- A call, and the same call a second time, with other arguments.
abbrev first : Result ToolEnvelope × Server
first = call no_workflow "emacs_edit" edit server

abbrev envelope_in : Result ToolEnvelope → ToolEnvelope
envelope_in (ok envelope) = envelope
envelope_in (err e) = failure_envelope "r" "a" (operator e) none none

abbrev answered : ToolEnvelope
answered = envelope_in first.0

call_again_example :
    let (r, s') =
      call no_workflow "emacs_edit" (obj (fields (("request_id", str "r") ∷ []))) first.1 in
    (r ≡ ok answered)
    × (s'.sent ≡ first.1.sent)
    × (s'.audit ≡ first.1.audit)
    × (s'.sessions ≡ first.1.sessions)
    × (s'.tickets ≡ first.1.tickets)
unfolding runs
call_again_example =
    call_again no_workflow "emacs_edit" "r"
      (fields (
        ("session_id", str "ses_a")
        ∷ ("operation", str "insert")
        ∷ ("text", str "x")
        ∷ ("request_id", str "r")
        ∷ []))
      (fields (("request_id", str "r") ∷ [])) answered server first.1 first.1 refl refl (λ same. cc)
      refl refl refl (omega arith)

-- Every step succeeds, with its own name for an answer.
abbrev echo : Step
echo name args = pure (str name)

transaction-Ends_example :
    let tried =
      transaction echo "c" "build" (pure (proposal "unexpected_value" end false)) server in
    Ends echo "c" "build" (pure (proposal "unexpected_value" end false)) server tried.0 tried.1
transaction-Ends_example =
    transaction-Ends echo "c" "build" (pure (proposal "unexpected_value" end false)) server

-- A repair takes a checkpoint, edits, validates, and commits.
repair_sends :
    map (λ (x : Sent). x.method) (server_call "emacs_workflow" repair server).1.sent
    ≡ "state.observe" ∷ "state.observe" ∷ "checkpoint.create" ∷ "state.observe" ∷ "edit.apply"
      ∷ "state.observe" ∷ "state.observe" ∷ "adapter.validate" ∷ "state.observe" ∷ "state.observe"
      ∷ "checkpoint.commit" ∷ "state.observe" ∷ "state.observe" ∷ []
unfolding runs uuids server_call semantic_workflow execute_semantic_workflow workflow_step
    workflow_repair_lisp repair_body requests_of transaction create_checkpoint commit_checkpoint
    validate evaluate_and_commit workflow_run_evaluations workflow_record workflow_validation
    workflow_evaluation_requests emacs_workflow emacs_checkpoint emacs_validate attempt put assign
    emacs_llvm.Router.Edits.create_checkpoint emacs_llvm.Base.Evict.evict
    emacs_llvm.Idempotency.prune_expired emacs_llvm.Base.Map.retain
    emacs_llvm.Router.Edits.commit_checkpoint
repair_sends = refl
