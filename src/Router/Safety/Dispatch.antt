-- ===== src/Router/Safety/Dispatch.antt =====
-- Safety of packages/mcp-server/src/tools/toolRouter.ts: `dispatch`, and the tools that
-- need no session.
use emacs_llvm.Base.{String, refl}
use emacs_llvm.Base.Json.{Json, Fields}
use emacs_llvm.Base.Exec.Keeps.{
  Turns, Keeps, Ends, Turns-bind, Turns-then, Turns-if, Turns-always, Keeps-lift, Keeps-reads,
  Keeps-pure, Ends-forget,
}
use emacs_llvm.Sessions.{EmacsSession, SessionManager, SessionOpenInput}
use emacs_llvm.Sessions.Named.{close-Named, open_session-Named}
use emacs_llvm.Router.State.{InstanceRecord, Tool}
use emacs_llvm.Router.Registry.{connect_anew, connect, client}
use emacs_llvm.Router.Open.{register, emacs_session_open}
use emacs_llvm.Router.Dispatch.{
  emacs_health, emacs_instances, emacs_session_close, unknown_tool, emacs_workflow, tool,
  in_session, dispatch,
}
use emacs_llvm.Router.Safety.{IsSafe, On, Nothing, nothing, Known, Leased, alters}
use emacs_llvm.Router.Safety.Reads.{
  quiet_rules, Keeps-aside, Keeps-now, Keeps-draw, Keeps-observe_compact, Keeps-set_before,
  Keeps-emacs_observe, Keeps-emacs_read, Keeps-emacs_navigate, Keeps-emacs_capabilities,
  Keeps-emacs_validate, Keeps-emacs_wait, Keeps-emacs_analyze, Keeps-emacs_capture,
}
use emacs_llvm.Router.Safety.Mutations.{
  Turns-may_mutate, Keeps-may_write, Ends-emacs_eval, Ends-emacs_command, Ends-emacs_key_sequence,
}
use emacs_llvm.Router.Safety.Renames.{Ends-emacs_project_rename}
use emacs_llvm.Router.Safety.Edits.{Ends-emacs_edit, Ends-emacs_checkpoint, Ends-emacs_rollback}
use emacs_llvm.Router.Safety.Verify.{Ends-emacs_verification}
use emacs_llvm.Router.Safety.Leases.{Turns-with_sessions, Turns-found}

Keeps-connect_anew :
    {p : SessionManager → Type 0} (id : String) (found : InstanceRecord)
    → Keeps IsSafe (On p) (connect_anew id found)
unfolding connect_anew
Keeps-connect_anew id found = Turns-bind _ _ (Keeps-reads _) λ answer.
    Turns-bind _ _ (Keeps-lift _)
      λ i. Turns-bind _ _ (Keeps-aside _ (λ s. refl) (λ s. refl) (λ s. refl)) λ u. Keeps-pure i

Keeps-connect :
    {p : SessionManager → Type 0} (found : InstanceRecord) → Keeps IsSafe (On p) (connect found)
unfolding connect alters
Keeps-connect found = search (quiet_rules, Keeps-connect_anew)

Keeps-client : {p : SessionManager → Type 0} (id : String) → Keeps IsSafe (On p) (client id)
unfolding client
Keeps-client id = search (quiet_rules, Keeps-connect_anew) depth 6

Turns-register :
    {p : SessionManager → Type 0} (input : SessionOpenInput)
    → Turns IsSafe (On p) (On Nothing) (register input)
unfolding register
Turns-register input = Turns-bind _ _ Keeps-now λ at.
    Turns-bind _ _ Keeps-draw
      λ uuid. Turns-with_sessions _ (open_session-Named input uuid at) (λ m a h e. tt)

Ends-emacs_session_open : (args : Fields) → Ends IsSafe (On Nothing) (emacs_session_open args)
unfolding emacs_session_open alters
Ends-emacs_session_open args =
    Ends-forget _ (search (quiet_rules, Keeps-connect, Turns-register) depth 24)

Ends-emacs_session_close : (args : Fields) → Ends IsSafe (On Nothing) (emacs_session_close args)
unfolding emacs_session_close
Ends-emacs_session_close args = Turns-bind _ _ (Keeps-lift _) λ id. Turns-found id _ λ e.
    Turns-bind _ _ (search quiet_rules) λ u.
      Turns-then {R = On Nothing} _ _ (Turns-with_sessions _ (close-Named id) (λ m a h e. tt))
        λ closed. Ends-forget _ (Keeps-pure _)

Ends-emacs_health : Ends IsSafe (On Nothing) emacs_health
unfolding emacs_health alters
Ends-emacs_health = search quiet_rules

Ends-emacs_instances : Ends IsSafe (On Nothing) emacs_instances
unfolding emacs_instances alters
Ends-emacs_instances = search quiet_rules

module _ (workflow : Fields → EmacsSession → Tool Json)
    (behind : (args : Fields) (e : EmacsSession)
      → Ends IsSafe (On (Leased e)) (workflow args e)) where
  Ends-emacs_workflow :
      (args : Fields) (e : EmacsSession)
      → Ends IsSafe (On (Known e)) (emacs_workflow workflow args e)
  unfolding emacs_workflow
  Ends-emacs_workflow args e = Turns-then _ _ (Turns-may_mutate e) λ u.
      Turns-bind _ _ (Keeps-may_write e) λ v. Turns-bind _ _ (Keeps-lift _) λ w.
        Turns-bind _ _ (Keeps-observe_compact e) λ before. Turns-bind _ _ (Keeps-set_before _) λ x.
          Turns-then _ _ (Turns-always _ nothing (behind args e))
            λ r. Turns-found e.session_id _ λ current. Ends-forget _ (search quiet_rules)

  Ends-tool :
      (name : String) (args : Fields) (e : EmacsSession)
      → Ends IsSafe (On (Known e)) (tool workflow name args e)
  unfolding tool unknown_tool
  Ends-tool name args e = Turns-if _ _ _ (Ends-forget _ (Keeps-emacs_observe args e)) (
      Turns-if _ _ _ (Ends-forget _ (Keeps-emacs_read args e)) (
        Turns-if _ _ _ (Ends-forget _ (Keeps-emacs_navigate args e)) (
          Turns-if _ _ _ (Ends-forget _ (Keeps-emacs_capabilities args e)) (
            Turns-if _ _ _ (Ends-forget _ (Keeps-emacs_validate args e)) (
              Turns-if _ _ _ (Ends-forget _ (Keeps-emacs_wait args e)) (
                Turns-if _ _ _ (Ends-forget _ (Keeps-emacs_analyze args e)) (
                  Turns-if _ _ _ (Ends-forget _ (Keeps-emacs_capture args e)) (
                    Turns-if _ _ _ (Ends-emacs_eval args e) (
                      Turns-if _ _ _ (Ends-emacs_workflow args e) (
                        Turns-if _ _ _ (Ends-emacs_verification args e) (
                          Turns-if _ _ _ (Ends-emacs_project_rename args e) (
                            Turns-if _ _ _ (Ends-emacs_key_sequence args e) (
                              Turns-if _ _ _ (Ends-emacs_command args e) (
                                Turns-if _ _ _ (Ends-emacs_edit args e) (
                                  Turns-if _ _ _ (Ends-emacs_checkpoint args e) (
                                    Turns-if _ _ _ (Ends-emacs_rollback args e)
                                      (Ends-forget _ (Keeps-lift _))))))))))))))))))

  Ends-in_session :
      (name : String) (args : Fields) → Ends IsSafe (On Nothing) (in_session workflow name args)
  unfolding in_session
  Ends-in_session name args = Turns-bind _ _ (Keeps-lift _) λ id. Turns-found id _ λ e.
      Turns-bind _ _ (search quiet_rules)
        λ u. Turns-bind _ _ (Keeps-client e.instance_id) λ v. Ends-tool name args e

  pub Ends-dispatch :
      (name : String) (args : Fields) → Ends IsSafe (On Nothing) (dispatch workflow name args)
  unfolding dispatch
  Ends-dispatch name args = Turns-if _ _ _ Ends-emacs_health (
      Turns-if _ _ _ Ends-emacs_instances (
        Turns-if _ _ _ (Ends-emacs_session_open args)
          (Turns-if _ _ _ (Ends-emacs_session_close args) (Ends-in_session name args))))
