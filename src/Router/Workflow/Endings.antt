-- ===== src/Router/Workflow/Endings.antt =====
-- How a workflow ends, once it has its checkpoint.
use emacs_llvm.Base.{◌≡◌, refl, String, Bool, true, false, [], ◌∷◌}
use emacs_llvm.Base.Json.{Json, str, obj, Fields, at}
use emacs_llvm.Base.Values.{fields, assign}
use emacs_llvm.Base.Exec.{pure, lift, ◌>>=◌, attempt}
use emacs_llvm.Protocol.Errors.{Result, ok, err, OperatorError, operator_error, rollback_failed}
use emacs_llvm.Router.State.{Server, Tool}
use emacs_llvm.Router.Workflow.Steps.{
  Step, Ending, committed, proposal, workflow_rollback, workflow_proposal_failure, transaction,
}

abbrev has_committed : Result Ending → Bool
has_committed (ok (committed v)) = true
has_committed _ = false

module _ (step : Step) (checkpoint_id operation : String) (body : Tool Ending) (s : Server) where
  abbrev roll_back : Tool Json
  roll_back = step "emacs_rollback" (fields (("checkpoint_id", str checkpoint_id) ∷ []))

  -- What the answer `r`, in the state `u`, comes from.
  pub data Ends (r : Result Json) (u : Server) : Type 0 where
    -- The body has committed, and nothing follows.
    commits : (v : Json) → body s ≡ (ok (committed v), u) → r ≡ ok v → Ends r u
    -- The body has proposed something that did not hold: the rollback comes last, and the answer
    -- says so, with the rollback's own answer and the body's details.
    takes_back :
        (reason : String) (details taken : Fields) (runtime : Bool) (t : Server) (v : Json)
        → body s ≡ (ok (proposal reason details runtime), t)
        → roll_back t ≡ (ok v, u)
        → r ≡ ok (obj (assign taken details))
        → at "status" taken ≡ str "rolled_back"
        → at "rollback" taken ≡ v
        → Ends r u
    -- The body has thrown: the rollback comes last, and the error is the body's.
    fails :
        (thrown : OperatorError) (t : Server) (v : Json)
        → body s ≡ (err thrown, t)
        → roll_back t ≡ (ok v, u)
        → r ≡ err thrown
        → Ends r u
    -- The rollback has failed too, of a body that has not committed.
    is_stuck :
        (ending : Result Ending) (t : Server) (x e : OperatorError)
        → body s ≡ (ending, t)
        → has_committed ending ≡ false
        → roll_back t ≡ (err x, u)
        → r ≡ err e
        → e.code ≡ rollback_failed
        → Ends r u

  abbrev tried : Result Json × Server
  tried = transaction step checkpoint_id operation body s

  by_rollback_of_throw :
      (thrown : OperatorError) (t : Server)
      → body s ≡ (err thrown, t)
      → (q : Result Json × Server) → roll_back t ≡ q
      → Ends tried.0 tried.1
  unfolding transaction workflow_rollback attempt ◌>>=◌ lift operator_error
  by_rollback_of_throw thrown t e (ok v, u) k = rw (e, k) (fails thrown t v e k refl)
  by_rollback_of_throw thrown t e (err x, u) k =
      rw (e, k) (is_stuck (err thrown) t x _ e refl k refl refl)

  by_rollback_of_proposal :
      (reason : String) (details : Fields) (runtime : Bool) (t : Server)
      → body s ≡ (ok (proposal reason details runtime), t)
      → (q : Result Json × Server) → roll_back t ≡ q
      → Ends tried.0 tried.1
  unfolding transaction workflow_rollback workflow_proposal_failure attempt ◌>>=◌ lift pure at
      operator_error
  by_rollback_of_proposal reason details runtime t e (ok v, u) k =
      rw (e, k) (takes_back reason details _ runtime t v e k refl refl refl)
  by_rollback_of_proposal reason details runtime t e (err x, u) k =
      rw (e, k) (is_stuck (ok (proposal reason details runtime)) t x _ e refl k refl refl)

  by_body : (q : Result Ending × Server) → body s ≡ q → Ends tried.0 tried.1
  unfolding transaction attempt ◌>>=◌ pure
  by_body (err thrown, t) e = by_rollback_of_throw thrown t e (roll_back t) refl
  by_body (ok (committed v), t) e = rw e (commits v e refl)
  by_body (ok (proposal reason details runtime), t) e =
      by_rollback_of_proposal reason details runtime t e (roll_back t) refl

  -- A workflow that has its checkpoint ends in one of four ways: committed, and then no rollback
  -- follows; with a proposal that did not hold, or a throw, and then a rollback of that checkpoint
  -- is the last thing it does; or with the error that the rollback failed too.
  pub transaction-Ends : Ends tried.0 tried.1
  transaction-Ends = by_body (body s) refl
