-- ===== src/Router/Safety/Edits.antt =====
-- Safety of packages/mcp-server/src/tools/toolRouter.ts: the edits and the checkpoints.
use emacs_llvm.Base.{String}
use emacs_llvm.Base.Json.{Fields}
use emacs_llvm.Base.Exec.Keeps.{Keeps, Ends, Turns-then, Ends-forget}
use emacs_llvm.Sessions.{EmacsSession}
use emacs_llvm.Router.Edits.{
  diff_request, edit_request, emacs_edit, commit_checkpoint, create_checkpoint, emacs_checkpoint,
  emacs_rollback,
}
use emacs_llvm.Router.Safety.{IsSafe, On, Known, Leased}
use emacs_llvm.Router.Safety.Mutations.{Turns-may_mutate, leased_rules}

module _ (args : Fields) (e : EmacsSession) where
  Keeps-edit_request :
      (operation : String) → Keeps IsSafe (On (Leased e)) (edit_request operation args e)
  unfolding edit_request diff_request
  Keeps-edit_request operation = search leased_rules depth 10

  pub Ends-emacs_edit : Ends IsSafe (On (Known e)) (emacs_edit args e)
  unfolding emacs_edit
  Ends-emacs_edit =
      Turns-then _ _ (Turns-may_mutate e)
        (λ u. Ends-forget _ (search (leased_rules, Keeps-edit_request) depth 14))

  pub Ends-emacs_checkpoint : Ends IsSafe (On (Known e)) (emacs_checkpoint args e)
  unfolding emacs_checkpoint commit_checkpoint create_checkpoint
  Ends-emacs_checkpoint =
      Turns-then _ _ (Turns-may_mutate e) (λ u. Ends-forget _ (search leased_rules depth 14))

  pub Ends-emacs_rollback : Ends IsSafe (On (Known e)) (emacs_rollback args e)
  unfolding emacs_rollback
  Ends-emacs_rollback =
      Turns-then _ _ (Turns-may_mutate e) (λ u. Ends-forget _ (search leased_rules depth 14))
