-- ===== src/Router/Workflow/Server.antt =====
-- packages/mcp-server/src/tools/toolRouter.ts: `call` with the workflows, whose steps are calls in turn.
-- The number bounds how deep workflows stand in workflows. No step of a workflow is a workflow, so that
-- the depth 1 is enough.
use emacs_llvm.Base.{ℕ, zero, suc, String, none}
use emacs_llvm.Base.Json.{Json, Fields}
use emacs_llvm.Base.Exec.{lift}
use emacs_llvm.Protocol.Errors.{throw, internal}
use emacs_llvm.Protocol.Envelope.{ToolEnvelope}
use emacs_llvm.Sessions.{EmacsSession}
use emacs_llvm.Router.State.{Tool}
use emacs_llvm.Router.Call.{call}
use emacs_llvm.Router.Workflow.Steps.{workflow_step}
use emacs_llvm.Router.Workflow.Choice.{execute_semantic_workflow}

unfoldable pub semantic_workflow : ℕ → Fields → EmacsSession → Tool Json
semantic_workflow zero args session = lift (throw internal "A workflow in a workflow." none)
semantic_workflow (suc depth) args session =
    execute_semantic_workflow (workflow_step (call (semantic_workflow depth)) session.session_id)
      session args

unfoldable pub server_call : String → Json → Tool ToolEnvelope
server_call = call (semantic_workflow 1)
